-- ===== src/Codec/Hevc/Translation/Access.antt =====
-- Random access in src/codec/hevc.cc.
use qualcomm_iris_vaapi.Base.{
  ℕ, ◌≤◌, ◌<◌, ◌≢◌, ◌⊎◌, ◌≡◌, refl, Bool, true, false, not, ◌&&◌, ◌||◌, List, [], get_or, leb,
  arith,
}
use qualcomm_iris_vaapi.Codec.Hevc.Translation.{
  HevcSubmission, HevcTranslator, HevcFailure, HevcUnit, Made, made, failed, ◌>>=◌, require,
  nals_of, nal_type, within, is_irap, is_rasl, admitted, unit_of, started_by, with_unit, with_nals,
  with_accepted, accepted, kept_matrix, translate,
}

-- What is made satisfies `P`.
abbrev pub Sure : {A : Type 0} → (A → Type 0) → Made A → Type 0
Sure P (made a) = P a
Sure P (failed f) = Unit {0}

bind-Sure :
    {A B : Type 0} (P : A → Type 0) (Q : B → Type 0) (m : Made A) (f : A → Made B)
    → Sure P m
    → ((a : A) → P a → Sure Q (f a))
    → Sure Q (m >>= f)
unfolding ◌>>=◌
bind-Sure P Q (made a) f h rest = rest a h
bind-Sure P Q (failed r) f h rest = tt

no_more : {A : Type 0} (m : Made A) → Sure (λ a. Unit {0}) m
no_more (made a) = tt
no_more (failed f) = tt

require-Sure : (c : Bool) (f : HevcFailure) → Sure (λ ok. c ≡ true) (require c f)
unfolding require
require-Sure true f = refl
require-Sure false f = tt

-- A picture of this type may be decoded now, and its unit tells whether it starts a sequence.
pub record Allowed (t : HevcTranslator) (type : ℕ) (u : HevcUnit) : Type 0 where
  pub begun : t.started ≡ false → (16 ≤ type) × (type ≤ 21)
  pub complete : t.no_rasl_output ≡ true → (type ≢ 8) × (type ≢ 9)
  pub start : u.sequence_start ≡ within 16 type 23

-- Both conditions of the start.
abbrev Open : HevcTranslator → ℕ → Type 0
Open t type = ((t.started || is_irap type) ≡ true) × (not (t.no_rasl_output && is_rasl type) ≡ true)

both_required :
    (a b : Bool) (f g : HevcFailure)
    → Sure (λ ok. (a ≡ true) × (b ≡ true)) (require a f >>= λ ok. require b g)
unfolding require ◌>>=◌
both_required true true f g = (refl, refl)
both_required true false f g = tt
both_required false b f g = tt

admitted-Open : (t : HevcTranslator) (type : ℕ) → Sure (λ ok. Open t type) (admitted t type)
unfolding admitted
admitted-Open t type =
    both_required (t.started || is_irap type) (not (t.no_rasl_output && is_rasl type)) _ _

begun_of :
    (t : HevcTranslator) (type : ℕ)
    → (t.started || is_irap type) ≡ true
    → t.started ≡ false
    → (16 ≤ type) × (type ≤ 21)
begun_of t type e new = let h = rw new at e in (ground (arith, h), ground (arith, h))

complete_of :
    (t : HevcTranslator) (type : ℕ)
    → not (t.no_rasl_output && is_rasl type) ≡ true
    → t.no_rasl_output ≡ true
    → (type ≢ 8) × (type ≢ 9)
complete_of t type e lost = let h = rw lost at e in (ground (arith, h), ground (arith, h))

unit_of-Allowed :
    (t : HevcTranslator) (s : HevcSubmission) (nals : List (List ℕ)) (type : ℕ)
    → Sure (Allowed t type) (unit_of t s nals type)
unfolding unit_of
unit_of-Allowed t s nals type =
    let Q = Allowed t type in
    bind-Sure (λ ok. Open t type) Q (admitted t type) _ (admitted-Open t type)
      (λ ok may.
        bind-Sure (λ refs. Unit {0}) Q _ _ (no_more _)
          (λ refs h.
            bind-Sure (λ bytes. Unit {0}) Q _ _ (no_more _)
              (λ bytes h. record {
                begun = begun_of t type may.0;
                complete = complete_of t type may.1;
                start = refl;
              })))

-- NoRaslOutputFlag, which tells that leading pictures are to be left out: set by IDR and BLA pictures
-- and by a CRA picture that is the first one, cleared by any other CRA picture, kept by the rest.
pub record Leading (t : HevcTranslator) (type : ℕ) (flag : Bool) : Type 0 where
  pub idr_or_bla : 16 ≤ type → type ≤ 20 → flag ≡ true
  pub first_cra : type ≡ 21 → t.started ≡ false → flag ≡ true
  pub later_cra : type ≡ 21 → t.started ≡ true → flag ≡ false
  pub other : (type < 16) ⊎ (21 < type) → flag ≡ t.no_rasl_output

started_by-Leading :
    (t : HevcTranslator) (type : ℕ) → Leading t type (started_by t type).no_rasl_output
started_by-Leading t type = record {
  idr_or_bla = λ low high.
      let irap : is_irap type ≡ true = ground (arith, low, high) in
      let closed : leb type 20 ≡ true = ground (arith, high) in
      rw (irap, closed) (or_true t.started);
  first_cra = λ cra new. rw (cra, new) refl;
  later_cra = λ cra begun. rw (cra, begun) refl;
  other = λ outside. let plain : is_irap type ≡ false = ground (arith, outside) in rw plain refl;
}
  where
    or_true : (b : Bool) → (not b || true) ≡ true
    or_true true = refl
    or_true false = refl

-- The picture that was decoded has this type.
pub record Decoded (t : HevcTranslator) (s : HevcSubmission) (t' : HevcTranslator) (u : HevcUnit)
    : Type 0 where
  pub nals : List (List ℕ)
  pub found : nals_of s ≡ made nals
  pub allowed : Allowed t (nal_type (get_or nals 0 [])) u
  pub started : t'.started ≡ true
  pub leading : Leading t (nal_type (get_or nals 0 [])) t'.no_rasl_output

-- What a call leaves: where it throws, decoding stands where it stood.
abbrev pub Passed : HevcTranslator → HevcSubmission → HevcTranslator × Made HevcUnit → Type 0
Passed t s (t', made u) = Decoded t s t' u
Passed t s (t', failed f) = (t'.started ≡ t.started) × (t'.no_rasl_output ≡ t.no_rasl_output)

with_unit-Passed :
    (t : HevcTranslator) (s : HevcSubmission) (nals : List (List ℕ)) (m : Made HevcUnit)
    → nals_of s ≡ made nals
    → Sure (Allowed t (nal_type (get_or nals 0 []))) m
    → Passed t s (with_unit t (nal_type (get_or nals 0 [])) m)
with_unit-Passed t s nals (made u) e h = record {
  nals = nals;
  found = e;
  allowed = h;
  started = refl;
  leading = started_by-Leading t (nal_type (get_or nals 0 []));
}
with_unit-Passed t s nals (failed f) e h = (refl, refl)

with_nals-Passed :
    (t : HevcTranslator) (s : HevcSubmission) (m : Made (List (List ℕ)))
    → nals_of s ≡ m
    → Passed t s (with_nals t s m)
with_nals-Passed t s (made nals) e =
    let type = nal_type (get_or nals 0 []) in
    with_unit-Passed t s nals (unit_of t s nals type) e (unit_of-Allowed t s nals type)
with_nals-Passed t s (failed f) e = (refl, refl)

with_matrix-Passed :
    (t : HevcTranslator) (s : HevcSubmission) (r : HevcTranslator × Made HevcUnit)
    → Passed (record t { scaling = kept_matrix t s }) s r
    → Passed t s r
with_matrix-Passed t s (v, made u) h = record {
  nals = h.nals;
  found = h.found;
  allowed = record {
    begun = h.allowed.begun;
    complete = h.allowed.complete;
    start = h.allowed.start;
  };
  started = h.started;
  leading = record {
    idr_or_bla = h.leading.idr_or_bla;
    first_cra = h.leading.first_cra;
    later_cra = h.leading.later_cra;
    other = h.leading.other;
  };
}
with_matrix-Passed t s (v, failed g) h = h

with_accepted-Passed :
    (t : HevcTranslator) (s : HevcSubmission) (m : Made (Unit {0}))
    → Passed t s (with_accepted t s m)
with_accepted-Passed t s (failed f) = (refl, refl)
with_accepted-Passed t s (made ok) =
    let t' = record t { scaling = kept_matrix t s } in
    with_matrix-Passed t s (with_nals t' s (nals_of s)) (with_nals-Passed t' s (nals_of s) refl)

-- A picture that is decoded has a type from 16 to 21 or follows one that was decoded, and is not of the types 8 and 9 where those are left out; its unit starts a sequence exactly if its type is from 16 to 23. Behind it the types 8 and 9 are left out if its type is from 16 to 20 or it is a first picture of type 21, are not if it is a later picture of type 21, and else as before it. A call that throws leaves this state as it was.
pub translate-Passed : (t : HevcTranslator) (s : HevcSubmission) → Passed t s (translate t s)
unfolding translate
translate-Passed t s = with_accepted-Passed t s (accepted t s)
