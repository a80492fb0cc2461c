-- ===== src/Codec/Av1/Translation/Order.antt =====
-- The order in which src/codec/av1.cc lets pictures go, against a queue of one picture.
use qualcomm_iris_vaapi.Base.{
  ℕ, ◌≡◌, refl, sym, ap, ◌∙◌, Bool, true, false, List, [], ◌∷◌, ◌++◌, append_assoc, append-nil, map,
  Option, none, some, if◌then◌else◌, not, ◌||◌, inl, inr, Bool-cases, All, arith,
}
use qualcomm_iris_vaapi.Codec.Av1.Picture.{Picture, Outcome, built, rejected}
use qualcomm_iris_vaapi.Codec.Av1.Unit.{av1_build_temporal_unit}
use qualcomm_iris_vaapi.Codec.Av1.Translation.{
  Submission, AccessUnit, Held, Translator, Result, done, failed, build, finish, release, then_hold,
  hold, is_key, flush_held, with_sequence, previous_refresh, cleared, translate_picture, translate,
  flush,
}

-- The surface of the picture that is held.
abbrev pub surface_of : Option Held → List ℕ
surface_of none = []
surface_of (some h) = h.surface ∷ []

abbrev pub queue : Translator → List ℕ
queue t = surface_of t.held

-- The surface that an access unit is for, unless it is put off.
abbrev pub released : AccessUnit → List ℕ
released out = if out.deferred then [] else out.released_surface ∷ []

-- What one call promises: it lets the held picture go and holds the new one, or throws and holds none.
abbrev pub Passes : Translator → ℕ → Translator × Result → Type 0
Passes t surface (t', done out) =
    (released out ++ queue t' ≡ queue t ++ (surface ∷ [])) × (queue t' ≡ surface ∷ [])
Passes t surface (t', failed f) = queue t' ≡ []

finish-Passes :
    (t : Translator) (h : Held) (s : Submission) (p : Picture) (flags : ℕ) (out : AccessUnit)
    (o : Outcome (List ℕ))
    → t.held ≡ some h
    → out.deferred ≡ false
    → Passes t s.surface_id (then_hold s p (finish t h flags out o))
unfolding then_hold finish hold
finish-Passes t h s p flags out (built unit) e d = (rw (e, d) refl, refl)
finish-Passes t h s p flags out (rejected r) e d = refl

pub with_sequence-held : (t : Translator) (p : Picture) → (with_sequence t p).held ≡ t.held
unfolding with_sequence
with_sequence-held t p = elim (Bool-cases (not t.seen_sequence || is_key p)) [
  | inl e ↦ rw e refl
  | inr e ↦ rw e refl
]

release-Passes :
    (t : Translator) (held : Option Held) (s : Submission) (p : Picture) (out : AccessUnit)
    → t.held ≡ held
    → Passes t s.surface_id (then_hold s p (release t held p out))
unfolding release build hold
release-Passes t none s p out e = (rw e refl, refl)
release-Passes t (some h) s p out e =
    finish-Passes t h s p (previous_refresh p h) (cleared out) _ e refl

same_queue :
    (t t' : Translator) (surface : ℕ) (r : Translator × Result)
    → queue t ≡ queue t'
    → Passes t surface r
    → Passes t' surface r
same_queue t t' surface (u, done out) e (a, b) = (a ∙ ap (λ q. q ++ (surface ∷ [])) e, b)
same_queue t t' surface (u, failed f) e a = a

-- A call with the parameters of a picture lets the surface that was held go, or none if none was held, and holds the surface of the picture; or it throws, and then holds none.
pub translate-Passes :
    (t : Translator) (s : Submission) (p : Picture) (out : AccessUnit)
    → s.parameters ≡ some p
    → Passes t s.surface_id (translate t s out)
unfolding translate translate_picture
translate-Passes t s p out e =
    let begun = with_sequence t p in
    rw e (
      same_queue begun t s.surface_id (then_hold s p (release begun begun.held p out))
        (ap surface_of (with_sequence-held t p)) (release-Passes begun begun.held s p out refl))

-- The access units of pictures in their order until a call throws, and whether one did.
abbrev pub units_then :
    (Translator → AccessUnit → List AccessUnit × Bool)
    → Translator × Result
    → List AccessUnit × Bool
units_then more (t, done out) = let (us, thrown) = more t out in (out ∷ us, thrown)
units_then more (t, failed f) = ([], true)

abbrev pub flushed : Translator × Option Result → List AccessUnit × Bool
flushed (t, none) = ([], false)
flushed (t, some (done out)) = (out ∷ [], false)
flushed (t, some (failed f)) = ([], true)

-- The pictures one after the other, and then the flush.
unfoldable pub play : List Submission → Translator → AccessUnit → List AccessUnit × Bool
play [] t out = flushed (flush t out)
play (s ∷ ss) t out = units_then (play ss) (translate t s out)

abbrev pub surfaces : List AccessUnit → List ℕ
surfaces [] = []
surfaces (u ∷ us) = released u ++ surfaces us

abbrev pub HasParameters : Submission → Type 0
HasParameters s = (p : Picture) × (s.parameters ≡ some p)

-- The surfaces of the units are the first of those expected, and all of them if no call threw.
pub record Delivered (r : List AccessUnit × Bool) (expected : List ℕ) : Type 0 where
  pub lost : List ℕ
  pub order : surfaces r.0 ++ lost ≡ expected
  pub complete : r.1 ≡ false → lost ≡ []

nothing_yet : (expected : List ℕ) → Delivered ([], true) expected
nothing_yet expected = record { lost = expected; order = refl; complete = λ e. ground (arith, e) }

flush_held-Delivered :
    (t : Translator) (held : Option Held) (out : AccessUnit)
    → Delivered (flushed (flush_held t held out)) (surface_of held)
unfolding build
flush_held-Delivered t none out = record { lost = []; order = refl; complete = λ e. refl }
flush_held-Delivered t (some h) out = finished (
    av1_build_temporal_unit [] h.picture t.sequence t.references h.emits_sequence_header 0
      h.tile_data h.tiles)
  where
    finished :
        (o : Outcome (List ℕ))
        → Delivered
            (flushed (
              (finish t h 0 (record out { bytes = []; deferred = false }) o).0,
              some (finish t h 0 (record out { bytes = []; deferred = false }) o).1,
            ))
            (h.surface ∷ [])
    finished (built unit) = record { lost = []; order = refl; complete = λ e. refl }
    finished (rejected r) = nothing_yet _

units_then-Delivered :
    (t : Translator) (surface : ℕ) (r : Translator × Result) (expected : List ℕ)
    (more : Translator → AccessUnit → List AccessUnit × Bool)
    → Passes t surface r
    → ((t' : Translator) (out : AccessUnit) → Delivered (more t' out) (queue t' ++ expected))
    → Delivered (units_then more r) (queue t ++ (surface ∷ expected))
units_then-Delivered t surface (t', done out) expected more (passed, holds) rest =
    let later = rest t' out in
    record {
      lost = later.lost;
      order =
          append_assoc (released out) (surfaces (more t' out).0) later.lost
          ∙ ap (λ q. released out ++ q) later.order
          ∙ sym (append_assoc (released out) (queue t') expected)
          ∙ ap (λ q. q ++ expected) passed
          ∙ append_assoc (queue t) (surface ∷ []) expected;
      complete = later.complete;
    }
units_then-Delivered t surface (t', failed f) expected more a rest = nothing_yet _

-- Pictures with parameters that are translated one after the other and then flushed come out in the order in which they came in, behind the one that was held, each once: the surfaces of the access units that are not put off are the first of the surfaces expected, and all of them if no call throws.
pub play-Delivered :
    (ss : List Submission) (t : Translator) (out : AccessUnit)
    → All HasParameters ss
    → Delivered (play ss t out) (queue t ++ map (λ s. s.surface_id) ss)
unfolding flush play
play-Delivered [] t out h = rw (append-nil (queue t)) (flush_held-Delivered t t.held out)
play-Delivered (s ∷ ss) t out ((p, e), h) =
    units_then-Delivered t s.surface_id (translate t s out) (map (λ s. s.surface_id) ss) (play ss)
      (translate-Passes t s p out e) (λ t' out'. play-Delivered ss t' out' h)
