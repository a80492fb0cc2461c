-- ===== src/Codec/Av1/Unit/Rebuilt.antt =====
-- What it means that src/codec/av1_obu.cc has built a temporal unit.
use qualcomm_iris_vaapi.Base.{
  ℕ, ◌+◌, ◌^◌, ◌≤◌, ◌<◌, ◌≡◌, refl, sym, subst, ap, ◌∙◌, Bool, true, false, not, List, [], ◌++◌,
  arith, length, length-append, ◌==◌, ==_iff,
}
use qualcomm_iris_vaapi.Codec.Writer.{BitWriter, written}
use qualcomm_iris_vaapi.Codec.Reader.Stream.{stream}
use qualcomm_iris_vaapi.Codec.Syntax.{on}
use qualcomm_iris_vaapi.Codec.Av1.Picture.{
  Picture, ReferenceState, SequenceState, TileEntry, Reject, Outcome, built, rejected, ◌>>=◌,
  require,
}
use qualcomm_iris_vaapi.Codec.Av1.Sequence.{write_obu, obu_header, build_sequence_header}
use qualcomm_iris_vaapi.Codec.Av1.Header.{frame_header}
use qualcomm_iris_vaapi.Codec.Av1.Unit.{
  tile_count, frame_payload, supported, leading_obus, av1_build_temporal_unit,
}
use qualcomm_iris_vaapi.Codec.Av1.Unit.Framing.{read_obus, expected, framed}

abbrev IsBuilt : {A : Type 0} → Outcome A → Type 0
IsBuilt (built a) = Unit {0}
IsBuilt (rejected r) = ⊥

rejected≢built : {A : Type 0} {r : Reject} {a : A} → rejected r ≡ built a → ⊥
rejected≢built e = subst IsBuilt (sym e) tt

abbrev built_or : {A : Type 0} → A → Outcome A → A
built_or d (built a) = a
built_or d (rejected r) = d

built_injective : {A : Type 0} {a b : A} → built a ≡ built b → a ≡ b
built_injective {a} e = ap (built_or a) e

-- A bind that has been built was built in both parts.
pub bind-built :
    {A B : Type 0} (m : Outcome A) (f : A → Outcome B) (b : B)
    → m >>= f ≡ built b
    → (a : A) × (m ≡ built a) × (f a ≡ built b)
unfolding ◌>>=◌
bind-built (built a) f b e = (a, refl, e)
bind-built (rejected r) f b e = absurd (rejected≢built e)

pub require-built : (c : Bool) (r : Reject) (a : Unit {0}) → require c r ≡ built a → c ≡ true
unfolding require
require-built true r a e = refl
require-built false r a e = absurd (rejected≢built e)

-- The frame can be rebuilt, and the unit splits into the delimiter, the sequence header if it was asked for, and the frame.
pub record Rebuilt (p : Picture) (s : SequenceState) (references : ReferenceState) (emit : Bool)
    (flags : ℕ) (tile_data : List ℕ) (tiles : List TileEntry) (unit : List ℕ) : Type 0 where
  pub header : BitWriter
  pub coded : frame_header p s references flags ≡ built header
  pub sequence : s.valid ≡ true
  pub profile : p.profile ≡ 0
  pub grain : on p.apply_grain ≡ false
  pub scale : on p.pic.large_scale_tile ≡ false
  pub counted : length tiles ≡ tile_count p
  pub split : read_obus 4 (stream unit) ≡ expected p s emit (frame_payload p header tile_data tiles)

not-true : (b : Bool) → not b ≡ true → b ≡ false
not-true true e = sym e
not-true false e = refl

length-write_obu :
    (out : List ℕ) (type : ℕ) (payload : List ℕ)
    → length out + length payload ≤ length (write_obu out type payload)
unfolding write_obu
length-write_obu out type payload = omega (
  arith,
  length-append out (written (obu_header type (length payload)) ++ payload),
  length-append (written (obu_header type (length payload))) payload,
)

leading_le :
    (p : Picture) (s : SequenceState) (emit : Bool)
    → emit ≡ true
    → length (build_sequence_header p s) ≤ length (leading_obus [] p s emit)
unfolding leading_obus
leading_le p s true e =
    omega (arith, length-write_obu (write_obu [] 2 []) 1 (build_sequence_header p s))
leading_le p s false e = absurd (ground (arith, e))

-- A unit of fewer than 128 ^ 10 bytes that has been built splits, for a reader that goes by the sizes in it, into a temporal delimiter, the sequence header where it was asked for, and the frame header with the tile group; the sequence state was valid, the profile is 0, and there is no film grain, no large scale tile, and a slice for each tile.
pub av1_build_temporal_unit-Rebuilt :
    (p : Picture) (s : SequenceState) (references : ReferenceState) (emit : Bool) (flags : ℕ)
    (tile_data : List ℕ) (tiles : List TileEntry) (unit : List ℕ)
    → av1_build_temporal_unit [] p s references emit flags tile_data tiles ≡ built unit
    → length unit < 128 ^ 10
    → Rebuilt p s references emit flags tile_data tiles unit
unfolding av1_build_temporal_unit supported
av1_build_temporal_unit-Rebuilt p s references emit flags tile_data tiles unit e fits =
    let (ok, able, e1) = bind-built (supported p s) _ unit e in
    let (ok1, valid, a1) = bind-built (require s.valid _) _ ok able in
    let (ok2, profile, a2) = bind-built (require (p.profile == 0) _) _ ok a1 in
    let (ok3, grain, scale) = bind-built (require (not (on p.apply_grain)) _) _ ok a2 in
    let (w, coded, e2) = bind-built (frame_header p s references flags) _ unit e1 in
    let (ok4, counted, e3) = bind-built (require (length tiles == tile_count p) _) _ unit e2 in
    let payload = frame_payload p w tile_data tiles in
    let same : write_obu (leading_obus [] p s emit) 6 payload ≡ unit = built_injective e3 in
    let whole = length-write_obu (leading_obus [] p s emit) 6 payload in
    record {
      header = w;
      coded = coded;
      sequence = require-built _ _ _ valid;
      profile = (==_iff _ _).0 (require-built _ _ _ profile);
      grain = not-true _ (require-built _ _ _ grain);
      scale = not-true _ (require-built _ _ _ scale);
      counted = (==_iff _ _).0 (require-built _ _ _ counted);
      split =
          ap (λ t. read_obus 4 (stream t)) (sym same)
          ∙ framed p s emit payload
              (λ t.
                omega
                  (arith, fits, whole, leading_le p s emit t, ap (λ (t : List ℕ). length t) same))
              (omega (arith, fits, whole, ap (λ (t : List ℕ). length t) same));
    }
