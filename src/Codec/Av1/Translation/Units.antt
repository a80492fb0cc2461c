-- ===== src/Codec/Av1/Translation/Units.antt =====
-- What src/codec/av1.cc puts into the access unit of a picture that it lets go.
use qualcomm_iris_vaapi.Base.{
  ℕ, ◌<◌, ◌^◌, ◌≡◌, refl, sym, ap, subst, ◌∙◌, inl, inr, Bool-cases, not, ◌||◌, List, [], Option,
  none, some, if◌then◌else◌, length,
}
use qualcomm_iris_vaapi.Codec.Av1.Picture.{
  Picture, ReferenceState, SequenceState, Reject, Outcome, built, rejected,
}
use qualcomm_iris_vaapi.Codec.Av1.Sequence.{av1_sequence_state}
use qualcomm_iris_vaapi.Codec.Av1.Unit.{av1_build_temporal_unit}
use qualcomm_iris_vaapi.Codec.Av1.Unit.Rebuilt.{Rebuilt, av1_build_temporal_unit-Rebuilt}
use qualcomm_iris_vaapi.Codec.Av1.Translation.{
  Submission, AccessUnit, Held, Translator, no_parameters, unsupported, Result, done, failed, build,
  finish, release, then_hold, hold, is_key, with_sequence, previous_refresh, updated_references,
  cleared, translate_picture, translate,
}
use qualcomm_iris_vaapi.Codec.Av1.Translation.Order.{with_sequence-held}

-- The sequence state after a picture has come in.
abbrev pub sequence_behind : Translator → Picture → SequenceState
sequence_behind t p = if not t.seen_sequence || is_key p then av1_sequence_state p else t.sequence

-- The held picture was rebuilt, and its unit tells what it is; or it is lost, and the references stay.
abbrev pub LetsGo : Held → SequenceState → ReferenceState → ℕ → Translator × Result → Type 0
LetsGo h s references flags (t', done u) =
    (length u.bytes < 128 ^ 10
      → Rebuilt h.picture s references h.emits_sequence_header flags h.tile_data h.tiles u.bytes)
    × (u.sequence_start ≡ h.sequence_start)
    × (t'.references ≡ updated_references references h.picture flags)
LetsGo h s references flags (t', failed f) =
    (r : Reject) × (f ≡ unsupported r)
    × (av1_build_temporal_unit [] h.picture s references h.emits_sequence_header flags h.tile_data
          h.tiles
        ≡ rejected r)
    × (t'.references ≡ references)

finish-LetsGo :
    (t : Translator) (h : Held) (s : Submission) (p : Picture) (flags : ℕ) (out : AccessUnit)
    (o : Outcome (List ℕ))
    → av1_build_temporal_unit [] h.picture t.sequence t.references h.emits_sequence_header flags
        h.tile_data h.tiles
      ≡ o
    → LetsGo h t.sequence t.references flags (then_hold s p (finish t h flags out o))
unfolding then_hold finish hold
finish-LetsGo t h s p flags out (built unit) e = (
  λ short.
      av1_build_temporal_unit-Rebuilt h.picture t.sequence t.references h.emits_sequence_header
        flags h.tile_data h.tiles unit e short,
  refl,
  refl,
)
finish-LetsGo t h s p flags out (rejected r) e = (r, refl, e, refl)

with_sequence-references :
    (t : Translator) (p : Picture) → (with_sequence t p).references ≡ t.references
unfolding with_sequence
with_sequence-references t p = elim (Bool-cases (not t.seen_sequence || is_key p)) [
  | inl e ↦ rw e refl
  | inr e ↦ rw e refl
]

with_sequence-sequence :
    (t : Translator) (p : Picture) → (with_sequence t p).sequence ≡ sequence_behind t p
unfolding with_sequence
with_sequence-sequence t p = elim (Bool-cases (not t.seen_sequence || is_key p)) [
  | inl e ↦ rw e refl
  | inr e ↦ rw e refl
]

translate-translate_picture :
    (t : Translator) (s : Submission) (p : Picture) (out : AccessUnit)
    → s.parameters ≡ some p
    → translate_picture t s p out ≡ translate t s out
unfolding translate
translate-translate_picture t s p out e = sym (ap by_parameters e)
  where
    by_parameters : Option Picture → Translator × Result
    by_parameters none = (t, failed no_parameters)
    by_parameters (some p) = translate_picture t s p out

release-LetsGo :
    (t : Translator) (held : Option Held) (h : Held) (s : Submission) (p : Picture)
    (out : AccessUnit)
    → held ≡ some h
    → LetsGo h t.sequence t.references (previous_refresh p h) (then_hold s p (release t held p out))
unfolding release build
release-LetsGo t held h s p out e =
    rw e (finish-LetsGo t h s p (previous_refresh p h) (cleared out) _ refl)

-- When a picture comes in behind a held one, the held one is built with the refresh flags that the new picture's reference map tells, and with the sequence state as the new picture leaves it, which a key frame has replaced by its own: either the unit of fewer than 128 ^ 10 bytes splits into that picture's OBUs and the references are updated by it, or the call throws the reason for which the picture was rejected and the references stay.
pub translate-LetsGo :
    (t : Translator) (h : Held) (s : Submission) (p : Picture) (out : AccessUnit)
    → t.held ≡ some h
    → s.parameters ≡ some p
    → LetsGo h (sequence_behind t p) t.references (previous_refresh p h) (translate t s out)
unfolding translate_picture
translate-LetsGo t h s p out held e =
    let begun = with_sequence t p in
    let flags = previous_refresh p h in
    let gone = release-LetsGo begun begun.held h s p out (with_sequence-held t p ∙ held) in
    subst (λ r. LetsGo h (sequence_behind t p) t.references flags r)
      (translate-translate_picture t s p out e)
      (subst (λ q. LetsGo h q t.references flags (translate_picture t s p out))
        (with_sequence-sequence t p)
        (subst (λ r. LetsGo h begun.sequence r flags (translate_picture t s p out))
          (with_sequence-references t p) gone))
