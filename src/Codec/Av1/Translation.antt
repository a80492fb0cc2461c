-- ===== src/Codec/Av1/Translation.antt =====
-- src/codec/av1.cc, class AV1: each picture is held back until the next one shows what it refreshed.
pub mod Order
pub mod Slots
pub mod Units
pub mod References
use qualcomm_iris_vaapi.Base.{
  ℕ, zero, suc, ◌+◌, ◌-◌, ◌^◌, Bool, true, false, not, ◌&&◌, ◌||◌, List, [], ◌∷◌, ◌++◌, Option,
  none, some, ◌==◌, if◌then◌else◌, get_or, set,
}
use qualcomm_iris_vaapi.Codec.Av1.Picture.{
  Picture, ReferenceState, SequenceState, TileEntry, Reject, Outcome, built, rejected,
}
use qualcomm_iris_vaapi.Codec.Av1.Sequence.{av1_sequence_state}
use qualcomm_iris_vaapi.Codec.Av1.Motion.{refreshes, av1_update_reference_gm}
use qualcomm_iris_vaapi.Codec.Av1.Unit.{av1_build_temporal_unit}

-- VA_INVALID_ID, and VA_INVALID_SURFACE
abbrev pub invalid_id : ℕ
invalid_id = 2 ^ 32 - 1

-- The buffers of a picture; the parameters may be missing.
pub record Submission : Type 0 where
  pub parameters : Option Picture
  pub slice_parameters : List TileEntry
  pub slice_data : List (List ℕ)
  pub surface_id : ℕ

pub record AccessUnit : Type 0 where
  pub bytes : List ℕ
  pub sequence_start : Bool
  pub deferred : Bool
  pub released_surface : ℕ

-- The fields that the source keeps of the held picture, which it reads while `held_` is set.
pub record Held : Type 0 where
  pub surface : ℕ
  pub picture : Picture
  pub tiles : List TileEntry
  pub tile_data : List ℕ
  pub emits_sequence_header : Bool
  pub sequence_start : Bool

pub record Translator : Type 0 where
  pub sequence : SequenceState
  pub references : ReferenceState
  pub seen_sequence : Bool
  pub emit_sequence_header : Bool
  pub held : Option Held

-- What a call throws.
pub data Failure : Type 0 where
  no_parameters : Failure
  unsupported : Reject → Failure

pub data Result : Type 0 where
  done : AccessUnit → Result
  failed : Failure → Result

-- The order hints of the slots from `slot` on, `left` of them.
unfoldable pub update_order_hints : ℕ → ℕ → ℕ → ℕ → List ℕ → List ℕ
update_order_hints zero slot flags hint hints = hints
update_order_hints (suc left) slot flags hint hints =
    update_order_hints left (slot + 1) flags hint
      (if refreshes flags slot then set hints slot hint else hints)

-- The references behind a frame.
unfoldable pub updated_references : ReferenceState → Picture → ℕ → ReferenceState
unfolding update_order_hints
updated_references references p flags =
    av1_update_reference_gm
      (record references {
        order_hint = update_order_hints 8 0 flags p.order_hint references.order_hint;
      })
      p flags

-- What a translator is once it has built the held picture, and what its caller gets.
abbrev pub finish : Translator → Held → ℕ → AccessUnit → Outcome (List ℕ) → Translator × Result
unfolding updated_references
finish t h flags out (built unit) = (
  record t { held = none; references = updated_references t.references h.picture flags },
  done (record out {
    bytes = unit;
    sequence_start = h.sequence_start;
    released_surface = h.surface;
  }),
)
finish t h flags out (rejected r) = (record t { held = none }, failed (unsupported r))

unfoldable pub build : Translator → Held → ℕ → AccessUnit → Translator × Result
unfolding finish
build t h flags out = finish t h flags out (
    av1_build_temporal_unit out.bytes h.picture t.sequence t.references h.emits_sequence_header
      flags h.tile_data h.tiles)

-- The slots from `slot` on, `left` of them, that hold the surface.
unfoldable pub refreshed : ℕ → ℕ → List ℕ → ℕ → ℕ
refreshed zero slot ref_frame_map surface = 0
refreshed (suc left) slot ref_frame_map surface =
    (if get_or ref_frame_map slot invalid_id == surface && not (surface == invalid_id)
      then 2 ^ slot
      else 0)
    + refreshed left (slot + 1) ref_frame_map surface

unfoldable pub previous_refresh : Picture → Held → ℕ
unfolding refreshed
previous_refresh p h = refreshed 8 0 p.ref_frame_map h.picture.current_frame

abbrev pub is_key : Picture → Bool
is_key p = p.pic.frame_type == 0

-- A key frame, or the first picture, starts a sequence.
unfoldable pub with_sequence : Translator → Picture → Translator
with_sequence t p =
    let begun = record t {
      sequence = av1_sequence_state p;
      seen_sequence = true;
      emit_sequence_header = true;
    } in
    if not t.seen_sequence || is_key p then begun else t

unfoldable pub joined : List (List ℕ) → List ℕ
joined [] = []
joined (d ∷ ds) = d ++ joined ds

-- The picture takes the place of the held one.
unfoldable pub hold : Translator → Submission → Picture → Translator
unfolding joined
hold t s p = record t {
  held = some (record {
    surface = s.surface_id;
    picture = p;
    tiles = s.slice_parameters;
    tile_data = joined s.slice_data;
    emits_sequence_header = t.emit_sequence_header;
    sequence_start = is_key p;
  });
  emit_sequence_header = false;
}

abbrev pub cleared : AccessUnit → AccessUnit
cleared out = record out { bytes = []; deferred = false; sequence_start = false }

-- The held picture, if there is one, goes into the access unit.
abbrev pub release : Translator → Option Held → Picture → AccessUnit → Translator × Result
unfolding build previous_refresh
release t none p out = (t, done (record (cleared out) { deferred = true }))
release t (some h) p out = build t h (previous_refresh p h) (cleared out)

-- A throw leaves before the picture is held.
abbrev pub then_hold : Submission → Picture → Translator × Result → Translator × Result
unfolding hold
then_hold s p (t, done out) = (hold t s p, done out)
then_hold s p (t, failed f) = (t, failed f)

unfoldable pub translate_picture :
    Translator → Submission → Picture → AccessUnit → Translator × Result
unfolding release then_hold with_sequence
translate_picture t s p out = let t' = with_sequence t p in then_hold s p (release t' t'.held p out)

unfoldable pub translate : Translator → Submission → AccessUnit → Translator × Result
unfolding translate_picture
translate t s out = elim s.parameters [
  | none ↦ (t, failed no_parameters)
  | some p ↦ translate_picture t s p out
]

-- Whether a picture was held, with what became of it.
abbrev pub flush_held : Translator → Option Held → AccessUnit → Translator × Option Result
unfolding build
flush_held t none out = (t, none)
flush_held t (some h) out =
    let (t', r) = build t h 0 (record out { bytes = []; deferred = false }) in (t', some r)

unfoldable pub flush : Translator → AccessUnit → Translator × Option Result
unfolding flush_held
flush t out = flush_held t t.held out

unfoldable pub held_surface : Translator → ℕ
held_surface t = elim t.held [ none ↦ invalid_id | some h ↦ h.surface ]
