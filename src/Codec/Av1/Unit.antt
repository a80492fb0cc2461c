-- ===== src/Codec/Av1/Unit.antt =====
-- src/codec/av1_obu.cc: the temporal unit.
pub mod Framing
pub mod TileSizes
pub mod Rebuilt
use qualcomm_iris_vaapi.Base.{
  ℕ, zero, suc, ◌*◌, ◌/◌, ◌%◌, ◌^◌, Bool, not, List, [], ◌∷◌, ◌++◌, ltb, ◌==◌, if◌then◌else◌,
  length, drop,
}
use qualcomm_iris_vaapi.Codec.Writer.{BitWriter, written, byte_align}
use qualcomm_iris_vaapi.Codec.Syntax.{on, bit, when}
use qualcomm_iris_vaapi.Codec.Av1.Picture.{
  Picture, ReferenceState, SequenceState, TileEntry, Outcome, built, ◌>>=◌, require, no_sequence,
  other_profile, film_grain, large_scale, tile_payloads,
}
use qualcomm_iris_vaapi.Codec.Av1.Sequence.{write_obu, build_sequence_header}
use qualcomm_iris_vaapi.Codec.Av1.Motion.{sub_u32}
use qualcomm_iris_vaapi.Codec.Av1.Header.{frame_header}

abbrev pub take : ℕ → List ℕ → List ℕ
take zero bs = []
take (suc n) [] = []
take (suc n) (b ∷ bs) = b ∷ take n bs

-- The bytes of a tile, which the source does not check against the end of the data.
abbrev pub tile_bytes : List ℕ → TileEntry → List ℕ
tile_bytes tile_data tile = take tile.size (drop tile.offset tile_data)

abbrev pub le32 : ℕ → List ℕ
le32 n = n % 256 ∷ n / 2 ^ 8 % 256 ∷ n / 2 ^ 16 % 256 ∷ n / 2 ^ 24 % 256 ∷ []

-- Every tile but the last has its size less one in front.
unfoldable pub tile_payload : List ℕ → List TileEntry → List ℕ
tile_payload tile_data [] = []
tile_payload tile_data (tile ∷ []) = tile_bytes tile_data tile
tile_payload tile_data (tile ∷ next ∷ tiles) =
    le32 (sub_u32 tile.size 1)
    ++ (tile_bytes tile_data tile ++ tile_payload tile_data (next ∷ tiles))

abbrev pub tile_count : Picture → ℕ
tile_count p = p.tile_cols * p.tile_rows

-- The tile group behind the header.
unfoldable pub frame_payload : Picture → BitWriter → List ℕ → List TileEntry → List ℕ
unfolding tile_payload
frame_payload p w tile_data tiles =
    written (byte_align (when (ltb 1 (tile_count p)) (bit 0) w)) ++ tile_payload tile_data tiles

unfoldable pub supported : Picture → SequenceState → Outcome (Unit {0})
supported p s = do
  ok ← require s.valid no_sequence
  ok ← require (p.profile == 0) other_profile
  ok ← require (not (on p.apply_grain)) film_grain
  require (not (on p.pic.large_scale_tile)) large_scale

unfoldable pub leading_obus : List ℕ → Picture → SequenceState → Bool → List ℕ
leading_obus out p s emit_sequence_header =
    let delimited = write_obu out 2 [] in
    let headed = write_obu delimited 1 (build_sequence_header p s) in
    if emit_sequence_header then headed else delimited

unfoldable pub av1_build_temporal_unit :
    List ℕ
    → Picture
    → SequenceState
    → ReferenceState
    → Bool
    → ℕ
    → List ℕ
    → List TileEntry
    → Outcome (List ℕ)
unfolding supported frame_payload leading_obus
av1_build_temporal_unit out p s references emit_sequence_header flags tile_data tiles = do
  ok ← supported p s
  w ← frame_header p s references flags
  ok ← require (length tiles == tile_count p) tile_payloads
  built
      (write_obu (leading_obus out p s emit_sequence_header) 6 (frame_payload p w tile_data tiles))
