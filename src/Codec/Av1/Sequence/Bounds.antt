-- ===== src/Codec/Av1/Sequence/Bounds.antt =====
-- The sizes that src/codec/av1_obu.cc derives from the first picture of a sequence.
use qualcomm_iris_vaapi.Base.{
  ℕ, ◌+◌, ◌*◌, ◌^◌, ◌%◌, ◌≤◌, ◌<◌, max, inl, inr, List, [], ◌∷◌, ◌&&◌, leb, Bool-cases, All, arith,
  pow_mono,
}
use native.Mathlib.Decide.{dec_lt}
use qualcomm_iris_vaapi.Codec.Av1.Picture.{Picture}
use qualcomm_iris_vaapi.Codec.Av1.Sequence.{
  SizeLevel, size_levels, size_loop, level_for_size, ceil_log2, av1_sequence_state,
}
use qualcomm_iris_vaapi.Codec.Av1.Sequence.RoundTrip.{Sized}
use qualcomm_iris_vaapi.Codec.Av1.Tiles.Logs.{ceil_log2-Least}

size_loop_le :
    (width height : ℕ) (ls : List SizeLevel)
    → All (λ l. l.idx < 32) ls
    → size_loop width height ls < 32
unfolding size_loop
size_loop_le width height [] h = omega arith
size_loop_le width height (l ∷ ls) (small, h) =
    elim (Bool-cases (
      leb width l.max_width
      && leb height l.max_height
      && leb (width * height % 2 ^ 32) l.max_pixels)) [
        | inl fits ↦ rw fits small
        | inr more ↦ rw more (size_loop_le width height ls h)
      ]

level_lt : (width height : ℕ) → level_for_size width height < 32
unfolding level_for_size
level_lt width height = size_loop_le width height size_levels (
  omega arith,
  (omega arith, (omega arith, (omega arith, (omega arith, (omega arith, (omega arith, tt)))))),
)

record Fits (size bits : ℕ) : Type 0 where
  range : (0 < bits) × (bits ≤ 16)
  room : size ≤ 2 ^ bits

bits_fit : (size : ℕ) → 0 < size → size ≤ 2 ^ 16 → Fits size (max 1 (ceil_log2 size))
bits_fit size hs h =
    let least = ceil_log2-Least size hs (omega arith) in
    let k = ceil_log2 size in
    record {
      range = (
        omega arith,
        elim (dec_lt 16 k) [
          | yes more ↦ absurd (omega (arith, least.tight 16 more))
          | no less ↦ omega arith
        ],
      );
      room = omega (arith, least.enough, pow_mono k (max 1 k) (omega arith));
    }

-- The sequence state of a picture of at most 2 ^ 16 by 2 ^ 16 pixels, as the 16 bits of both fields give them, fits the fields of the sequence header: the level has five bits, the widths of the sizes are from 1 to 16, and the sizes less one have that many bits.
pub av1_sequence_state-Sized :
    (p : Picture)
    → p.frame_width_minus1 < 2 ^ 16
    → p.frame_height_minus1 < 2 ^ 16
    → Sized (av1_sequence_state p)
unfolding av1_sequence_state
av1_sequence_state-Sized p hw hh =
    let width = bits_fit (p.frame_width_minus1 + 1) (omega arith) (omega arith) in
    let height = bits_fit (p.frame_height_minus1 + 1) (omega arith) (omega arith) in
    record {
      level = level_lt (p.frame_width_minus1 + 1) (p.frame_height_minus1 + 1);
      width = width.range;
      height = height.range;
      max_width = (omega arith, width.room);
      max_height = (omega arith, height.room);
    }
