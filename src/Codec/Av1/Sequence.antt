-- ===== src/Codec/Av1/Sequence.antt =====
-- src/codec/av1_obu.cc: the sequence header, and OBUs.
pub mod RoundTrip
pub mod Colors
pub mod Bounds
use qualcomm_iris_vaapi.Base.{
  ℕ, zero, suc, ◌+◌, ◌-◌, ◌*◌, ◌/◌, ◌%◌, ◌^◌, max, Bool, true, false, not, ◌&&◌, ◌||◌, List, [],
  ◌∷◌, ◌++◌, ltb, leb, ◌==◌, if◌then◌else◌, length,
}
use qualcomm_iris_vaapi.Base.Int.{ℤ, pos, negsuc}
use qualcomm_iris_vaapi.Codec.Writer.{BitWriter, empty, written, leb128, trailing_bits}
use qualcomm_iris_vaapi.Codec.Syntax.{Write, ◌>>◌, on, bit, bits, bool, when}
use qualcomm_iris_vaapi.Codec.Av1.Picture.{Picture, SequenceState}

-- The rounds of the loop on `n = value - 1`, on fuel.
unfoldable pub ceil_log2_fuel : ℕ → ℕ → ℕ
ceil_log2_fuel zero n = 0
ceil_log2_fuel (suc f) n = let rest = ceil_log2_fuel f (n / 2) in if n == 0 then 0 else suc rest

unfoldable pub ceil_log2 : ℕ → ℕ
unfolding ceil_log2_fuel
ceil_log2 value = if ltb value 2 then 0 else ceil_log2_fuel 32 (value - 1)

-- A level of the table: its index, and its limits.
pub record SizeLevel : Type 0 where
  pub idx : ℕ
  pub max_width : ℕ
  pub max_height : ℕ
  pub max_pixels : ℕ

abbrev size_level : ℕ → ℕ → ℕ → ℕ → SizeLevel
size_level idx width height pixels = record {
  idx = idx;
  max_width = width;
  max_height = height;
  max_pixels = pixels;
}

abbrev pub size_levels : List SizeLevel
size_levels =
    size_level 0 2048 1152 147456
    ∷ size_level 1 2816 1584 278784
    ∷ size_level 4 4352 2448 665856
    ∷ size_level 5 5504 3096 1065024
    ∷ size_level 8 6144 3456 2359296
    ∷ size_level 12 8192 4352 8912896
    ∷ size_level 16 16384 8704 35651584
    ∷ []

unfoldable pub size_loop : ℕ → ℕ → List SizeLevel → ℕ
size_loop width height [] = 16
size_loop width height (l ∷ ls) =
    if leb width l.max_width
      && leb height l.max_height
      && leb (width * height % 2 ^ 32) l.max_pixels
    then l.idx
    else size_loop width height ls

unfoldable pub level_for_size : ℕ → ℕ → ℕ
unfolding size_loop
level_for_size width height = size_loop width height size_levels

abbrev pub same_int : ℤ → ℤ → Bool
same_int (pos a) (pos b) = a == b
same_int (negsuc a) (negsuc b) = a == b
same_int _ _ = false

-- The chroma planes are quantized differently.
abbrev pub uv_differ : Picture → Bool
uv_differ p =
    not (same_int p.v_dc_delta_q p.u_dc_delta_q) || not (same_int p.v_ac_delta_q p.u_ac_delta_q)

unfoldable pub av1_sequence_state : Picture → SequenceState
unfolding ceil_log2 level_for_size
av1_sequence_state p =
    let width = p.frame_width_minus1 + 1 in
    let height = p.frame_height_minus1 + 1 in
    record {
      max_frame_width = width;
      max_frame_height = height;
      frame_width_bits = max 1 (ceil_log2 width);
      frame_height_bits = max 1 (ceil_log2 height);
      seq_level_idx = level_for_size width height;
      separate_uv_delta_q = uv_differ p;
      valid = true;
    }

-- The type, and the payload with its size in front.
unfoldable pub obu_header : ℕ → ℕ → BitWriter
obu_header type size = leb128 ((bit 0 >> bits type 4 >> bit 0 >> bit 1 >> bit 0) empty) size

unfoldable pub write_obu : List ℕ → ℕ → List ℕ → List ℕ
unfolding obu_header
write_obu out type payload = out ++ (written (obu_header type (length payload)) ++ payload)

unfoldable pub write_color_config : Picture → Bool → Write
write_color_config p separate_uv_delta_q = do
  bool (on p.bit_depth_idx)
  bit p.seq.mono_chrome
  bit 0
  bit p.seq.color_range
  when (not (on p.seq.mono_chrome) && on p.seq.subsampling_x && on p.seq.subsampling_y) (bits 0 2)
  bool separate_uv_delta_q

-- The first part of the header, up to the frame size.
unfoldable pub sequence_sizes : Picture → SequenceState → Write
sequence_sizes p s = do
  bits p.profile 3
  bit p.seq.still_picture
  bit 0
  bit 0
  bit 0
  bits 0 5
  bits 0 12
  bits s.seq_level_idx 5
  when (ltb 7 s.seq_level_idx) (bit 0)
  bits (s.frame_width_bits - 1) 4
  bits (s.frame_height_bits - 1) 4
  bits (s.max_frame_width - 1) s.frame_width_bits
  bits (s.max_frame_height - 1) s.frame_height_bits

-- The tools that the sequence enables.
unfoldable pub sequence_tools : Picture → Write
sequence_tools p = do
  bit 0
  bit p.seq.use_128x128_superblock
  bit p.seq.enable_filter_intra
  bit p.seq.enable_intra_edge_filter
  bit p.seq.enable_interintra_compound
  bit p.seq.enable_masked_compound
  bit 1
  bit p.seq.enable_dual_filter
  bit p.seq.enable_order_hint
  when (on p.seq.enable_order_hint) (do bit p.seq.enable_jnt_comp; bit 1)
  bit 1
  bit 1
  when (on p.seq.enable_order_hint) (bits p.order_hint_bits_minus_1 3)
  bit 1
  bit p.seq.enable_cdef
  bit 1

unfoldable pub sequence_fields : Picture → SequenceState → Write
unfolding sequence_sizes sequence_tools write_color_config
sequence_fields p s = do
  sequence_sizes p s
  sequence_tools p
  write_color_config p s.separate_uv_delta_q
  bit p.seq.film_grain_params_present

unfoldable pub build_sequence_header : Picture → SequenceState → List ℕ
unfolding sequence_fields
build_sequence_header p s = written (trailing_bits (sequence_fields p s empty))
