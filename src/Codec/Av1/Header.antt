-- ===== src/Codec/Av1/Header.antt =====
-- src/codec/av1_obu.cc: the frame header.
pub mod SkipMode
use qualcomm_iris_vaapi.Base.{
  ℕ, zero, suc, ◌+◌, ◌-◌, ◌*◌, ◌/◌, Bool, false, not, ◌&&◌, ◌||◌, List, [], ltb, leb, ◌==◌,
  if◌then◌else◌, get_or,
}
use qualcomm_iris_vaapi.Base.Int.{ℤ, pos}
use qualcomm_iris_vaapi.Codec.Writer.{BitWriter, empty, byte_align}
use qualcomm_iris_vaapi.Codec.Syntax.{Write, ◌>>◌, on, bit, bits, bool, skip, when, either}
use qualcomm_iris_vaapi.Codec.Av1.Picture.{
  Picture, ReferenceState, SequenceState, Outcome, built, ◌>>=◌, require, switch_size,
  superres_denominator,
}
use qualcomm_iris_vaapi.Codec.Av1.Sequence.{same_int}
use qualcomm_iris_vaapi.Codec.Av1.Tiles.{write_tile_info}
use qualcomm_iris_vaapi.Codec.Av1.Quantization.{
  write_quantization_params, write_segmentation_params, feature_enabled, write_loop_filter_params,
  write_cdef_params, write_lr_params,
}
use qualcomm_iris_vaapi.Codec.Av1.Motion.{is_intra, write_global_motion_params}
use qualcomm_iris_vaapi.Codec.Av1.Header.SkipMode.{
  order_hint_bits, reference_select, skip_mode_allowed,
}

abbrev pub is_switch : Picture → Bool
is_switch p = p.pic.frame_type == 3

-- Also where all slots are refreshed without saying so.
abbrev pub forced_error_resilient : Picture → Bool
forced_error_resilient p = is_switch p || (p.pic.frame_type == 0 && on p.pic.show_frame)

abbrev pub error_resilient : Picture → Bool
error_resilient p = forced_error_resilient p || on p.pic.error_resilient_mode

abbrev pub frame_size_override : Picture → SequenceState → Bool
frame_size_override p s =
    not (p.frame_width_minus1 + 1 == s.max_frame_width)
    || not (p.frame_height_minus1 + 1 == s.max_frame_height)

unfoldable pub header_start : Picture → Write
header_start p = do
  bit 0
  bits p.pic.frame_type 2
  bit p.pic.show_frame
  when (not (on p.pic.show_frame)) (bit p.pic.showable_frame)
  when (not (forced_error_resilient p)) (bit p.pic.error_resilient_mode)
  bit p.pic.disable_cdf_update
  bit p.pic.allow_screen_content_tools
  when (on p.pic.allow_screen_content_tools) (bit p.pic.force_integer_mv)

abbrev pub effective_refresh : Picture → ℕ → ℕ
effective_refresh p flags = if forced_error_resilient p then 0xff else flags

unfoldable pub write_order_hints : ℕ → ℕ → ℕ → List ℕ → Write
write_order_hints zero i width hints = skip
write_order_hints (suc left) i width hints = do
  bits (get_or hints i 0) width
  write_order_hints left (i + 1) width hints

-- From the frame size flag to the order hints of the slots.
unfoldable pub header_order : Picture → SequenceState → ReferenceState → ℕ → Write
unfolding write_order_hints
header_order p s references flags = do
  when (not (is_switch p)) (bool (frame_size_override p s))
  when (ltb 0 (order_hint_bits p)) (bits p.order_hint (order_hint_bits p))
  when (not (is_intra p) && not (error_resilient p)) (bits p.primary_ref_frame 3)
  when (not (forced_error_resilient p)) (bits flags 8)
  when
      ((not (is_intra p) || not (effective_refresh p flags == 0xff))
        && error_resilient p
        && on p.seq.enable_order_hint)
      (write_order_hints 8 0 (order_hint_bits p) references.order_hint)

unfoldable pub write_frame_size : Picture → SequenceState → Write
write_frame_size p s = do
  when (frame_size_override p s) (do
    bits p.frame_width_minus1 s.frame_width_bits
    bits p.frame_height_minus1 s.frame_height_bits)
  bit p.pic.use_superres
  when (on p.pic.use_superres) (bits (p.superres_scale_denominator - 9) 3)

unfoldable pub intra_header : Picture → SequenceState → Write
unfolding write_frame_size
intra_header p s = do
  write_frame_size p s
  bit 0
  when (on p.pic.allow_screen_content_tools && not (on p.pic.use_superres))
      (bit p.pic.allow_intrabc)

unfoldable pub write_refs : ℕ → ℕ → List ℕ → Write
write_refs zero i refs = skip
write_refs (suc left) i refs = do bits (get_or refs i 0) 3; write_refs left (i + 1) refs

-- The seven found_ref flags are written as one number.
unfoldable pub inter_header : Picture → SequenceState → Write
unfolding write_frame_size write_refs
inter_header p s = do
  when (on p.seq.enable_order_hint) (bit 0)
  write_refs 7 0 p.ref_frame_idx
  when (frame_size_override p s && not (error_resilient p)) (bits 0 7)
  write_frame_size p s
  bit 0
  when (not (on p.pic.force_integer_mv)) (bit p.pic.allow_high_precision_mv)
  bool (p.interp_filter == 4)
  when (not (p.interp_filter == 4)) (bits p.interp_filter 2)
  bit p.pic.is_motion_mode_switchable
  when (not (error_resilient p)) (bit p.pic.use_ref_frame_mvs)

-- The header up to the tile layout.
unfoldable pub header_front : Picture → SequenceState → ReferenceState → ℕ → Write
unfolding header_start header_order intra_header inter_header
header_front p s references flags = do
  header_start p
  header_order p s references flags
  either (is_intra p) (intra_header p s) (inter_header p s)
  when (not (on p.pic.disable_cdf_update)) (bit p.pic.disable_frame_end_update_cdf)

abbrev pub delta_q_present : Picture → Bool
delta_q_present p = ltb 0 p.base_qindex && on p.mode.delta_q_present_flag

unfoldable pub write_deltas_present : Picture → Write
write_deltas_present p = do
  when (ltb 0 p.base_qindex) (bit p.mode.delta_q_present_flag)
  when (delta_q_present p) (do
    bits p.mode.log2_delta_q_res 2
    when (not (on p.pic.allow_intrabc)) (bit p.mode.delta_lf_present_flag)
    when (on p.mode.delta_lf_present_flag)
        (do bits p.mode.log2_delta_lf_res 2; bit p.mode.delta_lf_multi))

abbrev pub is_zero : ℤ → Bool
is_zero z = same_int z (pos 0)

-- A segment from `i` on changes the quantizer, of `left` segments.
unfoldable pub segment_offset : ℕ → ℕ → Picture → Bool
segment_offset zero i p = false
segment_offset (suc left) i p =
    (feature_enabled (get_or p.seg.feature_mask i 0) 0
      && not (is_zero (get_or (get_or p.seg.feature_data i []) 0 (pos 0))))
    || segment_offset left (i + 1) p

unfoldable pub coded_lossless : Picture → Bool
unfolding segment_offset
coded_lossless p =
    p.base_qindex == 0
    && is_zero p.y_dc_delta_q
    && is_zero p.u_dc_delta_q
    && is_zero p.u_ac_delta_q
    && is_zero p.v_dc_delta_q
    && is_zero p.v_ac_delta_q
    && not (on p.seg.enabled && segment_offset 8 0 p)

unfoldable pub write_filters : Picture → BitWriter → Outcome BitWriter
unfolding coded_lossless
write_filters p w = do
  let filtered = not (coded_lossless p) && not (on p.pic.allow_intrabc)
  let w' = when filtered (write_loop_filter_params p) w
  w'' ← if filtered && on p.seq.enable_cdef then write_cdef_params p w' else built w'
  built (
      when (not (coded_lossless p && not (on p.pic.use_superres)) && not (on p.pic.allow_intrabc))
        (write_lr_params p) w'')

-- From the transform mode to the transform set.
unfoldable pub write_modes : Picture → ReferenceState → Write
unfolding coded_lossless
write_modes p references = do
  when (not (coded_lossless p)) (bool (p.mode.tx_mode == 2))
  when (not (is_intra p)) (bool (reference_select p))
  when (skip_mode_allowed p references) (bit p.mode.skip_mode_present)
  when (not (is_intra p) && not (error_resilient p)) (bit p.pic.allow_warped_motion)
  bit p.mode.reduced_tx_set_used

unfoldable pub quantizer_part : Picture → SequenceState → Write
unfolding write_deltas_present
quantizer_part p s = do
  write_quantization_params p s.separate_uv_delta_q
  write_segmentation_params p
  write_deltas_present p

abbrev pub mi_of : ℕ → ℕ
mi_of size = 2 * ((size + 7) / 8)

-- The frame header, with the alignment behind it.
unfoldable pub frame_header : Picture → SequenceState → ReferenceState → ℕ → Outcome BitWriter
unfolding header_front quantizer_part write_filters write_modes
frame_header p s references flags = do
  ok ← require (not (is_switch p) || frame_size_override p s) switch_size
  ok ←
      require (not (on p.pic.use_superres) || leb 9 p.superres_scale_denominator)
        superres_denominator
  tiled ←
      write_tile_info p (mi_of (p.frame_width_minus1 + 1)) (mi_of (p.frame_height_minus1 + 1))
        (header_front p s references flags empty)
  filtered ← write_filters p (quantizer_part p s tiled)
  moved ← write_global_motion_params p references (is_intra p) (write_modes p references filtered)
  built (
      byte_align (
        when
          (on p.seq.film_grain_params_present && (on p.pic.show_frame || on p.pic.showable_frame))
          (bit 0) moved))
