-- ===== src/Codec/Av1/Quantization.antt =====
-- src/codec/av1_obu.cc: quantization, segmentation and the loop filters.
use qualcomm_iris_vaapi.Base.{
  ℕ, zero, suc, ◌+◌, ◌-◌, ◌/◌, ◌%◌, ◌^◌, Bool, true, false, not, ◌&&◌, ◌||◌, List, [], ◌∷◌, ltb,
  ◌==◌, if◌then◌else◌, get_or,
}
use qualcomm_iris_vaapi.Base.Int.{ℤ, pos, negsuc}
use qualcomm_iris_vaapi.Codec.Writer.{BitWriter}
use qualcomm_iris_vaapi.Codec.Syntax.{Write, ◌>>◌, on, bit, bits, bool, su, skip, when, either}
use qualcomm_iris_vaapi.Codec.Av1.Picture.{
  Picture, SegmentInfo, Outcome, built, rejected, cdef_strength,
}
use qualcomm_iris_vaapi.Codec.Av1.Sequence.{same_int, uv_differ}

unfoldable pub write_delta_q : ℤ → Write
write_delta_q value = either (same_int value (pos 0)) (bit 0) (bit 1 >> su value 7)

unfoldable pub write_chroma_q : Picture → Bool → Write
unfolding write_delta_q
write_chroma_q p separate_uv_delta_q = do
  when separate_uv_delta_q (bool (uv_differ p))
  write_delta_q p.u_dc_delta_q
  write_delta_q p.u_ac_delta_q
  when (separate_uv_delta_q && uv_differ p)
      (do write_delta_q p.v_dc_delta_q; write_delta_q p.v_ac_delta_q)

unfoldable pub write_quantization_params : Picture → Bool → Write
unfolding write_chroma_q
write_quantization_params p separate_uv_delta_q = do
  bits p.base_qindex 8
  write_delta_q p.y_dc_delta_q
  when (not (on p.seq.mono_chrome)) (write_chroma_q p separate_uv_delta_q)
  bit p.qmatrix.using_qmatrix
  when (on p.qmatrix.using_qmatrix) (do
    bits p.qmatrix.qm_y 4
    bits p.qmatrix.qm_u 4
    when separate_uv_delta_q (bits p.qmatrix.qm_v 4))

abbrev pub primary_ref_none : ℕ
primary_ref_none = 7

-- kSegFeatureBits and kSegFeatureSigned.
abbrev pub seg_feature_bits : List ℕ
seg_feature_bits = 8 ∷ 6 ∷ 6 ∷ 6 ∷ 6 ∷ 3 ∷ 0 ∷ 0 ∷ []

abbrev pub seg_feature_signed : List Bool
seg_feature_signed = true ∷ true ∷ true ∷ true ∷ true ∷ false ∷ false ∷ false ∷ []

-- `static_cast<uint64_t>` of an int.
abbrev pub to_u64 : ℤ → ℕ
to_u64 (pos n) = n % 2 ^ 64
to_u64 (negsuc n) = (2 ^ 64 - 1 - n) % 2 ^ 64

abbrev pub feature_enabled : ℕ → ℕ → Bool
feature_enabled mask feature = mask / 2 ^ feature % 2 == 1

unfoldable pub write_feature : ℕ → ℤ → Write
write_feature feature value =
    either (get_or seg_feature_signed feature false)
      (su value (get_or seg_feature_bits feature 0 + 1))
      (bits (to_u64 value) (get_or seg_feature_bits feature 0))

-- The features from `feature` on, `left` of them.
unfoldable pub write_features : ℕ → ℕ → ℕ → List ℤ → Write
unfolding write_feature
write_features zero feature mask values = skip
write_features (suc left) feature mask values = do
  bool (feature_enabled mask feature)
  when (feature_enabled mask feature) (write_feature feature (get_or values feature (pos 0)))
  write_features left (feature + 1) mask values

unfoldable pub write_segments : ℕ → ℕ → SegmentInfo → Write
unfolding write_features
write_segments zero segment seg = skip
write_segments (suc left) segment seg = do
  write_features 8 0 (get_or seg.feature_mask segment 0) (get_or seg.feature_data segment [])
  write_segments left (segment + 1) seg

unfoldable pub write_segmentation_params : Picture → Write
unfolding write_segments
write_segmentation_params p = do
  bit p.seg.enabled
  when (on p.seg.enabled) (do
    when (not (p.primary_ref_frame == primary_ref_none)) (do
      bit p.seg.update_map
      when (on p.seg.update_map) (bit p.seg.temporal_update)
      bit p.seg.update_data)
    when (p.primary_ref_frame == primary_ref_none || on p.seg.update_data)
        (write_segments 8 0 p.seg))

-- `left` deltas from `i` on, each with its update flag.
unfoldable pub write_deltas : ℕ → ℕ → List ℤ → Write
write_deltas zero i deltas = skip
write_deltas (suc left) i deltas = do
  bit 1
  su (get_or deltas i (pos 0)) 7
  write_deltas left (i + 1) deltas

unfoldable pub write_loop_filter_params : Picture → Write
unfolding write_deltas
write_loop_filter_params p = do
  bits (get_or p.filter_level 0 0) 6
  bits (get_or p.filter_level 1 0) 6
  when
      (not (on p.seq.mono_chrome)
        && (on (get_or p.filter_level 0 0) || on (get_or p.filter_level 1 0)))
      (do bits p.filter_level_u 6; bits p.filter_level_v 6)
  bits p.loop_filter.sharpness_level 3
  bit p.loop_filter.mode_ref_delta_enabled
  when (on p.loop_filter.mode_ref_delta_enabled) (do
    bit p.loop_filter.mode_ref_delta_update
    when (on p.loop_filter.mode_ref_delta_update)
        (do write_deltas 8 0 p.ref_deltas; write_deltas 2 0 p.mode_deltas))

abbrev pub write_strengths : Picture → ℕ → ℕ → Write
write_strengths p y uv = do
  bits (y / 4) 4
  bits (y % 4) 2
  when (not (on p.seq.mono_chrome)) (do bits (uv / 4) 4; bits (uv % 4) 2)

-- The strengths from `i` on, `left` of them.
unfoldable pub cdef_loop : ℕ → ℕ → Picture → BitWriter → Outcome BitWriter
cdef_loop zero i p w = built w
cdef_loop (suc left) i p w =
    let y = get_or p.cdef_y_strengths i 0 in
    let uv = get_or p.cdef_uv_strengths i 0 in
    let rest = cdef_loop left (i + 1) p (write_strengths p y uv w) in
    if ltb 15 (y / 4) || ltb 15 (uv / 4) then rejected cdef_strength else rest

unfoldable pub write_cdef_params : Picture → BitWriter → Outcome BitWriter
unfolding cdef_loop
write_cdef_params p w =
    cdef_loop (2 ^ p.cdef_bits) 0 p ((bits p.cdef_damping_minus_3 2 >> bits p.cdef_bits 2) w)

-- Remap_Lr_Type, inverted.
abbrev pub to_coded : List ℕ
to_coded = 0 ∷ 2 ∷ 3 ∷ 1 ∷ []

abbrev pub write_restoration_type : ℕ → Write
write_restoration_type type = bits (get_or to_coded (type % 4) 0) 2

abbrev pub uses_chroma_lr : Picture → Bool
uses_chroma_lr p =
    not (on p.seq.mono_chrome)
    && (on p.lr.cbframe_restoration_type || on p.lr.crframe_restoration_type)

unfoldable pub write_lr_params : Picture → Write
write_lr_params p = do
  write_restoration_type p.lr.yframe_restoration_type
  when (not (on p.seq.mono_chrome)) (do
    write_restoration_type p.lr.cbframe_restoration_type
    write_restoration_type p.lr.crframe_restoration_type)
  when (on p.lr.yframe_restoration_type || uses_chroma_lr p) (do
    bool (on p.lr.lr_unit_shift)
    when (not (on p.seq.use_128x128_superblock) && on p.lr.lr_unit_shift)
        (bool (ltb 1 p.lr.lr_unit_shift))
    when (on p.seq.subsampling_x && on p.seq.subsampling_y && uses_chroma_lr p)
        (bit p.lr.lr_uv_shift))
