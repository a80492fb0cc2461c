-- ===== src/Codec/Hevc/ParameterSets.antt =====
-- src/codec/hevc.cc: hevc_vps, hevc_sps and hevc_pps.
use qualcomm_iris_vaapi.Base.{
  ℕ, zero, suc, ◌+◌, ◌-◌, ◌*◌, min, Bool, true, false, not, List, [], ◌∷◌, Option, none, some, leb,
  ◌==◌, if◌then◌else◌, get_or,
}
use qualcomm_iris_vaapi.Base.Int.{ℤ, pos, negsuc}
use qualcomm_iris_vaapi.Codec.Writer.{BitWriter, empty, trailing_bits}
use qualcomm_iris_vaapi.Codec.Nal.{append_escaped_nal}
use qualcomm_iris_vaapi.Codec.Syntax.{Write, ◌>>◌, on, bit, bits, bool, ue, se, skip, when}
use qualcomm_iris_vaapi.Codec.Hevc.{HevcPicture, ScalingMatrix}
use qualcomm_iris_vaapi.Codec.Hevc.Scaling.{scaling_lists}

-- `rounds` times the same step.
unfoldable pub repeated : ℕ → Write → Write
repeated zero f = skip
repeated (suc rounds) f = f >> repeated rounds f

unfoldable pub profile_tier_level : Bool → ℕ → Write
unfolding repeated
profile_tier_level main10 max_sub_layers_minus1 = do
  bits 0 2
  bit 0
  bits (if main10 then 2 else 1) 5
  bits (if main10 then 0x20000000 else 0x60000000) 32
  bit 1
  bit 0
  bit 0
  bit 1
  bits 0 44
  bits 186 8
  repeated max_sub_layers_minus1 (do bit 0; bit 0)
  repeated (8 - max_sub_layers_minus1) (bits 0 2)

-- The sizes of the picture buffer for the sub-layer `i`.
unfoldable pub sub_layer_ordering : HevcPicture → ℕ → Write
sub_layer_ordering p i = do
  ue (min 31 p.sps_max_dec_pic_buffering_minus1)
  ue (if on p.pic.no_pic_reordering_flag then 0 else if i == 0 then 3 else 4)
  ue 0

unfoldable pub vps_fields : Bool → HevcPicture → Write
unfolding profile_tier_level sub_layer_ordering
vps_fields main10 p = do
  bits 0 4
  bit 1
  bit 1
  bits 0 6
  bits 1 3
  bit 0
  bits 0xffff 16
  profile_tier_level main10 1
  bit 1
  sub_layer_ordering p 0
  sub_layer_ordering p 1
  bits 0 6
  ue 0
  bit 0
  bit 0

unfoldable pub vps_payload : Bool → HevcPicture → BitWriter
unfolding vps_fields
vps_payload main10 p = trailing_bits (vps_fields main10 p empty)

unfoldable pub hevc_vps : Bool → HevcPicture → List ℕ
unfolding vps_payload
hevc_vps main10 p = append_escaped_nal [] (0x40 ∷ 1 ∷ []) (vps_payload main10 p)

unfoldable pub sps_formats : HevcPicture → Write
sps_formats p = do
  ue 0
  ue p.pic.chroma_format_idc
  when (p.pic.chroma_format_idc == 3) (bit p.pic.separate_colour_plane_flag)
  ue p.pic_width_in_luma_samples
  ue p.pic_height_in_luma_samples
  bit 0
  ue p.bit_depth_luma_minus8
  ue p.bit_depth_chroma_minus8
  ue p.log2_max_pic_order_cnt_lsb_minus4

unfoldable pub sps_blocks : HevcPicture → Write
sps_blocks p = do
  ue p.log2_min_luma_coding_block_size_minus3
  ue p.log2_diff_max_min_luma_coding_block_size
  ue p.log2_min_transform_block_size_minus2
  ue p.log2_diff_max_min_transform_block_size
  ue p.max_transform_hierarchy_depth_inter
  ue p.max_transform_hierarchy_depth_intra

abbrev pub is_given : Option ScalingMatrix → Bool
is_given none = false
is_given (some m) = true

unfoldable pub given_lists : Option ScalingMatrix → Write
given_lists none = skip
given_lists (some m) = scaling_lists m

unfoldable pub sps_scaling : HevcPicture → Option ScalingMatrix → Write
unfolding given_lists
sps_scaling p scaling = do
  bit p.pic.scaling_list_enabled_flag
  when (on p.pic.scaling_list_enabled_flag) (do bool (is_given scaling); given_lists scaling)

unfoldable pub sps_pcm : HevcPicture → Write
sps_pcm p = do
  bit p.pic.pcm_enabled_flag
  when (on p.pic.pcm_enabled_flag) (do
    bits p.pcm_sample_bit_depth_luma_minus1 4
    bits p.pcm_sample_bit_depth_chroma_minus1 4
    ue p.log2_min_pcm_luma_coding_block_size_minus3
    ue p.log2_diff_max_min_pcm_luma_coding_block_size
    bit p.pic.pcm_loop_filter_disabled_flag)

-- No reference picture sets: the slice headers carry their own.
unfoldable pub sps_references : HevcPicture → Write
sps_references p = do
  ue 0
  bit p.slice.long_term_ref_pics_present_flag
  when (on p.slice.long_term_ref_pics_present_flag) (ue 0)
  bit p.slice.sps_temporal_mvp_enabled_flag
  bit p.pic.strong_intra_smoothing_enabled_flag
  bit 0
  bit 0

unfoldable pub sps_fields : Bool → HevcPicture → Option ScalingMatrix → Write
unfolding profile_tier_level sub_layer_ordering sps_formats sps_blocks sps_scaling sps_pcm
    sps_references
sps_fields main10 p scaling = do
  bits 0 4
  bits 1 3
  bit 1
  profile_tier_level main10 1
  sps_formats p
  bit 1
  sub_layer_ordering p 0
  sub_layer_ordering p 1
  sps_blocks p
  sps_scaling p scaling
  bit p.pic.amp_enabled_flag
  bit p.slice.sample_adaptive_offset_enabled_flag
  sps_pcm p
  sps_references p

unfoldable pub hevc_sps_payload : Bool → HevcPicture → Option ScalingMatrix → BitWriter
unfolding sps_fields
hevc_sps_payload main10 p scaling = trailing_bits (sps_fields main10 p scaling empty)

unfoldable pub hevc_sps : Bool → HevcPicture → Option ScalingMatrix → List ℕ
unfolding hevc_sps_payload
hevc_sps main10 p scaling =
    append_escaped_nal [] (0x42 ∷ 1 ∷ []) (hevc_sps_payload main10 p scaling)

-- std::clamp to the range from minus `low`, which is positive, to `high`.
abbrev pub clamp : ℤ → ℕ → ℕ → ℤ
clamp (pos n) low high = pos (min n high)
clamp (negsuc n) low high = if leb (n + 1) low then negsuc n else negsuc (low - 1)

unfoldable pub pps_flags : HevcPicture → Write
pps_flags p = do
  ue 0
  ue 0
  bit p.slice.dependent_slice_segments_enabled_flag
  bit p.slice.output_flag_present_flag
  bits p.num_extra_slice_header_bits 3
  bit p.pic.sign_data_hiding_enabled_flag
  bit p.slice.cabac_init_present_flag
  ue (min 14 p.num_ref_idx_l0_default_active_minus1)
  ue (min 14 p.num_ref_idx_l1_default_active_minus1)
  se (clamp p.init_qp_minus26 (26 + 6 * p.bit_depth_luma_minus8) 25)
  bit p.pic.constrained_intra_pred_flag
  bit p.pic.transform_skip_enabled_flag
  bit p.pic.cu_qp_delta_enabled_flag
  when (on p.pic.cu_qp_delta_enabled_flag) (ue p.diff_cu_qp_delta_depth)
  se (clamp p.pps_cb_qp_offset 12 12)
  se (clamp p.pps_cr_qp_offset 12 12)

-- The sizes from `i` on, `left` of them.
unfoldable pub tile_lengths : ℕ → ℕ → List ℕ → Write
tile_lengths zero i lengths = skip
tile_lengths (suc left) i lengths = ue (get_or lengths i 0) >> tile_lengths left (i + 1) lengths

unfoldable pub pps_tiles : HevcPicture → Write
unfolding tile_lengths
pps_tiles p = do
  bit p.slice.pps_slice_chroma_qp_offsets_present_flag
  bit p.pic.weighted_pred_flag
  bit p.pic.weighted_bipred_flag
  bit p.pic.transquant_bypass_enabled_flag
  bit p.pic.tiles_enabled_flag
  bit p.pic.entropy_coding_sync_enabled_flag
  when (on p.pic.tiles_enabled_flag) (do
    ue p.num_tile_columns_minus1
    ue p.num_tile_rows_minus1
    bit 0
    tile_lengths (min p.num_tile_columns_minus1 19) 0 p.column_width_minus1
    tile_lengths (min p.num_tile_rows_minus1 21) 0 p.row_height_minus1
    bit p.pic.loop_filter_across_tiles_enabled_flag)

unfoldable pub pps_filters : HevcPicture → Write
pps_filters p = do
  bit p.pic.pps_loop_filter_across_slices_enabled_flag
  bit 1
  bit p.slice.deblocking_filter_override_enabled_flag
  bit p.slice.pps_disable_deblocking_filter_flag
  when (not (on p.slice.pps_disable_deblocking_filter_flag))
      (do se (clamp p.pps_beta_offset_div2 6 6); se (clamp p.pps_tc_offset_div2 6 6))
  bit 0
  bit 1
  ue p.log2_parallel_merge_level_minus2
  bit p.slice.slice_segment_header_extension_present_flag
  bit 0

unfoldable pub pps_fields : HevcPicture → Write
unfolding pps_flags pps_tiles pps_filters
pps_fields p = do pps_flags p; pps_tiles p; pps_filters p

unfoldable pub hevc_pps_payload : HevcPicture → BitWriter
unfolding pps_fields
hevc_pps_payload p = trailing_bits (pps_fields p empty)

unfoldable pub hevc_pps : HevcPicture → List ℕ
unfolding hevc_pps_payload
hevc_pps p = append_escaped_nal [] (0x44 ∷ 1 ∷ []) (hevc_pps_payload p)
