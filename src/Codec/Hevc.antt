-- ===== src/Codec/Hevc.antt =====
-- src/codec/hevc.cc: the parameter sets that are made from VA metadata.
pub mod Scaling
pub mod ParameterSets
pub mod Units
pub mod PictureParameters
pub mod References
pub mod Slices
pub mod Translation
mod Examples
use qualcomm_iris_vaapi.Base.{ℕ, List}
use qualcomm_iris_vaapi.Base.Int.{ℤ}

-- VAIQMatrixBufferHEVC: a list for each matrix, in raster order.
pub record ScalingMatrix : Type 0 where
  pub lists_4x4 : List (List ℕ)
  pub lists_8x8 : List (List ℕ)
  pub lists_16x16 : List (List ℕ)
  pub lists_32x32 : List (List ℕ)
  pub dc_16x16 : List ℕ
  pub dc_32x32 : List ℕ

-- The one-bit fields of pic_fields.
pub record PicFields : Type 0 where
  pub chroma_format_idc : ℕ
  pub separate_colour_plane_flag : ℕ
  pub pcm_enabled_flag : ℕ
  pub scaling_list_enabled_flag : ℕ
  pub transform_skip_enabled_flag : ℕ
  pub amp_enabled_flag : ℕ
  pub strong_intra_smoothing_enabled_flag : ℕ
  pub sign_data_hiding_enabled_flag : ℕ
  pub constrained_intra_pred_flag : ℕ
  pub cu_qp_delta_enabled_flag : ℕ
  pub weighted_pred_flag : ℕ
  pub weighted_bipred_flag : ℕ
  pub transquant_bypass_enabled_flag : ℕ
  pub tiles_enabled_flag : ℕ
  pub entropy_coding_sync_enabled_flag : ℕ
  pub pps_loop_filter_across_slices_enabled_flag : ℕ
  pub loop_filter_across_tiles_enabled_flag : ℕ
  pub pcm_loop_filter_disabled_flag : ℕ
  pub no_pic_reordering_flag : ℕ

-- The fields of slice_parsing_fields.
pub record SliceFields : Type 0 where
  pub long_term_ref_pics_present_flag : ℕ
  pub sps_temporal_mvp_enabled_flag : ℕ
  pub cabac_init_present_flag : ℕ
  pub output_flag_present_flag : ℕ
  pub dependent_slice_segments_enabled_flag : ℕ
  pub pps_slice_chroma_qp_offsets_present_flag : ℕ
  pub sample_adaptive_offset_enabled_flag : ℕ
  pub deblocking_filter_override_enabled_flag : ℕ
  pub pps_disable_deblocking_filter_flag : ℕ
  pub slice_segment_header_extension_present_flag : ℕ

-- VAPictureParameterBufferHEVC, as far as the parameter sets read it.
pub record HevcPicture : Type 0 where
  pub pic_width_in_luma_samples : ℕ
  pub pic_height_in_luma_samples : ℕ
  pub pic : PicFields
  pub slice : SliceFields
  pub sps_max_dec_pic_buffering_minus1 : ℕ
  pub bit_depth_luma_minus8 : ℕ
  pub bit_depth_chroma_minus8 : ℕ
  pub pcm_sample_bit_depth_luma_minus1 : ℕ
  pub pcm_sample_bit_depth_chroma_minus1 : ℕ
  pub log2_min_luma_coding_block_size_minus3 : ℕ
  pub log2_diff_max_min_luma_coding_block_size : ℕ
  pub log2_min_transform_block_size_minus2 : ℕ
  pub log2_diff_max_min_transform_block_size : ℕ
  pub log2_min_pcm_luma_coding_block_size_minus3 : ℕ
  pub log2_diff_max_min_pcm_luma_coding_block_size : ℕ
  pub max_transform_hierarchy_depth_intra : ℕ
  pub max_transform_hierarchy_depth_inter : ℕ
  pub init_qp_minus26 : ℤ
  pub diff_cu_qp_delta_depth : ℕ
  pub pps_cb_qp_offset : ℤ
  pub pps_cr_qp_offset : ℤ
  pub log2_parallel_merge_level_minus2 : ℕ
  pub num_tile_columns_minus1 : ℕ
  pub num_tile_rows_minus1 : ℕ
  pub column_width_minus1 : List ℕ
  pub row_height_minus1 : List ℕ
  pub log2_max_pic_order_cnt_lsb_minus4 : ℕ
  pub num_ref_idx_l0_default_active_minus1 : ℕ
  pub num_ref_idx_l1_default_active_minus1 : ℕ
  pub pps_beta_offset_div2 : ℤ
  pub pps_tc_offset_div2 : ℤ
  pub num_extra_slice_header_bits : ℕ
