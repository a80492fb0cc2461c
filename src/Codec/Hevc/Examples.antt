-- ===== src/Codec/Hevc/Examples.antt =====
-- A picture on which the theorems about HEVC are applied.
use qualcomm_iris_vaapi.Base.{
  ℕ, ◌<◌, ◌^◌, zero, suc, get_or, drop, All, ◌≡◌, List, [], ◌∷◌, none, replicate, true, false,
  arith,
}
use qualcomm_iris_vaapi.Base.Int.{pos, negsuc}
use qualcomm_iris_vaapi.Codec.Hevc.{HevcPicture, PicFields, SliceFields, ScalingMatrix}
use qualcomm_iris_vaapi.Codec.Hevc.PictureParameters.{read_unit, pps_of, read_unit-hevc_pps}
use qualcomm_iris_vaapi.Codec.Hevc.PictureParameters.Flags.{InRange}
use qualcomm_iris_vaapi.Codec.Reader.{reader}
use qualcomm_iris_vaapi.Codec.Reader.Stream.{stream}
use qualcomm_iris_vaapi.Codec.Hevc.ParameterSets.{hevc_pps}
use qualcomm_iris_vaapi.Codec.Hevc.Scaling.{DeltaInRange, deltas, coefs, coefs-deltas}
use qualcomm_iris_vaapi.Codec.Hevc.References.{Reference}
use qualcomm_iris_vaapi.Codec.Hevc.Translation.{HevcTranslator, HevcSubmission, translate}
use qualcomm_iris_vaapi.Codec.Hevc.Translation.Access.{Passed, translate-Passed}

abbrev pic_fields : PicFields
pic_fields = record {
  chroma_format_idc = 1;
  separate_colour_plane_flag = 0;
  pcm_enabled_flag = 0;
  scaling_list_enabled_flag = 1;
  transform_skip_enabled_flag = 0;
  amp_enabled_flag = 1;
  strong_intra_smoothing_enabled_flag = 1;
  sign_data_hiding_enabled_flag = 1;
  constrained_intra_pred_flag = 0;
  cu_qp_delta_enabled_flag = 1;
  weighted_pred_flag = 0;
  weighted_bipred_flag = 0;
  transquant_bypass_enabled_flag = 0;
  tiles_enabled_flag = 0;
  entropy_coding_sync_enabled_flag = 0;
  pps_loop_filter_across_slices_enabled_flag = 1;
  loop_filter_across_tiles_enabled_flag = 0;
  pcm_loop_filter_disabled_flag = 0;
  no_pic_reordering_flag = 0;
}

abbrev slice_fields : SliceFields
slice_fields = record {
  long_term_ref_pics_present_flag = 0;
  sps_temporal_mvp_enabled_flag = 1;
  cabac_init_present_flag = 0;
  output_flag_present_flag = 0;
  dependent_slice_segments_enabled_flag = 0;
  pps_slice_chroma_qp_offsets_present_flag = 0;
  sample_adaptive_offset_enabled_flag = 1;
  deblocking_filter_override_enabled_flag = 0;
  pps_disable_deblocking_filter_flag = 0;
  slice_segment_header_extension_present_flag = 0;
}

abbrev small_picture : HevcPicture
small_picture = record {
  pic_width_in_luma_samples = 416;
  pic_height_in_luma_samples = 240;
  pic = pic_fields;
  slice = slice_fields;
  sps_max_dec_pic_buffering_minus1 = 4;
  bit_depth_luma_minus8 = 0;
  bit_depth_chroma_minus8 = 0;
  pcm_sample_bit_depth_luma_minus1 = 7;
  pcm_sample_bit_depth_chroma_minus1 = 7;
  log2_min_luma_coding_block_size_minus3 = 0;
  log2_diff_max_min_luma_coding_block_size = 3;
  log2_min_transform_block_size_minus2 = 0;
  log2_diff_max_min_transform_block_size = 3;
  log2_min_pcm_luma_coding_block_size_minus3 = 0;
  log2_diff_max_min_pcm_luma_coding_block_size = 2;
  max_transform_hierarchy_depth_intra = 0;
  max_transform_hierarchy_depth_inter = 2;
  init_qp_minus26 = negsuc 30;
  diff_cu_qp_delta_depth = 1;
  pps_cb_qp_offset = pos 0;
  pps_cr_qp_offset = pos 0;
  log2_parallel_merge_level_minus2 = 0;
  num_tile_columns_minus1 = 0;
  num_tile_rows_minus1 = 0;
  column_width_minus1 = [];
  row_height_minus1 = [];
  log2_max_pic_order_cnt_lsb_minus4 = 4;
  num_ref_idx_l0_default_active_minus1 = 1;
  num_ref_idx_l1_default_active_minus1 = 0;
  pps_beta_offset_div2 = pos 0;
  pps_tc_offset_div2 = negsuc 1;
  num_extra_slice_header_bits = 0;
}

abbrev flat : ScalingMatrix
flat = record {
  lists_4x4 = replicate 6 (replicate 16 16);
  lists_8x8 = replicate 6 (replicate 64 16);
  lists_16x16 = replicate 6 (replicate 64 16);
  lists_32x32 = replicate 2 (replicate 64 16);
  dc_16x16 = replicate 6 16;
  dc_32x32 = replicate 2 16;
}

coefs-deltas_example :
    All DeltaInRange (deltas 8 (200 ∷ 3 ∷ 131 ∷ []))
    × (coefs 8 (deltas 8 (200 ∷ 3 ∷ 131 ∷ [])) ≡ 200 ∷ 3 ∷ 131 ∷ [])
coefs-deltas_example =
    coefs-deltas (200 ∷ 3 ∷ 131 ∷ []) 8 (omega arith, (omega arith, (omega arith, tt)))
      (omega arith)

-- Two columns of tiles and a chroma offset.
abbrev tiled_picture : HevcPicture
tiled_picture = record small_picture {
  pic = record pic_fields { tiles_enabled_flag = 1 };
  init_qp_minus26 = negsuc 3;
  pps_cb_qp_offset = negsuc 1;
  num_tile_columns_minus1 = 1;
  column_width_minus1 = 2 ∷ [];
}

column_widths : (i : ℕ) → get_or (2 ∷ []) i 0 < 2 ^ 16
column_widths zero = omega arith
column_widths (suc i) = omega arith

tiled_picture-InRange : InRange tiled_picture
tiled_picture-InRange = record {
  l0 = omega arith;
  l1 = omega arith;
  depth = omega arith;
  qp = omega arith;
  delta = omega arith;
  delta_depth = omega arith;
  cb = omega arith;
  cr = omega arith;
  tiles = omega arith;
  columns = omega arith;
  rows = omega arith;
  widths = column_widths;
  heights = λ i. omega arith;
  disable_deblocking = omega arith;
  beta = omega arith;
  tc = omega arith;
  merge_level = omega arith;
}

read_unit-hevc_pps_example :
    (k : ℕ) × (k < 8)
    × (read_unit (stream (reader (drop 4 (hevc_pps tiled_picture)) 2).held)
        ≡ ((0x4401, pps_of tiled_picture), 1 ∷ replicate k 0))
read_unit-hevc_pps_example = read_unit-hevc_pps tiled_picture tiled_picture-InRange

-- References three and eight counts in the past, from a picture with the count 5.
abbrev past : List Reference
past =
    record { index = 0; poc = pos 2; used = true }
    ∷ record { index = 1; poc = negsuc 2; used = false }
    ∷ []

-- An IDR picture of one slice, for a decoder that has not begun.
abbrev idr : HevcSubmission
idr = record {
  has_parameters = true;
  context = record {
    picture = small_picture;
    poc = pos 0;
    lists_modification_present_flag = 0;
    num_short_term_ref_pic_sets = 0;
    st_rps_bits = 0;
    num_long_term_ref_pic_sps = 0;
  };
  frames = [];
  is_field = false;
  matrix = none;
  slices =
      record {
        slice_data_offset = 0;
        slice_data_size = 5;
        slice_data_byte_offset = 4;
        slice_segment_address = 0;
        slice_type = 2;
        ref_pic_lists = [];
      }
      ∷ [];
  slice_data = (0x26 ∷ 1 ∷ 0xac ∷ 0x80 ∷ 0xab ∷ []) ∷ [];
}

abbrev not_begun : HevcTranslator
not_begun = record { main10 = false; scaling = none; started = false; no_rasl_output = false }

translate-Passed_example : Passed not_begun idr (translate not_begun idr)
translate-Passed_example = translate-Passed not_begun idr
