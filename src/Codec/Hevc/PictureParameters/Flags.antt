-- ===== src/Codec/Hevc/PictureParameters/Flags.antt =====
-- The first part of the picture parameter set of src/codec/hevc.cc.
use qualcomm_iris_vaapi.Base.{
  ℕ, ◌+◌, ◌*◌, ◌%◌, ◌^◌, ◌≤◌, ◌<◌, ◌≡◌, refl, true, min, arith, leb, if◌then◌else◌, get_or,
}
use qualcomm_iris_vaapi.Base.Int.{ℤ, pos, negsuc}
use qualcomm_iris_vaapi.Codec.Syntax.{on, se}
use qualcomm_iris_vaapi.Codec.Syntax.Codes.{
  Codes, Reads, read_bit, read_bits, read_then, read_pure, then-Codes, mapped-Codes, bit-Codes,
  bits-Codes,
}
use qualcomm_iris_vaapi.Codec.Syntax.Unsigned.{read_ue, ue-Codes}
use qualcomm_iris_vaapi.Codec.Hevc.{HevcPicture}
use qualcomm_iris_vaapi.Codec.Hevc.ParameterSets.{clamp, pps_flags}
use qualcomm_iris_vaapi.Codec.Syntax.Signed.{read_se, se-Codes, flag-Codes, read_if, if-Codes}

-- From minus `low` to `high`.
abbrev pub Between : ℕ → ℕ → ℤ → Type 0
Between low high (pos n) = n ≤ high
Between low high (negsuc n) = n < low

pub clamped-Codes :
    (low high : ℕ) (z : ℤ)
    → Between low high z
    → low < 2 ^ 30
    → high < 2 ^ 30
    → Codes read_se (se (clamp z low high)) z
clamped-Codes low high (pos n) h hl hh =
    let same : min n high ≡ n = omega arith in rw same (se-Codes (pos n) (omega arith))
clamped-Codes low high (negsuc n) h hl hh =
    let inside : leb (n + 1) low ≡ true = ground arith in
    rw inside (se-Codes (negsuc n) (omega arith))

pub record PpsFlags : Type 0 where
  pub pps_id : ℕ
  pub sps_id : ℕ
  pub dependent_slices : ℕ
  pub output_flag_present : ℕ
  pub extra_header_bits : ℕ
  pub sign_data_hiding : ℕ
  pub cabac_init_present : ℕ
  pub l0_active_minus1 : ℕ
  pub l1_active_minus1 : ℕ
  pub init_qp_minus26 : ℤ
  pub constrained_intra_pred : ℕ
  pub transform_skip : ℕ
  pub cu_qp_delta : ℕ
  pub cu_qp_delta_depth : ℕ
  pub cb_qp_offset : ℤ
  pub cr_qp_offset : ℤ

abbrev pub read_flags : Reads PpsFlags
read_flags = read_then read_ue (λ pps. read_then read_ue (λ sps. read_then read_bit (λ dependent.
    read_then read_bit (λ output. read_then (read_bits 3) (λ extra. read_then read_bit (λ hiding.
      read_then read_bit (λ cabac. read_then read_ue (λ l0. read_then read_ue (λ l1.
        read_then read_se (λ qp. read_then read_bit (λ intra. read_then read_bit (λ transform.
          read_then read_bit (λ delta. read_then (read_if (on delta) 0 read_ue) (λ depth.
            read_then read_se (λ cb. read_then read_se (λ cr. read_pure (record {
              pps_id = pps;
              sps_id = sps;
              dependent_slices = dependent;
              output_flag_present = output;
              extra_header_bits = extra;
              sign_data_hiding = hiding;
              cabac_init_present = cabac;
              l0_active_minus1 = l0;
              l1_active_minus1 = l1;
              init_qp_minus26 = qp;
              constrained_intra_pred = intra;
              transform_skip = transform;
              cu_qp_delta = delta;
              cu_qp_delta_depth = depth;
              cb_qp_offset = cb;
              cr_qp_offset = cr;
            })))))))))))))))))

abbrev pub flags_of : HevcPicture → PpsFlags
flags_of p = record {
  pps_id = 0;
  sps_id = 0;
  dependent_slices = p.slice.dependent_slice_segments_enabled_flag % 2;
  output_flag_present = p.slice.output_flag_present_flag % 2;
  extra_header_bits = p.num_extra_slice_header_bits % 8;
  sign_data_hiding = p.pic.sign_data_hiding_enabled_flag % 2;
  cabac_init_present = p.slice.cabac_init_present_flag % 2;
  l0_active_minus1 = p.num_ref_idx_l0_default_active_minus1;
  l1_active_minus1 = p.num_ref_idx_l1_default_active_minus1;
  init_qp_minus26 = p.init_qp_minus26;
  constrained_intra_pred = p.pic.constrained_intra_pred_flag % 2;
  transform_skip = p.pic.transform_skip_enabled_flag % 2;
  cu_qp_delta = p.pic.cu_qp_delta_enabled_flag;
  cu_qp_delta_depth = if on p.pic.cu_qp_delta_enabled_flag then p.diff_cu_qp_delta_depth else 0;
  cb_qp_offset = p.pps_cb_qp_offset;
  cr_qp_offset = p.pps_cr_qp_offset;
}

-- The ranges that H.265 gives the elements, and the width of VA's fields.
pub record InRange (p : HevcPicture) : Type 0 where
  pub l0 : p.num_ref_idx_l0_default_active_minus1 ≤ 14
  pub l1 : p.num_ref_idx_l1_default_active_minus1 ≤ 14
  pub depth : p.bit_depth_luma_minus8 ≤ 8
  pub qp : Between (26 + 6 * p.bit_depth_luma_minus8) 25 p.init_qp_minus26
  pub delta : p.pic.cu_qp_delta_enabled_flag < 2
  pub delta_depth : p.diff_cu_qp_delta_depth < 2 ^ 8
  pub cb : Between 12 12 p.pps_cb_qp_offset
  pub cr : Between 12 12 p.pps_cr_qp_offset
  pub tiles : p.pic.tiles_enabled_flag < 2
  pub columns : p.num_tile_columns_minus1 ≤ 19
  pub rows : p.num_tile_rows_minus1 ≤ 21
  pub widths : (i : ℕ) → get_or p.column_width_minus1 i 0 < 2 ^ 16
  pub heights : (i : ℕ) → get_or p.row_height_minus1 i 0 < 2 ^ 16
  pub disable_deblocking : p.slice.pps_disable_deblocking_filter_flag < 2
  pub beta : Between 6 6 p.pps_beta_offset_div2
  pub tc : Between 6 6 p.pps_tc_offset_div2
  pub merge_level : p.log2_parallel_merge_level_minus2 < 2 ^ 8

pub flags-Codes : (p : HevcPicture) → InRange p → Codes read_flags (pps_flags p) (flags_of p)
unfolding pps_flags
flags-Codes p h =
    let l0 : min 14 p.num_ref_idx_l0_default_active_minus1
        ≡ p.num_ref_idx_l0_default_active_minus1 =
      omega (arith, h.l0) in
    let l1 : min 14 p.num_ref_idx_l1_default_active_minus1
        ≡ p.num_ref_idx_l1_default_active_minus1 =
      omega (arith, h.l1) in
    then-Codes _ (ue-Codes 0 (omega arith)) (
      then-Codes _ (ue-Codes 0 (omega arith)) (
        then-Codes _ (bit-Codes p.slice.dependent_slice_segments_enabled_flag) (
          then-Codes _ (bit-Codes p.slice.output_flag_present_flag) (
            then-Codes _ (bits-Codes p.num_extra_slice_header_bits 3) (
              then-Codes _ (bit-Codes p.pic.sign_data_hiding_enabled_flag) (
                then-Codes _ (bit-Codes p.slice.cabac_init_present_flag) (
                  rw (l0, l1)
                    (then-Codes _
                      (ue-Codes p.num_ref_idx_l0_default_active_minus1 (omega (arith, h.l0)))
                      (then-Codes _
                        (ue-Codes p.num_ref_idx_l1_default_active_minus1 (omega (arith, h.l1)))
                        (then-Codes _
                          (clamped-Codes _ _ p.init_qp_minus26 h.qp (omega (arith, h.depth))
                            (omega arith))
                          (then-Codes _ (bit-Codes p.pic.constrained_intra_pred_flag) (
                            then-Codes _ (bit-Codes p.pic.transform_skip_enabled_flag) (
                              then-Codes _ (flag-Codes p.pic.cu_qp_delta_enabled_flag h.delta) (
                                then-Codes _
                                  (if-Codes (on p.pic.cu_qp_delta_enabled_flag) 0 (
                                    ue-Codes p.diff_cu_qp_delta_depth
                                      (omega (arith, h.delta_depth))))
                                  (then-Codes _
                                    (clamped-Codes 12 12 p.pps_cb_qp_offset h.cb (omega arith)
                                      (omega arith))
                                    (mapped-Codes _ _
                                      (clamped-Codes 12 12 p.pps_cr_qp_offset h.cr (omega arith)
                                        (omega arith))
                                      refl))))))))))))))))
