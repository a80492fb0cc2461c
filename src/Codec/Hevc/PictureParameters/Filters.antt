-- ===== src/Codec/Hevc/PictureParameters/Filters.antt =====
-- The end of the picture parameter set of src/codec/hevc.cc.
use qualcomm_iris_vaapi.Base.{ℕ, ◌%◌, refl, not, arith, if◌then◌else◌}
use qualcomm_iris_vaapi.Base.Int.{ℤ, pos}
use qualcomm_iris_vaapi.Codec.Syntax.{◌>>◌, on, se, when}
use qualcomm_iris_vaapi.Codec.Syntax.Codes.{
  Codes, Reads, read_bit, read_then, read_pure, then-Codes, mapped-Codes, bit-Codes,
}
use qualcomm_iris_vaapi.Codec.Syntax.Unsigned.{read_ue, ue-Codes}
use qualcomm_iris_vaapi.Codec.Hevc.{HevcPicture}
use qualcomm_iris_vaapi.Codec.Hevc.ParameterSets.{clamp, pps_filters}
use qualcomm_iris_vaapi.Codec.Syntax.Signed.{
  read_se, flag-Codes, read_if, if-Codes, grouped-Codes, passed-Codes,
}
use qualcomm_iris_vaapi.Codec.Hevc.PictureParameters.Flags.{InRange, clamped-Codes}

pub record PpsFilters : Type 0 where
  pub loop_filter_across_slices : ℕ
  pub deblocking_override : ℕ
  pub disable_deblocking : ℕ
  pub beta_offset_div2 : ℤ
  pub tc_offset_div2 : ℤ
  pub scaling_list_present : ℕ
  pub lists_modification_present : ℕ
  pub merge_level_minus2 : ℕ
  pub header_extension_present : ℕ
  pub extension : ℕ

-- The offsets of the deblocking filter.
abbrev pub read_offsets : Reads (ℤ × ℤ)
read_offsets = read_then read_se (λ beta. read_then read_se (λ tc. read_pure (beta, tc)))

-- What deblocking_filter_control_present_flag leads to.
pub record Deblocking : Type 0 where
  pub override : ℕ
  pub disable : ℕ
  pub beta : ℤ
  pub tc : ℤ

abbrev no_control : Deblocking
no_control = record { override = 0; disable = 0; beta = pos 0; tc = pos 0 }

abbrev deblocking : ℕ → ℕ → ℤ × ℤ → Deblocking
deblocking override disable offsets = record {
  override = override;
  disable = disable;
  beta = offsets.0;
  tc = offsets.1;
}

abbrev read_disable : ℕ → Reads Deblocking
read_disable override = read_then read_bit (λ disable.
    read_then (read_if (not (on disable)) (pos 0, pos 0) read_offsets)
      (λ offsets. read_pure (deblocking override disable offsets)))

abbrev pub read_control : Reads Deblocking
read_control = read_then read_bit read_disable

-- What is behind the control of the filter.
abbrev read_behind : ℕ → Deblocking → Reads PpsFilters
read_behind across control = read_then read_bit (λ scaling. read_then read_bit (λ lists.
    read_then read_ue (λ merge. read_then read_bit (λ header. read_then read_bit (λ extension.
      read_pure (record {
        loop_filter_across_slices = across;
        deblocking_override = control.override;
        disable_deblocking = control.disable;
        beta_offset_div2 = control.beta;
        tc_offset_div2 = control.tc;
        scaling_list_present = scaling;
        lists_modification_present = lists;
        merge_level_minus2 = merge;
        header_extension_present = header;
        extension = extension;
      }))))))

abbrev pub read_filters : Reads PpsFilters
read_filters = read_then read_bit (λ across.
    read_then read_bit
      (λ present. read_then (read_if (on present) no_control read_control) (read_behind across)))

abbrev offsets_of : HevcPicture → ℤ × ℤ
offsets_of p =
    if not (on p.slice.pps_disable_deblocking_filter_flag)
    then (p.pps_beta_offset_div2, p.pps_tc_offset_div2)
    else (pos 0, pos 0)

abbrev pub filters_of : HevcPicture → PpsFilters
filters_of p = record {
  loop_filter_across_slices = p.pic.pps_loop_filter_across_slices_enabled_flag % 2;
  deblocking_override = p.slice.deblocking_filter_override_enabled_flag % 2;
  disable_deblocking = p.slice.pps_disable_deblocking_filter_flag;
  beta_offset_div2 = (offsets_of p).0;
  tc_offset_div2 = (offsets_of p).1;
  scaling_list_present = 0;
  lists_modification_present = 1;
  merge_level_minus2 = p.log2_parallel_merge_level_minus2;
  header_extension_present = p.slice.slice_segment_header_extension_present_flag % 2;
  extension = 0;
}

offsets-Codes :
    (p : HevcPicture)
    → InRange p
    → Codes
        (read_if (not (on p.slice.pps_disable_deblocking_filter_flag)) (pos 0, pos 0) read_offsets)
        (when
          (not (on p.slice.pps_disable_deblocking_filter_flag))
          (se (clamp p.pps_beta_offset_div2 6 6) >> se (clamp p.pps_tc_offset_div2 6 6)))
        (offsets_of p)
offsets-Codes p h =
    if-Codes (not (on p.slice.pps_disable_deblocking_filter_flag)) (pos 0, pos 0)
      (then-Codes _ (clamped-Codes 6 6 p.pps_beta_offset_div2 h.beta (omega arith) (omega arith)) (
        mapped-Codes _ _ (clamped-Codes 6 6 p.pps_tc_offset_div2 h.tc (omega arith) (omega arith))
          refl))

pub filters-Codes :
    (p : HevcPicture) → InRange p → Codes read_filters (pps_filters p) (filters_of p)
unfolding pps_filters
filters-Codes p h =
    let across = p.pic.pps_loop_filter_across_slices_enabled_flag % 2 in
    let override = p.slice.deblocking_filter_override_enabled_flag % 2 in
    let disable = p.slice.pps_disable_deblocking_filter_flag in
    let k = read_behind across in
    let given = read_if (not (on disable)) (pos 0, pos 0) read_offsets in
    then-Codes _ (bit-Codes p.pic.pps_loop_filter_across_slices_enabled_flag) (
      then-Codes _ (bit-Codes 1) (
        grouped-Codes read_bit read_disable k (
          then-Codes _ (bit-Codes p.slice.deblocking_filter_override_enabled_flag) (
            grouped-Codes read_bit _ k (
              then-Codes _ (flag-Codes disable h.disable_deblocking) (
                grouped-Codes given (λ offsets. read_pure (deblocking override disable offsets)) k
                  (then-Codes _ (offsets-Codes p h) (
                    passed-Codes (deblocking override disable (offsets_of p)) k (
                      then-Codes _ (bit-Codes 0) (
                        then-Codes _ (bit-Codes 1) (
                          then-Codes _
                            (ue-Codes p.log2_parallel_merge_level_minus2
                              (omega (arith, h.merge_level)))
                            (then-Codes _
                              (bit-Codes p.slice.slice_segment_header_extension_present_flag)
                              (mapped-Codes _ _ (bit-Codes 0) refl)))))))))))))
