-- ===== src/Codec/H264.antt =====
-- src/codec/h264.cc: the parameter sets, from VA metadata.
pub mod Levels
pub mod Units
pub mod PictureSet
pub mod Translation
pub mod Slices
use qualcomm_iris_vaapi.Base.{
  ℕ, zero, suc, ◌+◌, ◌-◌, ◌*◌, ◌/◌, ◌%◌, ◌^◌, Bool, true, false, not, ◌&&◌, ◌||◌, List, [], ◌∷◌,
  ◌++◌, Option, none, some, ltb, leb, ◌==◌, if◌then◌else◌, flag, length, get_or,
}
use qualcomm_iris_vaapi.Base.Int.{ℤ, pos}
use qualcomm_iris_vaapi.Codec.Writer.{BitWriter, empty, bit, bits, ue, se, trailing_bits}
use qualcomm_iris_vaapi.Codec.Nal.{append_escaped_nal}

pub data Profile : Type 0 where
  baseline constrained_baseline main_profile high : Profile

-- Any other profile is refused by an exception, in the constructor.
abbrev pub profile_idc : Profile → ℕ
profile_idc baseline = 66
profile_idc constrained_baseline = 66
profile_idc main_profile = 77
profile_idc high = 100

pub record Level : Type 0 where
  pub idc : ℕ
  pub max_frame_mbs : ℕ
  pub max_dpb_mbs : ℕ

abbrev level : ℕ → ℕ → ℕ → Level
level idc frame dpb = record { idc = idc; max_frame_mbs = frame; max_dpb_mbs = dpb }

abbrev pub levels : List Level
levels =
    level 10 99 396
    ∷ level 11 396 900
    ∷ level 12 396 2376
    ∷ level 20 396 2376
    ∷ level 21 792 4752
    ∷ level 22 1620 8100
    ∷ level 30 1620 8100
    ∷ level 31 3600 18000
    ∷ level 32 5120 20480
    ∷ level 40 8192 32768
    ∷ level 42 8704 34816
    ∷ level 50 22080 110400
    ∷ level 51 36864 184320
    ∷ level 60 139264 696320
    ∷ []

-- VAPictureParameterBufferH264, the fields that are read.
pub record PictureParameters : Type 0 where
  pub picture_width_in_mbs_minus1 : ℕ
  pub picture_height_in_mbs_minus1 : ℕ
  pub bit_depth_luma_minus8 : ℕ
  pub bit_depth_chroma_minus8 : ℕ
  pub num_ref_frames : ℕ
  pub chroma_format_idc : ℕ
  pub residual_colour_transform_flag : ℕ
  pub gaps_in_frame_num_value_allowed_flag : ℕ
  pub frame_mbs_only_flag : ℕ
  pub mb_adaptive_frame_field_flag : ℕ
  pub direct_8x8_inference_flag : ℕ
  pub log2_max_frame_num_minus4 : ℕ
  pub pic_order_cnt_type : ℕ
  pub log2_max_pic_order_cnt_lsb_minus4 : ℕ
  pub delta_pic_order_always_zero_flag : ℕ
  pub pic_init_qp_minus26 : ℤ
  pub pic_init_qs_minus26 : ℤ
  pub chroma_qp_index_offset : ℤ
  pub second_chroma_qp_index_offset : ℤ
  pub entropy_coding_mode_flag : ℕ
  pub weighted_pred_flag : ℕ
  pub weighted_bipred_idc : ℕ
  pub transform_8x8_mode_flag : ℕ
  pub constrained_intra_pred_flag : ℕ
  pub pic_order_present_flag : ℕ
  pub deblocking_filter_control_present_flag : ℕ
  pub redundant_pic_cnt_present_flag : ℕ
  pub frame_num : ℕ
  pub top_field_order_cnt : ℤ

-- VASliceParameterBufferH264, the fields that are read.
pub record SliceParameters : Type 0 where
  pub slice_type : ℕ
  pub num_ref_idx_l0_active_minus1 : ℕ
  pub num_ref_idx_l1_active_minus1 : ℕ

abbrev pub frame_mbs : PictureParameters → ℕ
frame_mbs p = (p.picture_width_in_mbs_minus1 + 1) * (p.picture_height_in_mbs_minus1 + 1) % 2 ^ 32

abbrev pub dpb_mbs : PictureParameters → ℕ
dpb_mbs p = (p.num_ref_frames + 1) * frame_mbs p % 2 ^ 32

abbrev pub fits_level : ℕ → ℕ → Level → Bool
fits_level frame dpb l = leb frame l.max_frame_mbs && leb dpb l.max_dpb_mbs

unfoldable pub level_loop : ℕ → ℕ → List Level → ℕ
level_loop frame dpb [] = 62
level_loop frame dpb (l ∷ ls) = if fits_level frame dpb l then l.idc else level_loop frame dpb ls

unfoldable pub level_for : PictureParameters → ℕ
unfolding level_loop
level_for p = level_loop (frame_mbs p) (dpb_mbs p) levels

unfoldable pub sps_head : ℕ → PictureParameters → BitWriter → BitWriter
sps_head profile p w =
    ue (bits (bits (bit (bits w profile 8) (flag (profile == 66))) 0 7) (level_for p) 8) 0

unfoldable pub sps_high : PictureParameters → BitWriter → BitWriter
sps_high p w =
    let format = ue w p.chroma_format_idc in
    let colour =
      if p.chroma_format_idc == 3 then bit format p.residual_colour_transform_flag else format in
    bit (bit (ue (ue colour p.bit_depth_luma_minus8) p.bit_depth_chroma_minus8) 0) 0

unfoldable pub sps_order : PictureParameters → BitWriter → BitWriter
sps_order p w =
    let head = ue (ue w p.log2_max_frame_num_minus4) p.pic_order_cnt_type in
    if p.pic_order_cnt_type == 0
    then ue head p.log2_max_pic_order_cnt_lsb_minus4
    else if p.pic_order_cnt_type == 1
    then ue (se (se (bit head p.delta_pic_order_always_zero_flag) (pos 0)) (pos 0)) 0
    else head

unfoldable pub sps_size : PictureParameters → BitWriter → BitWriter
sps_size p w =
    let frames = bit (ue w p.num_ref_frames) p.gaps_in_frame_num_value_allowed_flag in
    let size = ue (ue frames p.picture_width_in_mbs_minus1) p.picture_height_in_mbs_minus1 in
    let only = bit size p.frame_mbs_only_flag in
    let fields =
      if p.frame_mbs_only_flag == 0 then bit only p.mb_adaptive_frame_field_flag else only in
    bit fields p.direct_8x8_inference_flag

-- The crop in units of `unit`, on one axis.
abbrev pub crop_of : ℕ → ℕ → ℕ → ℕ
crop_of coded visible unit =
    (coded - (if not (visible == 0) && leb visible coded then visible else coded)) / unit

unfoldable pub sps_crop : ℕ → ℕ → BitWriter → BitWriter
sps_crop right bottom w =
    if right == 0 && bottom == 0 then bit w 0 else ue (ue (ue (ue (bit w 1) 0) right) 0) bottom

abbrev pub chroma_unit : PictureParameters → ℕ
chroma_unit p = if p.chroma_format_idc == 0 then 1 else 2

abbrev pub crop_right : ℕ → PictureParameters → ℕ
crop_right width p = crop_of ((p.picture_width_in_mbs_minus1 + 1) * 16) width (chroma_unit p)

abbrev pub crop_bottom : ℕ → PictureParameters → ℕ
crop_bottom height p =
    crop_of ((p.picture_height_in_mbs_minus1 + 1) * 16) height
      ((if p.frame_mbs_only_flag == 0 then 2 else 1) * chroma_unit p)

unfoldable pub sps_payload : ℕ → ℕ → ℕ → PictureParameters → BitWriter
unfolding sps_head sps_high sps_order sps_size sps_crop level_for
sps_payload profile width height p =
    let head = sps_head profile p empty in
    let high = if leb 100 profile then sps_high p head else head in
    let size = sps_size p (sps_order p high) in
    trailing_bits (bit (sps_crop (crop_right width p) (crop_bottom height p) size) 0)

unfoldable pub h264_sps : ℕ → ℕ → ℕ → PictureParameters → List ℕ
unfolding sps_payload
h264_sps profile visible_width visible_height p =
    append_escaped_nal [] (0x67 ∷ []) (sps_payload profile visible_width visible_height p)

unfoldable pub pps_tail : PictureParameters → BitWriter → BitWriter
pps_tail p w = se (bit (bit w p.transform_8x8_mode_flag) 0) p.second_chroma_qp_index_offset

unfoldable pub pps_offsets : PictureParameters → SliceParameters → BitWriter
pps_offsets p slice =
    let modes = bit (bit (ue (ue empty 0) 0) p.entropy_coding_mode_flag) p.pic_order_present_flag in
    let active =
      ue (ue (ue modes 0) slice.num_ref_idx_l0_active_minus1) slice.num_ref_idx_l1_active_minus1 in
    let weights = bits (bit active p.weighted_pred_flag) p.weighted_bipred_idc 2 in
    se (se (se weights p.pic_init_qp_minus26) p.pic_init_qs_minus26) p.chroma_qp_index_offset

unfoldable pub pps_payload : ℕ → PictureParameters → SliceParameters → BitWriter
unfolding pps_tail pps_offsets
pps_payload profile p slice =
    let deblocking = bit (pps_offsets p slice) p.deblocking_filter_control_present_flag in
    let flags =
      bit (bit deblocking p.constrained_intra_pred_flag) p.redundant_pic_cnt_present_flag in
    trailing_bits (if leb 100 profile then pps_tail p flags else flags)

unfoldable pub h264_pps : ℕ → PictureParameters → SliceParameters → List ℕ
unfolding pps_payload
h264_pps profile p slice = append_escaped_nal [] (0x68 ∷ []) (pps_payload profile p slice)
