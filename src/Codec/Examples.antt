-- ===== src/Codec/Examples.antt =====
-- Bitstreams at concrete values.
use qualcomm_iris_vaapi.Base.{
  ℕ, ◌+◌, ◌<◌, ◌≡◌, refl, List, [], ◌∷◌, ◌++◌, replicate, length, drop, arith, bits_msb,
}
use qualcomm_iris_vaapi.Base.Int.{pos, negsuc}
use qualcomm_iris_vaapi.Codec.Writer
use qualcomm_iris_vaapi.Codec.Writer.{BitWriter}
use qualcomm_iris_vaapi.Codec.Writer.Contents.{contents, IsValid, Appends, empty-IsValid}
use qualcomm_iris_vaapi.Codec.Reader
use qualcomm_iris_vaapi.Codec.Reader.{BitReader, reader}
use qualcomm_iris_vaapi.Codec.Reader.Stream.{stream, remaining}
use qualcomm_iris_vaapi.Codec.ExpGolomb.{ue-ue, se-se}
use qualcomm_iris_vaapi.Codec.Nal.{escape_loop, append_escaped_nal}
use qualcomm_iris_vaapi.Codec.Nal.Escape.{reader-escape_loop, escape_loop_safe}
use qualcomm_iris_vaapi.Codec.Nal.Padding.{Padded, byte_align-Padded, trailing_bits-Padded}
use qualcomm_iris_vaapi.Base.{All, ◌⊎◌, true}
use qualcomm_iris_vaapi.Codec.H264.{
  PictureParameters, SliceParameters, levels, level_for, frame_mbs, dpb_mbs,
}
use qualcomm_iris_vaapi.Codec.H264.{h264_pps}
use qualcomm_iris_vaapi.Codec.H264.PictureSet.{read_unit, pps_of, InRange, read_unit-h264_pps}
use qualcomm_iris_vaapi.Codec.H264.Levels.{Unfit, Lowest, level_for-Lowest}
use qualcomm_iris_vaapi.Codec.H264.Translation.{contains_idr}
use qualcomm_iris_vaapi.Codec.H264.Slices.{contains_idr-IdrAt, IdrAt}
use qualcomm_iris_vaapi.Codec.Nal.RoundTrip.{reader-append_escaped_nal}

-- The code of 4, 00101, and three zeros; that of -1 is 011.
abbrev four : BitReader
four = record { held = 40 ∷ []; position = 0 }

abbrev minus_one : BitReader
minus_one = record { held = 96 ∷ []; position = 0 }

abbrev one_bit : BitWriter
one_bit = record { rev = 128 ∷ []; bit_offset = 1 }

one_bit-IsValid : IsValid one_bit
one_bit-IsValid = record { offset = omega arith; clean = refl; within = (omega arith, tt) }

abbrev after_four : List ℕ
after_four = 0 ∷ 0 ∷ 0 ∷ []

ue-ue_example : ((Reader.ue four).0 ≡ 4) × (remaining (Reader.ue four).1 ≡ after_four)
unfolding Writer.ue Writer.bits Writer.bit Writer.zeros contents Writer.bit_width_fuel bits_msb
ue-ue_example = ue-ue Writer.empty 4 four after_four empty-IsValid (omega arith) refl refl

abbrev after_minus_one : List ℕ
after_minus_one = 0 ∷ 0 ∷ 0 ∷ 0 ∷ 0 ∷ []

se-se_example :
    ((Reader.se minus_one).0 ≡ negsuc 0) × (remaining (Reader.se minus_one).1 ≡ after_minus_one)
unfolding Writer.se Writer.ue Writer.bits Writer.bit Writer.zeros contents Writer.bit_width_fuel
    bits_msb
se-se_example =
    se-se Writer.empty (negsuc 0) minus_one after_minus_one empty-IsValid (omega arith) refl refl

-- A payload that a start code would end, behind the header of an IDR slice.
abbrev zeros_and_one : List ℕ
zeros_and_one = 0 ∷ 0 ∷ 1 ∷ []

reader-escape_loop_example :
    reader (101 ∷ escape_loop 0 zeros_and_one) 1
    ≡ record { held = 101 ∷ zeros_and_one; position = 0 }
reader-escape_loop_example = reader-escape_loop [] 101 zeros_and_one (λ e. omega (arith, e))

escape_loop_safe_example : 2 < 3
unfolding escape_loop
escape_loop_safe_example = escape_loop_safe zeros_and_one [] 3 (1 ∷ []) refl

byte_align-Padded_example : Padded one_bit (Writer.byte_align one_bit)
byte_align-Padded_example = byte_align-Padded one_bit one_bit-IsValid

trailing_bits-Padded_example :
    (k : ℕ) × (k < 8)
    × Appends one_bit (Writer.trailing_bits one_bit) (1 ∷ replicate k 0)
    × ((Writer.trailing_bits one_bit).bit_offset ≡ 0)
trailing_bits-Padded_example = trailing_bits-Padded one_bit one_bit-IsValid

abbrev two_bytes : BitWriter
two_bytes = record { rev = 1 ∷ 0 ∷ 0 ∷ []; bit_offset = 0 }

abbrev delimiter : List ℕ
delimiter = 9 ∷ []

reader-append_escaped_nal_example :
    stream
      (reader
        (drop (length delimiter + 4) (append_escaped_nal delimiter ([] ++ (101 ∷ [])) two_bytes))
        (length {A = ℕ} [] + 1)).held
    ≡ stream ([] ++ (101 ∷ [])) ++ contents two_bytes
reader-append_escaped_nal_example =
    reader-append_escaped_nal delimiter [] 101 two_bytes (λ e. omega (arith, e)) refl

-- A picture of 64 by 64 pixels.
abbrev square : PictureParameters
square = record {
  picture_width_in_mbs_minus1 = 3;
  picture_height_in_mbs_minus1 = 3;
  bit_depth_luma_minus8 = 0;
  bit_depth_chroma_minus8 = 0;
  num_ref_frames = 1;
  chroma_format_idc = 1;
  residual_colour_transform_flag = 0;
  gaps_in_frame_num_value_allowed_flag = 0;
  frame_mbs_only_flag = 1;
  mb_adaptive_frame_field_flag = 0;
  direct_8x8_inference_flag = 1;
  log2_max_frame_num_minus4 = 0;
  pic_order_cnt_type = 0;
  log2_max_pic_order_cnt_lsb_minus4 = 0;
  delta_pic_order_always_zero_flag = 0;
  pic_init_qp_minus26 = negsuc 2;
  pic_init_qs_minus26 = pos 0;
  chroma_qp_index_offset = pos 0;
  second_chroma_qp_index_offset = pos 0;
  entropy_coding_mode_flag = 1;
  weighted_pred_flag = 0;
  weighted_bipred_idc = 0;
  transform_8x8_mode_flag = 1;
  constrained_intra_pred_flag = 0;
  pic_order_present_flag = 0;
  deblocking_filter_control_present_flag = 1;
  redundant_pic_cnt_present_flag = 0;
  frame_num = 0;
  top_field_order_cnt = pos 0;
}

abbrev intra : SliceParameters
intra = record {
  slice_type = 2;
  num_ref_idx_l0_active_minus1 = 0;
  num_ref_idx_l1_active_minus1 = 0;
}

square-InRange : InRange square intra
square-InRange = record {
  l0 = omega arith;
  l1 = omega arith;
  qp = omega arith;
  qs = omega arith;
  chroma = omega arith;
  second_chroma = omega arith;
}

read_unit-h264_pps_example :
    (k : ℕ) × (k < 8)
    × (read_unit true (stream (reader (drop 4 (h264_pps 100 square intra)) 1).held)
        ≡ ((0x68, pps_of 100 square intra), 1 ∷ replicate k 0))
read_unit-h264_pps_example = read_unit-h264_pps 100 square intra square-InRange

level_for-Lowest_example :
    (All (Unfit (frame_mbs square) (dpb_mbs square)) levels × (level_for square ≡ 62))
    ⊎ Lowest (frame_mbs square) (dpb_mbs square) levels (level_for square)
level_for-Lowest_example = level_for-Lowest square

contains_idr-IdrAt_example :
    (contains_idr (0 ∷ 0 ∷ 0 ∷ 1 ∷ 101 ∷ []) ≡ true → IdrAt (0 ∷ 0 ∷ 0 ∷ 1 ∷ 101 ∷ []))
    × (IdrAt (0 ∷ 0 ∷ 0 ∷ 1 ∷ 101 ∷ []) → contains_idr (0 ∷ 0 ∷ 0 ∷ 1 ∷ 101 ∷ []) ≡ true)
contains_idr-IdrAt_example = contains_idr-IdrAt (0 ∷ 0 ∷ 0 ∷ 1 ∷ 101 ∷ [])
