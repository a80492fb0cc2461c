-- ===== src/Codec/H264/PictureSet.antt =====
-- The picture parameter set of src/codec/h264.cc against its syntax in H.264.
use qualcomm_iris_vaapi.Base.{
  ℕ, ◌%◌, ◌^◌, ◌<◌, ◌≡◌, refl, ap, ◌∙◌, Bool, List, [], ◌∷◌, ◌++◌, drop, arith, leb, if◌then◌else◌,
  replicate, bits_msb,
}
use qualcomm_iris_vaapi.Base.Int.{ℤ, pos}
use qualcomm_iris_vaapi.Codec.Writer.{empty, trailing_bits}
use qualcomm_iris_vaapi.Codec.Writer.Contents.{empty-IsValid, contents}
use qualcomm_iris_vaapi.Codec.Reader.{reader}
use qualcomm_iris_vaapi.Codec.Reader.Stream.{stream}
use qualcomm_iris_vaapi.Codec.ExpGolomb.{IsSmall}
use qualcomm_iris_vaapi.Codec.Nal.Padding.{trailing_bits-Padded}
use qualcomm_iris_vaapi.Codec.Syntax.{Write, ◌>>◌, bit, bits, ue, se, when}
use qualcomm_iris_vaapi.Codec.Syntax.Codes.{
  Codes, Reads, read_bit, read_bits, read_from, read_then, read_pure, then-Codes, mapped-Codes,
  bit-Codes, bits-Codes,
}
use qualcomm_iris_vaapi.Codec.Syntax.Unsigned.{read_ue, ue-Codes}
use qualcomm_iris_vaapi.Codec.Syntax.Signed.{read_se, se-Codes, read_if, if-Codes}
use qualcomm_iris_vaapi.Codec.H264.{
  PictureParameters, SliceParameters, pps_tail, pps_offsets, pps_payload, h264_pps,
}
use qualcomm_iris_vaapi.Codec.H264.Units.{reader-h264_pps}

-- The writes of the source in their order.
in_order : ℕ → PictureParameters → SliceParameters → Write
in_order profile p slice = do
  ue 0
  ue 0
  bit p.entropy_coding_mode_flag
  bit p.pic_order_present_flag
  ue 0
  ue slice.num_ref_idx_l0_active_minus1
  ue slice.num_ref_idx_l1_active_minus1
  bit p.weighted_pred_flag
  bits p.weighted_bipred_idc 2
  se p.pic_init_qp_minus26
  se p.pic_init_qs_minus26
  se p.chroma_qp_index_offset
  bit p.deblocking_filter_control_present_flag
  bit p.constrained_intra_pred_flag
  bit p.redundant_pic_cnt_present_flag
  when (leb 100 profile)
      (do bit p.transform_8x8_mode_flag; bit 0; se p.second_chroma_qp_index_offset)

payload_in_order :
    (profile : ℕ) (p : PictureParameters) (slice : SliceParameters)
    → pps_payload profile p slice ≡ trailing_bits (in_order profile p slice empty)
unfolding pps_payload pps_offsets pps_tail in_order ◌>>◌ bit bits ue se when
payload_in_order profile p slice = refl

-- What the High profiles have more.
pub record HighPps : Type 0 where
  pub transform_8x8 : ℕ
  pub scaling_matrix_present : ℕ
  pub second_chroma_offset : ℤ

pub record Pps : Type 0 where
  pub pps_id : ℕ
  pub sps_id : ℕ
  pub entropy_coding_mode : ℕ
  pub pic_order_present : ℕ
  pub slice_groups_minus1 : ℕ
  pub l0_active_minus1 : ℕ
  pub l1_active_minus1 : ℕ
  pub weighted_pred : ℕ
  pub weighted_bipred_idc : ℕ
  pub init_qp_minus26 : ℤ
  pub init_qs_minus26 : ℤ
  pub chroma_offset : ℤ
  pub deblocking_control_present : ℕ
  pub constrained_intra_pred : ℕ
  pub redundant_pic_cnt_present : ℕ
  pub high : HighPps

-- What a set without this part stands for, as far as it does not hang on the first offset.
abbrev plain : HighPps
plain = record { transform_8x8 = 0; scaling_matrix_present = 0; second_chroma_offset = pos 0 }

abbrev read_high : Reads HighPps
read_high = read_then read_bit (λ transform. read_then read_bit (λ matrix.
    read_then read_se (λ second. read_pure (record {
      transform_8x8 = transform;
      scaling_matrix_present = matrix;
      second_chroma_offset = second;
    }))))

-- The reader knows whether the part of the High profiles follows.
abbrev pub read_pps : Bool → Reads Pps
read_pps more = read_then read_ue (λ pps. read_then read_ue (λ sps. read_then read_bit (λ entropy.
    read_then read_bit (λ order. read_then read_ue (λ groups. read_then read_ue (λ l0.
      read_then read_ue (λ l1. read_then read_bit (λ weighted. read_then (read_bits 2) (λ bipred.
        read_then read_se (λ qp. read_then read_se (λ qs. read_then read_se (λ chroma.
          read_then read_bit (λ deblocking. read_then read_bit (λ intra.
            read_then read_bit (λ redundant. read_then (read_if more plain read_high) (λ high.
              read_pure (record {
                pps_id = pps;
                sps_id = sps;
                entropy_coding_mode = entropy;
                pic_order_present = order;
                slice_groups_minus1 = groups;
                l0_active_minus1 = l0;
                l1_active_minus1 = l1;
                weighted_pred = weighted;
                weighted_bipred_idc = bipred;
                init_qp_minus26 = qp;
                init_qs_minus26 = qs;
                chroma_offset = chroma;
                deblocking_control_present = deblocking;
                constrained_intra_pred = intra;
                redundant_pic_cnt_present = redundant;
                high = high;
              })))))))))))))))))

abbrev pub high_of : PictureParameters → HighPps
high_of p = record {
  transform_8x8 = p.transform_8x8_mode_flag % 2;
  scaling_matrix_present = 0;
  second_chroma_offset = p.second_chroma_qp_index_offset;
}

-- One slice group, and the fields of the picture and the first slice.
abbrev pub pps_of : ℕ → PictureParameters → SliceParameters → Pps
pps_of profile p slice = record {
  pps_id = 0;
  sps_id = 0;
  entropy_coding_mode = p.entropy_coding_mode_flag % 2;
  pic_order_present = p.pic_order_present_flag % 2;
  slice_groups_minus1 = 0;
  l0_active_minus1 = slice.num_ref_idx_l0_active_minus1;
  l1_active_minus1 = slice.num_ref_idx_l1_active_minus1;
  weighted_pred = p.weighted_pred_flag % 2;
  weighted_bipred_idc = p.weighted_bipred_idc % 4;
  init_qp_minus26 = p.pic_init_qp_minus26;
  init_qs_minus26 = p.pic_init_qs_minus26;
  chroma_offset = p.chroma_qp_index_offset;
  deblocking_control_present = p.deblocking_filter_control_present_flag % 2;
  constrained_intra_pred = p.constrained_intra_pred_flag % 2;
  redundant_pic_cnt_present = p.redundant_pic_cnt_present_flag % 2;
  high = if leb 100 profile then high_of p else plain;
}

-- The numbers fit VA's fields, which have at most 8 bits.
pub record InRange (p : PictureParameters) (slice : SliceParameters) : Type 0 where
  pub l0 : slice.num_ref_idx_l0_active_minus1 < 2 ^ 8
  pub l1 : slice.num_ref_idx_l1_active_minus1 < 2 ^ 8
  pub qp : IsSmall p.pic_init_qp_minus26
  pub qs : IsSmall p.pic_init_qs_minus26
  pub chroma : IsSmall p.chroma_qp_index_offset
  pub second_chroma : IsSmall p.second_chroma_qp_index_offset

pps-Codes :
    (profile : ℕ) (p : PictureParameters) (slice : SliceParameters)
    → InRange p slice
    → Codes (read_pps (leb 100 profile)) (in_order profile p slice) (pps_of profile p slice)
unfolding in_order
pps-Codes profile p slice h =
    let l0 = slice.num_ref_idx_l0_active_minus1 in
    let l1 = slice.num_ref_idx_l1_active_minus1 in
    then-Codes _ (ue-Codes 0 (omega arith)) (
      then-Codes _ (ue-Codes 0 (omega arith)) (
        then-Codes _ (bit-Codes p.entropy_coding_mode_flag) (
          then-Codes _ (bit-Codes p.pic_order_present_flag) (
            then-Codes _ (ue-Codes 0 (omega arith)) (
              then-Codes _ (ue-Codes l0 (omega (arith, h.l0))) (
                then-Codes _ (ue-Codes l1 (omega (arith, h.l1))) (
                  then-Codes _ (bit-Codes p.weighted_pred_flag) (
                    then-Codes _ (bits-Codes p.weighted_bipred_idc 2) (
                      then-Codes _ (se-Codes p.pic_init_qp_minus26 h.qp) (
                        then-Codes _ (se-Codes p.pic_init_qs_minus26 h.qs) (
                          then-Codes _ (se-Codes p.chroma_qp_index_offset h.chroma) (
                            then-Codes _ (bit-Codes p.deblocking_filter_control_present_flag) (
                              then-Codes _ (bit-Codes p.constrained_intra_pred_flag) (
                                then-Codes _ (bit-Codes p.redundant_pic_cnt_present_flag) (
                                  mapped-Codes _ _
                                    (if-Codes (leb 100 profile) plain {a = high_of p} (
                                      then-Codes _ (bit-Codes p.transform_8x8_mode_flag) (
                                        then-Codes _ (bit-Codes 0) (
                                          mapped-Codes _ _
                                            (se-Codes p.second_chroma_qp_index_offset
                                              h.second_chroma)
                                            refl))))
                                    refl)))))))))))))))

-- The header of the NAL unit and the set.
abbrev pub read_unit : Bool → Reads (ℕ × Pps)
read_unit more =
    read_then (read_bits 8) (λ header. read_then (read_pps more) (λ pps. read_pure (header, pps)))

read_unit-pps :
    (more : Bool) (held rest : List ℕ) (v : Pps)
    → read_pps more (held ++ rest) ≡ (v, rest)
    → read_unit more (stream (0x68 ∷ []) ++ (held ++ rest)) ≡ ((0x68, v), rest)
unfolding read_then read_from bits_msb
read_unit-pps more held rest v e = ap (λ (r : Pps × List ℕ). ((0x68, r.0), r.1)) e

-- The set of a picture and a slice whose numbers fit VA's fields, as a NAL unit, is read back by the syntax of H.264, where the reader knows whether the part of the High profiles follows: behind the start code and with the bytes that were escaped taken out, a header of type 8, every element of the picture, and then a one and fewer than eight zeros.
pub read_unit-h264_pps :
    (profile : ℕ) (p : PictureParameters) (slice : SliceParameters)
    → InRange p slice
    → (k : ℕ) × (k < 8)
      × (read_unit (leb 100 profile) (stream (reader (drop 4 (h264_pps profile p slice)) 1).held)
          ≡ ((0x68, pps_of profile p slice), 1 ∷ replicate k 0))
unfolding contents
read_unit-h264_pps profile p slice h =
    let coded = pps-Codes profile p slice h in
    let fields = coded.appends empty empty-IsValid in
    let (k, short, ends, aligned) = trailing_bits-Padded _ fields.valid in
    let payload =
      ap contents (payload_in_order profile p slice)
      ∙ ends.grown
      ∙ ap (λ t. t ++ (1 ∷ replicate k 0)) fields.grown in
    (
      k,
      short,
      ap (read_unit (leb 100 profile))
            (reader-h264_pps profile p slice ∙ ap (λ t. stream (0x68 ∷ []) ++ t) payload)
          ∙ read_unit-pps (leb 100 profile) coded.bits _ _ (coded.reads _),
    )
