-- ===== src/Codec/H264/Units.antt =====
-- The parameter sets as NAL units.
use qualcomm_iris_vaapi.Base.{
  ℕ, ◌≡◌, Bool, true, false, [], ◌∷◌, ◌++◌, drop, arith, if◌then◌else◌, leb, suc, zero,
}
use qualcomm_iris_vaapi.Base.Int.{ℤ, pos, negsuc}
use qualcomm_iris_vaapi.Codec.Writer.{BitWriter, empty, bit, bits, ue, se, trailing_bits}
use qualcomm_iris_vaapi.Codec.Writer.Contents.{
  IsValid, empty-IsValid, bit-Appends, bits-Appends, zeros-Appends, contents,
}
use qualcomm_iris_vaapi.Codec.Reader.{reader}
use qualcomm_iris_vaapi.Codec.Reader.Stream.{stream}
use qualcomm_iris_vaapi.Codec.Nal.Padding.{trailing_bits-Padded}
use qualcomm_iris_vaapi.Codec.Nal.RoundTrip.{reader-append_escaped_nal}
use qualcomm_iris_vaapi.Codec.H264.{
  PictureParameters, SliceParameters, sps_head, sps_high, sps_order, sps_size, sps_crop, crop_right,
  crop_bottom, pps_offsets, sps_payload, h264_sps, pps_tail, pps_payload, h264_pps,
}

bit-IsValid : {w : BitWriter} (v : ℕ) → IsValid w → IsValid (bit w v)
bit-IsValid {w} v h = (bit-Appends w v h).valid

bits-IsValid : {w : BitWriter} (v n : ℕ) → IsValid w → IsValid (bits w v n)
bits-IsValid {w} v n h = (bits-Appends n w v h).valid

ue-IsValid : {w : BitWriter} (v : ℕ) → IsValid w → IsValid (ue w v)
unfolding ue
ue-IsValid {w} v h = bits-IsValid _ _ (zeros-Appends _ w h).valid

se-IsValid : {w : BitWriter} (z : ℤ) → IsValid w → IsValid (se w z)
unfolding se
se-IsValid (pos zero) h = ue-IsValid _ h
se-IsValid (pos (suc n)) h = ue-IsValid _ h
se-IsValid (negsuc n) h = ue-IsValid _ h

if-IsValid : (b : Bool) {v w : BitWriter} → IsValid v → IsValid w → IsValid (if b then v else w)
if-IsValid true hv hw = hv
if-IsValid false hv hw = hw

ruleset writes = (bit-IsValid, bits-IsValid, ue-IsValid, se-IsValid, if-IsValid)

sps_head-IsValid :
    (profile : ℕ) (p : PictureParameters) (w : BitWriter)
    → IsValid w
    → IsValid (sps_head profile p w)
unfolding sps_head
sps_head-IsValid profile p w h = search writes depth 24

sps_high-IsValid : (p : PictureParameters) (w : BitWriter) → IsValid w → IsValid (sps_high p w)
unfolding sps_high
sps_high-IsValid p w h = search writes depth 24

sps_order-IsValid : (p : PictureParameters) (w : BitWriter) → IsValid w → IsValid (sps_order p w)
unfolding sps_order
sps_order-IsValid p w h = search writes depth 24

sps_size-IsValid : (p : PictureParameters) (w : BitWriter) → IsValid w → IsValid (sps_size p w)
unfolding sps_size
sps_size-IsValid p w h = search writes depth 24

sps_crop-IsValid : (r b : ℕ) (w : BitWriter) → IsValid w → IsValid (sps_crop r b w)
unfolding sps_crop
sps_crop-IsValid r b w h = search writes depth 24

pps_tail-IsValid : (p : PictureParameters) (w : BitWriter) → IsValid w → IsValid (pps_tail p w)
unfolding pps_tail
pps_tail-IsValid p w h = search writes depth 24

trailed : (w : BitWriter) → IsValid w → (trailing_bits w).bit_offset ≡ 0
trailed w h = let (k, short, appends, aligned) = trailing_bits-Padded w h in aligned

sps_payload-aligned :
    (profile width height : ℕ) (p : PictureParameters)
    → (sps_payload profile width height p).bit_offset ≡ 0
unfolding sps_payload
sps_payload-aligned profile width height p =
    let head = sps_head-IsValid profile p empty empty-IsValid in
    let high = if-IsValid (leb 100 profile) (sps_high-IsValid p _ head) head in
    let size = sps_size-IsValid p _ (sps_order-IsValid p _ high) in
    trailed _ (bit-IsValid 0 (sps_crop-IsValid (crop_right width p) (crop_bottom height p) _ size))

pps_offsets-IsValid :
    (p : PictureParameters) (slice : SliceParameters) → IsValid (pps_offsets p slice)
unfolding pps_offsets
pps_offsets-IsValid p slice =
    let modes = bit-IsValid _ (bit-IsValid _ (ue-IsValid 0 (ue-IsValid 0 empty-IsValid))) in
    let active = ue-IsValid _ (ue-IsValid _ (ue-IsValid 0 modes)) in
    let weights = bits-IsValid _ 2 (bit-IsValid _ active) in
    se-IsValid _ (se-IsValid _ (se-IsValid _ weights))

pps_payload-aligned :
    (profile : ℕ) (p : PictureParameters) (slice : SliceParameters)
    → (pps_payload profile p slice).bit_offset ≡ 0
unfolding pps_payload
pps_payload-aligned profile p slice =
    let flags = bit-IsValid _ (bit-IsValid _ (bit-IsValid _ (pps_offsets-IsValid p slice))) in
    trailed _ (if-IsValid (leb 100 profile) (pps_tail-IsValid p _ flags) flags)

-- A sequence parameter set, read behind its start code, is the header 0x67 and then the bits written.
pub reader-h264_sps :
    (profile width height : ℕ) (p : PictureParameters)
    → stream (reader (drop 4 (h264_sps profile width height p)) 1).held
      ≡ stream (0x67 ∷ []) ++ contents (sps_payload profile width height p)
unfolding h264_sps
reader-h264_sps profile width height p =
    reader-append_escaped_nal [] [] 0x67 (sps_payload profile width height p)
      (λ e. omega (arith, e)) (sps_payload-aligned profile width height p)

-- A picture parameter set, read behind its start code, is the header 0x68 and then the bits written.
pub reader-h264_pps :
    (profile : ℕ) (p : PictureParameters) (slice : SliceParameters)
    → stream (reader (drop 4 (h264_pps profile p slice)) 1).held
      ≡ stream (0x68 ∷ []) ++ contents (pps_payload profile p slice)
unfolding h264_pps
reader-h264_pps profile p slice =
    reader-append_escaped_nal [] [] 0x68 (pps_payload profile p slice) (λ e. omega (arith, e))
      (pps_payload-aligned profile p slice)
