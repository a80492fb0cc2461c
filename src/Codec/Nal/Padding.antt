-- ===== src/Codec/Nal/Padding.antt =====
-- The end of a bitstream: padding to a byte, and the bytes of a writer as a stream of bits.
use qualcomm_iris_vaapi.Base.{
  ℕ, zero, suc, ◌+◌, ◌-◌, ◌%◌, ◌<◌, ◌≡◌, refl, ◌∙◌, ◌≢◌, inl, inr, List, [], ◌∷◌, ◌++◌, reverse,
  append-nil, append_assoc, arith, ◌==◌, ==_iff, Bool-cases, replicate,
}
use mathlib.Core.List.{reverse-cons}
use qualcomm_iris_vaapi.Codec.Writer.{BitWriter, bit, pad_fuel, byte_align, trailing_bits, written}
use qualcomm_iris_vaapi.Codec.Writer.Contents.{
  IsValid, contents, full, Appends, Appends-nil, Appends-append, bit-Appends,
}
use qualcomm_iris_vaapi.Codec.Reader.Stream.{stream}

pub record Padded (w w' : BitWriter) : Type 0 where
  pub count : ℕ
  pub appends : Appends w w' (replicate count 0)
  pub aligned : w'.bit_offset ≡ 0
  pub short : count < 8

-- The rounds that are left until the offset wraps.
abbrev gap : BitWriter → ℕ
gap w = (8 - w.bit_offset) % 8

bit_offset-bit : (w : BitWriter) (v : ℕ) → (bit w v).bit_offset ≡ (w.bit_offset + 1) % 8
unfolding bit
bit_offset-bit w v = refl

gap-bit : (w : BitWriter) (v : ℕ) → w.bit_offset < 8 → w.bit_offset ≢ 0 → gap (bit w v) + 1 ≡ gap w
gap-bit w v h nz = omega (arith, bit_offset-bit w v)

pad_fuel-Appends :
    (f : ℕ) (w : BitWriter)
    → IsValid w
    → gap w < f
    → Appends w (pad_fuel f w) (replicate (gap w) 0) × ((pad_fuel f w).bit_offset ≡ 0)
unfolding pad_fuel
pad_fuel-Appends zero w h lt = absurd (omega arith)
pad_fuel-Appends (suc f) w h lt = elim (Bool-cases (w.bit_offset == 0)) [
  | inl done ↦
      let at_0 : w.bit_offset ≡ 0 = (==_iff _ _).0 done in
      let none_left : gap w ≡ 0 = omega (arith, at_0) in rw (done, none_left) (Appends-nil h, at_0)
  | inr more ↦
      let one = bit-Appends w 0 h in
      let step : gap w ≡ suc (gap (bit w 0)) = omega (arith, gap-bit w 0 h.offset (ground arith)) in
      let (rest, aligned) = pad_fuel-Appends f (bit w 0) one.valid (omega (arith, step)) in
      rw (more, step) (Appends-append one rest, aligned)
]

-- `byte_align` writes zeros to the next byte boundary, and fewer than eight.
pub byte_align-Padded : (w : BitWriter) → IsValid w → Padded w (byte_align w)
unfolding byte_align
byte_align-Padded w h =
    let (appends, aligned) = pad_fuel-Appends 8 w h (omega arith) in
    record { count = gap w; appends = appends; aligned = aligned; short = omega arith }

-- `trailing_bits` writes a one, and zeros to the next byte boundary.
pub trailing_bits-Padded :
    (w : BitWriter)
    → IsValid w
    → (k : ℕ) × (k < 8)
      × Appends w (trailing_bits w) (1 ∷ replicate k 0)
      × ((trailing_bits w).bit_offset ≡ 0)
unfolding trailing_bits
trailing_bits-Padded w h =
    let one = bit-Appends w 1 h in
    let pad = byte_align-Padded (bit w 1) one.valid in
    (pad.count, pad.short, Appends-append one pad.appends, pad.aligned)

pub stream-append : (xs ys : List ℕ) → stream (xs ++ ys) ≡ stream xs ++ stream ys
stream-append [] ys = refl
stream-append (x ∷ xs) ys = rw (stream-append xs ys, append_assoc)

stream-reverse : (rev : List ℕ) → stream (reverse rev) ≡ full rev
stream-reverse [] = refl
stream-reverse (b ∷ rev) =
    rw (reverse-cons b rev, stream-append (reverse rev) (b ∷ []), append-nil, stream-reverse rev)

-- At a byte boundary the vector's bytes are the bits written.
pub stream-written : (w : BitWriter) → w.bit_offset ≡ 0 → stream (written w) ≡ contents w
unfolding written contents
stream-written w e = stream-reverse w.rev ∙ rw e
