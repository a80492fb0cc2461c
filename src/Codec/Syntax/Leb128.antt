-- ===== src/Codec/Syntax/Leb128.antt =====
-- `leb128` of src/codec/bitwriter.h against a reader of little-endian groups of seven bits.
use qualcomm_iris_vaapi.Base.{
  ℕ, zero, suc, ◌+◌, ◌*◌, ◌/◌, ◌%◌, ◌^◌, ◌<◌, bit_or, bit_or_step, ◌≡◌, refl, ◌∙◌, inl, inr, Bool,
  true, false, [], arith, leb, ◌==◌, ==_iff, if◌then◌else◌, Bool-cases,
}
use native.Mathlib.Nat.{pow-suc}
use qualcomm_iris_vaapi.Codec.Writer.{BitWriter, bit, bits, leb128_fuel, leb128}
use qualcomm_iris_vaapi.Codec.Writer.Contents.{Appends-nil}
use qualcomm_iris_vaapi.Codec.Syntax.{Write}
use qualcomm_iris_vaapi.Codec.Syntax.Codes.{
  Codes, Reads, read_bits, read_then, read_pure, bits-Codes, then-Codes, mapped-Codes,
}
use qualcomm_iris_vaapi.Codec.Syntax

-- A byte from 128 on says that more follows.
abbrev pub read_leb128_fuel : ℕ → Reads ℕ
read_leb128_fuel zero = read_pure 0
read_leb128_fuel (suc f) =
    let more = read_leb128_fuel f in
    read_then (read_bits 8) (λ byte.
      if leb 128 byte
      then read_then more (λ high. read_pure (high * 128 + byte % 128))
      else read_pure byte)

abbrev pub read_leb128 : Reads ℕ
read_leb128 = read_leb128_fuel 10

-- A bit above a number is added to it.
bit_or-above : (k b : ℕ) → b < 2 ^ k → bit_or b (2 ^ k) ≡ b + 2 ^ k
bit_or-above zero b h = let none_left : b ≡ 0 = omega arith in rw none_left refl
bit_or-above (suc k) b h =
    let half : 2 ^ suc k / 2 ≡ 2 ^ k = omega (arith, pow-suc 2 k) in
    let even : 2 ^ suc k % 2 ≡ 0 = omega (arith, pow-suc 2 k) in
    let rest = bit_or-above k (b / 2) (omega (arith, pow-suc 2 k)) in
    bit_or_step b (2 ^ suc k) ∙ rw (half, even, rest) (omega (arith, pow-suc 2 k))

leb128_fuel-Codes : (f v : ℕ) → v < 128 ^ f → Codes (read_leb128_fuel f) (λ w. leb128_fuel f w v) v
unfolding leb128_fuel Syntax.bits Syntax.◌>>◌ read_then
leb128_fuel-Codes zero v h =
    let none_left : v ≡ 0 = omega arith in
    rw none_left
      (record { bits = []; appends = λ w valid. Appends-nil valid; reads = λ rest. refl })
leb128_fuel-Codes (suc f) v h =
    let byte = v % 128 in
    let k = λ (b : ℕ).
      if leb 128 b
      then read_then (read_leb128_fuel f) (λ high. read_pure (high * 128 + b % 128))
      else read_pure b in
    elim (Bool-cases (v / 128 == 0)) [
      | inl done ↦
          let small : v % 128 % 2 ^ 8 ≡ v = omega (arith, (==_iff _ _).0 done) in
          let final : leb 128 v ≡ false = ground (arith, (==_iff _ _).0 done) in
          let first = bits-Codes (v % 128) 8 in
          rw done (record {
            bits = first.bits;
            appends = first.appends;
            reads = λ rest. rw (first.reads rest, small, final) refl;
          })
      | inr more ↦
          let above : bit_or (v % 128) 0x80 ≡ v % 128 + 128 =
            bit_or-above 7 (v % 128) (omega arith) in
          let whole : (v % 128 + 128) % 2 ^ 8 ≡ v % 128 + 128 = omega arith in
          let goes_on : leb 128 (v % 128 + 128) ≡ true = ground arith in
          let rest = leb128_fuel-Codes f (v / 128) (omega (arith, pow-suc 128 f)) in
          let back : v / 128 * 128 + (v % 128 + 128) % 128 ≡ v = omega arith in
          rw (more, above)
            (then-Codes k {g = λ w. leb128_fuel f w (v / 128)} (bits-Codes (v % 128 + 128) 8) (
              rw (whole, goes_on)
                (mapped-Codes (λ high. high * 128 + (v % 128 + 128) % 128) v rest back)))
    ]

-- A number below 128 ^ 10, so any of 64 bits, is written as the groups from which it is read back.
pub leb128-Codes : (v : ℕ) → v < 128 ^ 10 → Codes read_leb128 (λ w. leb128 w v) v
unfolding leb128
leb128-Codes v h = leb128_fuel-Codes 10 v h

bits_8-bit_offset : (w : BitWriter) (v : ℕ) → w.bit_offset ≡ 0 → (bits w v 8).bit_offset ≡ 0
unfolding bits bit
bits_8-bit_offset w v h = rw h refl

-- `leb128` keeps to whole bytes.
pub leb128-bit_offset : (w : BitWriter) (v : ℕ) → w.bit_offset ≡ 0 → (leb128 w v).bit_offset ≡ 0
unfolding leb128
leb128-bit_offset w v h = in_fuel 10 w v h
  where
    both :
        (c : Bool) (a b : BitWriter)
        → a.bit_offset ≡ 0
        → b.bit_offset ≡ 0
        → (if c then a else b).bit_offset ≡ 0
    both true a b p q = p
    both false a b p q = q

    in_fuel :
        (f : ℕ) (w : BitWriter) (v : ℕ) → w.bit_offset ≡ 0 → (leb128_fuel f w v).bit_offset ≡ 0
    in_fuel zero w v h = h
    in_fuel (suc f) w v h =
        both (v / 128 == 0) _ _ (bits_8-bit_offset w (v % 128) h)
          (in_fuel f _ (v / 128) (bits_8-bit_offset w (bit_or (v % 128) 0x80) h))
