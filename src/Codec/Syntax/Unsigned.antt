-- ===== src/Codec/Syntax/Unsigned.antt =====
-- `ue` of src/codec/bitwriter.h against a reader of Exp-Golomb codes on plain bits.
use qualcomm_iris_vaapi.Base.{
  ℕ, zero, suc, ◌+◌, ◌-◌, ◌*◌, ◌/◌, ◌%◌, ◌^◌, ◌<◌, ◌≡◌, refl, ap, ◌∙◌, List, ◌∷◌, ◌++◌,
  append_assoc, arith, ◌==◌, if◌then◌else◌, replicate, bits_msb, pow_mono,
}
use native.Mathlib.Decide.{dec_lt}
use native.Mathlib.Nat.{div-eq_of_lt-le, div-add-mod', mod-eq_of_lt, pow-suc}
use qualcomm_iris_vaapi.Codec.Writer
use qualcomm_iris_vaapi.Codec.ExpGolomb.{bit_width_fuel-Width, code_bits, code_written}
use qualcomm_iris_vaapi.Codec.Syntax.{ue}
use qualcomm_iris_vaapi.Codec.Syntax.Codes.{Codes, Reads, read_bit, read_bits, read_from-bits_msb}

-- After `k` gap.
abbrev pub read_ue_fuel : ℕ → ℕ → Reads ℕ
read_ue_fuel zero k bs = (0, bs)
read_ue_fuel (suc f) k bs =
    let (b, rest) = read_bit bs in
    let (v, behind) = read_bits k rest in
    let more = read_ue_fuel f (k + 1) rest in if b == 1 then (2 ^ k + v - 1, behind) else more

abbrev pub read_ue : Reads ℕ
read_ue = read_ue_fuel 33 0

read_ue_fuel-zeros :
    (f k gap c : ℕ) (rest : List ℕ)
    → gap < f
    → c / 2 ^ (k + gap) ≡ 1
    → read_ue_fuel f k (replicate gap 0 ++ (1 ∷ (bits_msb (k + gap) c ++ rest))) ≡ (c - 1, rest)
read_ue_fuel-zeros zero k gap c rest h one = absurd (omega arith)
read_ue_fuel-zeros (suc f) k zero c rest h one =
    let none_left : k + 0 ≡ k = omega arith in
    let top : c / 2 ^ k ≡ 1 = rw none_left at one in
    let sum : 2 ^ k + (0 * 2 ^ k + c % 2 ^ k) - 1 ≡ c - 1 =
      omega (arith, div-add-mod' c (2 ^ k), ap (λ (t : ℕ). t * 2 ^ k) top) in
    rw (none_left, read_from-bits_msb k 0 c rest, sum) refl
read_ue_fuel-zeros (suc f) k (suc gap) c rest h one =
    let moved : k + suc gap ≡ k + 1 + gap = omega arith in
    rw moved (read_ue_fuel-zeros f (k + 1) gap c rest (omega arith) (rw moved at one))

-- A number below 2 ^ 32 - 1 is written as the code from which it is read back.
pub ue-Codes : (v : ℕ) → v + 1 < 2 ^ 32 → Codes read_ue (ue v) v
unfolding ue Writer.ue bits_msb
ue-Codes v h =
    let size = bit_width_fuel-Width 32 (v + 1) (omega arith) h in
    let k = size.below in
    let one : (v + 1) / 2 ^ k ≡ 1 =
      div-eq_of_lt-le {k = 1} (2 ^ k) (omega (arith, size.low))
        (omega (arith, size.high, pow-suc 2 k)) in
    let short : k < 33 = elim (dec_lt k 33) [
      | yes less ↦ less
      | no more ↦ absurd (omega (arith, size.low, h, pow_mono 33 k (omega arith)))
    ] in
    let same : 0 + k ≡ k = omega arith in
    record {
      bits = code_bits k (v + 1);
      appends = λ w valid. rw (mod-eq_of_lt h) (code_written w (v + 1) _ k valid size.width);
      reads = λ rest.
          let read = read_ue_fuel-zeros 33 0 k (v + 1) rest short (rw same one) in
          rw (append_assoc, one) (rw same at read ∙ ap (λ (t : ℕ). (t, rest)) (omega arith));
    }
