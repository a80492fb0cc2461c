-- ===== src/Codec/ExpGolomb.antt =====
-- Exp-Golomb codes between BitWriter and BitReader of src/codec/bitwriter.h.
use qualcomm_iris_vaapi.Base.{
  ℕ, zero, suc, ◌+◌, ◌-◌, ◌*◌, ◌/◌, ◌%◌, ◌^◌, ◌≤◌, ◌<◌, ◌≡◌, refl, ap, ◌∙◌, inl, inr, false, List,
  [], ◌∷◌, ◌++◌, append_assoc, arith, ◌==◌, if◌then◌else◌, ==_iff, Bool-cases, length, drop,
  replicate, bits_msb, pow_mono,
}
use native.Mathlib.Decide.{dec_lt}
use native.Mathlib.Nat.{div-eq_of_lt-le, div-add-mod', mod-lt, mod-eq_of_lt, pow-suc, one-le-pow}
use qualcomm_iris_vaapi.Base.Int.{ℤ, pos, negsuc}
use qualcomm_iris_vaapi.Codec.Writer.{BitWriter, bit_width_fuel, zeros}
use qualcomm_iris_vaapi.Codec.Writer
use qualcomm_iris_vaapi.Codec.Writer.Contents.{
  IsValid, contents, Appends, Appends-append, bits-Appends, zeros-Appends,
}
use qualcomm_iris_vaapi.Codec.Reader.{BitReader, zeros_loop, negate}
use qualcomm_iris_vaapi.Codec.Reader
use qualcomm_iris_vaapi.Codec.Reader.Stream.{stream, remaining, bits_reads, zeros_loop_reads}

-- The width of a positive number is the number of its bits.
pub record Width (n w : ℕ) : Type 0 where
  pub below : ℕ
  pub width : w ≡ suc below
  pub low : 2 ^ below ≤ n
  pub high : n < 2 ^ suc below

bit_width_fuel-zero : (f : ℕ) → bit_width_fuel f 0 ≡ 0
unfolding bit_width_fuel
bit_width_fuel-zero zero = refl
bit_width_fuel-zero (suc f) = refl

pub bit_width_fuel-Width : (f n : ℕ) → 0 < n → n < 2 ^ f → Width n (bit_width_fuel f n)
unfolding bit_width_fuel
bit_width_fuel-Width zero n least h = absurd (omega arith)
bit_width_fuel-Width (suc f) n least h = elim (Bool-cases (n / 2 == 0)) [
  | inl done ↦ record {
    below = 0;
    width =
        let half : n / 2 ≡ 0 = (==_iff _ _).0 done in
        let none_left : (n == 0) ≡ false = ground arith in
        rw (none_left, half, bit_width_fuel-zero f);
    low = least;
    high = ground arith;
  }
  | inr more ↦
      let rest = bit_width_fuel-Width f (n / 2) (ground arith) (omega (arith, pow-suc 2 f)) in
      record {
        below = suc rest.below;
        width = ground (arith, rest.width);
        low = omega (arith, rest.low, pow-suc 2 rest.below);
        high = omega (arith, rest.high, pow-suc 2 (suc rest.below));
      }
]

-- The code of `c - 1`: as many zeros as bits follow the first 1, and the number.
abbrev pub code_bits : ℕ → ℕ → List ℕ
code_bits k c = replicate k 0 ++ bits_msb (suc k) c

-- What `ue` writes: the code of some length for `v`.
pub record Coded (w w' : BitWriter) (v : ℕ) : Type 0 where
  pub below : ℕ
  pub appends : Appends w w' (code_bits below (v + 1))
  pub low : 2 ^ below ≤ v + 1
  pub high : v + 1 < 2 ^ suc below

pub code_written :
    (w : BitWriter) (c width k : ℕ)
    → IsValid w
    → width ≡ suc k
    → Appends w (Writer.bits (zeros w (width - 1)) c width) (code_bits k c)
code_written w c width k h e =
    let same : suc k - 1 ≡ k = omega arith in
    let front = zeros-Appends k w h in
    rw (e, same) (Appends-append front (bits-Appends (suc k) (zeros w k) c front.valid))

pub ue-Coded : (w : BitWriter) (v : ℕ) → IsValid w → v + 1 < 2 ^ 32 → Coded w (Writer.ue w v) v
unfolding Writer.ue
ue-Coded w v h hv =
    let size = bit_width_fuel-Width 32 (v + 1) (omega arith) hv in
    record {
      below = size.below;
      appends = rw (mod-eq_of_lt hv) (code_written w (v + 1) _ size.below h size.width);
      low = size.low;
      high = size.high;
    }

ue_at :
    (r : BitReader) (k c : ℕ) (rest : List ℕ)
    → remaining r ≡ replicate k 0 ++ (1 ∷ (bits_msb k c ++ rest))
    → k < 32
    → c ≡ 2 ^ k + c % 2 ^ k
    → ((Reader.ue r).0 ≡ c - 1) × (remaining (Reader.ue r).1 ≡ rest)
unfolding Reader.ue
ue_at r k c rest e hk split =
    let (zeros, after) =
      zeros_loop_reads k 33 0 r (bits_msb k c ++ rest) (omega arith) (omega arith) e in
    let count : (zeros_loop 33 r 0).0 ≡ k = zeros ∙ omega arith in
    let (value, end) = bits_reads k (zeros_loop 33 r 0).1 c rest after (omega arith) in
    let fits : 2 ^ k ≤ 2 ^ 31 = pow_mono k 31 (omega arith) in
    let low : c % 2 ^ k < 2 ^ k = mod-lt c (one-le-pow k 2 (omega arith)) in
    rw (count, value) (omega (arith, fits, low, split, one-le-pow k 2), end)

-- A reader at a code of at most 32 bits.
pub ue_reads :
    (r : BitReader) (k c : ℕ) (rest : List ℕ)
    → remaining r ≡ code_bits k c ++ rest
    → k < 32
    → 2 ^ k ≤ c
    → c < 2 ^ suc k
    → ((Reader.ue r).0 ≡ c - 1) × (remaining (Reader.ue r).1 ≡ rest)
unfolding Reader.ue bits_msb
ue_reads r k c rest e hk low high =
    let one : c / 2 ^ k ≡ 1 =
      div-eq_of_lt-le {k = 1} (2 ^ k) (omega arith) (omega (arith, pow-suc 2 k)) in
    let split : c ≡ 2 ^ k + c % 2 ^ k =
      omega (arith, div-add-mod' c (2 ^ k), ap (λ (t : ℕ). t * 2 ^ k) one) in
    ue_at r k c rest (e ∙ rw (append_assoc, one)) hk split

drop-append : (xs ys : List ℕ) → drop (length xs) (xs ++ ys) ≡ ys
drop-append [] ys = refl
drop-append (x ∷ xs) ys = drop-append xs ys

pub drop_past :
    (w : BitWriter) (r : BitReader) (bs rest : List ℕ)
    → r.position ≡ length (contents w)
    → stream r.held ≡ (contents w ++ bs) ++ rest
    → remaining r ≡ bs ++ rest
drop_past w r bs rest at_w e = rw (e, at_w, append_assoc) (drop-append (contents w) (bs ++ rest))

below_32 : (k v : ℕ) → 2 ^ k ≤ v + 1 → v + 1 < 2 ^ 32 → k < 32
below_32 k v low hv = elim (dec_lt k 32) [
  | yes h ↦ h
  | no h ↦ absurd (omega (arith, low, hv, pow_mono 32 k (omega arith)))
]

-- A number below 2 ^ 32 - 1 that `ue` wrote is read back by `ue` at the place where it was written,
-- and the reader stands behind it.
pub ue-ue :
    (w : BitWriter) (v : ℕ) (r : BitReader) (rest : List ℕ)
    → IsValid w
    → v + 1 < 2 ^ 32
    → r.position ≡ length (contents w)
    → stream r.held ≡ contents (Writer.ue w v) ++ rest
    → ((Reader.ue r).0 ≡ v) × (remaining (Reader.ue r).1 ≡ rest)
ue-ue w v r rest h hv at_w e =
    let code = ue-Coded w v h hv in
    let k = code.below in
    let here : remaining r ≡ code_bits k (v + 1) ++ rest =
      drop_past w r _ rest at_w (e ∙ ap (λ t. t ++ rest) code.appends.grown) in
    let (value, after) =
      ue_reads r k (v + 1) rest here (below_32 k v code.low hv) code.low code.high in
    (value ∙ omega arith, after)

-- The integers for which `value * 2` does not overflow an int32_t.
abbrev pub IsSmall : ℤ → Type 0
IsSmall (pos n) = n < 2 ^ 30
IsSmall (negsuc n) = n < 2 ^ 30

-- The number under which `se` codes an integer.
abbrev code_num : ℤ → ℕ
code_num (pos zero) = 0
code_num (pos (suc n)) = suc n * 2 - 1
code_num (negsuc n) = suc n * 2

se-ue : (w : BitWriter) (z : ℤ) → Writer.se w z ≡ Writer.ue w (code_num z)
unfolding Writer.se
se-ue w (pos zero) = refl
se-ue w (pos (suc n)) = refl
se-ue w (negsuc n) = refl

-- The sign rule of the reader undoes the one of the writer.
abbrev signed_of : ℕ → ℤ
signed_of code = if code % 2 == 1 then pos ((code + 1) % 2 ^ 32 / 2) else negate (code / 2)

signed_of-code_num : (z : ℤ) → IsSmall z → (signed_of (code_num z) ≡ z) × (code_num z + 1 < 2 ^ 32)
signed_of-code_num (pos zero) h = (refl, omega arith)
signed_of-code_num (pos (suc n)) h =
    let odd : (suc n * 2 - 1) % 2 ≡ 1 = omega arith in
    let value : (suc n * 2 - 1 + 1) % 2 ^ 32 / 2 ≡ suc n = omega arith in
    (rw (odd, value), omega arith)
signed_of-code_num (negsuc n) h =
    let even : suc n * 2 % 2 ≡ 0 = omega arith in
    let value : suc n * 2 / 2 ≡ suc n = omega arith in (rw (even, value), omega arith)

-- An integer of at most 30 bits and a sign that `se` wrote is read back by `se` at the place where it
-- was written, and the reader stands behind it.
pub se-se :
    (w : BitWriter) (z : ℤ) (r : BitReader) (rest : List ℕ)
    → IsValid w
    → IsSmall z
    → r.position ≡ length (contents w)
    → stream r.held ≡ contents (Writer.se w z) ++ rest
    → ((Reader.se r).0 ≡ z) × (remaining (Reader.se r).1 ≡ rest)
unfolding Reader.se
se-se w z r rest h hz at_w e =
    let (sign, fits) = signed_of-code_num z hz in
    let (code, after) =
      ue-ue w (code_num z) r rest h fits at_w (e ∙ ap (λ t. contents t ++ rest) (se-ue w z)) in
    (ap signed_of code ∙ sign, after)
