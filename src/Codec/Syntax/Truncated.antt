-- ===== src/Codec/Syntax/Truncated.antt =====
-- `ns` of src/codec/bitwriter.h against a reader of the non-symmetric code.
use qualcomm_iris_vaapi.Base.{
  ℕ, zero, suc, ◌+◌, ◌-◌, ◌*◌, ◌/◌, ◌%◌, ◌^◌, ◌≤◌, ◌<◌, ◌≡◌, refl, ap, subst, Bool, inl, inr, true,
  false, List, [], ◌++◌, append_assoc, arith, ltb, leb, if◌then◌else◌, Bool-cases, bits_msb,
  bits_msb-snoc,
}
use native.Mathlib.Nat.{one-le-pow, pow-suc, mod-eq_of_lt}
use qualcomm_iris_vaapi.Codec.Writer.{bit_width}
use qualcomm_iris_vaapi.Codec.Writer
use qualcomm_iris_vaapi.Codec.Writer.Contents.{Appends-nil, bits-Appends}
use qualcomm_iris_vaapi.Codec.ExpGolomb.{bit_width_fuel-Width}
use qualcomm_iris_vaapi.Codec.Syntax.{ns}
use qualcomm_iris_vaapi.Codec.Syntax.Codes.{
  Codes, Reads, read_bit, read_bits, read_from-bits_msb, read_then, read_pure,
}

-- The last bit, unless the value is one of the short ones.
abbrev pub read_last : ℕ → ℕ → Reads ℕ
read_last m v =
    if ltb v m then read_pure v else read_then read_bit (λ extra. read_pure (v * 2 + extra - m))

-- A number below `n`, in one bit less than `n` has where that is enough.
abbrev pub read_ns : ℕ → Reads ℕ
read_ns n = let w = bit_width n in read_then (read_bits (w - 1)) (read_last (2 ^ w - n))

-- The two lengths, for a number of `suc k` bits.
short :
    (n k v : ℕ) (rest : List ℕ)
    → 2 ^ k ≤ n
    → n < 2 ^ suc k
    → v < 2 ^ suc k - n
    → read_then (read_bits k) (read_last (2 ^ suc k - n)) (bits_msb k v ++ rest) ≡ (v, rest)
unfolding read_then
short n k v rest low high hv =
    let fits : v < 2 ^ k = omega (arith, pow-suc 2 k) in
    let value : 0 * 2 ^ k + v % 2 ^ k ≡ v = omega (arith, mod-eq_of_lt fits) in
    let less : ltb v (2 ^ suc k - n) ≡ true = ground arith in
    rw (read_from-bits_msb k 0 v rest, value, less) refl

long :
    (n k v : ℕ) (rest : List ℕ)
    → 2 ^ k ≤ n
    → n < 2 ^ suc k
    → v < n
    → 2 ^ suc k - n ≤ v
    → read_then
        (read_bits k)
        (read_last (2 ^ suc k - n))
        (bits_msb (suc k) (v + (2 ^ suc k - n)) ++ rest)
      ≡ (v, rest)
unfolding read_then
long n k v rest low high hv hm =
    let m = 2 ^ suc k - n in
    let half = (v + m) / 2 in
    let fits : half < 2 ^ k = omega (arith, pow-suc 2 k) in
    let value : 0 * 2 ^ k + half % 2 ^ k ≡ half = omega (arith, mod-eq_of_lt fits) in
    let more : ltb half m ≡ false = ground arith in
    let sum : half * 2 + (v + m) % 2 - m ≡ v = omega arith in
    rw (bits_msb-snoc k (v + m), append_assoc, read_from-bits_msb k 0 half, value, more, sum) refl

-- What is written by a test is what one of its branches writes.
pub if_both :
    {A : Type 0} (c : Bool) (P : A → Type 0) (x y : A)
    → (c ≡ true → P x)
    → (c ≡ false → P y)
    → P (if c then x else y)
if_both true P x y f g = f refl
if_both false P x y f g = g refl

ns_of_width :
    (v n k : ℕ)
    → v < n
    → 2 ^ k ≤ n
    → n < 2 ^ suc k
    → bit_width n ≡ suc k
    → Codes (read_ns n) (ns v n) v
unfolding read_then ns Writer.ns Writer.bits bits_msb
ns_of_width v n k hv low high e =
    let same : suc k - 1 ≡ k = omega arith in
    elim (Bool-cases (leb n 1)) [
      | inl small ↦
          let one : n ≡ 1 = ground (arith, small) in
          let k0 : k ≡ 0 = zero_exponent k (omega arith) in
          record {
            bits = [];
            appends = λ w h. rw small (Appends-nil h);
            reads = λ rest.
                rw (e, same)
                  (subst
                    (λ j.
                      read_then (read_bits k) (read_last (2 ^ suc k - n)) (bits_msb j v ++ rest)
                      ≡ (v, rest))
                    k0
                    (short n k v rest low high
                      (omega (arith, ap (λ (t : ℕ). 2 ^ t) k0, pow-suc 2 k))));
          }
      | inr large ↦ elim (Bool-cases (ltb v (2 ^ suc k - n))) [
        | inl less ↦ record {
          bits = bits_msb k v;
          appends = λ w h. rw (large, e, less, same) (bits-Appends k w v h);
          reads = λ rest. rw (e, same) (short n k v rest low high (ground (arith, less)));
        }
        | inr more ↦ record {
          bits = bits_msb (suc k) (v + (2 ^ suc k - n));
          appends = λ w h. rw (large, e, more) (bits-Appends (suc k) w (v + (2 ^ suc k - n)) h);
          reads = λ rest. rw (e, same) (long n k v rest low high hv (ground (arith, more)));
        }
      ]
    ]
  where
    zero_exponent : (k : ℕ) → 2 ^ k ≤ 1 → k ≡ 0
    zero_exponent zero h = refl
    zero_exponent (suc k) h = absurd (omega (arith, pow-suc 2 k, one-le-pow k 2))

-- A value below `n` is written as the code of `read_ns n`, for `n` below 2 ^ 32.
pub ns-Codes : (v n : ℕ) → v < n → n < 2 ^ 32 → Codes (read_ns n) (ns v n) v
ns-Codes v n hv hn =
    let size = bit_width_fuel-Width 32 n (omega arith) hn in
    ns_of_width v n size.below hv size.low size.high size.width
