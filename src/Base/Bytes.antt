-- ===== src/Base/Bytes.antt =====
-- Bytes as numbers, the bits of a number, and facts about the bit operations that tables decide.
use Prim.Native.Nat.{
  ℕ, zero, suc, ◌+◌, ◌*◌, ◌/◌, ◌%◌, ◌^◌, ◌≤◌, ◌<◌, max, bit_or, digits, bit_or-bitwise,
}
use mathlib.Core.Path.{◌≡◌, refl, ap, sym}
use mathlib.Core.List.{List, [], ◌∷◌, ◌++◌}
use native.Mathlib.Omega.{arith}
use native.Mathlib.Nat.{
  pow-suc, div-div-eq-div-mul, pow-succ', pow-le-pow_right, one-le-pow, mul-div_cancel,
  mul-mod_left, div-add-mod',
}

abbrev pub IsByte : ℕ → Type 0
IsByte b = b < 256

abbrev pub IsBit : ℕ → Type 0
IsBit b = b < 2

pub pow_mono : (i j : ℕ) → i ≤ j → 2 ^ i ≤ 2 ^ j
pow_mono i j h = pow-le-pow_right {n = 2} (omega arith) {i = i} {j = j} h

-- The law of `bit_or` for the lowest digit, from the recursion that the operation stands for.
abbrev or_digits : ℕ → ℕ → ℕ → ℕ
or_digits n a b = digits (λ b. b) max n a b

or_digits_fuel : (n m a b : ℕ) → a ≤ n → a ≤ m → or_digits n a b ≡ or_digits m a b
or_digits_fuel zero zero a b p q = refl
or_digits_fuel zero (suc m) zero b p q = refl
or_digits_fuel zero (suc m) (suc a) b p q = absurd (omega arith)
or_digits_fuel (suc n) zero zero b p q = refl
or_digits_fuel (suc n) zero (suc a) b p q = absurd (omega arith)
or_digits_fuel (suc n) (suc m) zero b p q = refl
or_digits_fuel (suc n) (suc m) (suc a) b p q =
    omega (arith, or_digits_fuel n m (suc a / 2) (b / 2) (omega arith) (omega arith))

zero-bit_or : (b : ℕ) → bit_or 0 b ≡ b
zero-bit_or b = bit_or-bitwise 0 b

pub bit_or_step : (a b : ℕ) → bit_or a b ≡ bit_or (a / 2) (b / 2) * 2 + max (a % 2) (b % 2)
bit_or_step zero b = omega (arith, zero-bit_or b, zero-bit_or (b / 2))
bit_or_step (suc a) b = omega (
  arith,
  bit_or-bitwise (suc a) b,
  bit_or-bitwise (suc a / 2) (b / 2),
  or_digits_fuel a (suc a / 2) (suc a / 2) (b / 2) (omega arith) (omega arith),
)

bit_or-zero_fuel : (n a : ℕ) → a ≤ n → bit_or a 0 ≡ a
bit_or-zero_fuel n zero h = refl
bit_or-zero_fuel zero (suc a) h = absurd (omega arith)
bit_or-zero_fuel (suc n) (suc a) h =
    omega (arith, bit_or_step (suc a) 0, bit_or-zero_fuel n (suc a / 2) (omega arith))

pub bit_or-zero : (a : ℕ) → bit_or a 0 ≡ a
bit_or-zero a = bit_or-zero_fuel a a (omega arith)

-- A shifted value takes a bit: `(a << 1) | b`.
pub bit_or_shift : (a b : ℕ) → b < 2 → bit_or (a * 2) b ≡ a * 2 + b
bit_or_shift a b h = omega (arith, bit_or_step (a * 2) b, bit_or-zero a, rest)
  where
    rest : bit_or (a * 2 / 2) (b / 2) ≡ a
    rest =
        let p : a * 2 / 2 ≡ a = omega arith in
        let q : b / 2 ≡ 0 = omega arith in simp (p, q) (bit_or-zero a)

-- Adding a shift: the bits that `b` has below `2 ^ k` stay clear of `a * 2 ^ k`.
pub bit_or_disjoint : (k a b : ℕ) → b < 2 ^ k → bit_or (a * 2 ^ k) b ≡ a * 2 ^ k + b
bit_or_disjoint zero a b h =
    let q : b ≡ 0 = omega arith in
    let p : a * 1 ≡ a = omega arith in rw (q, p) (omega (arith, bit_or-zero a))
bit_or_disjoint (suc k) a b h = omega (
  arith,
  bit_or_step (a * 2 ^ suc k) b,
  bit_or_disjoint k a (b / 2) (omega (arith, pow-suc 2 k)),
  shifted,
  half,
)
  where
    shifted : a * 2 ^ suc k ≡ a * 2 ^ k * 2
    shifted = omega (arith, ap (λ (t : ℕ). a * t) (pow-suc 2 k))

    half : bit_or (a * 2 ^ suc k / 2) (b / 2) ≡ bit_or (a * 2 ^ k) (b / 2)
    half = let p : a * 2 ^ suc k / 2 ≡ a * 2 ^ k = omega (arith, shifted) in rw p

-- The same where the clear bits of `b` are given by a remainder.
pub bit_or_clean : (k b y : ℕ) → b % 2 ^ k ≡ 0 → y < 2 ^ k → bit_or b y ≡ b + y
bit_or_clean k b y h hy =
    let e : b / 2 ^ k * 2 ^ k ≡ b = omega (arith, div-add-mod' b (2 ^ k)) in
    rw e at (bit_or_disjoint k (b / 2 ^ k) y hy)

-- A bit set just below the clear part of a byte: the sum, its used part, and what stays clear.
pub put_bit :
    (s b v : ℕ)
    → b % 2 ^ suc s ≡ 0
    → (bit_or b (v % 2 * 2 ^ s) ≡ b + v % 2 * 2 ^ s)
      × ((b + v % 2 * 2 ^ s) / 2 ^ s ≡ b / 2 ^ suc s * 2 + v % 2)
      × ((b + v % 2 * 2 ^ s) % 2 ^ s ≡ 0)
put_bit s b v h = (
  bit_or_clean (suc s) b (v % 2 * 2 ^ s) h (grind (arith, pow-suc 2 s, one-le-pow s 2)),
  rw whole (mul-div_cancel (b / 2 ^ suc s * 2 + v % 2) pos),
  rw whole (mul-mod_left (b / 2 ^ suc s * 2 + v % 2) (2 ^ s)),
)
  where
    pos : 0 < 2 ^ s
    pos = one-le-pow s 2 (omega arith)

    whole : b + v % 2 * 2 ^ s ≡ (b / 2 ^ suc s * 2 + v % 2) * 2 ^ s
    whole =
        omega (arith, div-add-mod' b (2 ^ suc s), ap (λ (t : ℕ). b / 2 ^ suc s * t) (pow-suc 2 s))

-- The byte stays a byte.
pub put_bit_room : (s b v : ℕ) → s ≤ 6 → b % 2 ^ suc s ≡ 0 → IsByte b → b + v % 2 * 2 ^ s < 256
put_bit_room zero b v l h k = omega arith
put_bit_room (suc zero) b v l h k = omega arith
put_bit_room (suc (suc zero)) b v l h k = omega arith
put_bit_room (suc (suc (suc zero))) b v l h k = omega arith
put_bit_room (suc (suc (suc (suc zero)))) b v l h k = omega arith
put_bit_room (suc (suc (suc (suc (suc zero))))) b v l h k = omega arith
put_bit_room (suc (suc (suc (suc (suc (suc zero)))))) b v l h k = omega arith
put_bit_room (suc (suc (suc (suc (suc (suc (suc s))))))) b v l h k = absurd (omega arith)

-- The bits of `v` below 2 ^ n, most significant first.
unfoldable pub bits_msb : ℕ → ℕ → List ℕ
bits_msb zero v = []
bits_msb (suc n) v = (v / 2 ^ n % 2) ∷ bits_msb n v

pub div_half : (n m : ℕ) → m / 2 ^ suc n ≡ m / 2 / 2 ^ n
div_half n m = rw (pow-succ' 2 n) (sym (div-div-eq-div-mul m 2 (2 ^ n)))

-- The last bit apart.
pub bits_msb-snoc : (n m : ℕ) → bits_msb (suc n) m ≡ bits_msb n (m / 2) ++ (m % 2 ∷ [])
unfolding bits_msb
bits_msb-snoc zero m = let p : m / 1 ≡ m = omega arith in rw p
bits_msb-snoc (suc n) m = rw (bits_msb-snoc n m, div_half n m)
