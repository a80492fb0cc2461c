-- ===== src/Codec/Reader/Stream.antt =====
-- The bits that a BitReader has not reached, and what each read takes from them.
use qualcomm_iris_vaapi.Base.{
  ℕ, zero, suc, ◌+◌, ◌-◌, ◌*◌, ◌/◌, ◌%◌, ◌^◌, ◌≤◌, ◌<◌, bit_or, ◌≡◌, refl, sym, ap, ◌∙◌, List, [],
  ◌∷◌, ◌++◌, arith, leb, if◌then◌else◌, length, get_or, drop, replicate, drop-nil, bit_or_shift,
  bits_msb, pow_mono,
}
use native.Mathlib.Nat.{div-div-eq-div-mul, mod-eq_of_lt, pow-suc, one-le-pow, div-add-mod', mod-lt}
use qualcomm_iris_vaapi.Codec.Reader.{BitReader, size_bits, bit, bits_loop, bits, zeros_loop}

-- The bits of bytes in order.
abbrev pub stream : List ℕ → List ℕ
stream [] = []
stream (b ∷ bs) = bits_msb 8 b ++ stream bs

abbrev pub remaining : BitReader → List ℕ
remaining r = drop r.position (stream r.held)

-- A read at any position: inside the stream it is the bit of the byte, and past the end 0.
bit_value : List ℕ → ℕ → ℕ
bit_value held p =
    if leb (length held * 8) p then 0 else get_or held (p / 8) 0 / 2 ^ (7 - p % 8) % 2

bit_value_later : (b : ℕ) (held : List ℕ) (p : ℕ) → bit_value (b ∷ held) (p + 8) ≡ bit_value held p
unfolding bit_value
bit_value_later b held p =
    let q : (p + 8) / 8 ≡ suc (p / 8) = omega arith in
    let m : (p + 8) % 8 ≡ p % 8 = omega arith in rw (q, m) (ground arith)

record Read (held : List ℕ) (p x : ℕ) (rest : List ℕ) : Type 0 where
  pub value : bit_value held p ≡ x
  pub after : drop (p + 1) (stream held) ≡ rest

Read-cons :
    (b : ℕ) (held : List ℕ) (p x : ℕ) (rest : List ℕ)
    → Read held p x rest
    → Read (b ∷ held) (p + 8) x rest
unfolding bits_msb
Read-cons b held p x rest r = record {
  value = bit_value_later b held p ∙ r.value;
  after = rw eight r.after;
}
  where
    eight : p + 8 + 1 ≡ suc (suc (suc (suc (suc (suc (suc (suc (p + 1))))))))
    eight = omega arith

Read-at :
    (held : List ℕ) (p x : ℕ) (rest : List ℕ) → drop p (stream held) ≡ x ∷ rest → Read held p x rest
unfolding bits_msb bit_value
Read-at [] p x rest e = cc (drop-nil p, e)
Read-at (b ∷ held) zero x rest e = record { value = ground arith; after = cc }
Read-at (b ∷ held) (suc (suc (suc (suc (suc (suc (suc (suc p)))))))) x rest e =
    let eight : p + 8 ≡ suc (suc (suc (suc (suc (suc (suc (suc p))))))) = omega arith in
    rw eight at (Read-cons b held p x rest (Read-at held p x rest e))
Read-at (b ∷ held) p x rest e = record { value = ground arith; after = cc }

pub bit_reads :
    (r : BitReader) (x : ℕ) (rest : List ℕ)
    → remaining r ≡ x ∷ rest
    → ((bit r).0 ≡ x) × (remaining (bit r).1 ≡ rest)
unfolding bit bit_value size_bits
bit_reads r x rest e = let at_p = Read-at r.held r.position x rest e in (at_p.value, at_p.after)

-- `(value << 1) | bit()` while the value fits 32 bits.
pub push_bit :
    (value b : ℕ) → b < 2 → value * 2 < 2 ^ 32 → bit_or (value * 2 % 2 ^ 32) b ≡ value * 2 + b
push_bit value b hb h = rw (mod-eq_of_lt h) (bit_or_shift value b hb)

mod_split : (n v : ℕ) → v / 2 ^ n % 2 * 2 ^ n + v % 2 ^ n ≡ v % 2 ^ suc n
mod_split n v =
    let whole : v / 2 ^ suc n ≡ v / 2 ^ n / 2 =
      rw (pow-suc 2 n) (sym (div-div-eq-div-mul v (2 ^ n) 2)) in
    let halves : v / 2 ^ n ≡ v / 2 ^ n / 2 * 2 + v / 2 ^ n % 2 = omega arith in
    omega (
      arith,
      div-add-mod' v (2 ^ n),
      div-add-mod' v (2 ^ suc n),
      ap (λ (t : ℕ). t * 2 ^ suc n) whole,
      ap (λ (t : ℕ). v / 2 ^ n / 2 * t) (pow-suc 2 n),
      ap (λ (t : ℕ). t * 2 ^ n) halves,
    )

le-mul_pow : (a n : ℕ) → a ≤ a * 2 ^ n
le-mul_pow a n = grind (arith, one-le-pow n 2)

bits_loop_step :
    (n : ℕ) (r : BitReader) (value : ℕ)
    → bits_loop (suc n) r value ≡ bits_loop n (bit r).1 (bit_or (value * 2 % 2 ^ 32) (bit r).0)
unfolding bits_loop
bits_loop_step n r value = refl

bits_loop_reads :
    (n : ℕ) (r : BitReader) (value v : ℕ) (rest : List ℕ)
    → remaining r ≡ bits_msb n v ++ rest
    → value * 2 ^ n + v % 2 ^ n < 2 ^ 32
    → ((bits_loop n r value).0 ≡ value * 2 ^ n + v % 2 ^ n)
      × (remaining (bits_loop n r value).1 ≡ rest)
unfolding bits_loop bits_msb
bits_loop_reads zero r value v rest e h = (omega arith, e)
bits_loop_reads (suc n) r value v rest e h =
    let (b, more) = bit_reads r (v / 2 ^ n % 2) (bits_msb n v ++ rest) e in
    let sum : value * 2 ^ suc n + v % 2 ^ suc n ≡ (value * 2 + v / 2 ^ n % 2) * 2 ^ n + v % 2 ^ n =
      omega (arith, mod_split n v, ap (λ (t : ℕ). value * t) (pow-suc 2 n)) in
    let small : value * 2 < 2 ^ 32 =
      omega (arith, le-mul_pow (value * 2) n, h, ap (λ (t : ℕ). value * t) (pow-suc 2 n)) in
    rw (bits_loop_step n r value, b, push_bit value (v / 2 ^ n % 2) (omega arith) small, sum)
      (bits_loop_reads n (bit r).1 (value * 2 + v / 2 ^ n % 2) v rest more (rw sum at h))

-- `bits` reads back the low bits, 32 at most.
pub bits_reads :
    (n : ℕ) (r : BitReader) (v : ℕ) (rest : List ℕ)
    → remaining r ≡ bits_msb n v ++ rest
    → n ≤ 32
    → ((bits r n).0 ≡ v % 2 ^ n) × (remaining (bits r n).1 ≡ rest)
unfolding bits
bits_reads n r v rest e hn =
    let small : v % 2 ^ n < 2 ^ n = mod-lt v (one-le-pow n 2 (omega arith)) in
    let fits : 0 * 2 ^ n + v % 2 ^ n < 2 ^ 32 = omega (arith, small, pow_mono n 32 hn) in
    let (value, after) = bits_loop_reads n r 0 v rest e fits in (value ∙ omega arith, after)

pub zeros_loop_reads :
    (k f n : ℕ) (r : BitReader) (rest : List ℕ)
    → k < f
    → n + k ≤ 32
    → remaining r ≡ replicate k 0 ++ (1 ∷ rest)
    → ((zeros_loop f r n).0 ≡ n + k) × (remaining (zeros_loop f r n).1 ≡ rest)
unfolding zeros_loop
zeros_loop_reads k zero n r rest h hz e = absurd (omega arith)
zeros_loop_reads zero (suc f) n r rest h hz e =
    let (b, more) = bit_reads r 1 rest e in rw b (omega arith, more)
zeros_loop_reads (suc k) (suc f) n r rest h hz e =
    let (b, more) = bit_reads r 0 (replicate k 0 ++ (1 ∷ rest)) e in
    ground (arith, b, zeros_loop_reads k f (n + 1) (bit r).1 rest (omega arith) (omega arith) more)
