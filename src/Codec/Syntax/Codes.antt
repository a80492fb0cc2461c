-- ===== src/Codec/Syntax/Codes.antt =====
-- Readers of syntax elements on plain bits, and what it means that a step writes what a reader reads.
use qualcomm_iris_vaapi.Base.{
  ℕ, zero, suc, ◌+◌, ◌*◌, ◌/◌, ◌%◌, ◌^◌, ◌≡◌, refl, ap, ◌∙◌, sym, List, [], ◌∷◌, ◌++◌, append_assoc,
  bits_msb, arith,
}
use native.Mathlib.Nat.{pow-suc, div-add-mod', div-div-eq-div-mul}
use qualcomm_iris_vaapi.Codec.Writer.{BitWriter}
use qualcomm_iris_vaapi.Codec.Writer.Contents.{
  IsValid, Appends, Appends-nil, Appends-append, bit-Appends, bits-Appends,
}
use qualcomm_iris_vaapi.Codec.Syntax.{Write, ◌>>◌, bit, bits, skip}

abbrev pub Reads : Type 0 → Type 0
Reads A = List ℕ → A × List ℕ

-- The next bit, zero at the end.
abbrev pub read_bit : Reads ℕ
read_bit [] = (0, [])
read_bit (b ∷ bs) = (b, bs)

unfoldable pub read_from : ℕ → ℕ → Reads ℕ
read_from zero acc bs = (acc, bs)
read_from (suc n) acc bs = let (b, rest) = read_bit bs in read_from n (acc * 2 + b) rest

-- An unsigned number of `n` bits, most significant first.
abbrev pub read_bits : ℕ → Reads ℕ
read_bits n = read_from n 0

-- Wherever it is run, `f` appends the same bits, and `read` takes them as `a` and leaves what follows.
pub record Codes {A : Type 0} (read : Reads A) (f : Write) (a : A) : Type 0 where
  pub bits : List ℕ
  pub appends : (w : BitWriter) → IsValid w → Appends w (f w) bits
  pub reads : (rest : List ℕ) → read (bits ++ rest) ≡ (a, rest)

abbrev pub read_pure : {A : Type 0} → A → Reads A
read_pure a bs = (a, bs)

unfoldable pub read_then : {A B : Type 0} → Reads A → (A → Reads B) → Reads B
read_then m k bs = k (m bs).0 (m bs).1

-- The bits below `suc n`, and the highest of them.
top_bit : (n v : ℕ) → v % 2 ^ suc n ≡ v / 2 ^ n % 2 * 2 ^ n + v % 2 ^ n
top_bit n v =
    let q = v / 2 ^ n in
    let halved : v / 2 ^ suc n ≡ q / 2 = div-div_pow n v in
    omega (
      arith,
      div-add-mod' v (2 ^ n),
      div-add-mod' v (2 ^ suc n),
      ap (λ (t : ℕ). t * 2 ^ suc n) halved,
      ap (λ (t : ℕ). q / 2 * t) (pow-suc 2 n),
      ap (λ (t : ℕ). t * 2 ^ n) (div-add-mod' q 2),
    )
  where
    div-div_pow : (n v : ℕ) → v / 2 ^ suc n ≡ v / 2 ^ n / 2
    div-div_pow n v = rw (pow-suc 2 n) (sym (div-div-eq-div-mul v (2 ^ n) 2))

pub read_from-bits_msb :
    (n acc v : ℕ) (rest : List ℕ)
    → read_from n acc (bits_msb n v ++ rest) ≡ (acc * 2 ^ n + v % 2 ^ n, rest)
unfolding read_from bits_msb
read_from-bits_msb zero acc v rest = let p : acc * 1 + v % 1 ≡ acc = omega arith in rw p refl
read_from-bits_msb (suc n) acc v rest =
    let sum : (acc * 2 + v / 2 ^ n % 2) * 2 ^ n + v % 2 ^ n ≡ acc * 2 ^ suc n + v % 2 ^ suc n =
      omega (arith, top_bit n v, ap (λ (t : ℕ). acc * t) (pow-suc 2 n)) in
    read_from-bits_msb n (acc * 2 + v / 2 ^ n % 2) v rest ∙ ap (λ (t : ℕ). (t, rest)) sum

pub skip-Codes : {A : Type 0} (a : A) → Codes (read_pure a) skip a
unfolding skip
skip-Codes a = record { bits = []; appends = λ w h. Appends-nil h; reads = λ rest. refl }

pub bits-Codes : (v n : ℕ) → Codes (read_bits n) (bits v n) (v % 2 ^ n)
unfolding bits
bits-Codes v n = record {
  bits = bits_msb n v;
  appends = λ w h. bits-Appends n w v h;
  reads = λ rest. read_from-bits_msb n 0 v rest ∙ ap (λ (t : ℕ). (t, rest)) (omega arith);
}

pub bit-Codes : (v : ℕ) → Codes read_bit (bit v) (v % 2)
unfolding bit
bit-Codes v = record { bits = v % 2 ∷ []; appends = λ w h. bit-Appends w v h; reads = λ rest. refl }

pub then-Codes :
    {A B : Type 0} {m : Reads A} (k : A → Reads B) {f g : Write} {a : A} {b : B}
    → Codes m f a
    → Codes (k a) g b
    → Codes (read_then m k) (f >> g) b
unfolding ◌>>◌ read_then
then-Codes k p q = record {
  bits = p.bits ++ q.bits;
  appends = λ w h. let one = p.appends w h in Appends-append one (q.appends _ one.valid);
  reads = λ rest. rw (append_assoc, p.reads) (q.reads rest);
}

-- A function of what is read.
pub mapped-Codes :
    {A B : Type 0} {m : Reads A} {w : Write} {a : A} (f : A → B) (b : B)
    → Codes m w a
    → f a ≡ b
    → Codes (read_then m (λ x. read_pure (f x))) w b
unfolding read_then
mapped-Codes f b c e = record {
  bits = c.bits;
  appends = c.appends;
  reads = λ rest. rw (c.reads rest, e) refl;
}
