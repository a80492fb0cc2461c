-- ===== src/Codec/Syntax/Signed.antt =====
-- `se` of src/codec/bitwriter.h, elements that depend on a flag, and elements that are read together.
use qualcomm_iris_vaapi.Base.{
  ℕ, zero, suc, ◌+◌, ◌-◌, ◌*◌, ◌/◌, ◌%◌, ◌<◌, ◌≡◌, refl, Bool, true, false, [], arith, ◌==◌,
  if◌then◌else◌,
}
use native.Mathlib.Nat.{mod-eq_of_lt}
use qualcomm_iris_vaapi.Base.Int.{ℤ, pos, negsuc}
use qualcomm_iris_vaapi.Codec.Writer
use qualcomm_iris_vaapi.Codec.Writer.{empty, trailing_bits}
use qualcomm_iris_vaapi.Codec.Writer.Contents.{Appends-nil}
use qualcomm_iris_vaapi.Codec.ExpGolomb.{IsSmall}
use qualcomm_iris_vaapi.Codec.Syntax.{Write, bit, ue, se, when}
use qualcomm_iris_vaapi.Codec.Syntax.Codes.{
  Codes, Reads, read_bit, read_then, read_pure, mapped-Codes, bit-Codes,
}
use qualcomm_iris_vaapi.Codec.Syntax.Unsigned.{read_ue, ue-Codes}

-- se(v)
abbrev pub negative : ℕ → ℤ
negative zero = pos 0
negative (suc n) = negsuc n

abbrev pub signed : ℕ → ℤ
signed c = if c % 2 == 1 then pos ((c + 1) / 2) else negative (c / 2)

abbrev pub read_se : Reads ℤ
read_se = read_then read_ue (λ c. read_pure (signed c))

pub se-Codes : (z : ℤ) → IsSmall z → Codes read_se (se z) z
unfolding se ue Writer.se
se-Codes (pos zero) h = mapped-Codes signed (pos 0) (ue-Codes 0 (omega arith)) refl
se-Codes (pos (suc n)) h =
    let odd : (suc n * 2 - 1) % 2 ≡ 1 = omega arith in
    let value : (suc n * 2 - 1 + 1) / 2 ≡ suc n = omega arith in
    mapped-Codes signed (pos (suc n)) (ue-Codes (suc n * 2 - 1) (omega arith))
      (rw (odd, value) refl)
se-Codes (negsuc n) h =
    let even : suc n * 2 % 2 ≡ 0 = omega arith in
    let value : suc n * 2 / 2 ≡ suc n = omega arith in
    mapped-Codes signed (negsuc n) (ue-Codes (suc n * 2) (omega arith)) (rw (even, value) refl)

pub flag-Codes : (v : ℕ) → v < 2 → Codes read_bit (bit v) v
flag-Codes v h = rw (mod-eq_of_lt h) at (bit-Codes v)

-- Elements that are there if `c` is.
abbrev pub read_if : {A : Type 0} → Bool → A → Reads A → Reads A
read_if c d m = if c then m else read_pure d

pub if-Codes :
    {A : Type 0} (c : Bool) (d : A) {m : Reads A} {f : Write} {a : A}
    → Codes m f a
    → Codes (read_if c d m) (when c f) (if c then a else d)
unfolding when
if-Codes true d h = h
if-Codes false d h = record { bits = []; appends = λ w v. Appends-nil v; reads = λ rest. refl }

-- Steps that are read together, and a result that is passed on.
pub grouped-Codes :
    {A B C : Type 0} (m : Reads A) (n : A → Reads B) (k : B → Reads C) {f : Write} {c : C}
    → Codes (read_then m (λ a. read_then (n a) k)) f c
    → Codes (read_then (read_then m n) k) f c
unfolding read_then
grouped-Codes m n k h = record { bits = h.bits; appends = h.appends; reads = h.reads }

pub passed-Codes :
    {A B : Type 0} (a : A) (k : A → Reads B) {f : Write} {b : B}
    → Codes (k a) f b
    → Codes (read_then (read_pure a) k) f b
unfolding read_then
passed-Codes a k h = record { bits = h.bits; appends = h.appends; reads = h.reads }
