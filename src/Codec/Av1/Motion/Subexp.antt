-- ===== src/Codec/Av1/Motion/Subexp.antt =====
-- The codes of the motion parameters in src/codec/av1_obu.cc against the decoding process of AV1.
use qualcomm_iris_vaapi.Base.{
  ℕ, zero, suc, ◌+◌, ◌-◌, ◌*◌, ◌/◌, ◌%◌, ◌^◌, ◌≤◌, ◌<◌, ◌≡◌, refl, ap, sym, subst, fun_ext, ◌∙◌,
  inl, inr, true, false, arith, ltb, leb, ◌==◌, if◌then◌else◌, Bool-cases, pow_mono,
}
use native.Mathlib.Nat.{pow-suc, mod-eq_of_lt}
use qualcomm_iris_vaapi.Base.Int.{ℤ, pos, negsuc}
use qualcomm_iris_vaapi.Codec.Writer.{to_u32}
use qualcomm_iris_vaapi.Codec.Syntax.{Write, either}
use qualcomm_iris_vaapi.Codec.Syntax.Codes.{
  Codes, Reads, read_bit, read_bits, read_then, read_pure, then-Codes, mapped-Codes, bit-Codes,
  bits-Codes,
}
use qualcomm_iris_vaapi.Codec.Syntax.Truncated.{read_ns, ns-Codes}
use qualcomm_iris_vaapi.Codec.Av1.Motion.{
  sub_u32, recenter_forward, group_bits, subexp_loop, write_subexp, write_unsigned_subexp_with_ref,
  add_int, sub_int, write_signed_subexp_with_ref,
}

-- inverse_recenter
abbrev pub inverse_recenter : ℕ → ℕ → ℕ
inverse_recenter r v =
    if ltb (2 * r) v then v else if v % 2 == 1 then r - (v + 1) / 2 else r + v / 2

-- Below 2 ^ 31 the decoder undoes `recenter_forward`.
pub inverse_recenter-recenter_forward :
    (r t : ℕ) → r < 2 ^ 31 → t < 2 ^ 31 → inverse_recenter r (recenter_forward r t) ≡ t
unfolding recenter_forward
inverse_recenter-recenter_forward r t hr ht = ground arith

-- A number that is `mk` more than what `m` reads.
abbrev pub read_above : ℕ → Reads ℕ → Reads ℕ
read_above mk m = read_then m (λ v. read_pure (v + mk))

-- The bits of the group `i` in decode_subexp, whose `k` is 3.
abbrev pub subexp_bits : ℕ → ℕ
subexp_bits i = if i == 0 then 3 else 3 + i - 1

subexp_bits-group_bits : (i : ℕ) → subexp_bits i ≡ group_bits i
subexp_bits-group_bits zero = refl
subexp_bits-group_bits (suc i) =
    let later : suc i == 0 ≡ false = ground arith in rw later (omega arith)

-- decode_subexp, from the group `i` on, whose smallest number is `mk`, where the groups have these widths.
abbrev pub read_subexp_fuel : (ℕ → ℕ) → ℕ → ℕ → ℕ → ℕ → Reads ℕ
read_subexp_fuel width zero num_syms i mk = read_pure 0
read_subexp_fuel width (suc f) num_syms i mk =
    let a = 2 ^ width i in
    let more = read_subexp_fuel width f num_syms (i + 1) (mk + a) in
    if leb num_syms (mk + 3 * a)
    then read_above mk (read_ns (num_syms - mk))
    else read_then read_bit (λ b. if b == 1 then more else read_above mk (read_bits (width i)))

abbrev pub read_subexp : ℕ → Reads ℕ
read_subexp num_syms = read_subexp_fuel subexp_bits 32 num_syms 0 0

above-Codes :
    {m : Reads ℕ} {f : Write} {v : ℕ} (mk x : ℕ)
    → Codes m f v
    → v + mk ≡ x
    → Codes (read_above mk m) f x
above-Codes mk x c e = mapped-Codes (λ v. v + mk) x c e

sub_u32-sub : (a b : ℕ) → b ≤ a → a < 2 ^ 32 → sub_u32 a b ≡ a - b
sub_u32-sub a b h ha = omega arith

-- One round, given what the rounds behind it write where they are reached.
subexp_round :
    (f num_syms value i mk : ℕ)
    → mk ≤ value
    → value < num_syms
    → num_syms < 2 ^ 32
    → (mk + 3 * 2 ^ group_bits i < num_syms
        → mk + 2 ^ group_bits i ≤ value
        → Codes
            (read_subexp_fuel group_bits f num_syms (i + 1) (mk + 2 ^ group_bits i))
            (subexp_loop f num_syms value (i + 1) (mk + 2 ^ group_bits i))
            value)
    → Codes
        (read_subexp_fuel group_bits (suc f) num_syms i mk)
        (subexp_loop (suc f) num_syms value i mk)
        value
unfolding subexp_loop
subexp_round f num_syms value i mk low high fits rounds =
    let a = 2 ^ group_bits i in
    let k = λ (b : ℕ).
      if b == 1
      then read_subexp_fuel group_bits f num_syms (i + 1) (mk + a)
      else read_above mk (read_bits (group_bits i)) in
    let offset : sub_u32 value mk ≡ value - mk = sub_u32-sub value mk low (omega arith) in
    elim (Bool-cases (leb num_syms (mk + 3 * a))) [
      | inl final ↦
          let left : sub_u32 num_syms mk ≡ num_syms - mk =
            sub_u32-sub num_syms mk (omega arith) fits in
          rw (final, offset, left)
            (above-Codes mk value
              (ns-Codes (value - mk) (num_syms - mk) (omega arith) (omega arith)) (omega arith))
      | inr unclosed ↦ elim (Bool-cases (leb (mk + a) value)) [
        | inl more ↦
            rw (unclosed, more)
              (then-Codes k (bit-Codes 1)
                (rounds (ground (arith, unclosed)) (ground (arith, more))))
        | inr here ↦
            let small : (value - mk) % 2 ^ group_bits i ≡ value - mk =
              mod-eq_of_lt (ground (arith, here)) in
            rw (unclosed, here, offset)
              (then-Codes k (bit-Codes 0) (
                above-Codes mk value (bits-Codes (value - mk) (group_bits i))
                  (omega (arith, small))))
      ]
    ]

group_bits_le : (i : ℕ) → i + 2 ≤ group_bits i
group_bits_le zero = omega arith
group_bits_le (suc i) = omega arith

-- At most `2 ^ (3 + i + f)` symbols are left: the rounds are enough.
subexp_loop-Codes :
    (f num_syms value i mk : ℕ)
    → mk ≤ value
    → value < num_syms
    → num_syms < 2 ^ 32
    → num_syms ≤ mk + 2 ^ (3 + i + f)
    → Codes
        (read_subexp_fuel group_bits (suc f) num_syms i mk)
        (subexp_loop (suc f) num_syms value i mk)
        value
subexp_loop-Codes zero num_syms value i mk low high fits enough =
    let same : 3 + i + 0 ≡ suc (i + 2) = omega arith in
    let wide = pow_mono (i + 2) (group_bits i) (group_bits_le i) in
    subexp_round zero num_syms value i mk low high fits
      (λ more at_least. absurd (omega (arith, wide, pow-suc 2 (i + 2), ap (λ (t : ℕ). 2 ^ t) same)))
subexp_loop-Codes (suc f) num_syms value i mk low high fits enough =
    let same : 3 + i + suc f ≡ 3 + (i + 1) + f = omega arith in
    let a = 2 ^ group_bits i in
    subexp_round (suc f) num_syms value i mk low high fits (λ more at_least.
      subexp_loop-Codes f num_syms value (i + 1) (mk + a) at_least high fits
        (omega (arith, ap (λ (t : ℕ). 2 ^ t) same)))

-- Any value below `num_syms`, a number below 2 ^ 32, is written as the code from which the decoder's subexponential code reads the value back: the 32 rounds are enough.
pub write_subexp-Codes :
    (num_syms value : ℕ)
    → value < num_syms
    → num_syms < 2 ^ 32
    → Codes (read_subexp num_syms) (write_subexp num_syms value) value
unfolding write_subexp
write_subexp-Codes num_syms value h fits =
    subst
      (λ width.
        Codes (read_subexp_fuel width 32 num_syms 0 0) (subexp_loop 32 num_syms value 0 0) value)
      (sym (fun_ext subexp_bits-group_bits))
      (subexp_loop-Codes 31 num_syms value 0 0 (omega arith) h fits (omega arith))

-- decode_unsigned_subexp_with_ref
abbrev pub read_unsigned : ℕ → ℕ → Reads ℕ
read_unsigned mx r = read_then (read_subexp mx) (λ v.
    read_pure
      (if leb (r * 2) mx then inverse_recenter r v else mx - 1 - inverse_recenter (mx - 1 - r) v))

recenter_forward_lt :
    (mx r v : ℕ) → r * 2 ≤ mx → r < mx → v < mx → mx < 2 ^ 31 → recenter_forward r v < mx
unfolding recenter_forward
recenter_forward_lt mx r v h hr hv fits = ground arith

unsigned-Codes :
    (mx r v : ℕ)
    → r < mx
    → v < mx
    → mx < 2 ^ 31
    → Codes (read_unsigned mx r) (write_unsigned_subexp_with_ref mx r v) v
unfolding write_unsigned_subexp_with_ref either
unsigned-Codes mx r v hr hv fits =
    let double : r * 2 % 2 ^ 32 ≡ r * 2 = mod-eq_of_lt (omega arith) in
    let below : sub_u32 mx 1 ≡ mx - 1 = omega arith in
    let r' : sub_u32 (sub_u32 mx 1) r ≡ mx - 1 - r = omega arith in
    let v' : sub_u32 (sub_u32 mx 1) v ≡ mx - 1 - v = omega arith in
    elim (Bool-cases (leb (r * 2) mx)) [
      | inl near ↦
          let half : r * 2 ≤ mx = ground (arith, near) in
          let coded =
            write_subexp-Codes mx (recenter_forward r v)
              (recenter_forward_lt mx r v half hr hv fits) (omega arith) in
          rw (double, near)
            (mapped-Codes (inverse_recenter r) v coded
              (inverse_recenter-recenter_forward r v (omega arith) (omega arith)))
      | inr far ↦
          let half : (mx - 1 - r) * 2 ≤ mx = ground (arith, far) in
          let coded =
            write_subexp-Codes mx (recenter_forward (mx - 1 - r) (mx - 1 - v))
              (recenter_forward_lt mx (mx - 1 - r) (mx - 1 - v) half (omega arith) (omega arith)
                fits)
              (omega arith) in
          let back =
            inverse_recenter-recenter_forward (mx - 1 - r) (mx - 1 - v) (omega arith)
              (omega arith) in
          rw (double, far, r', v')
            (mapped-Codes (λ x. mx - 1 - inverse_recenter (mx - 1 - r) x) v coded
              (ap (λ (t : ℕ). mx - 1 - t) back ∙ omega arith))
    ]

-- From minus `mx` to `mx`.
abbrev pub Within : ℕ → ℤ → Type 0
Within mx (pos n) = n ≤ mx
Within mx (negsuc n) = n < mx

-- A number from minus `mx` on, counted from there.
abbrev pub above_low : ℕ → ℤ → ℕ
above_low mx (pos n) = n + mx
above_low mx (negsuc n) = mx - suc n

-- decode_signed_subexp_with_ref
abbrev pub read_signed : ℕ → ℤ → Reads ℤ
read_signed mx r =
    read_then (read_unsigned (2 * mx + 1) (above_low mx r)) (λ x. read_pure (sub_int (pos x) mx))

to_u32-add_int :
    (mx : ℕ) (z : ℤ) → Within mx z → mx < 2 ^ 29 → to_u32 (add_int z mx) ≡ above_low mx z
to_u32-add_int mx (pos n) h fits = mod-eq_of_lt (omega arith)
to_u32-add_int mx (negsuc n) h fits =
    let less : ltb n mx ≡ true = ground arith in rw less (omega arith)

above_low_le : (mx : ℕ) (z : ℤ) → Within mx z → above_low mx z < 2 * mx + 1
above_low_le mx (pos n) h = omega arith
above_low_le mx (negsuc n) h = omega arith

sub_int-above_low : (mx : ℕ) (z : ℤ) → Within mx z → sub_int (pos (above_low mx z)) mx ≡ z
sub_int-above_low mx (pos n) h =
    let le : leb mx (n + mx) ≡ true = ground arith in
    let e : n + mx - mx ≡ n = omega arith in rw (le, e) refl
sub_int-above_low mx (negsuc n) h =
    let le : leb mx (mx - suc n) ≡ false = ground arith in
    let e : mx - (mx - suc n) - 1 ≡ n = omega arith in rw (le, e) refl

-- Where the parameter and its reference lie between minus `mx` and `mx`, and `mx` is below 2 ^ 29, the parameter is written as the code from which the decoder, with the same reference, reads the parameter back.
pub write_signed_subexp_with_ref-Codes :
    (mx : ℕ) (r v : ℤ)
    → mx < 2 ^ 29
    → Within mx r
    → Within mx v
    → Codes (read_signed mx r) (write_signed_subexp_with_ref mx r v) v
unfolding write_signed_subexp_with_ref
write_signed_subexp_with_ref-Codes mx r v fits hr hv =
    rw (to_u32-add_int mx r hr fits, to_u32-add_int mx v hv fits)
      (mapped-Codes (λ x. sub_int (pos x) mx) v
        (unsigned-Codes (2 * mx + 1) (above_low mx r) (above_low mx v) (above_low_le mx r hr)
          (above_low_le mx v hv) (omega arith))
        (sub_int-above_low mx v hv))
