-- ===== src/Codec/Av1/Header/SkipMode.antt =====
-- src/codec/av1_obu.cc: whether the skip mode can be used, from the order of the references.
use qualcomm_iris_vaapi.Base.{
  ℕ, zero, suc, ◌+◌, ◌-◌, ◌*◌, ◌/◌, ◌%◌, ◌^◌, Bool, true, false, not, ◌&&◌, Option, none, some,
  if◌then◌else◌, ltb, get_or,
}
use qualcomm_iris_vaapi.Base.Int.{ℤ, pos, negsuc}
use qualcomm_iris_vaapi.Codec.Syntax.{on}
use qualcomm_iris_vaapi.Codec.Av1.Picture.{Picture, ReferenceState}
use qualcomm_iris_vaapi.Codec.Av1.Motion.{is_intra, sub_int, sub_u32}

-- The two masks of the difference, an int: its bits below `m`, and the bit of `m`.
unfoldable pub relative_dist : ℕ → ℕ → Bool → ℕ → ℤ
relative_dist a b enable_order_hint bits =
    let m = 2 ^ (bits - 1) in
    let diff = sub_u32 a b in
    if enable_order_hint then sub_int (pos (diff % m)) (diff / m % 2 * m) else pos 0

abbrev pub is_negative : ℤ → Bool
is_negative (pos n) = false
is_negative (negsuc n) = true

abbrev pub is_positive : ℤ → Bool
is_positive (pos n) = ltb 0 n
is_positive (negsuc n) = false

abbrev pub order_hint_bits : Picture → ℕ
order_hint_bits p = if on p.seq.enable_order_hint then p.order_hint_bits_minus_1 + 1 else 0

abbrev pub reference_select : Picture → Bool
reference_select p = not (is_intra p) && on p.mode.reference_select

abbrev pub dist : Picture → ℕ → ℕ → ℤ
unfolding relative_dist
dist p a b = relative_dist a b (on p.seq.enable_order_hint) (order_hint_bits p)

abbrev pub ref_hint : Picture → ReferenceState → ℕ → ℕ
ref_hint p references i = get_or references.order_hint (get_or p.ref_frame_idx i 0) 0

-- The hint of the best candidate so far, if there is one.
abbrev pub latest : Picture → ℕ → Option ℕ → Option ℕ
unfolding dist
latest p hint none = some hint
latest p hint (some best) = if is_positive (dist p hint best) then some hint else some best

abbrev pub earliest : Picture → ℕ → Option ℕ → Option ℕ
unfolding dist
earliest p hint none = some hint
earliest p hint (some best) = if is_negative (dist p hint best) then some hint else some best

-- The nearest references before and after the picture, from the reference `i` on.
unfoldable pub nearest :
    ℕ → ℕ → Picture → ReferenceState → Option ℕ → Option ℕ → Option ℕ × Option ℕ
unfolding dist latest earliest
nearest zero i p references forward backward = (forward, backward)
nearest (suc left) i p references forward backward =
    let hint = ref_hint p references i in
    let d = dist p hint p.order_hint in
    nearest left (i + 1) p references (if is_negative d then latest p hint forward else forward)
      (if is_positive d then earliest p hint backward else backward)

-- The nearest reference before the one with the hint `first`.
unfoldable pub second_forward : ℕ → ℕ → Picture → ReferenceState → ℕ → Option ℕ → Option ℕ
unfolding dist latest
second_forward zero i p references first second = second
second_forward (suc left) i p references first second =
    let hint = ref_hint p references i in
    second_forward left (i + 1) p references first
      (if is_negative (dist p hint first) then latest p hint second else second)

abbrev pub found : Option ℕ → Bool
found none = false
found (some hint) = true

unfoldable pub skip_possible : Picture → ReferenceState → Option ℕ × Option ℕ → Bool
unfolding second_forward
skip_possible p references (none, backward) = false
skip_possible p references (some hint, some later) = true
skip_possible p references (some hint, none) = found (second_forward 7 0 p references hint none)

unfoldable pub skip_mode_allowed : Picture → ReferenceState → Bool
unfolding nearest skip_possible
skip_mode_allowed p references =
    not (is_intra p)
    && reference_select p
    && on p.seq.enable_order_hint
    && skip_possible p references (nearest 7 0 p references none none)
