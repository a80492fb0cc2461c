-- ===== src/Codec/Av1/Motion.antt =====
-- src/codec/av1_obu.cc: global motion, coded against the primary reference.
pub mod Subexp
use qualcomm_iris_vaapi.Base.{
  ℕ, zero, suc, ◌+◌, ◌-◌, ◌*◌, ◌/◌, ◌%◌, ◌^◌, Bool, true, false, not, ◌&&◌, ◌||◌, List, [], ◌∷◌,
  ltb, leb, ◌==◌, if◌then◌else◌, get_or, set,
}
use qualcomm_iris_vaapi.Base.Int.{ℤ, pos, negsuc}
use qualcomm_iris_vaapi.Codec.Writer.{BitWriter, to_u32}
use qualcomm_iris_vaapi.Codec.Syntax.{Write, ◌>>◌, on, bit, bits, bool, ns, skip, when, either}
use qualcomm_iris_vaapi.Codec.Av1.Picture.{
  Picture, WarpedMotion, ReferenceState, Outcome, built, rejected, motion_type,
}
use qualcomm_iris_vaapi.Codec.Av1.Quantization.{primary_ref_none}

-- `a - b` of uint32_t.
abbrev pub sub_u32 : ℕ → ℕ → ℕ
sub_u32 a b = (a + 2 ^ 32 - b) % 2 ^ 32

unfoldable pub recenter_forward : ℕ → ℕ → ℕ
recenter_forward r t =
    if ltb (2 * r % 2 ^ 32) t
    then t
    else if leb r t
    then 2 * (t - r) % 2 ^ 32
    else sub_u32 (2 * (r - t) % 2 ^ 32) 1

-- The width of the group `i`.
abbrev pub group_bits : ℕ → ℕ
group_bits zero = 3
group_bits (suc i) = 3 + i

-- The rounds of the loop, on fuel: the groups double, so 32 of them pass any number of symbols.
unfoldable pub subexp_loop : ℕ → ℕ → ℕ → ℕ → ℕ → Write
subexp_loop zero num_syms value i mk = skip
subexp_loop (suc f) num_syms value i mk =
    let b2 = group_bits i in
    let a = 2 ^ b2 in
    let rest = subexp_loop f num_syms value (i + 1) (mk + a) in
    if leb num_syms (mk + 3 * a)
    then ns (sub_u32 value mk) (sub_u32 num_syms mk)
    else if leb (mk + a) value
    then bit 1 >> rest
    else bit 0 >> bits (sub_u32 value mk) b2

unfoldable pub write_subexp : ℕ → ℕ → Write
unfolding subexp_loop
write_subexp num_syms value = subexp_loop 32 num_syms value 0 0

unfoldable pub write_unsigned_subexp_with_ref : ℕ → ℕ → ℕ → Write
unfolding write_subexp recenter_forward
write_unsigned_subexp_with_ref mx r v =
    either (leb (r * 2 % 2 ^ 32) mx) (write_subexp mx (recenter_forward r v))
      (write_subexp mx (recenter_forward (sub_u32 (sub_u32 mx 1) r) (sub_u32 (sub_u32 mx 1) v)))

-- `z + m`, `z - m` and `z >> k` of ints.
abbrev pub add_int : ℤ → ℕ → ℤ
add_int (pos n) m = pos (n + m)
add_int (negsuc n) m = if ltb n m then pos (m - n - 1) else negsuc (n - m)

abbrev pub sub_int : ℤ → ℕ → ℤ
sub_int (pos n) m = if leb m n then pos (n - m) else negsuc (m - n - 1)
sub_int (negsuc n) m = negsuc (n + m)

abbrev pub shift_right : ℤ → ℕ → ℤ
shift_right (pos n) k = pos (n / 2 ^ k)
shift_right (negsuc n) k = negsuc (n / 2 ^ k)

-- `low` is -mx and `high` is mx + 1.
unfoldable pub write_signed_subexp_with_ref : ℕ → ℤ → ℤ → Write
unfolding write_unsigned_subexp_with_ref
write_signed_subexp_with_ref mx r v =
    write_unsigned_subexp_with_ref (2 * mx + 1) (to_u32 (add_int r mx)) (to_u32 (add_int v mx))

abbrev pub translation : ℕ
translation = 1

abbrev pub rotzoom : ℕ
rotzoom = 2

abbrev pub affine : ℕ
affine = 3

abbrev pub abs_bits : ℕ → ℕ → Bool → ℕ
abs_bits type idx high_precision =
    if ltb idx 2 && type == translation then (if high_precision then 9 else 8) else 12

abbrev pub prec_bits : ℕ → ℕ → Bool → ℕ
prec_bits type idx high_precision =
    if ltb idx 2 then (if type == translation then (if high_precision then 3 else 2) else 6) else 15

unfoldable pub write_global_param : ℕ → ℕ → ℤ → ℤ → Bool → Write
unfolding write_signed_subexp_with_ref
write_global_param type idx value reference high_precision =
    let prec = prec_bits type idx high_precision in
    let round = if idx % 3 == 2 then 2 ^ 16 else 0 in
    let sub = if idx % 3 == 2 then 2 ^ prec else 0 in
    write_signed_subexp_with_ref (2 ^ abs_bits type idx high_precision)
      (sub_int (shift_right reference (16 - prec)) sub)
      (shift_right (sub_int value round) (16 - prec))

abbrev pub default_gm_params : List ℤ
default_gm_params = pos 0 ∷ pos 0 ∷ pos 0x10000 ∷ pos 0 ∷ pos 0 ∷ pos 0x10000 ∷ []

-- The saved parameters of the primary reference, or the defaults.
abbrev pub previous_params : Picture → ReferenceState → ℕ → List ℤ
previous_params p references ref =
    let slot = get_or p.ref_frame_idx p.primary_ref_frame 0 in
    if not (p.primary_ref_frame == primary_ref_none)
      && ltb slot 8
      && get_or references.gm_valid slot false
    then get_or (get_or references.gm_params slot []) ref []
    else default_gm_params

abbrev pub identity_motion : WarpedMotion
identity_motion = record { wmtype = 0; wmmat = default_gm_params }

-- The parameter `idx` of a motion.
abbrev pub write_param : WarpedMotion → List ℤ → Bool → ℕ → Write
write_param wm prev hp idx =
    write_global_param wm.wmtype idx (get_or wm.wmmat idx (pos 0)) (get_or prev idx (pos 0)) hp

unfoldable pub write_motion : WarpedMotion → List ℤ → Bool → Write
unfolding write_global_param
write_motion wm prev hp = do
  bool (on wm.wmtype)
  when (on wm.wmtype) (do
    bool (wm.wmtype == rotzoom)
    when (not (wm.wmtype == rotzoom)) (bool (wm.wmtype == translation))
    when (leb rotzoom wm.wmtype) (do
      write_param wm prev hp 2
      write_param wm prev hp 3
      when (wm.wmtype == affine) (do write_param wm prev hp 4; write_param wm prev hp 5))
    write_param wm prev hp 0
    write_param wm prev hp 1)

-- The references from `ref` on, `left` of them.
unfoldable pub motion_loop : ℕ → ℕ → Picture → ReferenceState → BitWriter → Outcome BitWriter
unfolding write_motion
motion_loop zero ref p references w = built w
motion_loop (suc left) ref p references w =
    let wm = get_or p.wm (ref - 1) identity_motion in
    let written =
      write_motion wm (previous_params p references ref) (on p.pic.allow_high_precision_mv) w in
    let rest = motion_loop left (ref + 1) p references written in
    if ltb affine wm.wmtype then rejected motion_type else rest

unfoldable pub write_global_motion_params :
    Picture → ReferenceState → Bool → BitWriter → Outcome BitWriter
unfolding motion_loop
write_global_motion_params p references frame_is_intra w =
    let coded = motion_loop 7 1 p references w in if frame_is_intra then built w else coded

abbrev pub refreshes : ℕ → ℕ → Bool
refreshes flags slot = flags / 2 ^ slot % 2 == 1

-- key or intra-only
abbrev pub is_intra : Picture → Bool
is_intra p = p.pic.frame_type == 0 || p.pic.frame_type == 2

-- What a slot that is refreshed holds for the references from `ref` on.
unfoldable pub refreshed_params : ℕ → ℕ → Picture → List (List ℤ) → List (List ℤ)
refreshed_params zero ref p params = params
refreshed_params (suc left) ref p params = refreshed_params left (ref + 1) p (
    set params ref
      (if is_intra p then default_gm_params else (get_or p.wm (ref - 1) identity_motion).wmmat))

unfoldable pub refresh_slots : ℕ → ℕ → Picture → ℕ → ReferenceState → ReferenceState
unfolding refreshed_params
refresh_slots zero slot p flags references = references
refresh_slots (suc left) slot p flags references =
    let changed = record references {
      gm_params =
          set references.gm_params slot
            (refreshed_params 7 1 p (get_or references.gm_params slot []));
      gm_valid = set references.gm_valid slot true;
    } in
    refresh_slots left (slot + 1) p flags (if refreshes flags slot then changed else references)

unfoldable pub av1_update_reference_gm : ReferenceState → Picture → ℕ → ReferenceState
unfolding refresh_slots
av1_update_reference_gm references p flags = refresh_slots 8 0 p flags references
