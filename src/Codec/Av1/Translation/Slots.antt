-- ===== src/Codec/Av1/Translation/Slots.antt =====
-- What src/codec/av1.cc learns of the slots that a picture refreshed, and what it keeps for them.
use qualcomm_iris_vaapi.Base.{
  ℕ, zero, suc, ◌+◌, ◌*◌, ◌/◌, ◌%◌, ◌^◌, ◌<◌, ◌≡◌, refl, ap, Bool, true, false, not, ◌&&◌, List,
  ◌==◌, if◌then◌else◌, flag, get_or, arith,
}
use native.Mathlib.Nat.{pow-suc}
use qualcomm_iris_vaapi.Base.{div_half}
use qualcomm_iris_vaapi.Codec.Av1.Picture.{Picture}
use qualcomm_iris_vaapi.Codec.Av1.Motion.{refreshes}
use qualcomm_iris_vaapi.Codec.Av1.Translation.{invalid_id, Held, refreshed, previous_refresh}

-- The slot holds the surface.
abbrev pub holds : List ℕ → ℕ → ℕ → Bool
holds ref_frame_map surface slot =
    get_or ref_frame_map slot invalid_id == surface && not (surface == invalid_id)

-- The flags of the slots from `slot` on, `left` of them, as a number.
abbrev flags_from : ℕ → ℕ → List ℕ → ℕ → ℕ
flags_from zero slot ref_frame_map surface = 0
flags_from (suc left) slot ref_frame_map surface =
    flag (holds ref_frame_map surface slot) + 2 * flags_from left (slot + 1) ref_frame_map surface

if_pow : (c : Bool) (k : ℕ) → (if c then 2 ^ k else 0) ≡ 2 ^ k * flag c
if_pow true k = omega arith
if_pow false k = omega arith

refreshed-flags_from :
    (left slot : ℕ) (ref_frame_map : List ℕ) (surface : ℕ)
    → refreshed left slot ref_frame_map surface
      ≡ 2 ^ slot * flags_from left slot ref_frame_map surface
unfolding refreshed
refreshed-flags_from zero slot ref_frame_map surface = omega arith
refreshed-flags_from (suc left) slot ref_frame_map surface =
    let same : slot + 1 ≡ suc slot = omega arith in
    let q = flags_from left (slot + 1) ref_frame_map surface in
    omega (
      arith,
      if_pow (holds ref_frame_map surface slot) slot,
      refreshed-flags_from left (slot + 1) ref_frame_map surface,
      ap (λ (t : ℕ). 2 ^ t * q) same,
      ap (λ (t : ℕ). t * q) (pow-suc 2 slot),
    )

flag_lt : (b : Bool) → flag b < 2
flag_lt true = omega arith
flag_lt false = omega arith

flags_from-bit :
    (left slot k : ℕ) (ref_frame_map : List ℕ) (surface : ℕ)
    → k < left
    → flags_from left slot ref_frame_map surface / 2 ^ k % 2
      ≡ flag (holds ref_frame_map surface (slot + k))
flags_from-bit zero slot k ref_frame_map surface h = absurd (omega arith)
flags_from-bit (suc left) slot zero ref_frame_map surface h =
    let here : slot + 0 ≡ slot = omega arith in
    rw here (omega (arith, flag_lt (holds ref_frame_map surface slot)))
flags_from-bit (suc left) slot (suc k) ref_frame_map surface h =
    let there : slot + suc k ≡ slot + 1 + k = omega arith in
    let b = flag (holds ref_frame_map surface slot) in
    let q = flags_from left (slot + 1) ref_frame_map surface in
    let half : (b + 2 * q) / 2 ≡ q = omega (arith, flag_lt (holds ref_frame_map surface slot)) in
    rw (there, div_half k (b + 2 * q), half)
      (flags_from-bit left (slot + 1) k ref_frame_map surface (omega arith))

flag-one : (b : Bool) → (flag b == 1) ≡ b
flag-one true = refl
flag-one false = refl

-- A slot is among those that the held picture is said to have refreshed exactly if the new picture's reference map has the held picture's surface in the slot, and that surface is valid.
pub refreshes-previous_refresh :
    (p : Picture) (h : Held) (slot : ℕ)
    → slot < 8
    → refreshes (previous_refresh p h) slot ≡ holds p.ref_frame_map h.picture.current_frame slot
unfolding previous_refresh
refreshes-previous_refresh p h slot less =
    let whole : refreshed 8 0 p.ref_frame_map h.picture.current_frame
        ≡ flags_from 8 0 p.ref_frame_map h.picture.current_frame =
      omega (arith, refreshed-flags_from 8 0 p.ref_frame_map h.picture.current_frame) in
    let here : 0 + slot ≡ slot = omega arith in
    rw (whole, flags_from-bit 8 0 slot p.ref_frame_map h.picture.current_frame less, here)
      (flag-one (holds p.ref_frame_map h.picture.current_frame slot))
