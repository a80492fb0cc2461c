-- ===== src/Codec/Av1/Translation/References.antt =====
-- What src/codec/av1.cc and src/codec/av1_obu.cc keep of a frame for the slots that it refreshed.
use qualcomm_iris_vaapi.Base.{
  ℕ, zero, suc, ◌+◌, ◌-◌, ◌≤◌, ◌<◌, ◌≡◌, refl, ap, ◌∙◌, Bool, true, false, List, [], ◌∷◌, ◌==◌,
  if◌then◌else◌, get_or, set, length, length-set, arith,
}
use native.Mathlib.Decide.{dec_lt}
use qualcomm_iris_vaapi.Base.Int.{ℤ}
use qualcomm_iris_vaapi.Codec.Av1.Picture.{Picture, ReferenceState}
use qualcomm_iris_vaapi.Codec.Av1.Motion.{refreshes, is_intra, default_gm_params, identity_motion}

module _ {A : Type 0} where
  pub get_or-set : (xs : List A) (i : ℕ) (v d : A) → i < length xs → get_or (set xs i v) i d ≡ v
  get_or-set [] i v d h = absurd (omega arith)
  get_or-set (x ∷ xs) zero v d h = refl
  get_or-set (x ∷ xs) (suc i) v d h = get_or-set xs i v d (omega arith)

  pub get_or-set_other :
      (xs : List A) (i j : ℕ) (v d : A) → (i == j) ≡ false → get_or (set xs i v) j d ≡ get_or xs j d
  get_or-set_other [] i j v d h = refl
  get_or-set_other (x ∷ xs) zero zero v d h = absurd (ground (arith, h))
  get_or-set_other (x ∷ xs) zero (suc j) v d h = refl
  get_or-set_other (x ∷ xs) (suc i) zero v d h = refl
  get_or-set_other (x ∷ xs) (suc i) (suc j) v d h = get_or-set_other xs i j v d (ground (arith, h))

  -- A loop over the places from `i` on, `left` of them, that may set each of them by what it held.
  abbrev pub sets : (ℕ → Bool) → (ℕ → A → A) → A → ℕ → ℕ → List A → List A
  sets c f d zero i xs = xs
  sets c f d (suc left) i xs =
      sets c f d left (i + 1) (if c i then set xs i (f i (get_or xs i d)) else xs)

  length-if_set :
      (b : Bool) (xs : List A) (i : ℕ) (v : A) → length (if b then set xs i v else xs) ≡ length xs
  length-if_set true xs i v = length-set xs i v
  length-if_set false xs i v = refl

  if_set-other :
      (b : Bool) (xs : List A) (i j : ℕ) (v d : A)
      → (i == j) ≡ false
      → get_or (if b then set xs i v else xs) j d ≡ get_or xs j d
  if_set-other true xs i j v d h = get_or-set_other xs i j v d h
  if_set-other false xs i j v d h = refl

  if_set-same :
      (b : Bool) (xs : List A) (i : ℕ) (v d : A)
      → i < length xs
      → get_or (if b then set xs i v else xs) i d ≡ (if b then v else get_or xs i d)
  if_set-same true xs i v d h = get_or-set xs i v d h
  if_set-same false xs i v d h = refl

  sets-before :
      (c : ℕ → Bool) (f : ℕ → A → A) (d : A) (left i j : ℕ) (xs : List A)
      → j < i
      → get_or (sets c f d left i xs) j d ≡ get_or xs j d
  sets-before c f d zero i j xs h = refl
  sets-before c f d (suc left) i j xs h =
      sets-before c f d left (i + 1) j _ (omega arith)
      ∙ if_set-other (c i) xs i j (f i (get_or xs i d)) d (ground arith)

  -- Each place in the range is set once, by what it held before the loop.
  pub sets-at :
      (c : ℕ → Bool) (f : ℕ → A → A) (d : A) (left i j : ℕ) (xs : List A)
      → i ≤ j
      → j < i + left
      → j < length xs
      → get_or (sets c f d left i xs) j d ≡ (if c j then f j (get_or xs j d) else get_or xs j d)
  sets-at c f d zero i j xs low high h = absurd (omega arith)
  sets-at c f d (suc left) i j xs low high h = elim (dec_lt i j) [
    | yes later ↦
        let v = f i (get_or xs i d) in
        let same = if_set-other (c i) xs i j v d (ground arith) in
        sets-at c f d left (i + 1) j (if c i then set xs i v else xs) (omega arith) (omega arith)
          (omega (arith, length-if_set (c i) xs i v))
        ∙ ap (λ a. if c j then f j a else a) same
    | no now ↦
        let here : j ≡ i = omega arith in
        let v = f i (get_or xs i d) in
        rw here (
          sets-before c f d left (i + 1) i (if c i then set xs i v else xs) (omega arith)
          ∙ if_set-same (c i) xs i v d (omega arith))
  ]

-- The parameters that a slot keeps for the reference `ref`.
abbrev pub kept_motion : Picture → ℕ → List ℤ
kept_motion p ref =
    if is_intra p then default_gm_params else (get_or p.wm (ref - 1) identity_motion).wmmat

-- A slot that is refreshed gets the frame's order hint and motion; another slot keeps its own.
pub record Updated (before after : ReferenceState) (p : Picture) (flags slot : ℕ) : Type 0 where
  pub hint :
      get_or after.order_hint slot 0
      ≡ (if refreshes flags slot then p.order_hint else get_or before.order_hint slot 0)
  pub valid :
      get_or after.gm_valid slot false
      ≡ (if refreshes flags slot then true else get_or before.gm_valid slot false)
  pub motion :
      (ref : ℕ)
      → 1 ≤ ref
      → ref < 8
      → get_or (get_or after.gm_params slot []) ref [] ≡ (
          if refreshes flags slot
          then kept_motion p ref
          else get_or (get_or before.gm_params slot []) ref [])
