-- ===== src/Codec/Hevc/Scaling.antt =====
-- src/codec/hevc.cc: the scaling lists.
use qualcomm_iris_vaapi.Base.{
  ℕ, zero, suc, ◌+◌, ◌-◌, ◌*◌, ◌%◌, ◌<◌, min, ◌≡◌, refl, ap, inl, inr, Bool-cases, List, [], ◌∷◌,
  ◌++◌, map, ltb, leb, ◌==◌, if◌then◌else◌, get_or, All, IsByte, arith,
}
use qualcomm_iris_vaapi.Base.Int.{ℤ, pos, negsuc}
use qualcomm_iris_vaapi.Codec.Syntax.{Write, ◌>>◌, bit, se, skip, when}
use qualcomm_iris_vaapi.Codec.Hevc.{ScalingMatrix}

-- One diagonal, upwards: the raster positions from row `y` and column `x` on.
abbrev pub diagonal_up : ℕ → ℕ → ℕ → ℕ → List ℕ
diagonal_up zero y x side = []
diagonal_up (suc left) y x side =
    let rest = diagonal_up left (y - 1) (x + 1) side in
    if ltb x side then (y * side + x) ∷ rest else []

-- The diagonals from `diagonal` on, `left` of them.
abbrev pub diagonals : ℕ → ℕ → ℕ → List ℕ
diagonals zero diagonal side = []
diagonals (suc left) diagonal side =
    let y = min diagonal (side - 1) in
    diagonal_up (y + 1) y (diagonal - y) side ++ diagonals left (diagonal + 1) side

abbrev pub diagonal_scan : ℕ → List ℕ
diagonal_scan side = diagonals (2 * side - 1) 0 side

-- The difference of two bytes, from -128 to 127.
abbrev pub coef_delta : ℕ → ℕ → ℤ
coef_delta value previous =
    let delta = (value + 256 - previous) % 256 in
    if ltb 127 delta then negsuc (255 - delta) else pos delta

-- The coefficients, each against the one before.
abbrev pub deltas : ℕ → List ℕ → List ℤ
deltas previous [] = []
deltas previous (value ∷ values) = coef_delta value previous ∷ deltas value values

unfoldable pub write_coefs : List ℤ → Write
write_coefs [] = skip
write_coefs (d ∷ ds) = se d >> write_coefs ds

abbrev pub dc_delta : ℕ → ℤ
dc_delta n = if leb 8 n then pos (n - 8) else negsuc (7 - n)

-- The lists and the first coefficients of a size.
abbrev pub lists_of : ScalingMatrix → ℕ → List (List ℕ)
lists_of m zero = m.lists_4x4
lists_of m (suc zero) = m.lists_8x8
lists_of m (suc (suc zero)) = m.lists_16x16
lists_of m _ = m.lists_32x32

abbrev pub dc_of : ScalingMatrix → ℕ → ℕ → ℕ
dc_of m size_id id =
    if leb size_id 1 then 8 else get_or (if size_id == 2 then m.dc_16x16 else m.dc_32x32) id 8

unfoldable pub scaling_list : ScalingMatrix → ℕ → ℕ → Write
unfolding write_coefs
scaling_list m size_id id =
    let values = get_or (lists_of m size_id) id [] in
    let side = if size_id == 0 then 4 else 8 in
    do
      bit 1
      when (ltb 1 size_id) (se (dc_delta (dc_of m size_id id)))
      write_coefs (deltas (dc_of m size_id id) (map (λ i. get_or values i 0) (diagonal_scan side)))

-- The lists of a size from `id` on, `left` of them.
unfoldable pub lists_from : ℕ → ℕ → ScalingMatrix → ℕ → Write
unfolding scaling_list
lists_from zero id m size_id = skip
lists_from (suc left) id m size_id = scaling_list m size_id id >> lists_from left (id + 1) m size_id

unfoldable pub scaling_lists : ScalingMatrix → Write
unfolding lists_from
scaling_lists m = do lists_from 6 0 m 0; lists_from 6 0 m 1; lists_from 6 0 m 2; lists_from 2 0 m 3

-- The decoder's `(nextCoef + delta + 256) % 256`.
abbrev pub next_coef : ℕ → ℤ → ℕ
next_coef previous (pos d) = (previous + d + 256) % 256
next_coef previous (negsuc d) = (previous + 255 - d) % 256

abbrev pub coefs : ℕ → List ℤ → List ℕ
coefs previous [] = []
coefs previous (d ∷ ds) = let value = next_coef previous d in value ∷ coefs value ds

-- The range of scaling_list_delta_coef.
abbrev pub DeltaInRange : ℤ → Type 0
DeltaInRange (pos d) = d < 128
DeltaInRange (negsuc d) = d < 128

coef_delta-DeltaInRange : (value previous : ℕ) → DeltaInRange (coef_delta value previous)
coef_delta-DeltaInRange value previous =
    elim (Bool-cases (ltb 127 ((value + 256 - previous) % 256))) [
      | inl below ↦ rw below (ground (arith, below))
      | inr above ↦ rw above (ground (arith, above))
    ]

deltas-DeltaInRange : (values : List ℕ) (previous : ℕ) → All DeltaInRange (deltas previous values)
deltas-DeltaInRange [] previous = tt
deltas-DeltaInRange (value ∷ values) previous =
    (coef_delta-DeltaInRange value previous, deltas-DeltaInRange values value)

next_coef-coef_delta :
    (value previous : ℕ)
    → value < 256
    → previous < 256
    → next_coef previous (coef_delta value previous) ≡ value
next_coef-coef_delta value previous hv hp =
    let delta = (value + 256 - previous) % 256 in
    elim (Bool-cases (ltb 127 delta)) [
      | inl below ↦ rw below (omega arith)
      | inr above ↦ rw above (omega arith)
    ]

coefs_of_deltas :
    (values : List ℕ) (previous : ℕ)
    → All IsByte values
    → previous < 256
    → coefs previous (deltas previous values) ≡ values
coefs_of_deltas [] previous h hp = refl
coefs_of_deltas (value ∷ values) previous (hv, h) hp =
    rw (next_coef-coef_delta value previous hv hp)
      (ap (λ vs. value ∷ vs) (coefs_of_deltas values value h hv))

-- The differences that are written for bytes, whatever byte they start from, are all from -128 to 127, as the syntax requires, and the decoder makes the bytes again from them.
pub coefs-deltas :
    (values : List ℕ) (previous : ℕ)
    → All IsByte values
    → previous < 256
    → All DeltaInRange (deltas previous values) × (coefs previous (deltas previous values) ≡ values)
coefs-deltas values previous h hp =
    (deltas-DeltaInRange values previous, coefs_of_deltas values previous h hp)
