-- ===== src/Codec/H264/Levels.antt =====
-- The level that the parameter sets announce.
use qualcomm_iris_vaapi.Base.{
  ℕ, ◌≡◌, refl, ◌⊎◌, inl, inr, false, List, [], ◌∷◌, ◌++◌, ap, All, Bool-cases, leb, ◌<◌, ◌≤◌,
  arith,
}
use qualcomm_iris_vaapi.Codec.H264.{
  Level, levels, level_loop, level_for, fits_level, frame_mbs, dpb_mbs, PictureParameters,
}

-- A limit of the level is below what the stream needs.
abbrev pub Unfit : ℕ → ℕ → Level → Type 0
Unfit frame dpb l = (l.max_frame_mbs < frame) ⊎ (l.max_dpb_mbs < dpb)

over_limit : (frame dpb : ℕ) (l : Level) → fits_level frame dpb l ≡ false → Unfit frame dpb l
over_limit frame dpb l over = elim (Bool-cases (leb frame l.max_frame_mbs)) [
  | inl fit ↦ inr (ground (arith, over, fit))
  | inr large ↦ inl (ground (arith, large))
]

-- The first level of the table that fits, after some that do not.
pub record Lowest (frame dpb : ℕ) (ls : List Level) (idc : ℕ) : Type 0 where
  pub below : List Level
  pub chosen : Level
  pub above : List Level
  pub table : ls ≡ below ++ (chosen ∷ above)
  pub named : chosen.idc ≡ idc
  pub frames : frame ≤ chosen.max_frame_mbs
  pub buffers : dpb ≤ chosen.max_dpb_mbs
  pub unfit : All (Unfit frame dpb) below

level_loop-Lowest :
    (frame dpb : ℕ) (ls : List Level)
    → (All (Unfit frame dpb) ls × (level_loop frame dpb ls ≡ 62))
      ⊎ Lowest frame dpb ls (level_loop frame dpb ls)
unfolding level_loop
level_loop-Lowest frame dpb [] = inl (tt, refl)
level_loop-Lowest frame dpb (l ∷ ls) = elim (Bool-cases (fits_level frame dpb l)) [
  | inl fit ↦ inr (
      rw fit (record {
        below = [];
        chosen = l;
        above = ls;
        table = refl;
        named = refl;
        frames = ground (arith, fit);
        buffers = ground (arith, fit);
        unfit = tt;
      }))
  | inr over ↦ elim (level_loop-Lowest frame dpb ls) [
    | inl (all, last) ↦ inl ((over_limit frame dpb l over, all), rw over last)
    | inr r ↦ inr (
        rw over (record {
          below = l ∷ r.below;
          chosen = r.chosen;
          above = r.above;
          table = ap (λ t. l ∷ t) r.table;
          named = r.named;
          frames = r.frames;
          buffers = r.buffers;
          unfit = (over_limit frame dpb l over, r.unfit);
        }))
  ]
]

-- The announced level is 62 where every level of the table has a limit below the frame or below the
-- decoded picture buffer, and otherwise the first of the table whose two limits hold the stream.
pub level_for-Lowest :
    (p : PictureParameters)
    → (All (Unfit (frame_mbs p) (dpb_mbs p)) levels × (level_for p ≡ 62))
      ⊎ Lowest (frame_mbs p) (dpb_mbs p) levels (level_for p)
unfolding level_for
level_for-Lowest p = level_loop-Lowest (frame_mbs p) (dpb_mbs p) levels
