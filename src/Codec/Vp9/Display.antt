-- ===== src/Codec/Vp9/Display.antt =====
-- What src/codec/vp9.cc makes of a frame that it accepts.
use qualcomm_iris_vaapi.Base.{ℕ, ◌/◌, ◌%◌, ◌^◌, ◌<◌, ◌≡◌, true, false, List, [], ◌∷◌, ◌==◌}
use qualcomm_iris_vaapi.Codec.Syntax.{on}
use qualcomm_iris_vaapi.Codec.Vp9.{FrameParameters, show_byte, VisibleUnit}
use qualcomm_iris_vaapi.Codec.Vp9.Refresh.{refresh_flags}
use qualcomm_iris_vaapi.Codec.Vp9.Superframe.{read_superframe}

-- The lowest of the flags that are set.
pub record Lowest (refresh slot : ℕ) : Type 0 where
  pub inside : slot < 8
  pub set : refresh / 2 ^ slot % 2 ≡ 1
  pub least : (j : ℕ) → j < slot → refresh / 2 ^ j % 2 ≡ 0

-- An invisible frame goes out with a header behind it that displays the lowest slot that it refreshes.
pub record Hidden (expected_profile : ℕ) (bytes : List ℕ) (u : VisibleUnit) : Type 0 where
  pub slot : ℕ
  pub lowest : Lowest (refresh_flags expected_profile bytes) slot
  pub split : read_superframe u.bytes ≡ bytes ∷ (show_byte expected_profile slot ∷ []) ∷ []

pub record Displays (expected_profile : ℕ) (p : FrameParameters) (bytes : List ℕ) (u : VisibleUnit)
    : Type 0 where
  pub sequence : u.sequence_start ≡ (p.frame_type == 0)
  pub visible : on p.show_frame ≡ true → u.bytes ≡ bytes
  pub invisible : on p.show_frame ≡ false → Hidden expected_profile bytes u
