-- ===== src/Codec/Syntax.antt =====
-- Code that writes through a BitWriter of src/codec/bitwriter.h, as steps in the order of the source.
pub mod Codes
pub mod Truncated
pub mod Leb128
pub mod Keeps
pub mod Unsigned
pub mod Signed
use qualcomm_iris_vaapi.Base.{ℕ, Bool, not, ◌==◌, if◌then◌else◌, flag}
use qualcomm_iris_vaapi.Base.Int.{ℤ}
use qualcomm_iris_vaapi.Codec.Writer.{BitWriter}
use qualcomm_iris_vaapi.Codec.Writer

abbrev pub Write : Type 0
Write = BitWriter → BitWriter

infixl 5 ◌>>◌
unfoldable pub ◌>>◌ : Write → Write → Write
(f >> g) w = g (f w)

-- A field that the source tests as a condition.
abbrev pub on : ℕ → Bool
on n = not (n == 0)

unfoldable pub bit : ℕ → Write
bit value w = Writer.bit w value

unfoldable pub bits : ℕ → ℕ → Write
bits value count w = Writer.bits w value count

unfoldable pub bool : Bool → Write
unfolding bit
bool b = bit (flag b)

unfoldable pub ue : ℕ → Write
ue value w = Writer.ue w value

unfoldable pub se : ℤ → Write
se value w = Writer.se w value

unfoldable pub su : ℤ → ℕ → Write
su value count w = Writer.su w value count

unfoldable pub ns : ℕ → ℕ → Write
ns value n w = Writer.ns w value n

unfoldable pub skip : Write
skip w = w

unfoldable pub when : Bool → Write → Write
when b f w = if b then f w else w

unfoldable pub either : Bool → Write → Write → Write
either b f g w = if b then f w else g w
