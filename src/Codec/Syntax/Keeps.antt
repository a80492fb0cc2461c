-- ===== src/Codec/Syntax/Keeps.antt =====
-- Steps that keep a BitWriter valid.
use qualcomm_iris_vaapi.Base.{ℕ, zero, suc, Bool, true, false}
use qualcomm_iris_vaapi.Base.Int.{ℤ, pos, negsuc}
use qualcomm_iris_vaapi.Codec.Writer.{BitWriter}
use qualcomm_iris_vaapi.Codec.Writer
use qualcomm_iris_vaapi.Codec.Writer.Contents.{IsValid, bit-Appends, bits-Appends, zeros-Appends}
use qualcomm_iris_vaapi.Codec.Syntax.{Write, ◌>>◌, bit, bits, bool, ue, se, skip, when}

pub record Keeps (f : Write) : Type 0 where
  pub valid : (w : BitWriter) → IsValid w → IsValid (f w)

pub then-Keeps : {f g : Write} → Keeps f → Keeps g → Keeps (f >> g)
unfolding ◌>>◌
then-Keeps p q = record { valid = λ w h. q.valid _ (p.valid w h) }

pub bit-Keeps : (v : ℕ) → Keeps (bit v)
unfolding bit
bit-Keeps v = record { valid = λ w h. (bit-Appends w v h).valid }

pub bits-Keeps : (v n : ℕ) → Keeps (bits v n)
unfolding bits
bits-Keeps v n = record { valid = λ w h. (bits-Appends n w v h).valid }

pub bool-Keeps : (b : Bool) → Keeps (bool b)
unfolding bool
bool-Keeps b = bit-Keeps _

pub ue-Keeps : (v : ℕ) → Keeps (ue v)
unfolding ue Writer.ue
ue-Keeps v = record { valid = λ w h. (bits-Appends _ _ _ (zeros-Appends _ w h).valid).valid }

pub se-Keeps : (z : ℤ) → Keeps (se z)
unfolding se Writer.se ue
se-Keeps (pos zero) = ue-Keeps 0
se-Keeps (pos (suc n)) = ue-Keeps _
se-Keeps (negsuc n) = ue-Keeps _

pub skip-Keeps : Keeps skip
unfolding skip
skip-Keeps = record { valid = λ w h. h }

pub when-Keeps : (c : Bool) {f : Write} → Keeps f → Keeps (when c f)
unfolding when
when-Keeps true p = p
when-Keeps false p = record { valid = λ w h. h }

pub ruleset keeps =
    (then-Keeps, bit-Keeps, bits-Keeps, bool-Keeps, ue-Keeps, se-Keeps, skip-Keeps, when-Keeps)
