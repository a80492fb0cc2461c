-- ===== src/Codec/Hevc/References/ShortTerm.antt =====
-- The short-term part of the reference picture set in src/codec/hevc.cc against its decoding.
use qualcomm_iris_vaapi.Base.{
  ℕ, zero, suc, ◌+◌, ◌≡◌, Bool, true, false, List, [], ◌∷◌, ◌++◌, map, length, ◌&&◌, if◌then◌else◌,
  flag,
}
use qualcomm_iris_vaapi.Base.Int.{ℤ}
use qualcomm_iris_vaapi.Codec.Writer.{BitWriter}
use qualcomm_iris_vaapi.Codec.Writer.Contents.{Appends}
use qualcomm_iris_vaapi.Codec.Syntax.Codes.{Codes, Reads, read_bit, read_then, read_pure}
use qualcomm_iris_vaapi.Codec.Syntax.Unsigned.{read_ue}
use qualcomm_iris_vaapi.Codec.Av1.Motion.{add_int, sub_int}
use qualcomm_iris_vaapi.Codec.Hevc.References.{
  Reference, Checked, fine, refused, delta_range, poc_delta, in_range,
}

-- The decoder's count of the next reference, from the one before and delta_poc_minus1.
abbrev pub next_poc : Bool → ℤ → ℕ → ℤ
next_poc future previous d = if future then add_int previous (d + 1) else sub_int previous (d + 1)

-- A reference: delta_poc_minus1 and used_by_curr_pic_flag.
unfoldable pub read_reference : Bool → ℤ → Reads (ℤ × ℕ)
read_reference future previous =
    read_then read_ue
      (λ d. read_then read_bit (λ used. read_pure (next_poc future previous d, used)))

abbrev read_more : (ℤ → Reads (List (ℤ × ℕ))) → (ℤ × ℕ) × List ℕ → List (ℤ × ℕ) × List ℕ
read_more more (r, rest) = let (rs, behind) = more r.0 rest in (r ∷ rs, behind)

-- As many references as are asked for, each counted from the one before.
unfoldable pub read_references : Bool → ℕ → ℤ → Reads (List (ℤ × ℕ))
unfolding read_reference
read_references future zero previous bs = ([], bs)
read_references future (suc count) previous bs =
    read_more (read_references future count) (read_reference future previous bs)

abbrev pub counts : List Reference → List (ℤ × ℕ)
counts rs = map (λ r. (r.poc, flag r.used)) rs

-- Every reference is from 1 to 32768 counts behind the one before, on its side.
abbrev pub all_in_range : Bool → ℤ → List Reference → Bool
all_in_range future previous [] = true
all_in_range future previous (r ∷ rs) =
    in_range (poc_delta future previous r.poc) && all_in_range future r.poc rs

-- The references that were written are read back, or one of them was out of range.
pub data Written (future : Bool) (previous : ℤ) (rs : List Reference) (w : BitWriter)
    : Checked BitWriter → Type 0 where
  written :
      (w' : BitWriter) (bs : List ℕ)
      → all_in_range future previous rs ≡ true
      → Appends w w' bs
      → ((rest : List ℕ)
          → read_references future (length rs) previous (bs ++ rest) ≡ (counts rs, rest))
      → Written future previous rs w (fine w')
  out_of_range :
      all_in_range future previous rs ≡ false → Written future previous rs w (refused delta_range)
