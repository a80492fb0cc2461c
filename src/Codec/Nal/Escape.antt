-- ===== src/Codec/Nal/Escape.antt =====
-- Emulation prevention: what the writer adds the reader takes out, and no start code is left.
use qualcomm_iris_vaapi.Base.{
  ℕ, ◌+◌, ◌≤◌, ◌<◌, ◌≡◌, refl, ap, subst, ◌≢◌, List, [], ◌∷◌, ◌++◌, arith, ◌==◌, if◌then◌else◌,
  length,
}
use qualcomm_iris_vaapi.Codec.Nal.{escape_loop}
use qualcomm_iris_vaapi.Codec.Reader.{unescape_loop, reader}

unescape-escape :
    (h i z : ℕ) (bs : List ℕ) → h ≤ i → z ≤ 2 → unescape_loop h i z (escape_loop z bs) ≡ bs
unfolding unescape_loop escape_loop
unescape-escape h i z [] hi hz = refl
unescape-escape h i z (b ∷ bs) hi hz = ground (
  arith,
  unescape-escape h (i + 1) (z + 1) bs,
  unescape-escape h (i + 1) 0 bs,
  unescape-escape h (i + 1 + 1) 1 bs,
  unescape-escape h (i + 1 + 1) 0 bs,
)

-- A header is copied whatever it holds; its last byte ends the run of zeros.
unescape-header :
    (front : List ℕ) (h i z last : ℕ) (bs : List ℕ)
    → i + length front + 1 ≡ h
    → last ≢ 0
    → unescape_loop h i z (front ++ (last ∷ escape_loop 0 bs)) ≡ front ++ (last ∷ bs)
unfolding unescape_loop
unescape-header [] h i z last bs e nz =
    ground (arith, unescape-escape h (i + 1) 0 bs (omega arith) (omega arith))
unescape-header (x ∷ front) h i z last bs e nz = ground (
  arith,
  unescape-header front h (i + 1) (z + 1) last bs,
  unescape-header front h (i + 1) 0 last bs,
)

-- A reader over an escaped NAL unit whose header ends in a byte that is not zero holds the header and
-- the payload as they were before escaping, and stands at its first bit.
pub reader-escape_loop :
    (front : List ℕ) (last : ℕ) (payload : List ℕ)
    → last ≢ 0
    → reader (front ++ (last ∷ escape_loop 0 payload)) (length front + 1)
      ≡ record { held = front ++ (last ∷ payload); position = 0 }
unfolding reader
reader-escape_loop front last payload nz =
    ap (λ bs. record { held = bs; position = 0 })
      (unescape-header front (length front + 1) 0 0 last payload (omega arith) nz)

-- After two zeros or more comes a byte above 2.
abbrev Safe : ℕ → List ℕ → Type 0
Safe z [] = Unit {0}
Safe z (b ∷ bs) = (2 ≤ z → 2 < b) × Safe (if b == 0 then z + 1 else 0) bs

escape_loop-Safe : (z : ℕ) (bs : List ℕ) → z ≤ 2 → Safe z (escape_loop z bs)
unfolding escape_loop
escape_loop-Safe z [] hz = tt
escape_loop-Safe z (b ∷ bs) hz =
    ground (arith, escape_loop-Safe (z + 1) bs, escape_loop-Safe 0 bs, escape_loop-Safe 1 bs)

Safe-triple :
    (front : List ℕ) (z b : ℕ) (back : List ℕ) → Safe z (front ++ (0 ∷ 0 ∷ b ∷ back)) → 2 < b
Safe-triple [] z b back s = s.1.1.0 (omega arith)
Safe-triple (x ∷ front) z b back s = Safe-triple front _ b back s.1

-- Wherever two zero bytes stand in an escaped payload, the byte behind them is above 2: no start code
-- prefix and no other forbidden pattern is left.
pub escape_loop_safe :
    (payload front : List ℕ) (b : ℕ) (back : List ℕ)
    → escape_loop 0 payload ≡ front ++ (0 ∷ 0 ∷ b ∷ back)
    → 2 < b
escape_loop_safe payload front b back e =
    Safe-triple front 0 b back (subst (Safe 0) e (escape_loop-Safe 0 payload (omega arith)))
