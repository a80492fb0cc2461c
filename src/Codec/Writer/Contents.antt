-- ===== src/Codec/Writer/Contents.antt =====
-- What a BitWriter holds, as a list of bits, and the invariant of its last byte.
use qualcomm_iris_vaapi.Base.{
  ℕ, zero, suc, ◌+◌, ◌-◌, ◌*◌, ◌/◌, ◌%◌, ◌^◌, ◌<◌, bit_or, ◌≡◌, sym, ap, ◌∙◌, false, List, [], ◌∷◌,
  ◌++◌, append-nil, append_assoc, arith, ◌==◌, replicate, All, IsByte, bit_or_clean, bits_msb,
  bits_msb-snoc, put_bit, put_bit_room,
}
use qualcomm_iris_vaapi.Codec.Writer.{BitWriter, empty, bit, bits, zeros}

-- The bits of whole bytes, the last byte first.
abbrev pub full : List ℕ → List ℕ
full [] = []
full (b ∷ bs) = full bs ++ bits_msb 8 b

abbrev pub contents_at : ℕ → List ℕ → List ℕ
contents_at zero rev = full rev
contents_at (suc o) [] = []
contents_at (suc o) (b ∷ bs) = full bs ++ bits_msb (suc o) (b / 2 ^ (7 - o))

-- The bits written so far, in order.
unfoldable pub contents : BitWriter → List ℕ
contents w = contents_at w.bit_offset w.rev

-- Below the offset the last byte is still clear.
abbrev Clean : ℕ → List ℕ → Type 0
Clean zero rev = Unit {0}
Clean (suc o) [] = ⊥
Clean (suc o) (b ∷ bs) = b % 2 ^ (7 - o) ≡ 0

pub record IsValid (w : BitWriter) : Type 0 where
  pub offset : w.bit_offset < 8
  pub clean : Clean w.bit_offset w.rev
  pub within : All IsByte w.rev

pub empty-IsValid : IsValid empty
empty-IsValid = record { offset = omega arith; clean = tt; within = tt }

-- One more bit at the end of the last byte, `m` being its used part afterwards.
last_bit :
    (o m k x : ℕ) (bs : List ℕ)
    → m / 2 ≡ k
    → m % 2 ≡ x
    → full bs ++ bits_msb (suc o) m ≡ (full bs ++ bits_msb o k) ++ (x ∷ [])
last_bit o m k x bs e f = rw (bits_msb-snoc, e, f, append_assoc)

record Bit (w : BitWriter) (v : ℕ) : Type 0 where
  valid : IsValid (bit w v)
  grown : contents (bit w v) ≡ contents w ++ (v % 2 ∷ [])

first : (rev : List ℕ) (v : ℕ) → All IsByte rev → Bit (record { rev = rev; bit_offset = 0 }) v
unfolding bit bits_msb contents
first rev v h = record {
  valid = record {
    offset = omega arith;
    clean = omega (arith, byte);
    within = (omega (arith, byte), h);
  };
  grown = ap (λ t. full rev ++ (t ∷ [])) (omega (arith, byte));
}
  where
    byte : bit_or 0 (v % 2 * 128) ≡ v % 2 * 128
    byte = bit_or_clean 8 0 (v % 2 * 128) (omega arith) (omega arith) ∙ omega arith

-- The offset is `suc o`, and `s` bits are clear once the next one is written.
later :
    (o s b : ℕ) (bs : List ℕ) (v : ℕ)
    → o + s ≡ 6
    → b % 2 ^ suc s ≡ 0
    → IsByte b
    → All IsByte bs
    → Bit (record { rev = b ∷ bs; bit_offset = suc o }) v
unfolding bit contents
later o zero b bs v e h hb hbs =
    let six : o ≡ 6 = omega arith in
    let (byte, used, clear) = put_bit 0 b v h in
    rw six (record {
      valid = record { offset = omega arith; clean = tt; within = (omega (arith, byte), hbs) };
      grown =
          last_bit 7 (bit_or b (v % 2 * 1)) (b / 2) (v % 2) bs (omega (arith, byte))
            (omega (arith, byte));
    })
later o (suc s) b bs v e h hb hbs =
    let next : (suc o + 1) % 8 ≡ suc (suc o) = omega arith in
    let below : 7 - suc o ≡ suc s = omega arith in
    let above : 7 - o ≡ suc (suc s) = omega arith in
    let old : (suc o == 0) ≡ false = ground arith in
    let (byte, used, clear) = put_bit (suc s) b v h in
    record {
      valid = record {
        offset = omega arith;
        clean = rw (old, next, below, byte) clear;
        within = rw (old, below, byte) (put_bit_room (suc s) b v (omega arith) h hb, hbs);
      };
      grown =
          rw (old, next, below, above, byte)
            (last_bit (suc o) ((b + v % 2 * 2 ^ suc s) / 2 ^ suc s) (b / 2 ^ suc (suc s)) (v % 2) bs
              (omega (arith, used)) (omega (arith, used)));
    }

bit_at :
    (o : ℕ) (rev : List ℕ) (v : ℕ)
    → IsValid (record { rev = rev; bit_offset = o })
    → Bit (record { rev = rev; bit_offset = o }) v
bit_at zero rev v h = first rev v h.within
bit_at (suc o) [] v h = absurd h.clean
bit_at (suc o) (b ∷ bs) v h =
    let offset : suc o < 8 = h.offset in
    let e : 7 - o ≡ suc (6 - o) = omega arith in
    later o (6 - o) b bs v (omega arith) (rw e at h.clean) h.within.0 h.within.1

-- `w'` is valid and holds what `w` holds, and `bs` behind it.
pub record Appends (w w' : BitWriter) (bs : List ℕ) : Type 0 where
  pub valid : IsValid w'
  pub grown : contents w' ≡ contents w ++ bs

pub Appends-nil : {w : BitWriter} → IsValid w → Appends w w []
Appends-nil h = record { valid = h; grown = sym (append-nil _) }

pub Appends-append :
    {w w' w'' : BitWriter} {bs cs : List ℕ}
    → Appends w w' bs
    → Appends w' w'' cs
    → Appends w w'' (bs ++ cs)
Appends-append {bs} {cs} p q = record {
  valid = q.valid;
  grown = q.grown ∙ rw (p.grown, append_assoc);
}

-- `bit` appends the lowest bit of its argument.
pub bit-Appends : (w : BitWriter) (v : ℕ) → IsValid w → Appends w (bit w v) (v % 2 ∷ [])
bit-Appends w v h =
    let r = bit_at w.bit_offset w.rev v h in record { valid = r.valid; grown = r.grown }

-- `bits` appends the low bits, most significant first.
pub bits-Appends :
    (n : ℕ) (w : BitWriter) (v : ℕ) → IsValid w → Appends w (bits w v n) (bits_msb n v)
unfolding bits bits_msb
bits-Appends zero w v h = Appends-nil h
bits-Appends (suc n) w v h =
    let one = bit-Appends w (v / 2 ^ n) h in
    Appends-append one (bits-Appends n (bit w (v / 2 ^ n)) v one.valid)

pub zeros-Appends : (n : ℕ) (w : BitWriter) → IsValid w → Appends w (zeros w n) (replicate n 0)
unfolding zeros
zeros-Appends zero w h = Appends-nil h
zeros-Appends (suc n) w h =
    let one = bit-Appends w 0 h in Appends-append one (zeros-Appends n (bit w 0) one.valid)
