-- ===== src/Codec/Vp9/Refresh.antt =====
-- Where src/codec/vp9.cc finds the refresh flags of a frame.
use qualcomm_iris_vaapi.Base.{
  ℕ, zero, suc, ◌+◌, ◌*◌, ◌/◌, ◌%◌, ◌^◌, ◌-◌, ◌<◌, ◌≡◌, refl, ap, ap₂, ◌∙◌, inl, inr, Bool, true,
  false, not, ◌&&◌, bit_or, if◌then◌else◌, get_or, List, length, ltb, ◌==◌, ==_iff, Bool-cases,
  arith,
}
use native.Mathlib.Nat.{pow-suc}
use qualcomm_iris_vaapi.Codec.Syntax.{on}
use qualcomm_iris_vaapi.Codec.Vp9.{
  FrameParameters, Scanned, scanned, thrown, Rejection, Scan, ◌>>=◌, go_on, pure, require, bit,
  when, bits_from, bits, Header, scan_header, scan_color, scan_intra, scan_coded_refresh,
  scan_refresh,
}

-- The bit at a position of the frame, and the number of the `left` bits from there, behind `value`.
abbrev pub bit_at : List ℕ → ℕ → ℕ
bit_at bytes place = get_or bytes (place / 8) 0 / 2 ^ (7 - place % 8) % 2

abbrev pub number_at : List ℕ → ℕ → ℕ → ℕ → ℕ
number_at bytes place zero value = value
number_at bytes place (suc left) value =
    number_at bytes (place + 1) left (value * 2 + bit_at bytes place)

-- How many bits are between intra_only and the refresh flags.
abbrev pub reset_bits : ℕ → ℕ
reset_bits resilient = if on resilient then 0 else 2

abbrev pub color_bits : ℕ → ℕ
color_bits profile = if on profile then 5 else 0

abbrev pub intra_bits : ℕ → ℕ → ℕ
intra_bits intra_only profile = if on intra_only then 24 + color_bits profile else 0

-- The profile 3 has a reserved bit more.
abbrev pub reserved_bits : ℕ → ℕ
reserved_bits profile = if profile == 3 then 1 else 0

-- refresh_frame_flags of the uncompressed header by its places: two bits of marker, two of profile, the
-- reserved bit, show_existing_frame, then frame_type, show_frame, error_resilient_mode and intra_only. A key frame
-- refreshes all slots.
abbrev pub refresh_flags : ℕ → List ℕ → ℕ
refresh_flags profile bytes =
    let place = 8 + reserved_bits profile in
    let reset = reset_bits (bit_at bytes (7 + reserved_bits profile)) in
    let intra = intra_bits (bit_at bytes place) profile in
    if on (bit_at bytes (5 + reserved_bits profile))
    then number_at bytes (place + 1 + reset + intra) 8 0
    else 0xff

number_at_lt :
    (n : ℕ) (bytes : List ℕ) (place value : ℕ) → number_at bytes place n value < (value + 1) * 2 ^ n
number_at_lt zero bytes place value = omega arith
number_at_lt (suc n) bytes place value =
    let b = bit_at bytes place in
    let small : b < 2 = omega arith in
    widen b (number_at bytes (place + 1) n (value * 2 + b)) small
      (number_at_lt n bytes (place + 1) (value * 2 + b))
  where
    widen : (b a : ℕ) → b < 2 → a < (value * 2 + b + 1) * 2 ^ n → a < (value + 1) * 2 ^ suc n
    widen zero a small h = grind (arith, h, pow-suc 2 n)
    widen (suc zero) a small h = grind (arith, h, pow-suc 2 n)
    widen (suc (suc b)) a small h = absurd (omega arith)

-- What is read, and the position behind it, satisfy `P`, unless the read throws.
abbrev pub EnsuresAt : {A : Type 0} → (A → ℕ → Type 0) → Scanned A → Type 0
EnsuresAt P (scanned a pos) = P a pos
EnsuresAt P (thrown r) = Unit {0}

abbrev pub Ensures : {A : Type 0} → (A → Type 0) → Scanned A → Type 0
Ensures P r = EnsuresAt (λ a pos. P a) r

pub bind-EnsuresAt :
    {A B : Type 0} (P : A → ℕ → Type 0) (Q : B → ℕ → Type 0) (m : Scan A) (f : A → Scan B)
    (bytes : List ℕ) (pos : ℕ)
    → EnsuresAt P (m bytes pos)
    → ((a : A) (behind : ℕ) → P a behind → EnsuresAt Q (f a bytes behind))
    → EnsuresAt Q ((m >>= f) bytes pos)
unfolding ◌>>=◌
bind-EnsuresAt P Q m f bytes pos first rest = cases (m bytes pos) first
  where
    cases : (r : Scanned _) → EnsuresAt P r → EnsuresAt Q (go_on f bytes r)
    cases (scanned a behind) h = rest a behind h
    cases (thrown r) h = tt

-- A step that moves by `n` bits.
abbrev pub Moves : {A : Type 0} → ℕ → ℕ → Scanned A → Type 0
Moves pos n r = EnsuresAt (λ a behind. behind ≡ pos + n) r

abbrev pub BitAt : List ℕ → ℕ → ℕ → ℕ → Type 0
BitAt bytes pos b behind = (b ≡ bit_at bytes pos) × (behind ≡ pos + 1)

abbrev pub NumberAt : List ℕ → ℕ → ℕ → ℕ → ℕ → ℕ → Type 0
NumberAt bytes pos n value a behind = (a ≡ number_at bytes pos n value) × (behind ≡ pos + n)

abbrev pub Passes : Bool → ℕ → Unit {0} → ℕ → Type 0
Passes c pos ok behind = (c ≡ true) × (behind ≡ pos)

bit-At : (bytes : List ℕ) (pos : ℕ) → EnsuresAt (BitAt bytes pos) (bit bytes pos)
unfolding bit
bit-At bytes pos = elim (Bool-cases (ltb pos (length bytes * 8))) [
  | inl inside ↦ rw inside (refl, refl)
  | inr outside ↦ rw outside tt
]

bits_from-At :
    (n value : ℕ) (bytes : List ℕ) (pos : ℕ)
    → EnsuresAt (NumberAt bytes pos n value) (bits_from n value bytes pos)
unfolding bits_from pure
bits_from-At zero value bytes pos = (refl, omega arith)
bits_from-At (suc n) value bytes pos =
    bind-EnsuresAt (BitAt bytes pos) (NumberAt bytes pos (suc n) value) bit _ bytes pos
      (bit-At bytes pos)
      (λ b behind (read, next).
        shifted b behind read next (bits_from n (value * 2 + b) bytes behind)
          (bits_from-At n (value * 2 + b) bytes behind))
  where
    shifted :
        (b behind : ℕ)
        → b ≡ bit_at bytes pos
        → behind ≡ pos + 1
        → (r : Scanned ℕ) → EnsuresAt (NumberAt bytes behind n (value * 2 + b)) r
        → EnsuresAt (NumberAt bytes pos (suc n) value) r
    shifted b behind read next (thrown r) h = tt
    shifted b behind read next (scanned a p) h =
        (h.0 ∙ ap₂ (λ q x. number_at bytes q n (value * 2 + x)) next read, omega (arith, h.1, next))

bits-At : (n : ℕ) (bytes : List ℕ) (pos : ℕ) → EnsuresAt (NumberAt bytes pos n 0) (bits n bytes pos)
unfolding bits
bits-At n bytes pos = bits_from-At n 0 bytes pos

pub require-At :
    (c : Bool) (r : Rejection) (bytes : List ℕ) (pos : ℕ)
    → EnsuresAt (Passes c pos) (require c r bytes pos)
unfolding require
require-At true r bytes pos = (refl, refl)
require-At false r bytes pos = tt

-- The header agrees with the parameters and with the bits of the frame, and ends in front of intra_only.
pub record Agrees (expected_profile : ℕ) (p : FrameParameters) (bytes : List ℕ) (h : Header)
    (behind : ℕ) : Type 0 where
  pub profile : h.raw_profile ≡ expected_profile
  pub frame_type : h.frame_type ≡ p.frame_type
  pub show_frame : h.show_frame ≡ p.show_frame
  pub coded_type : h.frame_type ≡ bit_at bytes (5 + reserved_bits expected_profile)
  pub resilient : h.error_resilient ≡ bit_at bytes (7 + reserved_bits expected_profile)
  pub place : behind ≡ 8 + reserved_bits expected_profile

both-true : (a b : Bool) → a && b ≡ true → (a ≡ true) × (b ≡ true)
both-true true b e = (refl, e)
both-true false b e = absurd (ground (arith, e))

pub equal : (a b : ℕ) → (a == b) ≡ true → a ≡ b
equal a b e = (==_iff a b).0 e

reserved-At :
    (profile : ℕ) (bytes : List ℕ) (pos : ℕ)
    → Moves pos
        (reserved_bits profile)
        (when (profile == 3) (bit >>= λ reserved. pure tt) bytes pos)
unfolding pure
reserved-At profile bytes pos = elim (Bool-cases (profile == 3)) [
  | inl three ↦ rw three (
      bind-EnsuresAt (BitAt bytes pos) (λ a behind. behind ≡ pos + 1) bit _ bytes pos
        (bit-At bytes pos) (λ b behind h. h.1))
  | inr other ↦ rw other (omega arith)
]

pub scan_header-At :
    (expected_profile : ℕ) (p : FrameParameters) (bytes : List ℕ)
    → EnsuresAt (Agrees expected_profile p bytes) (scan_header expected_profile p bytes 0)
unfolding scan_header pure
scan_header-At expected_profile p bytes =
    let Q = Agrees expected_profile p bytes in
    bind-EnsuresAt _ Q _ _ bytes 0 (bits-At 2 bytes 0) (λ marker b0 e0.
      bind-EnsuresAt _ Q _ _ bytes b0 (bit-At bytes b0) (λ low b1 e1.
        bind-EnsuresAt _ Q _ _ bytes b1 (bit-At bytes b1) (λ high b2 e2.
          bind-EnsuresAt _ Q _ _ bytes b2 (require-At _ _ bytes b2) (λ ok b3 e3.
            bind-EnsuresAt _ Q _ _ bytes b3 (reserved-At (bit_or low (high * 2)) bytes b3)
              (λ ok b4 e4. bind-EnsuresAt _ Q _ _ bytes b4 (bit-At bytes b4) (λ existing b5 e5.
                bind-EnsuresAt _ Q _ _ bytes b5 (require-At _ _ bytes b5) (λ ok b6 e6.
                  bind-EnsuresAt _ Q _ _ bytes b6 (bit-At bytes b6) (λ frame_type b7 e7.
                    bind-EnsuresAt _ Q _ _ bytes b7 (bit-At bytes b7) (λ show_frame b8 e8.
                      bind-EnsuresAt _ Q _ _ bytes b8 (bit-At bytes b8) (λ resilient b9 e9.
                        bind-EnsuresAt _ Q _ _ bytes b9 (require-At _ _ bytes b9) (λ ok b10 e10.
                          let raw = equal _ _ (both-true _ _ e3.0).1 in
                          let more : b4 ≡ b3 + reserved_bits expected_profile =
                            e4 ∙ ap (λ n. b3 + reserved_bits n) raw in
                          let start : b6 ≡ 5 + reserved_bits expected_profile =
                            omega (arith, e0.1, e1.1, e2.1, e3.1, more, e5.1, e6.1) in
                          let last : b8 ≡ 7 + reserved_bits expected_profile =
                            omega (arith, start, e7.1, e8.1) in
                          record {
                            profile = raw;
                            frame_type = equal _ _ (both-true _ _ (both-true _ _ e10.0).0).0;
                            show_frame = equal _ _ (both-true _ _ (both-true _ _ e10.0).0).1;
                            coded_type = e7.0 ∙ ap (bit_at bytes) start;
                            resilient = e9.0 ∙ ap (bit_at bytes) last;
                            place = omega (arith, last, e9.1, e10.1);
                          })))))))))))

reset-At :
    (h : Header) (bytes : List ℕ) (pos : ℕ)
    → Moves pos
        (reset_bits h.error_resilient)
        (when (not (on h.error_resilient)) (bits 2 >>= λ reset. pure tt) bytes pos)
unfolding pure
reset-At h bytes pos = elim (Bool-cases (on h.error_resilient)) [
  | inl resilient ↦ rw resilient (omega arith)
  | inr other ↦ rw other (
      bind-EnsuresAt (NumberAt bytes pos 2 0) (λ a behind. behind ≡ pos + 2) (bits 2) _ bytes pos
        (bits-At 2 bytes pos) (λ b behind h. h.1))
]

scan_color-At : (bytes : List ℕ) (pos : ℕ) → Moves pos 5 (scan_color bytes pos)
unfolding scan_color pure
scan_color-At bytes pos =
    let Q = λ (a : Unit {0}) (behind : ℕ). behind ≡ pos + 5 in
    bind-EnsuresAt _ Q _ _ bytes pos (bit-At bytes pos) (λ deep b0 e0.
      bind-EnsuresAt _ Q _ _ bytes b0 (require-At _ _ bytes b0) (λ ok b1 e1.
        bind-EnsuresAt _ Q _ _ bytes b1 (bits-At 3 bytes b1) (λ space b2 e2.
          bind-EnsuresAt _ Q _ _ bytes b2 (require-At _ _ bytes b2) (λ ok b3 e3.
            bind-EnsuresAt _ Q _ _ bytes b3 (bit-At bytes b3)
              (λ range b4 e4. omega (arith, e0.1, e1.1, e2.1, e3.1, e4.1))))))

color-At :
    (profile : ℕ) (bytes : List ℕ) (pos : ℕ)
    → Moves pos (color_bits profile) (when (on profile) scan_color bytes pos)
unfolding pure
color-At profile bytes pos = elim (Bool-cases (on profile)) [
  | inl colored ↦ rw colored (scan_color-At bytes pos)
  | inr plain ↦ rw plain (omega arith)
]

intra-At :
    (intra_only : ℕ) (h : Header) (bytes : List ℕ) (pos : ℕ)
    → Moves pos
        (intra_bits intra_only h.raw_profile)
        (when (on intra_only) (scan_intra h) bytes pos)
unfolding pure scan_intra
intra-At intra_only h bytes pos = elim (Bool-cases (on intra_only)) [
  | inl intra ↦
      let Q = λ (a : Unit {0}) (behind : ℕ). behind ≡ pos + (24 + color_bits h.raw_profile) in
      rw intra (
        bind-EnsuresAt _ Q _ _ bytes pos (bits-At 24 bytes pos) (λ sync b0 e0.
          bind-EnsuresAt _ Q _ _ bytes b0 (require-At _ _ bytes b0) (λ ok b1 e1.
            moved b1 (omega (arith, e0.1, e1.1)) (when (on h.raw_profile) scan_color bytes b1)
              (color-At h.raw_profile bytes b1))))
  | inr inter ↦ rw inter (omega arith)
]
  where
    moved :
        (b : ℕ)
        → b ≡ pos + 24
        → (r : Scanned (Unit {0})) → Moves b (color_bits h.raw_profile) r
        → Moves pos (24 + color_bits h.raw_profile) r
    moved b e (thrown x) k = tt
    moved b e (scanned a p) k = omega (arith, e, k)

same_offset :
    {a a' b b' c c' d d' : ℕ}
    → a ≡ a'
    → b ≡ b'
    → c ≡ c'
    → d ≡ d'
    → a + 1 + reset_bits b + intra_bits c d ≡ a' + 1 + reset_bits b' + intra_bits c' d'
same_offset e f g h = rw (e, f, g, h) refl

-- The flags that are read are those of the frame.
pub scan_refresh-At :
    (expected_profile : ℕ) (p : FrameParameters) (h : Header) (bytes : List ℕ) (pos : ℕ)
    → Agrees expected_profile p bytes h pos
    → EnsuresAt
        (λ r behind. (r < 2 ^ 8) × (r ≡ refresh_flags expected_profile bytes))
        (scan_refresh h bytes pos)
unfolding scan_refresh scan_coded_refresh pure
scan_refresh-At expected_profile p h bytes pos agrees =
    let Q = λ (r behind : ℕ). (r < 2 ^ 8) × (r ≡ refresh_flags expected_profile bytes) in
    elim (Bool-cases (on h.frame_type)) [
      | inl inter ↦ rw inter (
          bind-EnsuresAt _ Q _ _ bytes pos (bit-At bytes pos) (λ intra_only b0 e0.
            bind-EnsuresAt _ Q _ _ bytes b0 (reset-At h bytes b0) (λ ok b1 e1.
              bind-EnsuresAt _ Q _ _ bytes b1 (intra-At intra_only h bytes b1) (λ ok b2 e2.
                read intra_only b2 inter e0.0 (omega (arith, e0.1, e1, e2)) (bits 8 bytes b2)
                  (bits-At 8 bytes b2)))))
      | inr key ↦
          let coded : on (bit_at bytes (5 + reserved_bits expected_profile)) ≡ false =
            rw agrees.coded_type at key in
          rw key (omega arith, rw coded refl)
    ]
  where
    read :
        (intra_only b : ℕ)
        → on h.frame_type ≡ true
        → intra_only ≡ bit_at bytes pos
        → b ≡ pos + 1 + reset_bits h.error_resilient + intra_bits intra_only h.raw_profile
        → (r : Scanned ℕ) → EnsuresAt (NumberAt bytes b 8 0) r
        → EnsuresAt (λ r behind. (r < 2 ^ 8) × (r ≡ refresh_flags expected_profile bytes)) r
    read intra_only b inter e place (thrown x) k = tt
    read intra_only b inter e place (scanned a next) k =
        let coded : on (bit_at bytes (5 + reserved_bits expected_profile)) ≡ true =
          rw agrees.coded_type at inter in
        let bound = number_at_lt 8 bytes b 0 in
        let there : b
            ≡ 8
              + reserved_bits expected_profile
              + 1
              + reset_bits (bit_at bytes (7 + reserved_bits expected_profile))
              + intra_bits (bit_at bytes (8 + reserved_bits expected_profile)) expected_profile =
          place
          ∙ same_offset agrees.place agrees.resilient (e ∙ ap (bit_at bytes) agrees.place)
              agrees.profile in
        (omega (arith, k.0, bound), rw coded (k.0 ∙ ap (λ q. number_at bytes q 8 0) there))
