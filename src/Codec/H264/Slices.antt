-- ===== src/Codec/H264/Slices.antt =====
-- The search of src/codec/h264.cc for an IDR NAL unit.
use qualcomm_iris_vaapi.Base.{
  ℕ, zero, suc, ◌+◌, ◌<◌, ◌≤◌, ◌==◌, ◌&&◌, false, ◌%◌, ◌≡◌, refl, ap, true, Bool-cases, inl, inr,
  List, length, arith, ltb, some,
}
use qualcomm_iris_vaapi.Codec.H264.Translation.{
  byte_at, start_at, is_idr, next_of, idr_loop, contains_idr,
}

-- A start code with its zeros and its one, and behind it inside the access unit the first byte of an IDR
-- NAL unit.
pub record IdrAt (au : List ℕ) : Type 0 where
  pub index : ℕ
  pub first : byte_at au index ≡ 0
  pub second : byte_at au (index + 1) ≡ 0
  pub third : byte_at au (index + 2) ≡ 1
  pub inside : index + 3 < length au
  pub idr : byte_at au (index + 3) % 32 ≡ 5

-- Where the test of the code finds an IDR NAL unit behind a start code of three or four bytes.
idr_found : (au : List ℕ) (i : ℕ) → is_idr au (start_at au i) ≡ true → IdrAt au
idr_found au i h =
    elim (Bool-cases (byte_at au i == 0 && byte_at au (i + 1) == 0 && byte_at au (i + 2) == 1)) [
      | inl short ↦
          let found = rw short at h in
          record {
            index = i;
            first = ground (arith, short);
            second = ground (arith, short);
            third = ground (arith, short);
            inside = ground (arith, found);
            idr = ground (arith, found);
          }
      | inr other ↦
          elim (Bool-cases (
            ltb (i + 4) (length au)
            && byte_at au i == 0
            && byte_at au (i + 1) == 0
            && byte_at au (i + 2) == 0
            && byte_at au (i + 3) == 1)) [
              | inl long ↦
                  let found = rw (other, long) at h in
                  let two : i + 1 + 1 ≡ i + 2 = omega arith in
                  let three : i + 1 + 2 ≡ i + 3 = omega arith in
                  let four : i + 1 + 3 ≡ i + 4 = omega arith in
                  record {
                    index = i + 1;
                    first = ground (arith, long);
                    second = rw two (ground (arith, long));
                    third = rw three (ground (arith, long));
                    inside = rw four (ground (arith, found));
                    idr = rw four (ground (arith, found));
                  }
              | inr none_here ↦ cc (rw (other, none_here) at h)
            ]
    ]

idr_loop-IdrAt : (f i : ℕ) (au : List ℕ) → idr_loop f au i ≡ true → IdrAt au
unfolding idr_loop
idr_loop-IdrAt zero i au h = cc
idr_loop-IdrAt (suc f) i au h = elim (Bool-cases (ltb (i + 3) (length au))) [
  | inl room ↦ elim (Bool-cases (is_idr au (start_at au i))) [
    | inl idr ↦ idr_found au i idr
    | inr other ↦ idr_loop-IdrAt f (next_of i (start_at au i)) au (rw (room, other) at h)
  ]
  | inr over ↦ cc (rw over at h)
]

-- At the place of an IDR NAL unit the test of the code finds it.
hit_there : (au : List ℕ) (h : IdrAt au) → is_idr au (start_at au h.index) ≡ true
hit_there au h = rw (h.first, h.second, h.third, h.idr) (ground (arith, h.inside))

clash : (au : List ℕ) (a b : ℕ) → a ≡ b → byte_at au a ≡ 0 → byte_at au b ≡ 1 → ⊥
clash au a b e zero_there one_there = ground (arith, ap (byte_at au) e, zero_there, one_there)

-- The search does not jump over an IDR NAL unit.
not_skipped :
    (au : List ℕ) (i : ℕ) (h : IdrAt au)
    → i ≤ h.index
    → is_idr au (start_at au i) ≡ false
    → next_of i (start_at au i) ≤ h.index
not_skipped au i h le miss =
    let apart : h.index ≡ i → ⊥ = (λ e. absurd (cc (rw e at (hit_there au h), miss))) in
    elim (Bool-cases (byte_at au i == 0 && byte_at au (i + 1) == 0 && byte_at au (i + 2) == 1)) [
      | inl short ↦
          let one : byte_at au (i + 2) ≡ 1 = ground (arith, short) in
          let next : h.index ≡ i + 1 → ⊥ =
            λ e. clash au (h.index + 1) (i + 2) (omega (arith, e)) h.second one in
          let last : h.index ≡ i + 2 → ⊥ = λ e. clash au h.index (i + 2) e h.first one in
          rw short (omega (arith, le, apart, next, last))
      | inr other ↦
          elim (Bool-cases (
            ltb (i + 4) (length au)
            && byte_at au i == 0
            && byte_at au (i + 1) == 0
            && byte_at au (i + 2) == 0
            && byte_at au (i + 3) == 1)) [
              | inl long ↦
                  let one : byte_at au (i + 3) ≡ 1 = ground (arith, long) in
                  let missed : is_idr au (some (i + 4)) ≡ false = rw (other, long) at miss in
                  let within : h.index ≡ i + 1 → ⊥ = λ e.
                    let place : h.index + 3 ≡ i + 4 = omega (arith, e) in
                    let there : i + 4 < length au = rw place at h.inside in
                    let five : byte_at au (i + 4) % 32 ≡ 5 = rw place at h.idr in
                    ground (arith, missed, there, five) in
                  let next : h.index ≡ i + 2 → ⊥ =
                    λ e. clash au (h.index + 1) (i + 3) (omega (arith, e)) h.second one in
                  let last : h.index ≡ i + 3 → ⊥ = λ e. clash au h.index (i + 3) e h.first one in
                  rw (other, long) (omega (arith, le, apart, within, next, last))
              | inr none_here ↦ rw (other, none_here) (omega (arith, le, apart))
            ]
    ]

next_of_le : (au : List ℕ) (i : ℕ) → i + 1 ≤ next_of i (start_at au i)
next_of_le au i = ground arith

idr_loop-found :
    (f i : ℕ) (au : List ℕ) (h : IdrAt au) → i ≤ h.index → h.index < i + f → idr_loop f au i ≡ true
unfolding idr_loop
idr_loop-found zero i au h le enough = absurd (omega arith)
idr_loop-found (suc f) i au h le enough =
    let room : ltb (i + 3) (length au) ≡ true = ground (arith, h.inside, le) in
    elim (Bool-cases (is_idr au (start_at au i))) [
      | inl idr ↦ rw (room, idr) refl
      | inr other ↦
          rw (room, other)
            (idr_loop-found f (next_of i (start_at au i)) au h (not_skipped au i h le other)
              (omega (arith, next_of_le au i, enough)))
    ]

-- An access unit is taken for one with an IDR NAL unit exactly if it has one: two zeros and a one, and behind them inside the access unit a byte of NAL unit type 5.
pub contains_idr-IdrAt :
    (au : List ℕ) → (contains_idr au ≡ true → IdrAt au) × (IdrAt au → contains_idr au ≡ true)
unfolding contains_idr
contains_idr-IdrAt au = (
  idr_loop-IdrAt (length au) 0 au,
  λ h. idr_loop-found (length au) 0 au h (omega arith) (omega (arith, h.inside)),
)
