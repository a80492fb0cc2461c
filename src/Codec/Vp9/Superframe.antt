-- ===== src/Codec/Vp9/Superframe.antt =====
-- The superframes of src/codec/vp9.cc against the superframe index of VP9.
use qualcomm_iris_vaapi.Base.{
  ℕ, zero, suc, ◌+◌, ◌-◌, ◌*◌, ◌/◌, ◌%◌, ◌^◌, ◌<◌, ◌≡◌, refl, sym, ◌∙◌, inl, inr, true, List, [],
  ◌∷◌, ◌++◌, append_assoc, length, length-append, drop, get_or, ◌==◌, leb, if◌then◌else◌,
  Bool-cases, arith,
}
use native.Mathlib.Nat.{mod-eq_of_lt}
use qualcomm_iris_vaapi.Codec.Av1.Unit.{take}
use qualcomm_iris_vaapi.Codec.Av1.Unit.Framing.{take-append, drop-append}
use qualcomm_iris_vaapi.Codec.Vp9.{
  magnitude_from, magnitude_of, size_bytes, marker_byte, show_byte, superframe,
}

-- A number of `left` bytes, the lowest first.
abbrev pub read_size : ℕ → List ℕ → ℕ
read_size zero bs = 0
read_size (suc left) bs = get_or bs 0 0 + 256 * read_size left (drop 1 bs)

-- The frames that the sizes of the index cut off.
abbrev pub cut : ℕ → ℕ → List ℕ → List ℕ → List (List ℕ)
cut magnitude zero index bs = []
cut magnitude (suc count) index bs =
    let size = read_size magnitude index in
    take size bs ∷ cut magnitude count (drop magnitude index) (drop size bs)

-- The index behind its first byte, if it has the same byte at both ends.
abbrev pub cut_by : ℕ → ℕ → List ℕ → List ℕ → List (List ℕ)
cut_by marker magnitude index bs =
    if get_or index 0 0 == marker then cut magnitude (marker % 8 + 1) (drop 1 index) bs else bs ∷ []

-- The last byte tells whether there is an index, how many frames it has, and the bytes of a size.
abbrev pub read_superframe : List ℕ → List (List ℕ)
read_superframe bs =
    let marker = get_or bs (length bs - 1) 0 in
    let magnitude = marker / 8 % 4 + 1 in
    let start = length bs - (2 + magnitude * (marker % 8 + 1)) in
    if marker / 32 == 6 then cut_by marker magnitude (drop start bs) bs else bs ∷ []

get_or-append : (xs ys : List ℕ) (i : ℕ) → get_or (xs ++ ys) (length xs + i) 0 ≡ get_or ys i 0
get_or-append [] ys i = let same : 0 + i ≡ i = omega arith in rw same refl
get_or-append (x ∷ xs) ys i =
    let same : suc (length xs) + i ≡ suc (length xs + i) = omega arith in
    rw same (get_or-append xs ys i)

-- The index for a number of bytes, behind the frames.
abbrev index_of : ℕ → ℕ → List ℕ
index_of magnitude size =
    marker_byte magnitude
    ∷ (size_bytes magnitude 0 size ++ (size_bytes magnitude 0 1 ++ (marker_byte magnitude ∷ [])))

record Indexed (magnitude size : ℕ) : Type 0 where
  marker :
      (marker_byte magnitude / 8 % 4 + 1 ≡ magnitude)
      × (marker_byte magnitude % 8 ≡ 1)
      × (marker_byte magnitude / 32 ≡ 6)
  whole : length (index_of magnitude size) ≡ 2 + magnitude * 2
  last : get_or (index_of magnitude size) (1 + magnitude * 2) 0 ≡ marker_byte magnitude
  first_size : read_size magnitude (drop 1 (index_of magnitude size)) ≡ size
  second_size : read_size magnitude (drop magnitude (drop 1 (index_of magnitude size))) ≡ 1

one_byte-Indexed : (size : ℕ) → size < 2 ^ 8 → Indexed 1 size
unfolding size_bytes
one_byte-Indexed size h = record {
  marker = (refl, refl, refl);
  whole = refl;
  last = refl;
  first_size = omega arith;
  second_size = refl;
}

two_bytes-Indexed : (size : ℕ) → size < 2 ^ 16 → Indexed 2 size
unfolding size_bytes
two_bytes-Indexed size h = record {
  marker = (refl, refl, refl);
  whole = refl;
  last = refl;
  first_size = omega arith;
  second_size = refl;
}

three_bytes-Indexed : (size : ℕ) → size < 2 ^ 24 → Indexed 3 size
unfolding size_bytes
three_bytes-Indexed size h = record {
  marker = (refl, refl, refl);
  whole = refl;
  last = refl;
  first_size = omega arith;
  second_size = refl;
}

four_bytes-Indexed : (size : ℕ) → size < 2 ^ 32 → Indexed 4 size
unfolding size_bytes
four_bytes-Indexed size h = record {
  marker = (refl, refl, refl);
  whole = refl;
  last = refl;
  first_size = omega arith;
  second_size = refl;
}

-- The magnitude is enough for a size of 32 bits.
magnitude_of-Indexed : (size : ℕ) → size < 2 ^ 32 → Indexed (magnitude_of size) size
unfolding magnitude_from
magnitude_of-Indexed size h = elim (Bool-cases (leb (2 ^ 8) size)) [
  | inr one ↦ rw one (one_byte-Indexed size (ground (arith, one)))
  | inl more ↦ elim (Bool-cases (leb (2 ^ 16) size)) [
    | inr two ↦ rw (more, two) (two_bytes-Indexed size (ground (arith, two)))
    | inl most ↦ elim (Bool-cases (leb (2 ^ 24) size)) [
      | inr three ↦ rw (more, most, three) (three_bytes-Indexed size (ground (arith, three)))
      | inl four ↦ rw (more, most, four) (four_bytes-Indexed size h)
    ]
  ]
]

length-behind :
    (bytes index : List ℕ) (show m : ℕ)
    → length index ≡ 2 + m * 2
    → length (bytes ++ (show ∷ index)) ≡ length bytes + 1 + (2 + m * 2)
length-behind bytes index show m e = omega (arith, length-append bytes (show ∷ index), e)

-- Any index that says this splits the frame from what is displayed.
splits :
    (bytes index : List ℕ) (show m marker : ℕ)
    → get_or (bytes ++ (show ∷ index)) (length (bytes ++ (show ∷ index)) - 1) 0 ≡ marker
    → drop (length (bytes ++ (show ∷ index)) - (2 + m * 2)) (bytes ++ (show ∷ index)) ≡ index
    → (marker / 8 % 4 + 1 ≡ m) × (marker % 8 ≡ 1) × (marker / 32 ≡ 6)
    → get_or index 0 0 ≡ marker
    → read_size m (drop 1 index) ≡ length bytes
    → read_size m (drop m (drop 1 index)) ≡ 1
    → read_superframe (bytes ++ (show ∷ index)) ≡ bytes ∷ (show ∷ []) ∷ []
splits bytes index show m marker last start (width, count, tag) first one two =
    rw
      (
        last,
        tag,
        width,
        count,
        start,
        first,
        marker_twice marker,
        one,
        take-append bytes (show ∷ index),
        drop-append bytes (show ∷ index),
        two,
      )
      refl
  where
    marker_twice : (n : ℕ) → (n == n) ≡ true
    marker_twice n = ground arith

-- A frame of fewer than 2 ^ 32 bytes and the header that displays a slot, as a superframe, split by the index at its end into the frame and the header.
pub read_superframe-superframe :
    (bytes : List ℕ) (raw_profile slot : ℕ)
    → length bytes < 2 ^ 32
    → read_superframe (superframe bytes raw_profile slot)
      ≡ bytes ∷ (show_byte raw_profile slot ∷ []) ∷ []
unfolding superframe
read_superframe-superframe bytes raw_profile slot h =
    let size = length bytes in
    let m = magnitude_of size in
    let index = index_of m size in
    let show = show_byte raw_profile slot in
    let fact = magnitude_of-Indexed size h in
    let small : size % 2 ^ 32 ≡ size = mod-eq_of_lt h in
    let total = length-behind bytes index show m fact.whole in
    let whole = bytes ++ (show ∷ index) in
    let marker : get_or whole (length whole - 1) 0 ≡ marker_byte m =
      let at_end : length whole - 1 ≡ length bytes + suc (1 + m * 2) = omega (arith, total) in
      rw at_end (get_or-append bytes (show ∷ index) (suc (1 + m * 2)) ∙ fact.last) in
    let found : drop (length whole - (2 + m * 2)) whole ≡ index =
      let start : length whole - (2 + m * 2) ≡ length (bytes ++ (show ∷ [])) =
        omega (arith, total, length-append bytes (show ∷ [])) in
      rw (start, sym (append_assoc bytes (show ∷ []) index))
        (drop-append (bytes ++ (show ∷ [])) index) in
    rw small (
      splits bytes index show m (marker_byte m) marker found fact.marker refl fact.first_size
        fact.second_size)
