-- ===== src/Codec/Writer.antt =====
-- src/codec/bitwriter.h, class BitWriter. The head of `rev` is the back of `data_`.
pub mod Contents
use qualcomm_iris_vaapi.Base.Int.{ℤ, pos, negsuc}
use qualcomm_iris_vaapi.Base.{
  ℕ, zero, suc, ◌+◌, ◌-◌, ◌*◌, ◌/◌, ◌%◌, ◌^◌, Bool, List, [], ◌∷◌, reverse, bit_or, ltb, leb, ◌==◌,
  if◌then◌else◌,
}

pub record BitWriter : Type 0 where
  pub rev : List ℕ
  pub bit_offset : ℕ

abbrev pub empty : BitWriter
empty = record { rev = []; bit_offset = 0 }

-- `data_.back() |= x`
or_back : List ℕ → ℕ → List ℕ
or_back [] x = []
or_back (b ∷ bs) x = bit_or b x ∷ bs

unfoldable pub bit : BitWriter → ℕ → BitWriter
unfolding or_back
bit w value =
    let pushed = if w.bit_offset == 0 then 0 ∷ w.rev else w.rev in
    record {
      rev = or_back pushed (value % 2 * 2 ^ (7 - w.bit_offset));
      bit_offset = (w.bit_offset + 1) % 8;
    }

-- The loop counts `i` down; a uint64_t is shifted by `i - 1`.
unfoldable pub bits : BitWriter → ℕ → ℕ → BitWriter
bits w value zero = w
bits w value (suc i) = bits (bit w (value / 2 ^ i)) value i

-- The number of rounds of `for (n = code_num; n > 0; n >>= 1)`, on fuel.
unfoldable pub bit_width_fuel : ℕ → ℕ → ℕ
bit_width_fuel zero n = 0
bit_width_fuel (suc f) n = let rest = bit_width_fuel f (n / 2) in if n == 0 then 0 else suc rest

-- The numbers are below 2 ^ 32.
abbrev pub bit_width : ℕ → ℕ
bit_width n = bit_width_fuel 32 n

unfoldable pub zeros : BitWriter → ℕ → BitWriter
zeros w zero = w
zeros w (suc n) = zeros (bit w 0) n

-- `value + 1` is a uint32_t.
unfoldable pub ue : BitWriter → ℕ → BitWriter
ue w value =
    let code_num = (value + 1) % 2 ^ 32 in
    let width = bit_width code_num in bits (zeros w (width - 1)) code_num width

-- The uint32_t that `static_cast` makes of an int32_t.
abbrev pub to_u32 : ℤ → ℕ
to_u32 (pos n) = n % 2 ^ 32
to_u32 (negsuc n) = (2 ^ 32 - 1 - n) % 2 ^ 32

unfoldable pub se : BitWriter → ℤ → BitWriter
se w (pos zero) = ue w 0
se w (pos (suc n)) = ue w (suc n * 2 - 1)
se w (negsuc n) = ue w (suc n * 2)

pub uvlc : BitWriter → ℕ → BitWriter
uvlc w value = ue w value

-- `value & ((1 << count) - 1)` is the remainder.
unfoldable pub su : BitWriter → ℤ → ℕ → BitWriter
su w value count = bits w (to_u32 value % 2 ^ count) count

-- The values stay below 2 ^ 31, so `1u << w` does not wrap.
unfoldable pub ns : BitWriter → ℕ → ℕ → BitWriter
ns w value n =
    let width = bit_width n in
    let m = 2 ^ width - n in
    if leb n 1
    then w
    else if ltb value m
    then bits w value (width - 1)
    else bits w (value + m) width

-- `bytes` rounds are left; `i` is the byte written next.
le_loop : ℕ → ℕ → BitWriter → ℕ → BitWriter
le_loop zero i w value = w
le_loop (suc left) i w value = le_loop left (i + 1) (bits w (value / 2 ^ (i * 8) % 256) 8) value

unfoldable pub le : BitWriter → ℕ → ℕ → BitWriter
unfolding le_loop
le w value count = le_loop count 0 w value

-- A uint64_t has at most ten groups of seven bits.
unfoldable pub leb128_fuel : ℕ → BitWriter → ℕ → BitWriter
leb128_fuel zero w value = w
leb128_fuel (suc f) w value =
    let byte = value % 128 in
    let next = value / 128 in
    let done = bits w byte 8 in
    let more = leb128_fuel f (bits w (bit_or byte 0x80) 8) next in if next == 0 then done else more

unfoldable pub leb128 : BitWriter → ℕ → BitWriter
unfolding leb128_fuel
leb128 w value = leb128_fuel 10 w value

-- `while (bit_offset_ != 0) bit(0);` takes at most seven rounds.
unfoldable pub pad_fuel : ℕ → BitWriter → BitWriter
pad_fuel zero w = w
pad_fuel (suc f) w = let more = pad_fuel f (bit w 0) in if w.bit_offset == 0 then w else more

unfoldable pub byte_align : BitWriter → BitWriter
unfolding pad_fuel
byte_align w = pad_fuel 8 w

unfoldable pub trailing_bits : BitWriter → BitWriter
unfolding byte_align
trailing_bits w = byte_align (bit w 1)

unfoldable pub bytes : BitWriter → List ℕ → BitWriter
bytes w [] = w
bytes w (b ∷ bs) = bytes (bits w b 8) bs

pub byte_aligned : BitWriter → Bool
byte_aligned w = w.bit_offset == 0

-- The vector, in order.
unfoldable pub written : BitWriter → List ℕ
written w = reverse w.rev
