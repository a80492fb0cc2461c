-- ===== src/Codec/Reader.antt =====
-- src/codec/bitwriter.h, class BitReader.
pub mod Stream
use qualcomm_iris_vaapi.Base.{
  ℕ, zero, suc, ◌+◌, ◌-◌, ◌*◌, ◌/◌, ◌%◌, ◌^◌, bit_or, Bool, ◌&&◌, List, [], ◌∷◌, ltb, leb, ◌==◌,
  if◌then◌else◌, length, get_or,
}
use qualcomm_iris_vaapi.Base.Int.{ℤ, pos, negsuc}
use qualcomm_iris_vaapi.Codec.Writer.{BitWriter}
use qualcomm_iris_vaapi.Codec.Writer

pub record BitReader : Type 0 where
  pub held : List ℕ
  pub position : ℕ

-- The loop of the constructor, from the byte at index `i` on.
unfoldable pub unescape_loop : ℕ → ℕ → ℕ → List ℕ → List ℕ
unescape_loop header_bytes i _ [] = []
unescape_loop header_bytes i zeros (byte ∷ nal) =
    let skipped = unescape_loop header_bytes (i + 1) 0 nal in
    let kept = byte ∷ unescape_loop header_bytes (i + 1) (if byte == 0 then zeros + 1 else 0) nal in
    if leb header_bytes i && zeros == 2 && byte == 3 then skipped else kept

unfoldable pub reader : List ℕ → ℕ → BitReader
unfolding unescape_loop
reader nal header_bytes = record { held = unescape_loop header_bytes 0 0 nal; position = 0 }

unfoldable pub size_bits : BitReader → ℕ
size_bits r = length r.held * 8

unfoldable pub exhausted : BitReader → Bool
unfolding size_bits
exhausted r = leb (size_bits r) r.position

unfoldable pub seek : BitReader → ℕ → BitReader
seek r at_bit = record r { position = at_bit }

unfoldable pub skip : BitReader → ℕ → BitReader
skip r count = record r { position = r.position + count }

unfoldable pub bit : BitReader → ℕ × BitReader
unfolding size_bits
bit r = (
  if leb (size_bits r) r.position
      then 0
      else get_or r.held (r.position / 8) 0 / 2 ^ (7 - r.position % 8) % 2,
  record r { position = r.position + 1 },
)

unfoldable pub bits_loop : ℕ → BitReader → ℕ → ℕ × BitReader
bits_loop zero r value = (value, r)
bits_loop (suc count) r value =
    let (b, r') = bit r in bits_loop count r' (bit_or (value * 2 % 2 ^ 32) b)

unfoldable pub bits : BitReader → ℕ → ℕ × BitReader
unfolding bits_loop
bits r count = bits_loop count r 0

-- `while (!bit() && zeros < 32) ++zeros;` reads at most 33 bits.
unfoldable pub zeros_loop : ℕ → BitReader → ℕ → ℕ × BitReader
zeros_loop zero r zeros = (zeros, r)
zeros_loop (suc f) r zeros =
    let (b, r') = bit r in
    let more = zeros_loop f r' (zeros + 1) in if b == 0 && ltb zeros 32 then more else (zeros, r')

unfoldable pub ue : BitReader → ℕ × BitReader
ue r =
    let (zeros, r') = zeros_loop 33 r 0 in
    let (low, r'') = bits r' zeros in ((2 ^ zeros - 1 + low) % 2 ^ 32, r'')

-- `-static_cast<int32_t>(code / 2)`
abbrev pub negate : ℕ → ℤ
negate zero = pos 0
negate (suc n) = negsuc n

unfoldable pub se : BitReader → ℤ × BitReader
se r =
    let (code, r') = ue r in
    (if code % 2 == 1 then pos ((code + 1) % 2 ^ 32 / 2) else negate (code / 2), r')

-- One round for each position up to `end_bit` at most.
unfoldable pub copy_fuel : ℕ → BitReader → BitWriter → ℕ → BitReader × BitWriter
copy_fuel zero r w end_bit = (r, w)
copy_fuel (suc f) r w end_bit =
    let (b, r') = bit r in
    let more = copy_fuel f r' (Writer.bit w b) end_bit in
    if ltb r.position end_bit && ltb r.position (size_bits r) then more else (r, w)

unfoldable pub copy : BitReader → BitWriter → ℕ → BitReader × BitWriter
unfolding copy_fuel
copy r w end_bit = copy_fuel (end_bit - r.position) r w end_bit
