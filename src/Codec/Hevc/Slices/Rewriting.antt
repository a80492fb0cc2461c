-- ===== src/Codec/Hevc/Slices/Rewriting.antt =====
-- src/codec/hevc.cc, rewrite_slice: the rest of the header, the data, and the slice as a whole.
use qualcomm_iris_vaapi.Base.{
  ℕ, zero, suc, ◌+◌, ◌-◌, ◌*◌, ◌/◌, ◌%◌, ◌^◌, Bool, false, not, ◌&&◌, List, [], ◌∷◌, ltb, leb, ◌==◌,
  if◌then◌else◌, length, get_or,
}
use qualcomm_iris_vaapi.Codec.Writer.{BitWriter, empty, trailing_bits}
use qualcomm_iris_vaapi.Codec.Reader.{BitReader, reader, size_bits}
use qualcomm_iris_vaapi.Codec.Reader
use qualcomm_iris_vaapi.Codec.Nal.{append_escaped_nal}
use qualcomm_iris_vaapi.Codec.Syntax.{on}
use qualcomm_iris_vaapi.Codec.Hevc.References.{References}
use qualcomm_iris_vaapi.Codec.Hevc.Slices.{
  SliceContext, HevcSlice, truncated_nal, invalid_nal, no_data_offset, data_offset, byte_alignment,
  Cursor, Stepped, stepped, stopped, Step, ◌>>=◌, pure, require, read_flag, seek_to, position,
  put_bits, when_step,
}
use qualcomm_iris_vaapi.Codec.Hevc.Slices.Parts.{scan_first, scan_address, scan_independent}

-- Back from the data to the last one; the distance from the data is below eight.
unfoldable pub find_alignment : ℕ → ℕ → ℕ → ℕ → Step ℕ
find_alignment zero parsed data_bit alignment =
    require false byte_alignment >>= λ ok. pure alignment
find_alignment (suc f) parsed data_bit alignment = do
  ok ← require (ltb parsed alignment && ltb (data_bit - alignment) 8) byte_alignment
  ok ← seek_to (alignment - 1)
  b ← read_flag
  if on b then pure (alignment - 1) else find_alignment f parsed data_bit (alignment - 1)

-- `r.copy(b, end)` from a position on.
abbrev pub with_copy : Cursor → BitReader × BitWriter → Stepped (Unit {0})
with_copy c (r, w) = stepped tt (record c { reader = r; writer = w })

unfoldable pub copy_from : ℕ → ℕ → Step (Unit {0})
copy_from start end_bit c = with_copy c (Reader.copy (Reader.seek c.reader start) c.writer end_bit)

unfoldable pub copied_from : Step ℕ
copied_from c = stepped c.copied c

unfoldable pub reader_size : Step ℕ
reader_size c = stepped (size_bits c.reader) c

-- The rest of the header, and the data.
unfoldable pub scan_rest : HevcSlice → Step (Unit {0})
unfolding find_alignment copy_from copied_from reader_size
scan_rest slice = do
  ok ← require (leb 3 slice.slice_data_byte_offset) no_data_offset
  let data_bit = (slice.slice_data_byte_offset - 2) * 8
  size ← reader_size
  parsed ← position
  ok ← require (leb data_bit size && leb parsed data_bit) data_offset
  alignment ← find_alignment 9 parsed data_bit data_bit
  start ← copied_from
  ok ← copy_from start alignment
  ok ← put_bits trailing_bits
  copy_from data_bit size

unfoldable pub rewritten : SliceContext → HevcSlice → References → ℕ → Step (Unit {0})
unfolding scan_first scan_address scan_independent scan_rest
rewritten x slice refs nal_type = do
  first ← scan_first nal_type
  dependent ← if on first then pure false else scan_address x slice
  ok ← when_step (not dependent) (scan_independent x slice refs nal_type)
  scan_rest slice

abbrev pub header_word : List ℕ → ℕ
header_word nal = get_or nal 0 0 * 256 + get_or nal 1 0

abbrev pub valid_header : ℕ → Bool
valid_header header =
    header / 2 ^ 15 % 2 == 0
    && header / 2 ^ 3 % 64 == 0
    && on (header % 8)
    && leb (header / 2 ^ 9 % 64) 31

abbrev pub payload_of : List ℕ → List ℕ
payload_of (a ∷ b ∷ bs) = bs
payload_of _ = []

abbrev pub appended : List ℕ → List ℕ → Stepped (Unit {0}) → Stepped (List ℕ)
appended out nal (stepped ok c) =
    stepped (append_escaped_nal out (get_or nal 0 0 ∷ get_or nal 1 0 ∷ []) c.writer) c
appended out nal (stopped r) = stopped r

-- The access unit with the rewritten slice at its end.
unfoldable pub rewrite_slice :
    List ℕ → HevcSlice → SliceContext → References → List ℕ → Stepped (List ℕ)
unfolding rewritten
rewrite_slice nal slice x refs out =
    let header = header_word nal in
    let start : Cursor = record {
      reader = reader (payload_of nal) 0;
      writer = empty;
      copied = 0;
    } in
    let result = appended out nal (rewritten x slice refs (header / 2 ^ 9 % 64) start) in
    if ltb (length nal) 3
    then stopped truncated_nal
    else if not (valid_header header)
    then stopped invalid_nal
    else result
