-- ===== src/Codec/Av1/Unit/Framing.antt =====
-- OBUs of src/codec/av1_obu.cc against a reader that splits a temporal unit.
use qualcomm_iris_vaapi.Base.{
  ℕ, zero, suc, ◌*◌, ◌%◌, ◌^◌, ◌<◌, ◌≡◌, refl, sym, ap, ◌∙◌, Bool, true, false, List, [], ◌∷◌, ◌++◌,
  append-nil, append_assoc, arith, if◌then◌else◌, length, drop, bits_msb,
}
use qualcomm_iris_vaapi.Codec.Writer.{BitWriter, empty, written, leb128}
use qualcomm_iris_vaapi.Codec.Writer
use qualcomm_iris_vaapi.Codec.Writer.Contents.{empty-IsValid, contents, bit-Appends}
use qualcomm_iris_vaapi.Codec.Reader.Stream.{stream}
use qualcomm_iris_vaapi.Codec.Nal.Padding.{stream-append, stream-written}
use qualcomm_iris_vaapi.Codec.Syntax.{◌>>◌, bit, bits}
use qualcomm_iris_vaapi.Codec.Syntax.Codes.{
  Codes, Reads, read_bit, read_bits, read_then, read_pure, then-Codes, mapped-Codes, bit-Codes,
  bits-Codes,
}
use qualcomm_iris_vaapi.Codec.Syntax.Leb128.{read_leb128, leb128-Codes, leb128-bit_offset}
use qualcomm_iris_vaapi.Codec.Av1.Picture.{Picture, SequenceState}
use qualcomm_iris_vaapi.Codec.Av1.Sequence.{obu_header, write_obu, build_sequence_header}
use qualcomm_iris_vaapi.Codec.Av1.Unit.{take, leading_obus}

-- obu_header behind its first bit: the type, and the size that follows it.
abbrev pub read_type_size : Reads (ℕ × ℕ)
read_type_size = read_then (read_bits 4) (λ type. read_then read_bit (λ extension.
    read_then read_bit (λ has_size.
      read_then read_bit (λ reserved. read_then read_leb128 (λ size. read_pure (type, size))))))

-- The OBUs of a temporal unit, each by its type and the bits of its payload.
abbrev pub read_obus : ℕ → List ℕ → List (ℕ × List ℕ)
read_obus zero bs = []
read_obus (suc f) [] = []
read_obus (suc f) (b ∷ bs) =
    let ((type, size), rest) = read_type_size bs in
    (type, take (size * 8) rest) ∷ read_obus f (drop (size * 8) rest)

pub take-append : (xs ys : List ℕ) → take (length xs) (xs ++ ys) ≡ xs
take-append [] ys = refl
take-append (x ∷ xs) ys = ap (λ t. x ∷ t) (take-append xs ys)

pub drop-append : (xs ys : List ℕ) → drop (length xs) (xs ++ ys) ≡ ys
drop-append [] ys = refl
drop-append (x ∷ xs) ys = drop-append xs ys

length-stream : (bs : List ℕ) → length (stream bs) ≡ length bs * 8
unfolding bits_msb
length-stream [] = refl
length-stream (b ∷ bs) = omega (arith, length-stream bs)

type_size-Codes :
    (type size : ℕ)
    → type < 16
    → size < 128 ^ 10
    → Codes read_type_size
        (bits type 4 >> (bit 0 >> (bit 1 >> (bit 0 >> (λ w. leb128 w size)))))
        (type, size)
type_size-Codes type size ht hs =
    let small : type % 2 ^ 4 ≡ type = omega arith in
    then-Codes _ (bits-Codes type 4) (
      then-Codes _ (bit-Codes 0) (
        then-Codes _ (bit-Codes 1) (
          then-Codes _ (bit-Codes 0) (
            mapped-Codes (λ size. (type % 2 ^ 4, size)) (type, size) (leb128-Codes size hs)
              (ap (λ (t : ℕ). (t, size)) small)))))

stream-obu_header :
    (type size : ℕ) (ht : type < 16) (hs : size < 128 ^ 10)
    → stream (written (obu_header type size)) ≡ 0 ∷ (type_size-Codes type size ht hs).bits
unfolding obu_header ◌>>◌ bit bits Writer.bit Writer.bits contents
stream-obu_header type size ht hs =
    let first = bit-Appends empty 0 empty-IsValid in
    let rest = (type_size-Codes type size ht hs).appends _ first.valid in
    stream-written (obu_header type size) (leb128-bit_offset _ size refl)
    ∙ (rest.grown ∙ ap (λ t. t ++ (type_size-Codes type size ht hs).bits) first.grown)

-- What `write_obu` appends.
obu_bytes : ℕ → List ℕ → List ℕ
obu_bytes type payload = written (obu_header type (length payload)) ++ payload

read_obus-obu_bytes :
    (f type : ℕ) (payload rest : List ℕ)
    → type < 16
    → length payload < 128 ^ 10
    → read_obus (suc f) (stream (obu_bytes type payload ++ rest))
      ≡ (type, stream payload) ∷ read_obus f (stream rest)
unfolding obu_bytes
read_obus-obu_bytes f type payload rest ht hs =
    let after = stream payload ++ stream rest in
    let header = type_size-Codes type (length payload) ht hs in
    let size = length-stream payload in
    let front = rw size at (take-append (stream payload) (stream rest)) in
    let back = rw size at (drop-append (stream payload) (stream rest)) in
    rw
      (
        append_assoc,
        stream-append (written (obu_header type (length payload))) (payload ++ rest),
        stream-append payload rest,
        stream-obu_header type (length payload) ht hs,
        header.reads after,
        front,
        back,
      )
      refl

-- The OBUs that are expected of a unit with this frame payload.
abbrev pub expected : Picture → SequenceState → Bool → List ℕ → List (ℕ × List ℕ)
expected p s emit payload =
    (2, []) ∷ (if emit then (1, stream (build_sequence_header p s)) ∷ [] else [])
    ++ ((6, stream payload) ∷ [])

three_parts : (a b c : List ℕ) → (a ++ b) ++ c ≡ a ++ (b ++ (c ++ []))
three_parts a b c = rw (append_assoc, append-nil) refl

pub framed :
    (p : Picture) (s : SequenceState) (emit : Bool) (payload : List ℕ)
    → (emit ≡ true → length (build_sequence_header p s) < 128 ^ 10)
    → length payload < 128 ^ 10
    → read_obus 4 (stream (write_obu (leading_obus [] p s emit) 6 payload))
      ≡ expected p s emit payload
unfolding leading_obus write_obu obu_bytes
framed p s true payload hs hp =
    let header = build_sequence_header p s in
    let last = obu_bytes 6 payload ++ [] in
    ap (λ t. read_obus 4 (stream t))
      (three_parts (obu_bytes 2 []) (obu_bytes 1 header) (obu_bytes 6 payload))
    ∙ read_obus-obu_bytes 3 2 [] (obu_bytes 1 header ++ last) (omega arith) (omega arith)
    ∙ ap (λ t. (2, []) ∷ t)
        (read_obus-obu_bytes 2 1 header last (omega arith) (hs refl)
          ∙ ap (λ t. (1, stream header) ∷ t) (read_obus-obu_bytes 1 6 payload [] (omega arith) hp))
framed p s false payload hs hp =
    ap (λ t. read_obus 4 (stream (obu_bytes 2 [] ++ t))) (sym (append-nil (obu_bytes 6 payload)))
    ∙ read_obus-obu_bytes 3 2 [] (obu_bytes 6 payload ++ []) (omega arith) (omega arith)
    ∙ ap (λ t. (2, []) ∷ t) (read_obus-obu_bytes 2 6 payload [] (omega arith) hp)
