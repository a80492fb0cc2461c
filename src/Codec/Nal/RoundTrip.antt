-- ===== src/Codec/Nal/RoundTrip.antt =====
-- A NAL unit that was appended to an access unit, read back.
use qualcomm_iris_vaapi.Base.{
  ℕ, suc, ◌+◌, ◌≡◌, refl, sym, ◌≢◌, List, [], ◌∷◌, ◌++◌, append_assoc, arith, length, drop,
}
use qualcomm_iris_vaapi.Codec.Writer.{BitWriter, written}
use qualcomm_iris_vaapi.Codec.Writer.Contents.{contents}
use qualcomm_iris_vaapi.Codec.Reader.{reader}
use qualcomm_iris_vaapi.Codec.Reader.Stream.{stream}
use qualcomm_iris_vaapi.Codec.Nal.{append_escaped_nal, escape_loop, start_code}
use qualcomm_iris_vaapi.Codec.Nal.Escape.{reader-escape_loop}
use qualcomm_iris_vaapi.Codec.Nal.Padding.{stream-append, stream-written}

-- The access unit behind its first `au` bytes and a start code.
behind : (au xs : List ℕ) → drop (length au + 4) (au ++ (start_code ++ xs)) ≡ xs
behind [] xs = refl
behind (a ∷ au) xs =
    let same : suc (length au) + 4 ≡ suc (length au + 4) = omega arith in rw same (behind au xs)

header_last :
    (front : List ℕ) (last : ℕ) (xs : List ℕ) → (front ++ (last ∷ [])) ++ xs ≡ front ++ (last ∷ xs)
header_last front last xs = append_assoc front (last ∷ []) xs

-- A byte-aligned payload that was appended as a NAL unit, whose header ends in a byte that is not zero,
-- is read back behind the start code: the reader holds the header's bits and then those of the payload.
pub reader-append_escaped_nal :
    (au front : List ℕ) (last : ℕ) (w : BitWriter)
    → last ≢ 0
    → w.bit_offset ≡ 0
    → stream
        (reader
          (drop (length au + 4) (append_escaped_nal au (front ++ (last ∷ [])) w))
          (length front + 1)).held
      ≡ stream (front ++ (last ∷ [])) ++ contents w
unfolding append_escaped_nal
reader-append_escaped_nal au front last w nz aligned =
    let escaped = escape_loop 0 (written w) in
    rw
      (
        behind au ((front ++ (last ∷ [])) ++ escaped),
        header_last front last escaped,
        reader-escape_loop front last (written w) nz,
        sym (header_last front last (written w)),
        stream-append (front ++ (last ∷ [])) (written w),
        stream-written w aligned,
      )
      refl
