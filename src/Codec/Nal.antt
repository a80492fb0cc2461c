-- ===== src/Codec/Nal.antt =====
-- src/codec/bitwriter.h: NAL units with emulation prevention, and the end of a bitstream.
pub mod Escape
pub mod Padding
pub mod RoundTrip
use qualcomm_iris_vaapi.Base.{
  ℕ, zero, suc, ◌+◌, ◌-◌, ◌/◌, ◌&&◌, List, [], ◌∷◌, ◌++◌, leb, ◌==◌, if◌then◌else◌,
}
use qualcomm_iris_vaapi.Codec.Writer.{BitWriter, written}

-- The loop over the payload; `zero_count` counts the zeros just written.
unfoldable pub escape_loop : ℕ → List ℕ → List ℕ
escape_loop zero_count [] = []
escape_loop zero_count (byte ∷ rest) =
    let escaped = 3 ∷ byte ∷ escape_loop (if byte == 0 then 1 else 0) rest in
    let plain = byte ∷ escape_loop (if byte == 0 then zero_count + 1 else 0) rest in
    if leb 2 zero_count && leb byte 3 then escaped else plain

abbrev pub start_code : List ℕ
start_code = 0 ∷ 0 ∷ 0 ∷ 1 ∷ []

unfoldable pub append_escaped_nal : List ℕ → List ℕ → BitWriter → List ℕ
unfolding escape_loop
append_escaped_nal au nal_header w = au ++ (start_code ++ (nal_header ++ escape_loop 0 (written w)))

-- The rounds of `for (v = n ? n - 1 : 0; v; v >>= 1)`, on fuel.
ceil_log2_fuel : ℕ → ℕ → ℕ
ceil_log2_fuel zero v = 0
ceil_log2_fuel (suc f) v = let rest = ceil_log2_fuel f (v / 2) in if v == 0 then 0 else suc rest

unfoldable pub nal_ceil_log2 : ℕ → ℕ
unfolding ceil_log2_fuel
nal_ceil_log2 n = ceil_log2_fuel 32 (n - 1)
