-- ===== src/Codec/Hevc/PictureParameters.antt =====
-- The picture parameter set of src/codec/hevc.cc against its syntax in H.265.
pub mod Flags
pub mod Tools
pub mod Filters
use qualcomm_iris_vaapi.Base.{
  ℕ, zero, suc, ◌+◌, ◌-◌, ◌*◌, ◌/◌, ◌%◌, ◌^◌, ◌≤◌, ◌<◌, ◌≡◌, refl, ap, sym, ◌∙◌, Bool, true, false,
  none, not, min, List, [], ◌∷◌, ◌++◌, drop, arith, leb, ◌==◌, if◌then◌else◌, get_or, replicate,
  bits_msb,
}
use native.Mathlib.Nat.{mod-eq_of_lt}
use qualcomm_iris_vaapi.Base.Int.{ℤ, pos, negsuc}
use qualcomm_iris_vaapi.Codec.Writer
use qualcomm_iris_vaapi.Codec.Writer.{empty, trailing_bits}
use qualcomm_iris_vaapi.Codec.Writer.Contents.{empty-IsValid, contents, Appends-nil}
use qualcomm_iris_vaapi.Codec.Reader.{reader}
use qualcomm_iris_vaapi.Codec.Reader.Stream.{stream}
use qualcomm_iris_vaapi.Codec.ExpGolomb.{IsSmall}
use qualcomm_iris_vaapi.Codec.Nal.Padding.{trailing_bits-Padded}
use qualcomm_iris_vaapi.Codec.Syntax.{Write, ◌>>◌, on, bit, ue, se, skip, when}
use qualcomm_iris_vaapi.Codec.Syntax.Codes.{
  Codes, Reads, read_bit, read_bits, read_from, read_then, read_pure, then-Codes, mapped-Codes,
  bit-Codes, bits-Codes, skip-Codes,
}
use qualcomm_iris_vaapi.Codec.Syntax.Unsigned.{read_ue, ue-Codes}
use qualcomm_iris_vaapi.Codec.Hevc.{HevcPicture}
use qualcomm_iris_vaapi.Codec.Hevc.ParameterSets.{
  clamp, pps_flags, tile_lengths, pps_tiles, pps_filters, pps_fields, hevc_pps_payload, hevc_pps,
}
use qualcomm_iris_vaapi.Codec.Hevc.Units.{HoldsUnit, parameter_sets-HoldsUnit}
use qualcomm_iris_vaapi.Codec.Syntax.Signed.{
  read_se, se-Codes, flag-Codes, read_if, if-Codes, grouped-Codes, passed-Codes,
}
use qualcomm_iris_vaapi.Codec.Hevc.PictureParameters.Flags.{
  PpsFlags, read_flags, flags_of, InRange, flags-Codes,
}
use qualcomm_iris_vaapi.Codec.Hevc.PictureParameters.Tools.{
  PpsTools, read_tools, tools_of, tools-Codes,
}
use qualcomm_iris_vaapi.Codec.Hevc.PictureParameters.Filters.{
  PpsFilters, read_filters, filters_of, filters-Codes,
}

-- The picture parameter set as a decoder keeps it.
pub record Pps : Type 0 where
  pub flags : PpsFlags
  pub tools : PpsTools
  pub filters : PpsFilters

abbrev pub read_pps : Reads Pps
read_pps = read_then read_flags (λ flags. read_then read_tools (λ tools.
    read_then read_filters
      (λ filters. read_pure (record { flags = flags; tools = tools; filters = filters }))))

abbrev pub pps_of : HevcPicture → Pps
pps_of p = record { flags = flags_of p; tools = tools_of p; filters = filters_of p }

pps-Codes : (p : HevcPicture) → InRange p → Codes read_pps (pps_fields p) (pps_of p)
unfolding pps_fields
pps-Codes p h =
    then-Codes _ (flags-Codes p h)
      (then-Codes _ (tools-Codes p h) (mapped-Codes _ _ (filters-Codes p h) refl))

-- The header of the NAL unit and the set.
abbrev pub read_unit : Reads (ℕ × Pps)
read_unit = read_then (read_bits 16) (λ header. read_then read_pps (λ pps. read_pure (header, pps)))

read_unit-pps :
    (bits rest : List ℕ) (v : Pps)
    → read_pps (bits ++ rest) ≡ (v, rest)
    → read_unit (stream (0x44 ∷ 1 ∷ []) ++ (bits ++ rest)) ≡ ((0x4401, v), rest)
unfolding read_then read_from bits_msb
read_unit-pps bits rest v e = ap (λ (r : Pps × List ℕ). ((0x4401, r.0), r.1)) e

-- The set of a picture in range, as a NAL unit, is read back by the syntax of H.265: behind the start code and with the bytes that were escaped taken out, a header of type 34, every element of the picture with the elements that depend on others, the tile sizes and the deblocking offsets, and then a one and fewer than eight zeros.
pub read_unit-hevc_pps :
    (p : HevcPicture)
    → InRange p
    → (k : ℕ) × (k < 8)
      × (read_unit (stream (reader (drop 4 (hevc_pps p)) 2).held)
          ≡ ((0x4401, pps_of p), 1 ∷ replicate k 0))
unfolding HoldsUnit hevc_pps_payload contents
read_unit-hevc_pps p h =
    let coded = pps-Codes p h in
    let fields = coded.appends empty empty-IsValid in
    let (k, short, ends, aligned) = trailing_bits-Padded _ fields.valid in
    let payload = ends.grown ∙ ap (λ t. t ++ (1 ∷ replicate k 0)) fields.grown in
    let held = (parameter_sets-HoldsUnit false p none).2 in
    (
      k,
      short,
      ap read_unit (held ∙ ap (λ t. stream (0x44 ∷ 1 ∷ []) ++ t) payload)
          ∙ read_unit-pps coded.bits _ _ (coded.reads _),
    )
