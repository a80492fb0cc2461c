-- ===== src/Codec/Hevc/Units.antt =====
-- The parameter sets of src/codec/hevc.cc as NAL units.
use qualcomm_iris_vaapi.Base.{
  ℕ, zero, suc, ◌+◌, ◌≡◌, Bool, Option, none, some, List, [], ◌∷◌, ◌++◌, drop, arith,
}
use qualcomm_iris_vaapi.Base.Int.{ℤ}
use qualcomm_iris_vaapi.Codec.Writer.{BitWriter, empty, trailing_bits}
use qualcomm_iris_vaapi.Codec.Writer.Contents.{empty-IsValid, contents}
use qualcomm_iris_vaapi.Codec.Reader.{reader}
use qualcomm_iris_vaapi.Codec.Reader.Stream.{stream}
use qualcomm_iris_vaapi.Codec.Nal.Padding.{trailing_bits-Padded}
use qualcomm_iris_vaapi.Codec.Nal.RoundTrip.{reader-append_escaped_nal}
use qualcomm_iris_vaapi.Codec.Syntax.{Write}
use qualcomm_iris_vaapi.Codec.Syntax.Keeps.{Keeps, keeps}
use qualcomm_iris_vaapi.Codec.Hevc.{HevcPicture, ScalingMatrix}
use qualcomm_iris_vaapi.Codec.Hevc.Scaling.{write_coefs, scaling_list, lists_from, scaling_lists}
use qualcomm_iris_vaapi.Codec.Hevc.ParameterSets.{
  repeated, profile_tier_level, sub_layer_ordering, vps_fields, vps_payload, hevc_vps, sps_formats,
  sps_blocks, given_lists, sps_scaling, sps_pcm, sps_references, sps_fields, hevc_sps_payload,
  hevc_sps, pps_flags, tile_lengths, pps_tiles, pps_filters, pps_fields, hevc_pps_payload, hevc_pps,
}

repeated-Keeps : (rounds : ℕ) {f : Write} → Keeps f → Keeps (repeated rounds f)
unfolding repeated
repeated-Keeps zero p = search keeps depth 4
repeated-Keeps (suc rounds) p = let rest = repeated-Keeps rounds p in search keeps depth 4

profile_tier_level-Keeps : (main10 : Bool) (n : ℕ) → Keeps (profile_tier_level main10 n)
unfolding profile_tier_level
profile_tier_level-Keeps main10 n = search (keeps, repeated-Keeps) depth 30

sub_layer_ordering-Keeps : (p : HevcPicture) (i : ℕ) → Keeps (sub_layer_ordering p i)
unfolding sub_layer_ordering
sub_layer_ordering-Keeps p i = search keeps depth 10

vps_fields-Keeps : (main10 : Bool) (p : HevcPicture) → Keeps (vps_fields main10 p)
unfolding vps_fields
vps_fields-Keeps main10 p =
    search (keeps, profile_tier_level-Keeps, sub_layer_ordering-Keeps) depth 40

write_coefs-Keeps : (ds : List ℤ) → Keeps (write_coefs ds)
unfolding write_coefs
write_coefs-Keeps [] = search keeps depth 4
write_coefs-Keeps (d ∷ ds) = let rest = write_coefs-Keeps ds in search keeps depth 4

scaling_list-Keeps : (m : ScalingMatrix) (size_id id : ℕ) → Keeps (scaling_list m size_id id)
unfolding scaling_list
scaling_list-Keeps m size_id id = search (keeps, write_coefs-Keeps) depth 8

lists_from-Keeps :
    (left id : ℕ) (m : ScalingMatrix) (size_id : ℕ) → Keeps (lists_from left id m size_id)
unfolding lists_from
lists_from-Keeps zero id m size_id = search keeps depth 4
lists_from-Keeps (suc left) id m size_id =
    let rest = lists_from-Keeps left (id + 1) m size_id in
    search (keeps, scaling_list-Keeps) depth 6

given_lists-Keeps : (scaling : Option ScalingMatrix) → Keeps (given_lists scaling)
unfolding given_lists scaling_lists
given_lists-Keeps none = search keeps depth 4
given_lists-Keeps (some m) = search (keeps, lists_from-Keeps) depth 12

sps_formats-Keeps : (p : HevcPicture) → Keeps (sps_formats p)
unfolding sps_formats
sps_formats-Keeps p = search keeps depth 30

sps_blocks-Keeps : (p : HevcPicture) → Keeps (sps_blocks p)
unfolding sps_blocks
sps_blocks-Keeps p = search keeps depth 30

sps_scaling-Keeps :
    (p : HevcPicture) (scaling : Option ScalingMatrix) → Keeps (sps_scaling p scaling)
unfolding sps_scaling
sps_scaling-Keeps p scaling = search (keeps, given_lists-Keeps) depth 12

sps_pcm-Keeps : (p : HevcPicture) → Keeps (sps_pcm p)
unfolding sps_pcm
sps_pcm-Keeps p = search keeps depth 30

sps_references-Keeps : (p : HevcPicture) → Keeps (sps_references p)
unfolding sps_references
sps_references-Keeps p = search keeps depth 30

ruleset sps_parts = (
  profile_tier_level-Keeps, sub_layer_ordering-Keeps, sps_formats-Keeps, sps_blocks-Keeps,
  sps_scaling-Keeps, sps_pcm-Keeps, sps_references-Keeps,
)

sps_fields-Keeps :
    (main10 : Bool) (p : HevcPicture) (scaling : Option ScalingMatrix)
    → Keeps (sps_fields main10 p scaling)
unfolding sps_fields
sps_fields-Keeps main10 p scaling = search (keeps, sps_parts) depth 40

pps_flags-Keeps : (p : HevcPicture) → Keeps (pps_flags p)
unfolding pps_flags
pps_flags-Keeps p = search keeps depth 50

tile_lengths-Keeps : (left i : ℕ) (lengths : List ℕ) → Keeps (tile_lengths left i lengths)
unfolding tile_lengths
tile_lengths-Keeps zero i lengths = search keeps depth 4
tile_lengths-Keeps (suc left) i lengths =
    let rest = tile_lengths-Keeps left (i + 1) lengths in search keeps depth 4

pps_tiles-Keeps : (p : HevcPicture) → Keeps (pps_tiles p)
unfolding pps_tiles
pps_tiles-Keeps p = search (keeps, tile_lengths-Keeps) depth 50

pps_filters-Keeps : (p : HevcPicture) → Keeps (pps_filters p)
unfolding pps_filters
pps_filters-Keeps p = search keeps depth 50

pps_fields-Keeps : (p : HevcPicture) → Keeps (pps_fields p)
unfolding pps_fields
pps_fields-Keeps p = search (keeps, pps_flags-Keeps, pps_tiles-Keeps, pps_filters-Keeps) depth 10

ends_aligned : (f : Write) → Keeps f → (trailing_bits (f empty)).bit_offset ≡ 0
ends_aligned f k = (trailing_bits-Padded _ (k.valid empty empty-IsValid)).3

-- What a parameter set is for the reader of a NAL unit: the two bytes of its header, and the bits written.
unfoldable pub HoldsUnit : List ℕ → ℕ → BitWriter → Type 0
HoldsUnit unit first payload =
    stream (reader (drop 4 unit) 2).held ≡ stream (first ∷ 1 ∷ []) ++ contents payload

-- For every profile, picture and scaling matrix, a reader finds in each of the three parameter sets, behind the start code, the header of its type and then exactly the bits that were written, whatever bytes had to be escaped.
pub parameter_sets-HoldsUnit :
    (main10 : Bool) (p : HevcPicture) (scaling : Option ScalingMatrix)
    → HoldsUnit (hevc_vps main10 p) 0x40 (vps_payload main10 p)
      × HoldsUnit (hevc_sps main10 p scaling) 0x42 (hevc_sps_payload main10 p scaling)
      × HoldsUnit (hevc_pps p) 0x44 (hevc_pps_payload p)
unfolding HoldsUnit hevc_vps hevc_sps hevc_pps vps_payload hevc_sps_payload hevc_pps_payload
parameter_sets-HoldsUnit main10 p scaling =
    let unit = λ (first : ℕ) (f : Write) (k : Keeps f).
      reader-append_escaped_nal [] (first ∷ []) 1 (trailing_bits (f empty)) (λ e. omega (arith, e))
        (ends_aligned f k) in
    (
      unit 0x40 (vps_fields main10 p) (vps_fields-Keeps main10 p),
      unit 0x42 (sps_fields main10 p scaling) (sps_fields-Keeps main10 p scaling),
      unit 0x44 (pps_fields p) (pps_fields-Keeps p),
    )
