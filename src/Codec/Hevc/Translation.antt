-- ===== src/Codec/Hevc/Translation.antt =====
-- src/codec/hevc.cc, class HEVC: the access unit of a picture, and random access.
pub mod Access
use qualcomm_iris_vaapi.Base.{
  ℕ, ◌+◌, ◌/◌, ◌%◌, Bool, true, false, not, ◌&&◌, ◌||◌, List, [], ◌∷◌, ◌++◌, Option, none, some,
  ltb, leb, ◌==◌, if◌then◌else◌, length, get_or, drop,
}
use qualcomm_iris_vaapi.Codec.Syntax.{on}
use qualcomm_iris_vaapi.Codec.Av1.Unit.{take}
use qualcomm_iris_vaapi.Codec.H264.Translation.{has_start_code}
use qualcomm_iris_vaapi.Codec.Hevc.{ScalingMatrix}
use qualcomm_iris_vaapi.Codec.Hevc.ParameterSets.{hevc_vps, hevc_sps, hevc_pps}
use qualcomm_iris_vaapi.Codec.Hevc.References.{
  HevcReference, References, Checked, fine, refused, collect_references,
}
use qualcomm_iris_vaapi.Codec.Hevc.Slices.{
  SliceContext, HevcSlice, SliceRefusal, of_references, Stepped, stepped, stopped,
}
use qualcomm_iris_vaapi.Codec.Hevc.Slices.Rewriting.{rewrite_slice}

-- The buffers of a picture. Without `has_parameters` the picture came without its parameters, and the
-- context is not looked at.
pub record HevcSubmission : Type 0 where
  pub has_parameters : Bool
  pub context : SliceContext
  pub frames : List HevcReference
  pub is_field : Bool
  pub matrix : Option ScalingMatrix
  pub slices : List HevcSlice
  pub slice_data : List (List ℕ)

pub record HevcTranslator : Type 0 where
  pub main10 : Bool
  pub scaling : Option ScalingMatrix
  pub started : Bool
  pub no_rasl_output : Bool

-- What a call throws, in the order of the source.
pub data HevcFailure : Type 0 where
  missing_buffers other_format interlaced slice_too_long no_random_access rasl_unavailable :
      HevcFailure
  of_slice : SliceRefusal → HevcFailure

pub record HevcUnit : Type 0 where
  pub bytes : List ℕ
  pub sequence_start : Bool

pub data Made (A : Type 0) : Type 0 where
  made : A → Made A
  failed : HevcFailure → Made A

infixl 5 ◌>>=◌
unfoldable pub ◌>>=◌ : {A B : Type 0} → Made A → (A → Made B) → Made B
made a >>= f = f a
failed r >>= f = failed r

unfoldable pub require : Bool → HevcFailure → Made (Unit {0})
require true r = made tt
require false r = failed r

abbrev pub start_code_length : List ℕ → ℕ
start_code_length bytes =
    if has_start_code bytes then (if get_or bytes 2 0 == 1 then 3 else 4) else 0

-- A slice's NAL unit in its buffer, without its start code.
abbrev pub nal_of : HevcSlice → List ℕ → List ℕ
nal_of slice blob =
    let nal = take slice.slice_data_size (drop slice.slice_data_offset blob) in
    drop (start_code_length nal) nal

-- The slices from `i` on: each has its buffer where there are as many, and all have the first if not.
unfoldable pub find_nals : Bool → ℕ → List HevcSlice → List (List ℕ) → Made (List (List ℕ))
find_nals paired i [] blobs = made []
find_nals paired i (slice ∷ slices) blobs =
    let blob = get_or blobs (if paired then i else 0) [] in
    let rest = find_nals paired (i + 1) slices blobs in
    require (leb (slice.slice_data_offset + slice.slice_data_size) (length blob)) slice_too_long
    >>= λ ok. rest >>= λ nals. made (nal_of slice blob ∷ nals)

unfoldable pub nals_of : HevcSubmission → Made (List (List ℕ))
unfolding find_nals
nals_of s = find_nals (length s.slice_data == length s.slices) 0 s.slices s.slice_data

abbrev pub nal_type : List ℕ → ℕ
nal_type nal = get_or nal 0 0 / 2 % 64

abbrev pub within : ℕ → ℕ → ℕ → Bool
within low n high = leb low n && leb n high

-- A picture from which decoding may start.
abbrev pub is_irap : ℕ → Bool
is_irap type = within 16 type 21

abbrev pub is_rasl : ℕ → Bool
is_rasl type = type == 8 || type == 9

unfoldable pub accepted : HevcTranslator → HevcSubmission → Made (Unit {0})
accepted t s = do
  let p = s.context.picture
  let depth = if t.main10 then 2 else 0
  ok ←
      require (s.has_parameters && ltb 0 (length s.slice_data) && ltb 0 (length s.slices))
        missing_buffers
  ok ←
      require
        (p.pic.chroma_format_idc == 1
          && not (on p.pic.separate_colour_plane_flag)
          && p.bit_depth_luma_minus8 == depth
          && p.bit_depth_chroma_minus8 == depth)
        other_format
  require (not s.is_field) interlaced

-- The matrix is kept for later pictures.
abbrev pub kept_matrix : HevcTranslator → HevcSubmission → Option ScalingMatrix
kept_matrix t s = elim s.matrix [ none ↦ t.scaling | some m ↦ some m ]

abbrev pub effective_matrix : HevcTranslator → HevcSubmission → Option ScalingMatrix
effective_matrix t s =
    if on s.context.picture.pic.scaling_list_enabled_flag then kept_matrix t s else none

-- Decoding starts at a random access picture, and leaves out the pictures that lead to it.
unfoldable pub admitted : HevcTranslator → ℕ → Made (Unit {0})
admitted t type = do
  ok ← require (t.started || is_irap type) no_random_access
  require (not (t.no_rasl_output && is_rasl type)) rasl_unavailable

abbrev pub of_collected : Checked References → Made References
of_collected (fine refs) = made refs
of_collected (refused f) = failed (of_slice (of_references f))

abbrev pub of_rewritten : Stepped (List ℕ) → Made (List ℕ)
of_rewritten (stepped bytes c) = made bytes
of_rewritten (stopped r) = failed (of_slice r)

-- The slices behind what is in the access unit.
unfoldable pub rewrite_slices :
    List (List ℕ) → List HevcSlice → SliceContext → References → List ℕ → Made (List ℕ)
rewrite_slices (nal ∷ nals) (slice ∷ slices) x refs out =
    of_rewritten (rewrite_slice nal slice x refs out) >>= λ bytes.
    rewrite_slices nals slices x refs bytes
rewrite_slices _ _ x refs out = made out

abbrev pub parameter_sets : HevcTranslator → HevcSubmission → List ℕ
parameter_sets t s =
    let p = s.context.picture in
    hevc_vps t.main10 p ++ (hevc_sps t.main10 p (effective_matrix t s) ++ hevc_pps p)

-- The access unit of a picture of this type.
unfoldable pub unit_of : HevcTranslator → HevcSubmission → List (List ℕ) → ℕ → Made HevcUnit
unfolding admitted rewrite_slices
unit_of t s nals type = do
  ok ← admitted t type
  refs ← of_collected (collect_references s.context.poc s.frames)
  bytes ← rewrite_slices nals s.slices s.context refs (parameter_sets t s)
  made (record { bytes = bytes; sequence_start = within 16 type 23 })

-- Behind a picture of this type.
abbrev pub started_by : HevcTranslator → ℕ → HevcTranslator
started_by t type = record t {
  no_rasl_output = if is_irap type then not t.started || leb type 20 else t.no_rasl_output;
  started = true;
}

abbrev pub with_unit : HevcTranslator → ℕ → Made HevcUnit → HevcTranslator × Made HevcUnit
with_unit t type (made u) = (started_by t type, made u)
with_unit t type (failed f) = (t, failed f)

abbrev pub with_nals :
    HevcTranslator → HevcSubmission → Made (List (List ℕ)) → HevcTranslator × Made HevcUnit
with_nals t s (failed f) = (t, failed f)
with_nals t s (made nals) =
    let type = nal_type (get_or nals 0 []) in with_unit t type (unit_of t s nals type)

abbrev pub with_accepted :
    HevcTranslator → HevcSubmission → Made (Unit {0}) → HevcTranslator × Made HevcUnit
with_accepted t s (failed f) = (t, failed f)
with_accepted t s (made ok) =
    let t' = record t { scaling = kept_matrix t s } in with_nals t' s (nals_of s)

unfoldable pub translate : HevcTranslator → HevcSubmission → HevcTranslator × Made HevcUnit
unfolding accepted
translate t s = with_accepted t s (accepted t s)
