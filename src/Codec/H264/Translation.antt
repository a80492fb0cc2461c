-- ===== src/Codec/H264/Translation.antt =====
-- src/codec/h264.cc, class H264: the access unit of a picture.
use qualcomm_iris_vaapi.Base.{
  ℕ, zero, suc, ◌+◌, ◌%◌, Bool, true, false, ◌&&◌, ◌||◌, List, [], ◌∷◌, ◌++◌, Option, none, some,
  ltb, leb, ◌==◌, if◌then◌else◌, length, get_or,
}
use qualcomm_iris_vaapi.Base.Int.{ℤ, pos}
use qualcomm_iris_vaapi.Codec.H264.{
  Profile, profile_idc, PictureParameters, SliceParameters, h264_sps, h264_pps,
}

abbrev pub byte_at : List ℕ → ℕ → ℕ
byte_at bs i = get_or bs i 0

unfoldable pub has_start_code : List ℕ → Bool
has_start_code bs =
    leb 3 (length bs)
    && byte_at bs 0 == 0
    && byte_at bs 1 == 0
    && (byte_at bs 2 == 1 || (leb 4 (length bs) && byte_at bs 2 == 0 && byte_at bs 3 == 1))

-- The bytes that a slice's data adds to the access unit.
unfoldable pub slice_bytes : List ℕ → List ℕ
slice_bytes [] = []
slice_bytes (b ∷ bs) = if has_start_code (b ∷ bs) then b ∷ bs else 0 ∷ 0 ∷ 1 ∷ b ∷ bs

unfoldable pub slices : List (List ℕ) → List ℕ
unfolding slice_bytes
slices [] = []
slices (d ∷ ds) = slice_bytes d ++ slices ds

-- Where the NAL unit behind a start code at `i` starts.
abbrev pub start_at : List ℕ → ℕ → Option ℕ
start_at au i =
    if byte_at au i == 0 && byte_at au (i + 1) == 0 && byte_at au (i + 2) == 1
    then some (i + 3)
    else if ltb (i + 4) (length au)
        && byte_at au i == 0
        && byte_at au (i + 1) == 0
        && byte_at au (i + 2) == 0
        && byte_at au (i + 3) == 1
    then some (i + 4)
    else none

abbrev pub is_idr : List ℕ → Option ℕ → Bool
is_idr au none = false
is_idr au (some start) = ltb start (length au) && byte_at au start % 32 == 5

abbrev pub next_of : ℕ → Option ℕ → ℕ
next_of i none = i + 1
next_of i (some start) = start

-- `i` grows in each round, so the length of the access unit is fuel enough.
unfoldable pub idr_loop : ℕ → List ℕ → ℕ → Bool
idr_loop zero au i = false
idr_loop (suc f) au i =
    let start = start_at au i in
    let rest = idr_loop f au (next_of i start) in
    if ltb (i + 3) (length au) then is_idr au start || rest else false

unfoldable pub contains_idr : List ℕ → Bool
unfolding idr_loop
contains_idr au = idr_loop (length au) au 0

pub record Picture : Type 0 where
  pub parameters : Option PictureParameters
  pub slice_parameters : List SliceParameters
  pub slice_data : List (List ℕ)
  pub surface_width : ℕ
  pub surface_height : ℕ

pub record AccessUnit : Type 0 where
  pub bytes : List ℕ
  pub sequence_start : Bool
  pub deferred : Bool

abbrev pub is_zero : ℤ → Bool
is_zero (pos zero) = true
is_zero _ = false

abbrev pub random_access : PictureParameters → SliceParameters → Bool
random_access p slice =
    slice.slice_type % 5 == 2 && p.frame_num == 0 && is_zero p.top_field_order_cnt

abbrev pub translated :
    Profile
    → Picture
    → Option PictureParameters
    → List SliceParameters
    → List (List ℕ)
    → Option AccessUnit
unfolding contains_idr slices h264_sps h264_pps
translated profile picture (some p) (slice ∷ rest) (d ∷ ds) =
    let sps = h264_sps (profile_idc profile) picture.surface_width picture.surface_height p in
    let pps = h264_pps (profile_idc profile) p slice in
    let au = sps ++ (pps ++ slices (d ∷ ds)) in
    some (record {
      bytes = au;
      sequence_start = contains_idr au || random_access p slice;
      deferred = false;
    })
translated profile picture _ _ _ = none

-- A picture without parameters or slices is refused by an exception.
unfoldable pub translate : Profile → Picture → Option AccessUnit
unfolding translated
translate profile picture =
    translated profile picture picture.parameters picture.slice_parameters picture.slice_data
