-- ===== src/Codec/Vp9.antt =====
-- src/codec/vp9.cc, class VP9: frames pass through, and an invisible one is followed by its display.
pub mod Superframe
pub mod Refresh
pub mod Display
mod Examples
use qualcomm_iris_vaapi.Base.{
  ℕ, zero, suc, ◌+◌, ◌-◌, ◌*◌, ◌/◌, ◌%◌, ◌^◌, bit_or, Bool, true, false, not, ◌&&◌, List, [], ◌∷◌,
  ◌++◌, Option, some, ltb, leb, ◌==◌, if◌then◌else◌, length, get_or,
}
use qualcomm_iris_vaapi.Codec.Syntax.{on}

-- The fields of VADecPictureParameterBufferVP9 that are read.
pub record FrameParameters : Type 0 where
  pub profile : ℕ
  pub bit_depth : ℕ
  pub subsampling_x : ℕ
  pub subsampling_y : ℕ
  pub frame_type : ℕ
  pub show_frame : ℕ
  pub error_resilient_mode : ℕ
  pub frame_header_length_in_bytes : ℕ
  pub first_partition_size : ℕ

-- What a call throws, in the order of the source.
pub data Rejection : Type 0 where
  not_one_frame other_format missing_headers truncated raw_mismatch existing_frame : Rejection
  flags_mismatch sync_code twelve_bit rgb no_slot : Rejection

-- A value with the position behind it.
pub data Scanned (A : Type 0) : Type 0 where
  scanned : A → ℕ → Scanned A
  thrown : Rejection → Scanned A

-- Code that reads the frame from a position on.
abbrev pub Scan : Type 0 → Type 0
Scan A = List ℕ → ℕ → Scanned A

abbrev pub go_on : {A B : Type 0} → (A → Scan B) → List ℕ → Scanned A → Scanned B
go_on f bytes (scanned a pos) = f a bytes pos
go_on f bytes (thrown r) = thrown r

infixl 5 ◌>>=◌
unfoldable pub ◌>>=◌ : {A B : Type 0} → Scan A → (A → Scan B) → Scan B
(m >>= f) bytes pos = go_on f bytes (m bytes pos)

unfoldable pub pure : {A : Type 0} → A → Scan A
pure a bytes pos = scanned a pos

unfoldable pub require : Bool → Rejection → Scan (Unit {0})
require true r bytes pos = scanned tt pos
require false r bytes pos = thrown r

unfoldable pub bit : Scan ℕ
bit bytes pos =
    if ltb pos (length bytes * 8)
    then scanned (get_or bytes (pos / 8) 0 / 2 ^ (7 - pos % 8) % 2) (pos + 1)
    else thrown truncated

-- `value` holds the bits read so far.
unfoldable pub bits_from : ℕ → ℕ → Scan ℕ
bits_from zero value = pure value
bits_from (suc count) value = bit >>= λ b. bits_from count (value * 2 + b)

unfoldable pub bits : ℕ → Scan ℕ
unfolding bits_from
bits count = bits_from count 0

abbrev pub when : Bool → Scan (Unit {0}) → Scan (Unit {0})
when c m = if c then m else pure tt

-- The flags that are checked against the parameters.
pub record Header : Type 0 where
  pub raw_profile : ℕ
  pub frame_type : ℕ
  pub show_frame : ℕ
  pub error_resilient : ℕ

unfoldable pub scan_header : ℕ → FrameParameters → Scan Header
scan_header expected_profile p = do
  marker ← bits 2
  low ← bit
  high ← bit
  let raw_profile = bit_or low (high * 2)
  ok ← require (marker == 2 && raw_profile == expected_profile) raw_mismatch
  ok ← when (raw_profile == 3) (bit >>= λ reserved. pure tt)
  existing ← bit
  ok ← require (not (on existing)) existing_frame
  frame_type ← bit
  show_frame ← bit
  error_resilient ← bit
  ok ←
      require
        (frame_type == p.frame_type
          && show_frame == p.show_frame
          && error_resilient == p.error_resilient_mode)
        flags_mismatch
  pure (record {
    raw_profile = raw_profile;
    frame_type = frame_type;
    show_frame = show_frame;
    error_resilient = error_resilient;
  })

unfoldable pub scan_color : Scan (Unit {0})
scan_color = do
  deep ← bit
  ok ← require (not (on deep)) twelve_bit
  space ← bits 3
  ok ← require (not (space == 7)) rgb
  range ← bit
  pure tt

unfoldable pub scan_intra : Header → Scan (Unit {0})
unfolding scan_color
scan_intra h = do
  sync ← bits 24
  ok ← require (sync == 0x498342) sync_code
  when (on h.raw_profile) scan_color

unfoldable pub scan_coded_refresh : Header → Scan ℕ
unfolding scan_intra
scan_coded_refresh h = do
  intra_only ← bit
  ok ← when (not (on h.error_resilient)) (bits 2 >>= λ reset. pure tt)
  ok ← when (on intra_only) (scan_intra h)
  bits 8

-- The refresh flags of an invisible frame.
unfoldable pub scan_refresh : Header → Scan ℕ
unfolding scan_coded_refresh
scan_refresh h = if on h.frame_type then scan_coded_refresh h else pure 0xff

-- The rounds of `while (!(refresh & (1u << slot))) ++slot`: eight flags, one of them set.
unfoldable pub lowest_slot : ℕ → ℕ → ℕ → ℕ
lowest_slot zero slot refresh = slot
lowest_slot (suc left) slot refresh =
    let next = lowest_slot left (slot + 1) refresh in
    if refresh / 2 ^ slot % 2 == 1 then slot else next

-- The rounds of the loop on `magnitude`, which stops at four.
unfoldable pub magnitude_from : ℕ → ℕ → ℕ → ℕ
magnitude_from zero magnitude size = magnitude
magnitude_from (suc left) magnitude size =
    let next = magnitude_from left (magnitude + 1) size in
    if leb (2 ^ (8 * magnitude)) size then next else magnitude

abbrev pub magnitude_of : ℕ → ℕ
unfolding magnitude_from
magnitude_of size = magnitude_from 3 1 size

-- `left` bytes of a number from the byte `i` on.
unfoldable pub size_bytes : ℕ → ℕ → ℕ → List ℕ
size_bytes zero i n = []
size_bytes (suc left) i n = n / 2 ^ (8 * i) % 256 ∷ size_bytes left (i + 1) n

abbrev pub marker_byte : ℕ → ℕ
marker_byte magnitude = bit_or (bit_or 0xc0 ((magnitude - 1) * 2 ^ 3)) 1

-- show_existing_frame, of the slot
abbrev pub show_byte : ℕ → ℕ → ℕ
show_byte raw_profile slot = bit_or (bit_or 0x88 (raw_profile * 2 ^ 3)) slot

-- The frame, its display, and the index of both.
unfoldable pub superframe : List ℕ → ℕ → ℕ → List ℕ
unfolding size_bytes
superframe bytes raw_profile slot =
    let size = length bytes in
    let magnitude = magnitude_of size in
    bytes
    ++ (show_byte raw_profile slot
        ∷ marker_byte magnitude
        ∷ (size_bytes magnitude 0 (size % 2 ^ 32)
            ++ (size_bytes magnitude 0 1 ++ (marker_byte magnitude ∷ []))))

pub record VisibleUnit : Type 0 where
  pub bytes : List ℕ
  pub sequence_start : Bool

-- The frame as it is.
unfoldable pub visible_unit : Header → Scan VisibleUnit
visible_unit h bytes pos =
    scanned (record { bytes = bytes; sequence_start = h.frame_type == 0 }) pos

unfoldable pub shown_unit : Header → ℕ → Scan VisibleUnit
unfolding lowest_slot superframe
shown_unit h refresh bytes pos =
    scanned
      (record {
        bytes = superframe bytes h.raw_profile (lowest_slot 8 0 refresh);
        sequence_start = h.frame_type == 0;
      })
      pos

unfoldable pub invisible_unit : Header → Scan VisibleUnit
unfolding scan_refresh shown_unit
invisible_unit h = do
  refresh ← scan_refresh h
  ok ← require (on refresh) no_slot
  shown_unit h refresh

unfoldable pub scan_unit : Header → Scan VisibleUnit
unfolding visible_unit invisible_unit
scan_unit h = if on h.show_frame then visible_unit h else invisible_unit h

-- The buffers must hold both headers.
unfoldable pub has_headers : FrameParameters → Scan (Unit {0})
has_headers p bytes =
    require
      (leb 3 (length bytes)
        && on p.frame_header_length_in_bytes
        && on p.first_partition_size
        && leb (p.frame_header_length_in_bytes + p.first_partition_size) (length bytes))
      missing_headers bytes

-- The checks of the buffers and the parameters.
unfoldable pub acceptable : ℕ → FrameParameters → Scan (Unit {0})
unfolding has_headers
acceptable expected_profile p = do
  ok ←
      require
        (p.profile == expected_profile
          && p.bit_depth == (if on expected_profile then 10 else 8)
          && on p.subsampling_x
          && on p.subsampling_y)
        other_format
  has_headers p

unfoldable pub translate_frame : ℕ → FrameParameters → Scan VisibleUnit
unfolding acceptable scan_header scan_unit
translate_frame expected_profile p = do
  ok ← acceptable expected_profile p
  h ← scan_header expected_profile p
  scan_unit h

-- One complete frame, with its parameters.
unfoldable pub translate : ℕ → Option FrameParameters → List (List ℕ) → Scanned VisibleUnit
unfolding translate_frame
translate expected_profile (some p) (bytes ∷ []) = translate_frame expected_profile p bytes 0
translate expected_profile _ _ = thrown not_one_frame
