-- ===== src/Codec/Hevc/Slices.antt =====
-- src/codec/hevc.cc, rewrite_slice: a slice header with its own reference picture set and lists.
pub mod Parts
pub mod Rewriting
use qualcomm_iris_vaapi.Base.{ℕ, zero, suc, Bool, true, false, List, if◌then◌else◌}
use qualcomm_iris_vaapi.Base.Int.{ℤ}
use qualcomm_iris_vaapi.Codec.Writer.{BitWriter}
use qualcomm_iris_vaapi.Codec.Reader.{BitReader}
use qualcomm_iris_vaapi.Codec.Reader
use qualcomm_iris_vaapi.Codec.Syntax.{Write}
use qualcomm_iris_vaapi.Codec.Hevc.{HevcPicture}
use qualcomm_iris_vaapi.Codec.Hevc.References.{Refusal, Checked, fine, refused}

-- The fields that only slices read.
pub record SliceContext : Type 0 where
  pub picture : HevcPicture
  pub poc : ℤ
  pub lists_modification_present_flag : ℕ
  pub num_short_term_ref_pic_sets : ℕ
  pub st_rps_bits : ℕ
  pub num_long_term_ref_pic_sps : ℕ

-- VASliceParameterBufferHEVC
pub record HevcSlice : Type 0 where
  pub slice_data_offset : ℕ
  pub slice_data_size : ℕ
  pub slice_data_byte_offset : ℕ
  pub slice_segment_address : ℕ
  pub slice_type : ℕ
  pub ref_pic_lists : List (List ℕ)

-- What a call throws, in the order of the source.
pub data SliceRefusal : Type 0 where
  truncated_nal invalid_nal address_mismatch type_mismatch no_sps_rps no_rps_bits : SliceRefusal
  rps_size long_term_rps no_references active_count not_in_rps : SliceRefusal
  no_data_offset data_offset byte_alignment : SliceRefusal
  of_references : Refusal → SliceRefusal

-- The reader, the writer, and the position from which bits are still to be copied.
pub record Cursor : Type 0 where
  pub reader : BitReader
  pub writer : BitWriter
  pub copied : ℕ

pub data Stepped (A : Type 0) : Type 0 where
  stepped : A → Cursor → Stepped A
  stopped : SliceRefusal → Stepped A

abbrev pub Step : Type 0 → Type 0
Step A = Cursor → Stepped A

abbrev pub resume_with : {A B : Type 0} → (A → Step B) → Stepped A → Stepped B
resume_with f (stepped a c) = f a c
resume_with f (stopped r) = stopped r

infixl 5 ◌>>=◌
unfoldable pub ◌>>=◌ : {A B : Type 0} → Step A → (A → Step B) → Step B
(m >>= f) c = resume_with f (m c)

unfoldable pub pure : {A : Type 0} → A → Step A
pure a c = stepped a c

unfoldable pub require : Bool → SliceRefusal → Step (Unit {0})
require true r c = stepped tt c
require false r c = stopped r

abbrev pub reading : ℕ × BitReader → Cursor → Stepped ℕ
reading (v, r) c = stepped v (record c { reader = r })

unfoldable pub read_flag : Step ℕ
read_flag c = reading (Reader.bit c.reader) c

unfoldable pub read_number : ℕ → Step ℕ
read_number count c = reading (Reader.bits c.reader count) c

unfoldable pub read_code : Step ℕ
read_code c = reading (Reader.ue c.reader) c

unfoldable pub skip_bits : ℕ → Step (Unit {0})
skip_bits count c = stepped tt (record c { reader = Reader.skip c.reader count })

unfoldable pub seek_to : ℕ → Step (Unit {0})
seek_to at_bit c = stepped tt (record c { reader = Reader.seek c.reader at_bit })

unfoldable pub position : Step ℕ
position c = stepped c.reader.position c

unfoldable pub put_bits : Write → Step (Unit {0})
put_bits f c = stepped tt (record c { writer = f c.writer })

-- `copied = r.position()`
unfoldable pub resume_copy : Step (Unit {0})
resume_copy c = stepped tt (record c { copied = c.reader.position })

-- The bits from `copied` to the end, and the reader back where it was.
abbrev pub copied_to : ℕ → Cursor → BitReader × BitWriter → Stepped (Unit {0})
copied_to end_bit c (r, w) =
    stepped tt (record { reader = Reader.seek r c.reader.position; writer = w; copied = end_bit })

unfoldable pub copy_to : ℕ → Step (Unit {0})
copy_to end_bit c =
    copied_to end_bit c (Reader.copy (Reader.seek c.reader c.copied) c.writer end_bit)

abbrev pub when_step : Bool → Step (Unit {0}) → Step (Unit {0})
when_step c m = if c then m else pure tt

-- A step whose value is dropped.
abbrev pub drop_value : {A : Type 0} → Step A → Step (Unit {0})
drop_value m = m >>= λ a. pure tt

-- `rounds` times the same step.
unfoldable pub times : ℕ → Step (Unit {0}) → Step (Unit {0})
times zero m = pure tt
times (suc rounds) m = m >>= λ ok. times rounds m

abbrev pub of_checked : Cursor → Checked BitWriter → Stepped (Unit {0})
of_checked c (fine w) = stepped tt (record c { writer = w })
of_checked c (refused f) = stopped (of_references f)
