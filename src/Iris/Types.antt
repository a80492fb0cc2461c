-- ===== src/Iris/Types.antt =====
-- src/iris/device.h, slots.h and session.h: the data of a decode session.
use qualcomm_iris_vaapi.Base.{ℕ, ◌+◌, ◌*◌, ◌%◌, ◌^◌, Bool, true, false, Option, List}

pub data Status : Type 0 where
  operation_failed invalid_parameter decoding_error not_enough_buffer surface_busy hw_busy
        timedout :
      Status
  unsupported_profile unsupported_rt_format allocation_failed : Status
  -- `std::out_of_range`, which is not an Error
  out_of_range : Status

-- What `catch (const Error&)` catches.
abbrev pub is_error : Status → Bool
is_error out_of_range = false
is_error _ = true

pub data CaptureMemory : Type 0 where
  mmap import_memory : CaptureMemory

pub record Layout : Type 0 where
  pub fourcc : ℕ
  pub width : ℕ
  pub height : ℕ
  pub stride : ℕ
  pub storage_height : ℕ
  pub data_offset : ℕ
  pub size : ℕ

-- `unsigned` arithmetic.
unfoldable pub chroma_offset : Layout → ℕ
chroma_offset l = (l.data_offset + l.stride * l.storage_height) % 2 ^ 32

-- A frame of the pool. `holders` is its use count less the pool's own reference; a descriptor that
-- is negative in the source is `none`.
pub record Frame : Type 0 where
  pub index : ℕ
  pub fd : Option ℕ
  pub length : ℕ
  pub queued : Bool
  pub import_token : ℕ
  pub import_fd : Option ℕ
  pub holders : ℕ
  pub layout : Layout

pub record OutputSlot : Type 0 where
  pub index : ℕ
  pub length : ℕ
  pub queued : Bool
  pub token : ℕ

pub record SlotPool : Type 0 where
  pub capture : List Frame
  pub output : List OutputSlot
  pub capture_layout : Layout
  pub capture_memory : CaptureMemory
  pub scratch_fd : Option ℕ

pub data SessionMode : Type 0 where
  decode_order display_order : SessionMode

pub data SessionState : Type 0 where
  configured streaming draining restart_pending reconfiguring finished failed : SessionState

pub data Publish : Type 0 where
  direct copy import_buffer : Publish

-- The target's StableBuffer, as far as the session reads it.
pub record Buffer : Type 0 where
  pub fd : ℕ
  pub layout : Layout

-- `frame` is the index of the held slot.
pub record Target : Type 0 where
  pub token : ℕ
  pub pending : Bool
  pub frame : Option ℕ
  pub completed : Bool
  pub error : Bool
  pub publish : Publish
  pub destination : Option Buffer
  pub fourcc : ℕ

pub record SessionConfig : Type 0 where
  pub codec_pixelformat : ℕ
  pub capture_fourcc : ℕ
  pub width : ℕ
  pub height : ℕ
  pub surface_count : ℕ
  pub output_slots : ℕ
  pub au_capacity : ℕ
  pub import_allowed : Bool

pub record SessionStats : Type 0 where
  pub submitted : ℕ
  pub completed : ℕ
  pub errors : ℕ
  pub drops : ℕ
  pub timeouts : ℕ
  pub drains : ℕ
  pub reconfigures : ℕ
  pub misplaced : ℕ

pub record ImportEntry : Type 0 where
  pub token : ℕ
  pub fd : Option ℕ

pub record FormatInfo : Type 0 where
  pub pixelformat : ℕ
  pub width : ℕ
  pub height : ℕ
  pub num_planes : ℕ
  pub bytesperline : ℕ
  pub sizeimage : ℕ

pub record Selection : Type 0 where
  pub left : ℕ
  pub top : ℕ
  pub width : ℕ
  pub height : ℕ

-- The flags are the two that the session reads.
pub record Dequeued : Type 0 where
  pub index : ℕ
  pub last : Bool
  pub error : Bool
  pub timestamp_us : ℕ
  pub bytesused : ℕ
  pub data_offset : ℕ

pub data Event : Type 0 where
  no_event source_change eos : Event

-- A non-blocking DQBUF: nothing there, a buffer, or an error that throws.
pub data Answer : Type 0 where
  again : Answer
  got : Dequeued → Answer
  broken : Answer

-- DECODER_CMD: done, EBUSY, or an error that throws.
pub data Command : Type 0 where
  done busy refused : Command

-- What the kernel was asked to do, in the order of the calls, newest first.
pub data Call : Type 0 where
  queue_output : ℕ → ℕ → ℕ → Call
  queue_capture : ℕ → Call
  queue_dmabuf : ℕ → ℕ → ℕ → Call
  stream_output stream_capture : Bool → Call
  request_output request_capture : ℕ → Call
  stop start : Call

-- The device, the clock and the copy engine: for each question the answers to come. A list that is
-- used up answers with success, or with nothing to report. A deadline is the number of checks before
-- it has expired.
pub record Device : Type 0 where
  pub events : List Event
  pub outputs : List Answer
  pub captures : List Answer
  pub queueing : List Bool
  pub formats : List FormatInfo
  pub compose : Option Selection
  pub minimum : Option ℕ
  pub controls : List Bool
  pub grants : List ℕ
  pub commands : List Command
  pub deadlines : List ℕ
  pub copies : List Bool
  pub fences : List Bool
  pub scratch : Option ℕ
  pub calls : List Call

pub record Session : Type 0 where
  pub device : Device
  pub pool : SlotPool
  pub config : SessionConfig
  pub copier : Bool
  pub mode : SessionMode
  pub state : SessionState
  pub stats : SessionStats
  pub visible : Selection
  pub next_token : ℕ
  pub pending : List (ℕ × ℕ)
  pub targets : ℕ → Target
  pub source_change : Bool
  pub saw_last : Bool
  pub cold : Bool
  pub import_rejected : Bool
  pub import_backlog : List ImportEntry
  pub progress : ℕ

abbrev pub is_streaming : SessionState → Bool
is_streaming streaming = true
is_streaming _ = false

abbrev pub is_draining : SessionState → Bool
is_draining draining = true
is_draining _ = false

abbrev pub is_configured : SessionState → Bool
is_configured configured = true
is_configured _ = false

abbrev pub is_reconfiguring : SessionState → Bool
is_reconfiguring reconfiguring = true
is_reconfiguring _ = false

abbrev pub is_restart_pending : SessionState → Bool
is_restart_pending restart_pending = true
is_restart_pending _ = false

abbrev pub is_failed : SessionState → Bool
is_failed failed = true
is_failed _ = false

abbrev pub is_finished : SessionState → Bool
is_finished finished = true
is_finished _ = false

abbrev pub is_import : CaptureMemory → Bool
is_import import_memory = true
is_import mmap = false

abbrev pub is_decode_order : SessionMode → Bool
is_decode_order decode_order = true
is_decode_order display_order = false

abbrev pub wants_import : Publish → Bool
wants_import import_buffer = true
wants_import _ = false

abbrev pub is_direct : Publish → Bool
is_direct direct = true
is_direct _ = false
