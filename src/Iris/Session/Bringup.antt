-- ===== src/Iris/Session/Bringup.antt =====
-- src/iris/session.cc, "Bring-up": the constructor and the configuration of the two queues.
use qualcomm_iris_vaapi.Base.{
  ℕ, ◌+◌, ◌*◌, ◌/◌, ◌%◌, ◌^◌, min, max, Bool, true, false, ◌&&◌, ◌||◌, Option, none, some, List, [],
  ◌∷◌, ◌++◌, ltb, leb, ◌==◌, if◌then◌else◌,
}
use qualcomm_iris_vaapi.Iris.Types.{
  Session, SessionConfig, SessionStats, SlotPool, Target, Device, Layout, ImportEntry, Selection,
  FormatInfo, Buffer, CaptureMemory, is_import, is_decode_order, wants_import, mmap, import_memory,
  decode_order, display_order, direct, unsupported_profile, unsupported_rt_format,
  invalid_parameter, streaming, configured, stream_capture, stream_output,
}
use qualcomm_iris_vaapi.Iris.Monad.{M, pure, ◌>>=◌, ◌>>◌, require, get, modify, choose}
use qualcomm_iris_vaapi.Iris.Kernel.{stream, format_answer, set_control}
use qualcomm_iris_vaapi.Iris.Slots.{requeue_capture, allocate_output, allocate_capture}
use qualcomm_iris_vaapi.Iris.Session.{import_compatible}
use qualcomm_iris_vaapi.Iris.Session.Import.{queue_import_next, with_backlog}

-- v4l2_fourcc('N', 'V', '1', '2') and v4l2_fourcc('P', '0', '1', '0'), which VA spells the same way.
abbrev pub nv12 : ℕ
nv12 = 0x3231564e

abbrev pub p010 : ℕ
p010 = 0x30313050

unfoldable pub default_au_capacity : ℕ → ℕ → ℕ
default_au_capacity width height =
    let area = width * height in
    if ltb (1920 * 1088) area then min (8 * 2 ^ 20) (max (2 * 2 ^ 20) area) else 2 * 2 ^ 20

-- `source` answers both controls, the second only where the first exists.
unfoldable pub display_controls : M Bool
display_controls = do delay ← set_control; choose delay set_control (pure false)

unfoldable pub configure_output : M (Unit {0})
unfolding display_controls
configure_output = do
  s ← get
  granted ← format_answer (record {
    pixelformat = s.config.codec_pixelformat;
    width = s.config.width;
    height = s.config.height;
    num_planes = 1;
    bytesperline = 0;
    sizeimage = s.config.au_capacity;
  })
  require (granted.pixelformat == s.config.codec_pixelformat) unsupported_profile
  modify (λ s. record s {
    config = record (s.config) {
      au_capacity = if granted.sizeimage == 0 then s.config.au_capacity else granted.sizeimage;
    };
  })
  both ← display_controls
  modify (λ s. record s { mode = if both then decode_order else display_order })
  s ← get
  allocate_output s.config.output_slots s.config.au_capacity
  stream (stream_output true)
  modify (λ s. record s { state = configured })

abbrev pub listed : ℕ → List ImportEntry → Bool
listed token [] = false
listed token (e ∷ es) = e.token == token || listed token es

abbrev pub with_entry : ℕ → Option Buffer → List ImportEntry → List ImportEntry
with_entry token none backlog = backlog
with_entry token (some b) backlog =
    if listed token backlog
    then backlog
    else backlog ++ (record { token = token; fd = some b.fd } ∷ [])

-- Pictures that are submitted and have no entry yet join the backlog.
unfoldable pub enlist : List (ℕ × ℕ) → (ℕ → Target) → List ImportEntry → List ImportEntry
enlist [] targets backlog = backlog
enlist ((token, i) ∷ m) targets backlog =
    enlist m targets (with_entry token (targets i).destination backlog)

unfoldable pub enter_streaming : M (Unit {0})
unfolding enlist
enter_streaming = do
  s ← get
  choose (is_import s.pool.capture_memory)
      (do modify (with_backlog (enlist s.pending s.targets s.import_backlog)); queue_import_next)
      (do n ← requeue_capture; pure tt)
  stream (stream_capture true)
  modify (λ s. record s { source_change = false; saw_last = false; state = streaming })

abbrev pub compatible_with : Option Buffer → Layout → Bool
compatible_with none layout = false
compatible_with (some b) layout = import_compatible b.layout layout

-- The memory that the first pending picture asks for, and whether its wish is turned down.
abbrev pub wish : List (ℕ × ℕ) → Session → Layout → CaptureMemory × Bool
wish [] s layout = (mmap, s.import_rejected)
wish ((token, i) ∷ m) s layout =
    let met =
      s.config.import_allowed
      && is_decode_order s.mode
      && compatible_with (s.targets i).destination layout in
    if wants_import (s.targets i).publish
    then if met then (import_memory, s.import_rejected) else (mmap, true)
    else (mmap, s.import_rejected)

abbrev pub at_least : Option ℕ → ℕ → ℕ
at_least none wanted = wanted
at_least (some n) wanted = max wanted n

unfoldable pub pool_size : ℕ → Option ℕ → ℕ
pool_size surface_count minimum = at_least minimum (min 64 (max 32 ((surface_count + 4) % 2 ^ 32)))

abbrev pub usable : Selection → FormatInfo → Bool
usable c granted =
    ltb 0 c.width && ltb 0 c.height && leb c.width granted.width && leb c.height granted.height

abbrev pub clipped : Session → FormatInfo → Selection
clipped s granted = record {
  left = 0;
  top = 0;
  width = min s.config.width granted.width;
  height = min s.config.height granted.height;
}

unfoldable pub visible_area : Option Selection → Session → FormatInfo → Selection
visible_area none s granted = clipped s granted
visible_area (some c) s granted = if usable c granted then c else clipped s granted

unfoldable pub capture_layout_of : ℕ → FormatInfo → Layout
capture_layout_of fourcc granted = record {
  fourcc = fourcc;
  width = granted.width;
  height = granted.height;
  stride = granted.bytesperline;
  storage_height = (granted.height + 31) % 2 ^ 32 / 32 * 32;
  data_offset = 0;
  size = granted.sizeimage;
}

unfoldable pub configure_capture : M (Unit {0})
unfolding pool_size visible_area capture_layout_of
configure_capture = do
  s ← get
  let pixelformat = if s.config.capture_fourcc == p010 then p010 else nv12
  current ← format_answer (record {
    pixelformat = pixelformat;
    width = s.config.width;
    height = s.config.height;
    num_planes = 1;
    bytesperline = 0;
    sizeimage = 0;
  })
  granted ← format_answer (record current { pixelformat = pixelformat })
  require (granted.pixelformat == pixelformat && granted.num_planes == 1) unsupported_rt_format
  let area = visible_area s.device.compose s granted
  modify (λ s. record s {
    visible = area;
    config = record (s.config) { width = area.width; height = area.height };
  })
  let layout = capture_layout_of s.config.capture_fourcc granted
  modify (λ s. record s { import_rejected = (wish s.pending s layout).1 })
  allocate_capture (pool_size s.config.surface_count s.device.minimum) layout
      (wish s.pending s layout).0
  enter_streaming

abbrev pub no_stats : SessionStats
no_stats = record {
  submitted = 0;
  completed = 0;
  errors = 0;
  drops = 0;
  timeouts = 0;
  drains = 0;
  reconfigures = 0;
  misplaced = 0;
}

abbrev pub no_pool : SlotPool
no_pool = record {
  capture = [];
  output = [];
  capture_layout = record {
    fourcc = 0;
    width = 0;
    height = 0;
    stride = 0;
    storage_height = 0;
    data_offset = 0;
    size = 0;
  };
  capture_memory = mmap;
  scratch_fd = none;
}

abbrev pub idle_target : Target
idle_target = record {
  token = 0;
  pending = false;
  frame = none;
  completed = false;
  error = false;
  publish = direct;
  destination = none;
  fourcc = 0;
}

-- The members as the constructor's initialisers leave them.
unfoldable pub blank : SessionConfig → Device → Bool → Session
blank config device copier = record {
  device = device;
  pool = no_pool;
  config = config;
  copier = copier;
  mode = display_order;
  state = configured;
  stats = no_stats;
  visible = record { left = 0; top = 0; width = 0; height = 0 };
  next_token = 1;
  pending = [];
  targets = λ i. idle_target;
  source_change = false;
  saw_last = false;
  cold = true;
  import_rejected = false;
  import_backlog = [];
  progress = 0;
}

-- The body of the constructor.
unfoldable pub construct : M (Unit {0})
unfolding default_au_capacity
construct = do
  s ← get
  require (ltb 0 s.config.width && ltb 0 s.config.height && ltb 0 s.config.codec_pixelformat)
      invalid_parameter
  modify (λ s. record s {
    visible = record { left = 0; top = 0; width = s.config.width; height = s.config.height };
    config = record (s.config) {
      au_capacity =
          if s.config.au_capacity == 0
          then default_au_capacity s.config.width s.config.height
          else s.config.au_capacity;
    };
  })
  configure_output
