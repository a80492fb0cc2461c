-- ===== src/Iris/Slots.antt =====
-- src/iris/slots.cc, class SlotPool.
pub mod Choice
pub mod Requeue
use qualcomm_iris_vaapi.Base.{
  ℕ, zero, suc, ◌+◌, Bool, true, false, not, ◌&&◌, ◌||◌, Option, none, some, List, [], ◌∷◌, ltb,
  leb, ◌==◌, if◌then◌else◌, flag, length,
}
use qualcomm_iris_vaapi.Iris.Types.{
  Session, Frame, OutputSlot, Layout, CaptureMemory, mmap, is_import, operation_failed,
  decoding_error, allocation_failed, hw_busy, queue_capture, queue_dmabuf, request_capture,
  request_output,
}
use qualcomm_iris_vaapi.Iris.Monad.{
  Result, ok, err, M, pure, throw, ◌>>=◌, ◌>>◌, require, get, modify,
}
use qualcomm_iris_vaapi.Iris.Kernel.{queue_buffer, request_buffers}

-- Change of one field of the pool.
abbrev pub with_capture : List Frame → Session → Session
with_capture fs s = record s { pool = record (s.pool) { capture = fs } }

abbrev pub with_output : List OutputSlot → Session → Session
with_output os s = record s { pool = record (s.pool) { output = os } }

abbrev pub fresh_frame : ℕ → Layout → CaptureMemory → Frame
fresh_frame i layout memory = record {
  index = i;
  fd = if is_import memory then none else some i;
  length = layout.size;
  queued = false;
  import_token = 0;
  import_fd = none;
  holders = 0;
  layout = layout;
}

unfoldable pub fresh_frames : ℕ → ℕ → Layout → CaptureMemory → List Frame
fresh_frames zero i layout memory = []
fresh_frames (suc n) i layout memory =
    fresh_frame i layout memory ∷ fresh_frames n (i + 1) layout memory

-- The lengths that QUERYBUF reports are taken to be the size of the layout.
unfoldable pub allocate_capture : ℕ → Layout → CaptureMemory → M (Unit {0})
unfolding fresh_frames
allocate_capture count layout memory = do
  s ← get
  require (length s.pool.capture == 0) operation_failed
  granted ← request_buffers request_capture count
  require (ltb 0 granted && leb granted 64) allocation_failed
  modify (λ s. record s {
    pool = record (s.pool) {
      capture = fresh_frames granted 0 layout memory;
      capture_layout = layout;
      capture_memory = memory;
    };
  })

unfoldable pub fresh_slots : ℕ → ℕ → ℕ → List OutputSlot
fresh_slots zero i size = []
fresh_slots (suc n) i size =
    record { index = i; length = size; queued = false; token = 0 } ∷ fresh_slots n (i + 1) size

unfoldable pub allocate_output : ℕ → ℕ → M (Unit {0})
unfolding fresh_slots
allocate_output count size = do
  s ← get
  require (length s.pool.output == 0) operation_failed
  granted ← request_buffers request_output count
  require (ltb 0 granted) allocation_failed
  modify (with_output (fresh_slots granted 0 size))

unfoldable pub capture_held : List Frame → ℕ
capture_held [] = 0
capture_held (f ∷ fs) = (if f.holders == 0 then 0 else 1) + capture_held fs

unfoldable pub capture_queued : List Frame → ℕ
capture_queued [] = 0
capture_queued (f ∷ fs) = flag f.queued + capture_queued fs

unfoldable pub output_queued : List OutputSlot → ℕ
output_queued [] = 0
output_queued (o ∷ os) = flag o.queued + output_queued os

unfoldable pub release_capture : M (Unit {0})
unfolding capture_held
release_capture = do
  s ← get
  require (capture_held s.pool.capture == 0) operation_failed
  modify (with_capture [])
  granted ← request_buffers request_capture 0
  modify (λ s. record s { pool = record (s.pool) { capture_memory = mmap; scratch_fd = none } })

unfoldable pub release_output : M (Unit {0})
release_output = do modify (with_output []); granted ← request_buffers request_output 0; pure tt

-- A free slot: not with the firmware and not held.
abbrev pub is_free : Frame → Bool
is_free f = not (f.queued || not (f.holders == 0))

abbrev pub count_up : Result ℕ → Result ℕ
count_up (ok n) = ok (suc n)
count_up (err e) = err e

-- One round of the loop of `requeue_capture` behind the outcome of its QBUF.
abbrev pub requeue_next :
    Result (Unit {0}) × Session
    → Frame
    → List Frame
    → (Session → Result ℕ × List Frame × Session)
    → Result ℕ × List Frame × Session
requeue_next (ok u, s) f fs rest =
    let (r, fs', s') = rest s in (count_up r, record f { queued = true } ∷ fs', s')
requeue_next (err e, s) f fs rest = (err e, f ∷ fs, s)

unfoldable pub requeue_loop : List Frame → Session → Result ℕ × List Frame × Session
requeue_loop [] s = (ok 0, [], s)
requeue_loop (f ∷ fs) s =
    let rest = requeue_loop fs s in
    let skipped : Result ℕ × List Frame × Session = (rest.0, f ∷ rest.1, rest.2) in
    let queued = requeue_next (queue_buffer (queue_capture f.index) s) f fs (requeue_loop fs) in
    if is_free f then queued else skipped

unfoldable pub requeue_capture : M ℕ
requeue_capture s =
    let (r, fs, s') = requeue_loop s.pool.capture s in
    let run : Result ℕ × Session = (r, with_capture fs s') in
    if is_import s.pool.capture_memory then (ok 0, s) else run

abbrev pub same_fd : Option ℕ → ℕ → Bool
same_fd none fd = false
same_fd (some a) fd = a == fd

abbrev pub or_first : Option ℕ → ℕ → Option ℕ
or_first none i = some i
or_first (some c) i = some c

-- The loop of `queue_capture_import`: the free slot that last carried `fd`, or else the first free one.
unfoldable pub choose_loop : ℕ → Option ℕ → List Frame → Option ℕ
choose_loop fd chosen [] = chosen
choose_loop fd chosen (f ∷ fs) =
    let next = choose_loop fd (if f.queued then chosen else or_first chosen f.index) fs in
    if not f.queued && same_fd f.import_fd fd then some f.index else next

-- A change of the slot at an index.
abbrev pub change {ℓ} : {A : Type ℓ} → ℕ → (A → A) → List A → List A
change i f [] = []
change zero f (x ∷ xs) = f x ∷ xs
change (suc i) f (x ∷ xs) = x ∷ change i f xs

abbrev pub carry : ℕ → ℕ → Frame → Frame
carry fd token f = record f { queued = true; import_fd = some fd; import_token = token }

unfoldable pub queue_import_at : Option ℕ → ℕ → ℕ → ℕ → M (Option ℕ)
queue_import_at none fd size token = pure none
queue_import_at (some i) fd size token = do
  queue_buffer (queue_dmabuf i fd size)
  modify (λ s. with_capture (change i (carry fd token) s.pool.capture) s)
  pure (some i)

unfoldable pub queue_capture_import : ℕ → ℕ → ℕ → M (Option ℕ)
unfolding queue_import_at choose_loop
queue_capture_import fd size token = do
  s ← get
  require (is_import s.pool.capture_memory) operation_failed
  queue_import_at (choose_loop fd none s.pool.capture) fd size token

abbrev pub token_at : List Frame → ℕ → ℕ
token_at [] i = 0
token_at (f ∷ fs) zero = f.import_token
token_at (f ∷ fs) (suc i) = token_at fs i

unfoldable pub take_import_token : ℕ → M ℕ
take_import_token i = do
  s ← get
  require (ltb i (length s.pool.capture)) decoding_error
  modify (λ s. with_capture (change i (λ f. record f { import_token = 0 }) s.pool.capture) s)
  pure (token_at s.pool.capture i)

-- The first slot that is not with the firmware.
unfoldable pub first_idle : List Frame → Option ℕ
first_idle [] = none
first_idle (f ∷ fs) = if f.queued then first_idle fs else some f.index

unfoldable pub scratch_at : Option ℕ → ℕ → M (Unit {0})
scratch_at none fd = throw hw_busy
scratch_at (some i) fd = do
  s ← get
  queue_buffer (queue_dmabuf i fd s.pool.capture_layout.size)
  modify (λ s. with_capture (change i (carry fd 0) s.pool.capture) s)

abbrev pub allocated : Option ℕ → M ℕ
allocated none = throw allocation_failed
allocated (some fd) = pure fd

-- The descriptor of the scratch buffer, allocated at the first use.
unfoldable pub scratch_fd : Option ℕ → M ℕ
scratch_fd (some fd) = pure fd
scratch_fd none = do
  s ← get
  fd ← allocated s.device.scratch
  modify (λ s. record s { pool = record (s.pool) { scratch_fd = some fd } })
  pure fd

unfoldable pub queue_capture_scratch : M (Unit {0})
unfolding scratch_at scratch_fd first_idle
queue_capture_scratch = do
  s ← get
  require (is_import s.pool.capture_memory) operation_failed
  fd ← scratch_fd s.pool.scratch_fd
  scratch_at (first_idle s.pool.capture) fd

-- The reference that is handed out is the index.
unfoldable pub take_capture : ℕ → M ℕ
take_capture i = do
  s ← get
  require (ltb i (length s.pool.capture)) decoding_error
  modify (λ s. with_capture (change i (λ f. record f { queued = false }) s.pool.capture) s)
  pure i

unfoldable pub free_output : List OutputSlot → Option ℕ
free_output [] = none
free_output (o ∷ os) = if o.queued then free_output os else some o.index

unfoldable pub returned_frames : List Frame → List Frame
returned_frames [] = []
returned_frames (f ∷ fs) = record f { queued = false; import_token = 0 } ∷ returned_frames fs

unfoldable pub mark_all_capture_returned : Session → Session
unfolding returned_frames
mark_all_capture_returned s = with_capture (returned_frames s.pool.capture) s

unfoldable pub returned_slots : List OutputSlot → List OutputSlot
returned_slots [] = []
returned_slots (o ∷ os) = record o { queued = false; token = 0 } ∷ returned_slots os

unfoldable pub mark_all_output_returned : Session → Session
unfolding returned_slots
mark_all_output_returned s = with_output (returned_slots s.pool.output) s
