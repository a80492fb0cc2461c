-- ===== src/Iris/Kernel.antt =====
-- The calls that a session makes of src/iris/device.h, answered from the lists of the device.
use qualcomm_iris_vaapi.Base.{ℕ, Bool, true, false, List, [], ◌∷◌}
use qualcomm_iris_vaapi.Iris.Types.{
  Session, Device, Call, Command, FormatInfo, operation_failed, busy, done, refused,
}
use qualcomm_iris_vaapi.Iris.Monad.{◌>>◌, Result, ok, err, M}

abbrev pub next_or {ℓ} : {A : Type ℓ} → A → List A → A
next_or d [] = d
next_or d (x ∷ xs) = x

abbrev pub later {ℓ} : {A : Type ℓ} → List A → List A
later [] = []
later (x ∷ xs) = xs

abbrev pub with_device : Session → Device → Session
with_device s d = record s { device = d }

-- A call that throws leaves no trace.
abbrev pub attempt : Bool → Call → Session → Result (Unit {0}) × Session
attempt true c s = (ok tt, with_device s (record (s.device) { calls = c ∷ s.device.calls }))
attempt false c s = (err operation_failed, s)

-- QBUF, of any queue and memory. `queueing` says which of the calls that throw on failure succeed.
unfoldable pub queue_buffer : Call → M (Unit {0})
queue_buffer c s =
    attempt (next_or true s.device.queueing) c
      (with_device s (record (s.device) { queueing = later s.device.queueing }))

-- STREAMON and STREAMOFF.
unfoldable pub stream : Call → M (Unit {0})
unfolding queue_buffer
stream c = queue_buffer c

unfoldable pub granted : ℕ → M ℕ
granted n s = (
  ok (next_or n s.device.grants),
  with_device s (record (s.device) { grants = later s.device.grants }),
)

-- REQBUFS: the number granted is the next answer, or what was asked for.
unfoldable pub request_buffers : (ℕ → Call) → ℕ → M ℕ
unfolding queue_buffer granted
request_buffers c n = do queue_buffer (c n); granted n

abbrev pub command_result : Command → Call → Session → Result Bool × Session
command_result done c s =
    (ok true, with_device s (record (s.device) { calls = c ∷ s.device.calls }))
command_result busy c s = (ok false, s)
command_result refused c s = (err operation_failed, s)

unfoldable pub decoder_command : Call → M Bool
decoder_command c s =
    command_result (next_or done s.device.commands) c
      (with_device s (record (s.device) { commands = later s.device.commands }))

abbrev pub yes_or_throw : Bool → Session → Result (Unit {0}) × Session
yes_or_throw true s = (ok tt, s)
yes_or_throw false s = (err operation_failed, s)

unfoldable pub answered : M (Unit {0})
answered s =
    yes_or_throw (next_or true s.device.queueing)
      (with_device s (record (s.device) { queueing = later s.device.queueing }))

unfoldable pub format_of : FormatInfo → M FormatInfo
format_of d s = (
  ok (next_or d s.device.formats),
  with_device s (record (s.device) { formats = later s.device.formats }),
)

-- G_FMT and S_FMT.
unfoldable pub format_answer : FormatInfo → M FormatInfo
unfolding answered format_of
format_answer d = do answered; format_of d

-- S_CTRL: false where the control does not exist.
unfoldable pub set_control : M Bool
set_control s = (
  ok (next_or true s.device.controls),
  with_device s (record (s.device) { controls = later s.device.controls }),
)

-- A deadline set now: how many checks come before it has expired.
unfoldable pub deadline : M ℕ
deadline s = (
  ok (next_or 0 s.device.deadlines),
  with_device s (record (s.device) { deadlines = later s.device.deadlines }),
)

-- The implicit fence of a client's buffer, src/iris/alloc.cc.
unfoldable pub wait_dma_buf : M (Unit {0})
wait_dma_buf s =
    yes_or_throw (next_or true s.device.fences)
      (with_device s (record (s.device) { fences = later s.device.fences }))

-- The copy engine.
unfoldable pub copy_frame : M (Unit {0})
copy_frame s =
    yes_or_throw (next_or true s.device.copies)
      (with_device s (record (s.device) { copies = later s.device.copies }))
