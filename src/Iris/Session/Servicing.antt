-- ===== src/Iris/Session/Servicing.antt =====
-- src/iris/session.cc, "Servicing": events, returned buffers, publication.
use qualcomm_iris_vaapi.Base.{
  ℕ, zero, suc, ◌+◌, Bool, true, false, not, ◌&&◌, Option, none, some, List, [], ◌∷◌, ltb, ◌==◌,
  if◌then◌else◌, length,
}
use qualcomm_iris_vaapi.Iris.Types.{
  Session, Target, Frame, OutputSlot, Publish, Buffer, Dequeued, Event, Answer, Status, is_import,
  is_streaming, direct, copy, import_buffer, operation_failed, out_of_range, no_event,
  source_change, eos, again, got, broken,
}
use qualcomm_iris_vaapi.Iris.Monad.{
  M, throw, ◌>>=◌, ◌>>◌, require, get, modify, choose, when, catch,
}
use qualcomm_iris_vaapi.Iris.Kernel.{copy_frame}
use qualcomm_iris_vaapi.Iris.Slots.{
  change, with_capture, with_output, take_capture, take_import_token,
}
use qualcomm_iris_vaapi.Iris.Session.{
  lookup, erase, with_target, fail_target, count_error, reset_frame, hold_frame,
}
use qualcomm_iris_vaapi.Iris.Session.Import.{queue_import_next}

abbrev pub with_events : List Event → Session → Session
with_events es s = record s { device = record (s.device) { events = es } }

unfoldable pub events_loop : List Event → Session → Session
events_loop [] s = with_events [] s
events_loop (no_event ∷ es) s = with_events es s
events_loop (source_change ∷ es) s = events_loop es (record s { source_change = true })
events_loop (eos ∷ es) s = events_loop es s

unfoldable pub handle_events : M (Unit {0})
unfolding events_loop
handle_events = modify (λ s. events_loop s.device.events s)

-- The target of a token is told that its decode failed, and the token is forgotten.
unfoldable pub fail_token : ℕ → Session → Session
fail_token token s = elim (lookup token s.pending) [
  | none ↦ s
  | some i ↦ count_error (fail_target i (record s { pending = erase token s.pending }))
]

abbrev pub slot_token_at : List OutputSlot → ℕ → ℕ
slot_token_at [] i = 0
slot_token_at (o ∷ os) zero = o.token
slot_token_at (o ∷ os) (suc i) = slot_token_at os i

unfoldable pub output_return : Dequeued → Session → Session
unfolding fail_token
output_return d s =
    let freed =
      with_output (change d.index (λ o. record o { queued = false; token = 0 }) s.pool.output) s in
    if d.error then fail_token (slot_token_at s.pool.output d.index) freed else freed

abbrev pub with_outputs : List Answer → Session → Session
with_outputs rs s = record s { device = record (s.device) { outputs = rs } }

-- An index that is not a slot's is an exception of `std::vector::at`, which no `catch (const Error&)` catches.
unfoldable pub output_loop : List Answer → M (Unit {0})
output_loop [] = modify (with_outputs [])
output_loop (again ∷ rs) = modify (with_outputs rs)
output_loop (broken ∷ rs) = do modify (with_outputs rs); throw operation_failed
output_loop (got d ∷ rs) = do
  modify (with_outputs rs)
  s ← get
  require (ltb d.index (length s.pool.output)) out_of_range
  modify (output_return d)
  output_loop rs

unfoldable pub handle_output_returns : M (Unit {0})
unfolding output_loop output_return
handle_output_returns = do s ← get; output_loop s.device.outputs

abbrev pub done_with : Target → Target
done_with t = record t { pending = false; completed = true; error = false }

-- The copy throws, and the target is told so.
abbrev pub copy_failed : ℕ → Status → M (Unit {0})
copy_failed i e = do modify (λ s. count_error (fail_target i s)); throw e

abbrev pub has_buffer : Option Buffer → Bool
has_buffer none = false
has_buffer (some b) = true

-- How a target takes the frame of an Mmap pool; Import has become Copy.
unfoldable pub take_frame : Publish → ℕ → ℕ → M (Unit {0})
take_frame direct i j = modify (hold_frame i j)
take_frame _ i j = do
  modify (λ s. with_target i (record (s.targets i) { publish = copy }) s)
  s ← get
  require (has_buffer (s.targets i).destination && s.copier) operation_failed
  catch copy_frame (copy_failed i)
  modify (reset_frame i)

unfoldable pub publish : ℕ → ℕ → M (Unit {0})
unfolding take_frame
publish i j = do
  s ← get
  choose (is_import s.pool.capture_memory)
      (modify
        (λ s. reset_frame i (with_target i (record (s.targets i) { publish = import_buffer }) s)))
      (take_frame (s.targets i).publish i j)
  modify (λ s. with_target i (done_with (s.targets i)) s)

abbrev pub at_offset : ℕ → Frame → Frame
at_offset n f = record f { layout = record (f.layout) { data_offset = n } }

abbrev pub count_completed : Session → Session
count_completed s = record s {
  cold = false;
  stats = record (s.stats) { completed = s.stats.completed + 1 };
  progress = s.progress + 1;
}

abbrev pub count_misplaced : Session → Session
count_misplaced s = record s {
  stats = record (s.stats) { errors = s.stats.errors + 1; misplaced = s.stats.misplaced + 1 };
}

-- A picture of target `i`, whose token has left the map; the slot was queued for `slot_token`.
unfoldable pub deliver : Dequeued → ℕ → ℕ → M (Unit {0})
unfolding publish fail_token
deliver d i slot_token = do
  s ← get
  choose d.error (modify (λ s. count_error (fail_target i s))) (
      choose (is_import s.pool.capture_memory && not (slot_token == d.timestamp_us))
        (modify (λ s. fail_token slot_token (count_misplaced (fail_target i s))))
        (do
          modify (λ s. with_capture (change d.index (at_offset d.data_offset) s.pool.capture) s)
          publish i d.index
          modify count_completed))

unfoldable pub complete : Dequeued → ℕ → ℕ → M (Unit {0})
unfolding deliver
complete d i slot_token = do
  modify (λ s. record s { pending = erase d.timestamp_us s.pending })
  deliver d i slot_token

abbrev pub count_drop : Session → Session
count_drop s = record s { stats = record (s.stats) { drops = s.stats.drops + 1 } }

abbrev pub completion : Option ℕ → Dequeued → ℕ → M (Unit {0})
completion none d slot_token = modify count_drop
completion (some i) d slot_token = complete d i slot_token

-- One round of the loop.
unfoldable pub capture_return : Dequeued → M (Unit {0})
unfolding complete
capture_return d = do
  j ← take_capture d.index
  slot_token ← take_import_token d.index
  s ← get
  when (is_streaming s.state) queue_import_next
  when d.last (modify (λ s. record s { saw_last = true }))
  s ← get
  choose (d.error && d.timestamp_us == 0) (modify count_error) (
      when (ltb d.data_offset d.bytesused)
        (completion (lookup d.timestamp_us s.pending) d slot_token))

abbrev pub with_captures : List Answer → Session → Session
with_captures rs s = record s { device = record (s.device) { captures = rs } }

unfoldable pub capture_loop : List Answer → M (Unit {0})
capture_loop [] = modify (with_captures [])
capture_loop (again ∷ rs) = modify (with_captures rs)
capture_loop (broken ∷ rs) = do modify (with_captures rs); throw operation_failed
capture_loop (got d ∷ rs) = do modify (with_captures rs); capture_return d; capture_loop rs

-- The result is not used by any caller.
unfoldable pub handle_capture_returns : M (Unit {0})
unfolding capture_loop capture_return
handle_capture_returns = do s ← get; capture_loop s.device.captures
