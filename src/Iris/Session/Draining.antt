-- ===== src/Iris/Session/Draining.antt =====
-- src/iris/session.cc: drain, restart, and the change of resolution.
use qualcomm_iris_vaapi.Base.{
  ℕ, zero, suc, ◌+◌, Bool, true, false, ◌&&◌, ◌||◌, List, [], ◌∷◌, ◌==◌, if◌then◌else◌, length,
}
use qualcomm_iris_vaapi.Iris.Types.{
  Session, SessionState, OutputSlot, Status, is_import, is_streaming, is_reconfiguring,
  is_restart_pending, operation_failed, decoding_error, hw_busy, stop, start, streaming, configured,
  draining, restart_pending, reconfiguring, stream_capture,
}
use qualcomm_iris_vaapi.Iris.Monad.{M, pure, throw, ◌>>=◌, ◌>>◌, require, get, modify, choose, when}
use qualcomm_iris_vaapi.Iris.Kernel.{decoder_command, deadline, stream}
use qualcomm_iris_vaapi.Iris.Slots.{
  capture_queued, capture_held, output_queued, requeue_capture, queue_capture_scratch,
  mark_all_capture_returned, take_capture, release_capture,
}
use qualcomm_iris_vaapi.Iris.Session.{fail_target, count_error, fail}
use qualcomm_iris_vaapi.Iris.Session.Import.{queue_import_next}
use qualcomm_iris_vaapi.Iris.Session.Bringup.{configure_capture}
use qualcomm_iris_vaapi.Iris.Session.Servicing.{
  handle_events, handle_output_returns, handle_capture_returns,
}

abbrev pub with_state : SessionState → Session → Session
with_state st s = record s { state = st }

abbrev pub made_progress : Session → Session
made_progress s = record s { progress = s.progress + 1 }

-- An OUTPUT slot still carries the token.
abbrev pub still_queued : ℕ → List OutputSlot → Bool
still_queued token [] = false
still_queued token (o ∷ os) = (o.queued && o.token == token) || still_queued token os

unfoldable pub unrecoverable_loop : List (ℕ × ℕ) → Session → Session
unrecoverable_loop [] s = record s { pending = [] }
unrecoverable_loop ((token, i) ∷ m) s =
    let kept = unrecoverable_loop m s in
    let lost = unrecoverable_loop m (count_error (fail_target i s)) in
    if still_queued token s.pool.output
    then record kept { pending = (token, i) ∷ kept.pending }
    else lost

unfoldable pub fail_unrecoverable_tokens : Session → Session
unfolding unrecoverable_loop
fail_unrecoverable_tokens s = unrecoverable_loop s.pending s

-- One round of the wait for LAST, behind the check of the deadline.
unfoldable pub drain_round : M (Unit {0})
drain_round = do
  s ← get
  choose (is_import s.pool.capture_memory)
      (do
        queue_import_next
        s ← get
        when (capture_queued s.pool.capture == 0) queue_capture_scratch)
      (do n ← requeue_capture; pure tt)
  handle_events
  handle_output_returns
  handle_capture_returns

abbrev pub fail_with : Status → M (Unit {0})
fail_with e = do modify fail; throw e

unfoldable pub drain_loop : ℕ → M (Unit {0})
drain_loop zero = do s ← get; choose s.saw_last (pure tt) (fail_with decoding_error)
drain_loop (suc n) =
    let next = drain_loop n in do s ← get; choose s.saw_last (pure tt) (do drain_round; next)

unfoldable pub output_drain_loop : ℕ → M (Unit {0})
output_drain_loop zero = pure tt
output_drain_loop (suc n) =
    let next = output_drain_loop n in
    do s ← get; choose (output_queued s.pool.output == 0) (pure tt) (do handle_output_returns; next)

abbrev pub count_drain : Session → Session
count_drain s = record s { stats = record (s.stats) { drains = s.stats.drains + 1 } }

-- What drain does before it waits, and after.
unfoldable pub drain_begin : M (Unit {0})
drain_begin = do
  s ← get
  require (is_streaming s.state) operation_failed
  modify (λ s. record (count_drain s) { state = draining; saw_last = false })
  stopped ← decoder_command stop
  require stopped hw_busy

unfoldable pub drain_end : Session → Session
unfolding fail_unrecoverable_tokens
drain_end s = made_progress (with_state restart_pending (fail_unrecoverable_tokens s))

unfoldable pub drain : Bool → M (Unit {0})
unfolding drain_begin drain_loop drain_round output_drain_loop drain_end
drain wait_output = do
  drain_begin
  n ← deadline
  drain_loop n
  when wait_output (do n ← deadline; output_drain_loop n)
  modify drain_end

unfoldable pub restart_loop : ℕ → M (Unit {0})
restart_loop zero = do started ← decoder_command start; choose started (pure tt) (fail_with hw_busy)
restart_loop (suc n) =
    let next = restart_loop n in
    do started ← decoder_command start; choose started (pure tt) (do handle_output_returns; next)

unfoldable pub restart : M (Unit {0})
unfolding restart_loop
restart = do
  s ← get
  require (is_restart_pending s.state) operation_failed
  k ← requeue_capture
  n ← deadline
  restart_loop n
  modify (λ s. made_progress (record s { saw_last = false; state = streaming }))

-- A frame that is still held defers the change.
unfoldable pub continue_reconfigure : M (Unit {0})
continue_reconfigure = do
  s ← get
  require (is_reconfiguring s.state) operation_failed
  choose (capture_held s.pool.capture == 0)
      (do
        release_capture
        modify (λ s. record s { source_change = true; state = configured })
        configure_capture
        modify made_progress)
      (pure tt)

-- `copier_->forget(pool_.take_capture(i)->id())` for each slot; the copy engine's cache is its own.
unfoldable pub forget_loop : ℕ → ℕ → M (Unit {0})
forget_loop zero i = pure tt
forget_loop (suc n) i = do j ← take_capture i; forget_loop n (i + 1)

abbrev pub count_reconfigure : Session → Session
count_reconfigure s = record s {
  stats = record (s.stats) { reconfigures = s.stats.reconfigures + 1 };
}

unfoldable pub reconfigure : M (Unit {0})
unfolding drain continue_reconfigure forget_loop
reconfigure = do
  modify count_reconfigure
  drain false
  modify (with_state reconfiguring)
  stream (stream_capture false)
  modify mark_all_capture_returned
  s ← get
  when s.copier (forget_loop (length s.pool.capture) 0)
  continue_reconfigure
