-- ===== src/Iris/Session/Calls.antt =====
-- src/iris/session.cc: pump, and the calls of the VA layer.
use qualcomm_iris_vaapi.Base.{
  ℕ, zero, suc, ◌+◌, Bool, true, false, not, ◌&&◌, ◌||◌, Option, none, some, List, [], ◌∷◌, ◌++◌,
  ltb, leb, ◌==◌, if◌then◌else◌,
}
use qualcomm_iris_vaapi.Iris.Types.{
  Session, SessionState, Target, Buffer, Status, is_failed, is_import, is_decode_order,
  is_streaming, is_draining, is_configured, is_reconfiguring, is_finished, operation_failed,
  decoding_error, hw_busy, not_enough_buffer, surface_busy, timedout, queue_output, finished,
  failed, stream_capture, stream_output,
}
use qualcomm_iris_vaapi.Iris.Monad.{
  M, pure, throw, ◌>>=◌, ◌>>◌, require, get, modify, choose, when, catch, catch_all,
}
use qualcomm_iris_vaapi.Iris.Kernel.{queue_buffer, deadline, stream}
use qualcomm_iris_vaapi.Iris.Slots.{requeue_capture, free_output, change, with_output}
use qualcomm_iris_vaapi.Iris.Session.{
  insert, erase, with_target, failing, reset_frame, settle_all, fail,
}
use qualcomm_iris_vaapi.Iris.Session.Import.{queue_import_next}
use qualcomm_iris_vaapi.Iris.Session.Bringup.{configure_capture}
use qualcomm_iris_vaapi.Iris.Session.Servicing.{
  handle_events, handle_output_returns, handle_capture_returns,
}
use qualcomm_iris_vaapi.Iris.Session.Draining.{
  with_state, drain, restart, reconfigure, continue_reconfigure,
}

-- The body of the `try` block.
unfoldable pub pump_round : M (Unit {0})
pump_round = do
  handle_events
  s ← get
  when (s.source_change && is_configured s.state) configure_capture
  handle_output_returns
  s ← get
  when (is_streaming s.state || is_draining s.state) handle_capture_returns
  s ← get
  choose (s.source_change && is_streaming s.state) reconfigure
      (when (is_reconfiguring s.state) continue_reconfigure)
  s ← get
  when (not (is_reconfiguring s.state)) (do n ← requeue_capture; pure tt)

-- The poll is a bounded sleep, and the answers of the device do not depend on it.
unfoldable pub pump : M (Unit {0})
unfolding pump_round
pump = do
  s ← get
  choose (is_failed s.state) (pure tt)
      (do n ← requeue_capture; catch pump_round (λ e. do modify fail; throw e))

unfoldable pub released : ℕ → Session → Session
released i s =
    let t = s.targets i in
    if t.pending
    then with_target i (record t { pending = false })
        (record s { pending = erase t.token s.pending })
    else s

abbrev pub blank_target : Target → Target
blank_target t = record t { completed = false; error = false; token = 0 }

unfoldable pub release_locked : ℕ → Session → Session
unfolding released
release_locked i s =
    let s' = reset_frame i (released i s) in with_target i (blank_target (s'.targets i)) s'

abbrev pub ignore : Status → M (Unit {0})
ignore e = pure tt

unfoldable pub release : ℕ → M (Unit {0})
unfolding release_locked
release i = do
  modify (release_locked i)
  s ← get
  when (is_reconfiguring s.state) (catch continue_reconfigure ignore)

-- The mutex is free.
unfoldable pub service : M (Unit {0})
service = do s ← get; choose (is_failed s.state) (pure tt) (catch pump ignore)

-- The checks that are left before the deadline come back.
unfoldable pub await_reconfigured : ℕ → M ℕ
await_reconfigured zero = do s ← get; require (not (is_reconfiguring s.state)) surface_busy; pure 0
await_reconfigured (suc n) =
    let next = await_reconfigured n in
    do s ← get; choose (is_reconfiguring s.state) (do pump; next) (pure (suc n))

unfoldable pub accepts : SessionState → M (Unit {0})
accepts st = require (is_streaming st || is_configured st) hw_busy

abbrev pub slot_or : Option ℕ → M ℕ → M ℕ
slot_or (some j) m = pure j
slot_or none m = m

unfoldable pub await_slot : ℕ → M ℕ
unfolding accepts
await_slot zero = do
  s ← get
  slot_or (free_output s.pool.output) (do accepts s.state; throw timedout)
await_slot (suc n) =
    let next = await_slot n in
    do s ← get; slot_or (free_output s.pool.output) (do accepts s.state; pump; next)

unfoldable pub await_configured : ℕ → M (Unit {0})
await_configured zero = do s ← get; require (not (is_configured s.state)) timedout
await_configured (suc n) =
    let next = await_configured n in
    do s ← get; choose (is_configured s.state) (do pump; next) (pure tt)

abbrev pub fix_format : ℕ → Session → Session
fix_format fourcc s =
    if is_configured s.state && not (fourcc == 0)
    then record s { config = record (s.config) { capture_fourcc = fourcc } }
    else s

abbrev pub take_token : Session → Session
take_token s = record s { next_token = s.next_token + 1 }

abbrev pub armed : ℕ → Target → Target
armed token t = record t { token = token; pending = true; completed = false; error = false }

-- What submit records once the access unit is queued in the slot `j`.
unfoldable pub enter_token : ℕ → ℕ → ℕ → Session → Session
enter_token i j token s =
    let slots = change j (λ o. record o { queued = true; token = token }) s.pool.output in
    let s' = with_target i (armed token (s.targets i)) (with_output slots s) in
    let s'' = reset_frame i s' in
    record s'' {
      pending = insert token i s''.pending;
      stats = record (s''.stats) { submitted = s''.stats.submitted + 1 };
    }

abbrev pub fd_of : Option Buffer → Option ℕ
fd_of none = none
fd_of (some b) = some b.fd

-- The duplicate of a descriptor goes by the descriptor.
unfoldable pub append_backlog : ℕ → ℕ → Session → Session
append_backlog i token s = record s {
  import_backlog =
      s.import_backlog ++ (record { token = token; fd = fd_of (s.targets i).destination } ∷ []);
}

-- The part of submit behind the waits: the access unit of `size` bytes goes into the slot `j`.
unfoldable pub enqueue : ℕ → ℕ → ℕ → M (Unit {0})
unfolding enter_token append_backlog
enqueue size i j = do
  modify (λ s. fix_format (s.targets i).fourcc s)
  s ← get
  modify take_token
  queue_buffer (queue_output j size s.next_token)
  modify (enter_token i j s.next_token)
  when (is_import s.pool.capture_memory)
      (do modify (append_backlog i s.next_token); queue_import_next)

unfoldable pub submit : ℕ → ℕ → M (Unit {0})
unfolding enqueue await_reconfigured await_slot await_configured
submit size i = do
  s ← get
  require (not (is_failed s.state)) decoding_error
  require (not (is_finished s.state)) operation_failed
  require (ltb 0 size && leb size s.config.au_capacity) not_enough_buffer
  modify (λ s. if (s.targets i).pending then release_locked i s else s)
  pump
  n ← deadline
  left ← await_reconfigured n
  j ← await_slot left
  enqueue size i j
  s ← get
  when (is_configured s.state) (do n ← deadline; await_configured n)

abbrev pub count_timeout : Session → Session
count_timeout s = record s { stats = record (s.stats) { timeouts = s.stats.timeouts + 1 } }

-- The token is invalidated, so that a late completion is dropped.
unfoldable pub give_up : ℕ → M (Unit {0})
give_up i = do
  modify (λ s.
      with_target i (failing (s.targets i))
        (record s { pending = erase (s.targets i).token s.pending }))
  throw timedout

-- The deadline has passed: one drain in display order, or the end.
unfoldable pub on_expiry : ℕ → M (Unit {0}) → M (Unit {0})
unfolding give_up
on_expiry i next = do
  modify count_timeout
  s ← get
  choose (not (is_decode_order s.mode) && is_streaming s.state) (do drain true; restart; next)
      (give_up i)

-- The head of the loop: the target is settled, or the session has failed, or `body` runs.
unfoldable pub wait_check : ℕ → M (Unit {0}) → M (Unit {0})
wait_check i body = do
  s ← get
  choose (s.targets i).pending (do require (not (is_failed s.state)) decoding_error; body)
      (require (not (s.targets i).error) decoding_error)

-- `rounds` holds, for each round, whether the deadline has passed by then; `drains` is 1 until the
-- one drain is used. No call of another thread falls between the rounds.
unfoldable pub wait_loop : ℕ → ℕ → List Bool → M (Unit {0})
wait_loop i zero [] = wait_check i (do modify count_timeout; give_up i)
wait_loop i zero (true ∷ rounds) = wait_check i (do modify count_timeout; give_up i)
wait_loop i zero (false ∷ rounds) =
    let next = wait_loop i zero rounds in wait_check i (do pump; next)
wait_loop i (suc drains) [] = let next = wait_loop i drains [] in wait_check i (on_expiry i next)
wait_loop i (suc drains) (true ∷ rounds) =
    let next = wait_loop i drains rounds in wait_check i (on_expiry i next)
wait_loop i (suc drains) (false ∷ rounds) =
    let next = wait_loop i (suc drains) rounds in wait_check i (do pump; next)

unfoldable pub wait : ℕ → List Bool → M (Unit {0})
unfolding wait_loop wait_check on_expiry
wait i rounds = wait_check i (do pump; wait_loop i 1 rounds)

abbrev pub settled : Session → Session
settled s = record s { state = if is_failed s.state then failed else finished }

unfoldable pub finish : M (Unit {0})
finish = do
  s ← get
  choose (is_failed s.state || is_finished s.state) (pure tt) (
      choose (is_configured s.state) (modify (with_state finished))
        (do catch (when (is_streaming s.state) (drain false)) ignore; modify settled))

-- The destructor: whoever still waits is told that its decode failed.
unfoldable pub destroy : M (Unit {0})
destroy = do
  s ← get
  when (not (is_failed s.state))
      (catch_all (do stream (stream_capture false); stream (stream_output false)) ignore)
  modify (λ s. record s { targets = settle_all s.pending s.targets; pending = [] })
