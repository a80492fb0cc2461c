-- ===== src/Iris/Examples.antt =====
-- A decoder at concrete answers of the device.
use qualcomm_iris_vaapi.Base.{
  ℕ, ◌+◌, ◌<◌, ◌≡◌, refl, ◌⊎◌, inl, inr, arith, none, some, List, [], ◌∷◌, length, true, false,
}
use qualcomm_iris_vaapi.Iris.Types.{
  Session, SessionConfig, Target, Device, Frame, Dequeued, mmap, import_memory, direct, copy, again,
  got, broken, streaming, failed,
}
use qualcomm_iris_vaapi.Iris.Monad.{
  ok, pure, throw, ◌>>=◌, ◌>>◌, require, get, modify, choose, when, catch,
}
use qualcomm_iris_vaapi.Iris.Kernel.{
  queue_buffer, stream, request_buffers, format_answer, set_control, deadline,
}
use qualcomm_iris_vaapi.Iris.Slots.{
  requeue_capture, requeue_loop, allocate_output, fresh_slots, capture_queued, choose_loop,
  free_output, fresh_frames, take_capture, take_import_token,
}
use qualcomm_iris_vaapi.Iris.Slots.Choice.{Chosen, choose_loop-Chosen}
use qualcomm_iris_vaapi.Iris.Slots.Requeue.{Requeued, requeue_capture-Requeued}
use qualcomm_iris_vaapi.Iris.Session.{
  lookup, insert, erase, fail, fail_all_pending, settle_all, reset_frame, hold_frame,
}
use qualcomm_iris_vaapi.Iris.Session.Bringup.{
  blank, construct, configure_output, display_controls, nv12, no_pool,
}
use qualcomm_iris_vaapi.Iris.Session.Import.{queue_import_next}
use qualcomm_iris_vaapi.Iris.Session.Servicing.{
  handle_events, events_loop, handle_output_returns, output_loop, handle_capture_returns,
  capture_loop, capture_return, complete, publish, take_frame, deliver,
}
use qualcomm_iris_vaapi.Iris.Session.Draining.{fail_unrecoverable_tokens}
use qualcomm_iris_vaapi.Iris.Session.Calls.{
  pump, pump_round, submit, service, wait, wait_check, wait_loop, await_reconfigured, await_slot,
  await_configured, accepts, enqueue, enter_token, destroy,
}
use qualcomm_iris_vaapi.Iris.Session.Tokens.{Named}
use qualcomm_iris_vaapi.Iris.Session.Tokens.Reachable.{
  Request, submit_surface, submits, services, run, perform, session_after, session_after-Named,
  session_after-failed,
}
use qualcomm_iris_vaapi.Iris.Session.Tokens.Settling.{
  HasFailed, Settled, fail-settles, destroy-settles, wait-Settled,
}
use qualcomm_iris_vaapi.Iris.Session.Tokens.Losses.{
  InFlight, Kept, Unpublished, fail_unrecoverable_tokens-pending, fail_unrecoverable_tokens-lost,
  deliver-misplaced,
}

abbrev config : SessionConfig
config = record {
  codec_pixelformat = 7;
  capture_fourcc = nv12;
  width = 64;
  height = 64;
  surface_count = 4;
  output_slots = 2;
  au_capacity = 4096;
  import_allowed = true;
}

-- It answers with success, and at the second look at the OUTPUT queue it fails.
abbrev breaking : Device
breaking = record {
  events = [];
  outputs = again ∷ broken ∷ [];
  captures = [];
  queueing = [];
  formats = [];
  compose = none;
  minimum = none;
  controls = [];
  grants = [];
  commands = [];
  deadlines = [];
  copies = [];
  fences = [];
  scratch = some 9;
  calls = [];
}

-- A picture goes out as a copy.
abbrev requests : List Request
requests =
    submits copy (record { fd = 5; layout = no_pool.capture_layout }) nv12 100 0 ∷ services ∷ []

session_after-Named_example :
    Named
      (session_after config breaking false requests).targets
      (session_after config breaking false requests).next_token
      (session_after config breaking false requests).pending
session_after-Named_example = session_after-Named config breaking false requests

session_after-failed_example : (session_after config breaking false requests).pending ≡ []
unfolding run perform submit_surface construct configure_output display_controls blank submit
    service pump pump_round requeue_capture requeue_loop allocate_output fresh_slots handle_events
    events_loop handle_output_returns output_loop await_reconfigured await_slot await_configured
    accepts enqueue enter_token fail fail_all_pending settle_all insert reset_frame free_output
    queue_buffer stream request_buffers format_answer set_control deadline pure throw ◌>>=◌ ◌>>◌
    require get modify catch choose when
session_after-failed_example = session_after-failed config breaking false requests refl

abbrev waiting : Target
waiting = record {
  token = 1;
  pending = true;
  frame = none;
  completed = false;
  error = false;
  publish = direct;
  destination = none;
  fourcc = 0;
}

-- Targets 0 and 1 wait for the tokens 1 and 2.
abbrev two_waiting : Session
unfolding blank
two_waiting = record (blank config breaking false) {
  targets = λ i. record waiting { token = i + 1 };
  pending = (1, 0) ∷ (2, 1) ∷ [];
  next_token = 3;
  state = streaming;
}

fail-settles_example :
    HasFailed ((fail two_waiting).targets 1)
    × ((fail two_waiting).state ≡ failed)
    × ((fail two_waiting).pending ≡ [])
    × ((fail two_waiting).import_backlog ≡ [])
    × (fail (fail two_waiting) ≡ fail two_waiting)
unfolding lookup two_waiting
fail-settles_example = fail-settles two_waiting 2 1 refl refl

destroy-settles_example :
    (HasFailed ((destroy two_waiting).1.targets 1) × ((destroy two_waiting).1.pending ≡ []))
    × ((destroy two_waiting).0 ≡ ok tt)
unfolding lookup two_waiting
destroy-settles_example = destroy-settles two_waiting 2 1 refl

-- The picture comes back in the slot 0.
abbrev picture : Dequeued
picture = record {
  index = 0;
  last = false;
  error = false;
  timestamp_us = 1;
  bytesused = 10;
  data_offset = 0;
}

abbrev slots : List Frame
unfolding fresh_frames
slots = fresh_frames 2 0 no_pool.capture_layout mmap

abbrev decoding : Session
decoding = record two_waiting {
  pool = record no_pool { capture = slots };
  device = record breaking { outputs = []; captures = got picture ∷ [] };
}

wait-Settled_example : Settled 0 (wait 0 (false ∷ []) decoding).1
unfolding two_waiting slots wait wait_check wait_loop pump pump_round requeue_capture requeue_loop
    handle_events events_loop handle_output_returns output_loop handle_capture_returns capture_loop
    capture_return take_capture take_import_token complete deliver publish take_frame hold_frame
    reset_frame lookup erase queue_buffer pure throw ◌>>=◌ ◌>>◌ require get modify catch choose when
    queue_import_next
wait-Settled_example = wait-Settled 0 (false ∷ []) decoding refl

requeue_capture-Requeued_example : Requeued slots (requeue_capture decoding).1.pool.capture
requeue_capture-Requeued_example = requeue_capture-Requeued decoding refl

choose_loop-Chosen_example :
    ((capture_queued slots ≡ length slots) × (choose_loop 5 none slots ≡ none))
    ⊎ ((i : ℕ) × (choose_loop 5 none slots ≡ some i)
        × (capture_queued slots < length slots)
        × Chosen 5 slots i)
choose_loop-Chosen_example = choose_loop-Chosen 5 slots

-- The access unit of the token 1 is still with the firmware, and the slot of the token 2 has come back.
abbrev one_sent : Session
one_sent = record two_waiting {
  pool = record no_pool {
    output =
        record { index = 0; length = 4096; queued = true; token = 1 }
        ∷ record { index = 1; length = 4096; queued = false; token = 2 }
        ∷ [];
  };
}

not_sent : InFlight 2 one_sent.pool.output → ⊥
not_sent (inl (queued, same)) = absurd (ground (arith, same))
not_sent (inr (inl (queued, same))) = cc
not_sent (inr (inr h)) = absurd h

fail_unrecoverable_tokens-pending_example :
    Kept one_sent.pool.output one_sent.pending (fail_unrecoverable_tokens one_sent).pending
fail_unrecoverable_tokens-pending_example = fail_unrecoverable_tokens-pending one_sent

fail_unrecoverable_tokens-lost_example : HasFailed ((fail_unrecoverable_tokens one_sent).targets 1)
unfolding lookup two_waiting
fail_unrecoverable_tokens-lost_example = fail_unrecoverable_tokens-lost one_sent 2 1 refl not_sent

-- Buffers are lent; the token 1 has left the map, and its picture came in the buffer of the token 2.
abbrev lent : Session
lent = record two_waiting {
  pool = record no_pool { capture_memory = import_memory };
  pending = (2, 1) ∷ [];
}

deliver-misplaced_example :
    HasFailed ((deliver picture 0 2 lent).1.targets 0)
    × HasFailed ((deliver picture 0 2 lent).1.targets 1)
    × ((deliver picture 0 2 lent).1.pending ≡ erase 2 lent.pending)
    × ((deliver picture 0 2 lent).1.stats.completed ≡ lent.stats.completed)
    × Unpublished (lent.targets 0) ((deliver picture 0 2 lent).1.targets 0)
    × ((deliver picture 0 2 lent).1.pool ≡ lent.pool)
    × ((deliver picture 0 2 lent).1.device ≡ lent.device)
unfolding lookup two_waiting
deliver-misplaced_example = deliver-misplaced picture 0 1 2 lent refl refl refl refl
