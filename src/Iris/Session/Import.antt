-- ===== src/Iris/Session/Import.antt =====
-- src/iris/session.cc: the backlog of client buffers, and the configuration of the two queues.
use qualcomm_iris_vaapi.Base.{
  ℕ, Bool, true, false, ◌&&◌, Option, none, some, List, [], ◌∷◌, ltb, if◌then◌else◌,
}
use qualcomm_iris_vaapi.Iris.Types.{
  Session, Target, Layout, ImportEntry, Buffer, is_import, is_direct, operation_failed,
}
use qualcomm_iris_vaapi.Iris.Monad.{M, pure, ◌>>=◌, ◌>>◌, require, get, modify, choose}
use qualcomm_iris_vaapi.Iris.Kernel.{wait_dma_buf}
use qualcomm_iris_vaapi.Iris.Slots.{capture_queued, queue_capture_import}
use qualcomm_iris_vaapi.Iris.Session.{lookup, erase, fail_target, count_error, import_compatible}

abbrev pub import_window : ℕ
import_window = 1

abbrev pub with_backlog : List ImportEntry → Session → Session
with_backlog b s = record s { import_backlog = b }

-- What queue_import_next does with the entry at the head of the backlog.
pub data Head : Type 0 where
  closed : Head
  unbacked : ℕ → Head
  foreign : Head
  ready : ℕ → Head

abbrev pub no_buffer : Target → Bool
no_buffer t = elim t.destination [ none ↦ true | some b ↦ is_direct t.publish ]

abbrev pub fits : Option Buffer → Layout → Bool
fits none capture = true
fits (some b) capture = import_compatible b.layout capture

unfoldable pub head_with : Option ℕ → ℕ → Session → Head
head_with none fd s = ready fd
head_with (some i) fd s =
    if no_buffer (s.targets i)
    then unbacked i
    else if fits (s.targets i).destination s.pool.capture_layout
    then ready fd
    else foreign

unfoldable pub head_of : ImportEntry → Session → Head
unfolding head_with
head_of e s = elim e.fd [ none ↦ closed | some fd ↦ head_with (lookup e.token s.pending) fd s ]

-- The buffer at the head goes to the firmware.
unfoldable pub lend : ℕ → ℕ → List ImportEntry → M (Unit {0})
lend token fd rest = do
  wait_dma_buf
  s ← get
  slot ← queue_capture_import fd s.pool.capture_layout.size token
  require (elim slot [ none ↦ false | some i ↦ true ]) operation_failed
  modify (with_backlog rest)

-- The picture at the head has no buffer to decode into.
unfoldable pub drop_unbacked : ℕ → ℕ → List ImportEntry → Session → Session
drop_unbacked token i rest s =
    count_error
      (fail_target i (record s { import_backlog = rest; pending = erase token s.pending }))

abbrev pub on_head : Head → ImportEntry → List ImportEntry → M (Unit {0}) → M (Unit {0})
on_head closed e rest next = do modify (with_backlog rest); next
on_head (unbacked i) e rest next = do modify (drop_unbacked e.token i rest); next
on_head foreign e rest next = pure tt
on_head (ready fd) e rest next = lend e.token fd rest

abbrev pub may_lend : Session → Bool
may_lend s = is_import s.pool.capture_memory && ltb (capture_queued s.pool.capture) import_window

unfoldable pub next_loop : List ImportEntry → M (Unit {0})
next_loop [] = pure tt
next_loop (e ∷ rest) =
    let next = next_loop rest in
    do s ← get; choose (may_lend s) (on_head (head_of e s) e rest next) (pure tt)

unfoldable pub queue_import_next : M (Unit {0})
unfolding next_loop head_of lend drop_unbacked
queue_import_next = do s ← get; next_loop s.import_backlog
