-- ===== src/Iris/Session.antt =====
-- src/iris/session.cc: the token map, the targets, and failure. The children hold the rest of the class.
pub mod Import
pub mod Bringup
pub mod Servicing
pub mod Draining
pub mod Calls
pub mod Tokens
use qualcomm_iris_vaapi.Base.{
  ℕ, ◌+◌, ◌-◌, Bool, true, false, not, ◌&&◌, ◌||◌, Option, none, some, List, [], ◌∷◌, ltb, leb,
  ◌==◌, if◌then◌else◌, length,
}
use qualcomm_iris_vaapi.Iris.Types.{
  Session, Target, Layout, is_failed, is_import, is_decode_order, failed, chroma_offset,
}
use qualcomm_iris_vaapi.Iris.Slots.{change, with_capture}

-- `std::map<uint64_t, Target*>`, sorted by token; a target is a number.
unfoldable pub lookup : ℕ → List (ℕ × ℕ) → Option ℕ
lookup k [] = none
lookup k ((j, i) ∷ m) = if j == k then some i else lookup k m

unfoldable pub insert : ℕ → ℕ → List (ℕ × ℕ) → List (ℕ × ℕ)
insert k i [] = (k, i) ∷ []
insert k i ((j, h) ∷ m) =
    let after = (j, h) ∷ insert k i m in
    if ltb k j then (k, i) ∷ (j, h) ∷ m else if j == k then (k, i) ∷ m else after

unfoldable pub erase : ℕ → List (ℕ × ℕ) → List (ℕ × ℕ)
erase k [] = []
erase k ((j, i) ∷ m) = if j == k then erase k m else (j, i) ∷ erase k m

abbrev pub update : ℕ → Target → (ℕ → Target) → ℕ → Target
update i t targets j = if i == j then t else targets j

abbrev pub with_target : ℕ → Target → Session → Session
with_target i t s = record s { targets = update i t s.targets }

-- `target.pending = false; target.error = true;`
abbrev pub failing : Target → Target
failing t = record t { pending = false; error = true }

abbrev pub fail_target : ℕ → Session → Session
fail_target i s = with_target i (failing (s.targets i)) s

abbrev pub count_error : Session → Session
count_error s = record s { stats = record (s.stats) { errors = s.stats.errors + 1 } }

-- The reference to a slot that a target gives up.
abbrev pub unhold : Option ℕ → Session → Session
unhold none s = s
unhold (some j) s =
    with_capture (change j (λ f. record f { holders = f.holders - 1 }) s.pool.capture) s

-- `target.frame.reset();`
unfoldable pub reset_frame : ℕ → Session → Session
reset_frame i s =
    let t = s.targets i in with_target i (record t { frame = none }) (unhold t.frame s)

-- `target.frame = frame;` for the slot `j`.
unfoldable pub hold_frame : ℕ → ℕ → Session → Session
unfolding reset_frame
hold_frame i j s =
    let s' = reset_frame i s in
    with_target i (record (s'.targets i) { frame = some j })
      (with_capture (change j (λ f. record f { holders = f.holders + 1 }) s'.pool.capture) s')

unfoldable pub settle_all : List (ℕ × ℕ) → (ℕ → Target) → ℕ → Target
settle_all [] targets = targets
settle_all ((k, i) ∷ m) targets = settle_all m (update i (failing (targets i)) targets)

-- The descriptors that are closed are not kept track of.
unfoldable pub fail_all_pending : Session → Session
unfolding settle_all
fail_all_pending s = record s {
  targets = settle_all s.pending s.targets;
  pending = [];
  import_backlog = [];
}

unfoldable pub fail : Session → Session
unfolding fail_all_pending
fail s = if is_failed s.state then s else fail_all_pending (record s { state = failed })

unfoldable pub import_compatible : Layout → Layout → Bool
unfolding chroma_offset
import_compatible client capture =
    client.fourcc == capture.fourcc
    && client.stride == capture.stride
    && chroma_offset client == chroma_offset capture
    && leb capture.size client.size

unfoldable pub supports_import : Session → Bool
supports_import s =
    not (not s.config.import_allowed || not (is_decode_order s.mode) || s.import_rejected)
    && (length s.pool.capture == 0 || is_import s.pool.capture_memory)
