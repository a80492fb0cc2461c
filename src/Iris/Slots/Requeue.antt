-- ===== src/Iris/Slots/Requeue.antt =====
-- What requeue_capture gives to the firmware.
use qualcomm_iris_vaapi.Base.{
  ℕ, ◌+◌, ◌≡◌, refl, ◌⊎◌, inl, inr, true, false, List, [], ◌∷◌, arith, Bool-cases,
}
use qualcomm_iris_vaapi.Iris.Types.{Session, Frame, Call, is_import}
use qualcomm_iris_vaapi.Iris.Monad.{Result, ok, err}
use qualcomm_iris_vaapi.Iris.Kernel.{queue_buffer}
use qualcomm_iris_vaapi.Iris.Slots.{
  is_free, requeue_loop, requeue_next, requeue_capture, capture_queued, count_up,
}

-- Slot by slot: as it was, or before with neither the firmware nor a holder and with the firmware now.
abbrev pub Requeued : List Frame → List Frame → Type 0
Requeued [] [] = Unit {0}
Requeued [] (g ∷ gs) = ⊥
Requeued (f ∷ fs) [] = ⊥
Requeued (f ∷ fs) (g ∷ gs) =
    ((g ≡ f) ⊎ ((f.queued ≡ false) × (f.holders ≡ 0) × (g ≡ record f { queued = true })))
    × Requeued fs gs

abbrev pub NoneFree : List Frame → Type 0
NoneFree [] = Unit {0}
NoneFree (f ∷ fs) = (is_free f ≡ false) × NoneFree fs

Requeued-refl : (fs : List Frame) → Requeued fs fs
Requeued-refl [] = tt
Requeued-refl (f ∷ fs) = (inl refl, Requeued-refl fs)

free_idle : (f : Frame) → is_free f ≡ true → (f.queued ≡ false) × (f.holders ≡ 0)
free_idle f free = (ground (arith, free), ground (arith, free))

-- What the loop promises, by its result.
abbrev Requeues : List Frame → Result ℕ → List Frame → Type 0
Requeues fs (ok n) gs = Requeued fs gs × NoneFree gs × (capture_queued gs ≡ capture_queued fs + n)
Requeues fs (err e) gs = Requeued fs gs

next_Requeues :
    (p : Result (Unit {0}) × Session) (f : Frame) (fs : List Frame)
    → is_free f ≡ true
    → ((s : Session) → Requeues fs (requeue_loop fs s).0 (requeue_loop fs s).1)
    → Requeues
        (f ∷ fs)
        (requeue_next p f fs (requeue_loop fs)).0
        (requeue_next p f fs (requeue_loop fs)).1
unfolding capture_queued
next_Requeues (ok u, s) f fs free k = go (requeue_loop fs s).0 (k s)
  where
    idle : (f.queued ≡ false) × (f.holders ≡ 0)
    idle = free_idle f free

    go :
        (r : Result ℕ)
        → Requeues fs r (requeue_loop fs s).1
        → Requeues (f ∷ fs) (count_up r) (record f { queued = true } ∷ (requeue_loop fs s).1)
    go (ok n) h = ((inr (idle.0, idle.1, refl), h.0), (refl, h.1), ground (arith, free, h.2))
    go (err e) h = (inr (idle.0, idle.1, refl), h)
next_Requeues (err e, s) f fs free k = (inl refl, Requeued-refl fs)

skipped_Requeues :
    (f : Frame) (fs gs : List Frame) (r : Result ℕ)
    → is_free f ≡ false
    → Requeues fs r gs
    → Requeues (f ∷ fs) r (f ∷ gs)
unfolding capture_queued
skipped_Requeues f fs gs (ok n) taken h = ((inl refl, h.0), (taken, h.1), omega (arith, h.2))
skipped_Requeues f fs gs (err e) taken h = (inl refl, h)

requeue_loop-Requeues :
    (fs : List Frame) (s : Session) → Requeues fs (requeue_loop fs s).0 (requeue_loop fs s).1
unfolding requeue_loop capture_queued
requeue_loop-Requeues [] s = (tt, tt, refl)
requeue_loop-Requeues (f ∷ fs) s = elim (Bool-cases (is_free f)) [
  | inl free ↦ rw free (
      next_Requeues (queue_buffer (Call.queue_capture f.index) s) f fs free
        (requeue_loop-Requeues fs))
  | inr taken ↦ rw taken (
      skipped_Requeues f fs (requeue_loop fs s).1 (requeue_loop fs s).0 taken
        (requeue_loop-Requeues fs s))
]

Requeued-of_Requeues : (fs gs : List Frame) (r : Result ℕ) → Requeues fs r gs → Requeued fs gs
Requeued-of_Requeues fs gs (ok n) h = h.0
Requeued-of_Requeues fs gs (err e) h = h

-- Whatever the kernel answers, a pool of the driver's own memory comes out of the call slot by slot as
-- it was, or with the firmware where before it was neither with the firmware nor held by anyone.
pub requeue_capture-Requeued :
    (s : Session)
    → is_import s.pool.capture_memory ≡ false
    → Requeued s.pool.capture (requeue_capture s).1.pool.capture
unfolding requeue_capture
requeue_capture-Requeued s own = rw own (
    Requeued-of_Requeues s.pool.capture (requeue_loop s.pool.capture s).1
      (requeue_loop s.pool.capture s).0 (requeue_loop-Requeues s.pool.capture s))
