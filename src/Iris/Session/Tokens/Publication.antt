-- ===== src/Iris/Session/Tokens/Publication.antt =====
-- The token map through publication: the target's token has left the map.
use qualcomm_iris_vaapi.Base.{
  ℕ, ◌+◌, ◌≡◌, refl, sym, ap, ◌⊎◌, inl, inr, Bool, true, false, Option, none, some,
}
use qualcomm_iris_vaapi.Iris.Types.{Session, Target, Publish, Status, direct}
use qualcomm_iris_vaapi.Iris.Monad.{throw, ◌>>◌, require, modify}
use qualcomm_iris_vaapi.Iris.Monad.Rules.{
  Keeps, Post, Keeps-modify, Keeps-bind, Keeps-then, Keeps-choose, Keeps-get, Keeps-catch,
}
use qualcomm_iris_vaapi.Iris.Kernel.{copy_frame, yes_or_throw, next_or}
use qualcomm_iris_vaapi.Iris.Slots.{change, with_capture}
use qualcomm_iris_vaapi.Iris.Session.{
  failing, fail_target, reset_frame, hold_frame, unhold, with_target,
}
use qualcomm_iris_vaapi.Iris.Session.Tokens.{Named-update-Apart, Apart}
use qualcomm_iris_vaapi.Iris.Session.Tokens.State.{Live, Sound, Sound-of_Live, Spared-update}
use qualcomm_iris_vaapi.Iris.Session.Servicing.{done_with, copy_failed, take_frame, publish}

module _ (o : Option ℕ) where
  -- The session works, and no entry is for the target `i`.
  abbrev pub Off : ℕ → Session → Type 0
  Off i s = Live o s × Apart i s.pending

  pub with_target-Off :
      (i : ℕ) (x : Target) (s : Session)
      → (x.pending ≡ false) ⊎ (x.pending ≡ (s.targets i).pending)
      → Off i s
      → Off i (with_target i x s)
  with_target-Off i x s e h = (
    (
      (
        Named-update-Apart s.targets s.next_token i x s.pending h.1 h.0.0.0,
        Spared-update o i x s.targets e h.0.0.1,
      ),
      h.0.1,
    ),
    h.1,
  )

  unhold-Off :
      (f : Option ℕ) (i : ℕ) (s : Session)
      → Off i s
      → Off i (unhold f s) × ((unhold f s).targets ≡ s.targets)
  unhold-Off none i s h = (h, refl)
  unhold-Off (some j) i s h = (h, refl)

  reset_frame-Off : (i : ℕ) (s : Session) → Off i s → Off i (reset_frame i s)
  unfolding reset_frame
  reset_frame-Off i s h =
      let (off, same) = unhold-Off (s.targets i).frame i s h in
      with_target-Off i (record (s.targets i) { frame = none }) (unhold (s.targets i).frame s)
        (inr (ap (λ (t : ℕ → Target). (t i).pending) (sym same))) off

  hold_frame-Off : (i j : ℕ) (s : Session) → Off i s → Off i (hold_frame i j s)
  unfolding hold_frame
  hold_frame-Off i j s h =
      let s' = reset_frame i s in
      with_target-Off i (record (s'.targets i) { frame = some j })
        (with_capture (change j (λ f. record f { holders = f.holders + 1 }) s'.pool.capture) s')
        (inr refl) (reset_frame-Off i s h)

  pub Off-step :
      (i : ℕ) (f : Session → Session)
      → ((s : Session) → Off i s → Off i (f s))
      → Keeps (Off i) (Sound o) (modify f)
  Off-step i f k = Keeps-modify f k

  Off-require : (i : ℕ) (b : Bool) (e : Status) → Keeps (Off i) (Sound o) (require b e)
  unfolding require
  Off-require i true e = record { run = λ s h. h }
  Off-require i false e = record { run = λ s h. Sound-of_Live o s h.0 }

  yes-Off :
      (i : ℕ) (b : Bool) (s : Session)
      → Off i s
      → Post (Off i) (Off i) (yes_or_throw b s).0 (yes_or_throw b s).1
  yes-Off i true s h = h
  yes-Off i false s h = h

  copy_frame-Off : (i : ℕ) → Keeps (Off i) (Off i) copy_frame
  unfolding copy_frame
  copy_frame-Off i = record { run = λ s h. yes-Off i (next_or true s.device.copies) _ h }

  copy_failed-Off :
      (i : ℕ) (e : Status) (s : Session)
      → Off i s
      → Post (Off i) (Sound o) (copy_failed i e s).0 (copy_failed i e s).1
  unfolding ◌>>◌ modify throw
  copy_failed-Off i e s h =
      Sound-of_Live o (fail_target i s) (with_target-Off i (failing (s.targets i)) s (inl refl) h).0

  take_copy-Off : (i j : ℕ) (p : Publish) → Keeps (Off i) (Sound o) (take_frame p i j)
  unfolding take_frame
  take_copy-Off i j direct = Off-step i _ (hold_frame-Off i j)
  take_copy-Off i j _ = Keeps-then (Off-step i _ (λ s h. with_target-Off i _ s (inr refl) h)) (
      Keeps-bind Keeps-get λ s. Keeps-then (Off-require i _ _) (
        Keeps-then
          (Keeps-catch _ (copy_frame-Off i) (λ s h. Sound-of_Live o s h.0) (copy_failed-Off i))
          (Off-step i _ (reset_frame-Off i))))

  pub publish-Off : (i j : ℕ) → Keeps (Off i) (Sound o) (publish i j)
  unfolding publish
  publish-Off i j = Keeps-bind Keeps-get λ s.
      Keeps-then
        (Keeps-choose _
          (Off-step i _ (λ s h. reset_frame-Off i _ (with_target-Off i _ s (inr refl) h)))
          (take_copy-Off i j _))
        (Off-step i _ (λ s h. with_target-Off i (done_with (s.targets i)) s (inl refl) h))
