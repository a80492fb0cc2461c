-- ===== src/Iris/Session/Tokens/Frames.antt =====
-- The token map where a target gives up its frame or its token.
use qualcomm_iris_vaapi.Base.{
  ℕ, ◌+◌, ◌≡◌, refl, sym, ap, ◌∙◌, ◌≢◌, inl, inr, true, false, Option, none, some, [], arith,
  Bool-cases,
}
use qualcomm_iris_vaapi.Iris.Types.{Session, Target, OutputSlot, failed}
use qualcomm_iris_vaapi.Iris.Slots.{change, with_output}
use qualcomm_iris_vaapi.Iris.Session.{update, with_target, reset_frame, unhold, erase, insert}
use qualcomm_iris_vaapi.Iris.Session.Calls.{
  released, release_locked, blank_target, enter_token, armed,
}
use qualcomm_iris_vaapi.Iris.Session.Tokens.{
  Named, Apart, Lacks-erase, Named-erase, Named-update-Apart, Named-update_same, Apart-of_Lacks,
  Apart-of_idle, Named-insert,
}
use qualcomm_iris_vaapi.Iris.Session.Tokens.State.{Core, Live, Sound}

-- What else a step on a frame might touch.
pub record Moved (i : ℕ) (x : Target) (s s' : Session) : Type 0 where
  pub targets : s'.targets ≡ update i x s.targets
  pub pending : s'.pending ≡ s.pending
  pub next : s'.next_token ≡ s.next_token
  pub state : s'.state ≡ s.state

unhold-Moved :
    (f : Option ℕ) (i : ℕ) (x : Target) (s : Session) → Moved i x s (with_target i x (unhold f s))
unhold-Moved none i x s = record { targets = refl; pending = refl; next = refl; state = refl }
unhold-Moved (some j) i x s = record { targets = refl; pending = refl; next = refl; state = refl }

pub reset_frame-Moved :
    (i : ℕ) (s : Session) → Moved i (record (s.targets i) { frame = none }) s (reset_frame i s)
unfolding reset_frame
reset_frame-Moved i s = unhold-Moved (s.targets i).frame i (record (s.targets i) { frame = none }) s

-- A target at rest, which no entry names.
abbrev Rest : ℕ → Session → Type 0
Rest i s =
    Named s.targets s.next_token s.pending × Apart i s.pending × ((s.targets i).pending ≡ false)

released-Rest : (i : ℕ) (s : Session) → Core none s → Rest i (released i s)
unfolding released
released-Rest i s h = elim (Bool-cases (s.targets i).pending) [
  | inl waits ↦
      let shorter = Named-erase s.targets s.next_token (s.targets i).token s.pending h.0 in
      let apart =
        Apart-of_Lacks s.targets s.next_token (s.targets i).token i
          (erase (s.targets i).token s.pending) shorter refl
          (Lacks-erase (s.targets i).token s.pending) in
      rw waits (
        Named-update-Apart s.targets s.next_token i (record (s.targets i) { pending = false })
            (erase (s.targets i).token s.pending) apart shorter,
        apart,
        ground arith,
      )
  | inr idle ↦ rw idle (h.0, Apart-of_idle s.targets s.next_token i s.pending h.0 idle, idle)
]

released-state : (i : ℕ) (s : Session) → (released i s).state ≡ s.state
unfolding released
released-state i s = elim (Bool-cases (s.targets i).pending) [
  | inl waits ↦ rw waits refl
  | inr idle ↦ rw idle refl
]

released-empty : (i : ℕ) (s : Session) → s.pending ≡ [] → (released i s).pending ≡ []
unfolding released erase
released-empty i s e = elim (Bool-cases (s.targets i).pending) [
  | inl waits ↦ rw waits (ap (λ m. erase (s.targets i).token m) e)
  | inr idle ↦ rw idle e
]

Moved-Rest :
    (i : ℕ) (x : Target) (s s' : Session)
    → Moved i x s s'
    → x.pending ≡ false
    → Rest i s
    → Rest i s'
Moved-Rest i x s s' m e h = (
  rw m.targets
      (rw m.next (rw m.pending (Named-update-Apart s.targets s.next_token i x s.pending h.1 h.0))),
  rw m.pending h.1,
  rw m.targets (ground arith),
)

pub release_locked-Core : (i : ℕ) (s : Session) → Core none s → Core (some i) (release_locked i s)
unfolding release_locked
release_locked-Core i s h =
    let r = released i s in
    let s' = reset_frame i r in
    let quiet = released-Rest i s h in
    let reset =
      Moved-Rest i (record (r.targets i) { frame = none }) r s' (reset_frame-Moved i r) quiet.2
        quiet in
    (
      Named-update-Apart s'.targets s'.next_token i (blank_target (s'.targets i)) s'.pending reset.1
          reset.0,
      ground (arith, reset.2),
    )

pub release_locked-state : (i : ℕ) (s : Session) → (release_locked i s).state ≡ s.state
unfolding release_locked
release_locked-state i s = (reset_frame-Moved i (released i s)).state ∙ released-state i s

pub release_locked-empty :
    (i : ℕ) (s : Session) → s.pending ≡ [] → (release_locked i s).pending ≡ []
unfolding release_locked
release_locked-empty i s e = (reset_frame-Moved i (released i s)).pending ∙ released-empty i s e

pub release_locked-Sound : (i : ℕ) (s : Session) → Sound none s → Sound none (release_locked i s)
release_locked-Sound i s h = (
  ((release_locked-Core i s h.0).0, tt),
  λ e. release_locked-empty i s (h.1 (sym (release_locked-state i s) ∙ e)),
)

-- Before a token is entered: it has been taken, and the target is at rest.
abbrev pub Ready : ℕ → ℕ → Session → Type 0
Ready i k s =
    Named s.targets k s.pending
    × ((s.targets i).pending ≡ false)
    × (s.next_token ≡ k + 1)
    × (s.state ≢ failed)

enter_reset :
    (i k : ℕ) (s s' s'' : Session)
    → Named s'.targets (k + 1) (insert k i s.pending)
    → s'.next_token ≡ k + 1
    → Moved i (record (s'.targets i) { frame = none }) s' s''
    → Named s''.targets s''.next_token (insert k i s.pending)
enter_reset i k s s' s'' h e m = rw m.targets (
    rw m.next (
      rw e (
        Named-update_same s'.targets (k + 1) i (record (s'.targets i) { frame = none })
          (insert k i s.pending) refl refl h)))

pub enter_token-Live : (i j k : ℕ) (s : Session) → Ready i k s → Live none (enter_token i j k s)
unfolding enter_token
enter_token-Live i j k s h =
    let slots =
      change j (λ (o : OutputSlot). record o { queued = true; token = k }) s.pool.output in
    let s' = with_target i (armed k (s.targets i)) (with_output slots s) in
    let m = reset_frame-Moved i s' in
    let apart = Apart-of_idle s.targets k i s.pending h.0 h.1 in
    let named =
      Named-insert s.targets k (k + 1) i (armed k (s.targets i)) s.pending (omega arith) refl refl
        apart h.0 in
    (
      (rw m.pending (enter_reset i k s s' (reset_frame i s') named h.2 m), tt),
      λ e. h.3 (sym m.state ∙ e),
    )
