-- ===== src/Iris/Session/Tokens/Requests.antt =====
-- The token map through the calls of the VA layer.
use qualcomm_iris_vaapi.Base.{
  ℕ, ◌+◌, ◌≡◌, refl, sym, ap, ◌∙◌, inl, inr, Bool, true, false, not, ◌&&◌, Option, none, some,
  arith, ◌==◌, if◌then◌else◌, Bool-cases,
}
use qualcomm_iris_vaapi.Iris.Types.{Session, Call, Status, is_failed, is_configured}
use qualcomm_iris_vaapi.Iris.Monad.{
  Result, ok, err, M, ◌>>=◌, ◌>>◌, require, get, modify, when, bind_result,
}
use qualcomm_iris_vaapi.Iris.Monad.Rules.{
  Keeps, Post, Keeps-bind, Keeps-then, Keeps-get, Keeps-when,
}
use qualcomm_iris_vaapi.Iris.Kernel.{deadline, queue_buffer, attempt, next_or}
use qualcomm_iris_vaapi.Iris.Session.Calls.{
  pump, release_locked, await_reconfigured, await_slot, await_configured, enqueue, submit,
  take_token, fix_format,
}
use qualcomm_iris_vaapi.Iris.Session.Tokens.{Named-mono}
use qualcomm_iris_vaapi.Iris.Session.Tokens.State.{Live, Sound, tokens_require, deadline-tokens}
use qualcomm_iris_vaapi.Iris.Session.Tokens.Pool.{still}
use qualcomm_iris_vaapi.Iris.Session.Tokens.Lent.{queue_import_next-tokens}
use qualcomm_iris_vaapi.Iris.Session.Tokens.Frames.{
  Ready, enter_token-Live, release_locked-Core, release_locked-state,
}
use qualcomm_iris_vaapi.Iris.Session.Tokens.Runs.{
  Live-of_Sound, pump-tokens, await_reconfigured-tokens, await_slot-tokens, await_configured-tokens,
}

-- The same code under weaker conditions.
loosen :
    {A : Type 0} (P P' Q Q' : Session → Type 0) (r : Result A) (s : Session)
    → (P s → P' s)
    → (Q s → Q' s)
    → Post P Q r s
    → Post P' Q' r s
loosen P P' Q Q' (ok a) s f g h = f h
loosen P P' Q Q' (err e) s f g h = g h

-- From one condition to another, with a third where it throws.
abbrev pub Moves : (P R Q : Session → Type 0) → {A : Type 0} → M A → Type 0
Moves P R Q m = (s : Session) → P s → Post R Q (m s).0 (m s).1

moves_bind :
    (R S Q : Session → Type 0) {A B : Type 0} (r : Result A) (s : Session) (k : A → M B)
    → Post R Q r s
    → ((a : A) → Moves R S Q (k a))
    → Post S Q (bind_result r s k).0 (bind_result r s k).1
moves_bind R S Q (ok a) s k h hk = hk a s h
moves_bind R S Q (err e) s k h hk = h

pub Moves-then :
    {B : Type 0} (P R S Q : Session → Type 0) (m : M (Unit {0})) (k : M B)
    → Moves P R Q m
    → Moves R S Q k
    → Moves P S Q (m >> k)
unfolding ◌>>◌
Moves-then P R S Q m k hm hk s h = moves_bind R S Q (m s).0 (m s).1 (λ _. k) (hm s h) (λ _. hk)

pub Moves-next :
    {A B : Type 0} (P R S Q : Session → Type 0) (m : M A) (k : A → M B)
    → Moves P R Q m
    → ((a : A) → Moves R S Q (k a))
    → Moves P S Q (m >>= k)
unfolding ◌>>=◌
Moves-next P R S Q m k hm hk s h = moves_bind R S Q (m s).0 (m s).1 k (hm s h) hk

pub Moves-modify :
    (P R Q : Session → Type 0) (f : Session → Session)
    → ((s : Session) → P s → R (f s))
    → Moves P R Q (modify f)
unfolding modify
Moves-modify P R Q f k = k

pub Moves-read :
    {B : Type 0} (P R Q : Session → Type 0) (k : Session → M B)
    → ((s : Session) → P s → Post R Q (k s s).0 (k s s).1)
    → Moves P R Q (get >>= k)
unfolding ◌>>=◌ get
Moves-read P R Q k h = h

forget : (o : Option ℕ) (s : Session) → Sound o s → Sound none s
forget o s h = ((h.0.0, tt), h.1)

unspared :
    {A : Type 0} (o : Option ℕ) (m : M A)
    → Keeps (Live o) (Sound o) m
    → Moves (Live o) (Live o) (Sound none) m
unspared o m k s h =
    loosen (Live o) (Live o) (Sound o) (Sound none) (m s).0 (m s).1 (λ x. x) (forget o (m s).1)
      (k.run s h)

-- A test that the session has not failed.
pub require_works :
    {B : Type 0} (P : Session → Type 0) (e : Status) (m : M B) (s : Session)
    → Sound none s
    → (Live none s → Post P (Sound none) (m s).0 (m s).1)
    → Post P
        (Sound none)
        ((require (not (is_failed s.state)) e >> m) s).0
        ((require (not (is_failed s.state)) e >> m) s).1
unfolding require ◌>>◌
require_works P e m s h k = elim (Bool-cases (is_failed s.state)) [
  | inl gone ↦ rw gone h
  | inr works ↦ rw works (k (Live-of_Sound none s works h))
]

fix_format-Live :
    (o : Option ℕ) (fourcc : ℕ) (s : Session) → Live o s → Live o (fix_format fourcc s)
fix_format-Live o fourcc s h = elim (Bool-cases (is_configured s.state && not (fourcc == 0))) [
  | inl fixed ↦ rw fixed h
  | inr left ↦ rw left h
]

attempt-Ready :
    (i k : ℕ) (b : Bool) (c : Call) (s : Session)
    → Ready i k s
    → Post (Ready i k) (Sound none) (attempt b c s).0 (attempt b c s).1
attempt-Ready i k true c s h = h
attempt-Ready i k false c s h = (
  (Named-mono s.targets k s.next_token s.pending (omega (arith, h.2)) h.0, tt),
  λ e. absurd (h.3 e),
)

queue_buffer-Ready :
    (i k : ℕ) (c : Call) (s : Session)
    → Ready i k s
    → Post (Ready i k) (Sound none) (queue_buffer c s).0 (queue_buffer c s).1
unfolding queue_buffer
queue_buffer-Ready i k c s h = attempt-Ready i k (next_or true s.device.queueing) c _ h

abbrev Before : ℕ → ℕ → Session → Type 0
Before i k s = Live (some i) s × (s.next_token ≡ k)

take_Ready : (i k : ℕ) (s : Session) → Before i k s → Ready i k (take_token s)
take_Ready i k s h = (rw (sym h.1) h.0.0.0, h.0.0.1, ap (λ n. n + 1) h.1, h.0.1)

enqueue-tokens : (size i j : ℕ) → Moves (Live (some i)) (Live none) (Sound none) (enqueue size i j)
unfolding enqueue
enqueue-tokens size i j =
    Moves-then (Live (some i)) (Live (some i)) (Live none) (Sound none) _ _
      (Moves-modify (Live (some i)) (Live (some i)) (Sound none) _
        (λ s h. fix_format-Live (some i) (s.targets i).fourcc s h))
      (Moves-read (Live (some i)) (Live none) (Sound none) _ λ s h.
        Moves-then (Before i s.next_token) (Ready i s.next_token) (Live none) (Sound none) _ _
          (Moves-modify (Before i s.next_token) (Ready i s.next_token) (Sound none) take_token
            (take_Ready i s.next_token))
          (Moves-then (Ready i s.next_token) (Ready i s.next_token) (Live none) (Sound none) _ _
            (queue_buffer-Ready i s.next_token _)
            (Moves-then (Ready i s.next_token) (Live none) (Live none) (Sound none) _ _
              (Moves-modify (Ready i s.next_token) (Live none) (Sound none) _
                (enter_token-Live i j s.next_token))
              ((Keeps-when _
                (Keeps-then (still none _ (λ s h. h)) (queue_import_next-tokens none))).run)))
          s (h, refl))

release_if_Live :
    (i : ℕ) (s : Session)
    → Live none s
    → Live (some i) (if (s.targets i).pending then release_locked i s else s)
release_if_Live i s h = elim (Bool-cases (s.targets i).pending) [
  | inl waits ↦
      rw waits (release_locked-Core i s h.0, λ e. h.1 (sym (release_locked-state i s) ∙ e))
  | inr idle ↦ rw idle ((h.0.0, idle), h.1)
]

pub submit-tokens : (size i : ℕ) → Moves (Sound none) (Live none) (Sound none) (submit size i)
unfolding submit
submit-tokens size i = Moves-read (Sound none) (Live none) (Sound none) _ λ s h.
    require_works (Live none) _ _ s h (
      Moves-then (Live none) (Live none) (Live none) (Sound none) _ _
        ((tokens_require none _ _).run)
        (Moves-then (Live none) (Live none) (Live none) (Sound none) _ _
          ((tokens_require none _ _).run)
          (Moves-then (Live none) (Live (some i)) (Live none) (Sound none) _ _
            (Moves-modify (Live none) (Live (some i)) (Sound none) _ (release_if_Live i)) sent))
        s)
  where
    after :
        (o : Option ℕ)
        → Keeps
            (Live o)
            (Sound o)
            (get >>= (λ s. when (is_configured s.state) (deadline >>= await_configured)))
    after o =
        Keeps-bind Keeps-get
          λ s. Keeps-when _ (Keeps-bind (deadline-tokens o) λ n. await_configured-tokens o n)

    sent : Moves (Live (some i)) (Live none) (Sound none) (
        pump
        >> (deadline >>= (λ n. await_reconfigured n >>= (λ left. await_slot left >>= (λ j.
            enqueue size i j
            >> (get >>= (λ s. when (is_configured s.state) (deadline >>= await_configured))))))))
    sent =
        Moves-then (Live (some i)) (Live (some i)) (Live none) (Sound none) _ _
          (unspared (some i) _ (pump-tokens (some i)))
          (Moves-next (Live (some i)) (Live (some i)) (Live none) (Sound none) _ _
            (unspared (some i) _ (deadline-tokens (some i)))
            λ n.
              Moves-next (Live (some i)) (Live (some i)) (Live none) (Sound none) _ _
                (unspared (some i) _ (await_reconfigured-tokens (some i) n))
                λ left.
                  Moves-next (Live (some i)) (Live (some i)) (Live none) (Sound none) _ _
                    (unspared (some i) _ (await_slot-tokens (some i) left))
                    λ j.
                      Moves-then (Live (some i)) (Live none) (Live none) (Sound none) _ _
                        (enqueue-tokens size i j) ((after none).run))
