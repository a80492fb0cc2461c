-- ===== src/Iris/Session/Tokens/Runs.antt =====
-- The token map through pump, the waits and the calls of the VA layer.
use qualcomm_iris_vaapi.Base.{
  ℕ, zero, suc, ◌≡◌, ap, inl, inr, false, Option, none, some, Bool-cases,
}
use qualcomm_iris_vaapi.Iris.Types.{Session, SessionState, Status, is_failed}
use qualcomm_iris_vaapi.Iris.Monad.{
  Result, ok, err, M, pure, throw, ◌>>=◌, ◌>>◌, get, modify, choose,
}
use qualcomm_iris_vaapi.Iris.Monad.Rules.{
  Keeps, Post, Keeps-pure, Keeps-read, Keeps-bind, Keeps-then, Keeps-choose, Keeps-get, Keeps-when,
  Keeps-catch,
}
use qualcomm_iris_vaapi.Iris.Session.{fail}
use qualcomm_iris_vaapi.Iris.Session.Calls.{
  pump_round, pump, ignore, service, await_reconfigured, accepts, slot_or, await_slot,
  await_configured,
}
use qualcomm_iris_vaapi.Iris.Session.Tokens.State.{
  Live, Sound, Sound-of_Live, tokens_throw, tokens_require, fail-Sound,
}
use qualcomm_iris_vaapi.Iris.Session.Tokens.Pool.{requeue_capture-tokens}
use qualcomm_iris_vaapi.Iris.Session.Tokens.Lent.{configure_capture-tokens}
use qualcomm_iris_vaapi.Iris.Session.Tokens.Returns.{
  handle_events-tokens, handle_output_returns-tokens, handle_capture_returns-tokens,
}
use qualcomm_iris_vaapi.Iris.Session.Tokens.Drained.{
  reconfigure-tokens, continue_reconfigure-tokens,
}

-- A session that has not failed works.
pub Live-of_Sound : (o : Option ℕ) (s : Session) → is_failed s.state ≡ false → Sound o s → Live o s
Live-of_Sound o s e h = (h.0, λ f. cc (e, ap is_failed f))

pub weaken :
    {A : Type 0} (o : Option ℕ) (r : Result A) (s : Session)
    → Post (Live o) (Sound o) r s
    → Post (Sound o) (Sound o) r s
weaken o (ok a) s h = Sound-of_Live o s h
weaken o (err e) s h = h

-- Code that keeps the map of a working session, behind the test for failure.
pub unless_failed :
    {A : Type 0} (o : Option ℕ) (a : A) (m : M A)
    → Keeps (Live o) (Sound o) m
    → Keeps (Sound o) (Sound o) (get >>= (λ s. choose (is_failed s.state) (pure a) m))
unfolding choose pure
unless_failed o a m k = Keeps-read _ λ s h. elim (Bool-cases (is_failed s.state)) [
  | inl gone ↦ rw gone h
  | inr works ↦ rw works (weaken o (m s).0 (m s).1 (k.run s (Live-of_Sound o s works h)))
]

module _ (o : Option ℕ) where
  pump_round-tokens : Keeps (Live o) (Sound o) pump_round
  unfolding pump_round
  pump_round-tokens = Keeps-then (handle_events-tokens o) (
      Keeps-bind Keeps-get λ s. Keeps-then (Keeps-when _ (configure_capture-tokens o)) (
        Keeps-then (handle_output_returns-tokens o) (
          Keeps-bind Keeps-get λ s. Keeps-then (Keeps-when _ (handle_capture_returns-tokens o)) (
            Keeps-bind Keeps-get λ s.
              Keeps-then
                (Keeps-choose _ (reconfigure-tokens o)
                  (Keeps-when _ (continue_reconfigure-tokens o)))
                (Keeps-bind Keeps-get
                  λ s. Keeps-when _ (Keeps-bind (requeue_capture-tokens o) λ n. Keeps-pure tt))))))

  failed_round :
      (e : Status) (s : Session)
      → Sound o s
      → Post
          (Live o)
          (Sound o)
          ((modify fail >> throw {A = Unit {0}} e) s).0
          ((modify fail >> throw {A = Unit {0}} e) s).1
  unfolding ◌>>◌ modify throw
  failed_round e s h = fail-Sound o s h

  pub pump-tokens : Keeps (Live o) (Sound o) pump
  unfolding pump
  pump-tokens = Keeps-bind Keeps-get λ s. Keeps-choose _ (Keeps-pure tt) (
      Keeps-bind (requeue_capture-tokens o)
        λ n. Keeps-catch _ pump_round-tokens (λ s h. h) failed_round)

  pub await_reconfigured-tokens : (n : ℕ) → Keeps (Live o) (Sound o) (await_reconfigured n)
  unfolding await_reconfigured
  await_reconfigured-tokens zero =
      Keeps-bind Keeps-get λ s. Keeps-then (tokens_require o _ _) (Keeps-pure 0)
  await_reconfigured-tokens (suc n) =
      Keeps-bind Keeps-get
        λ s. Keeps-choose _ (Keeps-then pump-tokens (await_reconfigured-tokens n)) (Keeps-pure _)

  slot_or_tokens :
      (j : Option ℕ) (m : M ℕ) → Keeps (Live o) (Sound o) m → Keeps (Live o) (Sound o) (slot_or j m)
  slot_or_tokens (some j) m k = Keeps-pure j
  slot_or_tokens none m k = k

  accepts_tokens : (st : SessionState) → Keeps (Live o) (Sound o) (accepts st)
  unfolding accepts
  accepts_tokens st = tokens_require o _ _

  pub await_slot-tokens : (n : ℕ) → Keeps (Live o) (Sound o) (await_slot n)
  unfolding await_slot
  await_slot-tokens zero =
      Keeps-bind Keeps-get
        λ s. slot_or_tokens _ _ (Keeps-then (accepts_tokens _) (tokens_throw o _))
  await_slot-tokens (suc n) = Keeps-bind Keeps-get λ s.
      slot_or_tokens _ _
        (Keeps-then (accepts_tokens _) (Keeps-then pump-tokens (await_slot-tokens n)))

  pub await_configured-tokens : (n : ℕ) → Keeps (Live o) (Sound o) (await_configured n)
  unfolding await_configured
  await_configured-tokens zero = Keeps-bind Keeps-get λ s. tokens_require o _ _
  await_configured-tokens (suc n) =
      Keeps-bind Keeps-get
        λ s. Keeps-choose _ (Keeps-then pump-tokens (await_configured-tokens n)) (Keeps-pure tt)

pub pump-Sound : Keeps (Sound none) (Sound none) pump
unfolding pump
pump-Sound = unless_failed none tt _ (
    Keeps-bind (requeue_capture-tokens none)
      λ n. Keeps-catch _ (pump_round-tokens none) (λ s h. h) (failed_round none))

pub ignore_tokens :
    (o : Option ℕ) (e : Status) (s : Session)
    → Sound o s
    → Post (Sound o) (Sound o) (ignore e s).0 (ignore e s).1
unfolding pure
ignore_tokens o e s h = h

pub service-Sound : Keeps (Sound none) (Sound none) service
unfolding service
service-Sound =
    Keeps-bind Keeps-get
      λ s. Keeps-choose _ (Keeps-pure tt) (Keeps-catch _ pump-Sound (λ s h. h) (ignore_tokens none))
