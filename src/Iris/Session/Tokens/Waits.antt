-- ===== src/Iris/Session/Tokens/Waits.antt =====
-- The token map through wait, release and finish.
use qualcomm_iris_vaapi.Base.{
  ℕ, zero, suc, ◌≡◌, refl, ap, ◌≢◌, inl, inr, Bool, true, false, not, none, List, [], ◌∷◌,
  Bool-cases,
}
use qualcomm_iris_vaapi.Iris.Types.{
  Session, SessionState, Status, is_error, is_failed, is_streaming, is_configured, is_reconfiguring,
  is_finished, streaming, configured, draining, restart_pending, reconfiguring, finished, failed,
}
use qualcomm_iris_vaapi.Iris.Monad.{
  Result, ok, err, M, pure, throw, ◌>>◌, require, modify, choose, when, catch, handle_result,
}
use qualcomm_iris_vaapi.Iris.Monad.Rules.{
  Keeps, Post, Keeps-modify, Keeps-read, Keeps-then, Keeps-when, post_choose,
}
use qualcomm_iris_vaapi.Iris.Session.{failing, erase}
use qualcomm_iris_vaapi.Iris.Session.Calls.{
  ignore, release, give_up, on_expiry, wait_check, wait_loop, wait, finish, settled, count_timeout,
}
use qualcomm_iris_vaapi.Iris.Session.Draining.{with_state, drain, continue_reconfigure}
use qualcomm_iris_vaapi.Iris.Session.Tokens.{
  Named-erase, Named-update-Apart, Apart-of_Lacks, Lacks-erase,
}
use qualcomm_iris_vaapi.Iris.Session.Tokens.State.{Live, Sound, Sound-of_Live}
use qualcomm_iris_vaapi.Iris.Session.Tokens.Drained.{
  drain-tokens, restart-tokens, continue_reconfigure-tokens,
}
use qualcomm_iris_vaapi.Iris.Session.Tokens.Frames.{release_locked-Sound}
use qualcomm_iris_vaapi.Iris.Session.Tokens.Runs.{Live-of_Sound, pump-tokens}
use qualcomm_iris_vaapi.Iris.Session.Tokens.Requests.{
  Moves, Moves-then, Moves-modify, Moves-read, require_works,
}

require-Sound : (b : Bool) (e : Status) → Moves (Sound none) (Sound none) (Sound none) (require b e)
unfolding require
require-Sound true e s h = h
require-Sound false e s h = h

after_Live :
    {B : Type 0} (m : M (Unit {0})) (k : M B)
    → Keeps (Live none) (Sound none) m
    → Keeps (Sound none) (Sound none) k
    → Moves (Live none) (Sound none) (Sound none) (m >> k)
after_Live m k hm hk =
    Moves-then (Live none) (Live none) (Sound none) (Sound none) m k (hm.run)
      (λ s h. hk.run s (Sound-of_Live none s h))

wait_check-Sound :
    (i : ℕ) (body : M (Unit {0}))
    → Moves (Live none) (Sound none) (Sound none) body
    → Keeps (Sound none) (Sound none) (wait_check i body)
unfolding wait_check
wait_check-Sound i body k = Keeps-read _ λ s h.
    post_choose (Sound none) (Sound none) (s.targets i).pending _ _ s
      (require_works (Sound none) _ body s h (k s)) (require-Sound (not (s.targets i).error) _ s h)

give_up-Sound : (i : ℕ) → Moves (Live none) (Sound none) (Sound none) (give_up i)
unfolding give_up ◌>>◌ modify throw
give_up-Sound i s h =
    let shorter = Named-erase s.targets s.next_token (s.targets i).token s.pending h.0.0 in
    (
      (
        Named-update-Apart s.targets s.next_token i (failing (s.targets i))
            (erase (s.targets i).token s.pending)
            (Apart-of_Lacks s.targets s.next_token (s.targets i).token i
              (erase (s.targets i).token s.pending) shorter refl
              (Lacks-erase (s.targets i).token s.pending))
            shorter,
        tt,
      ),
      λ e. absurd (h.1 e),
    )

counted :
    (m : M (Unit {0}))
    → Moves (Live none) (Sound none) (Sound none) m
    → Moves (Live none) (Sound none) (Sound none) (modify count_timeout >> m)
counted m k =
    Moves-then (Live none) (Live none) (Sound none) (Sound none) _ m
      (Moves-modify (Live none) (Live none) (Sound none) count_timeout (λ s h. h)) k

on_expiry-Sound :
    (i : ℕ) (next : M (Unit {0}))
    → Keeps (Sound none) (Sound none) next
    → Moves (Live none) (Sound none) (Sound none) (on_expiry i next)
unfolding on_expiry
on_expiry-Sound i next k = counted _ (
    Moves-read (Live none) (Sound none) (Sound none) _ λ s h.
      post_choose (Sound none) (Sound none) _ _ (give_up i) s
        (Moves-then (Live none) (Live none) (Sound none) (Sound none) _ _
          ((drain-tokens none true).run) (after_Live _ _ (restart-tokens none) k) s h)
        (give_up-Sound i s h))

wait_loop-Sound :
    (i drains : ℕ) (rounds : List Bool)
    → Keeps (Sound none) (Sound none) (wait_loop i drains rounds)
unfolding wait_loop
wait_loop-Sound i zero [] = wait_check-Sound i _ (counted _ (give_up-Sound i))
wait_loop-Sound i zero (true ∷ rounds) = wait_check-Sound i _ (counted _ (give_up-Sound i))
wait_loop-Sound i zero (false ∷ rounds) =
    wait_check-Sound i _ (after_Live _ _ (pump-tokens none) (wait_loop-Sound i zero rounds))
wait_loop-Sound i (suc drains) [] =
    wait_check-Sound i _ (on_expiry-Sound i _ (wait_loop-Sound i drains []))
wait_loop-Sound i (suc drains) (true ∷ rounds) =
    wait_check-Sound i _ (on_expiry-Sound i _ (wait_loop-Sound i drains rounds))
wait_loop-Sound i (suc drains) (false ∷ rounds) =
    wait_check-Sound i _ (after_Live _ _ (pump-tokens none) (wait_loop-Sound i (suc drains) rounds))

pub wait-Sound : (i : ℕ) (rounds : List Bool) → Keeps (Sound none) (Sound none) (wait i rounds)
unfolding wait
wait-Sound i rounds =
    wait_check-Sound i _ (after_Live _ _ (pump-tokens none) (wait_loop-Sound i 1 rounds))

reconfigured : (st : SessionState) → is_reconfiguring st ≡ true → st ≢ failed
reconfigured st e f = cc (e, ap is_reconfiguring f)

ignored_result :
    (r : Result (Unit {0})) (s : Session)
    → Post (Live none) (Sound none) r s
    → Post (Sound none) (Sound none) (handle_result r s ignore).0 (handle_result r s ignore).1
unfolding pure
ignored_result (ok u) s h = Sound-of_Live none s h
ignored_result (err e) s h = elim (Bool-cases (is_error e)) [
  | inl caught ↦ rw caught h
  | inr other ↦ rw other h
]

-- An error that is swallowed.
ignored :
    (m : M (Unit {0}))
    → Keeps (Live none) (Sound none) m
    → Moves (Live none) (Sound none) (Sound none) (catch m ignore)
unfolding catch
ignored m k s h = ignored_result (m s).0 (m s).1 (k.run s h)

continued :
    (b : Bool) (s : Session)
    → (b ≡ true → Live none s)
    → Sound none s
    → Post
        (Sound none)
        (Sound none)
        (when b (catch continue_reconfigure ignore) s).0
        (when b (catch continue_reconfigure ignore) s).1
unfolding when pure
continued true s f h = ignored _ (continue_reconfigure-tokens none) s (f refl)
continued false s f h = h

pub release-Sound : (i : ℕ) → Keeps (Sound none) (Sound none) (release i)
unfolding release
release-Sound i = Keeps-then (Keeps-modify _ (λ s h. release_locked-Sound i s h)) (
    Keeps-read _
      λ s h. continued (is_reconfiguring s.state) s (λ e. (h.0, reconfigured s.state e)) h)

is_failed_sound : (st : SessionState) → is_failed st ≡ true → st ≡ failed
is_failed_sound configured e = cc
is_failed_sound streaming e = cc
is_failed_sound draining e = cc
is_failed_sound restart_pending e = cc
is_failed_sound reconfiguring e = cc
is_failed_sound finished e = cc
is_failed_sound failed e = refl

settled-Sound : (s : Session) → Sound none s → Sound none (settled s)
settled-Sound s h = elim (Bool-cases (is_failed s.state)) [
  | inl gone ↦ rw gone (h.0, λ e. h.1 (is_failed_sound s.state gone))
  | inr works ↦ rw works (h.0, λ e. cc)
]

pub finish-Sound : Keeps (Sound none) (Sound none) finish
unfolding finish choose pure
finish-Sound = Keeps-read _ λ s h. elim (Bool-cases (is_failed s.state)) [
  | inl gone ↦ rw gone h
  | inr works ↦ rw works (
      post_choose (Sound none) (Sound none) (is_finished s.state) _ _ s h (
        post_choose (Sound none) (Sound none) (is_configured s.state) _ _ s
          (Moves-modify (Sound none) (Sound none) (Sound none) (with_state finished)
            (λ s h. (h.0, λ e. cc)) s h)
          (Moves-then (Live none) (Sound none) (Sound none) (Sound none) _ _
            (ignored (when (is_streaming s.state) (drain false))
              (Keeps-when _ (drain-tokens none false)))
            (Moves-modify (Sound none) (Sound none) (Sound none) settled settled-Sound) s
            (Live-of_Sound none s works h))))
]
