-- ===== src/Iris/Session/Tokens/Reachable.antt =====
-- The sessions that the VA layer can reach: the constructor and any sequence of calls.
use qualcomm_iris_vaapi.Base.{ℕ, ◌≡◌, Bool, false, refl, some, if◌then◌else◌, none, List, [], ◌∷◌}
use qualcomm_iris_vaapi.Iris.Types.{
  Session, SessionConfig, Device, Target, Publish, Buffer, is_direct, failed,
}
use qualcomm_iris_vaapi.Iris.Monad.{Result, ok, err, M, modify, ◌>>◌}
use qualcomm_iris_vaapi.Iris.Monad.Rules.{
  Keeps, Post, Keeps-pure, Keeps-bind, Keeps-then, Keeps-choose, Keeps-get,
}
use qualcomm_iris_vaapi.Iris.Session.Bringup.{blank, construct, configure_output, display_controls}
use qualcomm_iris_vaapi.Iris.Slots.{allocate_output}
use qualcomm_iris_vaapi.Iris.Session.Calls.{submit, service, wait, release, finish}
use qualcomm_iris_vaapi.Iris.Session.Tokens.{Named, Named-update_same}
use qualcomm_iris_vaapi.Iris.Session.{with_target}
use qualcomm_iris_vaapi.Iris.Session.Tokens.State.{
  Live, Sound, tokens_require, set_control-tokens, format_answer-tokens, stream-tokens,
  request_buffers-tokens,
}
use qualcomm_iris_vaapi.Iris.Session.Tokens.Pool.{still}
use qualcomm_iris_vaapi.Iris.Session.Tokens.Requests.{submit-tokens}
use qualcomm_iris_vaapi.Iris.Session.Tokens.Waits.{wait-Sound, release-Sound, finish-Sound}
use qualcomm_iris_vaapi.Iris.Session.Tokens.Runs.{service-Sound, weaken}

-- src/va/picture.cc, submit: the policy, the surface's own buffer where the picture does not go out
-- directly, and the surface's format. The policy and the buffer are those that `publish_policy` and
-- `ensure_stable` answer; the width and the height are not read by the session, nor is the failure flag
-- of the surface.
abbrev pub prepared : Publish → Buffer → ℕ → Target → Target
prepared policy stable fourcc t = record t {
  publish = policy;
  destination = if is_direct policy then none else some stable;
  fourcc = fourcc;
}

unfoldable pub submit_surface : Publish → Buffer → ℕ → ℕ → ℕ → M (Unit {0})
submit_surface policy stable fourcc size i = do
  modify (λ s. with_target i (prepared policy stable fourcc (s.targets i)) s)
  submit size i

-- A call of the VA layer, with its arguments and with when its deadline passes. A submit comes with the
-- policy, the buffer and the format that its target gets.
pub data Request : Type 0 where
  submits : Publish → Buffer → ℕ → ℕ → ℕ → Request
  waits : ℕ → List Bool → Request
  releases : ℕ → Request
  services finishes : Request

unfoldable pub perform : Request → M (Unit {0})
perform (submits policy stable fourcc size i) = submit_surface policy stable fourcc size i
perform (waits i rounds) = wait i rounds
perform (releases i) = release i
perform services = service
perform finishes = finish

-- Whatever a call answers, the next one finds the session that it left.
unfoldable pub run : List Request → Session → Session
unfolding perform
run [] s = s
run (q ∷ qs) s = run qs (perform q s).1

holds : {A : Type 0} (P : Session → Type 0) (r : Result A) (s : Session) → Post P P r s → P s
holds P (ok a) s h = h
holds P (err e) s h = h

-- What is set in a target before it is submitted leaves its token and its wait.
prepare-Sound :
    (policy : Publish) (stable : Buffer) (fourcc i : ℕ) (s : Session)
    → Sound none s
    → Sound none (with_target i (prepared policy stable fourcc (s.targets i)) s)
prepare-Sound policy stable fourcc i s h = (
  (
    Named-update_same s.targets s.next_token i (prepared policy stable fourcc (s.targets i))
        s.pending refl refl h.0.0,
    tt,
  ),
  h.1,
)

submit_surface-Sound :
    (policy : Publish) (stable : Buffer) (fourcc size i : ℕ)
    → Keeps (Sound none) (Sound none) (submit_surface policy stable fourcc size i)
unfolding submit_surface ◌>>◌ modify
submit_surface-Sound policy stable fourcc size i = record {
  run = λ s h.
      let s' = with_target i (prepared policy stable fourcc (s.targets i)) s in
      weaken none (submit size i s').0 (submit size i s').1
        (submit-tokens size i s' (prepare-Sound policy stable fourcc i s h));
}

perform-Sound : (q : Request) → Keeps (Sound none) (Sound none) (perform q)
unfolding perform
perform-Sound (submits policy stable fourcc size i) =
    submit_surface-Sound policy stable fourcc size i
perform-Sound (waits i rounds) = wait-Sound i rounds
perform-Sound (releases i) = release-Sound i
perform-Sound services = service-Sound
perform-Sound finishes = finish-Sound

run-Sound : (qs : List Request) (s : Session) → Sound none s → Sound none (run qs s)
unfolding run
run-Sound [] s h = h
run-Sound (q ∷ qs) s h =
    run-Sound qs (perform q s).1
      (holds (Sound none) (perform q s).0 (perform q s).1 ((perform-Sound q).run s h))

allocate_output-tokens : (n size : ℕ) → Keeps (Live none) (Sound none) (allocate_output n size)
unfolding allocate_output
allocate_output-tokens n size = Keeps-bind Keeps-get λ s. Keeps-then (tokens_require none _ _) (
    Keeps-bind (request_buffers-tokens none _ _)
      λ n. Keeps-then (tokens_require none _ _) (still none _ (λ s h. h)))

configure_output-tokens : Keeps (Live none) (Sound none) configure_output
unfolding configure_output display_controls
configure_output-tokens = Keeps-bind Keeps-get λ s.
    Keeps-bind (format_answer-tokens none _) λ granted. Keeps-then (tokens_require none _ _) (
      Keeps-then (still none _ (λ s h. h)) (
        Keeps-bind
          (Keeps-bind (set_control-tokens none)
            λ delay. Keeps-choose _ (set_control-tokens none) (Keeps-pure false))
          λ both. Keeps-then (still none _ (λ s h. h)) (
            Keeps-bind Keeps-get λ s.
              Keeps-then (allocate_output-tokens _ _)
                (Keeps-then (stream-tokens none _) (still none _ (λ s h. (h.0, λ e. cc)))))))

construct-tokens : Keeps (Live none) (Sound none) construct
unfolding construct
construct-tokens = Keeps-bind Keeps-get λ s.
    Keeps-then (tokens_require none _ _)
      (Keeps-then (still none _ (λ s h. h)) configure_output-tokens)

blank-Live :
    (config : SessionConfig) (device : Device) (copier : Bool)
    → Live none (blank config device copier)
unfolding blank
blank-Live config device copier = ((tt, tt), λ e. cc)

-- A session that was constructed and then got calls.
abbrev pub session_after : SessionConfig → Device → Bool → List Request → Session
session_after config device copier qs = run qs (construct (blank config device copier)).1

session_after-Sound :
    (config : SessionConfig) (device : Device) (copier : Bool) (qs : List Request)
    → Sound none (session_after config device copier qs)
session_after-Sound config device copier qs =
    let s = blank config device copier in
    let r = construct s in
    run-Sound qs r.1 (
      holds (Sound none) r.0 r.1
        (weaken none r.0 r.1 (construct-tokens.run s (blank-Live config device copier))))

-- After the constructor and any calls, where each submit sets policy, buffer and format of its target
-- as it likes, whatever the device, the clock and the copier answer: the map's
-- tokens rise and lie below the next token, and each of them is the token of a target that is pending.
pub session_after-Named :
    (config : SessionConfig) (device : Device) (copier : Bool) (qs : List Request)
    → Named
        (session_after config device copier qs).targets
        (session_after config device copier qs).next_token
        (session_after config device copier qs).pending
session_after-Named config device copier qs = (session_after-Sound config device copier qs).0.0

-- After the constructor and any calls, where each submit sets policy, buffer and format of its target
-- as it likes, whatever the device, the clock and the copier answer: where the
-- session has failed, no token is live.
pub session_after-failed :
    (config : SessionConfig) (device : Device) (copier : Bool) (qs : List Request)
    → (session_after config device copier qs).state ≡ failed
    → (session_after config device copier qs).pending ≡ []
session_after-failed config device copier qs e = (session_after-Sound config device copier qs).1 e
