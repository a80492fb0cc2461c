-- ===== src/Iris/Session/Tokens/Drained.antt =====
-- The token map through drain, restart and the change of resolution.
use qualcomm_iris_vaapi.Base.{
  ℕ, zero, suc, ◌+◌, ◌≡◌, refl, ap, ◌∙◌, ◌≢◌, inl, inr, Bool, false, Option, List, [], ◌∷◌, arith,
  Bool-cases,
}
use qualcomm_iris_vaapi.Iris.Types.{Session, Target}
use qualcomm_iris_vaapi.Iris.Monad.Rules.{
  Keeps, Keeps-pure, Keeps-bind, Keeps-then, Keeps-choose, Keeps-get, Keeps-when,
}
use qualcomm_iris_vaapi.Iris.Slots.{mark_all_capture_returned}
use qualcomm_iris_vaapi.Iris.Session.{failing, fail_target, count_error}
use qualcomm_iris_vaapi.Iris.Session.Tokens.{
  Named, Named-update-Apart, Apart-of_Lacks, Apart, Above, Lacks-of_Above,
}
use qualcomm_iris_vaapi.Iris.Session.Tokens.State.{
  Live, Sound, Spared, Spared-update, tokens_require, fail_with-tokens, decoder_command-tokens,
  deadline-tokens, stream-tokens,
}
use qualcomm_iris_vaapi.Iris.Session.Tokens.Pool.{
  still, take_capture-tokens, requeue_capture-tokens, queue_capture_scratch-tokens,
  release_capture-tokens,
}
use qualcomm_iris_vaapi.Iris.Session.Tokens.Lent.{
  queue_import_next-tokens, configure_capture-tokens,
}
use qualcomm_iris_vaapi.Iris.Session.Tokens.Returns.{
  handle_events-tokens, handle_output_returns-tokens, handle_capture_returns-tokens,
}
use qualcomm_iris_vaapi.Iris.Session.Draining.{
  still_queued, unrecoverable_loop, fail_unrecoverable_tokens, drain_round, drain_loop,
  output_drain_loop, drain_begin, drain_end, drain, restart_loop, restart, continue_reconfigure,
  forget_loop, reconfigure,
}

update_other : (i j : ℕ) (s : Session) → i ≢ j → (fail_target i s).targets j ≡ s.targets j
update_other i j s ne = ground arith

-- The loop over the map keeps what it leaves in order, and touches nothing but the targets it fails.
record Kept (o : Option ℕ) (m : List (ℕ × ℕ)) (s s' : Session) : Type 0 where
  named : Named s'.targets s.next_token s'.pending
  spared : Spared o s'.targets
  next : s'.next_token ≡ s.next_token
  state : s'.state ≡ s.state
  above : (k : ℕ) → Above k m → Above k s'.pending
  apart : (i : ℕ) → Apart i m → Apart i s'.pending
  others : (i : ℕ) → Apart i m → s'.targets i ≡ s.targets i

unrecoverable_loop-Kept :
    (o : Option ℕ) (m : List (ℕ × ℕ)) (s : Session)
    → Named s.targets s.next_token m
    → Spared o s.targets
    → Kept o m s (unrecoverable_loop m s)
unfolding unrecoverable_loop
unrecoverable_loop-Kept o [] s h p = record {
  named = tt;
  spared = p;
  next = refl;
  state = refl;
  above = λ k a. tt;
  apart = λ i a. tt;
  others = λ i a. refl;
}
unrecoverable_loop-Kept o ((k, i) ∷ m) s h p = elim (Bool-cases (still_queued k s.pool.output)) [
  | inl queued ↦
      let r = unrecoverable_loop-Kept o m s h.4 p in
      let same = r.others i apart in
      rw queued (record {
        named = (
          ap (λ (t : Target). t.pending) same ∙ h.0,
          ap (λ (t : Target). t.token) same ∙ h.1,
          h.2,
          r.above k h.3,
          r.named,
        );
        spared = r.spared;
        next = r.next;
        state = r.state;
        above = λ j a. (a.0, r.above j a.1);
        apart = λ j a. (a.0, r.apart j a.1);
        others = λ j a. r.others j a.1;
      })
  | inr lost ↦
      let r =
        unrecoverable_loop-Kept o m (count_error (fail_target i s))
          (Named-update-Apart s.targets s.next_token i (failing (s.targets i)) m apart h.4)
          (Spared-update o i (failing (s.targets i)) s.targets (inl refl) p) in
      rw lost (record {
        named = r.named;
        spared = r.spared;
        next = r.next;
        state = r.state;
        above = λ j a. r.above j a.1;
        apart = λ j a. r.apart j a.1;
        others = λ j a. r.others j a.1 ∙ update_other i j s a.0;
      })
]
  where
    apart : Apart i m
    apart = Apart-of_Lacks s.targets s.next_token k i m h.4 h.1 (Lacks-of_Above k m h.3)

module _ (o : Option ℕ) where
  fail_unrecoverable_Live : (s : Session) → Live o s → Live o (fail_unrecoverable_tokens s)
  unfolding fail_unrecoverable_tokens
  fail_unrecoverable_Live s h =
      let r = unrecoverable_loop-Kept o s.pending s h.0.0 h.0.1 in
      ((rw r.next r.named, r.spared), rw r.state h.1)

  drain_round-tokens : Keeps (Live o) (Sound o) drain_round
  unfolding drain_round
  drain_round-tokens = Keeps-bind Keeps-get λ s.
      Keeps-then
        (Keeps-choose _
          (Keeps-then (queue_import_next-tokens o)
            (Keeps-bind Keeps-get λ s. Keeps-when _ (queue_capture_scratch-tokens o)))
          (Keeps-bind (requeue_capture-tokens o) λ n. Keeps-pure tt))
        (Keeps-then (handle_events-tokens o)
          (Keeps-then (handle_output_returns-tokens o) (handle_capture_returns-tokens o)))

  drain_loop_tokens : (n : ℕ) → Keeps (Live o) (Sound o) (drain_loop n)
  unfolding drain_loop
  drain_loop_tokens zero =
      Keeps-bind Keeps-get λ s. Keeps-choose _ (Keeps-pure tt) (fail_with-tokens o _)
  drain_loop_tokens (suc n) =
      Keeps-bind Keeps-get
        λ s. Keeps-choose _ (Keeps-pure tt) (Keeps-then drain_round-tokens (drain_loop_tokens n))

  output_drain_loop_tokens : (n : ℕ) → Keeps (Live o) (Sound o) (output_drain_loop n)
  unfolding output_drain_loop
  output_drain_loop_tokens zero = Keeps-pure tt
  output_drain_loop_tokens (suc n) = Keeps-bind Keeps-get λ s.
      Keeps-choose _ (Keeps-pure tt)
        (Keeps-then (handle_output_returns-tokens o) (output_drain_loop_tokens n))

  drain_begin-tokens : Keeps (Live o) (Sound o) drain_begin
  unfolding drain_begin
  drain_begin-tokens = Keeps-bind Keeps-get λ s. Keeps-then (tokens_require o _ _) (
      Keeps-then (still o _ (λ s h. (h.0, λ e. cc)))
        (Keeps-bind (decoder_command-tokens o _) λ stopped. tokens_require o _ _))

  pub drain-tokens : (wait_output : Bool) → Keeps (Live o) (Sound o) (drain wait_output)
  unfolding drain drain_end
  drain-tokens wait_output = Keeps-then drain_begin-tokens (
      Keeps-bind (deadline-tokens o) λ n. Keeps-then (drain_loop_tokens n) (
        Keeps-then (Keeps-when _ (Keeps-bind (deadline-tokens o) λ n. output_drain_loop_tokens n))
          (still o _ (λ s h. ((fail_unrecoverable_Live s h).0, λ e. cc)))))

  restart_loop_tokens : (n : ℕ) → Keeps (Live o) (Sound o) (restart_loop n)
  unfolding restart_loop
  restart_loop_tokens zero =
      Keeps-bind (decoder_command-tokens o _)
        λ started. Keeps-choose _ (Keeps-pure tt) (fail_with-tokens o _)
  restart_loop_tokens (suc n) = Keeps-bind (decoder_command-tokens o _) λ started.
      Keeps-choose _ (Keeps-pure tt)
        (Keeps-then (handle_output_returns-tokens o) (restart_loop_tokens n))

  pub restart-tokens : Keeps (Live o) (Sound o) restart
  unfolding restart
  restart-tokens = Keeps-bind Keeps-get λ s. Keeps-then (tokens_require o _ _) (
      Keeps-bind (requeue_capture-tokens o) λ k.
        Keeps-bind (deadline-tokens o)
          λ n. Keeps-then (restart_loop_tokens n) (still o _ (λ s h. (h.0, λ e. cc))))

  pub continue_reconfigure-tokens : Keeps (Live o) (Sound o) continue_reconfigure
  unfolding continue_reconfigure
  continue_reconfigure-tokens = Keeps-bind Keeps-get λ s. Keeps-then (tokens_require o _ _) (
      Keeps-choose _
        (Keeps-then (release_capture-tokens o) (
          Keeps-then (still o _ (λ s h. (h.0, λ e. cc)))
            (Keeps-then (configure_capture-tokens o) (still o _ (λ s h. h)))))
        (Keeps-pure tt))

  forget_loop_tokens : (n i : ℕ) → Keeps (Live o) (Sound o) (forget_loop n i)
  unfolding forget_loop
  forget_loop_tokens zero i = Keeps-pure tt
  forget_loop_tokens (suc n) i =
      Keeps-bind (take_capture-tokens o i) λ j. forget_loop_tokens n (i + 1)

  pub reconfigure-tokens : Keeps (Live o) (Sound o) reconfigure
  unfolding reconfigure mark_all_capture_returned
  reconfigure-tokens = Keeps-then (still o _ (λ s h. h)) (
      Keeps-then (drain-tokens false) (
        Keeps-then (still o _ (λ s h. (h.0, λ e. cc))) (
          Keeps-then (stream-tokens o _) (
            Keeps-then (still o _ (λ s h. h)) (
              Keeps-bind Keeps-get λ s.
                Keeps-then (Keeps-when _ (forget_loop_tokens _ 0)) continue_reconfigure-tokens)))))
