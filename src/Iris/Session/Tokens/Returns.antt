-- ===== src/Iris/Session/Tokens/Returns.antt =====
-- The token map through events, returned buffers and publication.
use qualcomm_iris_vaapi.Base.{
  ℕ, ◌≡◌, refl, inl, inr, Bool, true, false, ◌&&◌, Option, none, some, List, [], ◌∷◌, ltb, ◌==◌,
  Bool-cases, Option-cases,
}
use qualcomm_iris_vaapi.Iris.Types.{
  Session, Dequeued, Event, Answer, no_event, source_change, eos, again, got, broken,
}
use qualcomm_iris_vaapi.Iris.Monad.{Result, ok, err, M, pure, ◌>>◌, modify, when}
use qualcomm_iris_vaapi.Iris.Monad.Rules.{
  Keeps, Post, Keeps-read, Keeps-bind, Keeps-then, Keeps-choose, Keeps-get, Keeps-when, post_choose,
}
use qualcomm_iris_vaapi.Iris.Session.{lookup, erase, failing}
use qualcomm_iris_vaapi.Iris.Session.Tokens.{
  Named, Named-erase, Apart-of_Lacks, Lacks-erase, lookup-Named, Apart, Apart-erase,
}
use qualcomm_iris_vaapi.Iris.Session.Tokens.State.{Live, Sound, tokens_throw, tokens_require}
use qualcomm_iris_vaapi.Iris.Session.Tokens.Pool.{
  still, take_capture-tokens, take_import_token-tokens,
}
use qualcomm_iris_vaapi.Iris.Session.Tokens.Lent.{drop-Core, queue_import_next-tokens}
use qualcomm_iris_vaapi.Iris.Session.Tokens.Publication.{
  Off, with_target-Off, Off-step, publish-Off,
}
use qualcomm_iris_vaapi.Iris.Session.Servicing.{
  events_loop, handle_events, fail_token, slot_token_at, output_return, output_loop,
  handle_output_returns, deliver, complete, completion, capture_return, capture_loop,
  handle_capture_returns,
}

module _ (o : Option ℕ) where
  events_loop-Live : (es : List Event) (s : Session) → Live o s → Live o (events_loop es s)
  unfolding events_loop
  events_loop-Live [] s h = h
  events_loop-Live (no_event ∷ es) s h = h
  events_loop-Live (source_change ∷ es) s h = events_loop-Live es _ h
  events_loop-Live (eos ∷ es) s h = events_loop-Live es s h

  pub handle_events-tokens : Keeps (Live o) (Sound o) handle_events
  unfolding handle_events
  handle_events-tokens = still o _ (λ s h. events_loop-Live s.device.events s h)

  pub fail_token-Live : (token : ℕ) (s : Session) → Live o s → Live o (fail_token token s)
  unfolding fail_token
  fail_token-Live token s h = elim (Option-cases (lookup token s.pending)) [
    | inl dead ↦ rw (dead, fail_token) h
    | inr (i, live) ↦
        rw (live, fail_token) (drop-Core o s token i (failing (s.targets i)) h.0 live refl, h.1)
  ]

  output_return-Live : (d : Dequeued) (s : Session) → Live o s → Live o (output_return d s)
  unfolding output_return
  output_return-Live d s h = elim (Bool-cases d.error) [
    | inl bad ↦ rw bad (fail_token-Live (slot_token_at s.pool.output d.index) _ h)
    | inr good ↦ rw good h
  ]

  output_loop_tokens : (rs : List Answer) → Keeps (Live o) (Sound o) (output_loop rs)
  unfolding output_loop
  output_loop_tokens [] = still o _ (λ s h. h)
  output_loop_tokens (again ∷ rs) = still o _ (λ s h. h)
  output_loop_tokens (broken ∷ rs) = Keeps-then (still o _ (λ s h. h)) (tokens_throw o _)
  output_loop_tokens (got d ∷ rs) = Keeps-then (still o _ (λ s h. h)) (
      Keeps-bind Keeps-get λ s.
        Keeps-then (tokens_require o _ _)
          (Keeps-then (still o _ (output_return-Live d)) (output_loop_tokens rs)))

  pub handle_output_returns-tokens : Keeps (Live o) (Sound o) handle_output_returns
  unfolding handle_output_returns
  handle_output_returns-tokens = Keeps-bind Keeps-get λ s. output_loop_tokens s.device.outputs

  fail_token-Off : (i token : ℕ) (s : Session) → Off o i s → Off o i (fail_token token s)
  unfolding fail_token
  fail_token-Off i token s h = (fail_token-Live token s h.0, apart (lookup token s.pending) refl)
    where
      apart :
          (found : Option ℕ) → lookup token s.pending ≡ found → Apart i (fail_token token s).pending
      apart none e = rw (e, fail_token) h.1
      apart (some j) e = rw (e, fail_token) (Apart-erase i token s.pending h.1)

  deliver-Off :
      (d : Dequeued) (i slot_token : ℕ) → Keeps (Off o i) (Sound o) (deliver d i slot_token)
  unfolding deliver
  deliver-Off d i slot_token = Keeps-bind Keeps-get λ s.
      Keeps-choose _ (Off-step o i _ (λ s h. with_target-Off o i _ s (inl refl) h)) (
        Keeps-choose _
          (Off-step o i _ (λ s h.
            fail_token-Off i slot_token _
              (with_target-Off o i (failing (s.targets i)) s (inl refl) h)))
          (Keeps-then (Off-step o i _ (λ s h. h))
            (Keeps-then (publish-Off o i d.index) (Off-step o i _ (λ s h. h)))))

  weaken :
      {A : Type 0} (i : ℕ) (r : Result A) (s : Session)
      → Post (Off o i) (Sound o) r s
      → Post (Live o) (Sound o) r s
  weaken i (ok a) s h = h.0
  weaken i (err e) s h = h

  post_when :
      (b : Bool) (m : M (Unit {0})) (s : Session)
      → Live o s
      → Post (Live o) (Sound o) (m s).0 (m s).1
      → Post (Live o) (Sound o) (when b m s).0 (when b m s).1
  unfolding when pure
  post_when true m s h k = k
  post_when false m s h k = h

  complete_tokens :
      (d : Dequeued) (i slot_token : ℕ) (s : Session)
      → lookup d.timestamp_us s.pending ≡ some i
      → Live o s
      → Post (Live o) (Sound o) (complete d i slot_token s).0 (complete d i slot_token s).1
  unfolding complete ◌>>◌ modify
  complete_tokens d i slot_token s e h =
      weaken i (deliver d i slot_token erased).0 (deliver d i slot_token erased).1
        ((deliver-Off d i slot_token).run erased off)
    where
      erased : Session
      erased = record s { pending = erase d.timestamp_us s.pending }

      shorter : Named s.targets s.next_token (erase d.timestamp_us s.pending)
      shorter = Named-erase s.targets s.next_token d.timestamp_us s.pending h.0.0

      off : Off o i erased
      off = (
        ((shorter, h.0.1), h.1),
        Apart-of_Lacks s.targets s.next_token d.timestamp_us i (erase d.timestamp_us s.pending)
            shorter (lookup-Named s.targets s.next_token d.timestamp_us i s.pending h.0.0 e).1
            (Lacks-erase d.timestamp_us s.pending),
      )

  completion_tokens :
      (found : Option ℕ) (d : Dequeued) (slot_token : ℕ) (s : Session)
      → lookup d.timestamp_us s.pending ≡ found
      → Live o s
      → Post
          (Live o)
          (Sound o)
          (completion found d slot_token s).0
          (completion found d slot_token s).1
  unfolding modify
  completion_tokens none d slot_token s e h = h
  completion_tokens (some i) d slot_token s e h = complete_tokens d i slot_token s e h

  capture_return-tokens : (d : Dequeued) → Keeps (Live o) (Sound o) (capture_return d)
  unfolding capture_return modify
  capture_return-tokens d = Keeps-bind (take_capture-tokens o d.index) λ j.
      Keeps-bind (take_import_token-tokens o d.index) λ slot_token. Keeps-bind Keeps-get λ s.
        Keeps-then (Keeps-when _ (queue_import_next-tokens o)) (
          Keeps-then (Keeps-when _ (still o _ (λ s h. h))) (
            Keeps-read _ λ s h.
              post_choose (Live o) (Sound o) (d.error && d.timestamp_us == 0) _ _ s h (
                post_when (ltb d.data_offset d.bytesused) _ s h
                  (completion_tokens (lookup d.timestamp_us s.pending) d slot_token s refl h))))

  capture_loop_tokens : (rs : List Answer) → Keeps (Live o) (Sound o) (capture_loop rs)
  unfolding capture_loop
  capture_loop_tokens [] = still o _ (λ s h. h)
  capture_loop_tokens (again ∷ rs) = still o _ (λ s h. h)
  capture_loop_tokens (broken ∷ rs) = Keeps-then (still o _ (λ s h. h)) (tokens_throw o _)
  capture_loop_tokens (got d ∷ rs) =
      Keeps-then (still o _ (λ s h. h))
        (Keeps-then (capture_return-tokens d) (capture_loop_tokens rs))

  pub handle_capture_returns-tokens : Keeps (Live o) (Sound o) handle_capture_returns
  unfolding handle_capture_returns
  handle_capture_returns-tokens = Keeps-bind Keeps-get λ s. capture_loop_tokens s.device.captures
