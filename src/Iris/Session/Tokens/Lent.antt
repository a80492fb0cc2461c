-- ===== src/Iris/Session/Tokens/Lent.antt =====
-- The token map through the import backlog and the bring-up.
use qualcomm_iris_vaapi.Base.{
  ℕ, ◌≡◌, refl, inl, inr, false, Option, none, some, List, [], ◌∷◌, arith, Option-cases,
}
use qualcomm_iris_vaapi.Iris.Types.{Session, Target, ImportEntry}
use qualcomm_iris_vaapi.Iris.Monad.{M, ◌>>◌, modify}
use qualcomm_iris_vaapi.Iris.Monad.Rules.{
  Keeps, Post, Keeps-pure, Keeps-read, post_choose, Keeps-bind, Keeps-then, Keeps-choose, Keeps-get,
}
use qualcomm_iris_vaapi.Iris.Session.{lookup, erase, failing, update}
use qualcomm_iris_vaapi.Iris.Session.Tokens.{
  Named-erase, Named-update-Apart, Apart-of_Lacks, Lacks-erase, lookup-Named,
}
use qualcomm_iris_vaapi.Iris.Session.Tokens.State.{
  Core, Live, Sound, Spared-update, tokens_require, stream-tokens, format_answer-tokens,
  wait_dma_buf-tokens,
}
use qualcomm_iris_vaapi.Iris.Session.Tokens.Pool.{
  still, queue_capture_import-tokens, requeue_capture-tokens, allocate_capture-tokens,
}
use qualcomm_iris_vaapi.Iris.Session.Bringup.{configure_capture, enter_streaming}
use qualcomm_iris_vaapi.Iris.Session.Import.{
  Head, closed, unbacked, foreign, ready, head_of, head_with, on_head, lend, drop_unbacked,
  may_lend, next_loop, queue_import_next, with_backlog,
}

at_lookup :
    (found : Option ℕ) (fd : ℕ) (s : Session) (i : ℕ)
    → head_with found fd s ≡ unbacked i
    → found ≡ some i
unfolding head_with
at_lookup none fd s i h = cc
at_lookup (some j) fd s i h = ground arith

-- The head without a buffer is an entry of the map.
head_of-unbacked :
    (e : ImportEntry) (s : Session) (i : ℕ)
    → head_of e s ≡ unbacked i
    → lookup e.token s.pending ≡ some i
unfolding head_of
head_of-unbacked e s i h = elim (Option-cases e.fd) [
  | inl shut ↦ cc (rw shut at h)
  | inr (fd, given) ↦ at_lookup (lookup e.token s.pending) fd s i (rw given at h)
]

module _ (o : Option ℕ) where
  -- An entry leaves the map, and its target no longer waits.
  pub drop-Core :
      (s : Session) (k i : ℕ) (x : Target)
      → Core o s
      → lookup k s.pending ≡ some i
      → x.pending ≡ false
      → Core o (record s { pending = erase k s.pending; targets = update i x s.targets })
  drop-Core s k i x h e p =
      let named = lookup-Named s.targets s.next_token k i s.pending h.0 e in
      let shorter = Named-erase s.targets s.next_token k s.pending h.0 in
      let apart =
        Apart-of_Lacks s.targets s.next_token k i (erase k s.pending) shorter named.1
          (Lacks-erase k s.pending) in
      (
        Named-update-Apart s.targets s.next_token i x (erase k s.pending) apart shorter,
        Spared-update o i x s.targets (inl p) h.1,
      )

  lend_tokens :
      (token fd : ℕ) (rest : List ImportEntry) → Keeps (Live o) (Sound o) (lend token fd rest)
  unfolding lend
  lend_tokens token fd rest = Keeps-then (wait_dma_buf-tokens o) (
      Keeps-bind Keeps-get λ s.
        Keeps-bind (queue_capture_import-tokens o fd _ token)
          λ slot. Keeps-then (tokens_require o _ _) (still o _ (λ s h. h)))

  on_head_tokens :
      (hd : Head) (e : ImportEntry) (rest : List ImportEntry) (next : M (Unit {0}))
      → Keeps (Live o) (Sound o) next
      → (s : Session) → ((i : ℕ) → hd ≡ unbacked i → lookup e.token s.pending ≡ some i)
      → Live o s
      → Post (Live o) (Sound o) (on_head hd e rest next s).0 (on_head hd e rest next s).1
  unfolding drop_unbacked ◌>>◌ modify
  on_head_tokens closed e rest next k s f h = k.run (with_backlog rest s) h
  on_head_tokens (unbacked i) e rest next k s f h =
      k.run (drop_unbacked e.token i rest s)
        (drop-Core s e.token i (failing (s.targets i)) h.0 (f i refl) refl, h.1)
  on_head_tokens foreign e rest next k s f h = (Keeps-pure tt).run s h
  on_head_tokens (ready fd) e rest next k s f h = (lend_tokens e.token fd rest).run s h

  next_loop_tokens : (es : List ImportEntry) → Keeps (Live o) (Sound o) (next_loop es)
  unfolding next_loop
  next_loop_tokens [] = Keeps-pure tt
  next_loop_tokens (e ∷ rest) = Keeps-read _ λ s h.
      post_choose (Live o) (Sound o) (may_lend s) _ _ s
        (on_head_tokens (head_of e s) e rest (next_loop rest) (next_loop_tokens rest) s
          (head_of-unbacked e s) h)
        ((Keeps-pure tt).run s h)

  pub queue_import_next-tokens : Keeps (Live o) (Sound o) queue_import_next
  unfolding queue_import_next
  queue_import_next-tokens = Keeps-bind Keeps-get λ s. next_loop_tokens s.import_backlog

  pub enter_streaming-tokens : Keeps (Live o) (Sound o) enter_streaming
  unfolding enter_streaming
  enter_streaming-tokens = Keeps-bind Keeps-get λ s.
      Keeps-then
        (Keeps-choose _ (Keeps-then (still o _ (λ s h. h)) queue_import_next-tokens)
          (Keeps-bind (requeue_capture-tokens o) λ n. Keeps-pure tt))
        (Keeps-then (stream-tokens o _) (still o _ (λ s h. (h.0, λ e. cc))))

  pub configure_capture-tokens : Keeps (Live o) (Sound o) configure_capture
  unfolding configure_capture
  configure_capture-tokens = Keeps-bind Keeps-get λ s.
      Keeps-bind (format_answer-tokens o _) λ current.
        Keeps-bind (format_answer-tokens o _) λ granted. Keeps-then (tokens_require o _ _) (
          Keeps-then (still o _ (λ s h. h)) (
            Keeps-then (still o _ (λ s h. h))
              (Keeps-then (allocate_capture-tokens o _ _ _) enter_streaming-tokens)))
