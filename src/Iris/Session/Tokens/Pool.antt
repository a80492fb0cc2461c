-- ===== src/Iris/Session/Tokens/Pool.antt =====
-- The token map through the slot pool's operations.
use qualcomm_iris_vaapi.Base.{ℕ, inl, inr, Option, none, some, List, [], ◌∷◌, Bool-cases}
use qualcomm_iris_vaapi.Iris.Types.{Session, Frame, Layout, CaptureMemory, Call, is_import}
use qualcomm_iris_vaapi.Iris.Monad.{Result, ok, err, modify}
use qualcomm_iris_vaapi.Iris.Monad.Rules.{
  Keeps, Post, keeps, Keeps-pure, Keeps-modify, Keeps-bind, Keeps-then, Keeps-get,
}
use qualcomm_iris_vaapi.Iris.Kernel.{queue_buffer}
use qualcomm_iris_vaapi.Iris.Slots.{
  requeue_loop, requeue_next, count_up, is_free, requeue_capture, queue_import_at,
  queue_capture_import, take_capture, take_import_token, with_capture, queue_capture_scratch,
  scratch_at, scratch_fd, allocated, allocate_capture, release_capture,
}
use qualcomm_iris_vaapi.Iris.Session.Tokens.State.{
  Live, Sound, tokens_throw, tokens_require, queue_buffer-tokens, stream-tokens,
  request_buffers-tokens, decoder_command-tokens, format_answer-tokens, set_control-tokens,
  deadline-tokens, wait_dma_buf-tokens,
}

pub ruleset kernel_tokens = (
  tokens_throw, tokens_require, queue_buffer-tokens, stream-tokens, request_buffers-tokens,
  decoder_command-tokens, format_answer-tokens, set_control-tokens, deadline-tokens,
  wait_dma_buf-tokens,
)

module _ (o : Option ℕ) where
  next_tokens :
      (p : Result (Unit {0}) × Session) (f : Frame) (fs : List Frame)
      (rest : Session → Result ℕ × List Frame × Session)
      → Post (Live o) (Sound o) p.0 p.1
      → ((s : Session) → Live o s → Post (Live o) (Sound o) (rest s).0 (rest s).2)
      → Post (Live o) (Sound o) (requeue_next p f fs rest).0 (requeue_next p f fs rest).2
  next_tokens (ok u, s) f fs rest h k = counted (rest s).0 (k s h)
    where
      counted :
          (r : Result ℕ)
          → Post (Live o) (Sound o) r (rest s).2
          → Post (Live o) (Sound o) (count_up r) (rest s).2
      counted (ok n) p = p
      counted (err e) p = p
  next_tokens (err e, s) f fs rest h k = h

  requeue_loop_tokens :
      (fs : List Frame) (s : Session)
      → Live o s
      → Post (Live o) (Sound o) (requeue_loop fs s).0 (requeue_loop fs s).2
  unfolding requeue_loop
  requeue_loop_tokens [] s h = h
  requeue_loop_tokens (f ∷ fs) s h = elim (Bool-cases (is_free f)) [
    | inl free ↦ rw free (
        next_tokens (queue_buffer (Call.queue_capture f.index) s) f fs (requeue_loop fs)
          ((queue_buffer-tokens o (Call.queue_capture f.index)).run s h) (requeue_loop_tokens fs))
    | inr taken ↦ rw taken (requeue_loop_tokens fs s h)
  ]

  at_pool :
      {A : Type 0} (r : Result A) (fs : List Frame) (s : Session)
      → Post (Live o) (Sound o) r s
      → Post (Live o) (Sound o) r (with_capture fs s)
  at_pool (ok a) fs s h = h
  at_pool (err e) fs s h = h

  pub requeue_capture-tokens : Keeps (Live o) (Sound o) requeue_capture
  unfolding requeue_capture
  requeue_capture-tokens = record {
    run = λ s h. elim (Bool-cases (is_import s.pool.capture_memory)) [
      | inl lent ↦ rw lent h
      | inr own ↦
          rw own
            (at_pool (requeue_loop s.pool.capture s).0 _ _ (requeue_loop_tokens s.pool.capture s h))
    ];
  }

  -- A step that changes only the pool, the device, the counters or the backlog.
  pub still :
      (f : Session → Session)
      → ((s : Session) → Live o s → Live o (f s))
      → Keeps (Live o) (Sound o) (modify f)
  still f k = Keeps-modify f k

  import_at_tokens :
      (slot : Option ℕ) (fd size token : ℕ)
      → Keeps (Live o) (Sound o) (queue_import_at slot fd size token)
  unfolding queue_import_at
  import_at_tokens none fd size token = Keeps-pure none
  import_at_tokens (some i) fd size token =
      Keeps-then (queue_buffer-tokens o _) (Keeps-then (still _ (λ s h. h)) (Keeps-pure _))

  pub queue_capture_import-tokens :
      (fd size token : ℕ) → Keeps (Live o) (Sound o) (queue_capture_import fd size token)
  unfolding queue_capture_import
  queue_capture_import-tokens fd size token = search (keeps, kernel_tokens, import_at_tokens)

  pub take_capture-tokens : (i : ℕ) → Keeps (Live o) (Sound o) (take_capture i)
  unfolding take_capture
  take_capture-tokens i =
      Keeps-bind Keeps-get
        λ s. Keeps-then (tokens_require o _ _) (Keeps-then (still _ (λ s h. h)) (Keeps-pure i))

  pub take_import_token-tokens : (i : ℕ) → Keeps (Live o) (Sound o) (take_import_token i)
  unfolding take_import_token
  take_import_token-tokens i =
      Keeps-bind Keeps-get
        λ s. Keeps-then (tokens_require o _ _) (Keeps-then (still _ (λ s h. h)) (Keeps-pure _))

  allocated_tokens : (fd : Option ℕ) → Keeps (Live o) (Sound o) (allocated fd)
  allocated_tokens none = tokens_throw o _
  allocated_tokens (some fd) = Keeps-pure fd

  scratch_fd_tokens : (fd : Option ℕ) → Keeps (Live o) (Sound o) (scratch_fd fd)
  unfolding scratch_fd
  scratch_fd_tokens (some fd) = Keeps-pure fd
  scratch_fd_tokens none =
      Keeps-bind Keeps-get
        λ s. Keeps-bind (allocated_tokens _) λ fd. Keeps-then (still _ (λ s h. h)) (Keeps-pure fd)

  scratch_at_tokens : (i : Option ℕ) (fd : ℕ) → Keeps (Live o) (Sound o) (scratch_at i fd)
  unfolding scratch_at
  scratch_at_tokens none fd = tokens_throw o _
  scratch_at_tokens (some i) fd =
      Keeps-bind Keeps-get λ s. Keeps-then (queue_buffer-tokens o _) (still _ (λ s h. h))

  pub queue_capture_scratch-tokens : Keeps (Live o) (Sound o) queue_capture_scratch
  unfolding queue_capture_scratch
  queue_capture_scratch-tokens = search (keeps, kernel_tokens, scratch_fd_tokens, scratch_at_tokens)

  pub release_capture-tokens : Keeps (Live o) (Sound o) release_capture
  unfolding release_capture
  release_capture-tokens = Keeps-bind Keeps-get λ s. Keeps-then (tokens_require o _ _) (
      Keeps-then (still _ (λ s h. h))
        (Keeps-bind (request_buffers-tokens o _ _) λ n. still _ (λ s h. h)))

  pub allocate_capture-tokens :
      (n : ℕ) (layout : Layout) (memory : CaptureMemory)
      → Keeps (Live o) (Sound o) (allocate_capture n layout memory)
  unfolding allocate_capture
  allocate_capture-tokens n layout memory = Keeps-bind Keeps-get λ s.
      Keeps-then (tokens_require o _ _) (
        Keeps-bind (request_buffers-tokens o _ _)
          λ n. Keeps-then (tokens_require o _ _) (still _ (λ s h. h)))
