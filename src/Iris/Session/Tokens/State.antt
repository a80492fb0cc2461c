-- ===== src/Iris/Session/Tokens/State.antt =====
-- The condition on a session's token map, and the steps that keep it without touching the map.
use qualcomm_iris_vaapi.Base.{
  ℕ, ◌≡◌, refl, ◌≢◌, ◌⊎◌, inl, inr, Bool, true, false, Option, none, some, List, [], ◌∷◌, arith,
  Bool-cases,
}
use qualcomm_iris_vaapi.Iris.Types.{
  Session, Status, is_failed, Target, Call, Command, FormatInfo, failed, done, busy, refused,
}
use qualcomm_iris_vaapi.Iris.Monad.{throw, require, modify, ◌>>◌}
use qualcomm_iris_vaapi.Iris.Monad.Rules.{Keeps-then, Keeps, Post}
use qualcomm_iris_vaapi.Iris.Kernel.{
  granted, answered, format_of, queue_buffer, attempt, stream, request_buffers, decoder_command,
  command_result, format_answer, set_control, deadline, wait_dma_buf, copy_frame, yes_or_throw,
  next_or,
}
use qualcomm_iris_vaapi.Iris.Session.{update, failing, settle_all, fail}
use qualcomm_iris_vaapi.Iris.Session.Tokens.{Named}

-- The target `o`, if there is one, does not wait.
abbrev pub Spared : Option ℕ → (ℕ → Target) → Type 0
Spared none targets = Unit {0}
Spared (some i) targets = (targets i).pending ≡ false

abbrev pub Core : Option ℕ → Session → Type 0
Core o s = Named s.targets s.next_token s.pending × Spared o s.targets

-- While the session works, and in any state: a failed session has no live token.
abbrev pub Live : Option ℕ → Session → Type 0
Live o s = Core o s × (s.state ≢ failed)

abbrev pub Sound : Option ℕ → Session → Type 0
Sound o s = Core o s × (s.state ≡ failed → s.pending ≡ [])

pub Sound-of_Live : (o : Option ℕ) (s : Session) → Live o s → Sound o s
Sound-of_Live o s h = (h.0, λ e. absurd (h.1 e))

pub Spared-update :
    (o : Option ℕ) (i : ℕ) (x : Target) (t : ℕ → Target)
    → (x.pending ≡ false) ⊎ (x.pending ≡ (t i).pending)
    → Spared o t
    → Spared o (update i x t)
Spared-update none i x t e h = tt
Spared-update (some j) i x t e h = ground arith

Spared-settle_all :
    (o : Option ℕ) (m : List (ℕ × ℕ)) (t : ℕ → Target) → Spared o t → Spared o (settle_all m t)
unfolding settle_all
Spared-settle_all o [] t h = h
Spared-settle_all o ((k, i) ∷ m) t h =
    Spared-settle_all o m (update i (failing (t i)) t)
      (Spared-update o i (failing (t i)) t (inl refl) h)

module _ (o : Option ℕ) where
  pub tokens_throw : {A : Type 0} (e : Status) → Keeps (Live o) (Sound o) (throw {A = A} e)
  unfolding throw
  tokens_throw e = record { run = Sound-of_Live o }

  pub tokens_require : (b : Bool) (e : Status) → Keeps (Live o) (Sound o) (require b e)
  unfolding require
  tokens_require true e = record { run = λ s h. h }
  tokens_require false e = record { run = Sound-of_Live o }

  attempt_tokens :
      (b : Bool) (c : Call) (s : Session)
      → Live o s
      → Post (Live o) (Sound o) (attempt b c s).0 (attempt b c s).1
  attempt_tokens true c s h = h
  attempt_tokens false c s h = Sound-of_Live o s h

  pub queue_buffer-tokens : (c : Call) → Keeps (Live o) (Sound o) (queue_buffer c)
  unfolding queue_buffer
  queue_buffer-tokens c = record {
    run = λ s h. attempt_tokens (next_or true s.device.queueing) c _ h;
  }

  pub stream-tokens : (c : Call) → Keeps (Live o) (Sound o) (stream c)
  unfolding stream
  stream-tokens c = queue_buffer-tokens c

  granted-tokens : (n : ℕ) → Keeps (Live o) (Sound o) (granted n)
  unfolding granted
  granted-tokens n = record { run = λ s h. h }

  pub request_buffers-tokens :
      (c : ℕ → Call) (n : ℕ) → Keeps (Live o) (Sound o) (request_buffers c n)
  unfolding request_buffers
  request_buffers-tokens c n = Keeps-then (queue_buffer-tokens (c n)) (granted-tokens n)

  command_tokens :
      (k : Command) (c : Call) (s : Session)
      → Live o s
      → Post (Live o) (Sound o) (command_result k c s).0 (command_result k c s).1
  command_tokens done c s h = h
  command_tokens busy c s h = h
  command_tokens refused c s h = Sound-of_Live o s h

  pub decoder_command-tokens : (c : Call) → Keeps (Live o) (Sound o) (decoder_command c)
  unfolding decoder_command
  decoder_command-tokens c = record {
    run = λ s h. command_tokens (next_or done s.device.commands) c _ h;
  }

  yes_tokens :
      (b : Bool) (s : Session)
      → Live o s
      → Post (Live o) (Sound o) (yes_or_throw b s).0 (yes_or_throw b s).1
  yes_tokens true s h = h
  yes_tokens false s h = Sound-of_Live o s h

  answered-tokens : Keeps (Live o) (Sound o) answered
  unfolding answered
  answered-tokens = record { run = λ s h. yes_tokens (next_or true s.device.queueing) _ h }

  format_of-tokens : (d : FormatInfo) → Keeps (Live o) (Sound o) (format_of d)
  unfolding format_of
  format_of-tokens d = record { run = λ s h. h }

  pub format_answer-tokens : (d : FormatInfo) → Keeps (Live o) (Sound o) (format_answer d)
  unfolding format_answer
  format_answer-tokens d = Keeps-then answered-tokens (format_of-tokens d)

  pub set_control-tokens : Keeps (Live o) (Sound o) set_control
  unfolding set_control
  set_control-tokens = record { run = λ s h. h }

  pub deadline-tokens : Keeps (Live o) (Sound o) deadline
  unfolding deadline
  deadline-tokens = record { run = λ s h. h }

  pub wait_dma_buf-tokens : Keeps (Live o) (Sound o) wait_dma_buf
  unfolding wait_dma_buf
  wait_dma_buf-tokens = record { run = λ s h. yes_tokens (next_or true s.device.fences) _ h }

  pub copy_frame-tokens : Keeps (Live o) (Sound o) copy_frame
  unfolding copy_frame
  copy_frame-tokens = record { run = λ s h. yes_tokens (next_or true s.device.copies) _ h }

  -- A failed session is sound, whatever its state was.
  pub fail-Sound : (s : Session) → Sound o s → Sound o (fail s)
  unfolding fail
  fail-Sound s h = elim (Bool-cases (is_failed s.state)) [
    | inl already ↦ rw already h
    | inr works ↦ rw works ((tt, Spared-settle_all o s.pending s.targets h.0.1), λ _. refl)
  ]

  pub fail_with-tokens :
      {A : Type 0} (e : Status) → Keeps (Live o) (Sound o) (modify fail >> throw {A = A} e)
  unfolding ◌>>◌ modify throw
  fail_with-tokens e = record { run = λ s h. fail-Sound s (Sound-of_Live o s h) }
