-- ===== src/Iris/Session/Tokens/Settling.antt =====
-- What failure, the destructor and wait promise a target.
use qualcomm_iris_vaapi.Base.{
  ℕ, zero, suc, ◌≡◌, refl, inl, inr, Bool, true, false, not, some, List, [], ◌∷◌, arith, ◌==◌,
  Bool-cases,
}
use qualcomm_iris_vaapi.Iris.Types.{
  Call, Status, Session, Target, is_failed, decoding_error, failed,
}
use qualcomm_iris_vaapi.Iris.Monad.{Result, ok, err, M, pure, throw, ◌>>◌, require, modify, choose}
use qualcomm_iris_vaapi.Iris.Monad.Rules.{
  Keeps, Keeps-when, Keeps-catch_all, Keeps-then, Post, post_choose,
}
use qualcomm_iris_vaapi.Iris.Kernel.{stream, queue_buffer, attempt, next_or}
use qualcomm_iris_vaapi.Iris.Session.{fail, failing, update, settle_all, lookup, fail_all_pending}
use qualcomm_iris_vaapi.Iris.Session.Calls.{
  ignore, wait_check, wait_loop, wait, on_expiry, give_up, destroy,
}
use qualcomm_iris_vaapi.Iris.Session.Tokens.Requests.{Moves-modify, Moves, Moves-then, Moves-read}

abbrev pub HasFailed : Target → Type 0
HasFailed t = (t.pending ≡ false) × (t.error ≡ true)

pub update-HasFailed :
    (i j : ℕ) (t : ℕ → Target) → HasFailed (t j) → HasFailed (update i (failing (t i)) t j)
update-HasFailed i j t h = ground arith

pub update_hit : (i j : ℕ) (t : ℕ → Target) → i ≡ j → HasFailed (update i (failing (t i)) t j)
update_hit i j t e = ground arith

settle_all-kept :
    (m : List (ℕ × ℕ)) (t : ℕ → Target) (i : ℕ) → HasFailed (t i) → HasFailed (settle_all m t i)
unfolding settle_all
settle_all-kept [] t i h = h
settle_all-kept ((k, j) ∷ m) t i h =
    settle_all-kept m (update j (failing (t j)) t) i (update-HasFailed j i t h)

settle_all-lookup :
    (m : List (ℕ × ℕ)) (t : ℕ → Target) (k i : ℕ)
    → lookup k m ≡ some i
    → HasFailed (settle_all m t i)
unfolding settle_all lookup
settle_all-lookup [] t k i e = cc
settle_all-lookup ((j, h) ∷ m) t k i e = elim (Bool-cases (j == k)) [
  | inl same ↦
      settle_all-kept m (update h (failing (t h)) t) i (update_hit h i t (cc (rw same at e)))
  | inr other ↦ settle_all-lookup m (update h (failing (t h)) t) k i (rw other at e)
]

-- A session that fails settles every target with a live token as failed, and has no live token and no
-- borrowed buffer left; a second failure changes nothing.
pub fail-settles :
    (s : Session) (k i : ℕ)
    → is_failed s.state ≡ false
    → lookup k s.pending ≡ some i
    → HasFailed ((fail s).targets i)
      × ((fail s).state ≡ failed)
      × ((fail s).pending ≡ [])
      × ((fail s).import_backlog ≡ [])
      × (fail (fail s) ≡ fail s)
unfolding fail fail_all_pending
fail-settles s k i works e =
    rw works (settle_all-lookup s.pending s.targets k i e, refl, refl, refl, refl)

-- The map and the targets as they were in another session.
abbrev Same : Session → Session → Type 0
Same s s' = (s'.pending ≡ s.pending) × (s'.targets ≡ s.targets)

attempt-Same :
    (b : Bool) (c : Call) (s s' : Session)
    → Same s s'
    → Post (Same s) (Same s) (attempt b c s').0 (attempt b c s').1
attempt-Same true c s s' h = h
attempt-Same false c s s' h = h

stream-Same : (s : Session) (c : Call) → Keeps (Same s) (Same s) (stream c)
unfolding stream queue_buffer
stream-Same s c = record { run = λ s' h. attempt-Same (next_or true s'.device.queueing) c s _ h }

ignore-Same :
    (s : Session) (e : Status) (s' : Session)
    → Same s s'
    → Post (Same s) (λ s. ⊥) (ignore e s').0 (ignore e s').1
unfolding pure
ignore-Same s e s' h = h

settled_by :
    (s : Session) (k i : ℕ) (s' : Session)
    → lookup k s.pending ≡ some i
    → Same s s'
    → HasFailed (settle_all s'.pending s'.targets i)
settled_by s k i s' e h = rw (h.0, h.1) (settle_all-lookup s.pending s.targets k i e)

never_throws :
    (P : Session → Type 0) (r : Result (Unit {0})) (s : Session)
    → Post P (λ s. ⊥) r s
    → P s × (r ≡ ok tt)
never_throws P (ok u) s h = (h, refl)
never_throws P (err e) s h = absurd h

-- The destructor settles every target with a live token as failed, leaves no live token, and does not
-- throw, whatever the device answers.
pub destroy-settles :
    (s : Session) (k i : ℕ)
    → lookup k s.pending ≡ some i
    → (HasFailed ((destroy s).1.targets i) × ((destroy s).1.pending ≡ [])) × ((destroy s).0 ≡ ok tt)
unfolding destroy
destroy-settles s k i e =
    never_throws (λ s'. HasFailed (s'.targets i) × (s'.pending ≡ [])) (destroy s).0 (destroy s).1
      (Moves-read (Same s) _ (λ s. ⊥) _
        (λ s' h.
          Moves-then (Same s) (Same s) _ (λ s. ⊥) _ _
            ((Keeps-when _ (
              Keeps-catch_all ignore (Keeps-then (stream-Same s _) (stream-Same s _))
                (ignore-Same s))).run)
            (Moves-modify (Same s) _ (λ s. ⊥) _ (λ s'' h''. (settled_by s k i s'' e h'', refl))) s'
            h)
        s (refl, refl))

Any : Session → Type 0
Any s = Unit {0}

abbrev pub Settled : ℕ → Session → Type 0
Settled i s = ((s.targets i).pending ≡ false) × ((s.targets i).error ≡ false)

Any-result : {A : Type 0} (r : Result A) (s : Session) → Post Any Any r s
unfolding Any
Any-result (ok a) s = tt
Any-result (err e) s = tt

anything : {A : Type 0} (m : M A) → Moves Any Any Any m
anything m s h = Any-result (m s).0 (m s).1

clean_Settled :
    (i : ℕ) (s : Session)
    → (s.targets i).pending ≡ false
    → Post
        (Settled i)
        Any
        (require (not (s.targets i).error) decoding_error s).0
        (require (not (s.targets i).error) decoding_error s).1
unfolding require Any
clean_Settled i s idle = elim (Bool-cases (s.targets i).error) [
  | inl wrong ↦ rw wrong tt
  | inr right ↦ rw right (idle, right)
]

wait_check-Settled :
    (i : ℕ) (body : M (Unit {0}))
    → Moves Any (Settled i) Any body
    → Moves Any (Settled i) Any (wait_check i body)
unfolding wait_check choose
wait_check-Settled i body k = Moves-read Any (Settled i) Any _ λ s h.
    elim (Bool-cases (s.targets i).pending) [
      | inl waits ↦ rw waits (Moves-then Any Any (Settled i) Any _ body (anything _) k s h)
      | inr idle ↦ rw idle (clean_Settled i s idle)
    ]

after-Any :
    (i : ℕ) (m k : M (Unit {0})) → Moves Any (Settled i) Any k → Moves Any (Settled i) Any (m >> k)
after-Any i m k hk = Moves-then Any Any (Settled i) Any m k (anything m) hk

give_up-Settled : (i : ℕ) → Moves Any (Settled i) Any (give_up i)
unfolding give_up ◌>>◌ throw Any modify
give_up-Settled i s h = tt

on_expiry-Settled :
    (i : ℕ) (next : M (Unit {0}))
    → Moves Any (Settled i) Any next
    → Moves Any (Settled i) Any (on_expiry i next)
unfolding on_expiry
on_expiry-Settled i next k = after-Any i _ _ (
    Moves-read Any (Settled i) Any _ λ s h.
      post_choose (Settled i) Any _ _ (give_up i) s (after-Any i _ _ (after-Any i _ _ k) s h)
        (give_up-Settled i s h))

wait_loop-Settled :
    (i drains : ℕ) (rounds : List Bool) → Moves Any (Settled i) Any (wait_loop i drains rounds)
unfolding wait_loop
wait_loop-Settled i zero [] = wait_check-Settled i _ (after-Any i _ _ (give_up-Settled i))
wait_loop-Settled i zero (true ∷ rounds) =
    wait_check-Settled i _ (after-Any i _ _ (give_up-Settled i))
wait_loop-Settled i zero (false ∷ rounds) =
    wait_check-Settled i _ (after-Any i _ _ (wait_loop-Settled i zero rounds))
wait_loop-Settled i (suc drains) [] =
    wait_check-Settled i _ (on_expiry-Settled i _ (wait_loop-Settled i drains []))
wait_loop-Settled i (suc drains) (true ∷ rounds) =
    wait_check-Settled i _ (on_expiry-Settled i _ (wait_loop-Settled i drains rounds))
wait_loop-Settled i (suc drains) (false ∷ rounds) =
    wait_check-Settled i _ (after-Any i _ _ (wait_loop-Settled i (suc drains) rounds))

Settled-of_ok :
    (i : ℕ) (r : Result (Unit {0})) (s : Session)
    → Post (Settled i) Any r s
    → r ≡ ok tt
    → Settled i s
Settled-of_ok i (ok u) s h e = h
Settled-of_ok i (err x) s h e = cc

-- A wait that answers with success leaves the target decoded: it is not pending and has no error.
pub wait-Settled :
    (i : ℕ) (rounds : List Bool) (s : Session)
    → (wait i rounds s).0 ≡ ok tt
    → Settled i (wait i rounds s).1
unfolding wait Any
wait-Settled i rounds s e =
    Settled-of_ok i (wait i rounds s).0 (wait i rounds s).1
      (wait_check-Settled i _ (after-Any i _ _ (wait_loop-Settled i 1 rounds)) s tt) e
