-- ===== src/Iris/Session/Tokens/Losses.antt =====
-- The two ways a picture is lost: its buffer came back for another one, or the firmware has dropped it.
use qualcomm_iris_vaapi.Base.{
  ℕ, ◌≡◌, ◌⊎◌, ◌&&◌, refl, inl, inr, true, false, some, List, [], ◌∷◌, arith, ◌==◌, Bool-cases,
  Option-cases,
}
use qualcomm_iris_vaapi.Iris.Types.{Session, Target, OutputSlot, Dequeued, is_import}
use qualcomm_iris_vaapi.Iris.Monad.{◌>>=◌, get, modify, choose}
use qualcomm_iris_vaapi.Iris.Session.{update, failing, lookup, erase, fail_target, count_error}
use qualcomm_iris_vaapi.Iris.Session.Servicing.{deliver, fail_token, count_misplaced}
use qualcomm_iris_vaapi.Iris.Session.Draining.{
  still_queued, unrecoverable_loop, fail_unrecoverable_tokens,
}
use qualcomm_iris_vaapi.Iris.Session.Tokens.Settling.{HasFailed, update-HasFailed, update_hit}

-- An OUTPUT slot that is with the firmware carries the token.
abbrev pub InFlight : ℕ → List OutputSlot → Type 0
InFlight k [] = ⊥
InFlight k (o ∷ os) = ((o.queued ≡ true) × (o.token ≡ k)) ⊎ InFlight k os

-- `kept` is what is left of the entries: in their order, those with a token in flight and no other.
abbrev pub Kept : List OutputSlot → List (ℕ × ℕ) → List (ℕ × ℕ) → Type 0
Kept os [] kept = kept ≡ []
Kept os ((k, i) ∷ m) kept =
    (InFlight k os × ((rest : List (ℕ × ℕ)) × (kept ≡ (k, i) ∷ rest) × Kept os m rest))
    ⊎ ((InFlight k os → ⊥) × Kept os m kept)

carried : (k : ℕ) (os : List OutputSlot) → still_queued k os ≡ true → InFlight k os
carried k [] e = cc
carried k (o ∷ os) e = elim (Bool-cases (o.queued && o.token == k)) [
  | inl here ↦ inl (ground (arith, here), ground (arith, here))
  | inr further ↦ inr (carried k os (rw further at e))
]

InFlight-still_queued : (k : ℕ) (os : List OutputSlot) → InFlight k os → still_queued k os ≡ true
InFlight-still_queued k [] h = absurd h
InFlight-still_queued k (o ∷ os) (inl (queued, same)) = rw (queued, same) (ground arith)
InFlight-still_queued k (o ∷ os) (inr h) = rw (InFlight-still_queued k os h) (ground arith)

not_carried : (k : ℕ) (os : List OutputSlot) → still_queued k os ≡ false → InFlight k os → ⊥
not_carried k os e h = let f = InFlight-still_queued k os h in cc

unrecoverable_loop-Kept :
    (m : List (ℕ × ℕ)) (s : Session) → Kept s.pool.output m (unrecoverable_loop m s).pending
unfolding unrecoverable_loop
unrecoverable_loop-Kept [] s = refl
unrecoverable_loop-Kept ((k, i) ∷ m) s = elim (Bool-cases (still_queued k s.pool.output)) [
  | inl queued ↦
      rw queued (inl (carried k s.pool.output queued, (_, refl, unrecoverable_loop-Kept m s)))
  | inr lost ↦ rw lost (
      inr (
        not_carried k s.pool.output lost,
        unrecoverable_loop-Kept m (count_error (fail_target i s)),
      ))
]

unrecoverable_loop-kept :
    (m : List (ℕ × ℕ)) (s : Session) (i : ℕ)
    → HasFailed (s.targets i)
    → HasFailed ((unrecoverable_loop m s).targets i)
unfolding unrecoverable_loop
unrecoverable_loop-kept [] s i h = h
unrecoverable_loop-kept ((k, j) ∷ m) s i h = elim (Bool-cases (still_queued k s.pool.output)) [
  | inl queued ↦ rw queued (unrecoverable_loop-kept m s i h)
  | inr lost ↦ rw lost (
      unrecoverable_loop-kept m (count_error (fail_target j s)) i
        (update-HasFailed j i s.targets h))
]

unrecoverable_loop-lost :
    (m : List (ℕ × ℕ)) (s : Session) (k i : ℕ)
    → lookup k m ≡ some i
    → still_queued k s.pool.output ≡ false
    → HasFailed ((unrecoverable_loop m s).targets i)
unfolding unrecoverable_loop lookup
unrecoverable_loop-lost [] s k i e lost = cc
unrecoverable_loop-lost ((j, h) ∷ m) s k i e lost = elim (Bool-cases (j == k)) [
  | inl same ↦
      let equal : j ≡ k = ground arith in
      let gone : still_queued j s.pool.output ≡ false = rw equal lost in
      rw gone (
        unrecoverable_loop-kept m (count_error (fail_target h s)) i
          (update_hit h i s.targets (cc (rw same at e))))
  | inr other ↦ elim (Bool-cases (still_queued j s.pool.output)) [
    | inl queued ↦ rw queued (unrecoverable_loop-lost m s k i (rw other at e) lost)
    | inr dropped ↦
        rw dropped
          (unrecoverable_loop-lost m (count_error (fail_target h s)) k i (rw other at e) lost)
  ]
]

-- What `fail_unrecoverable_tokens` leaves live are, in order, the live tokens that an OUTPUT slot which is with the firmware carries, and no others.
pub fail_unrecoverable_tokens-pending :
    (s : Session) → Kept s.pool.output s.pending (fail_unrecoverable_tokens s).pending
unfolding fail_unrecoverable_tokens
fail_unrecoverable_tokens-pending s = unrecoverable_loop-Kept s.pending s

-- Behind `fail_unrecoverable_tokens` the target of a live token that no OUTPUT slot which is with the firmware carries has failed.
pub fail_unrecoverable_tokens-lost :
    (s : Session) (k i : ℕ)
    → lookup k s.pending ≡ some i
    → (InFlight k s.pool.output → ⊥)
    → HasFailed ((fail_unrecoverable_tokens s).targets i)
unfolding fail_unrecoverable_tokens
fail_unrecoverable_tokens-lost s k i e lost = elim (Bool-cases (still_queued k s.pool.output)) [
  | inl queued ↦ absurd (lost (carried k s.pool.output queued))
  | inr gone ↦ unrecoverable_loop-lost s.pending s k i e gone
]

fail_token-HasFailed :
    (k i : ℕ) (s : Session) → HasFailed (s.targets i) → HasFailed ((fail_token k s).targets i)
unfolding fail_token
fail_token-HasFailed k i s h = elim (Option-cases (lookup k s.pending)) [
  | inl unknown ↦ rw (unknown, fail_token) h
  | inr (j, found) ↦ rw (found, fail_token) (update-HasFailed j i s.targets h)
]

fail_token-found :
    (k j : ℕ) (s : Session)
    → lookup k s.pending ≡ some j
    → HasFailed ((fail_token k s).targets j)
      × ((fail_token k s).pending ≡ erase k s.pending)
      × ((fail_token k s).stats.completed ≡ s.stats.completed)
unfolding fail_token
fail_token-found k j s e = rw (e, fail_token) (update_hit j j s.targets refl, refl, refl)

-- Nothing was handed to the target: what it holds, how it is published and whether it is complete stay.
pub record Unpublished (before after : Target) : Type 0 where
  pub publish : after.publish ≡ before.publish
  pub destination : after.destination ≡ before.destination
  pub frame : after.frame ≡ before.frame
  pub completed : after.completed ≡ before.completed

failed-Unpublished :
    (i j : ℕ) (before : Target) (t : ℕ → Target)
    → Unpublished before (t i)
    → Unpublished before (update j (failing (t j)) t i)
failed-Unpublished i j before t h = elim (Bool-cases (j == i)) [
  | inl same ↦
      let equal : j ≡ i = ground arith in
      rw (same, equal)
        (record {
          publish = h.publish;
          destination = h.destination;
          frame = h.frame;
          completed = h.completed;
        })
  | inr other ↦ rw other h
]

fail_token-Unpublished :
    (k i : ℕ) (before : Target) (s : Session)
    → Unpublished before (s.targets i)
    → Unpublished before ((fail_token k s).targets i)
      × ((fail_token k s).pool ≡ s.pool)
      × ((fail_token k s).device ≡ s.device)
unfolding fail_token
fail_token-Unpublished k i before s h = elim (Option-cases (lookup k s.pending)) [
  | inl unknown ↦ rw (unknown, fail_token) (h, refl, refl)
  | inr (j, found) ↦ rw (found, fail_token) (failed-Unpublished i j before s.targets h, refl, refl)
]

-- A picture of target `i` that came back in a buffer lent for the live token of target `j` is not
-- published: target `i` keeps its frame, its destination, its publish policy and its completion flag, no
-- slot changes its holders and nothing is asked of the copier. Both targets fail, that token leaves the
-- map, and no completion is counted.
pub deliver-misplaced :
    (d : Dequeued) (i j slot_token : ℕ) (s : Session)
    → d.error ≡ false
    → is_import s.pool.capture_memory ≡ true
    → slot_token == d.timestamp_us ≡ false
    → lookup slot_token s.pending ≡ some j
    → let after = (deliver d i slot_token s).1 in
      HasFailed (after.targets i)
      × HasFailed (after.targets j)
      × (after.pending ≡ erase slot_token s.pending)
      × (after.stats.completed ≡ s.stats.completed)
      × Unpublished (s.targets i) (after.targets i)
      × (after.pool ≡ s.pool)
      × (after.device ≡ s.device)
unfolding deliver ◌>>=◌ get choose modify
deliver-misplaced d i j slot_token s fine lent other e =
    let s' = count_misplaced (fail_target i s) in
    let (failed_j, gone, same) = fail_token-found slot_token j s' e in
    let same_target : Unpublished (s.targets i) (s.targets i) = record {
      publish = refl;
      destination = refl;
      frame = refl;
      completed = refl;
    } in
    let (kept, pool, device) =
      fail_token-Unpublished slot_token i (s.targets i) s'
        (failed-Unpublished i i (s.targets i) s.targets same_target) in
    rw (fine, lent, other)
      (
        fail_token-HasFailed slot_token i s' (update_hit i i s.targets refl),
        failed_j,
        gone,
        same,
        kept,
        pool,
        device,
      )
