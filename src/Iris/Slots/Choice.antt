-- ===== src/Iris/Slots/Choice.antt =====
-- The slot that queue_capture_import chooses.
use qualcomm_iris_vaapi.Base.{
  ℕ, Option, ◌≤◌, ◌<◌, ◌≡◌, refl, ◌⊎◌, inl, inr, Bool, true, false, not, ◌&&◌, ◌||◌, none, some,
  List, [], ◌∷◌, arith, Bool-cases, length, ap,
}
use qualcomm_iris_vaapi.Iris.Types.{Frame}
use qualcomm_iris_vaapi.Iris.Slots.{choose_loop, same_fd, capture_queued}

-- The slot is in the list.
abbrev pub Holds : Frame → List Frame → Type 0
Holds f [] = ⊥
Holds f (g ∷ gs) = (g ≡ f) ⊎ Holds f gs

-- Some slot that is not with the firmware last carried `fd`.
abbrev pub Offers : ℕ → List Frame → Type 0
Offers fd [] = ⊥
Offers fd (f ∷ fs) = ((f.queued ≡ false) × (f.import_fd ≡ some fd)) ⊎ Offers fd fs

-- Some free slot carried `fd`.
abbrev carried : ℕ → List Frame → Bool
carried fd [] = false
carried fd (f ∷ fs) = (not f.queued && same_fd f.import_fd fd) || carried fd fs

-- A slot of the list, by its index, that is not with the firmware, and that last carried `fd` if any
-- such slot did.
pub record Chosen (fd : ℕ) (fs : List Frame) (i : ℕ) : Type 0 where
  pub frame : Frame
  pub present : Holds frame fs
  pub index : frame.index ≡ i
  pub idle : frame.queued ≡ false
  pub preferred : Offers fd fs → frame.import_fd ≡ some fd

-- The same by the tests of the code.
record Found (fd : ℕ) (fs : List Frame) (i : ℕ) : Type 0 where
  frame : Frame
  present : Holds frame fs
  index : frame.index ≡ i
  idle : frame.queued ≡ false
  preferred : carried fd fs ≡ true → same_fd frame.import_fd fd ≡ true

same_some : (a : Option ℕ) (fd : ℕ) → same_fd a fd ≡ true → a ≡ some fd
same_some none fd e = cc
same_some (some a) fd e = let equal : a ≡ fd = ground (arith, e) in ap some equal

carried-of_Offers : (fd : ℕ) (fs : List Frame) → Offers fd fs → carried fd fs ≡ true
carried-of_Offers fd [] h = absurd h
carried-of_Offers fd (f ∷ fs) (inl (idle, same)) = rw (idle, same) (ground arith)
carried-of_Offers fd (f ∷ fs) (inr h) =
    let later = carried-of_Offers fd fs h in rw later (ground arith)

Chosen-of_Found : (fd : ℕ) (fs : List Frame) (i : ℕ) → Found fd fs i → Chosen fd fs i
Chosen-of_Found fd fs i c = record {
  frame = c.frame;
  present = c.present;
  index = c.index;
  idle = c.idle;
  preferred = λ h. same_some c.frame.import_fd fd (c.preferred (carried-of_Offers fd fs h));
}

-- Where the loop already has a choice, it changes it only for a slot that carried `fd`.
choose_loop-some :
    (fd : ℕ) (c : ℕ) (fs : List Frame)
    → ((carried fd fs ≡ false) × (choose_loop fd (some c) fs ≡ some c))
      ⊎ ((f : Frame) × Holds f fs
          × (choose_loop fd (some c) fs ≡ some f.index)
          × (f.queued ≡ false)
          × (same_fd f.import_fd fd ≡ true))
unfolding choose_loop
choose_loop-some fd c [] = inl (refl, refl)
choose_loop-some fd c (f ∷ fs) = elim (Bool-cases (not f.queued && same_fd f.import_fd fd)) [
  | inl hit ↦ inr (f, inl refl, rw hit, ground arith, ground arith)
  | inr miss ↦ elim (choose_loop-some fd c fs) [
    | inl (none_left, same) ↦ inl (rw miss none_left, ground arith)
    | inr (g, there, found, idle, same) ↦ inr (g, inr there, ground arith, idle, same)
  ]
]

pub capture_queued-le : (fs : List Frame) → capture_queued fs ≤ length fs
unfolding capture_queued
capture_queued-le [] = omega arith
capture_queued-le (f ∷ fs) = ground (arith, capture_queued-le fs)

idle_head :
    (fd : ℕ) (f : Frame) (fs : List Frame)
    → f.queued ≡ false
    → (i : ℕ) × (choose_loop fd none (f ∷ fs) ≡ some i) × Found fd (f ∷ fs) i
unfolding choose_loop
idle_head fd f fs idle = elim (Bool-cases (same_fd f.import_fd fd)) [
  | inl hit ↦ (
    f.index,
    rw (idle, hit),
    record { frame = f; present = inl refl; index = refl; idle = idle; preferred = λ _. hit },
  )
  | inr miss ↦ elim (choose_loop-some fd f.index fs) [
    | inl (none_left, same) ↦ (
      f.index,
      rw (idle, miss) same,
      record {
        frame = f;
        present = inl refl;
        index = refl;
        idle = idle;
        preferred = λ e. ground arith;
      },
    )
    | inr (g, there, found, free, same) ↦ (
      g.index,
      rw (idle, miss) found,
      record { frame = g; present = inr there; index = refl; idle = free; preferred = λ _. same },
    )
  ]
]

choose_loop-Found :
    (fd : ℕ) (fs : List Frame)
    → ((capture_queued fs ≡ length fs) × (choose_loop fd none fs ≡ none))
      ⊎ ((i : ℕ) × (choose_loop fd none fs ≡ some i)
          × (capture_queued fs < length fs)
          × Found fd fs i)
unfolding choose_loop capture_queued
choose_loop-Found fd [] = inl (refl, refl)
choose_loop-Found fd (f ∷ fs) = elim (Bool-cases f.queued) [
  | inl queued ↦ elim (choose_loop-Found fd fs) [
    | inl (all, found) ↦ inl (rw queued (omega (arith, all)), rw queued found)
    | inr (i, found, fewer, c) ↦ inr (
      i,
      rw queued found,
      rw queued (omega (arith, fewer)),
      record {
        frame = c.frame;
        present = inr c.present;
        index = c.index;
        idle = c.idle;
        preferred = rw queued c.preferred;
      },
    )
  ]
  | inr idle ↦
      let (i, found, c) = idle_head fd f fs idle in
      inr (i, found, rw idle (omega (arith, capture_queued-le fs)), c)
]

-- `queue_capture_import` finds no slot exactly when all are with the firmware; otherwise it takes a slot
-- of the pool that is not with the firmware, one that last carried the same buffer if there is one.
pub choose_loop-Chosen :
    (fd : ℕ) (fs : List Frame)
    → ((capture_queued fs ≡ length fs) × (choose_loop fd none fs ≡ none))
      ⊎ ((i : ℕ) × (choose_loop fd none fs ≡ some i)
          × (capture_queued fs < length fs)
          × Chosen fd fs i)
choose_loop-Chosen fd fs = elim (choose_loop-Found fd fs) [
  | inl full ↦ inl full
  | inr (i, found, fewer, c) ↦ inr (i, found, fewer, Chosen-of_Found fd fs i c)
]
