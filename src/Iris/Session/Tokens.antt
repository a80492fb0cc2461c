-- ===== src/Iris/Session/Tokens.antt =====
-- The token map of a session: every live token names a target that waits for it.
pub mod State
pub mod Pool
pub mod Lent
pub mod Publication
pub mod Returns
pub mod Drained
pub mod Frames
pub mod Runs
pub mod Requests
pub mod Settling
pub mod Losses
pub mod Reachable
pub mod Waits
use qualcomm_iris_vaapi.Base.{
  ℕ, ◌≤◌, ◌<◌, ◌≡◌, sym, ap, ◌∙◌, ◌≢◌, true, false, some, List, [], ◌∷◌, arith,
}
use qualcomm_iris_vaapi.Iris.Types.{Target}
use qualcomm_iris_vaapi.Iris.Session.{lookup, insert, erase, update}

abbrev pub Above : ℕ → List (ℕ × ℕ) → Type 0
Above k [] = Unit {0}
Above k ((j, i) ∷ m) = (k < j) × Above k m

-- No entry is for the target, or for the token.
abbrev pub Apart : ℕ → List (ℕ × ℕ) → Type 0
Apart i [] = Unit {0}
Apart i ((k, h) ∷ m) = (h ≢ i) × Apart i m

abbrev pub Lacks : ℕ → List (ℕ × ℕ) → Type 0
Lacks k [] = Unit {0}
Lacks k ((j, i) ∷ m) = (j ≢ k) × Lacks k m

-- The tokens rise, lie below the next one, and are those of pending targets.
abbrev pub Named : (ℕ → Target) → ℕ → List (ℕ × ℕ) → Type 0
Named targets n [] = Unit {0}
Named targets n ((k, i) ∷ m) =
    ((targets i).pending ≡ true) × ((targets i).token ≡ k) × (k < n) × Above k m × Named targets n m

pub Lacks-of_Above : (k : ℕ) (m : List (ℕ × ℕ)) → Above k m → Lacks k m
Lacks-of_Above k [] a = tt
Lacks-of_Above k ((j, i) ∷ m) a = (omega arith, Lacks-of_Above k m a.1)

Above-erase : (k l : ℕ) (m : List (ℕ × ℕ)) → Above k m → Above k (erase l m)
unfolding erase
Above-erase k l [] a = tt
Above-erase k l ((j, i) ∷ m) a = ground (arith, Above-erase k l m a.1)

pub Lacks-erase : (k : ℕ) (m : List (ℕ × ℕ)) → Lacks k (erase k m)
unfolding erase
Lacks-erase k [] = tt
Lacks-erase k ((j, i) ∷ m) = ground (arith, Lacks-erase k m)

pub Named-erase :
    (t : ℕ → Target) (n k : ℕ) (m : List (ℕ × ℕ)) → Named t n m → Named t n (erase k m)
unfolding erase
Named-erase t n k [] h = tt
Named-erase t n k ((j, i) ∷ m) h = ground (arith, Named-erase t n k m h.4, Above-erase j k m h.3)

pub Named-mono :
    (t : ℕ → Target) (n n' : ℕ) (m : List (ℕ × ℕ)) → n ≤ n' → Named t n m → Named t n' m
Named-mono t n n' [] le h = tt
Named-mono t n n' ((j, i) ∷ m) le h =
    (h.0, h.1, omega (arith, h.2), h.3, Named-mono t n n' m le h.4)

-- A target that does not wait is in no entry; nor is one whose token the map lacks.
pub Apart-of_idle :
    (t : ℕ → Target) (n i : ℕ) (m : List (ℕ × ℕ)) → Named t n m → (t i).pending ≡ false → Apart i m
Apart-of_idle t n i [] h e = tt
Apart-of_idle t n i ((j, g) ∷ m) h e =
    ((λ same. cc (h.0, e, ap (λ x. (t x).pending) same)), Apart-of_idle t n i m h.4 e)

pub Apart-of_Lacks :
    (t : ℕ → Target) (n k i : ℕ) (m : List (ℕ × ℕ))
    → Named t n m
    → (t i).token ≡ k
    → Lacks k m
    → Apart i m
Apart-of_Lacks t n k i [] h e l = tt
Apart-of_Lacks t n k i ((j, g) ∷ m) h e l =
    ((λ same. l.0 (sym h.1 ∙ ap (λ x. (t x).token) same ∙ e)), Apart-of_Lacks t n k i m h.4 e l.1)

pub Apart-erase : (i k : ℕ) (m : List (ℕ × ℕ)) → Apart i m → Apart i (erase k m)
unfolding erase
Apart-erase i k [] a = tt
Apart-erase i k ((j, g) ∷ m) a = ground (arith, Apart-erase i k m a.1)

-- A change of a target outside the map, and one that leaves the token and the wait alone.
pub Named-update-Apart :
    (t : ℕ → Target) (n i : ℕ) (x : Target) (m : List (ℕ × ℕ))
    → Apart i m
    → Named t n m
    → Named (update i x t) n m
Named-update-Apart t n i x [] a h = tt
Named-update-Apart t n i x ((j, g) ∷ m) a h =
    ground (arith, a.0, Named-update-Apart t n i x m a.1 h.4)

pub Named-update_same :
    (t : ℕ → Target) (n i : ℕ) (x : Target) (m : List (ℕ × ℕ))
    → x.pending ≡ (t i).pending
    → x.token ≡ (t i).token
    → Named t n m
    → Named (update i x t) n m
Named-update_same t n i x [] p e h = tt
Named-update_same t n i x ((j, g) ∷ m) p e h = ground (arith, Named-update_same t n i x m p e h.4)

-- What a live token names.
pub lookup-Named :
    (t : ℕ → Target) (n k i : ℕ) (m : List (ℕ × ℕ))
    → Named t n m
    → lookup k m ≡ some i
    → ((t i).pending ≡ true) × ((t i).token ≡ k) × (k < n)
unfolding lookup
lookup-Named t n k i [] h e = cc
lookup-Named t n k i ((j, g) ∷ m) h e = ground (arith, lookup-Named t n k i m h.4)

Above-insert : (k l i : ℕ) (m : List (ℕ × ℕ)) → k < l → Above k m → Above k (insert l i m)
unfolding insert
Above-insert k l i [] h a = (h, tt)
Above-insert k l i ((j, g) ∷ m) h a = ground (arith, Above-insert k l i m h a.1)

-- A new token goes to the end.
pub Named-insert :
    (t : ℕ → Target) (n n' i : ℕ) (x : Target) (m : List (ℕ × ℕ))
    → n < n'
    → x.pending ≡ true
    → x.token ≡ n
    → Apart i m
    → Named t n m
    → Named (update i x t) n' (insert n i m)
unfolding insert
Named-insert t n n' i x [] lt p e a h = ground arith
Named-insert t n n' i x ((j, g) ∷ m) lt p e a h =
    ground (arith, a.0, Named-insert t n n' i x m lt p e a.1 h.4, Above-insert j n i m h.2 h.3)
