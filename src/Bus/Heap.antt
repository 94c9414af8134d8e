-- ===== src/Bus/Heap.antt =====
-- The allocator's bookkeeping: which blocks are live.
use frameworks_connectivity.Common.{
  ℕ, ◌≤◌, ◌<◌, ◌≡◌, refl, List, [], ◌∷◌, ◌++◌, inl, inr, none, some, Option-cases, All, arith,
}
use frameworks_connectivity.Bus.Monad.{remove, World}

-- Every live block has a number below the next one.
abbrev pub IsHeap : World → Type 0
IsHeap w = All (λ b. b < w.next) w.live

pub All-lt-le : (l : List ℕ) {m n : ℕ} → m ≤ n → All (λ b. b < m) l → All (λ b. b < n) l
All-lt-le [] h a = tt
All-lt-le (x ∷ xs) h a = (omega arith, All-lt-le xs h a.1)

-- A block that is not live is not found.
pub remove-absent : (p n : ℕ) (l : List ℕ) → n ≤ p → All (λ b. b < n) l → remove p l ≡ none
remove-absent p n [] h a = refl
remove-absent p n (x ∷ xs) h a = ground (arith, remove-absent p n xs h a.1)

-- A block that is held is found there, whatever else is live.
pub remove-append :
    (p : ℕ) (bs cs l : List ℕ) → remove p bs ≡ some cs → remove p (bs ++ l) ≡ some (cs ++ l)
remove-append p [] cs l h = ground arith
remove-append p (x ∷ xs) cs l h = elim (Option-cases (remove p xs)) [
  | inl e ↦ ground arith
  | inr (ds, e) ↦ ground (arith, remove-append p xs ds l e)
]

pub remove-absent_append :
    (p : ℕ) (bs l : List ℕ) → remove p bs ≡ none → remove p l ≡ none → remove p (bs ++ l) ≡ none
remove-absent_append p [] l h k = k
remove-absent_append p (x ∷ xs) l h k = elim (Option-cases (remove p xs)) [
  | inl e ↦ ground (arith, remove-absent_append p xs l e k)
  | inr (ds, e) ↦ ground arith
]

pub All-remove :
    (p n : ℕ) (bs cs : List ℕ) → remove p bs ≡ some cs → All (λ b. b < n) bs → All (λ b. b < n) cs
All-remove p n [] cs h a = ground arith
All-remove p n (x ∷ xs) cs h a = elim (Option-cases (remove p xs)) [
  | inl e ↦ ground arith
  | inr (ds, e) ↦ ground (arith, All-remove p n xs ds e a.1)
]

pub remove-first : (p : ℕ) (l : List ℕ) → remove p (p ∷ l) ≡ some l
remove-first p l = ground arith
