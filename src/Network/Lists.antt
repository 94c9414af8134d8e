-- ===== src/Network/Lists.antt =====
-- tapi_network.c: the loops over the cells and the operators of a reply, and their memory.
use frameworks_connectivity.Common.{
  ℕ, suc, ◌+◌, ◌≤◌, ◌<◌, ◌≡◌, refl, ◌∙◌, ap, inl, inr, leb, Bool-cases, Option, none, some, List,
  [], ◌∷◌, length, arith,
}
use frameworks_connectivity.Bus.Message.{Iter, item, struct, ◌>>=◌}
use frameworks_connectivity.Bus.Monad.{World}
use frameworks_connectivity.Bus.Heap.{remove-first}
use frameworks_connectivity.Bus.Held.{free_live}
use frameworks_connectivity.Network.Replies.{collect, and_more, free_blocks, given_block}

-- Entries that, stored from `index` on, stay in an array of `size`, a block for each, and a heap that
-- is as before once these are freed.
pub record Collected {A : Type 0} (size index : ℕ) (w : World) (l : List A) (bs : List ℕ)
    (w' : World) : Type 0 where
  pub bounded : index + length l ≤ size
  pub paired : length bs ≡ length l
  pub restored : (free_blocks bs w').live ≡ w.live
  pub sound : (free_blocks bs w').bad_free ≡ w.bad_free

abbrev pub Collects : {A : Type 0} → ℕ → ℕ → World → Option (List A × List ℕ × World) → Type 0
Collects size index w none = Unit
Collects size index w (some (l, bs, w')) = Collected size index w l bs w'

module _ {A : Type 0} (size : ℕ) (read : Iter → Option A) where
  empty-Collected :
      (index : ℕ) (w w' : World)
      → index < size
      → w'.live ≡ w.live
      → w'.bad_free ≡ w.bad_free
      → Collected {A = A} size index w [] [] w'
  unfolding free_blocks
  empty-Collected index w w' lt h k = record {
    bounded = omega arith;
    paired = refl;
    restored = h;
    sound = k;
  }

  -- The last entry: its block is the first of the heap.
  last-Collected :
      (index : ℕ) (w : World) (a : A)
      → index < size
      → Collected size index w (a ∷ []) (w.next ∷ []) (given_block w)
  unfolding free_blocks
  last-Collected index w a lt =
      let e = free_live w.next (given_block w) w.live (remove-first w.next w.live) in
      record {
        bounded = omega arith;
        paired = refl;
        restored = ap World.live e;
        sound = ap World.bad_free e;
      }

  -- One entry more: its block was the first of the heap when the others were collected.
  more-Collected :
      (index : ℕ) (w : World) (a : A) (r : Option (List A × List ℕ × World))
      → Collects size (index + 1) (given_block w) r
      → Collects size index w (r >>= λ x. some (a ∷ x.0, w.next ∷ x.1, x.2))
  unfolding free_blocks
  more-Collected index w a none h = tt
  more-Collected index w a (some (l, bs, w')) h =
      let e =
        free_live w.next (free_blocks bs w') w.live (rw h.restored (remove-first w.next w.live)) in
      record {
        bounded = omega (arith, h.bounded);
        paired = ap suc h.paired;
        restored = ap World.live e;
        sound = ap World.bad_free e ∙ h.sound;
      }

  stored-Collects :
      (index : ℕ) (w : World) (o : Option A) (rest : Option (List A × List ℕ × World))
      → index < size
      → (index + 1 < size → Collects size (index + 1) (given_block w) rest)
      → Collects size index w
          (o >>= λ a. and_more a w.next (given_block w) (leb size (index + 1)) rest)
  stored-Collects index w none rest lt h = tt
  stored-Collects index w (some a) rest lt h = elim (Bool-cases (leb size (index + 1))) [
    | inl b ↦ rw b (last-Collected index w a lt)
    | inr b ↦ rw b (more-Collected index w a rest (h (ground arith)))
  ]

  -- Whatever the list of a reply holds and whatever the allocator answers: the loop stores entries
  -- inside its array only, with one block for each; and freeing these blocks leaves the heap as it
  -- was before.
  pub collect-Collects :
      (i : Iter) (index : ℕ) (w : World)
      → index < size
      → Collects size index w (collect size read index i w)
  unfolding collect
  collect-Collects (item (struct entry) i) index w lt = elim (Bool-cases (w.mallocs w.next)) [
    | inl e ↦ rw e (
        stored-Collects index w (read entry) (collect size read (index + 1) i (given_block w)) lt
          λ more. collect-Collects i (index + 1) (given_block w) more)
    | inr e ↦ rw e (empty-Collected index w _ lt refl refl)
  ]
  collect-Collects _ index w lt = empty-Collected index w w lt refl refl
