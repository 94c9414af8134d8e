-- ===== src/Bus/Ownership.antt =====
-- Who frees what a request has allocated.
use frameworks_connectivity.Common.{ℕ, List, [], ◌∷◌, ◌++◌, none, some, ◌≡◌}
use frameworks_connectivity.Bus.Monad.{
  UserData, keep, handler_free, free_block, data_free, Pending, World,
}

-- The blocks that gdbus frees with the call: those of the handler, or the one block.
abbrev pub owned : UserData → List ℕ
owned keep = []
owned (handler_free h) = h.block ∷ elim h.result [ none ↦ [] | some ar ↦ ar.block ∷ [] ]
owned (free_block p) = p ∷ []
owned (data_free d h) = h.block ∷ elim h.result [ none ↦ d ∷ [] | some ar ↦ ar.block ∷ d ∷ [] ]

-- One call more is pending than before, and owns every block that was allocated and not freed.
abbrev pub Handed : World → List Pending → World → Type 0
Handed w [] w' = ⊥
Handed w (p ∷ ps) w' = (ps ≡ w.pending) × (w'.live ≡ owned p.user_data ++ w.live)
