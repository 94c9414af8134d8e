-- ===== src/Bus/Frees.antt =====
-- Freeing leaves the pending calls alone.
use frameworks_connectivity.Common.{ℕ, ◌≡◌, refl, ◌∙◌, inl, inr, Option, none, some, Option-cases}
use frameworks_connectivity.Records.{AsyncResult, Handler}
use frameworks_connectivity.Bus.Monad.{World, remove, handler_release, releasing, free}
use frameworks_connectivity.Bus.Held.{free_live, free_absent}
use frameworks_connectivity.Bus.Issued.{Quiet}

pub free_pending : (p : ℕ) (w : World) → (free p w).pending ≡ w.pending
unfolding free
free_pending p w = elim (Option-cases (remove p w.live)) [
  | inl e ↦ rw (free_absent p w e) refl
  | inr f ↦ rw (free_live p w f.0 f.1) refl
]

pub releasing-Quiet :
    (f : World → World) (w : World) → (f w).pending ≡ w.pending → Quiet w.pending (releasing f w)
unfolding releasing
releasing-Quiet f w e = e

release_result_pending :
    (h : Handler) (o : Option AsyncResult) (w : World)
    → h.result ≡ o
    → (handler_release (some h) w).pending ≡ w.pending
unfolding handler_release
release_result_pending h none w e = rw e (free_pending h.block w)
release_result_pending h (some ar) w e =
    rw e (free_pending h.block (free ar.block w) ∙ free_pending ar.block w)

pub release_pending : (h : Handler) (w : World) → (handler_release (some h) w).pending ≡ w.pending
release_pending h w = release_result_pending h h.result w refl
