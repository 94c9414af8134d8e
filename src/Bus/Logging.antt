-- ===== src/Bus/Logging.antt =====
-- The data log over miwear, and the steps that leave the calls on the bus alone.
use frameworks_connectivity.Common.{
  suc, Bool, true, false, refl, subst, List, ◌∷◌, none, some, if◌then◌else◌,
}
use frameworks_connectivity.Records.{Callback}
use frameworks_connectivity.Bus.Monad.{
  World, Step, go, stop, crash, M, ◌>>=◌, Report, Pending, free,
}
use frameworks_connectivity.Bus.Frees.{free_pending}
use frameworks_connectivity.Bus.Issued.{Quiet}

-- The report over miwear: a result is allocated for the callback, and freed again.
unfoldable pub report_over_miwear : Callback → Report → M (Unit {0})
unfolding free
report_over_miwear none line w = go tt w
report_over_miwear (some cb) line w =
    if w.mallocs w.next
    then go tt (
        free w.next
          (record w { next = suc w.next; live = w.next ∷ w.live; reports = line ∷ w.reports }))
    else go tt (record w { next = suc w.next })

pub Quiet-if :
    (ps : List Pending) (b : Bool) (x y : Step (Unit {0}))
    → Quiet ps x
    → Quiet ps y
    → Quiet ps (if b then x else y)
Quiet-if ps true x y h k = h
Quiet-if ps false x y h k = k

pub report_over_miwear-Quiet :
    (cb : Callback) (line : Report) (w : World) → Quiet w.pending (report_over_miwear cb line w)
unfolding report_over_miwear
report_over_miwear-Quiet none line w = refl
report_over_miwear-Quiet (some cb) line w =
    Quiet-if w.pending (w.mallocs w.next) _ _
      (free_pending w.next
        (record w { next = suc w.next; live = w.next ∷ w.live; reports = line ∷ w.reports }))
      refl

-- One quiet step after another.
pub Quiet-then :
    (m : M (Unit {0})) (k : M (Unit {0})) (w : World)
    → Quiet w.pending (m w)
    → ((w' : World) → Quiet w'.pending (k w'))
    → Quiet w.pending ((m >>= λ _. k) w)
unfolding ◌>>=◌
Quiet-then m k w q h = after (m w) q
  where
    after :
        (s : Step (Unit {0}))
        → Quiet w.pending s
        → Quiet w.pending (elim s [ go u w' ↦ k w' | stop c w' ↦ stop c w' | crash ↦ crash ])
    after (go u w') e = subst (λ ps. Quiet ps (k w')) e (h w')
    after (stop c w') e = absurd e
    after crash e = tt
