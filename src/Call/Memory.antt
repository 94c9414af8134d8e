-- ===== src/Call/Memory.antt =====
-- Memory rules for the steps that the requests of tapi_call.c share.
use frameworks_connectivity.Common.{
  ℕ, suc, String, CString, List, ◌∷◌, Option, some, none, Bool, true, false, ap, arith,
}
use frameworks_connectivity.Utils.Modem.{Config}
use frameworks_connectivity.Records.{Code, Callback, Context}
use frameworks_connectivity.Bus.Monad.{
  World, M, ◌>>=◌, CallType, Direction, Media, Scenario, Report,
}
use frameworks_connectivity.Bus.Heap.{remove-first}
use frameworks_connectivity.Bus.Held.{Held, Done, Keeps, free-Held, Keeps-if, tick-Held}
use frameworks_connectivity.Bus.Logging.{report_over_miwear}
use frameworks_connectivity.Call.Params.{
  report_data_logging_for_call, report_data_logging_for_call_if,
}
use frameworks_connectivity.Call.Request.{deref}

pub deref-Done :
    (w₀ : World) (fs : List ℕ) (s : CString) (f : String → M Code) (w : World)
    → ((n : String) → Done w₀ fs (f n w))
    → Done w₀ fs ((deref s >>= f) w)
unfolding ◌>>=◌ deref
deref-Done w₀ fs none f w k = tt
deref-Done w₀ fs (some n) f w k = k n

module _ {w₀ : World} where
  report_over_miwear-Keeps :
      (cb : Callback) (line : Report) (w : World) (bs : List ℕ)
      → Held w₀ bs w
      → Keeps w₀ bs (report_over_miwear cb line w)
  unfolding report_over_miwear
  report_over_miwear-Keeps none line w bs h = h
  report_over_miwear-Keeps (some cb) line w bs h =
      let t : Held w₀ bs (record w { next = suc w.next }) = tick-Held bs w h in
      Keeps-if w₀ (w.mallocs w.next) _ _ bs
        (λ _. free-Held w.next (w.next ∷ bs) bs _ (remove-first w.next bs) (record {
          pending = h.pending;
          live = ap (λ l. w.next ∷ l) h.live;
          below = (omega arith, t.below);
          counted = t.counted;
          answers = h.answers;
          calm = h.calm;
        }))
        (λ _. t)

  module _ (cfg : Config) (type : CallType) (direction : Direction) (media : Media)
      (scenario : Scenario) (reason : String) (w : World) (bs : List ℕ) where
    logged-Held :
        (line : Report) → Held w₀ bs w → Held w₀ bs (record w { reports = line ∷ w.reports })
    logged-Held line h = record {
      pending = h.pending;
      live = h.live;
      below = h.below;
      counted = h.counted;
      answers = h.answers;
      calm = h.calm;
    }

    pub report-Keeps :
        (ctx : Option Context)
        → Held w₀ bs w
        → Keeps w₀ bs (report_data_logging_for_call cfg ctx type direction media scenario reason w)
    unfolding report_data_logging_for_call
    report-Keeps none h = Keeps-if w₀ cfg.log_over_miwear _ _ bs (λ _. tt) (λ _. logged-Held _ h)
    report-Keeps (some c) h =
        Keeps-if w₀ cfg.log_over_miwear _ _ bs
          (λ _. report_over_miwear-Keeps c.logging_over_miwear_cb _ w bs h) (λ _. logged-Held _ h)

    pub report_if-Keeps :
        (b : Bool) (ctx : Option Context)
        → Held w₀ bs w
        → Keeps w₀ bs
            (report_data_logging_for_call_if cfg b ctx type direction media scenario reason w)
    unfolding report_data_logging_for_call_if
    report_if-Keeps true ctx h = report-Keeps ctx h
    report_if-Keeps false ctx h = h
