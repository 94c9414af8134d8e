-- ===== src/Call/QuietSteps.antt =====
-- The steps of the call requests that issue no call.
use frameworks_connectivity.Common.{
  ℕ, String, CString, Bool, true, false, ◌≡◌, refl, Option, none, some,
}
use frameworks_connectivity.Utils.Modem.{Config}
use frameworks_connectivity.Records.{Code, ret, fail, Context}
use frameworks_connectivity.Bus.Monad.{
  World, Step, go, stop, crash, M, ◌>>=◌, CallType, Direction, Media, Scenario, Report,
}
use frameworks_connectivity.Bus.Issued.{Succeeds, Quiet}
use frameworks_connectivity.Bus.Logging.{report_over_miwear, Quiet-if, report_over_miwear-Quiet}
use frameworks_connectivity.Call.Params.{
  report_data_logging_for_call, report_data_logging_for_call_if,
}
use frameworks_connectivity.Call.Request.{deref}
use frameworks_connectivity.Call.Control.{free_if_failed, freeing}

module _ (cfg : Config) (ctx : Option Context) (type : CallType) (direction : Direction)
    (media : Media) (scenario : Scenario) (reason : String) (w : World) where
  pub report-Quiet :
      Quiet w.pending (report_data_logging_for_call cfg ctx type direction media scenario reason w)
  unfolding report_data_logging_for_call
  report-Quiet = Quiet-if w.pending cfg.log_over_miwear _ _ (over_miwear ctx) refl
    where
      line : Report
      line = Report.of_call (record {
        type = type;
        direction = direction;
        media = media;
        scenario = scenario;
        reason = reason;
      })

      over_miwear :
          (o : Option Context)
          → Quiet w.pending (elim o [
            | none ↦ crash
            | some c ↦ report_over_miwear c.logging_over_miwear_cb line w
          ])
      over_miwear none = tt
      over_miwear (some c) = report_over_miwear-Quiet c.logging_over_miwear_cb line w

  pub report_if-Quiet :
      (b : Bool)
      → Quiet w.pending
          (report_data_logging_for_call_if cfg b ctx type direction media scenario reason w)
  unfolding report_data_logging_for_call_if
  report_if-Quiet true = report-Quiet
  report_if-Quiet false = refl

pub deref-Succeeds :
    (P : ℕ → World → Type 0) (s : CString) (f : String → M Code) (w : World)
    → ((n : String) → s ≡ some n → Succeeds P (f n w))
    → Succeeds P ((deref s >>= f) w)
unfolding ◌>>=◌ deref
deref-Succeeds P none f w k = tt
deref-Succeeds P (some n) f w k = k n refl

pub freeing-Succeeds :
    (P : ℕ → World → Type 0) (p : ℕ) (m : M Code) (w : World)
    → Succeeds P (m w)
    → Succeeds P (freeing p m w)
unfolding freeing
freeing-Succeeds P p m w h = after (m w) h
  where
    after : (s : Step Code) → Succeeds P s → Succeeds P (free_if_failed p s)
    after (go c w') e = tt
    after (stop (ret n) w') e = e
    after (stop (fail x) w') e = tt
    after crash e = tt
