-- ===== src/Ss/Log.antt =====
-- tapi_ss.c: the data log, and the way in which its requests allocate what they hand to gdbus.
use frameworks_connectivity.Common.{ℕ, String, ◌∷◌, Option, none, some, if◌then◌else◌}
use frameworks_connectivity.Utils.Modem.{Config}
use frameworks_connectivity.Records.{Code, ret, AsyncResult, Handler, Callback, Context}
use frameworks_connectivity.Bus.Monad.{
  M, ◌>>=◌, ◌>>◌, crash, go, returns, free, malloc, handler_release, Setup, Report, ReplyFunction,
  method_call, or_fail, releasing, handler_free, data_free,
}
use frameworks_connectivity.Bus.Logging.{report_over_miwear}
use frameworks_connectivity.Bus.Request.{handler_of, data_release}

-- Over miwear the context is read before any check of it.
unfoldable pub report_data_logging_for_ss : Config → Option Context → String → String → M (Unit {0})
report_data_logging_for_ss cfg ctx type fail_reason w =
    let line : Report = Report.of_ss type fail_reason in
    if cfg.log_over_miwear
    then elim ctx [ none ↦ crash | some c ↦ report_over_miwear c.logging_over_miwear_cb line w ]
    else go tt (record w { reports = line ∷ w.reports })

-- A handler and a result; where the call fails it is reported, and then both are freed. The source
-- repeats these lines in each request.
module _ (report : M (Unit {0})) (p_handle : Callback) where
  unfoldable pub call_reported :
      (ℕ → AsyncResult) → ℕ → String → (Handler → Setup) → ReplyFunction → M Code
  call_reported ar proxy member setup reply = do
    h ← malloc (λ w. w)
    a ← malloc (free h)
    done ←
        method_call proxy member (setup (handler_of (ar a) p_handle h)) reply
          (handler_free (handler_of (ar a) p_handle h))
    or_fail done (report >>= λ _. releasing (handler_release (some (handler_of (ar a) p_handle h))))
    returns (ret 0)

  -- The same with a parameter, which is freed with the call.
  unfoldable pub call_reported_owned :
      (ℕ → ℕ → AsyncResult) → ℕ → String → (Handler → Setup) → ReplyFunction → M Code
  unfolding data_release
  call_reported_owned ar proxy member setup reply = do
    h ← malloc (λ w. w)
    a ← malloc (free h)
    p ← malloc (λ w. free a (free h w))
    done ←
        method_call proxy member (setup (handler_of (ar a p) p_handle h)) reply
          (data_free p (handler_of (ar a p) p_handle h))
    or_fail done (report >>= λ _. releasing (data_release p (handler_of (ar a p) p_handle h)))
    returns (ret 0)
