-- ===== src/Ss/Rules.antt =====
-- tapi_ss.c: what a request that reports to the data log has sent when it reports success.
use frameworks_connectivity.Common.{ℕ, ℤ, ◌≡◌, refl, ◌∙◌, subst, String, Bool, Option, none, some}
use frameworks_connectivity.Utils.Modem.{Config}
use frameworks_connectivity.Records.{Code, AsyncResult, Handler, Callback, ProxyType, Context}
use frameworks_connectivity.Bus.Monad.{
  World, M, ◌>>=◌, crash, free, Setup, Report, handler_free, data_free,
}
use frameworks_connectivity.Bus.Logging.{
  report_over_miwear, Quiet-if, report_over_miwear-Quiet, Quiet-then,
}
use frameworks_connectivity.Bus.Request.{handler_of, data_release}
use frameworks_connectivity.Bus.Frees.{free_pending, releasing-Quiet, release_pending}
use frameworks_connectivity.Bus.Wire.{Row, client_of, Sent}
use frameworks_connectivity.Bus.Issued.{
  Succeeds, Quiet, Quiet-Succeeds, malloc-Succeeds, call-Succeeds,
}
use frameworks_connectivity.Bus.SentRules.{IsGuard, said}
use frameworks_connectivity.Ss.Log.{report_data_logging_for_ss, call_reported, call_reported_owned}

pub ss_report-Quiet :
    (cfg : Config) (ctx : Option Context) (type reason : String) (w : World)
    → Quiet w.pending (report_data_logging_for_ss cfg ctx type reason w)
unfolding report_data_logging_for_ss
ss_report-Quiet cfg ctx type reason w =
    Quiet-if w.pending cfg.log_over_miwear _ _ (over_miwear ctx) refl
  where
    over_miwear :
        (o : Option Context)
        → Quiet w.pending (elim o [
          | none ↦ crash
          | some c ↦ report_over_miwear c.logging_over_miwear_cb (Report.of_ss type reason) w
        ])
    over_miwear none = tt
    over_miwear (some c) =
        report_over_miwear-Quiet c.logging_over_miwear_cb (Report.of_ss type reason) w

module _ (cfg : Config) (ctx : Option Context) (slot_id : ℤ)
    (guard : Bool → ProxyType → (ℕ → M Code) → M Code) (safe : IsGuard cfg ctx slot_id guard)
    (row : Row) (w : World) (report : M (Unit {0}))
    (logs : (w' : World) → Quiet w'.pending (report w')) (setup : Handler → Setup) (cb : Callback)
    (kept : (h : Handler) (w' : World) → (setup h w').1.pending ≡ w'.pending) where
  abbrev Whole : (ℕ → M Code) → Type 0
  Whole request =
      Succeeds (Sent cfg ctx slot_id row w.pending) (guard row.accepts row.type request w)

  pub reported-Sent :
      (ar : ℕ → AsyncResult)
      → ((a h : ℕ) (w' : World) → (setup (handler_of (ar a) cb h) w').0 ≡ row.wire.args)
      → ((a h : ℕ) → client_of (handler_free (handler_of (ar a) cb h)) ≡ row.wire.client)
      → Whole (λ proxy. call_reported report cb ar proxy row.wire.member setup row.wire.reply)
  unfolding call_reported
  reported-Sent ar appended told = safe _ _ _ _ w λ c proxy given valid ok found.
      malloc-Succeeds _ _ w _ λ h w₁ e₁. malloc-Succeeds _ _ w₁ _ λ a w₂ e₂.
        call-Succeeds _ proxy _ _ _ _ _ w₂ (kept _)
          (λ w'.
            Quiet-then report _ w' (logs w') λ w''. releasing-Quiet _ w'' (release_pending _ w''))
          λ w' p e f.
            said cfg ctx slot_id row w c proxy given valid ok found _ w' p (told a h)
              (rw (← e₁, ← e₂) e) (rw (appended a h _) at f)

  pub reported_owned-Sent :
      (ar : ℕ → ℕ → AsyncResult)
      → ((a d h : ℕ) (w' : World) → (setup (handler_of (ar a d) cb h) w').0 ≡ row.wire.args)
      → ((a d h : ℕ) → client_of (data_free d (handler_of (ar a d) cb h)) ≡ row.wire.client)
      → Whole (λ proxy. call_reported_owned report cb ar proxy row.wire.member setup row.wire.reply)
  unfolding call_reported_owned data_release
  reported_owned-Sent ar appended told = safe _ _ _ _ w λ c proxy given valid ok found.
      malloc-Succeeds _ _ w _ λ h w₁ e₁. malloc-Succeeds _ _ w₁ _ λ a w₂ e₂.
        malloc-Succeeds _ _ w₂ _ λ d w₃ e₃.
          call-Succeeds _ proxy _ _ _ _ _ w₃ (kept _)
            (λ w'. Quiet-then report _ w' (logs w') λ w''.
              releasing-Quiet _ w''
                (release_pending (handler_of (ar a d) cb h) (free d w'') ∙ free_pending d w''))
            λ w' p e f.
              said cfg ctx slot_id row w c proxy given valid ok found _ w' p (told a d h)
                (rw (← e₁, ← e₂, ← e₃) e) (rw (appended a d h _) at f)

-- A request that begins with a report.
pub after_report :
    (cfg : Config) (ctx : Option Context) (slot_id : ℤ) (row : Row) (type reason : String)
    (request : M Code) (w : World)
    → ((w' : World) → Succeeds (Sent cfg ctx slot_id row w'.pending) (request w'))
    → Succeeds
        (Sent cfg ctx slot_id row w.pending)
        ((report_data_logging_for_ss cfg ctx type reason >>= λ _. request) w)
after_report cfg ctx slot_id row type reason request w k =
    Quiet-Succeeds _ _ _ w (ss_report-Quiet cfg ctx type reason w)
      λ w' e. subst (λ ps. Succeeds (Sent cfg ctx slot_id row ps) (request w')) e (k w')
