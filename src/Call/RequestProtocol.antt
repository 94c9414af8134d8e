-- ===== src/Call/RequestProtocol.antt =====
-- The requests that wait for a reply, against the table of what goes on the bus.
use frameworks_connectivity.Common.{ℕ, ℤ, CString, Option, some, refl, ◌∙◌, arith}
use frameworks_connectivity.Utils.Modem.{Config}
use frameworks_connectivity.Records.{Payload, max_phone_number_length, Callback, Context}
use frameworks_connectivity.Bus.Monad.{World, free, fresh_result, handler_free}
use frameworks_connectivity.Bus.Request.{handler_of}
use frameworks_connectivity.Bus.Issued.{
  Succeeds, non_null-Succeeds, require-Succeeds, malloc-Succeeds, Quiet-Succeeds,
  call_with_result-Succeeds, call_with_param-Succeeds,
}
use frameworks_connectivity.Call.Params.{truncate, call_param_append, dtmf_param_append}
use frameworks_connectivity.Call.Request
use frameworks_connectivity.Call.Sent.{CallRequest}
use frameworks_connectivity.Call.Protocol.{Issued, issued}
use frameworks_connectivity.Bus.Frees.{releasing-Quiet, release_pending, free_pending}
use frameworks_connectivity.Call.QuietSteps.{report-Quiet, deref-Succeeds}
use frameworks_connectivity.Bus.Logging.{Quiet-then}

module _ (cfg : Config) (ctx : Option Context) (slot_id event_id : ℤ) (cb : Callback)
    (w : World) where
  pub get_all_calls-Issued :
      Succeeds
        (Issued cfg ctx slot_id (CallRequest.get_all_calls event_id cb) w.pending)
        (Request.get_all_calls cfg ctx slot_id event_id cb w)
  unfolding Request.get_all_calls
  get_all_calls-Issued = non_null-Succeeds _ _ w _ _ λ c given. require-Succeeds _ _ w _ _ λ valid.
      non_null-Succeeds _ _ w _ _ λ proxy found.
        call_with_result-Succeeds _ _ cb proxy _ _ _ _ (λ _ _ _. refl)
          (λ h w'. releasing-Quiet _ w' (release_pending h w')) w
          λ a h w₁ w' p e f.
            issued cfg ctx slot_id (CallRequest.get_all_calls event_id cb) c proxy _ w w' p tt given
              valid found refl e f

  pub separate_call-Issued :
      (call_id : CString)
      → Succeeds
          (Issued cfg ctx slot_id (CallRequest.separate_call event_id call_id cb) w.pending)
          (Request.separate_call cfg ctx slot_id event_id call_id cb w)
  unfolding Request.separate_call
  separate_call-Issued call_id = non_null-Succeeds _ _ w _ _ λ c given.
      require-Succeeds _ _ w _ _ λ valid. non_null-Succeeds _ _ w _ _ λ id named.
        non_null-Succeeds _ _ w _ _ λ proxy found.
          call_with_result-Succeeds _ _ cb proxy _ _ _ _ (λ _ _ _. refl)
            (λ h w'. releasing-Quiet _ w' (release_pending h w')) w
            λ a h w₁ w' p e f.
              issued cfg ctx slot_id (CallRequest.separate_call event_id call_id cb) c proxy
                (handler_free (
                  handler_of
                    (record (fresh_result a) {
                      msg_id = some event_id;
                      arg1 = some slot_id;
                      contents = Payload.text (some id);
                    })
                    cb h))
                w w' p (id, named) given valid found refl e (rw named f)

  pub merge_call-Issued :
      Succeeds
        (Issued cfg ctx slot_id (CallRequest.merge_call event_id cb) w.pending)
        (Request.merge_call cfg ctx slot_id event_id cb w)
  unfolding Request.merge_call
  merge_call-Issued = Quiet-Succeeds _ _ _ w (report-Quiet cfg ctx _ _ _ _ _ w) λ w₀ e₀.
      non_null-Succeeds _ _ w₀ _ _ λ c given. require-Succeeds _ _ w₀ _ _ λ valid.
        non_null-Succeeds _ _ w₀ _ _ λ proxy found.
          call_with_result-Succeeds _ _ cb proxy _ _ _ _ (λ _ _ _. refl)
            (λ h w'.
              Quiet-then _ _ w' (report-Quiet cfg ctx _ _ _ _ _ w')
                λ w''. releasing-Quiet _ w'' (release_pending h w''))
            w₀
            λ a h w₁ w' p e f.
              issued cfg ctx slot_id (CallRequest.merge_call event_id cb) c proxy _ w w' p tt given
                valid found refl (rw (← e₀) e) f

  pub dial-Issued :
      (number : CString) (hide : ℤ)
      → Succeeds
          (Issued cfg ctx slot_id (CallRequest.dial number hide event_id cb) w.pending)
          (Request.dial cfg ctx slot_id number hide event_id cb w)
  unfolding Request.dial
  dial-Issued number hide = Quiet-Succeeds _ _ _ w (report-Quiet cfg ctx _ _ _ _ _ w) λ w₀ e₀.
      non_null-Succeeds _ _ w₀ _ _ λ c given. require-Succeeds _ _ w₀ _ _ λ valid.
        non_null-Succeeds _ _ w₀ _ _ λ proxy found. malloc-Succeeds _ _ w₀ _ λ q w₁ e₁.
          deref-Succeeds _ _ _ w₁ λ n named.
            call_with_param-Succeeds _ _ cb proxy _ (λ x. call_param_append (some x)) _ _
              (λ _ _ w'. free_pending q w')
              (λ h w'.
                Quiet-then _ _ w' (report-Quiet cfg ctx _ _ _ _ _ w') λ w''.
                  releasing-Quiet _ w'' (release_pending h (free q w'') ∙ free_pending q w''))
              w₁
              (λ a h w₂ w' p e f.
                issued cfg ctx slot_id (CallRequest.dial number hide event_id cb) c proxy
                  (handler_free (
                    handler_of
                      (record (fresh_result a) {
                        msg_id = some event_id;
                        arg1 = some slot_id;
                        contents = Payload.call_param q (truncate max_phone_number_length n) hide;
                      })
                      cb h))
                  w w' p (n, named) given valid found refl (rw (← e₀, ← e₁) e) (rw named f))
              q

  pub start_dtmf-Issued :
      (digit : ℕ)
      → Succeeds
          (Issued cfg ctx slot_id (CallRequest.start_dtmf digit event_id cb) w.pending)
          (Request.start_dtmf cfg ctx slot_id digit event_id cb w)
  unfolding Request.start_dtmf Request.call_play_dtmf
  start_dtmf-Issued digit = non_null-Succeeds _ _ w _ _ λ c given.
      require-Succeeds _ _ w _ _ λ valid. require-Succeeds _ _ w _ _ λ a_digit.
        non_null-Succeeds _ _ w _ _ λ proxy found. malloc-Succeeds _ _ w _ λ q w₁ e₁.
          call_with_param-Succeeds _ _ cb proxy _ (λ x. dtmf_param_append (some x)) _ _
            (λ _ _ w'. free_pending q w')
            (λ h w'. releasing-Quiet _ w' (release_pending h (free q w') ∙ free_pending q w')) w₁
            (λ a h w₂ w' p e f.
              issued cfg ctx slot_id (CallRequest.start_dtmf digit event_id cb) c proxy _ w w' p
                (ground arith) given valid found refl (rw (← e₁) e) f)
            q

  pub stop_dtmf-Issued :
      Succeeds
        (Issued cfg ctx slot_id (CallRequest.stop_dtmf event_id cb) w.pending)
        (Request.stop_dtmf cfg ctx slot_id event_id cb w)
  unfolding Request.stop_dtmf Request.call_play_dtmf
  stop_dtmf-Issued = non_null-Succeeds _ _ w _ _ λ c given. require-Succeeds _ _ w _ _ λ valid.
      require-Succeeds _ _ w _ _ λ _. non_null-Succeeds _ _ w _ _ λ proxy found.
        malloc-Succeeds _ _ w _ λ q w₁ e₁.
          call_with_param-Succeeds _ _ cb proxy _ (λ x. dtmf_param_append (some x)) _ _
            (λ _ _ w'. free_pending q w')
            (λ h w'. releasing-Quiet _ w' (release_pending h (free q w') ∙ free_pending q w')) w₁
            (λ a h w₂ w' p e f.
              issued cfg ctx slot_id (CallRequest.stop_dtmf event_id cb) c proxy _ w w' p tt given
                valid found refl (rw (← e₁) e) f)
            q
