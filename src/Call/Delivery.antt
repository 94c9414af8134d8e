-- ===== src/Call/Delivery.antt =====
-- When a call request succeeds.
use frameworks_connectivity.Common.{
  ℕ, suc, ℤ, String, CString, Bool, true, false, is_eq, not, ◌&&◌, ◌≡◌, refl, List, ◌∷◌, none, some,
  if◌then◌else◌, arith,
}
use frameworks_connectivity.Utils.Modem.{Config, is_valid_slotid}
use frameworks_connectivity.Records.{Code, ret, fail, Callback, Context, ProxyType}
use frameworks_connectivity.Bus.Monad.{
  World, Step, go, stop, crash, M, ◌>>=◌, CallType, Direction, Media, Scenario, Report,
}
use frameworks_connectivity.Bus.Delivers.{
  IsWilling, Delivers, Steady, free-IsWilling, non_null-Delivers, require-Delivers, malloc-Delivers,
  Steady-Delivers, call-Delivers, call_with_result-Delivers, call_with_param-Delivers,
}
use frameworks_connectivity.Bus.Logging.{report_over_miwear}
use frameworks_connectivity.Call.Params.{report_data_logging_for_call}
use frameworks_connectivity.Utils.Modem.{slot_index}
use frameworks_connectivity.Call.Request.{deref, is_valid_dtmf_char}
use frameworks_connectivity.Call.Request
use frameworks_connectivity.Call.Control
use frameworks_connectivity.Call.Sent.{CallRequest, send}
use frameworks_connectivity.Call.Protocol.{Allowed}

Steady-if : (b : Bool) (x y : Step (Unit {0})) → Steady x → Steady y → Steady (if b then x else y)
Steady-if true x y h k = h
Steady-if false x y h k = k

report_over_miwear-Steady :
    (cb : Callback) (line : Report) (w : World)
    → IsWilling w
    → Steady (report_over_miwear cb line w)
unfolding report_over_miwear
report_over_miwear-Steady none line w h = h
report_over_miwear-Steady (some cb) line w h =
    Steady-if (w.mallocs w.next) _ _
      (free-IsWilling w.next
        (record w { next = suc w.next; live = w.next ∷ w.live; reports = line ∷ w.reports })
        (record { mallocs = h.mallocs; outcomes = h.outcomes }))
      (record { mallocs = h.mallocs; outcomes = h.outcomes })

deref-Delivers :
    (s : CString) (f : String → M Code) (w : World) (n : String)
    → s ≡ some n
    → Delivers (f n w)
    → Delivers ((deref s >>= f) w)
unfolding ◌>>=◌ deref
deref-Delivers s f w n e k = rw (e, deref) k

freeing-Delivers :
    (p : ℕ) (m : M Code) (w : World) → Delivers (m w) → Delivers (Control.freeing p m w)
unfolding Control.freeing
freeing-Delivers p m w h = after (m w) h
  where
    after : (s : Step Code) → Delivers s → Delivers (Control.free_if_failed p s)
    after (go c w') e = absurd e
    after (stop (ret n) w') e = tt
    after (stop (fail x) w') e = absurd e
    after crash e = absurd e

module _ (cfg : Config) (c : Context) (slot_id : ℤ) (proxy : ℕ)
    (valid : is_valid_slotid cfg slot_id ≡ true)
    (found : c.dbus_proxy (slot_index slot_id) ProxyType.call ≡ some proxy) where
  report-Steady :
      (type : CallType) (direction : Direction) (media : Media) (scenario : Scenario)
      (reason : String) (w : World)
      → IsWilling w
      → Steady (report_data_logging_for_call cfg (some c) type direction media scenario reason w)
  unfolding report_data_logging_for_call
  report-Steady type direction media scenario reason w h =
      Steady-if cfg.log_over_miwear _ _ (report_over_miwear-Steady c.logging_over_miwear_cb _ w h)
        (record { mallocs = h.mallocs; outcomes = h.outcomes })

  manage-Delivers :
      (member : String) (w : World)
      → IsWilling w
      → Delivers (Control.manage_call_proxy_method cfg (some c) slot_id member w)
  unfolding Control.manage_call_proxy_method
  manage-Delivers member w h = non_null-Delivers _ w _ _ c refl (
      require-Delivers _ w _ _ valid
        (non_null-Delivers _ w _ _ proxy found (call-Delivers proxy member _ _ _ _ w h)))

  play_dtmf-Delivers :
      (digit : ℕ) (flag event : ℤ) (cb : Callback) (w : World)
      → IsWilling w
      → not (is_eq flag Request.start_play_dtmf && not (is_valid_dtmf_char digit)) ≡ true
      → Delivers (Request.call_play_dtmf cfg (some c) slot_id digit flag event cb w)
  unfolding Request.call_play_dtmf
  play_dtmf-Delivers digit flag event cb w h a = non_null-Delivers _ w _ _ c refl (
      require-Delivers _ w _ _ valid (
        require-Delivers _ w _ _ a (
          non_null-Delivers _ w _ _ proxy found (
            malloc-Delivers _ w _ h
              λ p w₁ h₁. call_with_param-Delivers _ cb proxy _ _ _ _ w₁ h₁ p))))

  conference-Delivers :
      (member : String) (people : List CString) (size : ℤ) (w : World)
      → IsWilling w
      → Control.is_conference_size size ≡ true
      → Delivers (Control.conference cfg (some c) slot_id member people size w)
  unfolding Control.conference
  conference-Delivers member people size w h a = malloc-Delivers _ w _ h λ p w₁ h₁.
      freeing-Delivers p _ w₁ (
        non_null-Delivers _ w₁ _ _ c refl (
          require-Delivers _ w₁ _ _ valid (
            require-Delivers _ w₁ _ _ a
              (non_null-Delivers _ w₁ _ _ proxy found (call-Delivers proxy member _ _ _ _ w₁ h₁)))))

  -- A call request returns a result that is no error, and so neither crashes nor fails, where the
  -- slot is valid and has a call proxy, the arguments are such as the code accepts, the allocator
  -- gives each block that is asked for and gdbus sends each call.
  pub send-Delivers :
      (r : CallRequest) (w : World)
      → Allowed r
      → IsWilling w
      → Delivers (send cfg (some c) slot_id r w)
  unfolding send Request.dial Request.start_dtmf Request.stop_dtmf Request.get_all_calls
      Request.merge_call Request.separate_call Control.release_and_swap Control.release_and_answer
      Control.hold_and_answer Control.hold_call Control.unhold_call Control.transfer
      Control.hangup_all_calls Control.hangup_multiparty Control.send_tones Control.answer_by_id
      Control.hangup_by_id Control.deflect_by_id Control.dial_conference Control.invite_participants
  send-Delivers (CallRequest.dial number hide event cb) w a h =
      Steady-Delivers _ _ w (report-Steady _ _ _ _ _ w h) λ w₀ h₀.
        non_null-Delivers _ w₀ _ _ c refl (
          require-Delivers _ w₀ _ _ valid (
            non_null-Delivers _ w₀ _ _ proxy found (
              malloc-Delivers _ w₀ _ h₀ λ p w₁ h₁.
                deref-Delivers number _ w₁ a.0 a.1
                  (call_with_param-Delivers _ cb proxy _ _ _ _ w₁ h₁ p))))
  send-Delivers (CallRequest.start_dtmf digit event cb) w a h =
      play_dtmf-Delivers digit Request.start_play_dtmf event cb w h (ground arith)
  send-Delivers (CallRequest.stop_dtmf event cb) w a h =
      play_dtmf-Delivers 0 Request.stop_play_dtmf event cb w h refl
  send-Delivers (CallRequest.get_all_calls event cb) w a h = non_null-Delivers _ w _ _ c refl (
      require-Delivers _ w _ _ valid
        (non_null-Delivers _ w _ _ proxy found (call_with_result-Delivers _ cb proxy _ _ _ _ w h)))
  send-Delivers (CallRequest.merge_call event cb) w a h =
      Steady-Delivers _ _ w (report-Steady _ _ _ _ _ w h) λ w₀ h₀.
        non_null-Delivers _ w₀ _ _ c refl (
          require-Delivers _ w₀ _ _ valid (
            non_null-Delivers _ w₀ _ _ proxy found
              (call_with_result-Delivers _ cb proxy _ _ _ _ w₀ h₀)))
  send-Delivers (CallRequest.separate_call event id cb) w a h = non_null-Delivers _ w _ _ c refl (
      require-Delivers _ w _ _ valid (
        non_null-Delivers _ w _ _ a.0 a.1 (
          non_null-Delivers _ w _ _ proxy found
            (call_with_result-Delivers _ cb proxy _ _ _ _ w h))))
  send-Delivers CallRequest.release_and_swap w a h = manage-Delivers "ReleaseAndSwap" w h
  send-Delivers CallRequest.release_and_answer w a h =
      Steady-Delivers _ _ w (report-Steady _ _ _ _ _ w h) (manage-Delivers "ReleaseAndAnswer")
  send-Delivers CallRequest.hold_and_answer w a h =
      Steady-Delivers _ _ w (report-Steady _ _ _ _ _ w h) (manage-Delivers "HoldAndAnswer")
  send-Delivers CallRequest.hold_call w a h = manage-Delivers "SwapCalls" w h
  send-Delivers CallRequest.unhold_call w a h = manage-Delivers "SwapCalls" w h
  send-Delivers CallRequest.transfer w a h = manage-Delivers "Transfer" w h
  send-Delivers CallRequest.hangup_all_calls w a h =
      Steady-Delivers _ _ w (report-Steady _ _ _ _ _ w h) (manage-Delivers "HangupAll")
  send-Delivers CallRequest.hangup_multiparty w a h = manage-Delivers "HangupMultiparty" w h
  send-Delivers (CallRequest.send_tones tones) w a h = non_null-Delivers _ w _ _ c refl (
      require-Delivers _ w _ _ valid
        (non_null-Delivers _ w _ _ proxy found (call-Delivers proxy _ _ _ _ _ w h)))
  send-Delivers (CallRequest.answer_by_id id) w a h =
      Steady-Delivers _ _ w (report-Steady _ _ _ _ _ w h) λ w₀ h₀.
        non_null-Delivers _ w₀ _ _ c refl (
          require-Delivers _ w₀ _ _ valid (
            non_null-Delivers _ w₀ _ _ a.0 a.1
              (non_null-Delivers _ w₀ _ _ proxy found (call-Delivers proxy _ _ _ _ _ w₀ h₀))))
  send-Delivers (CallRequest.hangup_by_id id) w a h = non_null-Delivers _ w _ _ c refl (
      require-Delivers _ w _ _ valid (
        non_null-Delivers _ w _ _ a.0 a.1
          (non_null-Delivers _ w _ _ proxy found (call-Delivers proxy _ _ _ _ _ w h))))
  send-Delivers (CallRequest.deflect_by_id id number) w a h = non_null-Delivers _ w _ _ c refl (
      require-Delivers _ w _ _ valid (
        non_null-Delivers _ w _ _ a.0.0 a.0.1 (
          non_null-Delivers _ w _ _ a.1.0 a.1.1 (
            non_null-Delivers _ w _ _ proxy found
              (malloc-Delivers _ w _ h λ p w₁ h₁. call-Delivers proxy _ _ _ _ _ w₁ h₁)))))
  send-Delivers (CallRequest.dial_conference people size) w a h =
      Steady-Delivers _ _ w (report-Steady _ _ _ _ _ w h)
        λ w₀ h₀. conference-Delivers "DialConference" people size w₀ h₀ a
  send-Delivers (CallRequest.invite_participants people size) w a h =
      conference-Delivers "InviteParticipants" people size w h a
