-- ===== src/Call/Request.antt =====
-- tapi_call.c: the requests that wait for a reply (dial, list, merge, separate, tones of the keypad).
use frameworks_connectivity.Common.{
  ℕ, String, CString, Bool, ℤ, pos, ◌==◌, leb, is_eq, not, ◌&&◌, ◌||◌, Option, none, some,
}
use frameworks_connectivity.Utils.Modem.{Config, is_valid_slotid, slot_index}
use frameworks_connectivity.Records.{
  einval, eio, Code, Payload, Callback, ProxyType, Context, max_phone_number_length,
}
use frameworks_connectivity.Bus.Monad.{
  M, ◌>>=◌, ◌>>◌, require, non_null, free, malloc, fresh_result, handler_release, no_setup,
  releasing, go, crash, dial_call_callback, play_dtmf_callback, merge_call_complete,
  call_list_query_complete, CallType, Direction, Media, Scenario,
}
use frameworks_connectivity.Bus.Request.{call_with_result, call_with_param}
use frameworks_connectivity.Call.Params.{
  truncate, call_param_append, dtmf_param_append, separate_param_append,
  report_data_logging_for_call,
}

-- A text that is handed on with no check of the pointer.
unfoldable pub deref : CString → M String
deref none w = crash
deref (some s) w = go s w

abbrev pub start_play_dtmf : ℤ
start_play_dtmf = pos 1

abbrev pub stop_play_dtmf : ℤ
stop_play_dtmf = pos 2

unfoldable pub is_valid_dtmf_char : ℕ → Bool
is_valid_dtmf_char c = leb b'0' c && leb c b'9' || (c == b'*' || c == b'#')

module _ (cfg : Config) where
  unfoldable pub dial : Option Context → ℤ → CString → ℤ → ℤ → Callback → M Code
  dial ctx slot_id number hide_callerid event_id p_handle = do
    report_data_logging_for_call cfg ctx CallType.normal_call Direction.originate Media.voice
        Scenario.normal "NA"
    c ← non_null ctx einval
    require (is_valid_slotid cfg slot_id) einval
    proxy ← non_null (c.dbus_proxy (slot_index slot_id) ProxyType.call) eio
    p ← malloc (λ w. w)
    n ← deref number
    call_with_param
        (λ a. record (fresh_result a) {
          msg_id = some event_id;
          arg1 = some slot_id;
          contents = Payload.call_param p (truncate max_phone_number_length n) hide_callerid;
        })
        p_handle proxy "Dial" (λ handler. call_param_append (some handler)) dial_call_callback
        (λ handler. do
          report_data_logging_for_call cfg ctx CallType.normal_call Direction.originate Media.voice
              Scenario.dial_fail "dbus method call fail"
          releasing (λ w. handler_release (some handler) (free p w)))
        p

  -- `call_play_dtmf`, of which the client sees `start_dtmf` and `stop_dtmf`.
  unfoldable pub call_play_dtmf : Option Context → ℤ → ℕ → ℤ → ℤ → Callback → M Code
  call_play_dtmf ctx slot_id digit flag event_id p_handle = do
    c ← non_null ctx einval
    require (is_valid_slotid cfg slot_id) einval
    require (not (is_eq flag start_play_dtmf && not (is_valid_dtmf_char digit))) einval
    proxy ← non_null (c.dbus_proxy (slot_index slot_id) ProxyType.call) eio
    p ← malloc (λ w. w)
    call_with_param
        (λ a. record (fresh_result a) {
          msg_id = some event_id;
          arg1 = some slot_id;
          contents = Payload.dtmf_param p digit flag;
        })
        p_handle proxy "PlayDtmf" (λ handler. dtmf_param_append (some handler)) play_dtmf_callback
        (λ handler. releasing (λ w. handler_release (some handler) (free p w))) p

  unfoldable pub start_dtmf : Option Context → ℤ → ℕ → ℤ → Callback → M Code
  unfolding call_play_dtmf
  start_dtmf ctx slot_id digit event_id p_handle =
      call_play_dtmf ctx slot_id digit start_play_dtmf event_id p_handle

  unfoldable pub stop_dtmf : Option Context → ℤ → ℤ → Callback → M Code
  unfolding call_play_dtmf
  stop_dtmf ctx slot_id event_id p_handle =
      call_play_dtmf ctx slot_id 0 stop_play_dtmf event_id p_handle

  unfoldable pub get_all_calls : Option Context → ℤ → ℤ → Callback → M Code
  get_all_calls ctx slot_id event_id p_handle = do
    c ← non_null ctx einval
    require (is_valid_slotid cfg slot_id) einval
    proxy ← non_null (c.dbus_proxy (slot_index slot_id) ProxyType.call) eio
    call_with_result (λ a. record (fresh_result a) { msg_id = some event_id; arg1 = some slot_id })
        p_handle proxy "GetCalls" (λ _. no_setup) call_list_query_complete
        (λ handler. releasing (handler_release (some handler)))

  unfoldable pub merge_call : Option Context → ℤ → ℤ → Callback → M Code
  merge_call ctx slot_id event_id p_handle = do
    report_data_logging_for_call cfg ctx CallType.conference_call Direction.originate Media.voice
        Scenario.normal "NA"
    c ← non_null ctx einval
    require (is_valid_slotid cfg slot_id) einval
    proxy ← non_null (c.dbus_proxy (slot_index slot_id) ProxyType.call) eio
    call_with_result (λ a. record (fresh_result a) { msg_id = some event_id; arg1 = some slot_id })
        p_handle proxy "CreateMultiparty" (λ _. no_setup) merge_call_complete
        (λ handler. do
          report_data_logging_for_call cfg ctx CallType.conference_call Direction.originate
              Media.voice Scenario.dial_fail "dbus method call fail"
          releasing (handler_release (some handler)))

  unfoldable pub separate_call : Option Context → ℤ → ℤ → CString → Callback → M Code
  separate_call ctx slot_id event_id call_id p_handle = do
    c ← non_null ctx einval
    require (is_valid_slotid cfg slot_id) einval
    id ← non_null call_id einval
    proxy ← non_null (c.dbus_proxy (slot_index slot_id) ProxyType.call) eio
    call_with_result
        (λ a. record (fresh_result a) {
          msg_id = some event_id;
          arg1 = some slot_id;
          contents = Payload.text (some id);
        })
        p_handle proxy "PrivateChat" (λ handler. separate_param_append (some handler))
        merge_call_complete (λ handler. releasing (handler_release (some handler)))
