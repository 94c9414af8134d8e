-- ===== src/Call/Control.antt =====
-- tapi_call.c: the requests whose reply is not looked at (hang up, hold, answer, conferences, tones),
-- and the default slot.
use frameworks_connectivity.Common.{
  ℕ, String, CString, Bool, false, ℤ, pos, negsuc, ltb, leb, is_eq, ◌&&◌, ◌||◌, str_eq, List,
  Option, none, some,
}
use frameworks_connectivity.Utils.Modem.{Config, is_valid_slotid, get_modem_path}
use frameworks_connectivity.Records.{
  einval, eio, eagain, Code, ret, fail, ProxyType, Context, max_ims_conference_calls,
}
use frameworks_connectivity.Bus.Monad.{
  M, ◌>>=◌, ◌>>◌, returns, require, non_null, free, malloc, no_setup, method_call, or_fail,
  releasing, set_property, go, stop, crash, Step, no_operate_callback, keep, free_block, CallType,
  Direction, Media, Scenario,
}
use frameworks_connectivity.Call.Params.{
  answer_hangup_param_append, deflect_param_append, tone_param_append, conference_param_append,
  report_data_logging_for_call, report_data_logging_for_call_if,
}
use frameworks_connectivity.Utils.Modem.{slot_index}

-- `ret = …; if (ret != OK) free(param); return ret;`
abbrev pub free_if_failed : ℕ → Step Code → Step Code
free_if_failed p (stop (fail e) w) = stop (fail e) (free p w)
free_if_failed p (stop (ret n) w) = stop (ret n) w
free_if_failed p (go c w) = go c w
free_if_failed p crash = crash

unfoldable pub freeing : ℕ → M Code → M Code
freeing p m w = free_if_failed p (m w)

-- `param->length <= 0 || param->length > MAX_IMS_CONFERENCE_CALLS`
abbrev pub is_conference_size : ℤ → Bool
is_conference_size (pos n) = ltb 0 n && leb n max_ims_conference_calls
is_conference_size (negsuc n) = false

module _ (cfg : Config) where
  -- `manage_call_proxy_method`, with a member that is not null.
  unfoldable pub manage_call_proxy_method : Option Context → ℤ → String → M Code
  manage_call_proxy_method ctx slot_id member = do
    c ← non_null ctx einval
    require (is_valid_slotid cfg slot_id) einval
    proxy ← non_null (c.dbus_proxy (slot_index slot_id) ProxyType.call) eio
    done ← method_call proxy member no_setup no_operate_callback keep
    or_fail done (do
      report_data_logging_for_call_if cfg (str_eq "HangupAll" member) ctx CallType.type_unknow
          Direction.direction_unknow Media.voice Scenario.hangup_fail "dbus method call fail"
      report_data_logging_for_call_if cfg
          (str_eq "ReleaseAndAnswer" member || str_eq "HoldAndAnswer" member) ctx
          CallType.normal_call Direction.terminate Media.voice Scenario.answer_fail
          "dbus method call fail"
      releasing (λ w. w))
    returns (ret 0)

  unfoldable pub release_and_swap : Option Context → ℤ → M Code
  release_and_swap ctx slot_id = manage_call_proxy_method ctx slot_id "ReleaseAndSwap"

  unfoldable pub release_and_answer : Option Context → ℤ → M Code
  release_and_answer ctx slot_id = do
    report_data_logging_for_call cfg ctx CallType.normal_call Direction.terminate Media.voice
        Scenario.normal "NA:ReleaseAndAnswer"
    manage_call_proxy_method ctx slot_id "ReleaseAndAnswer"

  unfoldable pub hold_and_answer : Option Context → ℤ → M Code
  hold_and_answer ctx slot_id = do
    report_data_logging_for_call cfg ctx CallType.normal_call Direction.terminate Media.voice
        Scenario.normal "NA:HoldAndAnswer"
    manage_call_proxy_method ctx slot_id "HoldAndAnswer"

  unfoldable pub hold_call : Option Context → ℤ → M Code
  hold_call ctx slot_id = manage_call_proxy_method ctx slot_id "SwapCalls"

  unfoldable pub unhold_call : Option Context → ℤ → M Code
  unhold_call ctx slot_id = manage_call_proxy_method ctx slot_id "SwapCalls"

  unfoldable pub transfer : Option Context → ℤ → M Code
  transfer ctx slot_id = manage_call_proxy_method ctx slot_id "Transfer"

  unfoldable pub hangup_all_calls : Option Context → ℤ → M Code
  hangup_all_calls ctx slot_id = do
    report_data_logging_for_call cfg ctx CallType.type_unknow Direction.direction_unknow
        Media.media_unknow Scenario.normal "NA"
    manage_call_proxy_method ctx slot_id "HangupAll"

  unfoldable pub hangup_multiparty : Option Context → ℤ → M Code
  hangup_multiparty ctx slot_id = manage_call_proxy_method ctx slot_id "HangupMultiparty"

  unfoldable pub send_tones : Option Context → ℤ → CString → M Code
  send_tones ctx slot_id tones = do
    c ← non_null ctx einval
    require (is_valid_slotid cfg slot_id) einval
    proxy ← non_null (c.dbus_proxy (slot_index slot_id) ProxyType.call) eio
    done ← method_call proxy "SendTones" (tone_param_append tones) no_operate_callback keep
    or_fail done (releasing (λ w. w))
    returns (ret 0)

  unfoldable pub answer_by_id : Option Context → ℤ → CString → M Code
  answer_by_id ctx slot_id call_id = do
    report_data_logging_for_call cfg ctx CallType.normal_call Direction.terminate Media.voice
        Scenario.normal "NA"
    c ← non_null ctx einval
    require (is_valid_slotid cfg slot_id) einval
    id ← non_null call_id einval
    proxy ← non_null (c.dbus_proxy (slot_index slot_id) ProxyType.call) eio
    done ←
        method_call proxy "Answer" (answer_hangup_param_append (some id)) no_operate_callback keep
    or_fail done (do
      report_data_logging_for_call cfg ctx CallType.normal_call Direction.terminate Media.voice
          Scenario.answer_fail "dbus method call fail"
      releasing (λ w. w))
    returns (ret 0)

  unfoldable pub hangup_by_id : Option Context → ℤ → CString → M Code
  hangup_by_id ctx slot_id call_id = do
    c ← non_null ctx einval
    require (is_valid_slotid cfg slot_id) einval
    id ← non_null call_id einval
    proxy ← non_null (c.dbus_proxy (slot_index slot_id) ProxyType.call) eio
    done ←
        method_call proxy "Hangup" (answer_hangup_param_append (some id)) no_operate_callback keep
    or_fail done (do
      report_data_logging_for_call cfg ctx CallType.type_unknow Direction.direction_unknow
          Media.media_unknow Scenario.hangup_fail "dbus method call fail"
      releasing (λ w. w))
    returns (ret 0)

  unfoldable pub deflect_by_id : Option Context → ℤ → CString → CString → M Code
  deflect_by_id ctx slot_id call_id number = do
    c ← non_null ctx einval
    require (is_valid_slotid cfg slot_id) einval
    id ← non_null call_id einval
    n ← non_null number einval
    proxy ← non_null (c.dbus_proxy (slot_index slot_id) ProxyType.call) eio
    p ← malloc (λ w. w)
    done ←
        method_call proxy "Deflect" (deflect_param_append (some id) (some n)) no_operate_callback
          (free_block p)
    or_fail done (releasing (free p))
    returns (ret 0)

  -- `manager_conference`, with the parameter block that its callers allocate; a caller frees the
  -- block whenever this fails. `participants` has `size` entries where `size` is in range.
  unfoldable pub conference : Option Context → ℤ → String → List CString → ℤ → M Code
  conference ctx slot_id member participants size = do
    p ← malloc (λ w. w)
    freeing p (do
      c ← non_null ctx einval
      require (is_valid_slotid cfg slot_id) einval
      require (is_conference_size size) einval
      proxy ← non_null (c.dbus_proxy (slot_index slot_id) ProxyType.call) eio
      done ←
          method_call proxy member (conference_param_append participants) no_operate_callback
            (free_block p)
      or_fail done (do
        report_data_logging_for_call_if cfg (str_eq "DialConference" member) ctx
            CallType.conference_call Direction.originate Media.voice Scenario.dial_fail
            "dbus method call fail"
        releasing (λ w. w))
      returns (ret 0))

  unfoldable pub dial_conference : Option Context → ℤ → List CString → ℤ → M Code
  dial_conference ctx slot_id participants size = do
    report_data_logging_for_call cfg ctx CallType.conference_call Direction.originate Media.voice
        Scenario.normal "NA"
    conference ctx slot_id "DialConference" participants size

  unfoldable pub invite_participants : Option Context → ℤ → List CString → ℤ → M Code
  invite_participants ctx slot_id participants size =
      conference ctx slot_id "InviteParticipants" participants size

  -- The context is read with no check of the pointer. -1 is written as the text of an unset slot.
  unfoldable pub set_default_slot : Option Context → ℤ → M Code
  set_default_slot none slot_id w = crash
  set_default_slot (some c) slot_id w =
      (do
        proxy ← non_null c.dbus_proxy_manager eio
        require c.client_ready eagain
        require (is_valid_slotid cfg slot_id || is_eq slot_id (negsuc 0)) einval
        done ← set_property proxy "VoiceCallSlot" (get_modem_path cfg slot_id)
        require done einval
        returns (ret 0))
        w
