-- ===== src/Manager/Requests.antt =====
-- tapi_manager.c: the requests about modems.
use frameworks_connectivity.Common.{
  ℕ, suc, CString, Bool, true, false, ℤ, pos, ◌&&◌, List, [], ◌∷◌, take, Option, none, some,
  if◌then◌else◌,
}
use frameworks_connectivity.Utils.Modem.{Config, is_valid_slotid, slot_index}
use frameworks_connectivity.Utils.Network.{PrefNetMode, network_mode_to_string}
use frameworks_connectivity.Records.{
  eio, Code, ret, Payload, AsyncResult, Handler, Callback, ProxyType, Context,
}
use frameworks_connectivity.Bus.Monad.{
  M, ◌>>=◌, ◌>>◌, go, crash, non_null, free, fresh_result, Setup, string_arg, int_arg, bool_arg,
  bytes_arg, array_arg, no_operate_callback, manager_reply, modem_list_query_done,
  modem_activity_info_query_done, enable_or_disable_modem_done, modem_status_query_done,
  oem_ril_request_raw_cb, oem_ril_request_strings_cb, method_call, keep, or_fail, releasing,
  returns,
}
use frameworks_connectivity.Bus.Request.{
  call_with_handler, call_with_data, write_with_handler, write_without_handler,
}
use frameworks_connectivity.Bus.Guards.{with_proxy, with_ready_proxy}
use frameworks_connectivity.Call.Params.{handler_contents}

-- A context that is used with no check of the pointer.
unfoldable pub deref_context : Option Context → M Context
deref_context none w = crash
deref_context (some c) w = go c w

-- An array that is read at an index which may be out of bounds.
unfoldable pub in_bounds : Bool → M (Unit {0})
in_bounds false w = crash
in_bounds true w = go tt w

abbrev pub is_positive : ℤ → Bool
is_positive (pos (suc n)) = true
is_positive _ = false

abbrev pub is_given : {A : Type 0} → Option A → Bool
is_given none = false
is_given (some a) = true

-- The first `length` entries of the array of a caller, who has to give as many.
abbrev pub entries : {A : Type 0} → Option (List A) → ℤ → List A
entries none length = []
entries (some l) length = take (slot_index length) l

abbrev oem_args : Payload → Setup
oem_args (Payload.oem_bytes p l) w = (bytes_arg l ∷ [], free p w)
oem_args (Payload.oem_strings p l) w = (array_arg l ∷ [], free p w)
oem_args _ w = ([], w)

-- `oem_ril_request_raw_param_append` and `oem_ril_request_strings_param_append`, which free their
-- parameter.
abbrev pub oem_append : Option Handler → Setup
oem_append h w = oem_args (handler_contents h) w

abbrev pub int_or_none : Option ℤ → ℤ
int_or_none none = pos 0
int_or_none (some n) = n

-- `atom_command_param_append`
abbrev pub atom_command_append : Handler → Setup
atom_command_append h w = (
  elim h.result [
    | none ↦ []
    | some ar ↦ int_arg (int_or_none ar.arg1) ∷ int_arg (int_or_none ar.arg2) ∷ []
  ],
  w,
)

-- A result for a request of a slot.
abbrev pub result_for : ℤ → ℤ → ℕ → AsyncResult
result_for event_id slot_id a = record (fresh_result a) {
  msg_id = some event_id;
  arg1 = some slot_id;
}

module _ (cfg : Config) where
  -- The context is not checked.
  unfoldable pub query_modem_list : Option Context → ℤ → Callback → M Code
  query_modem_list ctx event_id p_handle = do
    c ← deref_context ctx
    proxy ← non_null c.dbus_proxy_manager eio
    call_with_handler (λ a. record (fresh_result a) { msg_id = some event_id }) p_handle proxy
        "GetModems" (λ _ w. ([], w)) (manager_reply modem_list_query_done)

  module _ (ctx : Option Context) (slot_id : ℤ) where
    unfoldable pub set_pref_net_mode : ℤ → PrefNetMode → Callback → M Code
    set_pref_net_mode event_id mode p_handle =
        with_ready_proxy cfg ctx slot_id true ProxyType.radio λ proxy.
          write_with_handler
            (λ a. record (result_for event_id slot_id a) {
              contents = Payload.text (some "TechnologyPreference");
            })
            p_handle proxy "TechnologyPreference" (string_arg (some (network_mode_to_string mode)))

    unfoldable pub send_modem_power : Bool → M Code
    send_modem_power state =
        with_ready_proxy cfg ctx slot_id true ProxyType.modem
          λ proxy. write_without_handler proxy "Powered" (bool_arg state)

    unfoldable pub set_radio_power : ℤ → Bool → Callback → M Code
    set_radio_power event_id state p_handle =
        with_ready_proxy cfg ctx slot_id true ProxyType.modem λ proxy.
          write_with_handler (result_for event_id slot_id) p_handle proxy "Online" (bool_arg state)

    unfoldable pub set_fast_dormancy : ℤ → Bool → Callback → M Code
    set_fast_dormancy event_id state p_handle =
        with_ready_proxy cfg ctx slot_id true ProxyType.radio λ proxy.
          write_with_handler (result_for event_id slot_id) p_handle proxy "FastDormancy"
            (bool_arg state)

    unfoldable pub get_modem_activity_info : ℤ → Callback → M Code
    get_modem_activity_info event_id p_handle =
        with_proxy cfg ctx slot_id true ProxyType.modem λ proxy.
          call_with_handler (result_for event_id slot_id) p_handle proxy "GetModemActivityInfo"
            (λ _ w. ([], w)) (manager_reply modem_activity_info_query_done)

    unfoldable pub invoke_oem_ril_request_raw : ℤ → Option (List ℕ) → ℤ → Callback → M Code
    invoke_oem_ril_request_raw event_id oem_req length p_handle =
        with_proxy cfg ctx slot_id (is_given oem_req && is_positive length) ProxyType.modem λ proxy.
          call_with_data
            (λ a d. record (result_for event_id slot_id a) {
              contents = Payload.oem_bytes d (entries oem_req length);
            })
            p_handle proxy "OemRequestRaw" (λ handler. oem_append (some handler))
            (manager_reply oem_ril_request_raw_cb)

    unfoldable pub invoke_oem_ril_request_strings :
        ℤ → Option (List CString) → ℤ → Callback → M Code
    invoke_oem_ril_request_strings event_id oem_req length p_handle =
        with_proxy cfg ctx slot_id (is_given oem_req && is_positive length) ProxyType.modem λ proxy.
          call_with_data
            (λ a d. record (result_for event_id slot_id a) {
              contents = Payload.oem_strings d (entries oem_req length);
            })
            p_handle proxy "OemRequestStrings" (λ handler. oem_append (some handler))
            (manager_reply oem_ril_request_strings_cb)

    unfoldable pub enable_modem : ℤ → Bool → Callback → M Code
    enable_modem event_id enable p_handle = with_proxy cfg ctx slot_id true ProxyType.modem λ proxy.
        call_with_handler (result_for event_id slot_id) p_handle proxy
          (if enable then "EnableModem" else "DisableModem") (λ _ w. ([], w))
          (manager_reply enable_or_disable_modem_done)

    unfoldable pub get_modem_status : ℤ → Callback → M Code
    get_modem_status event_id p_handle = with_proxy cfg ctx slot_id true ProxyType.modem λ proxy.
        call_with_handler (result_for event_id slot_id) p_handle proxy "GetModemStatus"
          (λ _ w. ([], w)) (manager_reply modem_status_query_done)

    -- The callback of the handler is never set.
    unfoldable pub handle_command : ℤ → ℤ → M Code
    handle_command atom command = with_proxy cfg ctx slot_id true ProxyType.modem λ proxy.
        call_with_handler (λ a. record (fresh_result a) { arg1 = some atom; arg2 = some command })
          none proxy "HandleCommand" atom_command_append no_operate_callback

  -- Neither the context nor the slot is checked: a slot that is not there is read out of bounds.
  unfoldable pub trigger_modem_load_ecc_list : Option Context → ℤ → M Code
  trigger_modem_load_ecc_list ctx slot_id = do
    c ← deref_context ctx
    in_bounds (is_valid_slotid cfg slot_id)
    proxy ← non_null (c.dbus_proxy (slot_index slot_id) ProxyType.modem) eio
    done ← method_call proxy "LoadModemEccList" (λ w. ([], w)) no_operate_callback keep
    or_fail done (releasing (λ w. w))
    returns (ret 1)
