-- ===== src/Manager/Abnormal.antt =====
-- tapi_manager.c: the request that switches the reports of abnormal events.
use frameworks_connectivity.Common.{true, Bool, ℤ, pos, [], ◌∷◌, Option, some, if◌then◌else◌}
use frameworks_connectivity.Utils.Modem.{Config}
use frameworks_connectivity.Records.{Code, Payload, Handler, Callback, ProxyType, Context}
use frameworks_connectivity.Bus.Monad.{
  M, free, fresh_result, Setup, int_arg, manager_reply, enable_modem_abnormal_event_done,
}
use frameworks_connectivity.Bus.Request.{call_with_data}
use frameworks_connectivity.Bus.Guards.{with_proxy}
use frameworks_connectivity.Call.Params.{handler_contents}

abbrev abnormal_event_args : Payload → Setup
abnormal_event_args (Payload.abnormal_event p enable module_mask from_event_id to_event_id) w = (
  int_arg (if enable then pos 1 else pos 0)
      ∷ int_arg module_mask
      ∷ int_arg from_event_id
      ∷ int_arg to_event_id
      ∷ [],
  free p w,
)
abnormal_event_args _ w = ([], w)

-- `enable_modem_abnormal_event_param_append`, which frees its parameter.
abbrev pub abnormal_event_append : Option Handler → Setup
abnormal_event_append h w = abnormal_event_args (handler_contents h) w

-- `tapi_enable_modem_abnormal_event`
unfoldable pub enable_modem_abnormal_event :
    Config → Option Context → ℤ → Bool → ℤ → ℤ → ℤ → ℤ → Callback → M Code
enable_modem_abnormal_event cfg ctx slot_id enable event_id module_mask from_event_id to_event_id
      p_handle =
    with_proxy cfg ctx slot_id true ProxyType.modem λ proxy.
      call_with_data
        (λ a d. record (fresh_result a) {
          msg_id = some event_id;
          arg1 = some slot_id;
          contents = Payload.abnormal_event d enable module_mask from_event_id to_event_id;
        })
        p_handle proxy "EnableModemAbnormalEvent" (λ handler. abnormal_event_append (some handler))
        (manager_reply enable_modem_abnormal_event_done)
