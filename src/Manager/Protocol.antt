-- ===== src/Manager/Protocol.antt =====
-- What each request about modems puts on the bus, as a table, and that the requests keep to it.
use frameworks_connectivity.Common.{
  ℕ, ℤ, CString, Bool, true, refl, List, [], ◌∷◌, ◌&&◌, Option, none, some, if◌then◌else◌, pos,
}
use frameworks_connectivity.Utils.Modem.{Config}
use frameworks_connectivity.Utils.Network.{PrefNetMode, network_mode_to_string}
use frameworks_connectivity.Records.{Code, Callback, ProxyType, Context}
use frameworks_connectivity.Bus.Monad.{
  World, M, string_arg, int_arg, bool_arg, bytes_arg, array_arg, written, no_operate_callback,
  property_set_done, manager_reply, modem_activity_info_query_done, enable_or_disable_modem_done,
  enable_modem_abnormal_event_done, modem_status_query_done, oem_ril_request_raw_cb,
  oem_ril_request_strings_cb,
}
use frameworks_connectivity.Bus.Frees.{free_pending}
use frameworks_connectivity.Bus.Issued.{Succeeds}
use frameworks_connectivity.Bus.Wire.{Wire, answered, unanswered, Row, Sent}
use frameworks_connectivity.Bus.Guards.{with_proxy, with_ready_proxy}
use frameworks_connectivity.Bus.SentRules.{IsGuard, with_proxy-IsGuard, with_ready_proxy-IsGuard}
use frameworks_connectivity.Bus.WholeRules.{handler-Sent, data-Sent, write-Sent, plain_write-Sent}
use frameworks_connectivity.Manager.Requests
use frameworks_connectivity.Manager.Requests.{is_given, is_positive, entries}
use frameworks_connectivity.Manager.Abnormal.{enable_modem_abnormal_event}

-- The requests of a slot that tapi_manager.c makes.
pub data ManagerRequest : Type 0 where
  set_pref_net_mode : ℤ → PrefNetMode → Callback → ManagerRequest
  send_modem_power : Bool → ManagerRequest
  set_radio_power set_fast_dormancy enable_modem : ℤ → Bool → Callback → ManagerRequest
  get_modem_activity_info get_modem_status : ℤ → Callback → ManagerRequest
  oem_raw : ℤ → Option (List ℕ) → ℤ → Callback → ManagerRequest
  oem_strings : ℤ → Option (List CString) → ℤ → Callback → ManagerRequest
  abnormal_event : Bool → ℤ → ℤ → ℤ → ℤ → Callback → ManagerRequest
  handle_command : ℤ → ℤ → ManagerRequest

abbrev on_modem : Wire → Row
on_modem wire = record { type = ProxyType.modem; accepts = true; wire = wire }

abbrev on_radio : Wire → Row
on_radio wire = record { type = ProxyType.radio; accepts = true; wire = wire }

abbrev pub row : ℤ → ManagerRequest → Row
row slot_id (ManagerRequest.set_pref_net_mode event mode cb) = on_radio (
    answered "TechnologyPreference" (written (string_arg (some (network_mode_to_string mode))) ∷ [])
      property_set_done event slot_id cb)
row slot_id (ManagerRequest.send_modem_power state) =
    on_modem (unanswered "Powered" (written (bool_arg state) ∷ []))
row slot_id (ManagerRequest.set_radio_power event state cb) =
    on_modem (answered "Online" (written (bool_arg state) ∷ []) property_set_done event slot_id cb)
row slot_id (ManagerRequest.set_fast_dormancy event state cb) =
    on_radio
      (answered "FastDormancy" (written (bool_arg state) ∷ []) property_set_done event slot_id cb)
row slot_id (ManagerRequest.enable_modem event enable cb) = on_modem (
    answered (if enable then "EnableModem" else "DisableModem") []
      (manager_reply enable_or_disable_modem_done) event slot_id cb)
row slot_id (ManagerRequest.get_modem_activity_info event cb) = on_modem (
    answered "GetModemActivityInfo" [] (manager_reply modem_activity_info_query_done) event slot_id
      cb)
row slot_id (ManagerRequest.get_modem_status event cb) =
    on_modem (answered "GetModemStatus" [] (manager_reply modem_status_query_done) event slot_id cb)
row slot_id (ManagerRequest.oem_raw event oem_req length cb) = record {
  type = ProxyType.modem;
  accepts = is_given oem_req && is_positive length;
  wire =
      answered "OemRequestRaw" (bytes_arg (entries oem_req length) ∷ [])
        (manager_reply oem_ril_request_raw_cb) event slot_id cb;
}
row slot_id (ManagerRequest.oem_strings event oem_req length cb) = record {
  type = ProxyType.modem;
  accepts = is_given oem_req && is_positive length;
  wire =
      answered "OemRequestStrings" (array_arg (entries oem_req length) ∷ [])
        (manager_reply oem_ril_request_strings_cb) event slot_id cb;
}
row slot_id (ManagerRequest.abnormal_event enable event mask from to cb) = on_modem (
    answered "EnableModemAbnormalEvent"
      (int_arg (if enable then pos 1 else pos 0) ∷ int_arg mask ∷ int_arg from ∷ int_arg to ∷ [])
      (manager_reply enable_modem_abnormal_event_done) event slot_id cb)
row slot_id (ManagerRequest.handle_command atom command) = on_modem (record {
  member = "HandleCommand";
  args = int_arg atom ∷ int_arg command ∷ [];
  reply = no_operate_callback;
  client = some (none, some atom, none);
})

module _ (cfg : Config) (ctx : Option Context) (slot_id : ℤ) where
  unfoldable pub send : ManagerRequest → M Code
  send (ManagerRequest.set_pref_net_mode event mode cb) =
      Requests.set_pref_net_mode cfg ctx slot_id event mode cb
  send (ManagerRequest.send_modem_power state) = Requests.send_modem_power cfg ctx slot_id state
  send (ManagerRequest.set_radio_power event state cb) =
      Requests.set_radio_power cfg ctx slot_id event state cb
  send (ManagerRequest.set_fast_dormancy event state cb) =
      Requests.set_fast_dormancy cfg ctx slot_id event state cb
  send (ManagerRequest.enable_modem event enable cb) =
      Requests.enable_modem cfg ctx slot_id event enable cb
  send (ManagerRequest.get_modem_activity_info event cb) =
      Requests.get_modem_activity_info cfg ctx slot_id event cb
  send (ManagerRequest.get_modem_status event cb) =
      Requests.get_modem_status cfg ctx slot_id event cb
  send (ManagerRequest.oem_raw event oem_req length cb) =
      Requests.invoke_oem_ril_request_raw cfg ctx slot_id event oem_req length cb
  send (ManagerRequest.oem_strings event oem_req length cb) =
      Requests.invoke_oem_ril_request_strings cfg ctx slot_id event oem_req length cb
  send (ManagerRequest.abnormal_event enable event mask from to cb) =
      enable_modem_abnormal_event cfg ctx slot_id enable event mask from to cb
  send (ManagerRequest.handle_command atom command) =
      Requests.handle_command cfg ctx slot_id atom command

  ready : IsGuard cfg ctx slot_id (with_ready_proxy cfg ctx slot_id)
  ready = with_ready_proxy-IsGuard cfg ctx slot_id

  any : IsGuard cfg ctx slot_id (with_proxy cfg ctx slot_id)
  any = with_proxy-IsGuard cfg ctx slot_id

  pub manager-Sent :
      (r : ManagerRequest) (w : World)
      → Succeeds (Sent cfg ctx slot_id (row slot_id r) w.pending) (send r w)
  unfolding send Requests.set_pref_net_mode Requests.send_modem_power Requests.set_radio_power
      Requests.set_fast_dormancy Requests.enable_modem Requests.get_modem_activity_info
      Requests.get_modem_status Requests.invoke_oem_ril_request_raw
      Requests.invoke_oem_ril_request_strings Requests.handle_command enable_modem_abnormal_event
  manager-Sent (ManagerRequest.set_pref_net_mode event mode cb) w =
      write-Sent cfg ctx slot_id _ ready _ w _ cb _ refl refl λ a h. refl
  manager-Sent (ManagerRequest.send_modem_power state) w =
      plain_write-Sent cfg ctx slot_id _ ready _ w _ refl refl refl
  manager-Sent (ManagerRequest.set_radio_power event state cb) w =
      write-Sent cfg ctx slot_id _ ready _ w _ cb _ refl refl λ a h. refl
  manager-Sent (ManagerRequest.set_fast_dormancy event state cb) w =
      write-Sent cfg ctx slot_id _ ready _ w _ cb _ refl refl λ a h. refl
  manager-Sent (ManagerRequest.enable_modem event enable cb) w =
      handler-Sent cfg ctx slot_id _ any _ w _ _ cb (λ h w'. refl) (λ a h w'. refl) λ a h. refl
  manager-Sent (ManagerRequest.get_modem_activity_info event cb) w =
      handler-Sent cfg ctx slot_id _ any _ w _ _ cb (λ h w'. refl) (λ a h w'. refl) λ a h. refl
  manager-Sent (ManagerRequest.get_modem_status event cb) w =
      handler-Sent cfg ctx slot_id _ any _ w _ _ cb (λ h w'. refl) (λ a h w'. refl) λ a h. refl
  manager-Sent (ManagerRequest.oem_raw event oem_req length cb) w =
      data-Sent cfg ctx slot_id _ any _ w _ _ cb (λ a d h w'. free_pending d w') (λ a d h w'. refl)
        λ a d h. refl
  manager-Sent (ManagerRequest.oem_strings event oem_req length cb) w =
      data-Sent cfg ctx slot_id _ any _ w _ _ cb (λ a d h w'. free_pending d w') (λ a d h w'. refl)
        λ a d h. refl
  manager-Sent (ManagerRequest.abnormal_event enable event mask from to cb) w =
      data-Sent cfg ctx slot_id _ any _ w _ _ cb (λ a d h w'. free_pending d w') (λ a d h w'. refl)
        λ a d h. refl
  manager-Sent (ManagerRequest.handle_command atom command) w =
      handler-Sent cfg ctx slot_id _ any _ w _ _ none (λ h w'. refl) (λ a h w'. refl) λ a h. refl
