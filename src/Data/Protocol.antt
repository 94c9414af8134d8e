-- ===== src/Data/Protocol.antt =====
-- What each request about the data connection puts on the bus, as a table, and that the requests keep
-- to it.
use frameworks_connectivity.Common.{ℤ, CString, Bool, true, refl, [], ◌∷◌, Option, none, some}
use frameworks_connectivity.Utils.Modem.{Config}
use frameworks_connectivity.Records.{Code, Callback, ProxyType, Context}
use frameworks_connectivity.Bus.Monad.{World, M, string_arg, bool_arg, written, property_set_done}
use frameworks_connectivity.Bus.Issued.{Succeeds}
use frameworks_connectivity.Bus.Wire.{answered, unanswered, Row, Sent}
use frameworks_connectivity.Bus.Guards.{with_proxy, with_ready_proxy}
use frameworks_connectivity.Bus.SentRules.{IsGuard, with_proxy-IsGuard, with_ready_proxy-IsGuard}
use frameworks_connectivity.Bus.WholeRules.{plain-Sent, write-Sent, plain_write-Sent}
use frameworks_connectivity.Manager.Requests.{is_given}
use frameworks_connectivity.Data.Requests

-- The requests that tapi_data.c makes of a slot's data connection as a whole.
pub data DataRequest : Type 0 where
  request_network release_network : CString → DataRequest
  set_preferred_apn : Option CString → DataRequest
  set_data_allow : ℤ → Bool → Callback → DataRequest

abbrev pub row : ℤ → DataRequest → Row
row slot_id (DataRequest.request_network type) = record {
  type = ProxyType.data_proxy;
  accepts = is_given type;
  wire = unanswered "RequestNetwork" (string_arg type ∷ []);
}
row slot_id (DataRequest.release_network type) = record {
  type = ProxyType.data_proxy;
  accepts = is_given type;
  wire = unanswered "ReleaseNetwork" (string_arg type ∷ []);
}
row slot_id (DataRequest.set_preferred_apn apn) = record {
  type = ProxyType.data_proxy;
  accepts = true;
  wire =
      unanswered "PreferredApn"
        (elim apn [ none ↦ [] | some path ↦ written (string_arg path) ∷ [] ]);
}
row slot_id (DataRequest.set_data_allow event allowed cb) = record {
  type = ProxyType.data_proxy;
  accepts = true;
  wire =
      answered "DataAllowed" (written (bool_arg allowed) ∷ []) property_set_done event slot_id cb;
}

module _ (cfg : Config) (ctx : Option Context) (slot_id : ℤ) where
  unfoldable pub send : DataRequest → M Code
  send (DataRequest.request_network type) = Requests.request_network cfg ctx slot_id type
  send (DataRequest.release_network type) = Requests.release_network cfg ctx slot_id type
  send (DataRequest.set_preferred_apn apn) = Requests.set_preferred_apn cfg ctx slot_id apn
  send (DataRequest.set_data_allow event allowed cb) =
      Requests.set_data_allow cfg ctx slot_id event allowed cb

  ready : IsGuard cfg ctx slot_id (with_ready_proxy cfg ctx slot_id)
  ready = with_ready_proxy-IsGuard cfg ctx slot_id

  any : IsGuard cfg ctx slot_id (with_proxy cfg ctx slot_id)
  any = with_proxy-IsGuard cfg ctx slot_id

  pub data_request-Sent :
      (r : DataRequest) (w : World)
      → Succeeds (Sent cfg ctx slot_id (row slot_id r) w.pending) (send r w)
  unfolding send Requests.request_network Requests.release_network Requests.set_preferred_apn
      Requests.set_data_allow
  data_request-Sent (DataRequest.request_network type) w =
      plain-Sent cfg ctx slot_id _ any _ w _ (λ w'. refl) (λ w'. refl) refl refl
  data_request-Sent (DataRequest.release_network type) w =
      plain-Sent cfg ctx slot_id _ any _ w _ (λ w'. refl) (λ w'. refl) refl refl
  data_request-Sent (DataRequest.set_preferred_apn none) w =
      ready _ _ _ _ w λ c proxy given valid ok found. tt
  data_request-Sent (DataRequest.set_preferred_apn (some path)) w =
      plain_write-Sent cfg ctx slot_id _ ready _ w _ refl refl refl
  data_request-Sent (DataRequest.set_data_allow event allowed cb) w =
      write-Sent cfg ctx slot_id _ ready _ w _ cb _ refl refl λ a h. refl
