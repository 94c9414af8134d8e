-- ===== src/Network/Protocol.antt =====
-- What each request about the network puts on the bus, as a table, and that the requests keep to it.
use frameworks_connectivity.Common.{ℤ, String, true, refl, [], Option}
use frameworks_connectivity.Utils.Modem.{Config}
use frameworks_connectivity.Records.{Code, Callback, ProxyType, Context}
use frameworks_connectivity.Bus.Monad.{
  World, M, NetworkReply, network_reply, network_register_cb, cell_list_request_complete,
  operator_scan_complete,
}
use frameworks_connectivity.Bus.Issued.{Succeeds}
use frameworks_connectivity.Bus.Wire.{answered, Row, Sent}
use frameworks_connectivity.Bus.Guards.{with_proxy}
use frameworks_connectivity.Bus.SentRules.{IsGuard, with_proxy-IsGuard}
use frameworks_connectivity.Bus.WholeRules.{handler-Sent}
use frameworks_connectivity.Network.Requests

-- The requests that tapi_network.c makes.
pub data NetworkRequest : Type 0 where
  select_auto scan get_serving_cellinfos get_neighbouring_cellinfos : NetworkRequest

module _ (slot_id event : ℤ) (cb : Callback) where
  abbrev ask : ProxyType → String → NetworkReply → Row
  ask type member reply = record {
    type = type;
    accepts = true;
    wire = answered member [] (network_reply reply) event slot_id cb;
  }

  abbrev pub row : NetworkRequest → Row
  row NetworkRequest.select_auto = ask ProxyType.netreg "Register" network_register_cb
  row NetworkRequest.scan = ask ProxyType.netreg "Scan" operator_scan_complete
  row NetworkRequest.get_serving_cellinfos =
      ask ProxyType.netmon "GetServingCellInformation" cell_list_request_complete
  row NetworkRequest.get_neighbouring_cellinfos =
      ask ProxyType.netmon "GetNeighbouringCellInformation" cell_list_request_complete

module _ (cfg : Config) (ctx : Option Context) (slot_id event : ℤ) (cb : Callback) where
  unfoldable pub send : NetworkRequest → M Code
  send NetworkRequest.select_auto = Requests.select_auto cfg ctx slot_id event cb
  send NetworkRequest.scan = Requests.scan cfg ctx slot_id event cb
  send NetworkRequest.get_serving_cellinfos =
      Requests.get_serving_cellinfos cfg ctx slot_id event cb
  send NetworkRequest.get_neighbouring_cellinfos =
      Requests.get_neighbouring_cellinfos cfg ctx slot_id event cb

  any : IsGuard cfg ctx slot_id (with_proxy cfg ctx slot_id)
  any = with_proxy-IsGuard cfg ctx slot_id

  pub network-Sent :
      (r : NetworkRequest) (w : World)
      → Succeeds (Sent cfg ctx slot_id (row slot_id event cb r) w.pending) (send r w)
  unfolding send Requests.select_auto Requests.scan Requests.get_serving_cellinfos
      Requests.get_neighbouring_cellinfos
  network-Sent NetworkRequest.select_auto w =
      handler-Sent cfg ctx slot_id _ any _ w _ _ cb (λ h w'. refl) (λ a h w'. refl) λ a h. refl
  network-Sent NetworkRequest.scan w =
      handler-Sent cfg ctx slot_id _ any _ w _ _ cb (λ h w'. refl) (λ a h w'. refl) λ a h. refl
  network-Sent NetworkRequest.get_serving_cellinfos w =
      handler-Sent cfg ctx slot_id _ any _ w _ _ cb (λ h w'. refl) (λ a h w'. refl) λ a h. refl
  network-Sent NetworkRequest.get_neighbouring_cellinfos w =
      handler-Sent cfg ctx slot_id _ any _ w _ _ cb (λ h w'. refl) (λ a h w'. refl) λ a h. refl
