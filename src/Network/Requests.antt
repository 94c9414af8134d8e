-- ===== src/Network/Requests.antt =====
-- tapi_network.c: the requests about the network.
use frameworks_connectivity.Common.{ℤ, true, Option}
use frameworks_connectivity.Utils.Modem.{Config}
use frameworks_connectivity.Records.{Code, Callback, ProxyType, Context}
use frameworks_connectivity.Bus.Monad.{
  M, network_reply, network_register_cb, cell_list_request_complete, operator_scan_complete,
}
use frameworks_connectivity.Bus.Request.{call_with_handler}
use frameworks_connectivity.Bus.Guards.{with_proxy}
use frameworks_connectivity.Manager.Requests.{result_for}
use frameworks_connectivity.Ss.Requests.{no_args}

module _ (cfg : Config) (ctx : Option Context) (slot_id event_id : ℤ) (p_handle : Callback) where
  unfoldable pub select_auto : M Code
  select_auto = with_proxy cfg ctx slot_id true ProxyType.netreg λ proxy.
      call_with_handler (result_for event_id slot_id) p_handle proxy "Register" no_args
        (network_reply network_register_cb)

  unfoldable pub scan : M Code
  scan = with_proxy cfg ctx slot_id true ProxyType.netreg λ proxy.
      call_with_handler (result_for event_id slot_id) p_handle proxy "Scan" no_args
        (network_reply operator_scan_complete)

  unfoldable pub get_serving_cellinfos : M Code
  get_serving_cellinfos = with_proxy cfg ctx slot_id true ProxyType.netmon λ proxy.
      call_with_handler (result_for event_id slot_id) p_handle proxy "GetServingCellInformation"
        no_args (network_reply cell_list_request_complete)

  unfoldable pub get_neighbouring_cellinfos : M Code
  get_neighbouring_cellinfos = with_proxy cfg ctx slot_id true ProxyType.netmon λ proxy.
      call_with_handler (result_for event_id slot_id) p_handle proxy
        "GetNeighbouringCellInformation" no_args (network_reply cell_list_request_complete)
