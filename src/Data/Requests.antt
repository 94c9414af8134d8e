-- ===== src/Data/Requests.antt =====
-- tapi_data.c: the requests about the data connection.
use frameworks_connectivity.Common.{ℤ, CString, Bool, true, [], ◌∷◌, Option, none, some}
use frameworks_connectivity.Utils.Modem.{Config}
use frameworks_connectivity.Records.{Code, Callback, ProxyType, Context}
use frameworks_connectivity.Bus.Monad.{M, crash, Setup, string_arg, bool_arg}
use frameworks_connectivity.Bus.Request.{
  call_without_handler, write_with_handler, write_without_handler,
}
use frameworks_connectivity.Bus.Guards.{with_proxy, with_ready_proxy}
use frameworks_connectivity.Manager.Requests.{is_given, result_for}

-- `network_operation_append`
abbrev pub network_append : CString → Setup
network_append type w = (string_arg type ∷ [], w)

module _ (cfg : Config) (ctx : Option Context) (slot_id : ℤ) where
  unfoldable pub request_network : CString → M Code
  request_network type =
      with_proxy cfg ctx slot_id (is_given type) ProxyType.data_proxy
        λ proxy. call_without_handler proxy "RequestNetwork" (network_append type)

  unfoldable pub release_network : CString → M Code
  release_network type =
      with_proxy cfg ctx slot_id (is_given type) ProxyType.data_proxy
        λ proxy. call_without_handler proxy "ReleaseNetwork" (network_append type)

  -- The identifier of the data context; a null context is only logged, and then used.
  unfoldable pub set_preferred_apn : Option CString → M Code
  set_preferred_apn apn = with_ready_proxy cfg ctx slot_id true ProxyType.data_proxy λ proxy.
      elim apn [
        | none ↦ λ _. crash
        | some path ↦ write_without_handler proxy "PreferredApn" (string_arg path)
      ]

  unfoldable pub set_data_allow : ℤ → Bool → Callback → M Code
  set_data_allow event_id allowed p_handle =
      with_ready_proxy cfg ctx slot_id true ProxyType.data_proxy λ proxy.
        write_with_handler (result_for event_id slot_id) p_handle proxy "DataAllowed"
          (bool_arg allowed)
