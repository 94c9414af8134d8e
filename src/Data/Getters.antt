-- ===== src/Data/Getters.antt =====
-- tapi_data.c: the functions that read a property of the data connection.
use frameworks_connectivity.Common.{String, Bool, true, ℤ, Option, none, some, if◌then◌else◌}
use frameworks_connectivity.Utils.Modem.{Config, get_slot_id}
use frameworks_connectivity.Utils.Network.{roaming, NetworkType, network_type_from_ril_tech}
use frameworks_connectivity.Records.{einval, eio, eagain, ProxyType, Context}
use frameworks_connectivity.Bus.Property.{
  Properties, Answer, refuse, read_property, of_proxy, text_of, map_int, map_text, is_nonzero,
}
use frameworks_connectivity.Network.Getters.{is_state, is_registered_code, is_emergency_code}

module _ (cfg : Config) (props : Properties) (ctx : Option Context) where
  module _ (slot_id : ℤ) where
    unfoldable pub is_registered : Answer Bool
    is_registered =
        read_property cfg props ctx slot_id true ProxyType.data_proxy "Status" einval
          (map_int is_registered_code)

    unfoldable pub is_data_emergency_only : Answer Bool
    is_data_emergency_only =
        read_property cfg props ctx slot_id true ProxyType.data_proxy "Status" einval
          (map_int is_emergency_code)

    unfoldable pub get_network_type : Answer NetworkType
    get_network_type =
        read_property cfg props ctx slot_id true ProxyType.data_proxy "Technology" einval
          (map_int network_type_from_ril_tech)

    unfoldable pub is_data_roaming : Answer Bool
    is_data_roaming =
        read_property cfg props ctx slot_id true ProxyType.data_proxy "Status" einval
          (map_int (is_state roaming))

    unfoldable pub get_preferred_apn : Answer String
    get_preferred_apn =
        read_property cfg props ctx slot_id true ProxyType.data_proxy "PreferredApn" einval text_of

  -- Of the slot 0, which every configuration has.
  abbrev of_default_slot : String → Answer Bool
  of_default_slot name = elim ctx [
    | none ↦ refuse einval
    | some c ↦
        if c.client_ready
        then of_proxy cfg props (c.dbus_proxy 0 ProxyType.data_proxy) name einval
            (map_int is_nonzero)
        else refuse eagain
  ]

  unfoldable pub get_enabled : Answer Bool
  get_enabled = of_default_slot "DataOn"

  unfoldable pub get_roaming_enabled : Answer Bool
  get_roaming_enabled = of_default_slot "RoamingAllowed"

  -- A context that is null is used.
  unfoldable pub get_default_slot : Answer ℤ
  get_default_slot = elim ctx [
    | none ↦ none
    | some c ↦ elim c.dbus_proxy_manager [
      | none ↦ refuse eio
      | some proxy ↦
          if c.client_ready
          then of_proxy cfg props (some proxy) "DataSlot" einval (map_text (get_slot_id cfg))
          else refuse eagain
    ]
  ]
