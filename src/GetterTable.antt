-- ===== src/GetterTable.antt =====
-- The functions of tapi_manager.c, tapi_network.c, tapi_data.c, tapi_ims.c and tapi_sim.c that read a property,
-- as a table: the proxy and the property of each, and what it makes of the value.
use frameworks_connectivity.Common.{String, Bool, true, false, ℤ, Option, some}
use frameworks_connectivity.Utils.Network.{
  PrefNetMode, NetworkType, network_mode_from_string, network_type_from_ril_tech, roaming,
}
use frameworks_connectivity.Records.{ProxyType}
use frameworks_connectivity.Bus.Message.{Value}
use frameworks_connectivity.Bus.Property.{is_nonzero}
use frameworks_connectivity.Bus.Found.{text_value, int_value}
use frameworks_connectivity.Network.Getters.{
  state_code, is_state, is_registered_code, is_emergency_code,
}

pub data Getter : Type 0 where
  get_pref_net_mode get_imei get_imeisv get_modem_manufacturer : Getter
  get_modem_model get_modem_revision get_phone_state get_radio_power : Getter
  get_radio_state get_modem_status_sync is_voice_registered is_voice_emergency_only : Getter
  get_voice_network_type is_voice_roaming get_mcc get_mnc : Getter
  get_display_name is_data_registered is_data_emergency_only get_data_network_type : Getter
  is_data_roaming get_preferred_apn is_ims_registered get_subscriber_uri_number : Getter
  get_ims_enabled is_volte_available has_icc_card get_sim_state : Getter
  get_sim_iccid get_sim_operator_name get_subscriber_id : Getter

-- What the function writes to `out`.
abbrev pub Out : Getter → Type 0
Out Getter.get_pref_net_mode = PrefNetMode
Out Getter.get_imei = String
Out Getter.get_imeisv = String
Out Getter.get_modem_manufacturer = String
Out Getter.get_modem_model = String
Out Getter.get_modem_revision = String
Out Getter.get_phone_state = ℤ
Out Getter.get_radio_power = Bool
Out Getter.get_radio_state = ℤ
Out Getter.get_modem_status_sync = ℤ
Out Getter.is_voice_registered = Bool
Out Getter.is_voice_emergency_only = Bool
Out Getter.get_voice_network_type = NetworkType
Out Getter.is_voice_roaming = Bool
Out Getter.get_mcc = String
Out Getter.get_mnc = String
Out Getter.get_display_name = String
Out Getter.is_data_registered = Bool
Out Getter.is_data_emergency_only = Bool
Out Getter.get_data_network_type = NetworkType
Out Getter.is_data_roaming = Bool
Out Getter.get_preferred_apn = String
Out Getter.is_ims_registered = Bool
Out Getter.get_subscriber_uri_number = String
Out Getter.get_ims_enabled = Bool
Out Getter.is_volte_available = Bool
Out Getter.has_icc_card = Bool
Out Getter.get_sim_state = ℤ
Out Getter.get_sim_iccid = String
Out Getter.get_sim_operator_name = String
Out Getter.get_subscriber_id = String

-- The proxy and the property that each function reads.
abbrev pub row : Getter → ProxyType × String
row Getter.get_pref_net_mode = (ProxyType.radio, "TechnologyPreference")
row Getter.get_imei = (ProxyType.modem, "Serial")
row Getter.get_imeisv = (ProxyType.modem, "SoftwareVersionNumber")
row Getter.get_modem_manufacturer = (ProxyType.modem, "Manufacturer")
row Getter.get_modem_model = (ProxyType.modem, "Model")
row Getter.get_modem_revision = (ProxyType.modem, "Revision")
row Getter.get_phone_state = (ProxyType.call, "PhoneStatus")
row Getter.get_radio_power = (ProxyType.modem, "Online")
row Getter.get_radio_state = (ProxyType.modem, "RadioState")
row Getter.get_modem_status_sync = (ProxyType.modem, "ModemState")
row Getter.is_voice_registered = (ProxyType.netreg, "Status")
row Getter.is_voice_emergency_only = (ProxyType.netreg, "Status")
row Getter.get_voice_network_type = (ProxyType.netreg, "Technology")
row Getter.is_voice_roaming = (ProxyType.netreg, "Status")
row Getter.get_mcc = (ProxyType.netreg, "MobileCountryCode")
row Getter.get_mnc = (ProxyType.netreg, "MobileNetworkCode")
row Getter.get_display_name = (ProxyType.netreg, "Name")
row Getter.is_data_registered = (ProxyType.data_proxy, "Status")
row Getter.is_data_emergency_only = (ProxyType.data_proxy, "Status")
row Getter.get_data_network_type = (ProxyType.data_proxy, "Technology")
row Getter.is_data_roaming = (ProxyType.data_proxy, "Status")
row Getter.get_preferred_apn = (ProxyType.data_proxy, "PreferredApn")
row Getter.is_ims_registered = (ProxyType.ims, "Registered")
row Getter.get_subscriber_uri_number = (ProxyType.ims, "SubscriberUriNumber")
row Getter.get_ims_enabled = (ProxyType.ims, "ImsSwitchStatus")
row Getter.is_volte_available = (ProxyType.ims, "Registered")
row Getter.has_icc_card = (ProxyType.sim, "Present")
row Getter.get_sim_state = (ProxyType.sim, "SimState")
row Getter.get_sim_iccid = (ProxyType.sim, "CardIdentifier")
row Getter.get_sim_operator_name = (ProxyType.sim, "ServiceProviderName")
row Getter.get_subscriber_id = (ProxyType.sim, "SubscriberIdentity")

-- What each function makes of its property; that for VoLTE looks at a second one too.
abbrev pub value : (g : Getter) → Value → Option (Out g)
value Getter.get_pref_net_mode = text_value λ s. network_mode_from_string (some s)
value Getter.get_imei = text_value λ s. s
value Getter.get_imeisv = text_value λ s. s
value Getter.get_modem_manufacturer = text_value λ s. s
value Getter.get_modem_model = text_value λ s. s
value Getter.get_modem_revision = text_value λ s. s
value Getter.get_phone_state = int_value λ n. n
value Getter.get_radio_power = int_value is_nonzero
value Getter.get_radio_state = int_value λ n. n
value Getter.get_modem_status_sync = int_value λ n. n
value Getter.is_voice_registered = text_value λ s. is_registered_code (state_code s)
value Getter.is_voice_emergency_only = text_value λ s. is_emergency_code (state_code s)
value Getter.get_voice_network_type = int_value network_type_from_ril_tech
value Getter.is_voice_roaming = text_value λ s. is_state roaming (state_code s)
value Getter.get_mcc = text_value λ s. s
value Getter.get_mnc = text_value λ s. s
value Getter.get_display_name = text_value λ s. s
value Getter.is_data_registered = int_value is_registered_code
value Getter.is_data_emergency_only = int_value is_emergency_code
value Getter.get_data_network_type = int_value network_type_from_ril_tech
value Getter.is_data_roaming = int_value (is_state roaming)
value Getter.get_preferred_apn = text_value λ s. s
value Getter.is_ims_registered = int_value is_nonzero
value Getter.get_subscriber_uri_number = text_value λ s. s
value Getter.get_ims_enabled = int_value is_nonzero
value Getter.is_volte_available = int_value is_nonzero
value Getter.has_icc_card = int_value is_nonzero
value Getter.get_sim_state = int_value λ n. n
value Getter.get_sim_iccid = text_value λ s. s
value Getter.get_sim_operator_name = text_value λ s. s
value Getter.get_subscriber_id = text_value λ s. s

-- The functions that need more than their property: another property, or a card.
abbrev pub is_conditional : Getter → Bool
is_conditional Getter.is_volte_available = true
is_conditional Getter.get_sim_iccid = true
is_conditional Getter.get_sim_operator_name = true
is_conditional Getter.get_subscriber_id = true
is_conditional _ = false
