-- ===== src/Network/Getters.antt =====
-- tapi_network.c: the functions that read a property of the network.
use frameworks_connectivity.Common.{String, Bool, true, ◌||◌, ℤ, is_eq, Option, some}
use frameworks_connectivity.Utils.Modem.{Config}
use frameworks_connectivity.Utils.Network.{
  RegistrationState, registered, roaming, not_registered_em, searching_em, denied_em, unknown_em,
  registered_em, registration_code, registration_status_from_string, NetworkType,
  network_type_from_ril_tech,
}
use frameworks_connectivity.Records.{einval, eio, ProxyType, Context}
use frameworks_connectivity.Bus.Property.{
  Properties, Answer, read_property, text_of, map_int, map_text,
}

-- A state as an `int`, against the enumerators that count as registered, and as for emergencies only.
abbrev pub is_state : RegistrationState → ℤ → Bool
is_state s n = is_eq n (registration_code s)

abbrev pub is_registered_code : ℤ → Bool
is_registered_code n = is_state registered n || is_state roaming n

abbrev pub is_emergency_code : ℤ → Bool
is_emergency_code n =
    is_state not_registered_em n
    || (is_state searching_em n
        || (is_state denied_em n || (is_state unknown_em n || is_state registered_em n)))

abbrev pub state_code : String → ℤ
state_code s = registration_code (registration_status_from_string (some s))

module _ (cfg : Config) (props : Properties) (ctx : Option Context) (slot_id : ℤ) where
  unfoldable pub is_voice_registered : Answer Bool
  is_voice_registered =
      read_property cfg props ctx slot_id true ProxyType.netreg "Status" einval
        (map_text λ s. is_registered_code (state_code s))

  unfoldable pub is_voice_emergency_only : Answer Bool
  is_voice_emergency_only =
      read_property cfg props ctx slot_id true ProxyType.netreg "Status" einval
        (map_text λ s. is_emergency_code (state_code s))

  unfoldable pub get_voice_network_type : Answer NetworkType
  get_voice_network_type =
      read_property cfg props ctx slot_id true ProxyType.netreg "Technology" einval
        (map_int network_type_from_ril_tech)

  unfoldable pub is_voice_roaming : Answer Bool
  is_voice_roaming =
      read_property cfg props ctx slot_id true ProxyType.netreg "Status" einval
        (map_text λ s. is_state roaming (state_code s))

  unfoldable pub get_mcc : Answer String
  get_mcc =
      read_property cfg props ctx slot_id true ProxyType.netreg "MobileCountryCode" eio text_of

  unfoldable pub get_mnc : Answer String
  get_mnc =
      read_property cfg props ctx slot_id true ProxyType.netreg "MobileNetworkCode" eio text_of

  unfoldable pub get_display_name : Answer String
  get_display_name = read_property cfg props ctx slot_id true ProxyType.netreg "Name" einval text_of
