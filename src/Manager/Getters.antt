-- ===== src/Manager/Getters.antt =====
-- tapi_manager.c: the functions that read a property of a modem.
use frameworks_connectivity.Common.{
  String, CString, Bool, true, false, str_eq, ℤ, Option, none, some, if◌then◌else◌,
}
use frameworks_connectivity.Utils.Modem.{Config}
use frameworks_connectivity.Utils.Network.{PrefNetMode, network_mode_from_string}
use frameworks_connectivity.Records.{einval, eio, ret, ProxyType, Context}
use frameworks_connectivity.Bus.Message.{
  Value, Iter, end, item, string, array, dict_entry, variant, get_text,
}
use frameworks_connectivity.Bus.Property.{
  Properties, Answer, refuse, write, read_property, text_of, map_int, map_text, is_nonzero,
}

-- `tapi_is_feature_supported`, by the enumerators FEATURE_VOICE, FEATURE_DATA, FEATURE_SMS and
-- FEATURE_IMS; any other value is `other_feature`.
pub data Feature : Type 0 where
  voice data_feature sms ims other_feature : Feature

unfoldable pub is_feature_supported : Feature → Bool
is_feature_supported other_feature = false
is_feature_supported _ = true

module _ (cfg : Config) (props : Properties) (ctx : Option Context) (slot_id : ℤ) where
  unfoldable pub get_pref_net_mode : Answer PrefNetMode
  get_pref_net_mode =
      read_property cfg props ctx slot_id true ProxyType.radio "TechnologyPreference" einval
        (map_text (λ s. network_mode_from_string (some s)))

  unfoldable pub get_imei : Answer String
  get_imei = read_property cfg props ctx slot_id true ProxyType.modem "Serial" einval text_of

  unfoldable pub get_imeisv : Answer String
  get_imeisv =
      read_property cfg props ctx slot_id true ProxyType.modem "SoftwareVersionNumber" einval
        text_of

  unfoldable pub get_modem_manufacturer : Answer String
  get_modem_manufacturer =
      read_property cfg props ctx slot_id true ProxyType.modem "Manufacturer" einval text_of

  unfoldable pub get_modem_model : Answer String
  get_modem_model = read_property cfg props ctx slot_id true ProxyType.modem "Model" einval text_of

  unfoldable pub get_modem_revision : Answer String
  get_modem_revision =
      read_property cfg props ctx slot_id true ProxyType.modem "Revision" einval text_of

  unfoldable pub get_phone_state : Answer ℤ
  get_phone_state =
      read_property cfg props ctx slot_id true ProxyType.call "PhoneStatus" einval (map_int λ n. n)

  unfoldable pub get_radio_power : Answer Bool
  get_radio_power =
      read_property cfg props ctx slot_id true ProxyType.modem "Online" einval (map_int is_nonzero)

  unfoldable pub get_radio_state : Answer ℤ
  get_radio_state =
      read_property cfg props ctx slot_id true ProxyType.modem "RadioState" einval (map_int λ n. n)

  unfoldable pub get_modem_status_sync : Answer ℤ
  get_modem_status_sync =
      read_property cfg props ctx slot_id true ProxyType.modem "ModemState" einval (map_int λ n. n)

  -- The first number of the array. An array whose first element is no string is undefined: the loop
  -- does not go on to the next, and never ends.
  abbrev first_number : Value → Answer String
  first_number (array end) = some (ret 0, none)
  first_number (array (item (string s) i)) = write s
  first_number (array _) = none
  first_number _ = refuse einval

  unfoldable pub get_msisdn_number : Answer String
  get_msisdn_number =
      read_property cfg props ctx slot_id true ProxyType.sim "SubscriberNumbers" eio first_number

  -- The loop of the three functions for carrier settings: the value of the first entry with the key.
  unfoldable pub find_setting : {A : Type 0} → String → (Value → Answer A) → Iter → Answer A
  find_setting key read (item (dict_entry k v) i) =
      let rest = find_setting key read i in
      elim (get_text (item k end)) [
        | none ↦ none
        | some prop_name ↦ elim v [
          | variant value ↦ if str_eq prop_name key then read value else rest
          | _ ↦ none
        ]
      ]
  find_setting key read _ = refuse einval

  abbrev setting_of : {A : Type 0} → String → (Value → Answer A) → Value → Answer A
  setting_of key read (array i) = find_setting key read i
  setting_of key read _ = refuse einval

  abbrev given_key : CString → String
  given_key none = ""
  given_key (some key) = key

  abbrev is_key : CString → Bool
  is_key none = false
  is_key (some key) = true

  unfoldable pub get_carrier_config_bool : CString → Answer Bool
  unfolding find_setting
  get_carrier_config_bool key =
      read_property cfg props ctx slot_id (is_key key) ProxyType.modem "CarrierConfig" einval
        (setting_of (given_key key) (map_int is_nonzero))

  unfoldable pub get_carrier_config_int : CString → Answer ℤ
  unfolding find_setting
  get_carrier_config_int key =
      read_property cfg props ctx slot_id (is_key key) ProxyType.modem "CarrierConfig" einval
        (setting_of (given_key key) (map_int λ n. n))

  unfoldable pub get_carrier_config_string : CString → Answer String
  unfolding find_setting
  get_carrier_config_string key =
      read_property cfg props ctx slot_id (is_key key) ProxyType.modem "CarrierConfig" einval
        (setting_of (given_key key) text_of)
