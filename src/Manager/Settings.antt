-- ===== src/Manager/Settings.antt =====
-- tapi_manager.c: the carrier settings as a map.
use frameworks_connectivity.Common.{
  ℕ, String, true, ℤ, ◌≡◌, refl, ◌∙◌, inl, inr, str_eq, List, [], ◌∷◌, Option, none, some,
  Bool-cases, if◌then◌else◌,
}
use frameworks_connectivity.Utils.Modem.{Config, is_valid_slotid, slot_index}
use frameworks_connectivity.Records.{einval, ProxyType, Context}
use frameworks_connectivity.Bus.Message.{Value, Iter, end, item, string, array, dict_entry, variant}
use frameworks_connectivity.Bus.Property.{
  Properties, Answer, refuse, read_property, read_property_present, text_of, map_int, is_nonzero,
}
use frameworks_connectivity.Manager.Getters.{
  find_setting, get_carrier_config_bool, get_carrier_config_int, get_carrier_config_string,
}

-- The settings as an association list, of which the first entry with a key counts.
abbrev pub Settings : Type 0
Settings = List (String × Value)

abbrev pub setting : String → Settings → Option Value
setting key [] = none
setting key ((k, v) ∷ l) = if str_eq k key then some v else setting key l

-- The settings as ofono sends them: an array of entries with a key and a variant.
abbrev pub sent_settings : Settings → Iter
sent_settings [] = end
sent_settings ((k, v) ∷ l) = item (dict_entry (string k) (variant v)) (sent_settings l)

abbrev pub found : {A : Type 0} → (Value → Answer A) → Option Value → Answer A
found read none = refuse einval
found read (some v) = read v

module _ (cfg : Config) (props : Properties) (c : Context) (slot_id : ℤ) where
  find_setting-setting :
      {A : Type 0} (key : String) (read : Value → Answer A) (l : Settings)
      → find_setting cfg props (some c) slot_id key read (sent_settings l)
        ≡ found read (setting key l)
  unfolding find_setting
  find_setting-setting key read [] = refl
  find_setting-setting key read ((k, v) ∷ l) = elim (Bool-cases (str_eq k key)) [
    | inl e ↦ rw e refl
    | inr e ↦ rw e (find_setting-setting key read l)
  ]

  -- Where the slot's modem has carrier settings, the three functions for them give what the
  -- association list gives: the value of the first entry with the key, read as a truth value, a
  -- number or a text, and EINVAL where no entry has the key.
  pub get_carrier_config-setting :
      (proxy : ℕ) (key : String) (l : Settings)
      → is_valid_slotid cfg slot_id ≡ true
      → c.client_ready ≡ true
      → c.dbus_proxy (slot_index slot_id) ProxyType.modem ≡ some proxy
      → props proxy "CarrierConfig" ≡ some (array (sent_settings l))
      → (get_carrier_config_bool cfg props (some c) slot_id (some key)
          ≡ found (map_int is_nonzero) (setting key l))
        × (get_carrier_config_int cfg props (some c) slot_id (some key)
            ≡ found (map_int λ n. n) (setting key l))
        × (get_carrier_config_string cfg props (some c) slot_id (some key)
            ≡ found text_of (setting key l))
  unfolding get_carrier_config_bool get_carrier_config_int get_carrier_config_string
  get_carrier_config-setting proxy key l valid ready has sent = (
    present _ ∙ find_setting-setting key (map_int is_nonzero) l,
    present _ ∙ find_setting-setting key (map_int λ n. n) l,
    present _ ∙ find_setting-setting key text_of l,
  )
    where
      present :
          {A : Type 0} (f : Value → Answer A)
          → read_property cfg props (some c) slot_id true ProxyType.modem "CarrierConfig" einval f
            ≡ f (array (sent_settings l))
      present f =
          read_property_present cfg props c slot_id ProxyType.modem "CarrierConfig" einval f proxy
            (array (sent_settings l)) valid ready has sent
