-- ===== src/Utils/Tests.antt =====
-- Concrete slots, networks and proxies, and what the theorems say of them.
use frameworks_connectivity.Common.{
  ℕ, ◌≤◌, ◌≡◌, ◌≢◌, eq_iff, refl, inl, inr, String, pos, true, false, [], ◌∷◌, map, none, some,
  arith,
}
use frameworks_connectivity.Utils.Modem.{
  Config, IsConfig, is_valid_slotid, get_modem_path, get_slot_id, get_slot_id-get_modem_path,
}
use frameworks_connectivity.Utils.Network.{
  roaming, registration_code, get_registration_status_string, registration_status_from_string,
}
use frameworks_connectivity.Utils.Network.RoundTrip.{read_back, registration_round_trip}
use frameworks_connectivity.Utils.Proxies.{
  get_modem_id_by_proxy, Holds, get_modem_id_by_proxy-Holds,
}
use frameworks_connectivity.Utils.Plmn.{
  OpCode, get_covered_plmn, uncover, uncover-get_covered_plmn, find_op_code,
  get_op_code_base_mcc_mnc, plmn_op_info_list, Lists, get_op_code_base_mcc_mnc-Lists,
}
use frameworks_connectivity.Records.{ProxyType, Context}

abbrev two_modems : Config
two_modems = record {
  modem_active_count = 2;
  modem_path = "/phonesim1";
  modem_path_2 = some "/phonesim2";
  log_over_miwear = false;
}

two_modems-IsConfig : IsConfig two_modems
two_modems-IsConfig = record {
  counted = inr (refl, λ e. ground arith);
  distinct = λ e. ground (arith, eq_iff "/phonesim2" "/phonesim1");
  path_set = λ e. ground (arith, eq_iff "/phonesim1" "SLOT_NOT_SET");
  path_2_set = λ e. ground (arith, eq_iff "/phonesim2" "SLOT_NOT_SET");
}

slot_one_valid : is_valid_slotid two_modems (pos 1) ≡ true
unfolding is_valid_slotid
slot_one_valid = refl

get_slot_id-get_modem_path_example :
    (path : String) × (get_modem_path two_modems (pos 1) ≡ some path)
    × (get_slot_id two_modems path ≡ pos 1)
get_slot_id-get_modem_path_example =
    get_slot_id-get_modem_path two_modems (pos 1) two_modems-IsConfig (inl slot_one_valid)

registration_round_trip_example :
    registration_status_from_string
      (some (get_registration_status_string (registration_code roaming)))
    ≡ read_back roaming
registration_round_trip_example = registration_round_trip roaming

-- The second slot has proxy 8 for calls.
abbrev ready : Context
ready = record {
  dbus_proxy_manager = some 1;
  dbus_proxy = λ slot type. elim slot [ ℕ.zero ↦ none | ℕ.suc n ↦ some 8 ];
  modem_state = λ slot. pos 0;
  client_ready = true;
  logging_over_miwear_cb = none;
}

get_modem_id_by_proxy-Holds_example :
    Holds ready 8 (get_modem_id_by_proxy two_modems ready (some 8))
    × (get_modem_id_by_proxy two_modems ready (some 8) ≤ 1)
get_modem_id_by_proxy-Holds_example =
    get_modem_id_by_proxy-Holds two_modems ready 8 1 (omega arith) (ProxyType.call, refl)

uncover-get_covered_plmn_example :
    map uncover (get_covered_plmn (b'4' ∷ b'6' ∷ []) (b'0' ∷ b'7' ∷ []))
    ≡ b'4' ∷ b'6' ∷ b'0' ∷ b'7' ∷ []
uncover-get_covered_plmn_example =
    uncover-get_covered_plmn (b'4' ∷ b'6' ∷ []) (b'0' ∷ b'7' ∷ [])
      ((omega arith, omega arith), ((omega arith, omega arith), tt))
      ((omega arith, omega arith), ((omega arith, omega arith), tt))

known_operator : get_op_code_base_mcc_mnc "460" "11" ≢ OpCode.unknow
unfolding get_op_code_base_mcc_mnc find_op_code
known_operator e = ground arith

get_op_code_base_mcc_mnc-Lists_example :
    Lists "460" "11" (get_op_code_base_mcc_mnc "460" "11") plmn_op_info_list
get_op_code_base_mcc_mnc-Lists_example = get_op_code_base_mcc_mnc-Lists "460" "11" known_operator
