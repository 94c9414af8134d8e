-- ===== src/Getters/Tests.antt =====
-- A concrete property, and what the theorems say of reading it.
use frameworks_connectivity.Common.{pos, true, false, none, some, str_eq, if◌then◌else◌}
use frameworks_connectivity.Utils.Modem.{Config, is_valid_slotid}
use frameworks_connectivity.Records.{Context}
use frameworks_connectivity.Bus.Message.{string}
use frameworks_connectivity.Bus.Property.{Properties}
use frameworks_connectivity.Bus.Found.{Follows}
use frameworks_connectivity.GetterTable.{Getter, value}
use frameworks_connectivity.Getters.{read, read-Follows}

abbrev one_modem : Config
one_modem = record {
  modem_active_count = 1;
  modem_path = "/phonesim1";
  modem_path_2 = none;
  log_over_miwear = false;
}

abbrev ready : Context
ready = record {
  dbus_proxy_manager = some 1;
  dbus_proxy = λ slot type. some 7;
  modem_state = λ slot. pos 0;
  client_ready = true;
  logging_over_miwear_cb = none;
}

abbrev roaming_status : Properties
roaming_status proxy name = if str_eq name "Status" then some (string "roaming") else none

read-Follows_example :
    Follows
      (value Getter.is_voice_roaming)
      false
      (some (string "roaming"))
      (read one_modem roaming_status (some ready) (pos 0) Getter.is_voice_roaming)
unfolding is_valid_slotid
read-Follows_example =
    read-Follows one_modem roaming_status (some ready) (pos 0) Getter.is_voice_roaming
