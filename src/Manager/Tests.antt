-- ===== src/Manager/Tests.antt =====
-- Concrete clients of tapi_manager.c, and what the theorems say of them.
use frameworks_connectivity.Common.{
  suc, Bool, ◌==◌, str_eq, if◌then◌else◌, ◌≡◌, refl, pos, true, false, [], ◌∷◌, none, some,
}
use frameworks_connectivity.Utils.Modem.{Config, is_valid_slotid}
use frameworks_connectivity.Utils.Interfaces.{
  is_interface_supported, get_env_interface_support_string,
}
use frameworks_connectivity.Records.{Context}
use frameworks_connectivity.Bus.Message.{array, int32, boolean}
use frameworks_connectivity.Bus.Monad.{
  World, Outcome, ◌>>=◌, non_null, require, malloc, method_call, or_fail, returns,
}
use frameworks_connectivity.Bus.Guards.{with_proxy}
use frameworks_connectivity.Bus.Request.{call_with_data}
use frameworks_connectivity.Manager.Abnormal.{enable_modem_abnormal_event}
use frameworks_connectivity.Bus.Property.{Properties, map_int, is_nonzero, text_of}
use frameworks_connectivity.Manager.Proxies
use frameworks_connectivity.Manager.Proxies.{Setting, Gdbus, Session}
use frameworks_connectivity.Manager.Session.{
  max_dbus_init_retry_count, Opened, undefined, null, opened, connect, open_context, allocate,
  finish, close_context, on_dbus_client_ready,
}
use frameworks_connectivity.Manager.Opening.{Ends, connect-Ends}
use frameworks_connectivity.Manager.Failing.{IsLeft, open_context-IsLeft}
use frameworks_connectivity.Manager.Life.{
  idle, opens, client_ready, closes, Reach, here, next, IsSound,
}
use frameworks_connectivity.Manager.Reachable.{Reach-IsSound}
use frameworks_connectivity.Manager.Settings.{
  Settings, setting, sent_settings, found, get_carrier_config-setting,
}
use frameworks_connectivity.Manager.Getters.{
  get_carrier_config_bool, get_carrier_config_int, get_carrier_config_string,
}

abbrev one_modem : Config
one_modem = record {
  modem_active_count = 1;
  modem_path = "/phonesim1";
  modem_path_2 = none;
  log_over_miwear = false;
}

abbrev plain : Setting
plain = record {
  config = one_modem;
  names = λ i. "org.ofono.Interface";
  manager_path = "/";
  manager_interface = "org.ofono.Manager";
  ulong_max = 18446744073709551615;
  getenv = λ name. none;
}

-- gdbus gives a connection at the third try; `grants` is its answer to the request for a name.
abbrev third_try : Bool → Gdbus
third_try grants = record {
  proxies = λ n path interface. some n;
  connections = λ n. n == 2;
  grants_name = grants;
  gives_client = true;
  sets_ready_watch = true;
}

abbrev nothing_yet : Context
nothing_yet = record {
  dbus_proxy_manager = none;
  dbus_proxy = λ slot type. none;
  modem_state = λ slot. pos 0;
  client_ready = false;
  logging_over_miwear_cb = none;
}

abbrev before : World
before = record {
  mallocs = λ n. true;
  outcomes = λ n. Outcome.sent;
  writes = λ n. true;
  watch_ids = λ n. 5;
  next = 10;
  live = 3 ∷ [];
  bad_free = false;
  pending = [];
  watches = [];
  properties = [];
  reports = [];
}

abbrev new_client : Session
new_client = record {
  world = before;
  context = nothing_yet;
  references = [];
  bad_unref = false;
  asked = 0;
  tries = 0;
  sleeps = 0;
  connected = false;
  has_client = false;
  watched = [];
  ready = none;
}

connect-Ends_example :
    Ends
      (third_try true)
      (suc max_dbus_init_retry_count)
      new_client
      (connect (third_try true) (suc max_dbus_init_retry_count) 0 new_client)
connect-Ends_example = connect-Ends (third_try true) new_client refl

abbrev session_of : Opened → Session
session_of undefined = new_client
session_of (null s) = s
session_of (opened ctx s) = s

abbrev refused : Session
refused = session_of (open_context (third_try false) plain false none none none new_client)

name_refused : open_context (third_try false) plain false none none none new_client ≡ null refused
unfolding open_context connect finish allocate
name_refused = refl

open_context-IsLeft_example : IsLeft new_client refused
open_context-IsLeft_example =
    open_context-IsLeft (third_try false) plain false none none none new_client refused refl refl
      name_refused

abbrev used : Session
used = session_of (open_context (third_try true) plain false (some 1) (some 2) none new_client)

context_opened :
    open_context (third_try true) plain false (some 1) (some 2) none new_client ≡ opened 10 used
unfolding open_context connect finish allocate enable_modem_abnormal_event with_proxy ◌>>=◌ non_null
    require is_valid_slotid Proxies.get_mutable_dbus_proxy is_interface_supported
    get_env_interface_support_string Proxies.get_persistent_dbus_proxy call_with_data malloc
    method_call or_fail returns
context_opened = refl

opened_and_closed :
    Reach plain
      (idle new_client)
      (idle (close_context plain (some 10) (on_dbus_client_ready used.ready used).1).1)
opened_and_closed =
    next
      (next (next here (opens (third_try true) false (some 1) (some 2) none context_opened))
        client_ready)
      closes

Reach-IsSound_example :
    IsSound plain (idle (close_context plain (some 10) (on_dbus_client_ready used.ready used).1).1)
Reach-IsSound_example = Reach-IsSound plain opened_and_closed (refl, refl, refl, refl)

abbrev with_modem : Context
with_modem = record nothing_yet { client_ready = true; dbus_proxy = λ slot type. some 7 }

abbrev carrier : Settings
carrier = ("volte", boolean true) ∷ ("retries", int32 (pos 3)) ∷ ("volte", boolean false) ∷ []

abbrev carrier_config : Properties
carrier_config proxy name =
    if str_eq name "CarrierConfig" then some (array (sent_settings carrier)) else none

slot_zero_valid : is_valid_slotid one_modem (pos 0) ≡ true
unfolding is_valid_slotid
slot_zero_valid = refl

get_carrier_config-setting_example :
    (get_carrier_config_bool one_modem carrier_config (some with_modem) (pos 0) (some "volte")
      ≡ found (map_int is_nonzero) (setting "volte" carrier))
    × (get_carrier_config_int one_modem carrier_config (some with_modem) (pos 0) (some "volte")
        ≡ found (map_int λ n. n) (setting "volte" carrier))
    × (get_carrier_config_string one_modem carrier_config (some with_modem) (pos 0) (some "volte")
        ≡ found text_of (setting "volte" carrier))
get_carrier_config-setting_example =
    get_carrier_config-setting one_modem carrier_config with_modem (pos 0) 7 "volte" carrier
      slot_zero_valid refl refl refl
