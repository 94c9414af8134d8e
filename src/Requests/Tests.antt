-- ===== src/Requests/Tests.antt =====
-- A concrete request, and what the theorems say of it.
use frameworks_connectivity.Common.{
  ◌≡◌, refl, pos, true, false, [], ◌∷◌, none, some, str_eq, if◌then◌else◌,
}
use frameworks_connectivity.Utils.Modem.{Config, is_valid_slotid}
use frameworks_connectivity.Records.{Code, ret, Context}
use frameworks_connectivity.Bus.Message.{boolean}
use frameworks_connectivity.Bus.Monad.{
  World, Step, go, stop, crash, Outcome, ◌>>=◌, returns, require, non_null, malloc, method_call,
  or_fail,
}
use frameworks_connectivity.Bus.Property.{Properties, read_property}
use frameworks_connectivity.Bus.Wire.{Sent}
use frameworks_connectivity.Bus.Request.{call_with_owned}
use frameworks_connectivity.Sim
use frameworks_connectivity.Sim.Guards.{with_card}
use frameworks_connectivity.Sim.Getters.{card_inserted, has_icc_card}
use frameworks_connectivity.Sim.Protocol.{SimRequest}
use frameworks_connectivity.Requests.{Request, of_sim, row, send, send-Sent}

abbrev one_modem : Config
one_modem = record {
  modem_active_count = 1;
  modem_path = "/phonesim1";
  modem_path_2 = none;
  log_over_miwear = false;
}

abbrev ready : Context
ready = record {
  dbus_proxy_manager = some 1;
  dbus_proxy = λ slot type. some 7;
  modem_state = λ slot. pos 0;
  client_ready = true;
  logging_over_miwear_cb = none;
}

abbrev with_sim : Properties
with_sim proxy name = if str_eq name "Present" then some (boolean true) else none

abbrev start : World
start = record {
  mallocs = λ n. true;
  outcomes = λ n. Outcome.sent;
  writes = λ n. true;
  watch_ids = λ n. 5;
  next = 10;
  live = 3 ∷ [];
  bad_free = false;
  pending = [];
  watches = [];
  properties = [];
  reports = [];
}

abbrev enter : Request
enter = of_sim (pos 30) (some 4) (SimRequest.enter_pin (some "pin") (some "1234"))

abbrev world_after : Step Code → World
world_after (go c w) = w
world_after (stop c w) = w
world_after crash = start

abbrev entered : World
entered = world_after (send one_modem with_sim (some ready) (pos 0) enter start)

pin_sent : send one_modem with_sim (some ready) (pos 0) enter start ≡ stop (ret 0) entered
unfolding send Sim.Protocol.send Sim.Requests.enter_pin Sim.Requests.pin_request with_card
    card_inserted has_icc_card read_property call_with_owned ◌>>=◌ non_null require is_valid_slotid
    malloc method_call or_fail returns
pin_sent = refl

send-Sent_example : Sent one_modem (some ready) (pos 0) (row (pos 0) enter) start.pending 0 entered
send-Sent_example = send-Sent one_modem with_sim (some ready) (pos 0) enter start entered 0 pin_sent
