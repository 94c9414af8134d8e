-- ===== src/Call/Tests.antt =====
-- Concrete requests, replies and signals, and what the theorems say of them.
use frameworks_connectivity.Common.{◌≡◌, refl, pos, true, false, [], ◌∷◌, none, some, arith}
use frameworks_connectivity.Utils.Modem.{Config, is_valid_slotid}
use frameworks_connectivity.Records.{Code, ret, Context}
use frameworks_connectivity.Bus.Message.{end, item, array, Message}
use frameworks_connectivity.Bus.Monad.{
  World, Step, go, stop, crash, Outcome, ◌>>=◌, returns, require, non_null, free, malloc,
  handler_release, method_call, or_fail, releasing, Pending,
}
use frameworks_connectivity.Bus.Request.{call_with_result, call_with_param}
use frameworks_connectivity.Bus.Delivers.{Delivers}
use frameworks_connectivity.Call.Params.{report_data_logging_for_call}
use frameworks_connectivity.Call.Request
use frameworks_connectivity.Call.Sent.{
  CallRequest, send, Settled, send-Settled, FreesOnce, send-FreesOnce,
}
use frameworks_connectivity.Call.Completion.{send-complete}
use frameworks_connectivity.Call.Reply.{complete}
use frameworks_connectivity.Call.Protocol.{Issued}
use frameworks_connectivity.Call.Issue.{send-Issued}
use frameworks_connectivity.Call.Delivery.{send-Delivers}
use frameworks_connectivity.Call.Signal.{Ofono}
use frameworks_connectivity.Call.Registration.{CallSignal, register, register-Watched}
use frameworks_connectivity.Call.WatchMemory.{Watched}

abbrev two_modems : Config
two_modems = record {
  modem_active_count = 2;
  modem_path = "/phonesim1";
  modem_path_2 = some "/phonesim2";
  log_over_miwear = false;
}

abbrev ready : Context
ready = record {
  dbus_proxy_manager = some 1;
  dbus_proxy = λ slot type. some 7;
  modem_state = λ slot. pos 0;
  client_ready = true;
  logging_over_miwear_cb = none;
}

-- One block of the client's is live; `answer` is what gdbus does with each call.
abbrev world_with : Outcome → World
world_with answer = record {
  mallocs = λ n. true;
  outcomes = λ n. answer;
  writes = λ n. true;
  watch_ids = λ n. 5;
  next = 10;
  live = 3 ∷ [];
  bad_free = false;
  pending = [];
  watches = [];
  properties = [];
  reports = [];
}

abbrev start : World
start = world_with Outcome.sent

abbrev empty_reply : Message
empty_reply = record {
  fault = none;
  interface = "";
  member = "";
  signature = "a(oa{sv})";
  args = item (array end) end;
}

abbrev ofono_names : Ofono
ofono_names = record {
  voicecall_manager_interface = "org.ofono.VoiceCallManager";
  manager_interface = "org.ofono.Manager";
  manager_path = "/";
}

slot_one_valid : is_valid_slotid two_modems (pos 1) ≡ true
unfolding is_valid_slotid
slot_one_valid = refl

abbrev dial_request : CallRequest
dial_request = CallRequest.dial (some "112") (pos 1) (pos 20) (some 4)

abbrev list_request : CallRequest
list_request = CallRequest.get_all_calls (pos 21) (some 4)

abbrev state_after : Step Code → World
state_after (go c w) = w
state_after (stop c w) = w
state_after crash = start

abbrev listed : World
listed = state_after (send two_modems (some ready) (pos 1) list_request start)

list_sent : send two_modems (some ready) (pos 1) list_request start ≡ stop (ret 0) listed
unfolding send Request.get_all_calls call_with_result ◌>>=◌ non_null require is_valid_slotid malloc
    method_call or_fail returns
list_sent = refl

send-Settled_example : Settled start (send two_modems (some ready) (pos 1) dial_request start)
send-Settled_example =
    send-Settled two_modems (some ready) (pos 1) dial_request start (omega arith, tt)

send-FreesOnce_example : FreesOnce start (send two_modems (some ready) (pos 1) dial_request start)
send-FreesOnce_example =
    send-FreesOnce two_modems (some ready) (pos 1) dial_request start (omega arith, tt)
      (λ n e. ground arith)

send-complete_example :
    (p : Pending) × (listed.pending ≡ p ∷ start.pending)
    × ((complete p empty_reply listed).1.live ≡ start.live)
    × ((complete p empty_reply listed).1.bad_free ≡ listed.bad_free)
send-complete_example =
    send-complete two_modems (some ready) (pos 1) list_request start listed 0 empty_reply
      (omega arith, tt) list_sent

send-Issued_example : Issued two_modems (some ready) (pos 1) list_request start.pending 0 listed
send-Issued_example =
    send-Issued two_modems (some ready) (pos 1) list_request start listed 0 list_sent

send-Delivers_example : Delivers (send two_modems (some ready) (pos 1) dial_request start)
send-Delivers_example =
    send-Delivers two_modems ready (pos 1) 7 slot_one_valid refl dial_request start ("112", refl)
      (record { mallocs = λ n. refl; outcomes = λ n. refl })

register-Watched_example : Watched start (
    register two_modems ofono_names
      (some ready)
      (some 9)
      (some 4)
      (CallSignal.call_state (pos 0))
      start)
register-Watched_example =
    register-Watched two_modems ofono_names (some ready) (some 9) (some 4) start
      (CallSignal.call_state (pos 0))

-- A dial that gdbus refuses after its arguments were appended frees the parameter twice.
dial_refused_late :
    (state_after (
      send two_modems (some ready) (pos 0) dial_request (world_with Outcome.refused_late))).bad_free
    ≡ true
unfolding send Request.dial report_data_logging_for_call call_with_param Request.deref ◌>>=◌
    non_null require is_valid_slotid malloc method_call or_fail returns releasing free
    handler_release
dial_refused_late = refl
