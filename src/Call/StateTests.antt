-- ===== src/Call/StateTests.antt =====
-- Concrete slots, lists and manager signals, and what the theorems say of them.
use frameworks_connectivity.Common.{
  ℕ, ◌==◌, ◌&&◌, str_eq, ◌∙◌, negsuc, if◌then◌else◌, ◌≡◌, refl, ap, inr, ◌⊎◌, String, CString,
  eq_iff, pos, true, false, List, [], ◌∷◌, length, none, some, arith,
}
use frameworks_connectivity.Utils.CallNames.{CallStatus}
use frameworks_connectivity.Utils.Modem.{Config, IsConfig, is_valid_slotid, get_modem_path}
use frameworks_connectivity.Records.{ret, ok, AsyncResult, CallInfo, zero_call, Context}
use frameworks_connectivity.Bus.Message.{end, item, string, int32, Message}
use frameworks_connectivity.Bus.Monad.{
  World, stop, Outcome, ◌>>=◌, non_null, require, returns, set_property, fresh_result,
}
use frameworks_connectivity.Call.Control.{set_default_slot}
use frameworks_connectivity.Bus.Property.{Properties}
use frameworks_connectivity.Call.Watch.{get_default_slot, calls_in_state, get_call_by_state}
use frameworks_connectivity.Call.StateSearch.{Selects, get_call_by_state-Selects}
use frameworks_connectivity.Call.DefaultSlot.{set_default_slot-get_default_slot}
use frameworks_connectivity.Call.Signal.{
  done, Ofono, manager_property_changed, ring_back_tone_change, ring_back_tone_ind,
}
use frameworks_connectivity.Call.SignalValues.{watcher}
use frameworks_connectivity.Call.Dispatch.{
  TellsEccs, TellsTone, TellsSlot, manager_property_changed-TellsAny,
}

abbrev two_modems : Config
two_modems = record {
  modem_active_count = 2;
  modem_path = "/ril_0";
  modem_path_2 = some "/ril_1";
  log_over_miwear = false;
}

two_modems-IsConfig : IsConfig two_modems
two_modems-IsConfig = record {
  counted = inr (refl, λ e. ground arith);
  distinct = λ e. ground (arith, eq_iff "/ril_1" "/ril_0");
  path_set = λ e. ground (arith, eq_iff "/ril_0" "SLOT_NOT_SET");
  path_2_set = λ e. ground (arith, eq_iff "/ril_1" "SLOT_NOT_SET");
}

abbrev ready : Context
ready = record {
  dbus_proxy_manager = some 1;
  dbus_proxy = λ slot type. some 7;
  modem_state = λ slot. pos 0;
  client_ready = true;
  logging_over_miwear_cb = none;
}

abbrev start : World
start = record {
  mallocs = λ n. true;
  outcomes = λ n. Outcome.sent;
  writes = λ n. true;
  watch_ids = λ n. 5;
  next = 10;
  live = [];
  bad_free = false;
  pending = [];
  watches = [];
  properties = [];
  reports = [];
}

abbrev chosen : World
chosen = record start { next = 11; properties = (1, "VoiceCallSlot", some "/ril_1") ∷ [] }

slot_chosen : set_default_slot two_modems (some ready) (pos 1) start ≡ stop (ret 0) chosen
unfolding set_default_slot ◌>>=◌ non_null require is_valid_slotid get_modem_path set_property
    returns
slot_chosen = refl

-- What gdbus gives for a property that was written.
abbrev last_written : List (ℕ × String × CString) → Properties
last_written [] proxy name = none
last_written ((p, key, v) ∷ l) proxy name =
    if p == proxy && str_eq key name
    then elim v [ none ↦ none | some path ↦ some (string path) ]
    else last_written l proxy name

same_name : (name : String) → str_eq name name ≡ true
same_name name = (eq_iff name name).1 refl

first_written :
    (proxy : ℕ) (name path : String) (l : List (ℕ × String × CString))
    → last_written ((proxy, name, some path) ∷ l) proxy name ≡ some (string path)
first_written proxy name path l =
    let same : (proxy == proxy) ≡ true = ground arith in rw (same, same_name name) refl

set_default_slot-get_default_slot_example :
    ((is_valid_slotid two_modems (pos 1) ≡ true) ⊎ (pos 1 ≡ negsuc 0))
    × ((manager : ℕ) × (ready.dbus_proxy_manager ≡ some manager)
        × (chosen.properties ≡ (manager, "VoiceCallSlot", get_modem_path two_modems (pos 1)) ∷ []))
    × (get_default_slot two_modems (last_written chosen.properties) (some ready)
        ≡ some (ret 0, some (pos 1)))
set_default_slot-get_default_slot_example =
    set_default_slot-get_default_slot two_modems ready (pos 1) start chosen 0
      (last_written chosen.properties) two_modems-IsConfig slot_chosen
      λ proxy name path e. ap (λ l. last_written l proxy name) e ∙ first_written proxy name path []

abbrev held_call : CallInfo
held_call = record zero_call { call_id = "/ril_0/voicecall01"; state = CallStatus.held }

abbrev active_call : CallInfo
active_call = record zero_call { call_id = "/ril_0/voicecall02" }

held_found :
    get_call_by_state two_modems
      (some ready)
      (pos 0)
      (pos 1)
      (some (active_call ∷ held_call ∷ []))
      true
    ≡ (ret 1, held_call ∷ [])
unfolding get_call_by_state is_valid_slotid calls_in_state
held_found = refl

get_call_by_state-Selects_example :
    (1 ≡ length (held_call ∷ [])) × Selects (pos 1) (active_call ∷ held_call ∷ []) (held_call ∷ [])
get_call_by_state-Selects_example =
    get_call_by_state-Selects two_modems (some ready) (pos 0) (pos 1) (active_call ∷ held_call ∷ [])
      true 1 (held_call ∷ []) held_found

abbrev names : Ofono
names = record {
  voicecall_manager_interface = "org.ofono.VoiceCallManager";
  manager_interface = "org.ofono.Manager";
  manager_path = "/";
}

abbrev tone_message : Message
tone_message = record {
  fault = none;
  interface = "org.ofono.VoiceCallManager";
  member = "RingBackTone";
  signature = "i";
  args = item (int32 (pos 1)) end;
}

abbrev result : AsyncResult
result = record (fresh_result 8) { msg_id = some ring_back_tone_ind; arg1 = some (pos 0) }

abbrev tone_result : AsyncResult
tone_result = record result { arg2 = some (pos 1); status = some ok }

tone_told :
    manager_property_changed two_modems names (some (watcher 9 4 result tone_message)) tone_message
    ≡ done true (some (4, tone_result))
unfolding manager_property_changed ring_back_tone_change
tone_told = refl

manager_property_changed-TellsAny_example :
    (true ≡ true)
    × (◌≡◌ {A = ℕ} 4 4)
    × (tone_result.status ≡ some ok)
    × (TellsEccs two_modems names 9 4 result tone_message tone_result
        ⊎ TellsTone two_modems names 9 4 result tone_message tone_result
        ⊎ TellsSlot two_modems names 9 4 result tone_message tone_result)
manager_property_changed-TellsAny_example =
    manager_property_changed-TellsAny two_modems names 9 4 result tone_message true 4 tone_result
      tone_told
