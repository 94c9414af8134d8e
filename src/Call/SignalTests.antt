-- ===== src/Call/SignalTests.antt =====
-- Concrete signals and lists of emergency numbers, and what the theorems say of them.
use frameworks_connectivity.Common.{
  ◌≤◌, ◌≡◌, refl, String, pos, true, false, List, [], ◌∷◌, none, some, length, arith,
}
use frameworks_connectivity.Utils.Modem.{Config, is_valid_slotid}
use frameworks_connectivity.Records.{
  ret, ok, AsyncResult, Payload, EccInfo, zero_call, Context, max_ecc_list_size,
}
use frameworks_connectivity.Bus.Message.{
  Iter, end, item, int32, string, object_path, array, Message,
}
use frameworks_connectivity.Bus.Monad.{fresh_result}
use frameworks_connectivity.Call.Signal.{done, call_state_changed}
use frameworks_connectivity.Call.SignalValues.{
  watcher, TellsCall, call_state_changed-TellsCall, call_state_changed_long_path,
}
use frameworks_connectivity.Bus.Property.{Properties}
use frameworks_connectivity.Call.Ecc.{
  Entries, entry_at, changed_entries, listed_entries, get_ecc_list, find_number, search_slot,
  search_slots, is_emergency_number, category_condition, strtok, skip_commas, token, atoi,
  skip_spaces, digits_value,
}
use frameworks_connectivity.Call.EccBounds.{Counted, changed_entries_bound, get_ecc_list-Counted}
use frameworks_connectivity.Call.EccSearch.{Emergency, is_emergency_number-Emergency}

abbrev message : Iter → Message
message args = record {
  fault = none;
  interface = "org.ofono.VoiceCallManager";
  member = "CallChanged";
  signature = "oa{sv}";
  args = args;
}

abbrev result : AsyncResult
result = record (fresh_result 8) { arg1 = some (pos 0) }

-- A path of 101 characters.
abbrev long_path : String
long_path =
    "/0123456789012345678901234567890123456789012345678901234567890123456789012345678901234567890123456789"

abbrev long_message : Message
long_message = message (item (object_path long_path) (item (array end) end))

call_state_changed-TellsCall_example :
    TellsCall 9 4 result long_message
      (call_state_changed (some (watcher 9 4 result long_message)) long_message)
call_state_changed-TellsCall_example = call_state_changed-TellsCall 9 4 result long_message

call_state_changed_long_path_example :
    call_state_changed (some (watcher 9 4 result long_message)) long_message
    ≡ done true (some (4, record result { contents = Payload.call zero_call; status = some ok }))
call_state_changed_long_path_example =
    call_state_changed_long_path 9 4 result long_message long_path (item (array end) end) refl
      (ground arith)

abbrev numbers : Iter
numbers = item (string "112") (item (string "7,2") (item (string "911") (item (string "1,0") end)))

abbrev number_list : List EccInfo
number_list =
    record { ecc_num = some "112"; category = 7; condition = 2 }
    ∷ record { ecc_num = some "911"; category = 1; condition = 0 }
    ∷ []

numbers_changed : changed_entries 0 numbers ≡ some number_list
unfolding changed_entries category_condition strtok skip_commas token atoi skip_spaces digits_value
numbers_changed = refl

changed_entries_bound_example : length number_list ≤ max_ecc_list_size
changed_entries_bound_example = changed_entries_bound numbers number_list numbers_changed

abbrev one_modem : Config
one_modem = record {
  modem_active_count = 1;
  modem_path = "/phonesim";
  modem_path_2 = none;
  log_over_miwear = false;
}

abbrev ready : Context
ready = record {
  dbus_proxy_manager = some 1;
  dbus_proxy = λ slot type. some 7;
  modem_state = λ slot. pos 0;
  client_ready = true;
  logging_over_miwear_cb = none;
}

abbrev stored : Properties
stored proxy name = some (array numbers)

abbrev number_entries : Entries
number_entries =
    (0, record { ecc_num = some "112"; category = 7; condition = 2 })
    ∷ (1, record { ecc_num = some "911"; category = 1; condition = 0 })
    ∷ []

numbers_listed : get_ecc_list one_modem stored (some ready) (pos 0) ≡ some (ret 2, number_entries)
unfolding get_ecc_list is_valid_slotid listed_entries category_condition strtok skip_commas token
    atoi skip_spaces digits_value
numbers_listed = refl

-- The number is raised for an element that is no string, and nothing is written for it.
counted_unwritten : listed_entries 0 (item (int32 (pos 7)) end) ≡ some (1, [])
unfolding listed_entries
counted_unwritten = refl

get_ecc_list-Counted_example : Counted (ret 2, number_entries)
get_ecc_list-Counted_example =
    get_ecc_list-Counted one_modem stored (some ready) (pos 0) (ret 2, number_entries)
      numbers_listed

is_emergency : is_emergency_number one_modem stored (some ready) "112" ≡ some (pos 2)
unfolding is_emergency_number search_slots search_slot find_number entry_at get_ecc_list
    is_valid_slotid listed_entries category_condition strtok skip_commas token atoi skip_spaces
    digits_value
is_emergency = refl

is_emergency_number-Emergency_example : Emergency one_modem stored (some ready) "112" 0 1 (pos 2)
is_emergency_number-Emergency_example =
    is_emergency_number-Emergency one_modem stored (some ready) "112" (pos 2) is_emergency
