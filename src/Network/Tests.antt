-- ===== src/Network/Tests.antt =====
-- A concrete list of cells, and what the theorems say of it.
use frameworks_connectivity.Common.{none, some, pos, true, false, [], ◌∷◌}
use frameworks_connectivity.Records.{Handler, Payload}
use frameworks_connectivity.Bus.Message.{
  Message, Iter, end, item, struct, array, dict_entry, string, variant, int32,
}
use frameworks_connectivity.Bus.Monad.{World, Outcome, fresh_result}
use frameworks_connectivity.Ss.ReplyResults.{Keeps}
use frameworks_connectivity.Network.Replies.{on_cell_list, on_operator_scan}
use frameworks_connectivity.Network.ReplyResults.{TellsList, list_replies-TellsList}

abbrev before : World
before = record {
  mallocs = λ n. true;
  outcomes = λ n. Outcome.sent;
  writes = λ n. true;
  watch_ids = λ n. 5;
  next = 10;
  live = 3 ∷ [];
  bad_free = false;
  pending = [];
  watches = [];
  properties = [];
  reports = [];
}

abbrev one_cell : Iter
one_cell =
    item
      (struct
        (item (array (item (dict_entry (string "CellId") (variant (int32 (pos 7)))) end)) end))
      end

abbrev reply : Message
reply = record {
  fault = none;
  interface = "org.ofono.NetworkMonitor";
  member = "";
  signature = "a(a{sv})";
  args = item (array one_cell) end;
}

abbrev asked : Handler
asked = record {
  block = 3;
  result = some (record (fresh_result 2) { arg1 = some (pos 0) });
  cb_function = some 4;
}

list_replies-TellsList_example :
    TellsList Payload.cells 30 (on_cell_list (some asked) reply before).0
    × TellsList Payload.operators 30 (on_operator_scan (some asked) reply before).0
    × Keeps before (on_cell_list (some asked) reply before).1
    × Keeps before (on_operator_scan (some asked) reply before).1
list_replies-TellsList_example = list_replies-TellsList (some asked) reply before
