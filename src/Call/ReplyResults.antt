-- ===== src/Call/ReplyResults.antt =====
-- tapi_call.c: what a reply function hands to the client.
use frameworks_connectivity.Common.{
  ℕ, String, pos, Bool, true, false, ◌≡◌, refl, none, some, str_eq, if◌then◌else◌, length, arith,
}
use frameworks_connectivity.Records.{ok, error, AsyncResult, Payload}
use frameworks_connectivity.Bus.Message.{Message, is_object_path, get_text, recurse}
use frameworks_connectivity.Bus.Monad.{
  ReplyFunction, no_operate_callback, dial_call_callback, play_dtmf_callback, merge_call_complete,
  call_list_query_complete, manager_reply, sim_reply, ss_reply, network_reply, phonebook_reply,
  World,
}
use frameworks_connectivity.Bus.Answers.{
  Answers, Answers-changed, Answers-if, Answers-option, client, checked,
}
use frameworks_connectivity.Sim.ReplyResults.{run_sim_reply-Answers, run_sim_reply-fault}
use frameworks_connectivity.Network.ReplyResults.{
  is_reporting, run_network_reply-Answers, run_network_reply-fault,
}
use frameworks_connectivity.Phonebook.ReplyResults.{
  run_phonebook_reply-Answers, run_phonebook_reply-fault,
}
use frameworks_connectivity.Sim.Replies.{on_method_call_complete}
use frameworks_connectivity.Ss.ReplyResults.{is_telling, run_ss_reply-Answers, run_ss_reply-fault}
use frameworks_connectivity.Manager.ReplyResults.{
  is_answering, run_manager_reply-Answers, run_manager_reply-fault,
}
use frameworks_connectivity.Call.Decode.{merge_paths}
use frameworks_connectivity.Bus.Client.{property_set_done, called, is_fault}
use frameworks_connectivity.Call.Reply.{
  run_reply, on_dial, on_play_dtmf, on_merge, on_call_list, list_of_calls,
}

-- The reply functions that answer the client and keep its slot: that of the list of modems stores
-- their number there, those of the activity of a modem and of a call forwarding have to be given
-- memory, and those of a scan for operators and of a list of cells do not tell of an error.
abbrev pub answering : ReplyFunction → World → Bool
answering no_operate_callback w = false
answering (manager_reply f) w = is_answering f w
answering (ss_reply f) w = is_telling f w
answering (network_reply f) w = is_reporting f
answering _ w = true

module _ (block cb : ℕ) (ar : AsyncResult) (m : Message) where
  -- Each reply function that answers calls the client of its own request exactly once, whatever the
  -- reply holds, with the result that the request allocated, whose message id, type, slot and user
  -- object it leaves alone, unless a value of the reply is not of the type that it is read at. Apart
  -- are the reply to the list of modems, those to a scan for operators and to a list of cells, and
  -- those to a modem's activity and to a query of call forwarding if there is no memory.
  pub run_reply-Answers :
      (f : ReplyFunction) (w : World)
      → answering f w ≡ true
      → Answers cb ar (run_reply f (some (client block cb ar m)) m w).0
  unfolding run_reply on_method_call_complete on_dial on_play_dtmf on_merge on_call_list
      property_set_done
  run_reply-Answers no_operate_callback w h = ground arith
  run_reply-Answers dial_call_callback w h = checked block cb ar m true _ (
      Answers-if cb ar (is_object_path m.args) _ _
        (Answers-option cb ar (get_text m.args) _
          λ id. Answers-changed cb ar (some ok) ar.arg2 (Payload.text (some id)))
        (Answers-changed cb ar ar.status ar.arg2 ar.contents))
  run_reply-Answers play_dtmf_callback w h =
      Answers-changed cb ar (some (if is_fault m then error else ok)) ar.arg2 ar.contents
  run_reply-Answers merge_call_complete w h = checked block cb ar m (str_eq m.signature "ao") _ (
      Answers-option cb ar (recurse m.args) _ λ list.
        Answers-changed cb ar (some ok) (some (pos (length (merge_paths 0 list))))
          (Payload.paths (merge_paths 0 list)))
  run_reply-Answers call_list_query_complete w h =
      checked block cb ar m (str_eq m.signature "a(oa{sv})") _ (
        Answers-option cb ar (list_of_calls m.args) _
          λ list. Answers-changed cb ar (some ok) (some (pos (length list))) (Payload.calls list))
  run_reply-Answers ReplyFunction.property_set_done w h =
      Answers-changed cb ar (some (elim m.fault [ none ↦ ok | some e ↦ error ])) ar.arg2 ar.contents
  run_reply-Answers (manager_reply f) w h = run_manager_reply-Answers block cb ar m f w h
  run_reply-Answers (sim_reply f) w h = run_sim_reply-Answers block cb ar m f
  run_reply-Answers (network_reply f) w h = run_network_reply-Answers block cb ar m f w h
  run_reply-Answers (phonebook_reply f) w h = run_phonebook_reply-Answers block cb ar m f
  run_reply-Answers ReplyFunction.stk_method_call_complete w h =
      Answers-changed cb ar (some (if is_fault m then error else ok)) ar.arg2 ar.contents
  run_reply-Answers (ss_reply f) w h = run_ss_reply-Answers block cb ar m f w h

  -- An error reply reaches the client as a result with the status `error` and nothing else changed, for
  -- every reply function that answers. Apart are the reply to the list of modems, those to a scan for
  -- operators and to a list of cells, and those to a modem's activity and to a query of call forwarding
  -- if there is no memory.
  pub run_reply-fault :
      (f : ReplyFunction) (w : World) (e : String)
      → answering f w ≡ true
      → m.fault ≡ some e
      → (run_reply f (some (client block cb ar m)) m w).0
        ≡ called cb (record ar { status = some error })
  unfolding run_reply on_method_call_complete on_dial on_play_dtmf on_merge on_call_list
      property_set_done
  run_reply-fault no_operate_callback w e h k = ground arith
  run_reply-fault dial_call_callback w e h k = rw k refl
  run_reply-fault play_dtmf_callback w e h k = rw k refl
  run_reply-fault merge_call_complete w e h k = rw k refl
  run_reply-fault call_list_query_complete w e h k = rw k refl
  run_reply-fault ReplyFunction.property_set_done w e h k = rw k refl
  run_reply-fault (manager_reply f) w e h k = run_manager_reply-fault block cb ar m f w e h k
  run_reply-fault (sim_reply f) w e h k = run_sim_reply-fault block cb ar m f e k
  run_reply-fault (ss_reply f) w e h k = run_ss_reply-fault block cb ar m f w e h k
  run_reply-fault (network_reply f) w e h k = run_network_reply-fault block cb ar m f w e h k
  run_reply-fault (phonebook_reply f) w e h k = run_phonebook_reply-fault block cb ar m f e k
  run_reply-fault ReplyFunction.stk_method_call_complete w e h k = rw k refl
