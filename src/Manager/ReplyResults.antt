-- ===== src/Manager/ReplyResults.antt =====
-- tapi_manager.c: what the reply functions hand to the client.
use frameworks_connectivity.Common.{
  ℕ, String, pos, Bool, true, ◌≡◌, refl, Option, none, some, List, length, ◌==◌, if◌then◌else◌,
  arith,
}
use frameworks_connectivity.Records.{ok, error, AsyncResult, Payload}
use frameworks_connectivity.Bus.Message.{Message, get_int, recurse, ◌>>=◌}
use frameworks_connectivity.Bus.Monad.{
  World, ManagerReply, modem_list_query_done, modem_activity_info_query_done,
  enable_or_disable_modem_done, enable_modem_abnormal_event_done, modem_status_query_done,
  oem_ril_request_raw_cb, oem_ril_request_strings_cb,
}
use frameworks_connectivity.Bus.Client.{Reply, called, is_fault}
use frameworks_connectivity.Bus.Answers.{
  Answers, Answers-changed, Answers-if, client, told_error, checked,
}
use frameworks_connectivity.Manager.Replies.{
  run_manager_reply, on_modem_activity, on_modem_activity_info, on_enable_or_disable,
  on_abnormal_event, on_modem_status, on_oem_raw, on_oem_strings, answer, element_count,
  fixed_bytes, response_strings, unset_info,
}

-- The reply functions that keep the slot, and the memory that they need.
abbrev pub is_answering : ManagerReply → World → Bool
is_answering modem_list_query_done w = Bool.false
is_answering modem_activity_info_query_done w = w.mallocs w.next
is_answering _ w = true

module _ (block cb : ℕ) (ar : AsyncResult) (m : Message) where
  pub bound-Answers :
      {A : Type 0} (o : Option A) (f : A → Option Reply)
      → ((a : A) → Answers cb ar (answer (f a)))
      → Answers cb ar (answer (o >>= f))
  unfolding Answers
  bound-Answers none f h = tt
  bound-Answers (some a) f h = h a

  strings-Answers :
      (o : Option (List (Option String)))
      → Answers cb ar (elim o [
        | none ↦ called cb (record ar { status = some error })
        | some response ↦ called cb (record ar {
          contents = Payload.strings response;
          arg2 = some (pos (length response));
          status = some ok;
        })
      ])
  strings-Answers none = told_error block cb ar m
  strings-Answers (some l) =
      Answers-changed cb ar (some ok) (some (pos (length l))) (Payload.strings l)

  pub run_manager_reply-Answers :
      (f : ManagerReply) (w : World)
      → is_answering f w ≡ true
      → Answers cb ar (run_manager_reply f (some (client block cb ar m)) m w).0
  unfolding run_manager_reply on_modem_activity on_modem_activity_info on_enable_or_disable
      on_abnormal_event on_modem_status on_oem_raw on_oem_strings
  run_manager_reply-Answers modem_list_query_done w h = ground arith
  run_manager_reply-Answers modem_activity_info_query_done w h = rw h (
      checked block cb ar m true _ (
        bound-Answers (recurse m.args) _ λ array.
          Answers-if cb ar (element_count array == 8) _ _
            (Answers-changed cb ar (some ok) ar.arg2 (Payload.activity unset_info))
            (told_error block cb ar m)))
  run_manager_reply-Answers enable_or_disable_modem_done w h =
      Answers-changed cb ar (some (if is_fault m then error else ok)) ar.arg2 ar.contents
  run_manager_reply-Answers enable_modem_abnormal_event_done w h =
      Answers-if cb ar (is_fault m) _ _ (told_error block cb ar m)
        (bound-Answers (get_int m.args) _ λ n. Answers-changed cb ar (some ok) (some n) ar.contents)
  run_manager_reply-Answers modem_status_query_done w h =
      checked block cb ar m true _
        (bound-Answers (get_int m.args) _ λ n. Answers-changed cb ar (some ok) (some n) ar.contents)
  run_manager_reply-Answers oem_ril_request_raw_cb w h = checked block cb ar m true _ (
      bound-Answers (recurse m.args) _ λ array.
        bound-Answers (fixed_bytes array) _
          λ l. Answers-changed cb ar (some ok) (some (pos (length l))) (Payload.bytes l))
  run_manager_reply-Answers oem_ril_request_strings_cb w h =
      checked block cb ar m true _
        (bound-Answers (recurse m.args) _ λ array. strings-Answers (response_strings 0 array))

  pub run_manager_reply-fault :
      (f : ManagerReply) (w : World) (e : String)
      → is_answering f w ≡ true
      → m.fault ≡ some e
      → (run_manager_reply f (some (client block cb ar m)) m w).0
        ≡ called cb (record ar { status = some error })
  unfolding run_manager_reply on_modem_activity on_modem_activity_info on_enable_or_disable
      on_abnormal_event on_modem_status on_oem_raw on_oem_strings
  run_manager_reply-fault modem_list_query_done w e h k = ground arith
  run_manager_reply-fault modem_activity_info_query_done w e h k = rw (h, k) refl
  run_manager_reply-fault enable_or_disable_modem_done w e h k = rw k refl
  run_manager_reply-fault enable_modem_abnormal_event_done w e h k = rw k refl
  run_manager_reply-fault modem_status_query_done w e h k = rw k refl
  run_manager_reply-fault oem_ril_request_raw_cb w e h k = rw k refl
  run_manager_reply-fault oem_ril_request_strings_cb w e h k = rw k refl
