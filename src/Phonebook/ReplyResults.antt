-- ===== src/Phonebook/ReplyResults.antt =====
-- tapi_phonebook.c: what the reply functions hand to the client.
use frameworks_connectivity.Common.{ℕ, String, pos, true, ◌≡◌, refl, [], some, if◌then◌else◌}
use frameworks_connectivity.Records.{ok, error, AsyncResult, Payload}
use frameworks_connectivity.Bus.Message.{Iter, item, array, Message, get_text, get_int, recurse}
use frameworks_connectivity.Bus.Monad.{
  PhonebookReply, load_adn_entries_cb, load_fdn_entries_cb, insert_fdn_record_cb,
  phonebook_method_call_complete,
}
use frameworks_connectivity.Bus.Client.{called, is_fault}
use frameworks_connectivity.Bus.Answers.{Answers, Answers-changed, client, checked}
use frameworks_connectivity.Manager.Replies.{answer}
use frameworks_connectivity.Manager.ReplyResults.{bound-Answers}
use frameworks_connectivity.Sim.Replies.{on_method_call_complete}
use frameworks_connectivity.Phonebook.Replies.{
  run_phonebook_reply, on_load_adn, on_load_fdn, on_insert_fdn, read_fdn_entries, fdn_answer,
}

module _ (block cb : ℕ) (ar : AsyncResult) (m : Message) where
  fdn-Answers : (arr : Iter) → Answers cb ar (answer (fdn_answer cb ar arr))
  fdn-Answers (item (array a) i) =
      bound-Answers block cb ar m (read_fdn_entries (item (array a) i)) _
        λ u. Answers-changed cb ar (some ok) (some (pos 0)) (Payload.fdn_entries [])
  fdn-Answers _ = Answers-changed cb ar (some ok) ar.arg2 (Payload.fdn_entries [])

  pub run_phonebook_reply-Answers :
      (f : PhonebookReply) → Answers cb ar (run_phonebook_reply f (some (client block cb ar m)) m)
  unfolding run_phonebook_reply on_load_adn on_load_fdn on_insert_fdn on_method_call_complete
  run_phonebook_reply-Answers load_adn_entries_cb = checked block cb ar m true _ (
      bound-Answers block cb ar m (get_text m.args) _
        λ s. Answers-changed cb ar (some ok) ar.arg2 (Payload.text (some s)))
  run_phonebook_reply-Answers load_fdn_entries_cb =
      checked block cb ar m true _ (bound-Answers block cb ar m (recurse m.args) _ fdn-Answers)
  run_phonebook_reply-Answers insert_fdn_record_cb = checked block cb ar m true _ (
      bound-Answers block cb ar m (get_int m.args) _
        λ n. Answers-changed cb ar (some ok) (some n) ar.contents)
  run_phonebook_reply-Answers phonebook_method_call_complete =
      Answers-changed cb ar (some (if is_fault m then error else ok)) ar.arg2 ar.contents

  pub run_phonebook_reply-fault :
      (f : PhonebookReply) (e : String)
      → m.fault ≡ some e
      → run_phonebook_reply f (some (client block cb ar m)) m
        ≡ called cb (record ar { status = some error })
  unfolding run_phonebook_reply on_load_adn on_load_fdn on_insert_fdn on_method_call_complete
  run_phonebook_reply-fault load_adn_entries_cb e k = rw k refl
  run_phonebook_reply-fault load_fdn_entries_cb e k = rw k refl
  run_phonebook_reply-fault insert_fdn_record_cb e k = rw k refl
  run_phonebook_reply-fault phonebook_method_call_complete e k = rw k refl
