-- ===== src/Sim/ReplyResults.antt =====
-- tapi_sim.c: what the reply functions hand to the client.
use frameworks_connectivity.Common.{ℕ, String, pos, true, ◌≡◌, refl, some, length, if◌then◌else◌}
use frameworks_connectivity.Records.{ok, error, AsyncResult, Payload}
use frameworks_connectivity.Bus.Message.{Message, get_int, recurse}
use frameworks_connectivity.Bus.Monad.{
  SimReply, method_call_complete, open_logical_channel_cb, transmit_apdu_cb,
}
use frameworks_connectivity.Bus.Client.{called, is_fault}
use frameworks_connectivity.Bus.Answers.{Answers, Answers-changed, client, checked}
use frameworks_connectivity.Manager.Replies.{fixed_bytes}
use frameworks_connectivity.Manager.ReplyResults.{bound-Answers}
use frameworks_connectivity.Sim.Replies.{
  run_sim_reply, on_method_call_complete, on_open_logical_channel, on_transmit_apdu,
}

module _ (block cb : ℕ) (ar : AsyncResult) (m : Message) where
  pub run_sim_reply-Answers :
      (f : SimReply) → Answers cb ar (run_sim_reply f (some (client block cb ar m)) m)
  unfolding run_sim_reply on_method_call_complete on_open_logical_channel on_transmit_apdu
  run_sim_reply-Answers method_call_complete =
      Answers-changed cb ar (some (if is_fault m then error else ok)) ar.arg2 ar.contents
  run_sim_reply-Answers open_logical_channel_cb = checked block cb ar m true _ (
      bound-Answers block cb ar m (get_int m.args) _
        λ n. Answers-changed cb ar (some ok) (some n) ar.contents)
  run_sim_reply-Answers transmit_apdu_cb = checked block cb ar m true _ (
      bound-Answers block cb ar m (recurse m.args) _ λ array.
        bound-Answers block cb ar m (fixed_bytes array) _
          λ l. Answers-changed cb ar (some ok) (some (pos (length l))) (Payload.bytes l))

  pub run_sim_reply-fault :
      (f : SimReply) (e : String)
      → m.fault ≡ some e
      → run_sim_reply f (some (client block cb ar m)) m
        ≡ called cb (record ar { status = some error })
  unfolding run_sim_reply on_method_call_complete on_open_logical_channel on_transmit_apdu
  run_sim_reply-fault method_call_complete e k = rw k refl
  run_sim_reply-fault open_logical_channel_cb e k = rw k refl
  run_sim_reply-fault transmit_apdu_cb e k = rw k refl
