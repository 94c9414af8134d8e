-- ===== src/Call/Sent.antt =====
-- Every request of tapi_call.c, under one name.
use frameworks_connectivity.Common.{ℕ, ℤ, CString, List, [], Option, ◌≡◌}
use frameworks_connectivity.Utils.Modem.{Config}
use frameworks_connectivity.Records.{Code, ret, fail, Callback, Context}
use frameworks_connectivity.Bus.Monad.{World, Step, go, stop, crash, M}
use frameworks_connectivity.Bus.Ownership.{Handed}
use frameworks_connectivity.Bus.Heap.{IsHeap}
use frameworks_connectivity.Bus.Held.{IsCalm, Done}
use frameworks_connectivity.Call.Request
use frameworks_connectivity.Call.Control
use frameworks_connectivity.Call.RequestMemory.{
  dial-Done, call_play_dtmf-Done, get_all_calls-Done, merge_call-Done, separate_call-Done,
}
use frameworks_connectivity.Call.ControlMemory.{
  manage_call-Done, release_and_answer-Done, hold_and_answer-Done, hangup_all_calls-Done,
  send_tones-Done, answer_by_id-Done, hangup_by_id-Done, deflect_by_id-Done,
  invite_participants-Done, dial_conference-Done,
}

pub data CallRequest : Type 0 where
  dial : CString → ℤ → ℤ → Callback → CallRequest
  start_dtmf : ℕ → ℤ → Callback → CallRequest
  stop_dtmf get_all_calls merge_call : ℤ → Callback → CallRequest
  separate_call : ℤ → CString → Callback → CallRequest
  release_and_swap release_and_answer hold_and_answer hold_call unhold_call : CallRequest
  transfer hangup_all_calls hangup_multiparty : CallRequest
  send_tones answer_by_id hangup_by_id : CString → CallRequest
  deflect_by_id : CString → CString → CallRequest
  dial_conference invite_participants : List CString → ℤ → CallRequest

module _ (cfg : Config) (ctx : Option Context) (slot_id : ℤ) where
  -- The client's call of the function that the request names.
  unfoldable pub send : CallRequest → M Code
  send (dial number hide event cb) = Request.dial cfg ctx slot_id number hide event cb
  send (start_dtmf digit event cb) = Request.start_dtmf cfg ctx slot_id digit event cb
  send (stop_dtmf event cb) = Request.stop_dtmf cfg ctx slot_id event cb
  send (get_all_calls event cb) = Request.get_all_calls cfg ctx slot_id event cb
  send (merge_call event cb) = Request.merge_call cfg ctx slot_id event cb
  send (separate_call event id cb) = Request.separate_call cfg ctx slot_id event id cb
  send release_and_swap = Control.release_and_swap cfg ctx slot_id
  send release_and_answer = Control.release_and_answer cfg ctx slot_id
  send hold_and_answer = Control.hold_and_answer cfg ctx slot_id
  send hold_call = Control.hold_call cfg ctx slot_id
  send unhold_call = Control.unhold_call cfg ctx slot_id
  send transfer = Control.transfer cfg ctx slot_id
  send hangup_all_calls = Control.hangup_all_calls cfg ctx slot_id
  send hangup_multiparty = Control.hangup_multiparty cfg ctx slot_id
  send (send_tones tones) = Control.send_tones cfg ctx slot_id tones
  send (answer_by_id id) = Control.answer_by_id cfg ctx slot_id id
  send (hangup_by_id id) = Control.hangup_by_id cfg ctx slot_id id
  send (deflect_by_id id number) = Control.deflect_by_id cfg ctx slot_id id number
  send (dial_conference people size) = Control.dial_conference cfg ctx slot_id people size
  send (invite_participants people size) = Control.invite_participants cfg ctx slot_id people size

  pub send-Done : (r : CallRequest) (w : World) → IsHeap w → Done w [] (send r w)
  unfolding send Request.start_dtmf Request.stop_dtmf Control.release_and_swap Control.hold_call
      Control.unhold_call Control.transfer Control.hangup_multiparty
  send-Done (dial number hide event cb) w heap =
      dial-Done cfg ctx slot_id event cb w number hide heap
  send-Done (start_dtmf digit event cb) w heap =
      call_play_dtmf-Done cfg ctx slot_id event cb w digit Request.start_play_dtmf heap
  send-Done (stop_dtmf event cb) w heap =
      call_play_dtmf-Done cfg ctx slot_id event cb w 0 Request.stop_play_dtmf heap
  send-Done (get_all_calls event cb) w heap = get_all_calls-Done cfg ctx slot_id event cb w
  send-Done (merge_call event cb) w heap = merge_call-Done cfg ctx slot_id event cb w
  send-Done (separate_call event id cb) w heap = separate_call-Done cfg ctx slot_id event cb w id
  send-Done release_and_swap w heap = manage_call-Done cfg ctx slot_id w "ReleaseAndSwap"
  send-Done release_and_answer w heap = release_and_answer-Done cfg ctx slot_id w
  send-Done hold_and_answer w heap = hold_and_answer-Done cfg ctx slot_id w
  send-Done hold_call w heap = manage_call-Done cfg ctx slot_id w "SwapCalls"
  send-Done unhold_call w heap = manage_call-Done cfg ctx slot_id w "SwapCalls"
  send-Done transfer w heap = manage_call-Done cfg ctx slot_id w "Transfer"
  send-Done hangup_all_calls w heap = hangup_all_calls-Done cfg ctx slot_id w
  send-Done hangup_multiparty w heap = manage_call-Done cfg ctx slot_id w "HangupMultiparty"
  send-Done (send_tones tones) w heap = send_tones-Done cfg ctx slot_id w tones
  send-Done (answer_by_id id) w heap = answer_by_id-Done cfg ctx slot_id w id
  send-Done (hangup_by_id id) w heap = hangup_by_id-Done cfg ctx slot_id w id
  send-Done (deflect_by_id id number) w heap = deflect_by_id-Done cfg ctx slot_id w id number
  send-Done (dial_conference people size) w heap =
      dial_conference-Done cfg ctx slot_id w people size
  send-Done (invite_participants people size) w heap =
      invite_participants-Done cfg ctx slot_id w people size

-- What a request has done with the blocks that it allocated: on success one method call more is
-- pending and owns them, on an error no call is pending and all are freed.
abbrev pub Settled : World → Step Code → Type 0
Settled w (go c w') = ⊥
Settled w (stop (ret n) w') = Handed w w'.pending w'
Settled w (stop (fail e) w') = (w'.pending ≡ w.pending) × (w'.live ≡ w.live)
Settled w crash = Unit

-- No block was freed that was not live.
abbrev pub FreesOnce : World → Step Code → Type 0
FreesOnce w (go c w') = ⊥
FreesOnce w (stop c w') = w'.bad_free ≡ w.bad_free
FreesOnce w crash = Unit

Done-Settled : (w : World) (s : Step Code) → Done w [] s → Settled w s
Done-Settled w (go c w') d = d
Done-Settled w (stop (ret n) w') d = d.0
Done-Settled w (stop (fail e) w') d = (d.pending, d.live)
Done-Settled w crash d = tt

Done-FreesOnce : (w : World) (s : Step Code) → IsCalm w → Done w [] s → FreesOnce w s
Done-FreesOnce w (go c w') calm d = d
Done-FreesOnce w (stop (ret n) w') calm d = d.1 calm
Done-FreesOnce w (stop (fail e) w') calm d = d.calm calm
Done-FreesOnce w crash calm d = tt

module _ (cfg : Config) (ctx : Option Context) (slot_id : ℤ) (r : CallRequest) (w : World) where
  -- Whatever the allocator and gdbus answer, a call request that starts on a consistent heap and
  -- returns has settled its memory. On success exactly one method call more is pending, and it owns
  -- every block that the request allocated and did not free. On an error no call is pending and
  -- every block is freed.
  pub send-Settled : IsHeap w → Settled w (send cfg ctx slot_id r w)
  send-Settled heap = Done-Settled w (send cfg ctx slot_id r w) (send-Done cfg ctx slot_id r w heap)

  -- A call request that starts on a consistent heap and returns has freed no block twice, where
  -- gdbus refuses no call after it has appended the arguments.
  pub send-FreesOnce : IsHeap w → IsCalm w → FreesOnce w (send cfg ctx slot_id r w)
  send-FreesOnce heap calm =
      Done-FreesOnce w (send cfg ctx slot_id r w) calm (send-Done cfg ctx slot_id r w heap)
