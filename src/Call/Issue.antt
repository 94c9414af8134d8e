-- ===== src/Call/Issue.antt =====
-- The call requests together, against the table of what goes on the bus.
use frameworks_connectivity.Common.{ℕ, ℤ, ◌≡◌, refl, Option, subst}
use frameworks_connectivity.Utils.Modem.{Config}
use frameworks_connectivity.Records.{Context, ret}
use frameworks_connectivity.Bus.Monad.{World, stop}
use frameworks_connectivity.Bus.Issued.{Succeeds}
use frameworks_connectivity.Call.Control
use frameworks_connectivity.Call.Sent.{CallRequest, send}
use frameworks_connectivity.Call.Protocol.{Issued}
use frameworks_connectivity.Call.RequestProtocol
use frameworks_connectivity.Call.ControlProtocol

module _ (cfg : Config) (ctx : Option Context) (slot_id : ℤ) where
  every-Issued :
      (r : CallRequest) (w : World)
      → Succeeds (Issued cfg ctx slot_id r w.pending) (send cfg ctx slot_id r w)
  unfolding send Control.release_and_swap Control.hold_call Control.unhold_call Control.transfer
      Control.hangup_multiparty
  every-Issued (CallRequest.dial number hide event cb) w =
      RequestProtocol.dial-Issued cfg ctx slot_id event cb w number hide
  every-Issued (CallRequest.start_dtmf digit event cb) w =
      RequestProtocol.start_dtmf-Issued cfg ctx slot_id event cb w digit
  every-Issued (CallRequest.stop_dtmf event cb) w =
      RequestProtocol.stop_dtmf-Issued cfg ctx slot_id event cb w
  every-Issued (CallRequest.get_all_calls event cb) w =
      RequestProtocol.get_all_calls-Issued cfg ctx slot_id event cb w
  every-Issued (CallRequest.merge_call event cb) w =
      RequestProtocol.merge_call-Issued cfg ctx slot_id event cb w
  every-Issued (CallRequest.separate_call event id cb) w =
      RequestProtocol.separate_call-Issued cfg ctx slot_id event cb w id
  every-Issued CallRequest.release_and_swap w =
      ControlProtocol.manage_call-Issued cfg ctx slot_id w CallRequest.release_and_swap
        "ReleaseAndSwap" tt refl
  every-Issued CallRequest.release_and_answer w =
      ControlProtocol.release_and_answer-Issued cfg ctx slot_id w
  every-Issued CallRequest.hold_and_answer w =
      ControlProtocol.hold_and_answer-Issued cfg ctx slot_id w
  every-Issued CallRequest.hold_call w =
      ControlProtocol.manage_call-Issued cfg ctx slot_id w CallRequest.hold_call "SwapCalls" tt refl
  every-Issued CallRequest.unhold_call w =
      ControlProtocol.manage_call-Issued cfg ctx slot_id w CallRequest.unhold_call "SwapCalls" tt
        refl
  every-Issued CallRequest.transfer w =
      ControlProtocol.manage_call-Issued cfg ctx slot_id w CallRequest.transfer "Transfer" tt refl
  every-Issued CallRequest.hangup_all_calls w =
      ControlProtocol.hangup_all_calls-Issued cfg ctx slot_id w
  every-Issued CallRequest.hangup_multiparty w =
      ControlProtocol.manage_call-Issued cfg ctx slot_id w CallRequest.hangup_multiparty
        "HangupMultiparty" tt refl
  every-Issued (CallRequest.send_tones tones) w =
      ControlProtocol.send_tones-Issued cfg ctx slot_id w tones
  every-Issued (CallRequest.answer_by_id id) w =
      ControlProtocol.answer_by_id-Issued cfg ctx slot_id w id
  every-Issued (CallRequest.hangup_by_id id) w =
      ControlProtocol.hangup_by_id-Issued cfg ctx slot_id w id
  every-Issued (CallRequest.deflect_by_id id number) w =
      ControlProtocol.deflect_by_id-Issued cfg ctx slot_id w id number
  every-Issued (CallRequest.dial_conference people size) w =
      ControlProtocol.dial_conference-Issued cfg ctx slot_id w people size
  every-Issued (CallRequest.invite_participants people size) w =
      ControlProtocol.invite_participants-Issued cfg ctx slot_id w people size

  -- A call request that reports success returns 0 and had a context, a valid slot, a call proxy for
  -- that slot and arguments that the code accepts. It has sent exactly one method call, through that
  -- proxy, with the member, the arguments and the reply function of the request's row in the table
  -- `wire`, and with the message id, the slot and the callback that the client gave.
  pub send-Issued :
      (r : CallRequest) (w w' : World) (n : ℕ)
      → send cfg ctx slot_id r w ≡ stop (ret n) w'
      → Issued cfg ctx slot_id r w.pending n w'
  send-Issued r w w' n e =
      subst (Succeeds (Issued cfg ctx slot_id r w.pending)) e (every-Issued r w)
