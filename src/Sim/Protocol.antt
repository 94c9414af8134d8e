-- ===== src/Sim/Protocol.antt =====
-- What each request of the SIM card puts on the bus, as a table, and that the requests keep to it.
use frameworks_connectivity.Common.{
  ℕ, ℤ, String, CString, Bool, true, refl, List, [], ◌∷◌, map, ◌&&◌, Option,
}
use frameworks_connectivity.Utils.Modem.{Config}
use frameworks_connectivity.Records.{Code, Callback, ProxyType, Context}
use frameworks_connectivity.Bus.Monad.{
  World, M, string_arg, int_arg, bytes_arg, written, property_set_done, sim_reply,
  method_call_complete, open_logical_channel_cb, transmit_apdu_cb,
}
use frameworks_connectivity.Bus.Property.{Properties}
use frameworks_connectivity.Bus.Frees.{free_pending}
use frameworks_connectivity.Bus.Issued.{Succeeds}
use frameworks_connectivity.Bus.Wire.{Wire, answered, Row, Sent}
use frameworks_connectivity.Bus.SentRules.{IsGuard}
use frameworks_connectivity.Bus.WholeRules.{owned-Sent, param-Sent, result-Sent, write-Sent}
use frameworks_connectivity.Manager.Requests.{is_given, entries}
use frameworks_connectivity.Sim.Guards.{
  with_card, with_ready_card, with_card-IsGuard, with_ready_card-IsGuard,
}
use frameworks_connectivity.Sim.Requests
use frameworks_connectivity.Sim.Requests.{unsigned_entries}

-- The requests that tapi_sim.c makes.
pub data SimRequest : Type 0 where
  change_pin reset_pin : CString → CString → CString → SimRequest
  enter_pin lock_pin unlock_pin : CString → CString → SimRequest
  open_logical_channel transmit_basic : Option (List ℕ) → ℤ → SimRequest
  transmit_logical : ℤ → Option (List ℕ) → ℤ → SimRequest
  close_logical_channel set_uicc_enablement : ℤ → SimRequest

module _ (slot_id event : ℤ) (cb : Callback) where
  abbrev on_sim : Bool → Wire → Row
  on_sim accepts wire = record { type = ProxyType.sim; accepts = accepts; wire = wire }

  abbrev of_pins : Bool → String → List CString → Row
  of_pins accepts member texts =
      on_sim accepts
        (answered member (map string_arg texts) (sim_reply method_call_complete) event slot_id cb)

  abbrev pub row : SimRequest → Row
  row (SimRequest.change_pin type old_pin new_pin) =
      of_pins (is_given type && (is_given old_pin && is_given new_pin)) "ChangePin"
        (type ∷ old_pin ∷ new_pin ∷ [])
  row (SimRequest.reset_pin type puk new_pin) =
      of_pins (is_given type && (is_given puk && is_given new_pin)) "ResetPin"
        (type ∷ puk ∷ new_pin ∷ [])
  row (SimRequest.enter_pin type pin) =
      of_pins (is_given type && is_given pin) "EnterPin" (type ∷ pin ∷ [])
  row (SimRequest.lock_pin type pin) =
      of_pins (is_given type && is_given pin) "LockPin" (type ∷ pin ∷ [])
  row (SimRequest.unlock_pin type pin) =
      of_pins (is_given type && is_given pin) "UnlockPin" (type ∷ pin ∷ [])
  row (SimRequest.open_logical_channel aid len) = on_sim (is_given aid) (
      answered "OpenLogicalChannel" (bytes_arg (entries aid len) ∷ [])
        (sim_reply open_logical_channel_cb) event slot_id cb)
  row (SimRequest.transmit_basic pdu len) = on_sim (is_given pdu) (
      answered "TransmitApduBasicChannel" (bytes_arg (unsigned_entries pdu len) ∷ [])
        (sim_reply transmit_apdu_cb) event slot_id cb)
  row (SimRequest.transmit_logical session_id pdu len) = on_sim (is_given pdu) (
      answered "TransmitApduLogicalChannel"
        (int_arg session_id ∷ bytes_arg (unsigned_entries pdu len) ∷ [])
        (sim_reply transmit_apdu_cb) event slot_id cb)
  row (SimRequest.close_logical_channel session_id) = on_sim true (
      answered "CloseLogicalChannel" (int_arg session_id ∷ []) (sim_reply method_call_complete)
        event slot_id cb)
  row (SimRequest.set_uicc_enablement state) =
      on_sim true
        (answered "UiccActive" (written (int_arg state) ∷ []) property_set_done event slot_id cb)

module _ (cfg : Config) (props : Properties) (ctx : Option Context) (slot_id event : ℤ)
    (cb : Callback) where
  unfoldable pub send : SimRequest → M Code
  send (SimRequest.change_pin type old_pin new_pin) =
      Requests.change_pin cfg props ctx slot_id event cb type old_pin new_pin
  send (SimRequest.reset_pin type puk new_pin) =
      Requests.reset_pin cfg props ctx slot_id event cb type puk new_pin
  send (SimRequest.enter_pin type pin) = Requests.enter_pin cfg props ctx slot_id event cb type pin
  send (SimRequest.lock_pin type pin) = Requests.lock_pin cfg props ctx slot_id event cb type pin
  send (SimRequest.unlock_pin type pin) =
      Requests.unlock_pin cfg props ctx slot_id event cb type pin
  send (SimRequest.open_logical_channel aid len) =
      Requests.open_logical_channel cfg props ctx slot_id event cb aid len
  send (SimRequest.transmit_basic pdu len) =
      Requests.transmit_apdu_basic_channel cfg props ctx slot_id event cb pdu len
  send (SimRequest.transmit_logical session_id pdu len) =
      Requests.transmit_apdu_logical_channel cfg props ctx slot_id event cb session_id pdu len
  send (SimRequest.close_logical_channel session_id) =
      Requests.close_logical_channel cfg props ctx slot_id event cb session_id
  send (SimRequest.set_uicc_enablement state) =
      Requests.set_uicc_enablement cfg props ctx slot_id event cb state

  carded : IsGuard cfg ctx slot_id (with_card cfg props ctx slot_id)
  carded = with_card-IsGuard cfg props ctx slot_id

  ready : IsGuard cfg ctx slot_id (with_ready_card cfg props ctx slot_id)
  ready = with_ready_card-IsGuard cfg props ctx slot_id

  abbrev Keeps : SimRequest → World → Type 0
  Keeps r w = Succeeds (Sent cfg ctx slot_id (row slot_id event cb r) w.pending) (send r w)

  pub sim-Sent : (r : SimRequest) (w : World) → Keeps r w
  unfolding send Requests.pin_request Requests.apdu_request Requests.change_pin Requests.enter_pin
      Requests.reset_pin Requests.lock_pin Requests.unlock_pin Requests.open_logical_channel
      Requests.transmit_apdu_basic_channel Requests.transmit_apdu_logical_channel
      Requests.close_logical_channel Requests.set_uicc_enablement
  sim-Sent (SimRequest.change_pin type old_pin new_pin) w =
      owned-Sent cfg ctx slot_id _ carded _ w _ _ cb (λ a d h w'. refl) (λ a d h w'. refl)
        λ a d h. refl
  sim-Sent (SimRequest.reset_pin type puk new_pin) w =
      owned-Sent cfg ctx slot_id _ carded _ w _ _ cb (λ a d h w'. refl) (λ a d h w'. refl)
        λ a d h. refl
  sim-Sent (SimRequest.enter_pin type pin) w =
      owned-Sent cfg ctx slot_id _ carded _ w _ _ cb (λ a d h w'. refl) (λ a d h w'. refl)
        λ a d h. refl
  sim-Sent (SimRequest.lock_pin type pin) w =
      owned-Sent cfg ctx slot_id _ carded _ w _ _ cb (λ a d h w'. refl) (λ a d h w'. refl)
        λ a d h. refl
  sim-Sent (SimRequest.unlock_pin type pin) w =
      owned-Sent cfg ctx slot_id _ carded _ w _ _ cb (λ a d h w'. refl) (λ a d h w'. refl)
        λ a d h. refl
  sim-Sent (SimRequest.open_logical_channel aid len) w =
      param-Sent cfg ctx slot_id _ carded _ w _ _ cb (λ a d h w'. free_pending d w')
        (λ a d h w'. refl) λ a d h. refl
  sim-Sent (SimRequest.transmit_basic pdu len) w =
      param-Sent cfg ctx slot_id _ carded _ w _ _ cb (λ a d h w'. free_pending d w')
        (λ a d h w'. refl) λ a d h. refl
  sim-Sent (SimRequest.transmit_logical session_id pdu len) w =
      param-Sent cfg ctx slot_id _ carded _ w _ _ cb (λ a d h w'. free_pending d w')
        (λ a d h w'. refl) λ a d h. refl
  sim-Sent (SimRequest.close_logical_channel session_id) w =
      result-Sent cfg ctx slot_id _ carded _ w _ _ cb (λ h w'. refl) (λ a h w'. refl) λ a h. refl
  sim-Sent (SimRequest.set_uicc_enablement state) w =
      write-Sent cfg ctx slot_id _ ready _ w _ cb _ refl refl λ a h. refl
