-- ===== src/Sim/Requests.antt =====
-- tapi_sim.c: the requests about the SIM card.
use frameworks_connectivity.Common.{
  ℕ, String, CString, Bool, true, ℤ, pos, negsuc, ◌-◌, ◌&&◌, List, [], ◌∷◌, map, take, Option, none,
  some,
}
use frameworks_connectivity.Utils.Modem.{Config}
use frameworks_connectivity.Records.{Code, Payload, Handler, Callback, ProxyType, Context}
use frameworks_connectivity.Bus.Monad.{
  M, SimReply, ◌>>=◌, free, malloc, handler_release, Setup, string_arg, int_arg, bytes_arg,
  sim_reply, method_call_complete, open_logical_channel_cb, transmit_apdu_cb, releasing,
}
use frameworks_connectivity.Bus.Property.{Properties}
use frameworks_connectivity.Bus.Request.{
  call_with_owned, call_with_param, call_with_result, write_with_handler,
}
use frameworks_connectivity.Call.Params.{handler_contents}
use frameworks_connectivity.Manager.Requests.{is_given, entries, result_for, int_or_none}
use frameworks_connectivity.Sim.Guards.{with_card, with_ready_card}

-- The entries of the array of a caller whose length is read as an `unsigned int`.
abbrev unsigned : ℤ → ℕ
unsigned (pos n) = n
unsigned (negsuc n) = 4294967295 - n

abbrev pub unsigned_entries : {A : Type 0} → Option (List A) → ℤ → List A
unsigned_entries none length = []
unsigned_entries (some l) length = take (unsigned length) l

abbrev pin_args : Payload → Setup
pin_args (Payload.texts_param p l) w = (map string_arg l, w)
pin_args _ w = ([], w)

-- `change_pin_param_append` and the like, of the texts that the parameter was filled with.
abbrev pub pin_append : Handler → Setup
pin_append h w = pin_args (handler_contents (some h)) w

abbrev apdu_args : Payload → Setup
apdu_args (Payload.apdu_param p none l) w = (bytes_arg l ∷ [], free p w)
apdu_args (Payload.apdu_param p (some session_id) l) w =
    (int_arg session_id ∷ bytes_arg l ∷ [], free p w)
apdu_args _ w = ([], w)

-- `open_channel_param_append`, `transmit_apdu_param_append` and
-- `transmit_apdu_basic_channel_param_append`, which free their parameter.
abbrev pub apdu_append : Handler → Setup
apdu_append h w = apdu_args (handler_contents (some h)) w

-- `close_channel_param_append`
abbrev pub close_channel_append : Handler → Setup
close_channel_append h w =
    (elim h.result [ none ↦ [] | some ar ↦ int_arg (int_or_none ar.arg2) ∷ [] ], w)

module _ (cfg : Config) (props : Properties) (ctx : Option Context) (slot_id event_id : ℤ)
    (p_handle : Callback) where
  -- The texts `fields` are those of the parameter, as the append function reads them. The source
  -- repeats these lines in each request.
  unfoldable pub pin_request : Bool → String → List CString → M Code
  pin_request allowed member fields = with_card cfg props ctx slot_id allowed ProxyType.sim λ proxy.
      call_with_owned
        (λ a p. record (result_for event_id slot_id a) { contents = Payload.texts_param p fields })
        p_handle proxy member pin_append (sim_reply method_call_complete)

  unfoldable pub change_pin : CString → CString → CString → M Code
  change_pin pin_type old_pin new_pin =
      pin_request (is_given pin_type && (is_given old_pin && is_given new_pin)) "ChangePin"
        (pin_type ∷ old_pin ∷ new_pin ∷ [])

  unfoldable pub enter_pin : CString → CString → M Code
  enter_pin pin_type pin =
      pin_request (is_given pin_type && is_given pin) "EnterPin" (pin_type ∷ pin ∷ [])

  unfoldable pub reset_pin : CString → CString → CString → M Code
  reset_pin puk_type puk new_pin =
      pin_request (is_given puk_type && (is_given puk && is_given new_pin)) "ResetPin"
        (puk_type ∷ puk ∷ new_pin ∷ [])

  unfoldable pub lock_pin : CString → CString → M Code
  lock_pin pin_type pin =
      pin_request (is_given pin_type && is_given pin) "LockPin" (pin_type ∷ pin ∷ [])

  unfoldable pub unlock_pin : CString → CString → M Code
  unlock_pin pin_type pin =
      pin_request (is_given pin_type && is_given pin) "UnlockPin" (pin_type ∷ pin ∷ [])

  -- A request with a parameter that the append function frees, and that is freed where the call
  -- fails. The source repeats these lines in each request.
  unfoldable pub apdu_request : Option (List ℕ) → String → (ℕ → Payload) → SimReply → M Code
  apdu_request data_ member param reply =
      with_card cfg props ctx slot_id (is_given data_) ProxyType.sim λ proxy.
        malloc (λ w. w) >>= λ d.
        call_with_param (λ a. record (result_for event_id slot_id a) { contents = param d })
          p_handle proxy member apdu_append (sim_reply reply)
          (λ handler. releasing (λ w. free d (handler_release (some handler) w))) d

  unfoldable pub open_logical_channel : Option (List ℕ) → ℤ → M Code
  open_logical_channel aid len =
      apdu_request aid "OpenLogicalChannel" (λ d. Payload.apdu_param d none (entries aid len))
        open_logical_channel_cb

  unfoldable pub transmit_apdu_logical_channel : ℤ → Option (List ℕ) → ℤ → M Code
  transmit_apdu_logical_channel session_id pdu len =
      apdu_request pdu "TransmitApduLogicalChannel"
        (λ d. Payload.apdu_param d (some session_id) (unsigned_entries pdu len)) transmit_apdu_cb

  unfoldable pub transmit_apdu_basic_channel : Option (List ℕ) → ℤ → M Code
  transmit_apdu_basic_channel pdu len =
      apdu_request pdu "TransmitApduBasicChannel"
        (λ d. Payload.apdu_param d none (unsigned_entries pdu len)) transmit_apdu_cb

  unfoldable pub close_logical_channel : ℤ → M Code
  close_logical_channel session_id = with_card cfg props ctx slot_id true ProxyType.sim λ proxy.
      call_with_result (λ a. record (result_for event_id slot_id a) { arg2 = some session_id })
        p_handle proxy "CloseLogicalChannel" close_channel_append (sim_reply method_call_complete)
        (λ handler. releasing (handler_release (some handler)))

  unfoldable pub set_uicc_enablement : ℤ → M Code
  set_uicc_enablement state = with_ready_card cfg props ctx slot_id true ProxyType.sim λ proxy.
      write_with_handler (result_for event_id slot_id) p_handle proxy "UiccActive" (int_arg state)
