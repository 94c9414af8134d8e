-- ===== src/Call/Signal.antt =====
-- tapi_call.c: the functions that take the signals of the voice call manager and of the manager,
-- and the requests that install them.
use frameworks_connectivity.Common.{
  ℕ, String, Bool, true, false, not, ℤ, pos, ◌&&◌, is_eq, ◌==◌, str_eq, if◌then◌else◌, Option, none,
  some, length,
}
use frameworks_connectivity.Utils.Modem.{Config, get_slot_id}
use frameworks_connectivity.Records.{Code, ret, fail, ok, Payload, AsyncResult, Handler}
use frameworks_connectivity.Bus.Message.{
  Iter, Message, iter_init, next_item, recurse, get_text, get_int, is_string, is_int32, ◌>>=◌,
}
use frameworks_connectivity.Call.Decode.{decode_voice_call_info}
use frameworks_connectivity.Call.Ecc.{changed_entries}

-- The names of ofono/dbus.h that the signals go by.
pub record Ofono : Type 0 where
  pub voicecall_manager_interface : String
  pub manager_interface : String
  pub manager_path : String

-- MSG_CALL_RING_BACK_TONE_IND and the other messages of calls.
abbrev pub ring_back_tone_ind : ℤ
ring_back_tone_ind = pos 15

abbrev pub ecc_list_change_ind : ℤ
ecc_list_change_ind = pos 16

abbrev pub default_voicecall_slot_change_ind : ℤ
default_voicecall_slot_change_ind = pos 17

-- What a signal function does: its result, for which gdbus drops the watch if it is false, and the
-- call of the client, if there is one.
pub data Signal : Type 0 where
  undefined : Signal
  done : Bool → Option (ℕ × AsyncResult) → Signal

abbrev silent : Bool → Signal
silent b = done b none

-- The checks for null pointers; `refused` is the result then.
abbrev pub with_client : Option Handler → (ℕ → AsyncResult → Signal) → Signal
with_client none f = silent false
with_client (some h) f = elim h.result [
  | none ↦ silent false
  | some ar ↦ elim h.cb_function [ none ↦ silent false | some cb ↦ f cb ar ]
]

abbrev pub or_undefined : Option Signal → Signal
or_undefined none = undefined
or_undefined (some s) = s

-- `ar->status = OK; cb(ar)`
abbrev pub told : ℕ → AsyncResult → Signal
told cb ar = done true (some (cb, record ar { status = some ok }))

-- `is_call_signal_message` of tapi_utils.c, with the test of the type that the first argument has to
-- be of.
abbrev pub is_call_signal_message : Message → (Iter → Bool) → Bool
is_call_signal_message m is_type = iter_init m && is_type m.args

module _ (cfg : Config) where
  -- `tapi_call_default_voicecall_slot_change`
  unfoldable pub default_slot_change : Option Handler → Message → Signal
  default_slot_change handler m = with_client handler λ cb ar.
      if iter_init m
      then or_undefined (
          get_text m.args >>= λ property. recurse (next_item m.args) >>= λ var.
          if str_eq property "VoiceCallSlot"
          then (get_text var >>= λ slot.
              some (told cb (record ar { arg2 = some (get_slot_id cfg slot) })))
          else some (silent true))
      else silent false

  unfoldable pub ring_back_tone_change : Option Handler → Message → Signal
  ring_back_tone_change handler m = with_client handler λ cb ar.
      if is_call_signal_message m is_int32
      then or_undefined (get_int m.args >>= λ n. some (told cb (record ar { arg2 = some n })))
      else silent true

  abbrev pub is_message : AsyncResult → ℤ → Bool
  is_message ar id = elim ar.msg_id [ none ↦ false | some n ↦ is_eq n id ]

  -- `tapi_call_property_change`
  unfoldable pub property_change : Option Handler → Message → Signal
  property_change handler m = with_client handler λ cb ar.
      if is_call_signal_message m is_string
      then or_undefined (
          get_text m.args >>= λ key.
          if is_message ar ecc_list_change_ind && str_eq key "EmergencyNumbers"
          then (recurse (next_item m.args) >>= λ list. recurse list >>= λ entries.
              changed_entries 0 entries >>= λ ecc_list. some (
                told cb (record ar {
                  contents = Payload.eccs ecc_list;
                  arg2 = some (pos (length ecc_list));
                })))
          else some (silent true))
      else silent false

  module _ (names : Ofono) where
    -- `dbus_message_is_signal`
    abbrev is_signal : Message → String → String → Bool
    is_signal m interface member = str_eq m.interface interface && str_eq m.member member

    abbrev dispatch : Option Handler → AsyncResult → Message → Signal
    dispatch handler ar m =
        if is_signal m names.voicecall_manager_interface "PropertyChanged"
        then property_change handler m
        else if is_signal m names.voicecall_manager_interface "RingBackTone"
            && is_message ar ring_back_tone_ind
        then ring_back_tone_change handler m
        else if is_signal m names.manager_interface "PropertyChanged"
            && is_message ar default_voicecall_slot_change_ind
        then default_slot_change handler m
        else silent true

    -- `call_manager_property_changed`
    unfoldable pub manager_property_changed : Option Handler → Message → Signal
    manager_property_changed none m = silent false
    manager_property_changed (some h) m = elim h.result [
      | none ↦ silent false
      | some ar ↦ dispatch (some h) ar m
    ]

-- An `int` as a condition: a negated errno value is true.
abbrev pub is_true : Code → Bool
is_true (ret n) = not (n == 0)
is_true (fail e) = true

unfoldable pub call_state_changed : Option Handler → Message → Signal
call_state_changed handler m = with_client handler λ cb ar.
    if iter_init m
    then or_undefined (
        decode_voice_call_info m.args >>= λ r.
        if is_true r.0
        then some (told cb (record ar { contents = Payload.call r.1 }))
        else some (silent false))
    else silent false
