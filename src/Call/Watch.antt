-- ===== src/Call/Watch.antt =====
-- tapi_call.c: the requests that install signal watches, the default slot as it is read, and the
-- search of a list of calls by state.
use frameworks_connectivity.Common.{
  ℕ, String, CString, Bool, ℤ, pos, negsuc, is_eq, ◌==◌, Option, none, some, List, [], ◌∷◌, length,
  if◌then◌else◌,
}
use frameworks_connectivity.Utils.CallNames.{
  CallStatus, active, unknow, held, dialing, alerting, incoming, waiting, disconnected,
}
use frameworks_connectivity.Utils.Modem.{Config, is_valid_slotid, get_modem_path, get_slot_id}
use frameworks_connectivity.Records.{
  Code, ret, fail, einval, eio, eagain, indication, CallInfo, Callback, Context, Handler,
}
use frameworks_connectivity.Bus.Message.{end, item, get_text}
use frameworks_connectivity.Bus.Monad.{
  stop, M, ◌>>=◌, ◌>>◌, require, non_null, malloc, free, fresh_result, handler_release,
  add_signal_watch, SignalFunction, call_manager_property_changed, call_state_changed,
}
use frameworks_connectivity.Bus.Request.{handler_of}
use frameworks_connectivity.Bus.Property.{Properties}
use frameworks_connectivity.Call.Signal.{
  Ofono, ring_back_tone_ind, ecc_list_change_ind, default_voicecall_slot_change_ind,
}

-- `get_call_signal_member` of tapi_utils.c
unfoldable pub get_call_signal_member : ℤ → CString
get_call_signal_member msg =
    if is_eq msg ecc_list_change_ind
    then some "PropertyChanged"
    else if is_eq msg default_voicecall_slot_change_ind
    then some "PropertyChanged"
    else if is_eq msg ring_back_tone_ind
    then some "RingBackTone"
    else none

-- `if (watch_id == 0) { handler_free(handler); return -EINVAL; } return watch_id;`
unfoldable pub watch_result : Handler → ℕ → M Code
watch_result handler watch_id w =
    if watch_id == 0
    then stop (fail einval) (handler_release (some handler) w)
    else stop (ret watch_id) w

-- The enumerator's value.
abbrev pub call_status_code : CallStatus → ℤ
call_status_code unknow = negsuc 0
call_status_code active = pos 0
call_status_code held = pos 1
call_status_code dialing = pos 2
call_status_code alerting = pos 3
call_status_code incoming = pos 4
call_status_code waiting = pos 5
call_status_code disconnected = pos 6

-- The loop of `tapi_call_get_call_by_state`: the entries that are copied to `info`.
unfoldable pub calls_in_state : ℤ → List CallInfo → List CallInfo
calls_in_state state [] = []
calls_in_state state (call ∷ calls) =
    let rest = calls_in_state state calls in
    if is_eq (call_status_code call.state) state then call ∷ rest else rest

module _ (cfg : Config) where
  -- The list has `size` entries; whether `info` is a pointer is `to_info`. The result, and what is
  -- written to `info`.
  unfoldable pub get_call_by_state :
      Option Context → ℤ → ℤ → Option (List CallInfo) → Bool → Code × List CallInfo
  get_call_by_state none slot_id state call_list to_info = (fail einval, [])
  get_call_by_state (some c) slot_id state call_list to_info =
      if is_valid_slotid cfg slot_id
      then elim call_list [
        | none ↦ (fail einval, [])
        | some calls ↦
            if to_info
            then (ret (length (calls_in_state state calls)), calls_in_state state calls)
            else (fail einval, [])
      ]
      else (fail einval, [])

  -- `tapi_call_get_default_slot`: the result, and what is written to `out`; `none` is undefined.
  unfoldable pub get_default_slot : Properties → Option Context → Option (Code × Option ℤ)
  get_default_slot props none = none
  get_default_slot props (some c) = elim c.dbus_proxy_manager [
    | none ↦ some (fail eio, none)
    | some proxy ↦
        if c.client_ready
        then elim (props proxy "VoiceCallSlot") [
          | none ↦ some (fail einval, none)
          | some v ↦ elim (get_text (item v end)) [
            | none ↦ none
            | some path ↦ some (ret 0, some (get_slot_id cfg path))
          ]
        ]
        else some (fail eagain, none)
  ]

  module _ (names : Ofono) where
    -- The watch of the default slot is on the manager's path, every other on the modem's.
    abbrev watched_path : ℤ → String → String
    watched_path msg modem_path =
        if is_eq msg default_voicecall_slot_change_ind then names.manager_path else modem_path

    -- `tapi_register_manager_call_signal`
    unfoldable pub register_manager_call_signal :
        Option Context → ℤ → String → ℤ → Option ℕ → Callback → SignalFunction → M Code
    register_manager_call_signal ctx slot_id interface msg user_obj p_handle function = do
      c ← non_null ctx einval
      require (is_valid_slotid cfg slot_id) einval
      member ← non_null (get_call_signal_member msg) einval
      modem_path ← non_null (get_modem_path cfg slot_id) eio
      a ← malloc (λ w. w)
      let ar = record (fresh_result a) {
        msg_id = some msg;
        msg_type = some indication;
        arg1 = some slot_id;
        user_obj = user_obj;
      }
      h ← malloc (free a)
      watch_id ← add_signal_watch (record {
        path = watched_path msg modem_path;
        interface = interface;
        member = member;
        function = function;
        handler = handler_of ar p_handle h;
      })
      watch_result (handler_of ar p_handle h) watch_id

    unfoldable pub register_emergency_list_change :
        Option Context → ℤ → Option ℕ → Callback → M Code
    register_emergency_list_change ctx slot_id user_obj p_handle = do
      c ← non_null ctx einval
      require (is_valid_slotid cfg slot_id) einval
      register_manager_call_signal (some c) slot_id names.voicecall_manager_interface
          ecc_list_change_ind user_obj p_handle call_manager_property_changed

    unfoldable pub register_ringback_tone_change : Option Context → ℤ → Option ℕ → Callback → M Code
    register_ringback_tone_change ctx slot_id user_obj p_handle = do
      c ← non_null ctx einval
      require (is_valid_slotid cfg slot_id) einval
      register_manager_call_signal (some c) slot_id names.voicecall_manager_interface
          ring_back_tone_ind user_obj p_handle call_manager_property_changed

    unfoldable pub register_default_voicecall_slot_change :
        Option Context → Option ℕ → Callback → M Code
    register_default_voicecall_slot_change ctx user_obj p_handle = do
      c ← non_null ctx einval
      register_manager_call_signal (some c) (pos 0) names.manager_interface
          default_voicecall_slot_change_ind user_obj p_handle call_manager_property_changed

    -- The message id of the result is not set. The handler is allocated first.
    unfoldable pub register_call_state_change : Option Context → ℤ → Option ℕ → Callback → M Code
    register_call_state_change ctx slot_id user_obj p_handle = do
      c ← non_null ctx einval
      require (is_valid_slotid cfg slot_id) einval
      modem_path ← non_null (get_modem_path cfg slot_id) eio
      h ← malloc (λ w. w)
      a ← malloc (free h)
      let ar = record (fresh_result a) {
        msg_type = some indication;
        arg1 = some slot_id;
        user_obj = user_obj;
      }
      watch_id ← add_signal_watch (record {
        path = modem_path;
        interface = names.voicecall_manager_interface;
        member = "CallChanged";
        function = call_state_changed;
        handler = handler_of ar p_handle h;
      })
      watch_result (handler_of ar p_handle h) watch_id
