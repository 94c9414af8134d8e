-- ===== src/Call/Decode.antt =====
-- tapi_call.c: what a message says of a call, and the strings that it is copied into.
use frameworks_connectivity.Common.{
  ℕ, ◌+◌, String, CString, strlen, Bool, not, ltb, leb, ℤ, pos, is_eq, str_eq, if◌then◌else◌,
  Option, none, some, List, [], ◌∷◌, ◌++◌, length,
}
use frameworks_connectivity.Utils.CallNames.{call_status_from_string}
use frameworks_connectivity.Records.{
  Code, ret, fail, einval, eio, CallInfo, zero_call, max_call_text_length, max_call_list_count,
  max_conference_participant_count,
}
use frameworks_connectivity.Bus.Message.{
  Value, Iter, end, item, object_path, struct, dict_entry, next_item, recurse, get_text, get_int,
  get_byte, is_object_path, ◌>>=◌,
}

-- `call_strcpy(dst, src, dst_size)` into a `dst` that is not null: the result, and the text of
-- `dst` afterwards.
unfoldable pub call_strcpy : String → CString → ℕ → Code × String
call_strcpy dst none dst_size = (fail einval, dst)
call_strcpy dst (some src) dst_size =
    if ltb dst_size (strlen src) then (fail einval, dst) else (ret 0, src)

-- The field as `call_strcpy` leaves it, where the result is not looked at.
abbrev pub copied : String → String → String
copied dst src = (call_strcpy dst (some src) max_call_text_length).1

abbrev pub truth : ℤ → Bool
truth n = not (is_eq n (pos 0))

-- The keys that the loop tests for, in its order.
pub data Property : Type 0 where
  state line_identification incoming_line name start_time multiparty remote_held : Property
  remote_multiparty information icon emergency disconnect_reason other : Property

unfoldable pub property_of : String → Property
property_of key =
    if str_eq key "State"
    then state
    else if str_eq key "LineIdentification"
    then line_identification
    else if str_eq key "IncomingLine"
    then incoming_line
    else if str_eq key "Name"
    then name
    else if str_eq key "StartTime"
    then start_time
    else if str_eq key "Multiparty"
    then multiparty
    else if str_eq key "RemoteHeld"
    then remote_held
    else if str_eq key "RemoteMultiparty"
    then remote_multiparty
    else if str_eq key "Information"
    then information
    else if str_eq key "Icon"
    then icon
    else if str_eq key "Emergency"
    then emergency
    else if str_eq key "DisconnectReason"
    then disconnect_reason
    else other

-- The branch of a key. `none` is undefined behaviour, a value of another type.
unfoldable pub assign : Property → Iter → CallInfo → Option CallInfo
assign state value info =
    get_text value >>= λ r. some (record info { state = call_status_from_string (some r) })
assign line_identification value info = get_text value >>= λ r.
    some (record info { line_identification = copied info.line_identification r })
assign incoming_line value info =
    get_text value >>= λ r. some (record info { incoming_line = copied info.incoming_line r })
assign name value info = get_text value >>= λ r. some (record info { name = copied info.name r })
assign start_time value info =
    get_text value >>= λ r. some (record info { start_time = copied info.start_time r })
assign multiparty value info = get_int value >>= λ r. some (record info { multiparty = truth r })
assign remote_held value info = get_int value >>= λ r. some (record info { remote_held = truth r })
assign remote_multiparty value info =
    get_int value >>= λ r. some (record info { remote_multiparty = truth r })
assign information value info =
    get_text value >>= λ r. some (record info { info = copied info.info r })
assign icon value info = get_byte value >>= λ r. some (record info { icon = r })
assign emergency value info =
    get_int value >>= λ r. some (record info { is_emergency_number = truth r })
assign disconnect_reason value info =
    get_int value >>= λ r. some (record info { disconnect_reason = r })
assign other value info = some info

-- The body of the loop: one property.
abbrev pub decode_property : String → Iter → CallInfo → Option CallInfo
decode_property key value info = assign (property_of key) value info

-- The key and the value of an entry: `recurse`, `get_basic`, `next`, `recurse`.
abbrev pub decode_entry : Value → Value → CallInfo → Option CallInfo
decode_entry k v info = do
  key ← get_text (item k end)
  value ← recurse (item v end)
  decode_property key value info

-- `while (… == DBUS_TYPE_DICT_ENTRY)`
unfoldable pub decode_properties : Iter → CallInfo → Option CallInfo
decode_properties (item (dict_entry k v) i) info =
    decode_entry k v info >>= λ info'. decode_properties i info'
decode_properties _ info = some info

-- What follows the copy of the path.
abbrev pub decode_rest : Code → Iter → CallInfo → Option (Code × CallInfo)
decode_rest (fail e) i info = some (fail eio, info)
decode_rest (ret n) i info = do
  properties ← recurse i
  info' ← decode_properties properties info
  some (ret 1, info')

-- `decode_voice_call_info`: the result, where `true` is 1, and the call.
unfoldable pub decode_voice_call_info : Iter → Option (Code × CallInfo)
decode_voice_call_info i = do
  property ← get_text i
  let copy = call_strcpy zero_call.call_id (some property) max_call_text_length
  decode_rest copy.0 (next_item i) (record zero_call { call_id = copy.1 })

-- `list[index] = …`, into an array of `size` entries of which the first were written: a write past
-- the end is undefined behaviour.
abbrev pub store : {A : Type 0} → ℕ → List A → A → Option (List A)
store size written a = if ltb (length written) size then some (written ++ (a ∷ [])) else none

-- The body of the loop of `call_list_query_complete`, with the calls that were written before to
-- `call_list[MAX_CALL_LIST_COUNT]`. The code has no test of their number, and does not look at the
-- result of the decoding.
unfoldable pub decode_struct : Iter → List CallInfo → Option (List CallInfo)
decode_struct entry written =
    if is_object_path entry
    then (decode_voice_call_info entry >>= λ r. store max_call_list_count written r.1)
    else some written

-- `while (… == DBUS_TYPE_STRUCT)`
unfoldable pub decode_calls : Iter → List CallInfo → Option (List CallInfo)
decode_calls (item (struct entry) i) written =
    decode_struct entry written >>= λ written'. decode_calls i written'
decode_calls _ written = some written

-- The loop of `merge_call_complete`, with the number of paths that were stored before.
unfoldable pub merge_paths : ℕ → Iter → List String
merge_paths index (item (object_path p) i) =
    let rest = merge_paths (index + 1) i in
    p ∷ (if leb max_conference_participant_count (index + 1) then [] else rest)
merge_paths index _ = []
