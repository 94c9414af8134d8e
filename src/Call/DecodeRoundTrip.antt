-- ===== src/Call/DecodeRoundTrip.antt =====
-- What ofono sends for a call, and what is read back from it.
use frameworks_connectivity.Common.{
  ℕ, ◌≤◌, ◌≡◌, refl, ap, ◌∙◌, inl, inr, Bool-cases, String, strlen, ltb, Bool, true, false, ℤ, some,
  arith,
}
use frameworks_connectivity.Utils.CallNames.{CallStatus, call_status_from_string}
use frameworks_connectivity.Records.{ret, CallInfo, zero_call, max_call_text_length}
use frameworks_connectivity.Bus.Message.{
  Value, Iter, end, item, string, object_path, int32, boolean, byte, variant, array, dict_entry,
}
use frameworks_connectivity.Call.Decode.{
  call_strcpy, copied, property_of, assign, decode_properties, decode_voice_call_info,
}
use frameworks_connectivity.Call.DecodeBounds.{Fits}

-- The names of ofono for the states of a call.
abbrev pub status_name : CallStatus → String
status_name CallStatus.unknow = "unknown"
status_name CallStatus.active = "active"
status_name CallStatus.held = "held"
status_name CallStatus.dialing = "dialing"
status_name CallStatus.alerting = "alerting"
status_name CallStatus.incoming = "incoming"
status_name CallStatus.waiting = "waiting"
status_name CallStatus.disconnected = "disconnected"

abbrev property : String → Value → Iter → Iter
property key v rest = item (dict_entry (string key) (variant v)) rest

abbrev encode_properties : CallInfo → Iter
encode_properties c = property "State" (string (status_name c.state)) (
    property "LineIdentification" (string c.line_identification) (
      property "IncomingLine" (string c.incoming_line) (
        property "Name" (string c.name) (
          property "StartTime" (string c.start_time) (
            property "Multiparty" (boolean c.multiparty) (
              property "RemoteHeld" (boolean c.remote_held) (
                property "RemoteMultiparty" (boolean c.remote_multiparty) (
                  property "Information" (string c.info) (
                    property "Icon" (byte c.icon) (
                      property "Emergency" (boolean c.is_emergency_number)
                        (property "DisconnectReason" (int32 c.disconnect_reason) end)))))))))))

-- The path of a call and its properties.
abbrev pub encode_call : CallInfo → Iter
encode_call c = item (object_path c.call_id) (item (array (encode_properties c)) end)

status_read : (s : CallStatus) → call_status_from_string (some (status_name s)) ≡ s
unfolding call_status_from_string
status_read CallStatus.active = refl
status_read _ = refl

copied_fits : (dst s : String) → strlen s ≤ max_call_text_length → copied dst s ≡ s
unfolding call_strcpy
copied_fits dst s h = elim (Bool-cases (ltb max_call_text_length (strlen s))) [
  | inl e ↦ absurd (ground arith)
  | inr e ↦ rw (e, copied) refl
]

-- One property after another.
module _ (i : Iter) (c : CallInfo) where
  state_read :
      (s : CallStatus)
      → decode_properties (property "State" (string (status_name s)) i) c
        ≡ decode_properties i (record c { state = s })
  unfolding decode_properties assign property_of
  state_read s = ap (λ t. decode_properties i (record c { state = t })) (status_read s)

  line_read :
      (s : String)
      → strlen s ≤ max_call_text_length
      → decode_properties (property "LineIdentification" (string s) i) c
        ≡ decode_properties i (record c { line_identification = s })
  unfolding decode_properties assign property_of
  line_read s h =
      ap (λ t. decode_properties i (record c { line_identification = t }))
        (copied_fits c.line_identification s h)

  incoming_line_read :
      (s : String)
      → strlen s ≤ max_call_text_length
      → decode_properties (property "IncomingLine" (string s) i) c
        ≡ decode_properties i (record c { incoming_line = s })
  unfolding decode_properties assign property_of
  incoming_line_read s h =
      ap (λ t. decode_properties i (record c { incoming_line = t }))
        (copied_fits c.incoming_line s h)

  name_read :
      (s : String)
      → strlen s ≤ max_call_text_length
      → decode_properties (property "Name" (string s) i) c
        ≡ decode_properties i (record c { name = s })
  unfolding decode_properties assign property_of
  name_read s h = ap (λ t. decode_properties i (record c { name = t })) (copied_fits c.name s h)

  start_time_read :
      (s : String)
      → strlen s ≤ max_call_text_length
      → decode_properties (property "StartTime" (string s) i) c
        ≡ decode_properties i (record c { start_time = s })
  unfolding decode_properties assign property_of
  start_time_read s h =
      ap (λ t. decode_properties i (record c { start_time = t })) (copied_fits c.start_time s h)

  multiparty_read :
      (b : Bool)
      → decode_properties (property "Multiparty" (boolean b) i) c
        ≡ decode_properties i (record c { multiparty = b })
  unfolding decode_properties assign property_of
  multiparty_read true = refl
  multiparty_read false = refl

  remote_held_read :
      (b : Bool)
      → decode_properties (property "RemoteHeld" (boolean b) i) c
        ≡ decode_properties i (record c { remote_held = b })
  unfolding decode_properties assign property_of
  remote_held_read true = refl
  remote_held_read false = refl

  remote_multiparty_read :
      (b : Bool)
      → decode_properties (property "RemoteMultiparty" (boolean b) i) c
        ≡ decode_properties i (record c { remote_multiparty = b })
  unfolding decode_properties assign property_of
  remote_multiparty_read true = refl
  remote_multiparty_read false = refl

  info_read :
      (s : String)
      → strlen s ≤ max_call_text_length
      → decode_properties (property "Information" (string s) i) c
        ≡ decode_properties i (record c { info = s })
  unfolding decode_properties assign property_of
  info_read s h = ap (λ t. decode_properties i (record c { info = t })) (copied_fits c.info s h)

  icon_read :
      (n : ℕ)
      → decode_properties (property "Icon" (byte n) i) c
        ≡ decode_properties i (record c { icon = n })
  unfolding decode_properties assign property_of
  icon_read n = refl

  is_emergency_number_read :
      (b : Bool)
      → decode_properties (property "Emergency" (boolean b) i) c
        ≡ decode_properties i (record c { is_emergency_number = b })
  unfolding decode_properties assign property_of
  is_emergency_number_read true = refl
  is_emergency_number_read false = refl

  reason_read :
      (n : ℤ)
      → decode_properties (property "DisconnectReason" (int32 n) i) c
        ≡ decode_properties i (record c { disconnect_reason = n })
  unfolding decode_properties assign property_of
  reason_read n = refl

all_read : (c : CallInfo) → decode_properties end c ≡ some c
unfolding decode_properties
all_read c = refl

properties_read :
    (c : CallInfo)
    → Fits c
    → decode_properties (encode_properties c) (record zero_call { call_id = c.call_id }) ≡ some c
properties_read c f =
    state_read _ _ c.state
    ∙ line_read _ _ c.line_identification f.line_identification
    ∙ incoming_line_read _ _ c.incoming_line f.incoming_line
    ∙ name_read _ _ c.name f.name
    ∙ start_time_read _ _ c.start_time f.start_time
    ∙ multiparty_read _ _ c.multiparty
    ∙ remote_held_read _ _ c.remote_held
    ∙ remote_multiparty_read _ _ c.remote_multiparty
    ∙ info_read _ _ c.info f.info
    ∙ icon_read _ _ c.icon
    ∙ is_emergency_number_read _ _ c.is_emergency_number
    ∙ reason_read _ _ c.disconnect_reason
    ∙ all_read c

path_read :
    (s : String)
    → strlen s ≤ max_call_text_length
    → call_strcpy "" (some s) max_call_text_length ≡ (ret 0, s)
unfolding call_strcpy
path_read s h = elim (Bool-cases (ltb max_call_text_length (strlen s))) [
  | inl e ↦ absurd (ground arith)
  | inr e ↦ rw e refl
]

-- A call whose texts fit their buffers is read back from what ofono sends for it, field by field.
pub decode_voice_call_info-encode_call :
    (c : CallInfo) → Fits c → decode_voice_call_info (encode_call c) ≡ some (ret 1, c)
unfolding decode_voice_call_info
decode_voice_call_info-encode_call c f =
    rw (path_read c.call_id f.call_id, properties_read c f) refl
