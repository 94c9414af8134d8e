-- ===== src/Utils/CallNames.antt =====
-- tapi_utils.c: call states, disconnect reasons, the caller identity setting and SIM states.
use frameworks_connectivity.Common.{
  String, CString, some, none, ◌≡◌, refl, str_eq, if◌then◌else◌, eq_iff, arith,
}
use frameworks_connectivity.Utils.Codec.{IsCodec}

-- `tapi_call_status`
pub data CallStatus : Type 0 where
  unknow active held dialing alerting incoming waiting disconnected : CallStatus

unfoldable pub call_status_from_string : CString → CallStatus
call_status_from_string none = unknow
call_status_from_string (some status) =
    if str_eq status "active"
    then active
    else if str_eq status "held"
    then held
    else if str_eq status "dialing"
    then dialing
    else if str_eq status "alerting"
    then alerting
    else if str_eq status "incoming"
    then incoming
    else if str_eq status "waiting"
    then waiting
    else if str_eq status "disconnected"
    then disconnected
    else unknow

-- `tapi_call_disconnect_reason`
pub data DisconnectReason : Type 0 where
  reason_unknown local_hangup remote_hangup network_hangup reason_error : DisconnectReason

unfoldable pub call_disconnected_reason : CString → DisconnectReason
call_disconnected_reason none = reason_unknown
call_disconnected_reason (some status) =
    if str_eq status "local"
    then local_hangup
    else if str_eq status "remote"
    then remote_hangup
    else if str_eq status "network"
    then network_hangup
    else reason_unknown

-- `tapi_clir_status`
pub data ClirStatus : Type 0 where
  clir_default clir_disabled clir_enabled : ClirStatus

unfoldable pub clir_status_to_string : ClirStatus → CString
clir_status_to_string clir_default = some "default"
clir_status_to_string clir_disabled = some "disabled"
clir_status_to_string clir_enabled = some "enabled"

unfoldable pub clir_status_from_string : CString → ClirStatus
clir_status_from_string none = clir_default
clir_status_from_string (some status) =
    if str_eq status "default"
    then clir_default
    else if str_eq status "disabled"
    then clir_disabled
    else if str_eq status "enabled"
    then clir_enabled
    else clir_default

-- `tapi_sim_state`
pub data SimState : Type 0 where
  not_present inserted locked_out ready resetting sim_error : SimState

unfoldable pub sim_state_to_string : SimState → String
sim_state_to_string not_present = "SIM_ABSENT"
sim_state_to_string inserted = "SIM_PRESENT"
sim_state_to_string locked_out = "SIM_LOCKED"
sim_state_to_string ready = "SIM_READY"
sim_state_to_string resetting = "SIM_RESETTING"
sim_state_to_string sim_error = "SIM_ERROR"

clir_from-to : (c : ClirStatus) → clir_status_from_string (clir_status_to_string c) ≡ c
unfolding clir_status_to_string clir_status_from_string
clir_from-to clir_default = refl
clir_from-to _ = refl

-- Every setting of the caller identity is read back from its name; a text is either the name of
-- the setting that it is read as, or is read as "default", as a null pointer is.
pub clir_status-IsCodec : IsCodec clir_status_to_string clir_status_from_string clir_default
unfolding clir_status_to_string clir_status_from_string
clir_status-IsCodec = record {
  from-to = clir_from-to;
  to-from = λ s. ground (arith, eq_iff s "default", eq_iff s "disabled", eq_iff s "enabled");
  from-null = refl;
}
