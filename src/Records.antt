-- ===== src/Records.antt =====
-- The structures and constants of include/tapi.h, include/tapi_call.h, include/tapi_ss.h,
-- include/tapi_network.h and src/tapi_internal.h.
use frameworks_connectivity.Common.{ℕ, String, CString, List, Option, Bool, false, ℤ, pos}
use frameworks_connectivity.Utils.CallNames.{CallStatus}
use frameworks_connectivity.Utils.Network.{CellType, OperatorStatus}

-- A negated errno value is `fail`; any other result of an `int` function is `ret`.
pub data Errno : Type 0 where
  einval eio enomem eagain : Errno

pub data Code : Type 0 where
  ret : ℕ → Code
  fail : Errno → Code

-- `OK` and `ERROR`, as stored in `tapi_async_result.status`.
pub data Status : Type 0 where
  ok error : Status

-- `tapi_message_type`
pub data MessageType : Type 0 where
  response indication : MessageType

-- The texts are those before the terminator; `memset` leaves them empty.
pub record CallInfo : Type 0 where
  pub call_id : String
  pub state : CallStatus
  pub line_identification : String
  pub incoming_line : String
  pub name : String
  pub start_time : String
  pub multiparty : Bool
  pub remote_held : Bool
  pub remote_multiparty : Bool
  pub info : String
  pub icon : ℕ
  pub is_emergency_number : Bool
  pub disconnect_reason : ℤ  -- an enumerator that the code fills from any `int`

-- `ecc_info`; `none` is the null pointer of an entry that was not filled.
pub record EccInfo : Type 0 where
  pub ecc_num : CString
  pub category : ℕ  -- unsigned int
  pub condition : ℕ  -- unsigned int

-- `memset(call_info, 0, …)`: the enumerator 0 is `CALL_STATUS_ACTIVE`.
abbrev pub zero_call : CallInfo
zero_call = record {
  call_id = "";
  state = CallStatus.active;
  line_identification = "";
  incoming_line = "";
  name = "";
  start_time = "";
  multiparty = false;
  remote_held = false;
  remote_multiparty = false;
  info = "";
  icon = 0;
  is_emergency_number = false;
  disconnect_reason = pos 0;
}

abbrev pub max_phone_number_length : ℕ
max_phone_number_length = 80

-- MAX_CALL_ID_LENGTH and the limits of the other texts of a call, which are the same number.
abbrev pub max_call_text_length : ℕ
max_call_text_length = 100

abbrev pub max_conference_participant_count : ℕ
max_conference_participant_count = 6

abbrev pub max_ecc_list_size : ℕ
max_ecc_list_size = 30

abbrev pub max_call_list_count : ℕ
max_call_list_count = 10

abbrev pub max_ims_conference_calls : ℕ
max_ims_conference_calls = 5

-- `tapi_call_forward_info`, of which `none` was not set.
pub record ForwardInfo : Type 0 where
  pub status : Option ℤ
  pub cls : Option ℤ
  pub phone_number : CString
  pub time : Option ℤ

-- `tapi_cell_identity` with its signal strength, but for the fields that the code never sets; `none`
-- was not set.
pub record CellIdentity : Type 0 where
  pub ci : Option ℤ
  pub pci : Option ℤ
  pub tac : Option ℤ
  pub lac : Option ℤ
  pub earfcn : Option ℤ
  pub type : Option CellType
  pub registered : Option Bool
  pub mcc_str : String
  pub mnc_str : String
  pub rssi : Option ℤ
  pub rsrp : Option ℤ
  pub rsrq : Option ℤ
  pub rssnr : Option ℤ
  pub level : Option ℤ

-- `tapi_operator_info`
pub record OperatorInfo : Type 0 where
  pub id : String
  pub name : String
  pub mcc : String
  pub mnc : String
  pub status : Option OperatorStatus
  pub technology : String

-- What `data` of a `tapi_async_result` points to. A block that `malloc` gave is named by its
-- number, and stands with what was stored in it.
pub data Payload : Type 0 where
  unset null : Payload
  text : CString → Payload
  call_param : ℕ → String → ℤ → Payload
  dtmf_param : ℕ → ℕ → ℤ → Payload
  call : CallInfo → Payload
  calls : List CallInfo → Payload
  paths : List String → Payload
  eccs : List EccInfo → Payload
  int_data : ℤ → Payload
  activity : List (Option ℤ) → Payload
  strings : List CString → Payload
  abnormal_event : ℕ → Bool → ℤ → ℤ → ℤ → Payload
  oem_bytes : ℕ → List ℕ → Payload
  oem_strings : ℕ → List CString → Payload
  bytes : List ℕ → Payload
  forwarding : ForwardInfo → Payload
  ussd : String → Payload
  select_item_param : ℕ → ℕ → CString → Payload
  fdn_param : ℕ → Option ℤ → List CString → Payload
  fdn_entries : List (ℤ × String × String) → Payload
  cells : List CellIdentity → Payload
  operators : List OperatorInfo → Payload
  texts_param : ℕ → List CString → Payload
  apdu_param : ℕ → Option ℤ → List ℕ → Payload

-- `tapi_async_result`: `malloc` leaves each field indeterminate, which is `none` here (`unset` for
-- `data`). `block` is the address.
pub record AsyncResult : Type 0 where
  pub block : ℕ
  pub msg_id : Option ℤ
  pub msg_type : Option MessageType
  pub status : Option Status
  pub arg1 : Option ℤ
  pub arg2 : Option ℤ
  pub contents : Payload
  pub user_obj : Option ℕ

-- A client's `tapi_async_function`, by a number; `none` is a null pointer.
abbrev pub Callback : Type 0
Callback = Option ℕ

-- `tapi_async_handler`
pub record Handler : Type 0 where
  pub block : ℕ
  pub result : Option AsyncResult
  pub cb_function : Callback

-- `enum dbus_proxy_type`, in order.
pub data ProxyType : Type 0 where
  modem radio call sim stk data_proxy sms cbs netreg netmon : ProxyType
  call_barring call_forwarding ss call_setting ims phonebook : ProxyType

-- `dbus_context`. A proxy is a number; `none` is a null pointer. The context's name and the
-- connection are only handed to the libraries.
pub record Context : Type 0 where
  pub dbus_proxy_manager : Option ℕ
  pub dbus_proxy : ℕ → ProxyType → Option ℕ
  pub modem_state : ℕ → ℤ
  pub client_ready : Bool
  pub logging_over_miwear_cb : Callback
