-- ===== src/Ss/Requests.antt =====
-- tapi_ss.c: the requests about supplementary services.
use frameworks_connectivity.Common.{
  ℕ, leb, String, CString, Bool, true, false, ℤ, pos, ◌&&◌, ◌||◌, str_eq, List, [], ◌∷◌, Option,
  none, some, if◌then◌else◌,
}
use frameworks_connectivity.Utils.Modem.{Config}
use frameworks_connectivity.Utils.CallNames.{
  ClirStatus, clir_default, clir_disabled, clir_enabled, clir_status_to_string,
}
use frameworks_connectivity.Records.{
  Code, Payload, AsyncResult, Handler, Callback, ProxyType, Context,
}
use frameworks_connectivity.Bus.Monad.{
  M, ◌>>=◌, crash, malloc, free, Arg, Setup, string_arg, int_arg, variant_arg, SsReply, ss_reply,
  ss_method_call_complete, ss_initiate_complete, ss_send_ussd_cb, query_fdn_cb,
  query_call_waiting_cb, query_clir_cb, call_forwarding_query_complete,
}
use frameworks_connectivity.Bus.Request.{call_with_handler}
use frameworks_connectivity.Bus.Guards.{with_proxy, with_ready_proxy}
use frameworks_connectivity.Call.Params.{handler_contents}
use frameworks_connectivity.Manager.Requests.{is_given, result_for, int_or_none}
use frameworks_connectivity.Ss.Log.{report_data_logging_for_ss, call_reported, call_reported_owned}

abbrev text_args : Payload → List Arg
text_args (Payload.text s) = string_arg s ∷ []
text_args _ = []

-- The append functions of a request with one text, which is the data of its result:
-- `disable_all_cb_param_append`, `ss_initiate_param_append` and the like.
abbrev pub text_append : Handler → Setup
text_append h w = (text_args (handler_contents (some h)), w)

abbrev texts_args : Payload → List Arg
texts_args (Payload.texts_param p (key ∷ value ∷ pin2 ∷ [])) =
    string_arg key ∷ variant_arg (string_arg value) ∷ string_arg pin2 ∷ []
texts_args (Payload.texts_param p (old_passwd ∷ new_passwd ∷ [])) =
    string_arg old_passwd ∷ string_arg new_passwd ∷ []
texts_args _ = []

-- `cb_request_param_append`, of a parameter with three texts, and `cb_change_passwd_append`, of one
-- with two.
abbrev pub barring_append : Handler → Setup
barring_append h w = (texts_args (handler_contents (some h)), w)

-- `set_call_waiting_append`
abbrev pub second_append : Handler → Setup
second_append h w = (elim h.result [ none ↦ [] | some ar ↦ int_arg (int_or_none ar.arg2) ∷ [] ], w)

-- `query_call_forwarding_option_append`
abbrev pub query_append : Handler → Setup
query_append h w = (
  elim h.result [
    | none ↦ []
    | some ar ↦ int_arg (int_or_none ar.arg1) ∷ int_arg (int_or_none ar.arg2) ∷ []
  ],
  w,
)

abbrev number_of : Payload → CString
number_of (Payload.text s) = s
number_of _ = none

-- `set_call_forwarding_option_append`
abbrev pub forwarding_append : Handler → Setup
forwarding_append h w = (
  elim h.result [
    | none ↦ []
    | some ar ↦
        int_arg (int_or_none ar.arg1)
        ∷ int_arg (int_or_none ar.arg2)
        ∷ string_arg (number_of ar.contents)
        ∷ []
  ],
  w,
)

abbrev pub clir_code : ClirStatus → ℤ
clir_code clir_default = pos 0
clir_code clir_disabled = pos 1
clir_code clir_enabled = pos 2

-- `set_clir_append`, of the state that `arg2` holds.
abbrev pub clir_append : ClirStatus → Handler → Setup
clir_append state h w = (string_arg (clir_status_to_string state) ∷ [], w)

-- The table of `tapi_ss_set_call_barring_option`; `none` is the entry after its end.
unfoldable pub barring_value : String → CString
barring_value facility =
    if str_eq "AO" facility
    then some "all"
    else if str_eq "OI" facility
    then some "international"
    else if str_eq "OX" facility
    then some "internationalnothome"
    else if str_eq "AI" facility
    then some "always"
    else if str_eq "IR" facility
    then some "whenroaming"
    else none

abbrev pub barring_key : String → String
barring_key facility =
    if str_eq facility "AI" || str_eq facility "IR" then "VoiceIncoming" else "VoiceOutgoing"

-- `CF_REASON_UNCONDITIONAL` to `CF_REASON_NOT_REACHABLE`.
abbrev pub is_option : ℤ → Bool
is_option (pos n) = leb n 3
is_option _ = false

abbrev pub no_args : Handler → Setup
no_args h w = ([], w)

abbrev pub given_text : CString → String
given_text none = ""
given_text (some s) = s

abbrev crash_here : M Code
crash_here w = crash

module _ (cfg : Config) (ctx : Option Context) (slot_id event_id : ℤ) (p_handle : Callback) where
  abbrev pub failure : String → M (Unit {0})
  failure type = report_data_logging_for_ss cfg ctx type "dbus method fail"

  -- The report, the checks and the call, for a request without or with a check that the client is
  -- ready. The source repeats these lines in each request.
  unfoldable pub reported :
      Bool
      → String
      → Bool
      → ProxyType
      → String
      → (ℕ → AsyncResult)
      → (Handler → Setup)
      → SsReply
      → M Code
  reported needs_ready type allowed proxy_type member ar setup reply =
      report_data_logging_for_ss cfg ctx type "NA" >>= λ _.
      (if needs_ready then with_ready_proxy cfg ctx slot_id else with_proxy cfg ctx slot_id) allowed
        proxy_type
        λ proxy. call_reported (failure type) p_handle ar proxy member setup (ss_reply reply)

  abbrev pub with_text : CString → ℕ → AsyncResult
  with_text s a = record (result_for event_id slot_id a) { contents = Payload.text s }

  abbrev pub with_second : ℤ → ℕ → AsyncResult
  with_second n a = record (result_for event_id slot_id a) { arg2 = some n }

  unfoldable pub initiate_service : CString → M Code
  initiate_service command =
      reported false "ss:ussd:request" (is_given command) ProxyType.ss "Initiate"
        (with_text command) text_append ss_initiate_complete

  unfoldable pub request_call_barring : M Code
  request_call_barring =
      reported false "ss:request callbarring" true ProxyType.call_barring "GetProperties"
        (result_for event_id slot_id) no_args ss_method_call_complete

  abbrev pub barring_texts : String → String → CString → List CString
  barring_texts facility value pin2 = some (barring_key facility) ∷ some value ∷ pin2 ∷ []

  abbrev pub owned_texts : List CString → ℕ → ℕ → AsyncResult
  owned_texts l a p = record (result_for event_id slot_id a) { contents = Payload.texts_param p l }

  -- `tapi_ss_set_call_barring_option` once there is a proxy. A facility that the table does not have
  -- makes it read the entry after the end.
  unfoldable pub barring_call : String → CString → CString → ℕ → M Code
  barring_call facility none pin2 proxy = do
    h ← malloc (λ w. w)
    a ← malloc (free h)
    p ← malloc (λ w. free a (free h w))
    crash_here
  barring_call facility (some value) pin2 proxy =
      call_reported_owned (failure "ss:set callbarring") p_handle
        (owned_texts (barring_texts facility value pin2)) proxy "SetProperty" barring_append
        (ss_reply ss_method_call_complete)

  unfoldable pub set_call_barring_option : CString → CString → M Code
  set_call_barring_option facility pin2 =
      report_data_logging_for_ss cfg ctx "ss:set callbarring" "NA" >>= λ _.
      with_proxy cfg ctx slot_id (is_given facility && is_given pin2) ProxyType.call_barring
        (barring_call (given_text facility) (barring_value (given_text facility)) pin2)

  unfoldable pub change_call_barring_password : CString → CString → M Code
  change_call_barring_password old_passwd new_passwd =
      report_data_logging_for_ss cfg ctx "ss:set callbarring:change password" "NA" >>= λ _.
      with_proxy cfg ctx slot_id (is_given old_passwd && is_given new_passwd) ProxyType.call_barring
        λ proxy.
          call_reported_owned (failure "ss:set callbarring:change password") p_handle
            (owned_texts (old_passwd ∷ new_passwd ∷ [])) proxy "ChangePassword" barring_append
            (ss_reply ss_method_call_complete)

  unfoldable pub disable_all_call_barrings : CString → M Code
  disable_all_call_barrings passwd =
      reported false "ss:set callbarring:disable all" (is_given passwd) ProxyType.call_barring
        "DisableAll" (with_text passwd) text_append ss_method_call_complete

  unfoldable pub disable_all_incoming : CString → M Code
  disable_all_incoming passwd =
      reported false "ss:set callbarring:disable all incoming" (is_given passwd)
        ProxyType.call_barring "DisableAllIncoming" (with_text passwd) text_append
        ss_method_call_complete

  unfoldable pub disable_all_outgoing : CString → M Code
  disable_all_outgoing passwd =
      reported false "ss:set callbarring:disable all outgoing" (is_given passwd)
        ProxyType.call_barring "DisableAllOutgoing" (with_text passwd) text_append
        ss_method_call_complete

  -- The option stands where other requests put the slot.
  unfoldable pub query_call_forwarding_option : ℤ → ℤ → M Code
  query_call_forwarding_option option cls =
      reported false "ss:query call forwarding" (is_option option) ProxyType.call_forwarding
        "GetCallForwarding" (λ a. record (result_for event_id option a) { arg2 = some cls })
        query_append call_forwarding_query_complete

  unfoldable pub set_call_forwarding_option : ℤ → ℤ → CString → M Code
  set_call_forwarding_option option cls number =
      reported true "ss:set call forwarding" (is_given number && is_option option)
        ProxyType.call_forwarding "SetCallForwarding"
        (λ a. record (result_for event_id option a) {
          arg2 = some cls;
          contents = Payload.text number;
        })
        forwarding_append ss_method_call_complete

  unfoldable pub send_ussd : CString → M Code
  send_ussd reply =
      reported false "ss:ussd:response" (is_given reply) ProxyType.ss "Respond" (with_text reply)
        text_append ss_send_ussd_cb

  unfoldable pub cancel_ussd : M Code
  cancel_ussd =
      reported false "ss:ussd:cancel" true ProxyType.ss "Cancel" (result_for event_id slot_id)
        no_args ss_method_call_complete

  unfoldable pub set_call_waiting : Bool → M Code
  set_call_waiting enable =
      reported true "ss:set call waiting" true ProxyType.call_setting "SetCallWaiting"
        (with_second (if enable then pos 1 else pos 0)) second_append ss_method_call_complete

  unfoldable pub get_call_waiting : M Code
  get_call_waiting =
      reported true "ss:get call waiting" true ProxyType.call_setting "GetCallWaiting"
        (result_for event_id slot_id) no_args query_call_waiting_cb

  unfoldable pub set_calling_line_restriction : ClirStatus → M Code
  set_calling_line_restriction state =
      reported true "ss:set clir" true ProxyType.call_setting "SetClir"
        (with_second (clir_code state)) (clir_append state) ss_method_call_complete

  unfoldable pub get_calling_line_restriction_info : M Code
  get_calling_line_restriction_info =
      reported true "ss:get clir" true ProxyType.call_setting "GetClir"
        (result_for event_id slot_id) no_args query_clir_cb

  unfoldable pub enable_fdn : Bool → CString → M Code
  enable_fdn enable passwd = with_proxy cfg ctx slot_id (is_given passwd) ProxyType.sim λ proxy.
      call_with_handler (with_text passwd) p_handle proxy
        (if enable then "EnableFdn" else "DisableFdn") text_append
        (ss_reply ss_method_call_complete)

  unfoldable pub query_fdn : M Code
  query_fdn = with_proxy cfg ctx slot_id true ProxyType.sim λ proxy.
      call_with_handler (result_for event_id slot_id) p_handle proxy "QueryFdn" no_args
        (ss_reply query_fdn_cb)
