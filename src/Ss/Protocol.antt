-- ===== src/Ss/Protocol.antt =====
-- What each request about supplementary services puts on the bus, as a table, and that the requests
-- keep to it.
use frameworks_connectivity.Common.{
  ℕ, ℤ, pos, ◌≡◌, refl, String, CString, Bool, true, false, ◌&&◌, List, [], ◌∷◌, Option, none, some,
  if◌then◌else◌,
}
use frameworks_connectivity.Utils.Modem.{Config}
use frameworks_connectivity.Utils.CallNames.{ClirStatus, clir_status_to_string}
use frameworks_connectivity.Records.{Code, AsyncResult, Handler, Callback, ProxyType, Context}
use frameworks_connectivity.Bus.Monad.{
  World, Step, M, Arg, string_arg, int_arg, variant_arg, Setup, SsReply, ss_reply, handler_free,
  ss_method_call_complete, ss_initiate_complete, ss_send_ussd_cb, query_call_waiting_cb,
  query_clir_cb, call_forwarding_query_complete,
}
use frameworks_connectivity.Bus.Issued.{Succeeds, malloc-Succeeds}
use frameworks_connectivity.Bus.Wire.{Client, client_of, Row, Sent}
use frameworks_connectivity.Bus.Request.{handler_of}
use frameworks_connectivity.Bus.Guards.{with_proxy}
use frameworks_connectivity.Bus.SentRules.{with_proxy-IsGuard, with_ready_proxy-IsGuard}
use frameworks_connectivity.Bus.WholeRules.{handler-Sent}
use frameworks_connectivity.Manager.Requests.{is_given}
use frameworks_connectivity.Ss.Rules.{
  ss_report-Quiet, reported-Sent, reported_owned-Sent, after_report,
}
use frameworks_connectivity.Ss.Requests
use frameworks_connectivity.Ss.Requests.{
  text_append, no_args, query_append, forwarding_append, second_append, clir_append, barring_append,
  is_option, barring_value, barring_key, given_text, reported, failure, barring_call,
}

-- The requests that tapi_ss.c makes.
pub data SsRequest : Type 0 where
  initiate_service send_ussd : CString → SsRequest
  disable_all_call_barrings disable_all_incoming disable_all_outgoing : CString → SsRequest
  request_call_barring cancel_ussd get_call_waiting : SsRequest
  get_calling_line_restriction_info query_fdn : SsRequest
  set_call_barring_option change_call_barring_password : CString → CString → SsRequest
  query_call_forwarding_option : ℤ → ℤ → SsRequest
  set_call_forwarding_option : ℤ → ℤ → CString → SsRequest
  set_call_waiting : Bool → SsRequest
  set_calling_line_restriction : ClirStatus → SsRequest
  enable_fdn : Bool → CString → SsRequest

module _ (slot_id event : ℤ) (cb : Callback) where
  abbrev to : ProxyType → Bool → String → List Arg → SsReply → Row
  to type accepts member args reply = record {
    type = type;
    accepts = accepts;
    wire = record {
      member = member;
      args = args;
      reply = ss_reply reply;
      client = some (some event, some slot_id, cb);
    };
  }

  -- The row of a call barring, by the value that the table has for its facility.
  abbrev barring_row : Bool → String → CString → CString → Row
  barring_row accepts facility value pin2 =
      to ProxyType.call_barring accepts "SetProperty"
        (string_arg (some (barring_key facility))
          ∷ variant_arg (string_arg value)
          ∷ string_arg pin2
          ∷ [])
        ss_method_call_complete

module _ (slot_id event : ℤ) (cb : Callback) where
  abbrev pub row : SsRequest → Row
  row (SsRequest.initiate_service command) =
      to slot_id event cb ProxyType.ss (is_given command) "Initiate" (string_arg command ∷ [])
        ss_initiate_complete
  row (SsRequest.send_ussd reply) =
      to slot_id event cb ProxyType.ss (is_given reply) "Respond" (string_arg reply ∷ [])
        ss_send_ussd_cb
  row (SsRequest.disable_all_call_barrings passwd) =
      to slot_id event cb ProxyType.call_barring (is_given passwd) "DisableAll"
        (string_arg passwd ∷ []) ss_method_call_complete
  row (SsRequest.disable_all_incoming passwd) =
      to slot_id event cb ProxyType.call_barring (is_given passwd) "DisableAllIncoming"
        (string_arg passwd ∷ []) ss_method_call_complete
  row (SsRequest.disable_all_outgoing passwd) =
      to slot_id event cb ProxyType.call_barring (is_given passwd) "DisableAllOutgoing"
        (string_arg passwd ∷ []) ss_method_call_complete
  row SsRequest.request_call_barring =
      to slot_id event cb ProxyType.call_barring true "GetProperties" [] ss_method_call_complete
  row SsRequest.cancel_ussd =
      to slot_id event cb ProxyType.ss true "Cancel" [] ss_method_call_complete
  row SsRequest.get_call_waiting =
      to slot_id event cb ProxyType.call_setting true "GetCallWaiting" [] query_call_waiting_cb
  row SsRequest.get_calling_line_restriction_info =
      to slot_id event cb ProxyType.call_setting true "GetClir" [] query_clir_cb
  row SsRequest.query_fdn =
      to slot_id event cb ProxyType.sim true "QueryFdn" [] SsReply.query_fdn_cb
  row (SsRequest.set_call_barring_option facility pin2) =
      barring_row slot_id event cb (is_given facility && is_given pin2) (given_text facility)
        (barring_value (given_text facility)) pin2
  row (SsRequest.change_call_barring_password old_passwd new_passwd) =
      to slot_id event cb ProxyType.call_barring (is_given old_passwd && is_given new_passwd)
        "ChangePassword" (string_arg old_passwd ∷ string_arg new_passwd ∷ [])
        ss_method_call_complete
  row (SsRequest.query_call_forwarding_option option cls) =
      to option event cb ProxyType.call_forwarding (is_option option) "GetCallForwarding"
        (int_arg option ∷ int_arg cls ∷ []) call_forwarding_query_complete
  row (SsRequest.set_call_forwarding_option option cls number) =
      to option event cb ProxyType.call_forwarding (is_given number && is_option option)
        "SetCallForwarding" (int_arg option ∷ int_arg cls ∷ string_arg number ∷ [])
        ss_method_call_complete
  row (SsRequest.set_call_waiting enable) =
      to slot_id event cb ProxyType.call_setting true "SetCallWaiting"
        (int_arg (if enable then pos 1 else pos 0) ∷ []) ss_method_call_complete
  row (SsRequest.set_calling_line_restriction state) =
      to slot_id event cb ProxyType.call_setting true "SetClir"
        (string_arg (clir_status_to_string state) ∷ []) ss_method_call_complete
  row (SsRequest.enable_fdn enable passwd) =
      to slot_id event cb ProxyType.sim (is_given passwd)
        (if enable then "EnableFdn" else "DisableFdn") (string_arg passwd ∷ [])
        ss_method_call_complete

module _ (cfg : Config) (ctx : Option Context) (slot_id event : ℤ) (cb : Callback) where
  unfoldable pub send : SsRequest → M Code
  send (SsRequest.initiate_service command) =
      Requests.initiate_service cfg ctx slot_id event cb command
  send (SsRequest.send_ussd reply) = Requests.send_ussd cfg ctx slot_id event cb reply
  send (SsRequest.disable_all_call_barrings passwd) =
      Requests.disable_all_call_barrings cfg ctx slot_id event cb passwd
  send (SsRequest.disable_all_incoming passwd) =
      Requests.disable_all_incoming cfg ctx slot_id event cb passwd
  send (SsRequest.disable_all_outgoing passwd) =
      Requests.disable_all_outgoing cfg ctx slot_id event cb passwd
  send SsRequest.request_call_barring = Requests.request_call_barring cfg ctx slot_id event cb
  send SsRequest.cancel_ussd = Requests.cancel_ussd cfg ctx slot_id event cb
  send SsRequest.get_call_waiting = Requests.get_call_waiting cfg ctx slot_id event cb
  send SsRequest.get_calling_line_restriction_info =
      Requests.get_calling_line_restriction_info cfg ctx slot_id event cb
  send SsRequest.query_fdn = Requests.query_fdn cfg ctx slot_id event cb
  send (SsRequest.set_call_barring_option facility pin2) =
      Requests.set_call_barring_option cfg ctx slot_id event cb facility pin2
  send (SsRequest.change_call_barring_password old_passwd new_passwd) =
      Requests.change_call_barring_password cfg ctx slot_id event cb old_passwd new_passwd
  send (SsRequest.query_call_forwarding_option option cls) =
      Requests.query_call_forwarding_option cfg ctx slot_id event cb option cls
  send (SsRequest.set_call_forwarding_option option cls number) =
      Requests.set_call_forwarding_option cfg ctx slot_id event cb option cls number
  send (SsRequest.set_call_waiting enable) =
      Requests.set_call_waiting cfg ctx slot_id event cb enable
  send (SsRequest.set_calling_line_restriction state) =
      Requests.set_calling_line_restriction cfg ctx slot_id event cb state
  send (SsRequest.enable_fdn enable passwd) =
      Requests.enable_fdn cfg ctx slot_id event cb enable passwd

  abbrev Keeps : Row → (World → Step Code) → World → Type 0
  Keeps row request w = Succeeds (Sent cfg ctx slot_id row w.pending) (request w)

  -- A request that begins with a report, with or without the check that the client is ready.
  reported-Keeps :
      (needs_ready : Bool) (line : String) (type : ProxyType) (allowed : Bool) (member : String)
      (args : List Arg) (reply : SsReply) (told : Option Client) (ar : ℕ → AsyncResult)
      (setup : Handler → Setup)
      → ((h : Handler) (w' : World) → (setup h w').1.pending ≡ w'.pending)
      → ((a h : ℕ) (w' : World) → (setup (handler_of (ar a) cb h) w').0 ≡ args)
      → ((a h : ℕ) → client_of (handler_free (handler_of (ar a) cb h)) ≡ told)
      → (w : World)
      → Keeps
          (record {
            type = type;
            accepts = allowed;
            wire = record { member = member; args = args; reply = ss_reply reply; client = told };
          })
          (reported cfg ctx slot_id event cb needs_ready line allowed type member ar setup reply)
          w
  unfolding reported
  reported-Keeps true line type allowed member args reply told ar setup kept appended known w =
      after_report cfg ctx slot_id _ line "NA" _ w λ w'.
        reported-Sent cfg ctx slot_id _ (with_ready_proxy-IsGuard cfg ctx slot_id) _ w' _
          (ss_report-Quiet cfg ctx line "dbus method fail") setup cb kept ar appended known
  reported-Keeps false line type allowed member args reply told ar setup kept appended known w =
      after_report cfg ctx slot_id _ line "NA" _ w λ w'.
        reported-Sent cfg ctx slot_id _ (with_proxy-IsGuard cfg ctx slot_id) _ w' _
          (ss_report-Quiet cfg ctx line "dbus method fail") setup cb kept ar appended known

  barring-Keeps :
      (accepts : Bool) (facility : String) (value pin2 : CString) (w : World)
      → Keeps
          (barring_row slot_id event cb accepts facility value pin2)
          (with_proxy cfg ctx slot_id accepts ProxyType.call_barring
            (barring_call cfg ctx slot_id event cb facility value pin2))
          w
  unfolding barring_call
  barring-Keeps accepts facility none pin2 w =
      with_proxy-IsGuard cfg ctx slot_id _ _ _ _ w λ c proxy given valid ok found.
        malloc-Succeeds _ _ w _
          λ h w₁ e₁. malloc-Succeeds _ _ w₁ _ λ a w₂ e₂. malloc-Succeeds _ _ w₂ _ λ d w₃ e₃. tt
  barring-Keeps accepts facility (some value) pin2 w =
      reported_owned-Sent cfg ctx slot_id _ (with_proxy-IsGuard cfg ctx slot_id) _ w _
        (ss_report-Quiet cfg ctx "ss:set callbarring" "dbus method fail") barring_append cb
        (λ h w'. refl) _ (λ a d h w'. refl) λ a d h. refl

  pub ss-Sent : (r : SsRequest) (w : World) → Keeps (row slot_id event cb r) (send r) w
  unfolding send Requests.initiate_service Requests.send_ussd Requests.disable_all_call_barrings
      Requests.disable_all_incoming Requests.disable_all_outgoing Requests.request_call_barring
      Requests.cancel_ussd Requests.get_call_waiting Requests.get_calling_line_restriction_info
      Requests.query_fdn Requests.set_call_barring_option Requests.change_call_barring_password
      Requests.query_call_forwarding_option Requests.set_call_forwarding_option
      Requests.set_call_waiting Requests.set_calling_line_restriction Requests.enable_fdn
  ss-Sent (SsRequest.initiate_service command) w =
      reported-Keeps false _ _ _ _ _ _ _ _ text_append (λ h w'. refl) (λ a h w'. refl) (λ a h. refl)
        w
  ss-Sent (SsRequest.send_ussd reply) w =
      reported-Keeps false _ _ _ _ _ _ _ _ text_append (λ h w'. refl) (λ a h w'. refl) (λ a h. refl)
        w
  ss-Sent (SsRequest.disable_all_call_barrings passwd) w =
      reported-Keeps false _ _ _ _ _ _ _ _ text_append (λ h w'. refl) (λ a h w'. refl) (λ a h. refl)
        w
  ss-Sent (SsRequest.disable_all_incoming passwd) w =
      reported-Keeps false _ _ _ _ _ _ _ _ text_append (λ h w'. refl) (λ a h w'. refl) (λ a h. refl)
        w
  ss-Sent (SsRequest.disable_all_outgoing passwd) w =
      reported-Keeps false _ _ _ _ _ _ _ _ text_append (λ h w'. refl) (λ a h w'. refl) (λ a h. refl)
        w
  ss-Sent SsRequest.request_call_barring w =
      reported-Keeps false _ _ _ _ _ _ _ _ no_args (λ h w'. refl) (λ a h w'. refl) (λ a h. refl) w
  ss-Sent SsRequest.cancel_ussd w =
      reported-Keeps false _ _ _ _ _ _ _ _ no_args (λ h w'. refl) (λ a h w'. refl) (λ a h. refl) w
  ss-Sent SsRequest.get_call_waiting w =
      reported-Keeps true _ _ _ _ _ _ _ _ no_args (λ h w'. refl) (λ a h w'. refl) (λ a h. refl) w
  ss-Sent SsRequest.get_calling_line_restriction_info w =
      reported-Keeps true _ _ _ _ _ _ _ _ no_args (λ h w'. refl) (λ a h w'. refl) (λ a h. refl) w
  ss-Sent SsRequest.query_fdn w =
      handler-Sent cfg ctx slot_id _ (with_proxy-IsGuard cfg ctx slot_id) _ w _ _ cb (λ h w'. refl)
        (λ a h w'. refl) λ a h. refl
  ss-Sent (SsRequest.set_call_barring_option facility pin2) w =
      after_report cfg ctx slot_id _ "ss:set callbarring" "NA" _ w λ w'.
        barring-Keeps (is_given facility && is_given pin2) (given_text facility)
          (barring_value (given_text facility)) pin2 w'
  ss-Sent (SsRequest.change_call_barring_password old_passwd new_passwd) w =
      after_report cfg ctx slot_id _ "ss:set callbarring:change password" "NA" _ w λ w'.
        reported_owned-Sent cfg ctx slot_id _ (with_proxy-IsGuard cfg ctx slot_id) _ w' _
          (ss_report-Quiet cfg ctx "ss:set callbarring:change password" "dbus method fail")
          barring_append cb (λ h w'. refl) _ (λ a d h w'. refl) λ a d h. refl
  ss-Sent (SsRequest.query_call_forwarding_option option cls) w =
      reported-Keeps false _ _ _ _ _ _ _ _ query_append (λ h w'. refl) (λ a h w'. refl)
        (λ a h. refl) w
  ss-Sent (SsRequest.set_call_forwarding_option option cls number) w =
      reported-Keeps true _ _ _ _ _ _ _ _ forwarding_append (λ h w'. refl) (λ a h w'. refl)
        (λ a h. refl) w
  ss-Sent (SsRequest.set_call_waiting enable) w =
      reported-Keeps true _ _ _ _ _ _ _ _ second_append (λ h w'. refl) (λ a h w'. refl)
        (λ a h. refl) w
  ss-Sent (SsRequest.set_calling_line_restriction state) w =
      reported-Keeps true _ _ _ _ _ _ _ _ (clir_append state) (λ h w'. refl) (λ a h w'. refl)
        (λ a h. refl) w
  ss-Sent (SsRequest.enable_fdn enable passwd) w =
      handler-Sent cfg ctx slot_id _ (with_proxy-IsGuard cfg ctx slot_id) _ w _ _ cb (λ h w'. refl)
        (λ a h w'. refl) λ a h. refl
