-- ===== src/Call/Protocol.antt =====
-- What each call request puts on the bus, as a table, and when it may.
use frameworks_connectivity.Common.{
  ℕ, ℤ, pos, String, CString, true, ◌≡◌, refl, sym, ap, ◌∙◌, List, [], ◌∷◌, Option, none, some,
}
use frameworks_connectivity.Utils.Modem.{Config, is_valid_slotid}
use frameworks_connectivity.Records.{Context, ProxyType, max_phone_number_length}
use frameworks_connectivity.Bus.Monad.{
  World, string_arg, path_arg, byte_arg, int_arg, array_arg, dial_call_callback, play_dtmf_callback,
  merge_call_complete, call_list_query_complete, UserData, Pending,
}
use frameworks_connectivity.Bus.Wire.{client_of, Wire, unanswered, answered}
use frameworks_connectivity.Call.Params.{truncate, hide_callerid_string}
use frameworks_connectivity.Utils.Modem.{slot_index}
use frameworks_connectivity.Call.Request.{is_valid_dtmf_char}
use frameworks_connectivity.Call.Control.{is_conference_size}
use frameworks_connectivity.Call.Sent.{CallRequest}

abbrev dialed_number : CString → CString
dialed_number none = none
dialed_number (some s) = some (truncate max_phone_number_length s)

abbrev pub wire : ℤ → CallRequest → Wire
wire slot_id (CallRequest.dial number hide event cb) =
    answered "Dial"
      (string_arg (dialed_number number) ∷ string_arg (some (hide_callerid_string hide)) ∷ [])
      dial_call_callback event slot_id cb
wire slot_id (CallRequest.start_dtmf digit event cb) =
    answered "PlayDtmf" (byte_arg digit ∷ int_arg (pos 1) ∷ []) play_dtmf_callback event slot_id cb
wire slot_id (CallRequest.stop_dtmf event cb) =
    answered "PlayDtmf" (byte_arg 0 ∷ int_arg (pos 2) ∷ []) play_dtmf_callback event slot_id cb
wire slot_id (CallRequest.get_all_calls event cb) =
    answered "GetCalls" [] call_list_query_complete event slot_id cb
wire slot_id (CallRequest.merge_call event cb) =
    answered "CreateMultiparty" [] merge_call_complete event slot_id cb
wire slot_id (CallRequest.separate_call event id cb) =
    answered "PrivateChat" (path_arg id ∷ []) merge_call_complete event slot_id cb
wire slot_id CallRequest.release_and_swap = unanswered "ReleaseAndSwap" []
wire slot_id CallRequest.release_and_answer = unanswered "ReleaseAndAnswer" []
wire slot_id CallRequest.hold_and_answer = unanswered "HoldAndAnswer" []
wire slot_id CallRequest.hold_call = unanswered "SwapCalls" []
wire slot_id CallRequest.unhold_call = unanswered "SwapCalls" []
wire slot_id CallRequest.transfer = unanswered "Transfer" []
wire slot_id CallRequest.hangup_all_calls = unanswered "HangupAll" []
wire slot_id CallRequest.hangup_multiparty = unanswered "HangupMultiparty" []
wire slot_id (CallRequest.send_tones tones) = unanswered "SendTones" (string_arg tones ∷ [])
wire slot_id (CallRequest.answer_by_id id) = unanswered "Answer" (path_arg id ∷ [])
wire slot_id (CallRequest.hangup_by_id id) = unanswered "Hangup" (path_arg id ∷ [])
wire slot_id (CallRequest.deflect_by_id id number) =
    unanswered "Deflect" (path_arg id ∷ string_arg number ∷ [])
wire slot_id (CallRequest.dial_conference people size) =
    unanswered "DialConference" (array_arg people ∷ [])
wire slot_id (CallRequest.invite_participants people size) =
    unanswered "InviteParticipants" (array_arg people ∷ [])

abbrev IsGiven : CString → Type 0
IsGiven s = (t : String) × (s ≡ some t)

-- The arguments that a request goes out with.
abbrev pub Allowed : CallRequest → Type 0
Allowed (CallRequest.dial number hide event cb) = IsGiven number
Allowed (CallRequest.start_dtmf digit event cb) = is_valid_dtmf_char digit ≡ true
Allowed (CallRequest.separate_call event id cb) = IsGiven id
Allowed (CallRequest.answer_by_id id) = IsGiven id
Allowed (CallRequest.hangup_by_id id) = IsGiven id
Allowed (CallRequest.deflect_by_id id number) = IsGiven id × IsGiven number
Allowed (CallRequest.dial_conference people size) = is_conference_size size ≡ true
Allowed (CallRequest.invite_participants people size) = is_conference_size size ≡ true
Allowed _ = Unit

-- The pending calls `ps` are one call more, which is what the table says.
pub record Issued (cfg : Config) (ctx : Option Context) (slot_id : ℤ) (r : CallRequest)
    (ps : List Pending) (n : ℕ) (w' : World) : Type 0 where
  pub returned : n ≡ 0
  pub allowed : Allowed r
  pub context : Context
  pub given : ctx ≡ some context
  pub valid : is_valid_slotid cfg slot_id ≡ true
  pub call : Pending
  pub pending : w'.pending ≡ call ∷ ps
  pub proxy : context.dbus_proxy (slot_index slot_id) ProxyType.call ≡ some call.proxy
  pub member : call.member ≡ (wire slot_id r).member
  pub args : call.args ≡ (wire slot_id r).args
  pub reply : call.reply ≡ (wire slot_id r).reply
  pub client : client_of call.user_data ≡ (wire slot_id r).client

module _ (cfg : Config) (ctx : Option Context) (slot_id : ℤ) (r : CallRequest) where
  pub issued :
      (c : Context) (proxy : ℕ) (data_ : UserData) (w w' : World) (p : Pending)
      → Allowed r
      → ctx ≡ some c
      → is_valid_slotid cfg slot_id ≡ true
      → c.dbus_proxy (slot_index slot_id) ProxyType.call ≡ some proxy
      → client_of data_ ≡ (wire slot_id r).client
      → w'.pending ≡ p ∷ w.pending
      → p ≡ record {
        proxy = proxy;
        member = (wire slot_id r).member;
        args = (wire slot_id r).args;
        reply = (wire slot_id r).reply;
        user_data = data_;
      }
      → Issued cfg ctx slot_id r w.pending 0 w'
  issued c proxy data_ w w' p allowed given valid found client pending e = record {
    returned = refl;
    allowed = allowed;
    context = c;
    given = given;
    valid = valid;
    call = p;
    pending = pending;
    proxy = found ∙ ap (λ (q : Pending). some q.proxy) (sym e);
    member = ap Pending.member e;
    args = ap Pending.args e;
    reply = ap Pending.reply e;
    client = ap (λ (q : Pending). client_of q.user_data) e ∙ client;
  }
