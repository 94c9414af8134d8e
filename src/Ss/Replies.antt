-- ===== src/Ss/Replies.antt =====
-- tapi_ss.c: the functions that take the reply to a request.
use frameworks_connectivity.Common.{
  ℕ, suc, leb, strlen, String, str_eq, if◌then◌else◌, Option, none, some, ◌∷◌,
}
use frameworks_connectivity.Records.{
  ok, Payload, AsyncResult, Handler, ForwardInfo, max_phone_number_length,
}
use frameworks_connectivity.Bus.Message.{
  Iter, end, item, Message, string, dict_entry, variant, iter_init, is_string, recurse, get_text,
  get_int, ◌>>=◌,
}
use frameworks_connectivity.Bus.Monad.{
  World, free, SsReply, ss_method_call_complete, ss_initiate_complete, ss_send_ussd_cb,
  query_fdn_cb, query_call_waiting_cb, query_clir_cb, call_forwarding_query_complete,
}
use frameworks_connectivity.Bus.Client.{
  Reply, undefined, quiet, called, with_callback, is_fault, failed,
}
use frameworks_connectivity.Manager.Replies.{with_arguments, answer}
use frameworks_connectivity.Sim.Replies.{on_method_call_complete}

-- `query_fdn_cb`, `query_call_waiting_cb` and `query_clir_cb`, which are the same code.
unfoldable pub on_query : Option Handler → Message → Reply
on_query handler m = with_callback handler λ cb ar. with_arguments cb ar m (
    answer
      (get_int m.args >>= λ n. some (called cb (record ar { arg2 = some n; status = some ok }))))

unfoldable pub on_send_ussd : Option Handler → Message → Reply
on_send_ussd handler m = with_callback handler λ cb ar. with_arguments cb ar m (
    if is_string m.args
    then answer (
        get_text m.args >>= λ response.
        some (called cb (record ar { contents = Payload.text (some response); status = some ok })))
    else failed cb ar)

-- `fill_cf_condition_info`, of a property: a number that is too long is left out.
unfoldable pub fill_cf_condition_info : String → Iter → ForwardInfo → Option ForwardInfo
fill_cf_condition_info prop value cf =
    if str_eq prop "Status"
    then (get_int value >>= λ n. some (record cf { status = some n }))
    else if str_eq prop "Cls"
    then (get_int value >>= λ n. some (record cf { cls = some n }))
    else if str_eq prop "Number"
    then (get_text value >>= λ s. some (
        if leb (strlen s) max_phone_number_length then record cf { phone_number = some s } else cf))
    else if str_eq prop "Time"
    then (get_int value >>= λ n. some (record cf { time = some n }))
    else some cf

-- The loop over the entries of the reply.
unfoldable pub fill_cf_conditions : Iter → ForwardInfo → Option ForwardInfo
unfolding fill_cf_condition_info
fill_cf_conditions (item (dict_entry k v) i) cf = get_text (item k end) >>= λ name.
    recurse (item v end) >>= λ value.
    fill_cf_condition_info name value cf >>= λ cf'. fill_cf_conditions i cf'
fill_cf_conditions _ cf = some cf

abbrev pub unset_forwarding : ForwardInfo
unset_forwarding = record { status = none; cls = none; phone_number = none; time = none }

abbrev pub forwarding_answer : ℕ → AsyncResult → Message → Reply
forwarding_answer cb ar m = with_arguments cb ar m (
    answer (
      recurse m.args >>= λ list. fill_cf_conditions list unset_forwarding >>= λ cf.
      some (called cb (record ar { status = some ok; contents = Payload.forwarding cf }))))

-- The answer to a USSD command: a string `USSD` and a variant with a string.
abbrev pub ussd_response : Iter → Option String
ussd_response (item (string name) (item (variant (string response)) i)) =
    if str_eq name "USSD" then some response else none
ussd_response _ = none

-- A block that is allocated, and freed again after the client is called.
abbrev pub lending : Reply → Reply → World → Reply × World
lending given refused w =
    if w.mallocs w.next
    then (given, free w.next (record w { next = suc w.next; live = w.next ∷ w.live }))
    else (refused, record w { next = suc w.next })

abbrev pub for_client :
    Option Handler → (ℕ → AsyncResult → World → Reply × World) → World → Reply × World
for_client handler f w = elim (with_callback handler called) [
  | undefined ↦ (undefined, w)
  | quiet ↦ (quiet, w)
  | called cb ar ↦ f cb ar w
]

-- `call_forwarding_query_complete`: the client is not called where there is no memory.
unfoldable pub on_call_forwarding : Option Handler → Message → World → Reply × World
on_call_forwarding handler m w =
    for_client handler (λ cb ar. lending (forwarding_answer cb ar m) quiet) w

abbrev pub initiate_answer : ℕ → AsyncResult → Option String → Reply
initiate_answer cb ar none = failed cb ar
initiate_answer cb ar (some response) =
    called cb (record ar { contents = Payload.ussd response; status = some ok })

-- `ss_initiate_complete` once the callback is known: without memory the client is told of an error.
abbrev pub initiating : Message → ℕ → AsyncResult → World → Reply × World
initiating m cb ar w =
    if is_fault m
    then (failed cb ar, w)
    else if iter_init m
    then lending (initiate_answer cb ar (ussd_response m.args)) (failed cb ar) w
    else (failed cb ar, w)

unfoldable pub on_initiate : Option Handler → Message → World → Reply × World
on_initiate handler m w = for_client handler (initiating m) w

unfoldable pub run_ss_reply : SsReply → Option Handler → Message → World → Reply × World
run_ss_reply ss_method_call_complete handler m w = (on_method_call_complete handler m, w)
run_ss_reply ss_initiate_complete handler m w = on_initiate handler m w
run_ss_reply ss_send_ussd_cb handler m w = (on_send_ussd handler m, w)
run_ss_reply query_fdn_cb handler m w = (on_query handler m, w)
run_ss_reply query_call_waiting_cb handler m w = (on_query handler m, w)
run_ss_reply query_clir_cb handler m w = (on_query handler m, w)
run_ss_reply call_forwarding_query_complete handler m w = on_call_forwarding handler m w
