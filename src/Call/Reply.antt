-- ===== src/Call/Reply.antt =====
-- tapi_call.c: the functions that take the reply to a request, and the end of a pending call.
use frameworks_connectivity.Common.{
  pos, str_eq, if◌then◌else◌, Option, none, some, List, [], length,
}
use frameworks_connectivity.Records.{ok, error, Payload, Handler, CallInfo}
use frameworks_connectivity.Bus.Message.{
  Iter, Message, iter_init, recurse, get_text, is_object_path,
}
use frameworks_connectivity.Bus.Monad.{
  World, ReplyFunction, no_operate_callback, dial_call_callback, play_dtmf_callback,
  merge_call_complete, call_list_query_complete, manager_reply, sim_reply, ss_reply, network_reply,
  phonebook_reply, data_free, UserData, keep, handler_free, free_block, Pending, free,
  handler_release,
}
use frameworks_connectivity.Bus.Client.{
  Reply, undefined, quiet, called, with_callback, is_fault, failed, property_set_done,
}
use frameworks_connectivity.Bus.Request.{data_release}
use frameworks_connectivity.Manager.Replies.{run_manager_reply}
use frameworks_connectivity.Network.Replies.{run_network_reply}
use frameworks_connectivity.Phonebook.Replies.{run_phonebook_reply}
use frameworks_connectivity.Ss.Replies.{run_ss_reply}
use frameworks_connectivity.Sim.Replies.{on_method_call_complete, run_sim_reply}
use frameworks_connectivity.Call.Decode.{decode_calls, merge_paths}

-- `status` keeps what it held where the reply carries no path.
unfoldable pub on_dial : Option Handler → Message → Reply
on_dial handler m = with_callback handler λ cb ar.
    if is_fault m
    then failed cb ar
    else if iter_init m
    then if is_object_path m.args
      then elim (get_text m.args) [
        | none ↦ undefined
        | some id ↦ called cb (record ar { contents = Payload.text (some id); status = some ok })
      ]
      else called cb ar
    else failed cb ar

unfoldable pub on_play_dtmf : Option Handler → Message → Reply
on_play_dtmf handler m =
    with_callback handler
      λ cb ar. called cb (record ar { status = some (if is_fault m then error else ok) })

unfoldable pub on_merge : Option Handler → Message → Reply
on_merge handler m = with_callback handler λ cb ar.
    if is_fault m
    then failed cb ar
    else if str_eq m.signature "ao"
    then if iter_init m
      then elim (recurse m.args) [
        | none ↦ undefined
        | some list ↦
            let call_path_list = merge_paths 0 list in
            called cb (record ar {
              contents = Payload.paths call_path_list;
              status = some ok;
              arg2 = some (pos (length call_path_list));
            })
      ]
      else failed cb ar
    else failed cb ar

-- The calls of the list, from the loop over it.
abbrev pub list_of_calls : Iter → Option (List CallInfo)
list_of_calls i = elim (recurse i) [ none ↦ none | some list ↦ decode_calls list [] ]

unfoldable pub on_call_list : Option Handler → Message → Reply
on_call_list handler m = with_callback handler λ cb ar.
    if is_fault m
    then failed cb ar
    else if str_eq m.signature "a(oa{sv})"
    then if iter_init m
      then elim (list_of_calls m.args) [
        | none ↦ undefined
        | some call_list ↦ called cb (record ar {
          arg2 = some (pos (length call_list));
          status = some ok;
          contents = Payload.calls call_list;
        })
      ]
      else failed cb ar
    else failed cb ar

abbrev pub handler_in : UserData → Option Handler
handler_in (handler_free h) = some h
handler_in (data_free d h) = some h
handler_in _ = none

unfoldable pub run_reply : ReplyFunction → Option Handler → Message → World → Reply × World
run_reply no_operate_callback handler m w = (quiet, w)
run_reply dial_call_callback handler m w = (on_dial handler m, w)
run_reply play_dtmf_callback handler m w = (on_play_dtmf handler m, w)
run_reply merge_call_complete handler m w = (on_merge handler m, w)
run_reply call_list_query_complete handler m w = (on_call_list handler m, w)
run_reply ReplyFunction.property_set_done handler m w = (property_set_done handler m.fault, w)
run_reply (manager_reply f) handler m w = run_manager_reply f handler m w
run_reply (sim_reply f) handler m w = (run_sim_reply f handler m, w)
run_reply (network_reply f) handler m w = run_network_reply f handler m w
run_reply (phonebook_reply f) handler m w = (run_phonebook_reply f handler m, w)
run_reply ReplyFunction.stk_method_call_complete handler m w =
    (on_method_call_complete handler m, w)
run_reply (ss_reply f) handler m w = run_ss_reply f handler m w

unfoldable pub destroy : UserData → World → World
destroy keep w = w
destroy (handler_free h) w = handler_release (some h) w
destroy (free_block p) w = free p w
destroy (data_free d h) w = data_release d h w

-- The end of a pending call: gdbus runs its reply function once, and then its destroy function.
unfoldable pub complete : Pending → Message → World → Reply × World
unfolding run_reply destroy
complete p m w =
    let (reply, w') = run_reply p.reply (handler_in p.user_data) m w in
    (reply, destroy p.user_data w')
