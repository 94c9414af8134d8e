-- ===== src/Sim/Replies.antt =====
-- tapi_sim.c: the functions that take the reply to a request.
use frameworks_connectivity.Common.{pos, length, Option, some, if◌then◌else◌}
use frameworks_connectivity.Records.{ok, error, Payload, Handler}
use frameworks_connectivity.Bus.Message.{Message, recurse, get_int, ◌>>=◌}
use frameworks_connectivity.Bus.Monad.{
  SimReply, method_call_complete, open_logical_channel_cb, transmit_apdu_cb,
}
use frameworks_connectivity.Bus.Client.{Reply, called, with_callback, is_fault}
use frameworks_connectivity.Manager.Replies.{with_arguments, answer, fixed_bytes}

unfoldable pub on_method_call_complete : Option Handler → Message → Reply
on_method_call_complete handler m =
    with_callback handler
      λ cb ar. called cb (record ar { status = some (if is_fault m then error else ok) })

unfoldable pub on_open_logical_channel : Option Handler → Message → Reply
on_open_logical_channel handler m = with_callback handler λ cb ar. with_arguments cb ar m (
    answer (
      get_int m.args >>= λ session_id.
      some (called cb (record ar { arg2 = some session_id; status = some ok }))))

unfoldable pub on_transmit_apdu : Option Handler → Message → Reply
on_transmit_apdu handler m = with_callback handler λ cb ar. with_arguments cb ar m (
    answer (
      recurse m.args >>= λ array. fixed_bytes array >>= λ response. some (
        called cb (record ar {
          contents = Payload.bytes response;
          arg2 = some (pos (length response));
          status = some ok;
        }))))

unfoldable pub run_sim_reply : SimReply → Option Handler → Message → Reply
run_sim_reply method_call_complete handler m = on_method_call_complete handler m
run_sim_reply open_logical_channel_cb handler m = on_open_logical_channel handler m
run_sim_reply transmit_apdu_cb handler m = on_transmit_apdu handler m
