-- ===== src/Bus/Wire.antt =====
-- What a request puts on the bus, and what is known when it reports success.
use frameworks_connectivity.Common.{ℕ, ℤ, String, Bool, true, ◌≡◌, List, ◌∷◌, Option, none, some}
use frameworks_connectivity.Utils.Modem.{Config, is_valid_slotid, slot_index}
use frameworks_connectivity.Records.{Callback, Context, ProxyType}
use frameworks_connectivity.Bus.Monad.{
  World, Arg, ReplyFunction, no_operate_callback, UserData, handler_free, data_free, Pending,
}

-- Who a reply is for: the message id, the slot and the callback of the request.
abbrev pub Client : Type 0
Client = Option ℤ × Option ℤ × Callback

abbrev pub client_of : UserData → Option Client
client_of (handler_free h) = elim h.result [
  | none ↦ none
  | some ar ↦ some (ar.msg_id, ar.arg1, h.cb_function)
]
client_of (data_free d h) = elim h.result [
  | none ↦ none
  | some ar ↦ some (ar.msg_id, ar.arg1, h.cb_function)
]
client_of _ = none

-- What goes on the bus: a method call, or the write of a property.
pub record Wire : Type 0 where
  pub member : String
  pub args : List Arg
  pub reply : ReplyFunction
  pub client : Option Client

abbrev pub unanswered : String → List Arg → Wire
unanswered member args = record {
  member = member;
  args = args;
  reply = no_operate_callback;
  client = none;
}

abbrev pub answered : String → List Arg → ReplyFunction → ℤ → ℤ → Callback → Wire
answered member args reply event slot_id cb = record {
  member = member;
  args = args;
  reply = reply;
  client = some (some event, some slot_id, cb);
}

-- The row of a request in the table of what goes on the bus: the type of the proxy it goes to, whether
-- its arguments are accepted, and what is sent.
pub record Row : Type 0 where
  pub type : ProxyType
  pub accepts : Bool
  pub wire : Wire

-- The request returned 0, its arguments are those that its row accepts, and the calls that are
-- pending are one more than `ps`: what the row says, to the slot's proxy of the row's type.
pub record Sent (cfg : Config) (ctx : Option Context) (slot_id : ℤ) (row : Row) (ps : List Pending)
    (n : ℕ) (w' : World) : Type 0 where
  pub returned : n ≡ 0
  pub accepted : row.accepts ≡ true
  pub context : Context
  pub given : ctx ≡ some context
  pub valid : is_valid_slotid cfg slot_id ≡ true
  pub call : Pending
  pub pending : w'.pending ≡ call ∷ ps
  pub proxy : context.dbus_proxy (slot_index slot_id) row.type ≡ some call.proxy
  pub member : call.member ≡ row.wire.member
  pub args : call.args ≡ row.wire.args
  pub reply : call.reply ≡ row.wire.reply
  pub client : client_of call.user_data ≡ row.wire.client
