-- ===== src/Stk/Requests.antt =====
-- tapi_stk.c: the requests that register an agent and select an item.
use frameworks_connectivity.Common.{
  ℕ, CString, ℤ, pos, is_eq, List, [], ◌∷◌, Option, none, some, if◌then◌else◌,
}
use frameworks_connectivity.Utils.Modem.{Config, is_valid_slotid}
use frameworks_connectivity.Records.{
  einval, Code, Payload, AsyncResult, Handler, Callback, ProxyType, Context,
}
use frameworks_connectivity.Bus.Monad.{
  M, ◌>>=◌, ◌>>◌, require, non_null, Setup, Arg, path_arg, byte_arg, stk_method_call_complete,
}
use frameworks_connectivity.Bus.Request.{call_with_handler, call_with_owned}
use frameworks_connectivity.Bus.Guards.{with_proxy}
use frameworks_connectivity.Call.Params.{handler_contents}
use frameworks_connectivity.Manager.Requests.{is_given, result_for}

abbrev stk_args : Payload → List Arg
stk_args (Payload.text agent_id) = path_arg agent_id ∷ []
stk_args (Payload.select_item_param p item agent_id) = byte_arg item ∷ path_arg agent_id ∷ []
stk_args _ = []

-- `stk_agent_register_param_append` and `stk_select_item_param_append`.
abbrev pub stk_append : Handler → Setup
stk_append h w = (stk_args (handler_contents (some h)), w)

-- STK_AGENT_DEFAULT_ID_0 and STK_AGENT_DEFAULT_ID_1.
abbrev pub default_agent : ℤ → CString
default_agent slot_id =
    if is_eq slot_id (pos 0)
    then some "/stk_agent_default_0"
    else if is_eq slot_id (pos 1)
    then some "/stk_agent_default_1"
    else none

module _ (cfg : Config) (ctx : Option Context) (slot_id event_id : ℤ) (p_handle : Callback) where
  abbrev with_agent : CString → ℕ → AsyncResult
  with_agent agent_id a = record (result_for event_id slot_id a) {
    contents = Payload.text agent_id;
  }

  unfoldable pub agent_register : CString → M Code
  agent_register agent_id = with_proxy cfg ctx slot_id (is_given agent_id) ProxyType.stk λ proxy.
      call_with_handler (with_agent agent_id) p_handle proxy "RegisterAgent" stk_append
        stk_method_call_complete

  unfoldable pub agent_unregister : CString → M Code
  agent_unregister agent_id = with_proxy cfg ctx slot_id (is_given agent_id) ProxyType.stk λ proxy.
      call_with_handler (with_agent agent_id) p_handle proxy "UnregisterAgent" stk_append
        stk_method_call_complete

  unfoldable pub default_agent_register : M Code
  unfolding agent_register
  default_agent_register = do
    c ← non_null ctx einval
    require (is_valid_slotid cfg slot_id) einval
    agent_register (default_agent slot_id)

  unfoldable pub default_agent_unregister : M Code
  unfolding agent_unregister
  default_agent_unregister = do
    c ← non_null ctx einval
    require (is_valid_slotid cfg slot_id) einval
    agent_unregister (default_agent slot_id)

  unfoldable pub select_item : ℕ → CString → M Code
  select_item item agent_id = with_proxy cfg ctx slot_id (is_given agent_id) ProxyType.stk λ proxy.
      call_with_owned
        (λ a p. record (result_for event_id slot_id a) {
          contents = Payload.select_item_param p item agent_id;
        })
        p_handle proxy "SelectItem" stk_append stk_method_call_complete
