-- ===== src/Stk/Protocol.antt =====
-- What each request of the toolkit puts on the bus, as a table, and that the requests keep to it.
use frameworks_connectivity.Common.{ℕ, ℤ, String, CString, refl, List, [], ◌∷◌, Option}
use frameworks_connectivity.Utils.Modem.{Config}
use frameworks_connectivity.Records.{Code, Callback, ProxyType, Context}
use frameworks_connectivity.Bus.Monad.{World, M, Arg, path_arg, byte_arg, stk_method_call_complete}
use frameworks_connectivity.Bus.Issued.{Succeeds, non_null-Succeeds, require-Succeeds}
use frameworks_connectivity.Bus.Wire.{answered, Row, Sent}
use frameworks_connectivity.Bus.Guards.{with_proxy}
use frameworks_connectivity.Bus.SentRules.{IsGuard, with_proxy-IsGuard}
use frameworks_connectivity.Bus.WholeRules.{handler-Sent, owned-Sent}
use frameworks_connectivity.Manager.Requests.{is_given}
use frameworks_connectivity.Stk.Requests
use frameworks_connectivity.Stk.Requests.{default_agent}

-- The requests that tapi_stk.c makes.
pub data StkRequest : Type 0 where
  agent_register agent_unregister : CString → StkRequest
  default_agent_register default_agent_unregister : StkRequest
  select_item : ℕ → CString → StkRequest

module _ (slot_id event : ℤ) (cb : Callback) where
  abbrev of_agent : CString → String → List Arg → Row
  of_agent agent_id member args = record {
    type = ProxyType.stk;
    accepts = is_given agent_id;
    wire = answered member args stk_method_call_complete event slot_id cb;
  }

  abbrev pub row : StkRequest → Row
  row (StkRequest.agent_register agent_id) =
      of_agent agent_id "RegisterAgent" (path_arg agent_id ∷ [])
  row (StkRequest.agent_unregister agent_id) =
      of_agent agent_id "UnregisterAgent" (path_arg agent_id ∷ [])
  row StkRequest.default_agent_register =
      of_agent (default_agent slot_id) "RegisterAgent" (path_arg (default_agent slot_id) ∷ [])
  row StkRequest.default_agent_unregister =
      of_agent (default_agent slot_id) "UnregisterAgent" (path_arg (default_agent slot_id) ∷ [])
  row (StkRequest.select_item item agent_id) =
      of_agent agent_id "SelectItem" (byte_arg item ∷ path_arg agent_id ∷ [])

module _ (cfg : Config) (ctx : Option Context) (slot_id event : ℤ) (cb : Callback) where
  unfoldable pub send : StkRequest → M Code
  send (StkRequest.agent_register agent_id) =
      Requests.agent_register cfg ctx slot_id event cb agent_id
  send (StkRequest.agent_unregister agent_id) =
      Requests.agent_unregister cfg ctx slot_id event cb agent_id
  send StkRequest.default_agent_register = Requests.default_agent_register cfg ctx slot_id event cb
  send StkRequest.default_agent_unregister =
      Requests.default_agent_unregister cfg ctx slot_id event cb
  send (StkRequest.select_item item agent_id) =
      Requests.select_item cfg ctx slot_id event cb item agent_id

  any : IsGuard cfg ctx slot_id (with_proxy cfg ctx slot_id)
  any = with_proxy-IsGuard cfg ctx slot_id

  pub stk-Sent :
      (r : StkRequest) (w : World)
      → Succeeds (Sent cfg ctx slot_id (row slot_id event cb r) w.pending) (send r w)
  unfolding send Requests.agent_register Requests.agent_unregister Requests.select_item
      Requests.default_agent_register Requests.default_agent_unregister
  stk-Sent (StkRequest.agent_register agent_id) w =
      handler-Sent cfg ctx slot_id _ any _ w _ _ cb (λ h w'. refl) (λ a h w'. refl) λ a h. refl
  stk-Sent (StkRequest.agent_unregister agent_id) w =
      handler-Sent cfg ctx slot_id _ any _ w _ _ cb (λ h w'. refl) (λ a h w'. refl) λ a h. refl
  stk-Sent StkRequest.default_agent_register w = non_null-Succeeds _ _ w _ _ λ c given.
      require-Succeeds _ _ w _ _ λ valid.
        handler-Sent cfg ctx slot_id _ any _ w _ _ cb (λ h w'. refl) (λ a h w'. refl) λ a h. refl
  stk-Sent StkRequest.default_agent_unregister w = non_null-Succeeds _ _ w _ _ λ c given.
      require-Succeeds _ _ w _ _ λ valid.
        handler-Sent cfg ctx slot_id _ any _ w _ _ cb (λ h w'. refl) (λ a h w'. refl) λ a h. refl
  stk-Sent (StkRequest.select_item item agent_id) w =
      owned-Sent cfg ctx slot_id _ any _ w _ _ cb (λ a d h w'. refl) (λ a d h w'. refl)
        λ a d h. refl
