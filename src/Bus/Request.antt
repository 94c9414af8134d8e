-- ===== src/Bus/Request.antt =====
-- The two ways in which requests allocate what they hand to gdbus. The source repeats these lines
-- in each request.
use frameworks_connectivity.Common.{ℕ, String, some}
use frameworks_connectivity.Records.{Code, ret, AsyncResult, Handler, Callback}
use frameworks_connectivity.Bus.Monad.{
  Arg, M, ◌>>=◌, ◌>>◌, returns, free, malloc, handler_release, Setup, ReplyFunction, method_call,
  or_fail, releasing, handler_free, data_free, keep, World, write_property, property_set_done,
  no_operate_callback,
}

-- A handler `h` for the result `ar`.
abbrev pub handler_of : AsyncResult → Callback → ℕ → Handler
handler_of ar p_handle h = record { block = h; result = some ar; cb_function = p_handle }

module _ (ar : ℕ → AsyncResult) (p_handle : Callback) (proxy : ℕ) (member : String)
    (setup : Handler → Setup) (reply : ReplyFunction) (cleanup : Handler → M (Unit {0})) where
  -- `ar = malloc(…); handler = malloc(…); if (!g_dbus_proxy_method_call(…)) { cleanup; return -EINVAL; }
  -- return OK;`
  unfoldable pub call_with_result : M Code
  call_with_result = do
    a ← malloc (λ w. w)
    h ← malloc (free a)
    done ←
        method_call proxy member (setup (handler_of (ar a) p_handle h)) reply
          (handler_free (handler_of (ar a) p_handle h))
    or_fail done (cleanup (handler_of (ar a) p_handle h))
    returns (ret 0)

  -- The same where the parameter `p` of the call is allocated already, and is freed on each error.
  unfoldable pub call_with_param : ℕ → M Code
  call_with_param p = do
    a ← malloc (free p)
    h ← malloc (λ w. free a (free p w))
    done ←
        method_call proxy member (setup (handler_of (ar a) p_handle h)) reply
          (handler_free (handler_of (ar a) p_handle h))
    or_fail done (cleanup (handler_of (ar a) p_handle h))
    returns (ret 0)

-- The same where the handler is allocated before the result.
module _ (ar : ℕ → AsyncResult) (p_handle : Callback) where
  module _ (proxy : ℕ) (member : String) (setup : Handler → Setup) (reply : ReplyFunction) where
    unfoldable pub call_with_handler : M Code
    call_with_handler = do
      h ← malloc (λ w. w)
      a ← malloc (free h)
      done ←
          method_call proxy member (setup (handler_of (ar a) p_handle h)) reply
            (handler_free (handler_of (ar a) p_handle h))
      or_fail done (releasing (handler_release (some (handler_of (ar a) p_handle h))))
      returns (ret 0)

  -- The same for a write of a property, whose reply function is `property_set_done`.
  unfoldable pub write_with_handler : ℕ → String → Arg → M Code
  write_with_handler proxy name value = do
    h ← malloc (λ w. w)
    a ← malloc (free h)
    done ←
        write_property proxy name value property_set_done
          (handler_free (handler_of (ar a) p_handle h))
    or_fail done (releasing (handler_release (some (handler_of (ar a) p_handle h))))
    returns (ret 0)

-- Calls and writes that allocate nothing.
unfoldable pub call_without_handler : ℕ → String → Setup → M Code
call_without_handler proxy member setup = do
  done ← method_call proxy member setup no_operate_callback keep
  or_fail done (releasing (λ w. w))
  returns (ret 0)

unfoldable pub write_without_handler : ℕ → String → Arg → M Code
write_without_handler proxy name value = do
  done ← write_property proxy name value no_operate_callback keep
  or_fail done (releasing (λ w. w))
  returns (ret 0)

-- A handler, a result, and the data `d` of the call, which the setup function frees and which is
-- freed where the call fails.
module _ (ar : ℕ → ℕ → AsyncResult) (p_handle : Callback) where
  unfoldable pub call_with_data : ℕ → String → (Handler → Setup) → ReplyFunction → M Code
  call_with_data proxy member setup reply = do
    h ← malloc (λ w. w)
    a ← malloc (free h)
    d ← malloc (λ w. free a (free h w))
    done ←
        method_call proxy member (setup (handler_of (ar a d) p_handle h)) reply
          (handler_free (handler_of (ar a d) p_handle h))
    or_fail done
        (releasing (λ w. free d (handler_release (some (handler_of (ar a d) p_handle h)) w)))
    returns (ret 0)

-- `sim_event_data_free`, of a handler whose result has the data `d`.
unfoldable pub data_release : ℕ → Handler → World → World
unfolding handler_release free
data_release d h w = handler_release (some h) (free d w)

-- The parameter, the result and the handler of a call, which are freed together when it ends.
module _ (ar : ℕ → ℕ → AsyncResult) (p_handle : Callback) where
  unfoldable pub call_with_owned : ℕ → String → (Handler → Setup) → ReplyFunction → M Code
  unfolding data_release
  call_with_owned proxy member setup reply = do
    p ← malloc (λ w. w)
    a ← malloc (free p)
    h ← malloc (λ w. free a (free p w))
    done ←
        method_call proxy member (setup (handler_of (ar a p) p_handle h)) reply
          (data_free p (handler_of (ar a p) p_handle h))
    or_fail done (releasing (data_release p (handler_of (ar a p) p_handle h)))
    returns (ret 0)
