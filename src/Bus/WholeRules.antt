-- ===== src/Bus/WholeRules.antt =====
-- Rules for what a request has sent, from its checks to its result.
use frameworks_connectivity.Common.{ℕ, ℤ, ◌≡◌, Bool, [], ◌∷◌, Option, none, some}
use frameworks_connectivity.Utils.Modem.{Config}
use frameworks_connectivity.Records.{Code, AsyncResult, Handler, Callback, ProxyType, Context}
use frameworks_connectivity.Bus.Monad.{
  World, M, ◌>>=◌, Arg, written, free, handler_release, Setup, no_operate_callback,
  property_set_done, handler_free, data_free, malloc, releasing,
}
use frameworks_connectivity.Bus.Request.{
  handler_of, call_with_result, call_with_handler, write_with_handler, call_with_data,
  call_with_param, call_with_owned, call_without_handler, write_without_handler,
}
use frameworks_connectivity.Bus.Wire.{Row, client_of, Sent}
use frameworks_connectivity.Bus.Issued.{Succeeds}
use frameworks_connectivity.Bus.SentRules.{
  IsGuard, call_with_handler-Sent, call_with_result-Sent, call_with_data-Sent, call_with_param-Sent,
  call_with_owned-Sent, call_without_handler-Sent, write_with_handler-Sent,
  write_without_handler-Sent,
}

-- A request whole: its checks, and then one of the shapes.
module _ (cfg : Config) (ctx : Option Context) (slot_id : ℤ)
    (guard : Bool → ProxyType → (ℕ → M Code) → M Code) (safe : IsGuard cfg ctx slot_id guard)
    (row : Row) (w : World) where
  abbrev Whole : (ℕ → M Code) → Type 0
  Whole request =
      Succeeds (Sent cfg ctx slot_id row w.pending) (guard row.accepts row.type request w)

  pub handler-Sent :
      (setup : Handler → Setup) (ar : ℕ → AsyncResult) (cb : Callback)
      → ((h : Handler) (w' : World) → (setup h w').1.pending ≡ w'.pending)
      → ((a h : ℕ) (w' : World) → (setup (handler_of (ar a) cb h) w').0 ≡ row.wire.args)
      → ((a h : ℕ) → client_of (handler_free (handler_of (ar a) cb h)) ≡ row.wire.client)
      → Whole (λ proxy. call_with_handler ar cb proxy row.wire.member setup row.wire.reply)
  handler-Sent setup ar cb kept appended told = safe _ _ _ _ w λ c proxy given valid ok found.
      call_with_handler-Sent cfg ctx slot_id row w c proxy given valid ok found setup kept ar cb
        appended told

  pub result-Sent :
      (setup : Handler → Setup) (ar : ℕ → AsyncResult) (cb : Callback)
      → ((h : Handler) (w' : World) → (setup h w').1.pending ≡ w'.pending)
      → ((a h : ℕ) (w' : World) → (setup (handler_of (ar a) cb h) w').0 ≡ row.wire.args)
      → ((a h : ℕ) → client_of (handler_free (handler_of (ar a) cb h)) ≡ row.wire.client)
      → Whole (λ proxy.
        call_with_result ar cb proxy row.wire.member setup row.wire.reply
          (λ handler. releasing (handler_release (some handler))))
  result-Sent setup ar cb kept appended told = safe _ _ _ _ w λ c proxy given valid ok found.
      call_with_result-Sent cfg ctx slot_id row w c proxy given valid ok found setup kept ar cb
        appended told

  pub data-Sent :
      (setup : Handler → Setup) (ar : ℕ → ℕ → AsyncResult) (cb : Callback)
      → ((a d h : ℕ) (w' : World) → (setup (handler_of (ar a d) cb h) w').1.pending ≡ w'.pending)
      → ((a d h : ℕ) (w' : World) → (setup (handler_of (ar a d) cb h) w').0 ≡ row.wire.args)
      → ((a d h : ℕ) → client_of (handler_free (handler_of (ar a d) cb h)) ≡ row.wire.client)
      → Whole (λ proxy. call_with_data ar cb proxy row.wire.member setup row.wire.reply)
  data-Sent setup ar cb kept appended told = safe _ _ _ _ w λ c proxy given valid ok found.
      call_with_data-Sent cfg ctx slot_id row w c proxy given valid ok found setup ar cb kept
        appended told

  pub plain-Sent :
      (setup : Setup)
      → ((w' : World) → (setup w').1.pending ≡ w'.pending)
      → ((w' : World) → (setup w').0 ≡ row.wire.args)
      → row.wire.reply ≡ no_operate_callback
      → row.wire.client ≡ none
      → Whole (λ proxy. call_without_handler proxy row.wire.member setup)
  plain-Sent setup kept appended unanswered alone = safe _ _ _ _ w λ c proxy given valid ok found.
      call_without_handler-Sent cfg ctx slot_id row w c proxy given valid ok found setup kept
        appended unanswered alone

  pub write-Sent :
      (ar : ℕ → AsyncResult) (cb : Callback) (value : Arg)
      → row.wire.args ≡ written value ∷ []
      → row.wire.reply ≡ property_set_done
      → ((a h : ℕ) → client_of (handler_free (handler_of (ar a) cb h)) ≡ row.wire.client)
      → Whole (λ proxy. write_with_handler ar cb proxy row.wire.member value)
  write-Sent ar cb value wrote answered told = safe _ _ _ _ w λ c proxy given valid ok found.
      write_with_handler-Sent cfg ctx slot_id row w c proxy given valid ok found ar cb value wrote
        answered told

  pub plain_write-Sent :
      (value : Arg)
      → row.wire.args ≡ written value ∷ []
      → row.wire.reply ≡ no_operate_callback
      → row.wire.client ≡ none
      → Whole (λ proxy. write_without_handler proxy row.wire.member value)
  plain_write-Sent value wrote unanswered alone = safe _ _ _ _ w λ c proxy given valid ok found.
      write_without_handler-Sent cfg ctx slot_id row w c proxy given valid ok found value wrote
        unanswered alone

  pub owned-Sent :
      (setup : Handler → Setup) (ar : ℕ → ℕ → AsyncResult) (cb : Callback)
      → ((a d h : ℕ) (w' : World) → (setup (handler_of (ar a d) cb h) w').1.pending ≡ w'.pending)
      → ((a d h : ℕ) (w' : World) → (setup (handler_of (ar a d) cb h) w').0 ≡ row.wire.args)
      → ((a d h : ℕ) → client_of (data_free d (handler_of (ar a d) cb h)) ≡ row.wire.client)
      → Whole (λ proxy. call_with_owned ar cb proxy row.wire.member setup row.wire.reply)
  owned-Sent setup ar cb kept appended told = safe _ _ _ _ w λ c proxy given valid ok found.
      call_with_owned-Sent cfg ctx slot_id row w c proxy given valid ok found setup ar cb kept
        appended told

  pub param-Sent :
      (setup : Handler → Setup) (ar : ℕ → ℕ → AsyncResult) (cb : Callback)
      → ((a d h : ℕ) (w' : World) → (setup (handler_of (ar a d) cb h) w').1.pending ≡ w'.pending)
      → ((a d h : ℕ) (w' : World) → (setup (handler_of (ar a d) cb h) w').0 ≡ row.wire.args)
      → ((a d h : ℕ) → client_of (handler_free (handler_of (ar a d) cb h)) ≡ row.wire.client)
      → Whole (λ proxy. malloc (λ w. w) >>= λ d.
          call_with_param
            (λ a. ar a d)
            cb
            proxy
            row.wire.member
            setup
            row.wire.reply
            (λ handler. releasing (λ w. free d (handler_release (some handler) w)))
            d)
  param-Sent setup ar cb kept appended told = safe _ _ _ _ w λ c proxy given valid ok found.
      call_with_param-Sent cfg ctx slot_id row w c proxy given valid ok found setup ar cb kept
        appended told
