-- ===== src/Bus/SentRules.antt =====
-- Rules for what a request has sent when it reports success, one for each shape of request.
use frameworks_connectivity.Common.{
  ℕ, ℤ, ◌≡◌, refl, sym, ◌∙◌, ap, Bool, true, [], ◌∷◌, Option, none, some,
}
use frameworks_connectivity.Utils.Modem.{Config, is_valid_slotid, slot_index}
use frameworks_connectivity.Records.{Code, AsyncResult, Handler, Callback, ProxyType, Context}
use frameworks_connectivity.Bus.Monad.{
  World, M, ◌>>=◌, Arg, written, free, handler_release, Setup, no_operate_callback,
  property_set_done, UserData, handler_free, data_free, malloc, Pending, releasing,
}
use frameworks_connectivity.Bus.Request.{
  handler_of, call_with_result, call_with_handler, write_with_handler, call_with_data,
  call_with_param, call_with_owned, data_release, call_without_handler, write_without_handler,
}
use frameworks_connectivity.Bus.Frees.{free_pending, releasing-Quiet, release_pending}
use frameworks_connectivity.Bus.Guards.{with_proxy, with_ready_proxy}
use frameworks_connectivity.Bus.Wire.{Row, client_of, Sent}
use frameworks_connectivity.Bus.Issued.{
  Succeeds, non_null-Succeeds, require-Succeeds, malloc-Succeeds, call-Succeeds,
  call_with_result-Succeeds, call_with_param-Succeeds, write-Succeeds,
}

-- What a request may rely on once its checks have passed.
abbrev pub IsGuard :
    Config → Option Context → ℤ → (Bool → ProxyType → (ℕ → M Code) → M Code) → Type 1
IsGuard cfg ctx slot_id guard =
    (P : ℕ → World → Type 0) (allowed : Bool) (type : ProxyType) (request : ℕ → M Code) (w : World)
    → ((c : Context) (proxy : ℕ)
        → ctx ≡ some c
        → is_valid_slotid cfg slot_id ≡ true
        → allowed ≡ true
        → c.dbus_proxy (slot_index slot_id) type ≡ some proxy
        → Succeeds P (request proxy w))
    → Succeeds P (guard allowed type request w)

pub with_proxy-IsGuard :
    (cfg : Config) (ctx : Option Context) (slot_id : ℤ)
    → IsGuard cfg ctx slot_id (with_proxy cfg ctx slot_id)
unfolding with_proxy
with_proxy-IsGuard cfg ctx slot_id P allowed type request w k =
    non_null-Succeeds _ _ w _ _ λ c given. require-Succeeds _ _ w _ _ λ valid.
      require-Succeeds _ _ w _ _
        λ ok. non_null-Succeeds _ _ w _ _ λ proxy found. k c proxy given valid ok found

pub with_ready_proxy-IsGuard :
    (cfg : Config) (ctx : Option Context) (slot_id : ℤ)
    → IsGuard cfg ctx slot_id (with_ready_proxy cfg ctx slot_id)
unfolding with_ready_proxy
with_ready_proxy-IsGuard cfg ctx slot_id P allowed type request w k =
    non_null-Succeeds _ _ w _ _ λ c given. require-Succeeds _ _ w _ _ λ valid.
      require-Succeeds _ _ w _ _ λ ok.
        require-Succeeds _ _ w _ _
          λ ready. non_null-Succeeds _ _ w _ _ λ proxy found. k c proxy given valid ok found

module _ (cfg : Config) (ctx : Option Context) (slot_id : ℤ) (row : Row) (w : World) (c : Context)
    (proxy : ℕ) (given : ctx ≡ some c) (valid : is_valid_slotid cfg slot_id ≡ true)
    (ok : row.accepts ≡ true)
    (found : c.dbus_proxy (slot_index slot_id) row.type ≡ some proxy) where
  abbrev Said : ℕ → World → Type 0
  Said = Sent cfg ctx slot_id row w.pending

  pub said :
      (data_ : UserData) (w' : World) (p : Pending)
      → client_of data_ ≡ row.wire.client
      → w'.pending ≡ p ∷ w.pending
      → p ≡ record {
        proxy = proxy;
        member = row.wire.member;
        args = row.wire.args;
        reply = row.wire.reply;
        user_data = data_;
      }
      → Said 0 w'
  said data_ w' p client pending e = record {
    returned = refl;
    accepted = ok;
    context = c;
    given = given;
    valid = valid;
    call = p;
    pending = pending;
    proxy = found ∙ ap some (sym (ap Pending.proxy e));
    member = ap Pending.member e;
    args = ap Pending.args e;
    reply = ap Pending.reply e;
    client = ap (λ x. client_of (Pending.user_data x)) e ∙ client;
  }

  module _ (setup : Handler → Setup)
      (kept : (h : Handler) (w' : World) → (setup h w').1.pending ≡ w'.pending) where
    -- The handler is allocated first.
    pub call_with_handler-Sent :
        (ar : ℕ → AsyncResult) (cb : Callback)
        → ((a h : ℕ) (w' : World) → (setup (handler_of (ar a) cb h) w').0 ≡ row.wire.args)
        → ((a h : ℕ) → client_of (handler_free (handler_of (ar a) cb h)) ≡ row.wire.client)
        → Succeeds Said (call_with_handler ar cb proxy row.wire.member setup row.wire.reply w)
    unfolding call_with_handler
    call_with_handler-Sent ar cb appended told = malloc-Succeeds _ _ w _ λ h w₁ e₁.
        malloc-Succeeds _ _ w₁ _ λ a w₂ e₂.
          call-Succeeds _ proxy _ _ _ _ _ w₂ (kept _)
            (λ w'. releasing-Quiet _ w' (release_pending _ w'))
            λ w' p e f. said _ w' p (told a h) (rw (← e₁, ← e₂) e) (rw (appended a h _) at f)

    -- The result is allocated first.
    pub call_with_result-Sent :
        (ar : ℕ → AsyncResult) (cb : Callback)
        → ((a h : ℕ) (w' : World) → (setup (handler_of (ar a) cb h) w').0 ≡ row.wire.args)
        → ((a h : ℕ) → client_of (handler_free (handler_of (ar a) cb h)) ≡ row.wire.client)
        → Succeeds Said (
            call_with_result ar cb proxy row.wire.member setup row.wire.reply
              (λ handler. releasing (handler_release (some handler)))
              w)
    call_with_result-Sent ar cb appended told =
        call_with_result-Succeeds _ ar cb proxy _ setup _ _ (λ a h w'. kept _ w')
          (λ h w'. releasing-Quiet _ w' (release_pending h w')) w
          λ a h w₁ w' p e f. said _ w' p (told a h) e (rw (appended a h w₁) at f)

  pub call_without_handler-Sent :
      (setup : Setup)
      → ((w' : World) → (setup w').1.pending ≡ w'.pending)
      → ((w' : World) → (setup w').0 ≡ row.wire.args)
      → row.wire.reply ≡ no_operate_callback
      → row.wire.client ≡ none
      → Succeeds Said (call_without_handler proxy row.wire.member setup w)
  unfolding call_without_handler
  call_without_handler-Sent setup kept appended unanswered alone =
      call-Succeeds _ proxy _ _ _ _ _ w kept (λ w'. releasing-Quiet _ w' refl)
        λ w' p e f. said _ w' p (sym alone) e (rw (appended _, ← unanswered) at f)

  pub write_without_handler-Sent :
      (value : Arg)
      → row.wire.args ≡ written value ∷ []
      → row.wire.reply ≡ no_operate_callback
      → row.wire.client ≡ none
      → Succeeds Said (write_without_handler proxy row.wire.member value w)
  unfolding write_without_handler
  write_without_handler-Sent value wrote unanswered alone =
      write-Succeeds _ proxy _ _ _ _ _ w (λ w'. releasing-Quiet _ w' refl)
        λ w' p e f. said _ w' p (sym alone) e (rw (← wrote, ← unanswered) at f)

  pub write_with_handler-Sent :
      (ar : ℕ → AsyncResult) (cb : Callback) (value : Arg)
      → row.wire.args ≡ written value ∷ []
      → row.wire.reply ≡ property_set_done
      → ((a h : ℕ) → client_of (handler_free (handler_of (ar a) cb h)) ≡ row.wire.client)
      → Succeeds Said (write_with_handler ar cb proxy row.wire.member value w)
  unfolding write_with_handler
  write_with_handler-Sent ar cb value wrote answered told = malloc-Succeeds _ _ w _ λ h w₁ e₁.
      malloc-Succeeds _ _ w₁ _ λ a w₂ e₂.
        write-Succeeds _ proxy _ _ _ _ _ w₂ (λ w'. releasing-Quiet _ w' (release_pending _ w'))
          λ w' p e f. said _ w' p (told a h) (rw (← e₁, ← e₂) e) (rw (← wrote, ← answered) at f)

  -- The data of the call is allocated last.
  pub call_with_data-Sent :
      (setup : Handler → Setup) (ar : ℕ → ℕ → AsyncResult) (cb : Callback)
      → ((a d h : ℕ) (w' : World) → (setup (handler_of (ar a d) cb h) w').1.pending ≡ w'.pending)
      → ((a d h : ℕ) (w' : World) → (setup (handler_of (ar a d) cb h) w').0 ≡ row.wire.args)
      → ((a d h : ℕ) → client_of (handler_free (handler_of (ar a d) cb h)) ≡ row.wire.client)
      → Succeeds Said (call_with_data ar cb proxy row.wire.member setup row.wire.reply w)
  unfolding call_with_data
  call_with_data-Sent setup ar cb kept appended told = malloc-Succeeds _ _ w _ λ h w₁ e₁.
      malloc-Succeeds _ _ w₁ _ λ a w₂ e₂. malloc-Succeeds _ _ w₂ _ λ d w₃ e₃.
        call-Succeeds _ proxy _ _ _ _ _ w₃ (kept a d h)
          (λ w'. releasing-Quiet _ w' (
            free_pending d (handler_release (some (handler_of (ar a d) cb h)) w')
            ∙ release_pending (handler_of (ar a d) cb h) w'))
          λ w' p e f.
            said _ w' p (told a d h) (rw (← e₁, ← e₂, ← e₃) e) (rw (appended a d h _) at f)

  -- The parameter is allocated first, and freed with the call.
  pub call_with_owned-Sent :
      (setup : Handler → Setup) (ar : ℕ → ℕ → AsyncResult) (cb : Callback)
      → ((a d h : ℕ) (w' : World) → (setup (handler_of (ar a d) cb h) w').1.pending ≡ w'.pending)
      → ((a d h : ℕ) (w' : World) → (setup (handler_of (ar a d) cb h) w').0 ≡ row.wire.args)
      → ((a d h : ℕ) → client_of (data_free d (handler_of (ar a d) cb h)) ≡ row.wire.client)
      → Succeeds Said (call_with_owned ar cb proxy row.wire.member setup row.wire.reply w)
  unfolding call_with_owned data_release
  call_with_owned-Sent setup ar cb kept appended told = malloc-Succeeds _ _ w _ λ d w₁ e₁.
      malloc-Succeeds _ _ w₁ _ λ a w₂ e₂. malloc-Succeeds _ _ w₂ _ λ h w₃ e₃.
        call-Succeeds _ proxy _ _ _ _ _ w₃ (kept a d h)
          (λ w'.
            releasing-Quiet _ w'
              (release_pending (handler_of (ar a d) cb h) (free d w') ∙ free_pending d w'))
          λ w' p e f.
            said _ w' p (told a d h) (rw (← e₁, ← e₂, ← e₃) e) (rw (appended a d h _) at f)

  -- The parameter is allocated first, and freed by the setup function or where the call fails.
  pub call_with_param-Sent :
      (setup : Handler → Setup) (ar : ℕ → ℕ → AsyncResult) (cb : Callback)
      → ((a d h : ℕ) (w' : World) → (setup (handler_of (ar a d) cb h) w').1.pending ≡ w'.pending)
      → ((a d h : ℕ) (w' : World) → (setup (handler_of (ar a d) cb h) w').0 ≡ row.wire.args)
      → ((a d h : ℕ) → client_of (handler_free (handler_of (ar a d) cb h)) ≡ row.wire.client)
      → Succeeds Said (
          (malloc (λ w. w) >>= λ d.
          call_with_param
            (λ a. ar a d)
            cb
            proxy
            row.wire.member
            setup
            row.wire.reply
            (λ handler. releasing (λ w. free d (handler_release (some handler) w)))
            d)
            w)
  call_with_param-Sent setup ar cb kept appended told = malloc-Succeeds _ _ w _ λ d w₁ e₁.
      call_with_param-Succeeds _ (λ a. ar a d) cb proxy _ setup _ _ (λ a h w'. kept a d h w')
        (λ h w'.
          releasing-Quiet _ w'
            (free_pending d (handler_release (some h) w') ∙ release_pending h w'))
        w₁ (λ a h w₂ w' p e f. said _ w' p (told a d h) (rw (← e₁) e) (rw (appended a d h w₂) at f))
        d
