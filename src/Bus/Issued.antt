-- ===== src/Bus/Issued.antt =====
-- Rules for what holds when a request reports success, one for each step that a request is made of.
use frameworks_connectivity.Common.{
  ℕ, suc, ◌≡◌, refl, inl, inr, Bool, true, false, String, List, [], ◌∷◌, Option, none, some,
  Bool-cases,
}
use frameworks_connectivity.Records.{Errno, Code, ret, fail, AsyncResult, Handler, Callback}
use frameworks_connectivity.Bus.Monad.{
  World, Arg, written, write_property, Step, go, stop, crash, M, ◌>>=◌, Outcome, sent,
  refused_early, refused_late, require, non_null, malloc, Setup, ReplyFunction, UserData,
  handler_free, Pending, method_call, or_fail, returns,
}
use frameworks_connectivity.Bus.Steps.{
  bind_go, bind_stop, bind_crash, malloc_given, malloc_refused, or_fail_go, or_fail_crash,
  sent_returns, write_sent, write_refused, setup_done, method_call_sent, method_call_early,
  method_call_late,
}
use frameworks_connectivity.Bus.Request.{handler_of, call_with_result, call_with_param}

-- What holds of the result and the state where a request returns no error.
abbrev pub Succeeds : (ℕ → World → Type 0) → Step Code → Type 0
Succeeds P (stop (ret n) w) = P n w
Succeeds P _ = Unit

-- A step that goes on and issues no call.
abbrev pub Quiet : List Pending → Step (Unit {0}) → Type 0
Quiet ps (go _ w) = w.pending ≡ ps
Quiet ps (stop c w) = ⊥
Quiet ps crash = Unit

module _ (P : ℕ → World → Type 0) where
  pub non_null-Succeeds :
      {A : Type 0} (f : A → M Code) (w : World) (o : Option A) (e : Errno)
      → ((a : A) → o ≡ some a → Succeeds P (f a w))
      → Succeeds P ((non_null o e >>= f) w)
  unfolding ◌>>=◌ non_null
  non_null-Succeeds f w none e k = tt
  non_null-Succeeds f w (some a) e k = k a refl

  pub require-Succeeds :
      (f : Unit {0} → M Code) (w : World) (b : Bool) (e : Errno)
      → (b ≡ true → Succeeds P (f tt w))
      → Succeeds P ((require b e >>= f) w)
  unfolding ◌>>=◌ require
  require-Succeeds f w false e k = tt
  require-Succeeds f w true e k = k refl

  pub malloc-Succeeds :
      (f : ℕ → M Code) (w : World) (cleanup : World → World)
      → ((p : ℕ) (w' : World) → w'.pending ≡ w.pending → Succeeds P (f p w'))
      → Succeeds P ((malloc cleanup >>= f) w)
  malloc-Succeeds f w cleanup k = elim (Bool-cases (w.mallocs w.next)) [
    | inl e ↦
        rw
          (bind_go (malloc cleanup) f w (record w { next = suc w.next; live = w.next ∷ w.live })
            w.next (malloc_given cleanup w e))
          (k w.next (record w { next = suc w.next; live = w.next ∷ w.live }) refl)
    | inr e ↦ rw (bind_stop (malloc cleanup) f w _ _ (malloc_refused cleanup w e)) tt
  ]

  Quiet-step :
      (ps : List Pending) (f : Unit {0} → M Code) (s : Step (Unit {0}))
      → Quiet ps s
      → ((w' : World) → w'.pending ≡ ps → Succeeds P (f tt w'))
      → Succeeds P (elim s [ go u w' ↦ f tt w' | stop c w' ↦ stop c w' | crash ↦ crash ])
  Quiet-step ps f (go u w') q k = k w' q
  Quiet-step ps f (stop c w') q k = absurd q
  Quiet-step ps f crash q k = tt

  pub Quiet-Succeeds :
      (m : M (Unit {0})) (f : Unit {0} → M Code) (w : World)
      → Quiet w.pending (m w)
      → ((w' : World) → w'.pending ≡ w.pending → Succeeds P (f tt w'))
      → Succeeds P ((m >>= f) w)
  unfolding ◌>>=◌
  Quiet-Succeeds m f w q k = Quiet-step w.pending f (m w) q k

  or_fail-Succeeds :
      (ps : List Pending) (cleanup : M (Unit {0})) (f : Unit {0} → M Code) (w : World)
      (s : Step (Unit {0}))
      → cleanup w ≡ s
      → Quiet ps s
      → Succeeds P ((or_fail false cleanup >>= f) w)
  or_fail-Succeeds ps cleanup f w (go u w') e q =
      rw (bind_stop (or_fail false cleanup) f w w' (fail Errno.einval) (or_fail_go cleanup w w' e))
        tt
  or_fail-Succeeds ps cleanup f w (stop c w') e q = absurd q
  or_fail-Succeeds ps cleanup f w crash e q =
      rw (bind_crash (or_fail false cleanup) f w (or_fail_crash cleanup w e)) tt

  -- The call is sent with the arguments that the setup function appends.
  pub call-Succeeds :
      (proxy : ℕ) (member : String) (setup : Setup) (reply : ReplyFunction) (data_ : UserData)
      (cleanup : M (Unit {0})) (w : World)
      → ((w' : World) → (setup w').1.pending ≡ w'.pending)
      → ((w' : World) → Quiet w'.pending (cleanup w'))
      → ((w' : World) (p : Pending)
          → w'.pending ≡ p ∷ w.pending
          → p ≡ record {
            proxy = proxy;
            member = member;
            args = (setup (record w { next = suc w.next })).0;
            reply = reply;
            user_data = data_;
          }
          → P 0 w')
      → Succeeds P (
          (method_call proxy member setup reply data_ >>= λ done.
          or_fail done cleanup >>= λ _. returns (ret 0))
            w)
  unfolding setup_done
  call-Succeeds proxy member setup reply data_ cleanup w kept quiet k =
      answered (w.outcomes w.next) refl
    where
      f : Bool → M Code
      f = λ done. or_fail done cleanup >>= λ _. returns (ret 0)

      answered :
          (a : Outcome)
          → w.outcomes w.next ≡ a
          → Succeeds P ((method_call proxy member setup reply data_ >>= f) w)
      answered sent e =
          rw
            (bind_go (method_call proxy member setup reply data_) f w _ true
              (method_call_sent proxy member setup reply data_ w e))
            (rw (sent_returns cleanup _)
              (k _ _ (rw (kept (record w { next = suc w.next })) refl) refl))
      answered refused_early e =
          rw
            (bind_go (method_call proxy member setup reply data_) f w _ false
              (method_call_early proxy member setup reply data_ w e))
            (or_fail-Succeeds _ cleanup (λ _. returns (ret 0)) _ _ refl (quiet _))
      answered refused_late e =
          rw
            (bind_go (method_call proxy member setup reply data_) f w _ false
              (method_call_late proxy member setup reply data_ w e))
            (or_fail-Succeeds _ cleanup (λ _. returns (ret 0)) _ _ refl (quiet _))

  -- The write is sent with its value.
  pub write-Succeeds :
      (proxy : ℕ) (name : String) (value : Arg) (reply : ReplyFunction) (data_ : UserData)
      (cleanup : M (Unit {0})) (w : World)
      → ((w' : World) → Quiet w'.pending (cleanup w'))
      → ((w' : World) (p : Pending)
          → w'.pending ≡ p ∷ w.pending
          → p ≡ record {
            proxy = proxy;
            member = name;
            args = written value ∷ [];
            reply = reply;
            user_data = data_;
          }
          → P 0 w')
      → Succeeds P (
          (write_property proxy name value reply data_ >>= λ done.
          or_fail done cleanup >>= λ _. returns (ret 0))
            w)
  write-Succeeds proxy name value reply data_ cleanup w quiet k =
      elim (Bool-cases (w.writes w.next)) [
        | inl e ↦
            rw
              (bind_go (write_property proxy name value reply data_) f w _ true
                (write_sent proxy name value reply data_ w e))
              (rw (sent_returns cleanup _) (k _ _ refl refl))
        | inr e ↦
            rw
              (bind_go (write_property proxy name value reply data_) f w _ false
                (write_refused proxy name value reply data_ w e))
              (or_fail-Succeeds _ cleanup (λ _. returns (ret 0)) _ _ refl (quiet _))
      ]
    where
      f : Bool → M Code
      f = λ done. or_fail done cleanup >>= λ _. returns (ret 0)

  module _ (ar : ℕ → AsyncResult) (cb : Callback) (proxy : ℕ) (member : String)
      (setup : Handler → Setup) (reply : ReplyFunction) (cleanup : Handler → M (Unit {0}))
      (kept : (a h : ℕ) (w' : World) → (setup (handler_of (ar a) cb h) w').1.pending ≡ w'.pending)
      (quiet : (h : Handler) (w' : World) → Quiet w'.pending (cleanup h w')) (w : World)
      (k : (a h : ℕ) (w₁ w' : World) (p : Pending)
        → w'.pending ≡ p ∷ w.pending
        → p ≡ record {
          proxy = proxy;
          member = member;
          args = (setup (handler_of (ar a) cb h) w₁).0;
          reply = reply;
          user_data = handler_free (handler_of (ar a) cb h);
        }
        → P 0 w') where
    pub call_with_result-Succeeds :
        Succeeds P (call_with_result ar cb proxy member setup reply cleanup w)
    unfolding call_with_result
    call_with_result-Succeeds = malloc-Succeeds _ w _ λ a w₁ e₁. malloc-Succeeds _ w₁ _ λ h w₂ e₂.
        call-Succeeds proxy member _ reply _ _ w₂ (kept a h) (quiet _)
          λ w' p e f. k a h _ w' p (rw (← e₁, ← e₂) e) f

    pub call_with_param-Succeeds :
        (p : ℕ) → Succeeds P (call_with_param ar cb proxy member setup reply cleanup p w)
    unfolding call_with_param
    call_with_param-Succeeds q = malloc-Succeeds _ w _ λ a w₁ e₁. malloc-Succeeds _ w₁ _ λ h w₂ e₂.
        call-Succeeds proxy member _ reply _ _ w₂ (kept a h) (quiet _)
          λ w' p e f. k a h _ w' p (rw (← e₁, ← e₂) e) f
