-- ===== src/Bus/Rules.antt =====
-- Rules for the memory of a request, one for each step that a request is made of.
use frameworks_connectivity.Common.{
  ℕ, suc, ◌≤◌, ◌<◌, ◌≡◌, inl, inr, refl, sym, subst, ap, Bool, true, false, String, List, ◌∷◌,
  Option, none, some, All, Bool-cases, arith,
}
use frameworks_connectivity.Records.{Errno, einval, enomem, Code, ret, fail}
use frameworks_connectivity.Bus.Monad.{
  World, Step, go, stop, crash, M, ◌>>=◌, Outcome, sent, refused_early, refused_late, require,
  non_null, malloc, Setup, ReplyFunction, UserData, method_call, or_fail, returns, releasing,
}
use frameworks_connectivity.Bus.Heap.{All-lt-le}
use frameworks_connectivity.Bus.Ownership.{owned}
use frameworks_connectivity.Bus.Held.{IsCalm, Held, Done, Keeps, tick-Held}
use frameworks_connectivity.Bus.Steps.{
  bind_go, bind_stop, bind_crash, malloc_given, malloc_refused, or_fail_go, or_fail_crash,
  sent_returns, setup_done, method_call_sent, method_call_early, method_call_late,
}

-- A call that was refused ends the request, once its cleanup has freed all that it holds.
or_fail-Done :
    (w₀ : World) (fs : List ℕ) (cleanup : M (Unit {0})) (f : Unit {0} → M Code) (w : World)
    (s : Step (Unit {0}))
    → cleanup w ≡ s
    → Keeps w₀ fs s
    → Done w₀ fs ((or_fail false cleanup >>= f) w)
or_fail-Done w₀ fs cleanup f w (go u w') e c =
    rw (bind_stop (or_fail false cleanup) f w w' (fail einval) (or_fail_go cleanup w w' e)) c
or_fail-Done w₀ fs cleanup f w (stop x w') e c = absurd c
or_fail-Done w₀ fs cleanup f w crash e c =
    rw (bind_crash (or_fail false cleanup) f w (or_fail_crash cleanup w e)) tt

module _ (w₀ : World) (fs : List ℕ) where
  module _ {A : Type 0} (f : A → M Code) (w : World) where
    pub non_null-Done :
        (o : Option A) (e : Errno)
        → Held w₀ fs w
        → ((a : A) → o ≡ some a → Done w₀ fs (f a w))
        → Done w₀ fs ((non_null o e >>= f) w)
    unfolding ◌>>=◌ non_null
    non_null-Done none e h k = h
    non_null-Done (some a) e h k = k a refl

  module _ (f : Unit {0} → M Code) (w : World) where
    pub require-Done :
        (b : Bool) (e : Errno)
        → Held w₀ fs w
        → (b ≡ true → Done w₀ fs (f tt w))
        → Done w₀ fs ((require b e >>= f) w)
    unfolding ◌>>=◌ require
    require-Done false e h k = h
    require-Done true e h k = k refl

  -- The new block is above all that are held.
  pub malloc-Done :
      (f : ℕ → M Code) (w : World) (bs : List ℕ) (cleanup : World → World)
      → Held w₀ bs w
      → ((w' : World) → Held w₀ bs w' → Held w₀ fs (cleanup w'))
      → ((p : ℕ) (w' : World)
          → Held w₀ (p ∷ bs) w'
          → All (λ b. b < p) bs
          → w₀.next ≤ p
          → Done w₀ fs (f p w'))
      → Done w₀ fs ((malloc cleanup >>= f) w)
  malloc-Done f w bs cleanup h c k = elim (Bool-cases (w.mallocs w.next)) [
    | inl e ↦
        rw
          (bind_go (malloc cleanup) f w (record w { next = suc w.next; live = w.next ∷ w.live })
            w.next (malloc_given cleanup w e))
          (k w.next (record w { next = suc w.next; live = w.next ∷ w.live })
            (record {
              pending = h.pending;
              live = ap (λ l. w.next ∷ l) h.live;
              below = (omega arith, All-lt-le bs (omega arith) h.below);
              counted = omega (arith, h.counted);
              answers = h.answers;
              calm = h.calm;
            })
            h.below h.counted)
    | inr e ↦
        let w' = cleanup (record w { next = suc w.next }) in
        let r : Held w₀ fs w' = c (record w { next = suc w.next }) (tick-Held bs w h) in
        rw (bind_stop (malloc cleanup) f w w' (fail enomem) (malloc_refused cleanup w e)) r
  ]

  -- A step that keeps what is held, in a request and in a cleanup.
  pub Keeps-Done :
      (m : M (Unit {0})) (f : Unit {0} → M Code) (w : World) (bs : List ℕ)
      → Keeps w₀ bs (m w)
      → ((w' : World) → Held w₀ bs w' → Done w₀ fs (f tt w'))
      → Done w₀ fs ((m >>= f) w)
  unfolding ◌>>=◌
  Keeps-Done m f w bs h k = after (m w) h
    where
      after :
          (s : Step (Unit {0}))
          → Keeps w₀ bs s
          → Done w₀ fs (elim s [ go u w' ↦ f tt w' | stop c w' ↦ stop c w' | crash ↦ crash ])
      after (go u w') h = k w' h
      after (stop c w') h = absurd h
      after crash h = tt

  pub Keeps-Keeps :
      (m : M (Unit {0})) (f : Unit {0} → M (Unit {0})) (w : World) (bs : List ℕ)
      → Keeps w₀ bs (m w)
      → ((w' : World) → Held w₀ bs w' → Keeps w₀ fs (f tt w'))
      → Keeps w₀ fs ((m >>= f) w)
  unfolding ◌>>=◌
  Keeps-Keeps m f w bs h k = after (m w) h
    where
      after :
          (s : Step (Unit {0}))
          → Keeps w₀ bs s
          → Keeps w₀ fs (elim s [ go u w' ↦ f tt w' | stop c w' ↦ stop c w' | crash ↦ crash ])
      after (go u w') h = k w' h
      after (stop c w') h = absurd h
      after crash h = tt

  pub releasing-Keeps :
      (g : World → World) (w : World) → Held w₀ fs (g w) → Keeps w₀ fs (releasing g w)
  unfolding releasing
  releasing-Keeps g w h = h

  -- The setup function takes what is held from `bs` to `cs`, and the call owns `cs`.
  pub call-Done :
      (proxy : ℕ) (member : String) (setup : Setup) (reply : ReplyFunction) (data_ : UserData)
      (cleanup : M (Unit {0})) (w : World) (bs cs : List ℕ)
      → Held w₀ bs w
      → ((w' : World) → Held w₀ bs w' → Held w₀ cs (setup w').1)
      → owned data_ ≡ cs
      → ((w' : World) → Held w₀ bs w' → Keeps w₀ fs (cleanup w'))
      → ((w' : World) → ¬ IsCalm w₀ → Held w₀ cs w' → Keeps w₀ fs (cleanup w'))
      → Done w₀ fs (
          (method_call proxy member setup reply data_ >>= λ done.
          or_fail done cleanup >>= λ _. returns (ret 0))
            w)
  unfolding setup_done
  call-Done proxy member setup reply data_ cleanup w bs cs h s o early late =
      answered (w.outcomes w.next) refl
    where
      f : Bool → M Code
      f = λ done. or_fail done cleanup >>= λ _. returns (ret 0)

      w₁ : World
      w₁ = record w { next = suc w.next }

      h₁ : Held w₀ bs w₁
      h₁ = tick-Held bs w h

      h₂ : Held w₀ cs (setup w₁).1
      h₂ = s w₁ h₁

      answered :
          (a : Outcome)
          → w.outcomes w.next ≡ a
          → Done w₀ fs ((method_call proxy member setup reply data_ >>= f) w)
      answered sent e =
          rw
            (bind_go (method_call proxy member setup reply data_) f w _ true
              (method_call_sent proxy member setup reply data_ w e))
            (rw (sent_returns cleanup _) ((h₂.pending, rw o h₂.live), h₂.calm))
      answered refused_early e =
          rw
            (bind_go (method_call proxy member setup reply data_) f w _ false
              (method_call_early proxy member setup reply data_ w e))
            (or_fail-Done w₀ fs cleanup (λ _. returns (ret 0)) w₁ (cleanup w₁) refl (early w₁ h₁))
      answered refused_late e =
          rw
            (bind_go (method_call proxy member setup reply data_) f w _ false
              (method_call_late proxy member setup reply data_ w e))
            (or_fail-Done w₀ fs cleanup (λ _. returns (ret 0)) (setup w₁).1 (cleanup (setup w₁).1)
              refl (late (setup w₁).1 (λ calm. calm w.next (rw (← h.answers) e)) h₂))

  -- The setup function leaves memory alone.
  pub plain_call-Done :
      (proxy : ℕ) (member : String) (setup : Setup) (reply : ReplyFunction) (data_ : UserData)
      (cleanup : M (Unit {0})) (w : World) (bs : List ℕ)
      → Held w₀ bs w
      → ((w' : World) → (setup w').1 ≡ w')
      → owned data_ ≡ bs
      → ((w' : World) → Held w₀ bs w' → Keeps w₀ fs (cleanup w'))
      → Done w₀ fs (
          (method_call proxy member setup reply data_ >>= λ done.
          or_fail done cleanup >>= λ _. returns (ret 0))
            w)
  plain_call-Done proxy member setup reply data_ cleanup w bs h s o c =
      call-Done proxy member setup reply data_ cleanup w bs bs h
        (λ w' k. subst (Held w₀ bs) (sym (s w')) k) o c (λ w' _ k. c w' k)
