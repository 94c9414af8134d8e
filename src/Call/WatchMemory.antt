-- ===== src/Call/WatchMemory.antt =====
-- What the requests that install signal watches leave behind.
use frameworks_connectivity.Common.{
  ℕ, suc, ◌<◌, ◌≡◌, ◌≢◌, refl, inl, inr, Bool, true, false, List, ◌∷◌, Option, none, some,
  Bool-cases, ◌==◌, ==_iff, ap, arith,
}
use frameworks_connectivity.Records.{Errno, Code, ret, fail, Handler}
use frameworks_connectivity.Bus.Monad.{
  World, Step, go, stop, crash, M, ◌>>=◌, require, non_null, malloc, free, handler_release, Watch,
  add_signal_watch,
}
use frameworks_connectivity.Bus.Heap.{remove-first}
use frameworks_connectivity.Bus.Held.{free_live}
use frameworks_connectivity.Bus.Steps.{bind_go, bind_stop, malloc_given, malloc_refused}
use frameworks_connectivity.Call.Watch.{watch_result}

-- What a request for a watch has done: with a result, which is not 0, one watch more is installed,
-- and the end of that watch gives back all that was allocated; with an error nothing is left.
abbrev pub Watched : World → Step Code → Type 0
Watched w (go c w') = ⊥
Watched w (stop (ret n) w') =
    (n ≢ 0)
    × (x : Watch) × (w'.watches ≡ x ∷ w.watches)
    × ((handler_release (some x.handler) w').live ≡ w.live)
    × ((handler_release (some x.handler) w').bad_free ≡ w.bad_free)
Watched w (stop (fail e) w') =
    (w'.watches ≡ w.watches) × (w'.live ≡ w.live) × (w'.bad_free ≡ w.bad_free)
Watched w crash = ⊥

module _ (x : Watch) (w : World) where
  watch_refused :
      (w.watch_ids w.next == 0) ≡ true
      → add_signal_watch x w ≡ go (w.watch_ids w.next) (record w { next = suc w.next })
  unfolding add_signal_watch
  watch_refused e = rw (e, add_signal_watch) refl

  watch_added :
      (w.watch_ids w.next == 0) ≡ false
      → add_signal_watch x w
        ≡ go (w.watch_ids w.next) (record w { next = suc w.next; watches = x ∷ w.watches })
  unfolding add_signal_watch
  watch_added e = rw (e, add_signal_watch) refl

module _ (h : Handler) (id : ℕ) (w : World) where
  result_refused :
      (id == 0) ≡ true → watch_result h id w ≡ stop (fail Errno.einval) (handler_release (some h) w)
  unfolding watch_result
  result_refused e = rw (e, watch_result) refl

  result_given : (id == 0) ≡ false → watch_result h id w ≡ stop (ret id) w
  unfolding watch_result
  result_given e = rw (e, watch_result) refl

module _ (w₀ : World) where
  pub non_null-Watched :
      {A : Type 0} (f : A → M Code) (o : Option A) (e : Errno)
      → ((a : A) → o ≡ some a → Watched w₀ (f a w₀))
      → Watched w₀ ((non_null o e >>= f) w₀)
  unfolding ◌>>=◌ non_null
  non_null-Watched f none e k = (refl, refl, refl)
  non_null-Watched f (some a) e k = k a refl

  pub require-Watched :
      (f : Unit {0} → M Code) (b : Bool) (e : Errno)
      → (b ≡ true → Watched w₀ (f tt w₀))
      → Watched w₀ ((require b e >>= f) w₀)
  unfolding ◌>>=◌ require
  require-Watched f false e k = (refl, refl, refl)
  require-Watched f true e k = k refl

  -- Two blocks are allocated, and become a handler with its result.
  module _ (handler : ℕ → ℕ → Handler) (watch : ℕ → ℕ → Watch)
      (same : (p q : ℕ) → (watch p q).handler ≡ handler p q)
      (release : (p q : ℕ) (l : List ℕ) (w : World)
        → p < q
        → w.live ≡ q ∷ p ∷ l
        → handler_release (some (handler p q)) w ≡ record w { live = l }) where
    w₁ : World
    w₁ = record w₀ { next = suc w₀.next; live = w₀.next ∷ w₀.live }

    p : ℕ
    p = w₀.next

    q : ℕ
    q = suc w₀.next

    w₂ : World
    w₂ = record w₀ { next = suc (suc w₀.next); live = suc w₀.next ∷ w₀.next ∷ w₀.live }

    last : Watched w₀ ((add_signal_watch (watch p q) >>= λ id. watch_result (handler p q) id) w₂)
    unfolding w₂ p q
    last = elim (Bool-cases (w₂.watch_ids w₂.next == 0)) [
      | inl z ↦
          rw (bind_go (add_signal_watch (watch p q)) _ w₂ _ _ (watch_refused (watch p q) w₂ z)) (
            rw (result_refused (handler p q) _ (record w₂ { next = suc w₂.next }) z) (
              rw (release p q w₀.live (record w₂ { next = suc w₂.next }) (omega arith) refl)
                (refl, refl, refl)))
      | inr n ↦
          rw (bind_go (add_signal_watch (watch p q)) _ w₂ _ _ (watch_added (watch p q) w₂ n)) (
            rw (result_given (handler p q) _ _ n) (
              ground (arith, ==_iff (w₂.watch_ids w₂.next) 0),
              watch p q,
              refl,
              rw (same p q) (ap World.live (release p q w₀.live _ (omega arith) refl)),
              rw (same p q) (ap World.bad_free (release p q w₀.live _ (omega arith) refl)),
            ))
    ]

    second :
        (cleanup : World → World)
        → cleanup (record w₁ { next = suc w₁.next })
          ≡ record w₁ { next = suc w₁.next; live = w₀.live }
        → Watched w₀ (
            (malloc cleanup >>= λ q.
            add_signal_watch (watch p q) >>= λ id. watch_result (handler p q) id)
              w₁)
    unfolding q w₁ w₂
    second cleanup undo = elim (Bool-cases (w₁.mallocs w₁.next)) [
      | inl e ↦ rw (bind_go (malloc cleanup) _ w₁ w₂ q (malloc_given cleanup w₁ e)) last
      | inr e ↦
          rw (bind_stop (malloc cleanup) _ w₁ _ _ (malloc_refused cleanup w₁ e))
            (rw undo (refl, refl, refl))
    ]

    pub allocated-Watched : Watched w₀ (
        (malloc (λ w. w) >>= λ p. malloc (free p) >>= λ q.
        add_signal_watch (watch p q) >>= λ id. watch_result (handler p q) id)
          w₀)
    unfolding p w₁
    allocated-Watched = elim (Bool-cases (w₀.mallocs w₀.next)) [
      | inl e ↦
          rw (bind_go (malloc (λ w. w)) _ w₀ w₁ p (malloc_given (λ w. w) w₀ e))
            (second (free p) (free_live p _ w₀.live (remove-first p w₀.live)))
      | inr e ↦
          rw (bind_stop (malloc (λ w. w)) _ w₀ _ _ (malloc_refused (λ w. w) w₀ e))
            (refl, refl, refl)
    ]
