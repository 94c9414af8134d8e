-- ===== src/Bus/RequestRules.antt =====
-- The memory of a request from its allocations to its return.
use frameworks_connectivity.Common.{ℕ, ◌≤◌, ◌<◌, ◌≡◌, ap, String, List, [], ◌∷◌, some, arith}
use frameworks_connectivity.Records.{AsyncResult, Handler, Callback}
use frameworks_connectivity.Bus.Monad.{World, M, free, Setup, ReplyFunction, handler_release}
use frameworks_connectivity.Bus.Heap.{IsHeap, remove-first}
use frameworks_connectivity.Bus.Held.{
  IsCalm, Held, Done, Keeps, free-Held, free-absent_Held, handler_release-Held,
}
use frameworks_connectivity.Bus.Rules.{malloc-Done, call-Done}
use frameworks_connectivity.Bus.Request.{handler_of, call_with_result, call_with_param}

module _ {w₀ : World} where
  -- The parameter `p`, the result `a` and the handler `h` of a request, in the order of allocation.
  module _ (p a : ℕ) (lt : p < a) where
    free_two-Held : (w : World) → Held w₀ (a ∷ p ∷ []) w → Held w₀ [] (free a (free p w))
    free_two-Held w held =
        free-Held a (a ∷ []) [] (free p w) (remove-first a [])
          (free-Held p (a ∷ p ∷ []) (a ∷ []) w (ground arith) held)

    module _ (h : ℕ) (lt' : a < h) where
      pub free_param-Held :
          (w : World) → Held w₀ (h ∷ a ∷ p ∷ []) w → Held w₀ (h ∷ a ∷ []) (free p w)
      free_param-Held w held = free-Held p (h ∷ a ∷ p ∷ []) (h ∷ a ∷ []) w (ground arith) held

      -- The parameter was freed by the setup function, and is freed again.
      free_again-Held :
          (w : World)
          → IsHeap w₀
          → ¬ IsCalm w₀
          → Held w₀ (h ∷ a ∷ []) w
          → w₀.next ≤ p
          → Held w₀ (h ∷ a ∷ []) (free p w)
      free_again-Held w heap late held n =
          free-absent_Held p (h ∷ a ∷ []) w heap n late (ground arith) held

-- What a cleanup has to do: whatever is held, it goes on with nothing held if `undo` gets there.
abbrev pub Cleans : World → (World → World) → M (Unit {0}) → Type 0
Cleans w₀ undo cleanup =
    (bs : List ℕ) (w : World)
    → Held w₀ bs w
    → ((w₁ : World) → Held w₀ bs w₁ → Held w₀ [] (undo w₁))
    → Keeps w₀ [] (cleanup w)

module _ (w₀ : World) (ar : ℕ → AsyncResult) (same : (a : ℕ) → (ar a).block ≡ a) (cb : Callback)
    (proxy : ℕ) (member : String) (setup : Handler → Setup) (reply : ReplyFunction)
    (cleanup : Handler → M (Unit {0})) where
  pub call_with_result-Done :
      (w : World)
      → Held w₀ [] w
      → ((x : Handler) (bs : List ℕ) (w' : World) → Held w₀ bs w' → Held w₀ bs (setup x w').1)
      → ((x : Handler) → Cleans w₀ (handler_release (some x)) (cleanup x))
      → Done w₀ [] (call_with_result ar cb proxy member setup reply cleanup w)
  unfolding call_with_result
  call_with_result-Done w held kept cleaned =
      malloc-Done w₀ [] _ w [] _ held (λ _ k. k)
        λ a w₃ h₃ _ _.
          malloc-Done w₀ [] _ _ (a ∷ []) _ h₃
            (λ w' k. free-Held a (a ∷ []) [] w' (remove-first a []) k)
            λ h w₄ h₄ ah _.
              let freed = λ (w' : World) (k : Held w₀ (h ∷ a ∷ []) w').
                handler_release-Held a h (ar a) cb w' (same a) ah.0 k in
              let x = handler_of (ar a) cb h in
              call-Done w₀ [] proxy member _ reply _ _ w₄ (h ∷ a ∷ []) (h ∷ a ∷ []) h₄
                (kept x (h ∷ a ∷ [])) (ap (λ b. h ∷ b ∷ []) (same a))
                (λ w' k. cleaned x (h ∷ a ∷ []) w' k freed)
                (λ w' late k. cleaned x (h ∷ a ∷ []) w' k freed)

  -- The setup function frees the parameter.
  pub call_with_param-Done :
      (w : World) (p : ℕ)
      → IsHeap w₀
      → w₀.next ≤ p
      → Held w₀ (p ∷ []) w
      → ((a h : ℕ) (w' : World)
          → Held w₀ (h ∷ a ∷ []) (free p w')
          → Held w₀ (h ∷ a ∷ []) (setup (handler_of (ar a) cb h) w').1)
      → ((x : Handler) → Cleans w₀ (λ w₁. handler_release (some x) (free p w₁)) (cleanup x))
      → Done w₀ [] (call_with_param ar cb proxy member setup reply cleanup p w)
  unfolding call_with_param
  call_with_param-Done w p heap fresh held frees cleaned =
      malloc-Done w₀ [] _ w (p ∷ []) _ held
        (λ w' k. free-Held p (p ∷ []) [] w' (remove-first p []) k)
        λ a w₃ h₃ pa _.
          malloc-Done w₀ [] _ _ (a ∷ p ∷ []) _ h₃ (free_two-Held p a pa.0) λ h w₄ h₄ ah _.
            let x = handler_of (ar a) cb h in
            call-Done w₀ [] proxy member _ reply _ _ w₄ (h ∷ a ∷ p ∷ []) (h ∷ a ∷ []) h₄
              (λ w' k. frees a h w' (free_param-Held p a pa.0 h ah.0 w' k))
              (ap (λ b. h ∷ b ∷ []) (same a))
              (λ w' k. cleaned x (h ∷ a ∷ p ∷ []) w' k λ w₁ k₁.
                handler_release-Held a h (ar a) cb _ (same a) ah.0
                  (free_param-Held p a pa.0 h ah.0 w₁ k₁))
              (λ w' late k. cleaned x (h ∷ a ∷ []) w' k λ w₁ k₁.
                handler_release-Held a h (ar a) cb _ (same a) ah.0
                  (free_again-Held p a pa.0 h ah.0 w₁ heap late k₁ fresh))
