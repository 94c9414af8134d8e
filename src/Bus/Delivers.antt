-- ===== src/Bus/Delivers.antt =====
-- Rules for when a request reports success, one for each step that a request is made of.
use frameworks_connectivity.Common.{
  ℕ, suc, ◌≡◌, inl, inr, Bool, true, String, ◌∷◌, Option, some, Option-cases,
}
use frameworks_connectivity.Records.{Errno, Code, ret, AsyncResult, Handler, Callback}
use frameworks_connectivity.Bus.Monad.{
  World, Step, go, stop, crash, M, ◌>>=◌, sent, require, non_null, malloc, Setup, ReplyFunction,
  UserData, method_call, or_fail, returns, free, remove,
}
use frameworks_connectivity.Bus.Steps.{
  bind_go, malloc_given, sent_returns, setup_done, method_call_sent,
}
use frameworks_connectivity.Bus.Held.{free_live, free_absent}
use frameworks_connectivity.Bus.Request.{call_with_result, call_with_param}

-- The allocator always gives a block, and gdbus sends every call.
pub record IsWilling (w : World) : Type 0 where
  pub mallocs : (n : ℕ) → w.mallocs n ≡ true
  pub outcomes : (n : ℕ) → w.outcomes n ≡ sent

-- The request returns no error.
abbrev pub Delivers : Step Code → Type 0
Delivers (stop (ret n) w) = Unit
Delivers _ = ⊥

-- A step that goes on, in a willing environment.
abbrev pub Steady : Step (Unit {0}) → Type 0
Steady (go _ w) = IsWilling w
Steady _ = ⊥

pub free-IsWilling : (p : ℕ) (w : World) → IsWilling w → IsWilling (free p w)
free-IsWilling p w h = elim (Option-cases (remove p w.live)) [
  | inl e ↦ rw (free_absent p w e) (record { mallocs = h.mallocs; outcomes = h.outcomes })
  | inr f ↦ rw (free_live p w f.0 f.1) (record { mallocs = h.mallocs; outcomes = h.outcomes })
]

pub non_null-Delivers :
    {A : Type 0} (f : A → M Code) (w : World) (o : Option A) (e : Errno) (a : A)
    → o ≡ some a
    → Delivers (f a w)
    → Delivers ((non_null o e >>= f) w)
unfolding ◌>>=◌ non_null
non_null-Delivers f w o e a h k = rw (h, non_null) k

pub require-Delivers :
    (f : Unit {0} → M Code) (w : World) (b : Bool) (e : Errno)
    → b ≡ true
    → Delivers (f tt w)
    → Delivers ((require b e >>= f) w)
unfolding ◌>>=◌ require
require-Delivers f w b e h k = rw (h, require) k

pub malloc-Delivers :
    (f : ℕ → M Code) (w : World) (cleanup : World → World)
    → IsWilling w
    → ((p : ℕ) (w' : World) → IsWilling w' → Delivers (f p w'))
    → Delivers ((malloc cleanup >>= f) w)
malloc-Delivers f w cleanup h k =
    rw
      (bind_go (malloc cleanup) f w (record w { next = suc w.next; live = w.next ∷ w.live }) w.next
        (malloc_given cleanup w (h.mallocs w.next)))
      (k w.next (record w { next = suc w.next; live = w.next ∷ w.live })
        (record { mallocs = h.mallocs; outcomes = h.outcomes }))

pub Steady-Delivers :
    (m : M (Unit {0})) (f : Unit {0} → M Code) (w : World)
    → Steady (m w)
    → ((w' : World) → IsWilling w' → Delivers (f tt w'))
    → Delivers ((m >>= f) w)
unfolding ◌>>=◌
Steady-Delivers m f w h k = after (m w) h
  where
    after :
        (s : Step (Unit {0}))
        → Steady s
        → Delivers (elim s [ go u w' ↦ f tt w' | stop c w' ↦ stop c w' | crash ↦ crash ])
    after (go u w') e = k w' e
    after (stop c w') e = absurd e
    after crash e = absurd e

module _ (proxy : ℕ) (member : String) (setup : Setup) (reply : ReplyFunction) (data_ : UserData)
    (cleanup : M (Unit {0})) (w : World) where
  pub call-Delivers :
      IsWilling w
      → Delivers (
          (method_call proxy member setup reply data_ >>= λ done.
          or_fail done cleanup >>= λ _. returns (ret 0))
            w)
  unfolding setup_done
  call-Delivers h =
      rw
        (bind_go (method_call proxy member setup reply data_) _ w _ true
          (method_call_sent proxy member setup reply data_ w (h.outcomes w.next)))
        (rw (sent_returns cleanup _) tt)

module _ (ar : ℕ → AsyncResult) (cb : Callback) (proxy : ℕ) (member : String)
    (setup : Handler → Setup) (reply : ReplyFunction) (cleanup : Handler → M (Unit {0})) (w : World)
    (h : IsWilling w) where
  pub call_with_result-Delivers :
      Delivers (call_with_result ar cb proxy member setup reply cleanup w)
  unfolding call_with_result
  call_with_result-Delivers =
      malloc-Delivers _ w _ h
        λ a w₁ h₁. malloc-Delivers _ w₁ _ h₁ λ b w₂ h₂. call-Delivers proxy member _ reply _ _ w₂ h₂

  pub call_with_param-Delivers :
      (p : ℕ) → Delivers (call_with_param ar cb proxy member setup reply cleanup p w)
  unfolding call_with_param
  call_with_param-Delivers p =
      malloc-Delivers _ w _ h
        λ a w₁ h₁. malloc-Delivers _ w₁ _ h₁ λ b w₂ h₂. call-Delivers proxy member _ reply _ _ w₂ h₂
