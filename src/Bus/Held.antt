-- ===== src/Bus/Held.antt =====
-- What a request holds while it runs, and what it may have done when it returns.
use frameworks_connectivity.Common.{
  ℕ, suc, ◌≤◌, ◌<◌, ◌≡◌, ◌≢◌, refl, Bool, true, false, List, [], ◌∷◌, ◌++◌, some, none, All,
  if◌then◌else◌, arith,
}
use frameworks_connectivity.Records.{Code, ret, fail, AsyncResult, Callback}
use frameworks_connectivity.Bus.Monad.{
  World, Step, go, stop, crash, refused_late, free, handler_release, remove,
}
use frameworks_connectivity.Bus.Heap.{
  IsHeap, All-lt-le, remove-first, remove-append, remove-absent, remove-absent_append, All-remove,
}
use frameworks_connectivity.Bus.Ownership.{Handed}

-- No call is refused after its setup function has run.
abbrev pub IsCalm : World → Type 0
IsCalm w = (n : ℕ) → w.outcomes n ≢ refused_late

-- The request that started in `w₀` holds the blocks `bs` in `w`, and nothing else has changed.
pub record Held (w₀ : World) (bs : List ℕ) (w : World) : Type 0 where
  pub pending : w.pending ≡ w₀.pending
  pub live : w.live ≡ bs ++ w₀.live
  pub below : All (λ b. b < w.next) bs
  pub counted : w₀.next ≤ w.next
  pub answers : w.outcomes ≡ w₀.outcomes
  pub calm : IsCalm w₀ → w.bad_free ≡ w₀.bad_free

-- What a request has done with memory when it returns: on success one more call is pending and
-- owns all that was allocated since the start; on an error only the blocks `fs` are still held.
-- Either way nothing was freed twice, if no call was refused after its setup function had run.
abbrev pub Done : World → List ℕ → Step Code → Type 0
Done w₀ fs (go c w) = ⊥
Done w₀ fs (stop (ret n) w) = Handed w₀ w.pending w × (IsCalm w₀ → w.bad_free ≡ w₀.bad_free)
Done w₀ fs (stop (fail e) w) = Held w₀ fs w
Done w₀ fs crash = Unit

-- A step that goes on holding `bs`.
abbrev pub Keeps : World → List ℕ → Step (Unit {0}) → Type 0
Keeps w₀ bs (go _ w) = Held w₀ bs w
Keeps w₀ bs (stop c w) = ⊥
Keeps w₀ bs crash = Unit

pub Held-refl : (w : World) → Held w [] w
Held-refl w = record {
  pending = refl;
  live = refl;
  below = tt;
  counted = omega arith;
  answers = refl;
  calm = λ _. refl;
}

pub Keeps-if :
    (w₀ : World) (b : Bool) (x y : Step (Unit {0})) (bs : List ℕ)
    → (b ≡ true → Keeps w₀ bs x)
    → (b ≡ false → Keeps w₀ bs y)
    → Keeps w₀ bs (if b then x else y)
Keeps-if w₀ true x y bs h k = h refl
Keeps-if w₀ false x y bs h k = k refl

pub free_live :
    (p : ℕ) (w : World) (l : List ℕ) → remove p w.live ≡ some l → free p w ≡ record w { live = l }
unfolding free
free_live p w l e = rw (e, free)

pub free_absent :
    (p : ℕ) (w : World) → remove p w.live ≡ none → free p w ≡ record w { bad_free = true }
unfolding free
free_absent p w e = rw (e, free)

module _ {w₀ : World} where
  -- A held block is freed.
  pub free-Held :
      (p : ℕ) (bs cs : List ℕ) (w : World)
      → remove p bs ≡ some cs
      → Held w₀ bs w
      → Held w₀ cs (free p w)
  free-Held p bs cs w e h =
      rw (free_live p w (cs ++ w₀.live) (rw h.live (remove-append p bs cs w₀.live e))) (record {
        pending = h.pending;
        live = refl;
        below = All-remove p w.next bs cs e h.below;
        counted = h.counted;
        answers = h.answers;
        calm = h.calm;
      })

  -- A block that is not held, and was allocated since the start, is freed once too often.
  pub free-absent_Held :
      (p : ℕ) (bs : List ℕ) (w : World)
      → IsHeap w₀
      → w₀.next ≤ p
      → ¬ IsCalm w₀
      → remove p bs ≡ none
      → Held w₀ bs w
      → Held w₀ bs (free p w)
  free-absent_Held p bs w heap n late e h =
      rw
        (free_absent p w (
          rw h.live (remove-absent_append p bs w₀.live e (remove-absent p w₀.next w₀.live n heap))))
        (record {
          pending = h.pending;
          live = h.live;
          below = h.below;
          counted = h.counted;
          answers = h.answers;
          calm = λ c. absurd (late c);
        })

  -- A question to the environment changes nothing that is held.
  pub tick-Held :
      (bs : List ℕ) (w : World) → Held w₀ bs w → Held w₀ bs (record w { next = suc w.next })
  tick-Held bs w h = record {
    pending = h.pending;
    live = h.live;
    below = All-lt-le bs (omega arith) h.below;
    counted = omega (arith, h.counted);
    answers = h.answers;
    calm = h.calm;
  }

  -- A handler and its result are freed together.
  pub handler_release-Held :
      (a h : ℕ) (ar : AsyncResult) (cb : Callback) (w : World)
      → ar.block ≡ a
      → a < h
      → Held w₀ (h ∷ a ∷ []) w
      → Held w₀ []
          (handler_release (some (record { block = h; result = some ar; cb_function = cb })) w)
  unfolding handler_release
  handler_release-Held a h ar cb w e lt held = rw e (
      free-Held h (h ∷ []) [] (free a w) (remove-first h [])
        (free-Held a (h ∷ a ∷ []) (h ∷ []) w (ground arith) held))
