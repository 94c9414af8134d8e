-- ===== src/Call/Registration.antt =====
-- The registrations for the signals of calls, under one name, and what they do with memory.
use frameworks_connectivity.Common.{ℕ, ◌<◌, ◌≡◌, refl, ℤ, String, List, ◌∷◌, Option, some, arith}
use frameworks_connectivity.Utils.Modem.{Config}
use frameworks_connectivity.Records.{Code, AsyncResult, Callback, Context}
use frameworks_connectivity.Bus.Monad.{World, M, handler_release, SignalFunction}
use frameworks_connectivity.Bus.Heap.{remove-first}
use frameworks_connectivity.Bus.Held.{free_live}
use frameworks_connectivity.Bus.Request.{handler_of}
use frameworks_connectivity.Call.Signal.{Ofono}
use frameworks_connectivity.Call.Watch
use frameworks_connectivity.Call.WatchMemory.{
  Watched, non_null-Watched, require-Watched, allocated-Watched,
}

pub data CallSignal : Type 0 where
  emergency_list ringback_tone call_state : ℤ → CallSignal
  default_voicecall_slot : CallSignal

-- The result is allocated before the handler.
release_handler :
    (ar : AsyncResult) (cb : Callback) (p q : ℕ) (l : List ℕ) (w : World)
    → ar.block ≡ p
    → p < q
    → w.live ≡ q ∷ p ∷ l
    → handler_release (some (handler_of ar cb q)) w ≡ record w { live = l }
unfolding handler_release
release_handler ar cb p q l w same lt e =
    rw (same, free_live p w (q ∷ l) (rw e (ground arith)))
      (free_live q (record w { live = q ∷ l }) l (remove-first q l))

-- The handler is allocated before the result.
release_result :
    (ar : AsyncResult) (cb : Callback) (p q : ℕ) (l : List ℕ) (w : World)
    → ar.block ≡ q
    → w.live ≡ q ∷ p ∷ l
    → handler_release (some (handler_of ar cb p)) w ≡ record w { live = l }
unfolding handler_release
release_result ar cb p q l w same e =
    rw (same, free_live q w (p ∷ l) (rw e (remove-first q (p ∷ l))))
      (free_live p (record w { live = p ∷ l }) l (remove-first p l))

module _ (cfg : Config) (names : Ofono) (ctx : Option Context) (user_obj : Option ℕ)
    (cb : Callback) where
  unfoldable pub register : CallSignal → M Code
  register (emergency_list slot_id) =
      Watch.register_emergency_list_change cfg names ctx slot_id user_obj cb
  register (ringback_tone slot_id) =
      Watch.register_ringback_tone_change cfg names ctx slot_id user_obj cb
  register (call_state slot_id) = Watch.register_call_state_change cfg names ctx slot_id user_obj cb
  register default_voicecall_slot =
      Watch.register_default_voicecall_slot_change cfg names ctx user_obj cb

  module _ (w : World) where
    manager_signal-Watched :
        (c : Option Context) (slot_id : ℤ) (interface : String) (msg : ℤ) (f : SignalFunction)
        → Watched w
            (Watch.register_manager_call_signal cfg names c slot_id interface msg user_obj cb f w)
    unfolding Watch.register_manager_call_signal
    manager_signal-Watched c slot_id interface msg f = non_null-Watched w _ _ _ λ c _.
        require-Watched w _ _ _ λ _. non_null-Watched w _ _ _ λ member _.
          non_null-Watched w _ _ _ λ path _.
            allocated-Watched w _ _ (λ p q. refl)
              λ p q l w' lt e. release_handler _ cb p q l w' refl lt e

    -- A registration for a signal of calls never crashes. With a result, which is not 0, exactly
    -- one watch more is installed, and once gdbus has freed that watch's handler the live blocks
    -- are those of before. With an error no watch is installed and every block is freed.
    pub register-Watched : (s : CallSignal) → Watched w (register s w)
    unfolding register Watch.register_emergency_list_change Watch.register_ringback_tone_change
        Watch.register_default_voicecall_slot_change Watch.register_call_state_change
    register-Watched (emergency_list slot_id) =
        non_null-Watched w _ _ _
          λ c _. require-Watched w _ _ _ λ _. manager_signal-Watched _ _ _ _ _
    register-Watched (ringback_tone slot_id) =
        non_null-Watched w _ _ _
          λ c _. require-Watched w _ _ _ λ _. manager_signal-Watched _ _ _ _ _
    register-Watched default_voicecall_slot =
        non_null-Watched w _ _ _ λ c _. manager_signal-Watched _ _ _ _ _
    register-Watched (call_state slot_id) = non_null-Watched w _ _ _ λ c _.
        require-Watched w _ _ _ λ _. non_null-Watched w _ _ _ λ path _.
          allocated-Watched w _ _ (λ p q. refl) λ p q l w' lt e. release_result _ cb p q l w' refl e
