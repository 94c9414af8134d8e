-- ===== src/Call/RequestMemory.antt =====
-- What each request that waits for a reply does with memory.
use frameworks_connectivity.Common.{ℕ, ℤ, CString, [], Option, refl}
use frameworks_connectivity.Utils.Modem.{Config}
use frameworks_connectivity.Records.{Callback, Context}
use frameworks_connectivity.Bus.Monad.{World}
use frameworks_connectivity.Bus.Heap.{IsHeap}
use frameworks_connectivity.Bus.Held.{Held-refl, Done}
use frameworks_connectivity.Bus.Rules.{
  non_null-Done, require-Done, malloc-Done, Keeps-Done, Keeps-Keeps, releasing-Keeps,
}
use frameworks_connectivity.Bus.RequestRules.{call_with_result-Done, call_with_param-Done}
use frameworks_connectivity.Call.Request.{
  dial, call_play_dtmf, get_all_calls, merge_call, separate_call,
}
use frameworks_connectivity.Call.Memory.{deref-Done, report-Keeps}

module _ (cfg : Config) (ctx : Option Context) (slot_id event_id : ℤ) (cb : Callback)
    (w : World) where
  pub dial-Done :
      (number : CString) (hide : ℤ)
      → IsHeap w
      → Done w [] (dial cfg ctx slot_id number hide event_id cb w)
  unfolding dial
  dial-Done number hide heap =
      Keeps-Done w [] _ _ _ [] (report-Keeps cfg _ _ _ _ _ w [] ctx (Held-refl w)) λ w₁ h₁.
        non_null-Done w [] _ _ _ _ h₁ λ c _. require-Done w [] _ _ _ _ h₁ λ _.
          non_null-Done w [] _ _ _ _ h₁ λ proxy _.
            malloc-Done w [] _ _ [] _ h₁ (λ _ h. h)
              λ p w₂ h₂ _ fresh. deref-Done w [] _ _ _ λ n.
                call_with_param-Done w _ (λ _. refl) cb proxy _ _ _ _ w₂ p heap fresh h₂
                  (λ _ _ _ k. k)
                  λ x bs w' k freed.
                    Keeps-Keeps w [] _ _ w' bs (report-Keeps cfg _ _ _ _ _ w' bs ctx k)
                      λ w₅ k₅. releasing-Keeps w [] _ w₅ (freed w₅ k₅)

  pub call_play_dtmf-Done :
      (digit : ℕ) (flag : ℤ)
      → IsHeap w
      → Done w [] (call_play_dtmf cfg ctx slot_id digit flag event_id cb w)
  unfolding call_play_dtmf
  call_play_dtmf-Done digit flag heap = non_null-Done w [] _ _ _ _ (Held-refl w) λ c _.
      require-Done w [] _ _ _ _ (Held-refl w) λ _. require-Done w [] _ _ _ _ (Held-refl w) λ _.
        non_null-Done w [] _ _ _ _ (Held-refl w) λ proxy _.
          malloc-Done w [] _ _ [] _ (Held-refl w) (λ _ h. h)
            λ p w₂ h₂ _ fresh.
              call_with_param-Done w _ (λ _. refl) cb proxy _ _ _ _ w₂ p heap fresh h₂
                (λ _ _ _ k. k) λ x bs w' k freed. releasing-Keeps w [] _ w' (freed w' k)

  pub get_all_calls-Done : Done w [] (get_all_calls cfg ctx slot_id event_id cb w)
  unfolding get_all_calls
  get_all_calls-Done = non_null-Done w [] _ _ _ _ (Held-refl w) λ c _.
      require-Done w [] _ _ _ _ (Held-refl w) λ _.
        non_null-Done w [] _ _ _ _ (Held-refl w) λ proxy _.
          call_with_result-Done w _ (λ _. refl) cb proxy _ _ _ _ w (Held-refl w) (λ _ _ _ k. k)
            λ x bs w' k freed. releasing-Keeps w [] _ w' (freed w' k)

  pub merge_call-Done : Done w [] (merge_call cfg ctx slot_id event_id cb w)
  unfolding merge_call
  merge_call-Done =
      Keeps-Done w [] _ _ _ [] (report-Keeps cfg _ _ _ _ _ w [] ctx (Held-refl w)) λ w₁ h₁.
        non_null-Done w [] _ _ _ _ h₁ λ c _. require-Done w [] _ _ _ _ h₁ λ _.
          non_null-Done w [] _ _ _ _ h₁ λ proxy _.
            call_with_result-Done w _ (λ _. refl) cb proxy _ _ _ _ w₁ h₁ (λ _ _ _ k. k)
              λ x bs w' k freed.
                Keeps-Keeps w [] _ _ w' bs (report-Keeps cfg _ _ _ _ _ w' bs ctx k)
                  λ w₅ k₅. releasing-Keeps w [] _ w₅ (freed w₅ k₅)

  pub separate_call-Done :
      (call_id : CString) → Done w [] (separate_call cfg ctx slot_id event_id call_id cb w)
  unfolding separate_call
  separate_call-Done call_id = non_null-Done w [] _ _ _ _ (Held-refl w) λ c _.
      require-Done w [] _ _ _ _ (Held-refl w) λ _. non_null-Done w [] _ _ _ _ (Held-refl w) λ id _.
        non_null-Done w [] _ _ _ _ (Held-refl w) λ proxy _.
          call_with_result-Done w _ (λ _. refl) cb proxy _ _ _ _ w (Held-refl w) (λ _ _ _ k. k)
            λ x bs w' k freed. releasing-Keeps w [] _ w' (freed w' k)
