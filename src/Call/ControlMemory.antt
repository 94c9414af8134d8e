-- ===== src/Call/ControlMemory.antt =====
-- What the requests whose reply is not looked at do with memory.
use frameworks_connectivity.Common.{ℕ, ℤ, String, CString, List, [], ◌∷◌, Option, refl}
use frameworks_connectivity.Utils.Modem.{Config}
use frameworks_connectivity.Records.{Code, ret, fail, Context}
use frameworks_connectivity.Bus.Monad.{World, Step, go, stop, crash, M}
use frameworks_connectivity.Bus.Heap.{remove-first}
use frameworks_connectivity.Bus.Held.{Held, Held-refl, Done, free-Held}
use frameworks_connectivity.Bus.Rules.{
  non_null-Done, require-Done, malloc-Done, Keeps-Done, Keeps-Keeps, releasing-Keeps,
  plain_call-Done,
}
use frameworks_connectivity.Call.Control.{
  manage_call_proxy_method, release_and_answer, hold_and_answer, hangup_all_calls, send_tones,
  answer_by_id, hangup_by_id, deflect_by_id, free_if_failed, freeing, conference, dial_conference,
  invite_participants,
}
use frameworks_connectivity.Call.Memory.{report-Keeps, report_if-Keeps}

module _ (w₀ : World) where
  freeing-step : (p : ℕ) (s : Step Code) → Done w₀ (p ∷ []) s → Done w₀ [] (free_if_failed p s)
  freeing-step p (go c w) h = absurd h
  freeing-step p (stop (ret n) w) h = h
  freeing-step p (stop (fail e) w) h = free-Held p (p ∷ []) [] w (remove-first p []) h
  freeing-step p crash h = tt

  -- The block is freed where the rest fails with it still held.
  freeing-Done :
      (p : ℕ) (m : M Code) (w : World) → Done w₀ (p ∷ []) (m w) → Done w₀ [] (freeing p m w)
  unfolding freeing
  freeing-Done p m w h = freeing-step p (m w) h

module _ (cfg : Config) (ctx : Option Context) (slot_id : ℤ) (w : World) where
  manage-Done :
      (member : String) (w₁ : World)
      → Held w [] w₁
      → Done w [] (manage_call_proxy_method cfg ctx slot_id member w₁)
  unfolding manage_call_proxy_method
  manage-Done member w₁ h₁ = non_null-Done w [] _ _ _ _ h₁ λ c _. require-Done w [] _ _ _ _ h₁ λ _.
      non_null-Done w [] _ _ _ _ h₁ λ proxy _.
        plain_call-Done w [] _ _ _ _ _ _ w₁ [] h₁ (λ _. refl) refl
          λ w' k. Keeps-Keeps w [] _ _ w' [] (report_if-Keeps cfg _ _ _ _ _ w' [] _ ctx k) λ w₂ k₂.
            Keeps-Keeps w [] _ _ w₂ [] (report_if-Keeps cfg _ _ _ _ _ w₂ [] _ ctx k₂)
              λ w₃ k₃. releasing-Keeps w [] _ w₃ k₃

  pub manage_call-Done :
      (member : String) → Done w [] (manage_call_proxy_method cfg ctx slot_id member w)
  manage_call-Done member = manage-Done member w (Held-refl w)

  pub release_and_answer-Done : Done w [] (release_and_answer cfg ctx slot_id w)
  unfolding release_and_answer
  release_and_answer-Done =
      Keeps-Done w [] _ _ _ [] (report-Keeps cfg _ _ _ _ _ w [] ctx (Held-refl w))
        (manage-Done "ReleaseAndAnswer")

  pub hold_and_answer-Done : Done w [] (hold_and_answer cfg ctx slot_id w)
  unfolding hold_and_answer
  hold_and_answer-Done =
      Keeps-Done w [] _ _ _ [] (report-Keeps cfg _ _ _ _ _ w [] ctx (Held-refl w))
        (manage-Done "HoldAndAnswer")

  pub hangup_all_calls-Done : Done w [] (hangup_all_calls cfg ctx slot_id w)
  unfolding hangup_all_calls
  hangup_all_calls-Done =
      Keeps-Done w [] _ _ _ [] (report-Keeps cfg _ _ _ _ _ w [] ctx (Held-refl w))
        (manage-Done "HangupAll")

  pub send_tones-Done : (tones : CString) → Done w [] (send_tones cfg ctx slot_id tones w)
  unfolding send_tones
  send_tones-Done tones = non_null-Done w [] _ _ _ _ (Held-refl w) λ c _.
      require-Done w [] _ _ _ _ (Held-refl w) λ _.
        non_null-Done w [] _ _ _ _ (Held-refl w) λ proxy _.
          plain_call-Done w [] _ _ _ _ _ _ w [] (Held-refl w) (λ _. refl) refl
            λ w' k. releasing-Keeps w [] _ w' k

  pub answer_by_id-Done : (call_id : CString) → Done w [] (answer_by_id cfg ctx slot_id call_id w)
  unfolding answer_by_id
  answer_by_id-Done call_id =
      Keeps-Done w [] _ _ _ [] (report-Keeps cfg _ _ _ _ _ w [] ctx (Held-refl w)) λ w₁ h₁.
        non_null-Done w [] _ _ _ _ h₁ λ c _. require-Done w [] _ _ _ _ h₁ λ _.
          non_null-Done w [] _ _ _ _ h₁ λ id _. non_null-Done w [] _ _ _ _ h₁ λ proxy _.
            plain_call-Done w [] _ _ _ _ _ _ w₁ [] h₁ (λ _. refl) refl
              λ w' k.
                Keeps-Keeps w [] _ _ w' [] (report-Keeps cfg _ _ _ _ _ w' [] ctx k)
                  λ w₂ k₂. releasing-Keeps w [] _ w₂ k₂

  pub hangup_by_id-Done : (call_id : CString) → Done w [] (hangup_by_id cfg ctx slot_id call_id w)
  unfolding hangup_by_id
  hangup_by_id-Done call_id = non_null-Done w [] _ _ _ _ (Held-refl w) λ c _.
      require-Done w [] _ _ _ _ (Held-refl w) λ _. non_null-Done w [] _ _ _ _ (Held-refl w) λ id _.
        non_null-Done w [] _ _ _ _ (Held-refl w) λ proxy _.
          plain_call-Done w [] _ _ _ _ _ _ w [] (Held-refl w) (λ _. refl) refl
            λ w' k.
              Keeps-Keeps w [] _ _ w' [] (report-Keeps cfg _ _ _ _ _ w' [] ctx k)
                λ w₂ k₂. releasing-Keeps w [] _ w₂ k₂

  pub deflect_by_id-Done :
      (call_id number : CString) → Done w [] (deflect_by_id cfg ctx slot_id call_id number w)
  unfolding deflect_by_id
  deflect_by_id-Done call_id number = non_null-Done w [] _ _ _ _ (Held-refl w) λ c _.
      require-Done w [] _ _ _ _ (Held-refl w) λ _. non_null-Done w [] _ _ _ _ (Held-refl w) λ id _.
        non_null-Done w [] _ _ _ _ (Held-refl w) λ n _.
          non_null-Done w [] _ _ _ _ (Held-refl w) λ proxy _.
            malloc-Done w [] _ _ [] _ (Held-refl w) (λ _ h. h)
              λ p w₁ h₁ _ _.
                plain_call-Done w [] _ _ _ _ _ _ w₁ (p ∷ []) h₁ (λ _. refl) refl
                  λ w' k.
                    releasing-Keeps w [] _ w' (free-Held p (p ∷ []) [] w' (remove-first p []) k)

  conference_from-Done :
      (member : String) (participants : List CString) (size : ℤ) (w₁ : World)
      → Held w [] w₁
      → Done w [] (conference cfg ctx slot_id member participants size w₁)
  unfolding conference
  conference_from-Done member participants size w₁ h₁ =
      malloc-Done w [] _ _ [] _ h₁ (λ _ h. h)
        λ p w₂ h₂ _ _. freeing-Done w p _ w₂ (
          non_null-Done w (p ∷ []) _ _ _ _ h₂ λ c _. require-Done w (p ∷ []) _ _ _ _ h₂ λ _.
            require-Done w (p ∷ []) _ _ _ _ h₂ λ _. non_null-Done w (p ∷ []) _ _ _ _ h₂ λ proxy _.
              plain_call-Done w (p ∷ []) _ _ _ _ _ _ w₂ (p ∷ []) h₂ (λ _. refl) refl
                λ w' k.
                  Keeps-Keeps w (p ∷ []) _ _ w' (p ∷ [])
                    (report_if-Keeps cfg _ _ _ _ _ w' (p ∷ []) _ ctx k)
                    λ w₃ k₃. releasing-Keeps w (p ∷ []) _ w₃ k₃)

  pub invite_participants-Done :
      (participants : List CString) (size : ℤ)
      → Done w [] (invite_participants cfg ctx slot_id participants size w)
  unfolding invite_participants
  invite_participants-Done participants size =
      conference_from-Done "InviteParticipants" participants size w (Held-refl w)

  pub dial_conference-Done :
      (participants : List CString) (size : ℤ)
      → Done w [] (dial_conference cfg ctx slot_id participants size w)
  unfolding dial_conference
  dial_conference-Done participants size =
      Keeps-Done w [] _ _ _ [] (report-Keeps cfg _ _ _ _ _ w [] ctx (Held-refl w))
        (conference_from-Done "DialConference" participants size)
