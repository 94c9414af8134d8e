-- ===== src/Call/ControlProtocol.antt =====
-- The requests whose reply is not looked at, against the table of what goes on the bus.
use frameworks_connectivity.Common.{ℤ, String, CString, ◌≡◌, refl, List, [], ◌∷◌, Option, Bool}
use frameworks_connectivity.Utils.Modem.{Config}
use frameworks_connectivity.Records.{Context}
use frameworks_connectivity.Bus.Monad.{World, array_arg, no_operate_callback, keep, free_block}
use frameworks_connectivity.Bus.Issued.{
  Succeeds, non_null-Succeeds, require-Succeeds, malloc-Succeeds, Quiet-Succeeds, call-Succeeds,
}
use frameworks_connectivity.Call.Control
use frameworks_connectivity.Call.Sent.{CallRequest}
use frameworks_connectivity.Call.Protocol.{wire, Allowed, Issued, issued}
use frameworks_connectivity.Bus.Frees.{releasing-Quiet, free_pending}
use frameworks_connectivity.Bus.Logging.{Quiet-then}
use frameworks_connectivity.Call.QuietSteps.{report-Quiet, report_if-Quiet, freeing-Succeeds}

module _ (cfg : Config) (ctx : Option Context) (slot_id : ℤ) (w : World) where
  module _ (r : CallRequest) (member : String) where
    manage-Issued :
        Allowed r
        → wire slot_id r
          ≡ record { member = member; args = []; reply = no_operate_callback; client = Option.none }
        → (w₀ : World) → w₀.pending ≡ w.pending
        → Succeeds
            (Issued cfg ctx slot_id r w.pending)
            (Control.manage_call_proxy_method cfg ctx slot_id member w₀)
    unfolding Control.manage_call_proxy_method
    manage-Issued allowed row w₀ e₀ = non_null-Succeeds _ _ w₀ _ _ λ c given.
        require-Succeeds _ _ w₀ _ _ λ valid. non_null-Succeeds _ _ w₀ _ _ λ proxy found.
          call-Succeeds _ proxy member _ _ _ _ w₀ (λ _. refl)
            (λ w'. Quiet-then _ _ w' (report_if-Quiet cfg ctx _ _ _ _ _ w' _) λ w₁.
              Quiet-then _ _ w₁ (report_if-Quiet cfg ctx _ _ _ _ _ w₁ _)
                λ w₂. releasing-Quiet _ w₂ refl)
            λ w' p e f.
              issued cfg ctx slot_id r c proxy keep w w' p allowed given valid found (rw row refl)
                (rw (← e₀) e) (rw row f)

    pub manage_call-Issued :
        Allowed r
        → wire slot_id r
          ≡ record { member = member; args = []; reply = no_operate_callback; client = Option.none }
        → Succeeds
            (Issued cfg ctx slot_id r w.pending)
            (Control.manage_call_proxy_method cfg ctx slot_id member w)
    manage_call-Issued allowed row = manage-Issued allowed row w refl

  pub release_and_answer-Issued :
      Succeeds
        (Issued cfg ctx slot_id CallRequest.release_and_answer w.pending)
        (Control.release_and_answer cfg ctx slot_id w)
  unfolding Control.release_and_answer
  release_and_answer-Issued =
      Quiet-Succeeds _ _ _ w (report-Quiet cfg ctx _ _ _ _ _ w)
        (manage-Issued CallRequest.release_and_answer "ReleaseAndAnswer" tt refl)

  pub hold_and_answer-Issued :
      Succeeds
        (Issued cfg ctx slot_id CallRequest.hold_and_answer w.pending)
        (Control.hold_and_answer cfg ctx slot_id w)
  unfolding Control.hold_and_answer
  hold_and_answer-Issued =
      Quiet-Succeeds _ _ _ w (report-Quiet cfg ctx _ _ _ _ _ w)
        (manage-Issued CallRequest.hold_and_answer "HoldAndAnswer" tt refl)

  pub hangup_all_calls-Issued :
      Succeeds
        (Issued cfg ctx slot_id CallRequest.hangup_all_calls w.pending)
        (Control.hangup_all_calls cfg ctx slot_id w)
  unfolding Control.hangup_all_calls
  hangup_all_calls-Issued =
      Quiet-Succeeds _ _ _ w (report-Quiet cfg ctx _ _ _ _ _ w)
        (manage-Issued CallRequest.hangup_all_calls "HangupAll" tt refl)

  pub send_tones-Issued :
      (tones : CString)
      → Succeeds
          (Issued cfg ctx slot_id (CallRequest.send_tones tones) w.pending)
          (Control.send_tones cfg ctx slot_id tones w)
  unfolding Control.send_tones
  send_tones-Issued tones = non_null-Succeeds _ _ w _ _ λ c given.
      require-Succeeds _ _ w _ _ λ valid. non_null-Succeeds _ _ w _ _ λ proxy found.
        call-Succeeds _ proxy _ _ _ _ _ w (λ _. refl) (λ w'. releasing-Quiet _ w' refl)
          λ w' p e f.
            issued cfg ctx slot_id (CallRequest.send_tones tones) c proxy keep w w' p tt given valid
              found refl e f

  pub answer_by_id-Issued :
      (call_id : CString)
      → Succeeds
          (Issued cfg ctx slot_id (CallRequest.answer_by_id call_id) w.pending)
          (Control.answer_by_id cfg ctx slot_id call_id w)
  unfolding Control.answer_by_id
  answer_by_id-Issued call_id = Quiet-Succeeds _ _ _ w (report-Quiet cfg ctx _ _ _ _ _ w) λ w₀ e₀.
      non_null-Succeeds _ _ w₀ _ _ λ c given. require-Succeeds _ _ w₀ _ _ λ valid.
        non_null-Succeeds _ _ w₀ _ _ λ id named. non_null-Succeeds _ _ w₀ _ _ λ proxy found.
          call-Succeeds _ proxy _ _ _ _ _ w₀ (λ _. refl)
            (λ w'.
              Quiet-then _ _ w' (report-Quiet cfg ctx _ _ _ _ _ w') λ w₁. releasing-Quiet _ w₁ refl)
            λ w' p e f.
              issued cfg ctx slot_id (CallRequest.answer_by_id call_id) c proxy keep w w' p
                (id, named) given valid found refl (rw (← e₀) e) (rw named f)

  pub hangup_by_id-Issued :
      (call_id : CString)
      → Succeeds
          (Issued cfg ctx slot_id (CallRequest.hangup_by_id call_id) w.pending)
          (Control.hangup_by_id cfg ctx slot_id call_id w)
  unfolding Control.hangup_by_id
  hangup_by_id-Issued call_id = non_null-Succeeds _ _ w _ _ λ c given.
      require-Succeeds _ _ w _ _ λ valid. non_null-Succeeds _ _ w _ _ λ id named.
        non_null-Succeeds _ _ w _ _ λ proxy found.
          call-Succeeds _ proxy _ _ _ _ _ w (λ _. refl)
            (λ w'.
              Quiet-then _ _ w' (report-Quiet cfg ctx _ _ _ _ _ w') λ w₁. releasing-Quiet _ w₁ refl)
            λ w' p e f.
              issued cfg ctx slot_id (CallRequest.hangup_by_id call_id) c proxy keep w w' p
                (id, named) given valid found refl e (rw named f)

  pub deflect_by_id-Issued :
      (call_id number : CString)
      → Succeeds
          (Issued cfg ctx slot_id (CallRequest.deflect_by_id call_id number) w.pending)
          (Control.deflect_by_id cfg ctx slot_id call_id number w)
  unfolding Control.deflect_by_id
  deflect_by_id-Issued call_id number = non_null-Succeeds _ _ w _ _ λ c given.
      require-Succeeds _ _ w _ _ λ valid. non_null-Succeeds _ _ w _ _ λ id named.
        non_null-Succeeds _ _ w _ _ λ n numbered. non_null-Succeeds _ _ w _ _ λ proxy found.
          malloc-Succeeds _ _ w _ λ q w₁ e₁.
            call-Succeeds _ proxy _ _ _ _ _ w₁ (λ _. refl)
              (λ w'. releasing-Quiet _ w' (free_pending q w'))
              λ w' p e f.
                issued cfg ctx slot_id (CallRequest.deflect_by_id call_id number) c proxy
                  (free_block q) w w' p ((id, named), (n, numbered)) given valid found refl
                  (rw (← e₁) e) (rw (named, numbered) f)

  module _ (r : CallRequest) (member : String) (participants : List CString) (size : ℤ) where
    conference-Issued :
        (Control.is_conference_size size ≡ Bool.true → Allowed r)
        → wire slot_id r ≡ record {
          member = member;
          args = array_arg participants ∷ [];
          reply = no_operate_callback;
          client = Option.none;
        }
        → (w₀ : World) → w₀.pending ≡ w.pending
        → Succeeds
            (Issued cfg ctx slot_id r w.pending)
            (Control.conference cfg ctx slot_id member participants size w₀)
    unfolding Control.conference
    conference-Issued allowed row w₀ e₀ = malloc-Succeeds _ _ w₀ _ λ q w₁ e₁.
        freeing-Succeeds _ q _ w₁ (
          non_null-Succeeds _ _ w₁ _ _ λ c given. require-Succeeds _ _ w₁ _ _ λ valid.
            require-Succeeds _ _ w₁ _ _ λ fits. non_null-Succeeds _ _ w₁ _ _ λ proxy found.
              call-Succeeds _ proxy member _ _ _ _ w₁ (λ _. refl)
                (λ w'.
                  Quiet-then _ _ w' (report_if-Quiet cfg ctx _ _ _ _ _ w' _)
                    λ w₂. releasing-Quiet _ w₂ refl)
                λ w' p e f.
                  issued cfg ctx slot_id r c proxy (free_block q) w w' p (allowed fits) given valid
                    found (rw row refl) (rw (← e₀, ← e₁) e) (rw row f))

  pub invite_participants-Issued :
      (participants : List CString) (size : ℤ)
      → Succeeds
          (Issued cfg ctx slot_id (CallRequest.invite_participants participants size) w.pending)
          (Control.invite_participants cfg ctx slot_id participants size w)
  unfolding Control.invite_participants
  invite_participants-Issued participants size =
      conference-Issued (CallRequest.invite_participants participants size) "InviteParticipants"
        participants size (λ h. h) refl w refl

  pub dial_conference-Issued :
      (participants : List CString) (size : ℤ)
      → Succeeds
          (Issued cfg ctx slot_id (CallRequest.dial_conference participants size) w.pending)
          (Control.dial_conference cfg ctx slot_id participants size w)
  unfolding Control.dial_conference
  dial_conference-Issued participants size =
      Quiet-Succeeds _ _ _ w (report-Quiet cfg ctx _ _ _ _ _ w) (
        conference-Issued (CallRequest.dial_conference participants size) "DialConference"
          participants size (λ h. h) refl)
