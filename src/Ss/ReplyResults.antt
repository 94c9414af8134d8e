-- ===== src/Ss/ReplyResults.antt =====
-- tapi_ss.c: what the reply functions hand to the client.
use frameworks_connectivity.Common.{
  ℕ, suc, String, Bool, true, ◌≡◌, refl, inl, inr, Bool-cases, Option, none, some, ◌∷◌,
  if◌then◌else◌,
}
use frameworks_connectivity.Records.{ok, error, AsyncResult, Handler, Payload}
use frameworks_connectivity.Bus.Message.{Message, get_int, get_text, is_string, iter_init, recurse}
use frameworks_connectivity.Bus.Monad.{
  World, SsReply, ss_method_call_complete, ss_initiate_complete, ss_send_ussd_cb, query_fdn_cb,
  query_call_waiting_cb, query_clir_cb, call_forwarding_query_complete,
}
use frameworks_connectivity.Bus.Heap.{remove-first}
use frameworks_connectivity.Bus.Held.{free_live}
use frameworks_connectivity.Bus.Client.{
  Reply, undefined, quiet, called, with_callback, is_fault, failed,
}
use frameworks_connectivity.Bus.Answers.{
  Answers, Answers-changed, Answers-if, client, told_error, checked,
}
use frameworks_connectivity.Manager.ReplyResults.{bound-Answers}
use frameworks_connectivity.Sim.Replies.{on_method_call_complete}
use frameworks_connectivity.Ss.Replies.{
  run_ss_reply, on_query, on_send_ussd, on_call_forwarding, on_initiate, fill_cf_conditions,
  unset_forwarding, lending, for_client, initiate_answer, ussd_response, initiating,
  forwarding_answer,
}

-- The reply functions that call the client, and the memory that they need.
abbrev pub is_telling : SsReply → World → Bool
is_telling call_forwarding_query_complete w = w.mallocs w.next
is_telling _ w = true

module _ (block cb : ℕ) (ar : AsyncResult) (m : Message) where
  initiate-Answers : (o : Option String) → Answers cb ar (initiate_answer cb ar o)
  initiate-Answers none = told_error block cb ar m
  initiate-Answers (some s) = Answers-changed cb ar (some ok) ar.arg2 (Payload.ussd s)

  lending-Answers :
      (x y : Reply) (w : World)
      → Answers cb ar x
      → Answers cb ar y
      → Answers cb ar (lending x y w).0
  lending-Answers x y w h k = elim (Bool-cases (w.mallocs w.next)) [
    | inl e ↦ rw e h
    | inr e ↦ rw e k
  ]

  initiate_reply-Answers :
      (w : World) → Answers cb ar (on_initiate (some (client block cb ar m)) m w).0
  unfolding on_initiate
  initiate_reply-Answers w = elim (Bool-cases (is_fault m)) [
    | inl e ↦ rw e (told_error block cb ar m)
    | inr e ↦ elim (Bool-cases (iter_init m)) [
      | inl i ↦
          rw (e, i)
            (lending-Answers _ _ w (initiate-Answers (ussd_response m.args))
              (told_error block cb ar m))
      | inr i ↦ rw (e, i) (told_error block cb ar m)
    ]
  ]

  pub run_ss_reply-Answers :
      (f : SsReply) (w : World)
      → is_telling f w ≡ true
      → Answers cb ar (run_ss_reply f (some (client block cb ar m)) m w).0
  unfolding run_ss_reply on_method_call_complete on_query on_send_ussd on_call_forwarding
  run_ss_reply-Answers ss_method_call_complete w h =
      Answers-changed cb ar (some (if is_fault m then error else ok)) ar.arg2 ar.contents
  run_ss_reply-Answers ss_initiate_complete w h = initiate_reply-Answers w
  run_ss_reply-Answers ss_send_ussd_cb w h = checked block cb ar m true _ (
      Answers-if cb ar (is_string m.args) _ _
        (bound-Answers block cb ar m (get_text m.args) _
          λ s. Answers-changed cb ar (some ok) ar.arg2 (Payload.text (some s)))
        (told_error block cb ar m))
  run_ss_reply-Answers query_fdn_cb w h = checked block cb ar m true _ (
      bound-Answers block cb ar m (get_int m.args) _
        λ n. Answers-changed cb ar (some ok) (some n) ar.contents)
  run_ss_reply-Answers query_call_waiting_cb w h = checked block cb ar m true _ (
      bound-Answers block cb ar m (get_int m.args) _
        λ n. Answers-changed cb ar (some ok) (some n) ar.contents)
  run_ss_reply-Answers query_clir_cb w h = checked block cb ar m true _ (
      bound-Answers block cb ar m (get_int m.args) _
        λ n. Answers-changed cb ar (some ok) (some n) ar.contents)
  run_ss_reply-Answers call_forwarding_query_complete w h = rw h (
      checked block cb ar m true _ (
        bound-Answers block cb ar m (recurse m.args) _ λ list.
          bound-Answers block cb ar m (fill_cf_conditions list unset_forwarding) _
            λ cf. Answers-changed cb ar (some ok) ar.arg2 (Payload.forwarding cf)))

  pub run_ss_reply-fault :
      (f : SsReply) (w : World) (e : String)
      → is_telling f w ≡ true
      → m.fault ≡ some e
      → (run_ss_reply f (some (client block cb ar m)) m w).0
        ≡ called cb (record ar { status = some error })
  unfolding run_ss_reply on_method_call_complete on_query on_send_ussd on_call_forwarding
      on_initiate
  run_ss_reply-fault ss_method_call_complete w e h k = rw k refl
  run_ss_reply-fault ss_initiate_complete w e h k = rw k refl
  run_ss_reply-fault ss_send_ussd_cb w e h k = rw k refl
  run_ss_reply-fault query_fdn_cb w e h k = rw k refl
  run_ss_reply-fault query_call_waiting_cb w e h k = rw k refl
  run_ss_reply-fault query_clir_cb w e h k = rw k refl
  run_ss_reply-fault call_forwarding_query_complete w e h k = rw (h, k) refl

-- A reply function leaves the live blocks as they were.
abbrev pub Keeps : World → World → Type 0
Keeps w w' = (w'.live ≡ w.live) × (w'.bad_free ≡ w.bad_free)

lending-Keeps : (x y : Reply) (w : World) → Keeps w (lending x y w).1
lending-Keeps x y w = elim (Bool-cases (w.mallocs w.next)) [
  | inl e ↦
      rw
        (
          e,
          free_live w.next (record w { next = suc w.next; live = w.next ∷ w.live }) w.live
              (remove-first w.next w.live),
        )
        (refl, refl)
  | inr e ↦ rw e (refl, refl)
]

initiating-Keeps :
    (m : Message) (cb : ℕ) (ar : AsyncResult) (w : World) → Keeps w (initiating m cb ar w).1
initiating-Keeps m cb ar w = elim (Bool-cases (is_fault m)) [
  | inl e ↦ rw e (refl, refl)
  | inr e ↦ elim (Bool-cases (iter_init m)) [
    | inl i ↦
        rw (e, i) (lending-Keeps (initiate_answer cb ar (ussd_response m.args)) (failed cb ar) w)
    | inr i ↦ rw (e, i) (refl, refl)
  ]
]

pub client-Keeps :
    (handler : Option Handler) (f : ℕ → AsyncResult → World → Reply × World) (w : World)
    → ((cb : ℕ) (ar : AsyncResult) → Keeps w (f cb ar w).1)
    → Keeps w (for_client handler f w).1
client-Keeps handler f w k = after (with_callback handler called)
  where
    after :
        (r : Reply)
        → Keeps w
            (elim r as (λ _. Reply × World) [
              | undefined ↦ (undefined, w)
              | quiet ↦ (quiet, w)
              | called cb ar ↦ f cb ar w
            ]).1
    after undefined = (refl, refl)
    after quiet = (refl, refl)
    after (called cb ar) = k cb ar

pub run_ss_reply-memory :
    (f : SsReply) (handler : Option Handler) (m : Message) (w : World)
    → ((run_ss_reply f handler m w).1.live ≡ w.live)
      × ((run_ss_reply f handler m w).1.bad_free ≡ w.bad_free)
unfolding run_ss_reply on_initiate on_call_forwarding
run_ss_reply-memory ss_initiate_complete handler m w =
    client-Keeps handler (initiating m) w λ cb ar. initiating-Keeps m cb ar w
run_ss_reply-memory call_forwarding_query_complete handler m w =
    client-Keeps handler (λ cb ar. lending (forwarding_answer cb ar m) quiet) w
      λ cb ar. lending-Keeps (forwarding_answer cb ar m) quiet w
run_ss_reply-memory _ handler m w = (refl, refl)
