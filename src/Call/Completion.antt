-- ===== src/Call/Completion.antt =====
-- tapi_call.c and tapi_utils.c: the end of a pending call, and what the client is told then.
use frameworks_connectivity.Common.{
  ℕ, ℤ, ◌≡◌, refl, inl, inr, Option, none, some, List, [], ◌∷◌, ◌++◌, Bool-cases, ◌==◌, subst, ap,
  ◌∙◌, suc, if◌then◌else◌, arith,
}
use frameworks_connectivity.Utils.Modem.{Config}
use frameworks_connectivity.Records.{ret, AsyncResult, Handler, Context}
use frameworks_connectivity.Bus.Message.{Message}
use frameworks_connectivity.Bus.Monad.{
  World, stop, free, ReplyFunction, manager_reply, ss_reply, network_reply,
  modem_activity_info_query_done, UserData, keep, handler_free, free_block, data_free, Pending,
  handler_release,
}
use frameworks_connectivity.Bus.Ownership.{owned, Handed}
use frameworks_connectivity.Bus.Heap.{IsHeap, remove-first}
use frameworks_connectivity.Bus.Held.{free_live}
use frameworks_connectivity.Bus.Request.{data_release}
use frameworks_connectivity.Call.Sent.{CallRequest, send, Settled, send-Settled}
use frameworks_connectivity.Call.Reply.{run_reply, handler_in, destroy, complete}
use frameworks_connectivity.Bus.Client.{Reply, undefined, quiet, called, with_callback}
use frameworks_connectivity.Network.ReplyResults.{run_network_reply-memory}
use frameworks_connectivity.Ss.ReplyResults.{run_ss_reply-memory}
use frameworks_connectivity.Manager.Replies.{
  run_manager_reply, on_modem_activity, on_modem_activity_info,
}

-- The block at the front of the heap is freed.
free_first : (p : ℕ) (l : List ℕ) (w : World) → w.live ≡ p ∷ l → free p w ≡ record w { live = l }
free_first p l w e = free_live p w l (rw e (remove-first p l))

-- Two blocks at the front are freed, the second first.
free_second :
    (h a : ℕ) (l : List ℕ) (w : World)
    → w.live ≡ h ∷ a ∷ l
    → free h (free a w) ≡ record w { live = l }
free_second h a l w e = elim (Bool-cases (h == a)) [
  | inl same ↦
      rw (free_live a w (a ∷ l) (rw (e, same) refl))
        (free_live h (record w { live = a ∷ l }) l (ground arith))
  | inr apart ↦
      rw (free_live a w (h ∷ l) (rw e (ground arith)))
        (free_first h l (record w { live = h ∷ l }) refl)
]

release_owned :
    (h : Handler) (o : Option AsyncResult) (l : List ℕ) (w : World)
    → h.result ≡ o
    → w.live ≡ owned (handler_free h) ++ l
    → handler_release (some h) w ≡ record w { live = l }
unfolding handler_release
release_owned h none l w r e = rw r (free_first h.block l w (rw r at e))
release_owned h (some ar) l w r e = rw r (free_second h.block ar.block l w (rw r at e))

-- Three blocks at the front, of which the third is freed first.
free_third :
    (h a d : ℕ) (l : List ℕ) (w : World)
    → w.live ≡ h ∷ a ∷ d ∷ l
    → free h (free a (free d w)) ≡ record w { live = l }
free_third h a d l w e = elim (Bool-cases (h == d)) [
  | inl same ↦
      let same' : h ≡ d = ground arith in
      rw (free_live d w (a ∷ d ∷ l) (rw (e, same) refl)) (
        rw (free_first a (d ∷ l) (record w { live = a ∷ d ∷ l }) refl)
          (rw same' (free_first d l (record w { live = d ∷ l }) refl)))
  | inr apart ↦ elim (Bool-cases (a == d)) [
    | inl same ↦
        let same' : a ≡ d = ground arith in
        rw (free_live d w (h ∷ d ∷ l) (rw (e, apart, same) refl))
          (rw same' (free_second h d l (record w { live = h ∷ d ∷ l }) refl))
    | inr apart' ↦
        rw (free_live d w (h ∷ a ∷ l) (rw e (ground arith)))
          (free_second h a l (record w { live = h ∷ a ∷ l }) refl)
  ]
]

release_data :
    (d : ℕ) (h : Handler) (o : Option AsyncResult) (l : List ℕ) (w : World)
    → h.result ≡ o
    → w.live ≡ owned (data_free d h) ++ l
    → data_release d h w ≡ record w { live = l }
unfolding data_release handler_release
release_data d h none l w r e = rw r (free_second h.block d l w (rw r at e))
release_data d h (some ar) l w r e = rw r (free_third h.block ar.block d l w (rw r at e))

-- What a call owns is freed with it, and nothing else.
destroy-owned :
    (u : UserData) (l : List ℕ) (w : World)
    → w.live ≡ owned u ++ l
    → destroy u w ≡ record w { live = l }
unfolding destroy
destroy-owned keep l w e = rw (← e) refl
destroy-owned (free_block p) l w e = free_first p l w e
destroy-owned (handler_free h) l w e = release_owned h h.result l w refl e
destroy-owned (data_free d h) l w e = release_data d h h.result l w refl e

Handed-first :
    (w w' : World) (ps : List Pending)
    → w'.pending ≡ ps
    → Handed w ps w'
    → (p : Pending) × (w'.pending ≡ p ∷ w.pending) × (w'.live ≡ owned p.user_data ++ w.live)
Handed-first w w' [] e h = absurd h
Handed-first w w' (p ∷ ps) e h = (p, rw (e, h.0) refl, h.1)

-- A reply function leaves the live blocks as they were.
modem_activity_memory :
    (handler : Option Handler) (m : Message) (w : World)
    → ((on_modem_activity handler m w).1.live ≡ w.live)
      × ((on_modem_activity handler m w).1.bad_free ≡ w.bad_free)
unfolding on_modem_activity
modem_activity_memory handler m w = after (with_callback handler called)
  where
    lent : World
    lent = record w { next = suc w.next; live = w.next ∷ w.live }

    after :
        (r : Reply)
        → let w' : World =
            (elim r as (λ _. Reply × World) [
              | undefined ↦ (undefined, w)
              | quiet ↦ (quiet, w)
              | called cb ar ↦
                  if w.mallocs w.next
                  then (on_modem_activity_info cb ar m, free w.next lent)
                  else (quiet, record w { next = suc w.next })
            ]).1 in
          (w'.live ≡ w.live) × (w'.bad_free ≡ w.bad_free)
    after undefined = (refl, refl)
    after quiet = (refl, refl)
    after (called cb ar) = elim (Bool-cases (w.mallocs w.next)) [
      | inl e ↦ rw (e, free_first w.next w.live lent refl) (refl, refl)
      | inr e ↦ rw e (refl, refl)
    ]

run_reply_memory :
    (f : ReplyFunction) (handler : Option Handler) (m : Message) (w : World)
    → ((run_reply f handler m w).1.live ≡ w.live)
      × ((run_reply f handler m w).1.bad_free ≡ w.bad_free)
unfolding run_reply run_manager_reply
run_reply_memory (manager_reply modem_activity_info_query_done) handler m w =
    modem_activity_memory handler m w
run_reply_memory (ss_reply f) handler m w = run_ss_reply-memory f handler m w
run_reply_memory (network_reply f) handler m w = run_network_reply-memory f handler m w
run_reply_memory _ handler m w = (refl, refl)

module _ (cfg : Config) (ctx : Option Context) (slot_id : ℤ) (r : CallRequest) (w w' : World)
    (n : ℕ) (m : Message) where
  -- A call request that starts on a consistent heap and succeeds leaves one method call more
  -- pending. Once that call has ended, whatever the reply is, the blocks that are live are those of
  -- before the request: nothing leaks, and nothing of the client's is freed.
  pub send-complete :
      IsHeap w
      → send cfg ctx slot_id r w ≡ stop (ret n) w'
      → (p : Pending) × (w'.pending ≡ p ∷ w.pending)
        × ((complete p m w').1.live ≡ w.live)
        × ((complete p m w').1.bad_free ≡ w'.bad_free)
  unfolding complete
  send-complete heap e =
      let h =
        Handed-first w w' w'.pending refl
          (subst (Settled w) e (send-Settled cfg ctx slot_id r w heap)) in
      let kept = run_reply_memory h.0.reply (handler_in h.0.user_data) m w' in
      let freed = destroy-owned h.0.user_data w.live _ (kept.0 ∙ h.2) in
      (h.0, h.1, ap World.live freed, ap World.bad_free freed ∙ kept.1)
