-- ===== src/Network/ReplyResults.antt =====
-- tapi_network.c: what the reply functions hand to the client.
use frameworks_connectivity.Common.{
  ℕ, pos, ◌≤◌, ◌<◌, String, Bool, true, false, ◌≡◌, refl, inl, inr, Bool-cases, str_eq, Option,
  none, some, List, length, if◌then◌else◌, arith,
}
use frameworks_connectivity.Records.{ok, error, AsyncResult, Handler, Payload}
use frameworks_connectivity.Bus.Message.{Iter, Message, iter_init, recurse, ◌>>=◌}
use frameworks_connectivity.Bus.Monad.{
  World, NetworkReply, network_register_cb, cell_list_request_complete, operator_scan_complete,
}
use frameworks_connectivity.Bus.Client.{
  Reply, undefined, quiet, called, with_callback, is_fault, failed,
}
use frameworks_connectivity.Bus.Answers.{Answers, Answers-changed, client}
use frameworks_connectivity.Ss.Replies.{for_client}
use frameworks_connectivity.Ss.ReplyResults.{Keeps}
use frameworks_connectivity.Network.Replies.{
  run_network_reply, on_register, on_cell_list, on_operator_scan, collect, list_answer, listing,
}
use frameworks_connectivity.Network.Lists.{Collects, collect-Collects}

-- The reply functions that answer an error too: a scan or a list of cells that failed is only logged.
abbrev pub is_reporting : NetworkReply → Bool
is_reporting network_register_cb = true
is_reporting _ = false

module _ (block cb : ℕ) (ar : AsyncResult) (m : Message) where
  pub run_network_reply-Answers :
      (f : NetworkReply) (w : World)
      → is_reporting f ≡ true
      → Answers cb ar (run_network_reply f (some (client block cb ar m)) m w).0
  unfolding run_network_reply on_register
  run_network_reply-Answers network_register_cb w h =
      Answers-changed cb ar (some (if is_fault m then error else ok)) ar.arg2 ar.contents
  run_network_reply-Answers cell_list_request_complete w h = ground arith
  run_network_reply-Answers operator_scan_complete w h = ground arith

  pub run_network_reply-fault :
      (f : NetworkReply) (w : World) (e : String)
      → is_reporting f ≡ true
      → m.fault ≡ some e
      → (run_network_reply f (some (client block cb ar m)) m w).0
        ≡ called cb (record ar { status = some error })
  unfolding run_network_reply on_register
  run_network_reply-fault network_register_cb w e h k = rw k refl
  run_network_reply-fault cell_list_request_complete w e h k = ground arith
  run_network_reply-fault operator_scan_complete w e h k = ground arith

-- The blocks of the list are freed once the client was called.
answer-Keeps :
    {A : Type 0} (contents : List A → Payload) (cb : ℕ) (ar : AsyncResult) (size : ℕ) (w : World)
    (o : Option (List A × List ℕ × World))
    → Collects size 0 w o
    → Keeps w (list_answer contents cb ar w o).1
answer-Keeps contents cb ar size w none h = (refl, refl)
answer-Keeps contents cb ar size w (some (l, bs, w')) h = (h.restored, h.sound)

-- A client that is told of a success is told of a list that is in its array, with its number.
abbrev pub TellsList : {A : Type 0} → (List A → Payload) → ℕ → Reply → Type 0
TellsList {A} contents size (called cb ar) =
    ar.status ≡ some ok
    → (l : List A) × (ar.contents ≡ contents l)
      × (ar.arg2 ≡ some (pos (length l)))
      × (length l ≤ size)
TellsList contents size _ = Unit

answer-TellsList :
    {A : Type 0} (contents : List A → Payload) (cb : ℕ) (ar : AsyncResult) (size : ℕ) (w : World)
    (o : Option (List A × List ℕ × World))
    → Collects size 0 w o
    → TellsList contents size (list_answer contents cb ar w o).0
answer-TellsList contents cb ar size w none h = tt
answer-TellsList contents cb ar size w (some (l, bs, w')) h =
    λ k. (l, refl, refl, omega (arith, h.bounded))

read-Collects :
    {A : Type 0} (size : ℕ) (read : Iter → Option A) (o : Option Iter) (w : World)
    → 0 < size
    → Collects size 0 w (o >>= λ list. collect size read 0 list w)
read-Collects size read none w lt = tt
read-Collects size read (some list) w lt = collect-Collects size read list 0 w lt

-- What the client is told, and that the heap is as before.
abbrev Told : {A : Type 0} → (List A → Payload) → ℕ → World → Reply × World → Type 0
Told contents size w r = TellsList contents size r.0 × Keeps w r.1

failed-Told :
    {A : Type 0} (contents : List A → Payload) (size cb : ℕ) (ar : AsyncResult) (w : World)
    → Told contents size w (failed cb ar, w)
failed-Told contents size cb ar w = ((λ e. absurd (ground arith)), (refl, refl))

listing-Told :
    {A : Type 0} (read : Iter → Option A) (size : ℕ) (signature : String)
    (contents : List A → Payload) (m : Message) (cb : ℕ) (ar : AsyncResult) (w : World)
    → 0 < size
    → Told contents size w (listing read size signature contents m cb ar w)
listing-Told read size signature contents m cb ar w lt = elim (Bool-cases (is_fault m)) [
  | inl e ↦ rw e (failed-Told contents size cb ar w)
  | inr e ↦ elim (Bool-cases (str_eq m.signature signature)) [
    | inl s ↦ elim (Bool-cases (iter_init m)) [
      | inl i ↦
          let c = read-Collects size read (recurse m.args) w lt in
          rw (e, s, i)
            (answer-TellsList contents cb ar size w _ c, answer-Keeps contents cb ar size w _ c)
      | inr i ↦ rw (e, s, i) (failed-Told contents size cb ar w)
    ]
    | inr s ↦ rw (e, s) (failed-Told contents size cb ar w)
  ]
]

replied-Told :
    {A : Type 0} (contents : List A → Payload) (size : ℕ) (r : Reply)
    (f : ℕ → AsyncResult → World → Reply × World) (w : World)
    → ((cb : ℕ) (ar : AsyncResult) → Told contents size w (f cb ar w))
    → Told contents size w
        (elim r [ undefined ↦ (undefined, w) | quiet ↦ (quiet, w) | called cb ar ↦ f cb ar w ])
replied-Told contents size undefined f w h = (tt, (refl, refl))
replied-Told contents size quiet f w h = (tt, (refl, refl))
replied-Told contents size (called cb ar) f w h = h cb ar

reported-Told :
    {A : Type 0} (read : Iter → Option A) (size : ℕ) (signature : String)
    (contents : List A → Payload) (handler : Option Handler) (m : Message) (w : World)
    → 0 < size
    → Told contents size w (
        if is_fault m
        then (quiet, w)
        else for_client handler (listing read size signature contents m) w)
reported-Told read size signature contents handler m w lt = elim (Bool-cases (is_fault m)) [
  | inl e ↦ rw e (tt, (refl, refl))
  | inr e ↦ rw e (
      replied-Told contents size (with_callback handler called)
        (listing read size signature contents m) w
        λ cb ar. listing-Told read size signature contents m cb ar w lt)
]

cells-Told :
    (handler : Option Handler) (m : Message) (w : World)
    → Told Payload.cells 30 w (on_cell_list handler m w)
unfolding on_cell_list
cells-Told handler m w = reported-Told _ _ _ _ handler m w (omega arith)

operators-Told :
    (handler : Option Handler) (m : Message) (w : World)
    → Told Payload.operators 30 w (on_operator_scan handler m w)
unfolding on_operator_scan
operators-Told handler m w = reported-Told _ _ _ _ handler m w (omega arith)

pub run_network_reply-memory :
    (f : NetworkReply) (handler : Option Handler) (m : Message) (w : World)
    → ((run_network_reply f handler m w).1.live ≡ w.live)
      × ((run_network_reply f handler m w).1.bad_free ≡ w.bad_free)
unfolding run_network_reply
run_network_reply-memory network_register_cb handler m w = (refl, refl)
run_network_reply-memory cell_list_request_complete handler m w = (cells-Told handler m w).1
run_network_reply-memory operator_scan_complete handler m w = (operators-Told handler m w).1

-- The reply functions for a list of cells and for a scan: a client that is told of a success is told
-- of at most thirty entries, as many as the array on the stack has room for, and of their number; and
-- whatever the reply holds and the allocator answers, the blocks of the entries are each freed once
-- and no other is, so that the heap is as it was before.
pub list_replies-TellsList :
    (handler : Option Handler) (m : Message) (w : World)
    → TellsList Payload.cells 30 (on_cell_list handler m w).0
      × TellsList Payload.operators 30 (on_operator_scan handler m w).0
      × Keeps w (on_cell_list handler m w).1
      × Keeps w (on_operator_scan handler m w).1
list_replies-TellsList handler m w =
    let c = cells-Told handler m w in let o = operators-Told handler m w in (c.0, o.0, c.1, o.1)
