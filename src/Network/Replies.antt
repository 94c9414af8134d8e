-- ===== src/Network/Replies.antt =====
-- tapi_network.c: the functions that take the reply to a request.
use frameworks_connectivity.Common.{
  ℕ, suc, ◌+◌, leb, Bool, true, false, pos, String, str_eq, if◌then◌else◌, Option, none, some, List,
  [], ◌∷◌, length,
}
use frameworks_connectivity.Records.{ok, error, Payload, AsyncResult, Handler}
use frameworks_connectivity.Bus.Message.{Iter, item, struct, Message, iter_init, recurse, ◌>>=◌}
use frameworks_connectivity.Bus.Monad.{
  World, free, NetworkReply, network_register_cb, cell_list_request_complete,
  operator_scan_complete,
}
use frameworks_connectivity.Bus.Client.{
  Reply, undefined, quiet, called, with_callback, is_fault, failed,
}
use frameworks_connectivity.Ss.Replies.{for_client}
use frameworks_connectivity.Network.Cells.{read_cell, read_operator}

abbrev pub max_cell_info_list_size : ℕ
max_cell_info_list_size = 30

abbrev pub max_operator_info_list_size : ℕ
max_operator_info_list_size = 30

abbrev pub given_block : World → World
given_block w = record w { next = suc w.next; live = w.next ∷ w.live }

-- An entry is stored with its block, and the loop ends where the list is full.
abbrev pub and_more :
    {A : Type 0}
    → A
    → ℕ
    → World
    → Bool
    → Option (List A × List ℕ × World)
    → Option (List A × List ℕ × World)
and_more a b w true rest = some (a ∷ [], b ∷ [], w)
and_more a b w false rest = rest >>= λ r. some (a ∷ r.0, b ∷ r.1, r.2)

-- The loop over the entries of a list, of which `index` were stored before: each is allocated, read
-- and stored, until the next index is `size`, there is no memory, or a value is no structure. The
-- entries, their blocks in order, and the world then.
unfoldable pub collect :
    {A : Type 0} → ℕ → (Iter → Option A) → ℕ → Iter → World → Option (List A × List ℕ × World)
collect size read index (item (struct entry) i) w =
    let rest = collect size read (index + 1) i (given_block w) in
    if w.mallocs w.next
    then (read entry >>= λ a. and_more a w.next (given_block w) (leb size (index + 1)) rest)
    else some ([], [], record w { next = suc w.next })
collect size read index _ w = some ([], [], w)

-- `while (--index >= 0) free(list[index]);`
unfoldable pub free_blocks : List ℕ → World → World
unfolding free
free_blocks [] w = w
free_blocks (b ∷ bs) w = free b (free_blocks bs w)

unfoldable pub on_register : Option Handler → Message → Reply
on_register handler m =
    with_callback handler
      λ cb ar. called cb (record ar { status = some (if is_fault m then error else ok) })

-- The client is called with what was collected, and then the blocks are freed.
abbrev pub list_answer :
    {A : Type 0}
    → (List A → Payload)
    → ℕ
    → AsyncResult
    → World
    → Option (List A × List ℕ × World)
    → Reply × World
list_answer contents cb ar w none = (undefined, w)
list_answer contents cb ar w (some (l, bs, w')) = (
  called cb (record ar { arg2 = some (pos (length l)); contents = contents l; status = some ok }),
  free_blocks bs w',
)

abbrev pub listing :
    {A : Type 0}
    → (Iter → Option A)
    → ℕ
    → String
    → (List A → Payload)
    → Message
    → ℕ
    → AsyncResult
    → World
    → Reply × World
listing read size signature contents m cb ar w =
    if is_fault m
    then (failed cb ar, w)
    else if str_eq m.signature signature
    then if iter_init m
      then list_answer contents cb ar w (recurse m.args >>= λ list. collect size read 0 list w)
      else (failed cb ar, w)
    else (failed cb ar, w)

-- An error reply is only logged: the client is not called.
unfoldable pub on_cell_list : Option Handler → Message → World → Reply × World
unfolding collect free_blocks
on_cell_list handler m w =
    if is_fault m
    then (quiet, w)
    else for_client handler (listing read_cell max_cell_info_list_size "a(a{sv})" Payload.cells m) w

-- The same.
unfoldable pub on_operator_scan : Option Handler → Message → World → Reply × World
unfolding collect free_blocks
on_operator_scan handler m w =
    if is_fault m
    then (quiet, w)
    else for_client handler
        (listing read_operator max_operator_info_list_size "a(oa{sv})" Payload.operators m) w

unfoldable pub run_network_reply : NetworkReply → Option Handler → Message → World → Reply × World
run_network_reply network_register_cb handler m w = (on_register handler m, w)
run_network_reply cell_list_request_complete handler m w = on_cell_list handler m w
run_network_reply operator_scan_complete handler m w = on_operator_scan handler m w
