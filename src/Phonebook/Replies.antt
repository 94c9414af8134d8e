-- ===== src/Phonebook/Replies.antt =====
-- tapi_phonebook.c: the functions that take the reply to a request.
use frameworks_connectivity.Common.{ℕ, pos, Option, none, some, []}
use frameworks_connectivity.Records.{ok, Payload, AsyncResult, Handler}
use frameworks_connectivity.Bus.Message.{
  Iter, end, item, struct, array, Message, recurse, get_text, get_int, ◌>>=◌,
}
use frameworks_connectivity.Bus.Monad.{
  PhonebookReply, load_adn_entries_cb, load_fdn_entries_cb, insert_fdn_record_cb,
  phonebook_method_call_complete,
}
use frameworks_connectivity.Bus.Client.{Reply, called, with_callback}
use frameworks_connectivity.Manager.Replies.{with_arguments, answer}
use frameworks_connectivity.Sim.Replies.{on_method_call_complete}

unfoldable pub on_load_adn : Option Handler → Message → Reply
on_load_adn handler m = with_callback handler λ cb ar. with_arguments cb ar m (
    answer (
      get_text m.args >>= λ entries.
      some (called cb (record ar { contents = Payload.text (some entries); status = some ok }))))

-- The loop of `load_fdn_entries_cb`, over the containers of the reply. It ends at an empty one. To
-- read the number of an entry it does not go into the entry's structure, but reads the structure
-- itself, which is undefined: no entry is ever stored.
unfoldable pub read_fdn_entries : Iter → Option (Unit {0})
read_fdn_entries end = none
read_fdn_entries (item v i) =
    let rest = read_fdn_entries i in
    recurse (item v i) >>= λ entry. elim entry [
      | end ↦ some tt
      | item e j ↦ elim e [ struct s ↦ none | _ ↦ rest ]
    ]

abbrev pub fdn_answer : ℕ → AsyncResult → Iter → Option Reply
fdn_answer cb ar (item (array a) i) = read_fdn_entries (item (array a) i) >>= λ _. some (
    called cb
      (record ar { arg2 = some (pos 0); contents = Payload.fdn_entries []; status = some ok }))
fdn_answer cb ar _ =
    some (called cb (record ar { contents = Payload.fdn_entries []; status = some ok }))

unfoldable pub on_load_fdn : Option Handler → Message → Reply
unfolding read_fdn_entries
on_load_fdn handler m =
    with_callback handler
      λ cb ar. with_arguments cb ar m (answer (recurse m.args >>= λ arr. fdn_answer cb ar arr))

unfoldable pub on_insert_fdn : Option Handler → Message → Reply
on_insert_fdn handler m = with_callback handler λ cb ar. with_arguments cb ar m (
    answer (
      get_int m.args >>= λ index.
      some (called cb (record ar { arg2 = some index; status = some ok }))))

unfoldable pub run_phonebook_reply : PhonebookReply → Option Handler → Message → Reply
run_phonebook_reply load_adn_entries_cb handler m = on_load_adn handler m
run_phonebook_reply load_fdn_entries_cb handler m = on_load_fdn handler m
run_phonebook_reply insert_fdn_record_cb handler m = on_insert_fdn handler m
run_phonebook_reply phonebook_method_call_complete handler m = on_method_call_complete handler m
