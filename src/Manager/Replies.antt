-- ===== src/Manager/Replies.antt =====
-- tapi_manager.c: the functions that take the reply to a request.
use frameworks_connectivity.Common.{
  ℕ, suc, String, CString, ◌==◌, ℤ, pos, str_eq, if◌then◌else◌, Option, none, some, List, [], ◌∷◌,
  length,
}
use frameworks_connectivity.Records.{ok, error, Payload, AsyncResult, Handler}
use frameworks_connectivity.Bus.Message.{
  Iter, end, item, Message, byte, string, struct, iter_init, recurse, get_text, get_int, ◌>>=◌,
}
use frameworks_connectivity.Bus.Monad.{
  World, free, ManagerReply, modem_list_query_done, modem_activity_info_query_done,
  enable_or_disable_modem_done, enable_modem_abnormal_event_done, modem_status_query_done,
  oem_ril_request_raw_cb, oem_ril_request_strings_cb,
}
use frameworks_connectivity.Bus.Client.{
  Reply, undefined, quiet, called, with_callback, is_fault, failed,
}

abbrev pub max_modem_count : ℕ
max_modem_count = 10

abbrev pub max_tx_time_array_len : ℕ
max_tx_time_array_len = 5

abbrev pub max_oem_ril_resp_strings_length : ℕ
max_oem_ril_resp_strings_length = 20

-- The loop of `modem_list_query_done`, of which `index` paths are stored already: it ends at the first
-- value that is no structure, and when the array is full.
unfoldable pub modem_paths : ℕ → Iter → Option (List String)
modem_paths index end = some []
modem_paths index (item (struct i) list) =
    let rest = modem_paths (suc index) list in
    get_text i >>= λ path.
    if suc index == max_modem_count then some (path ∷ []) else rest >>= λ paths. some (path ∷ paths)
modem_paths index (item _ list) = some []

-- `dbus_message_iter_get_fixed_array` into an `unsigned char*`.
unfoldable pub fixed_bytes : Iter → Option (List ℕ)
fixed_bytes end = some []
fixed_bytes (item (byte n) i) = fixed_bytes i >>= λ bs. some (n ∷ bs)
fixed_bytes (item _ i) = none

-- The number of elements that `dbus_message_iter_get_fixed_array` writes.
unfoldable pub element_count : Iter → ℕ
element_count end = 0
element_count (item v i) = suc (element_count i)

-- The strings that the loop of `oem_ril_request_strings_cb` finds; `none` where there are too many.
unfoldable pub response_strings : ℕ → Iter → Option (List CString)
response_strings num (item (string s) i) =
    let rest = response_strings (suc num) i in
    if num == max_oem_ril_resp_strings_length then none else rest >>= λ l. some (some s ∷ l)
response_strings num _ = some []

abbrev pub with_arguments : ℕ → AsyncResult → Message → Reply → Reply
with_arguments cb ar m reply =
    if is_fault m then failed cb ar else if iter_init m then reply else failed cb ar

abbrev pub answer : Option Reply → Reply
answer none = undefined
answer (some r) = r

unfoldable pub on_modem_list : Option Handler → Message → Reply
unfolding modem_paths
on_modem_list handler m = with_callback handler λ cb ar.
    if is_fault m
    then failed cb ar
    else if str_eq m.signature "a(oa{sv})"
    then if iter_init m
      then answer (
          recurse m.args >>= λ list. modem_paths 0 list >>= λ result. some (
            called cb (record ar {
              status = some ok;
              arg1 = some (pos (length result));
              contents = Payload.paths result;
            })))
      else failed cb ar
    else failed cb ar

-- Once the callback is known, the information is allocated, and freed after the call. The array of
-- the message is not copied: its address is written over the first of the local numbers, of which
-- the others are never set, so no field of the information holds a number of the message.
abbrev pub unset_info : List (Option ℤ)
unset_info = none ∷ none ∷ none ∷ none ∷ none ∷ none ∷ none ∷ none ∷ []

unfoldable pub on_modem_activity_info : ℕ → AsyncResult → Message → Reply
unfolding element_count
on_modem_activity_info cb ar m = with_arguments cb ar m (
    answer (
      recurse m.args >>= λ array. some (
        if element_count array == suc (suc (suc max_tx_time_array_len))
        then called cb (record ar { status = some ok; contents = Payload.activity unset_info })
        else failed cb ar)))

unfoldable pub on_enable_or_disable : Option Handler → Message → Reply
on_enable_or_disable handler m =
    with_callback handler
      λ cb ar. called cb (record ar { status = some (if is_fault m then error else ok) })

-- A message with no argument is read all the same.
unfoldable pub on_abnormal_event : Option Handler → Message → Reply
on_abnormal_event handler m = with_callback handler λ cb ar.
    if is_fault m
    then failed cb ar
    else answer
        (get_int m.args >>= λ n. some (called cb (record ar { status = some ok; arg2 = some n })))

unfoldable pub on_modem_status : Option Handler → Message → Reply
on_modem_status handler m = with_callback handler λ cb ar. with_arguments cb ar m (
    answer
      (get_int m.args >>= λ n. some (called cb (record ar { arg2 = some n; status = some ok }))))

unfoldable pub on_oem_raw : Option Handler → Message → Reply
unfolding fixed_bytes
on_oem_raw handler m = with_callback handler λ cb ar. with_arguments cb ar m (
    answer (
      recurse m.args >>= λ array. fixed_bytes array >>= λ response. some (
        called cb (record ar {
          contents = Payload.bytes response;
          arg2 = some (pos (length response));
          status = some ok;
        }))))

unfoldable pub on_oem_strings : Option Handler → Message → Reply
unfolding response_strings
on_oem_strings handler m = with_callback handler λ cb ar. with_arguments cb ar m (
    answer (
      recurse m.args >>= λ array. some (elim (response_strings 0 array) [
        | none ↦ failed cb ar
        | some response ↦ called cb (record ar {
          contents = Payload.strings response;
          arg2 = some (pos (length response));
          status = some ok;
        })
      ])))

-- `modem_activity_info_query_done`, with its memory.
unfoldable pub on_modem_activity : Option Handler → Message → World → Reply × World
unfolding on_modem_activity_info free
on_modem_activity handler m w = elim (with_callback handler called) [
  | undefined ↦ (undefined, w)
  | quiet ↦ (quiet, w)
  | called cb ar ↦
      if w.mallocs w.next
      then (
        on_modem_activity_info cb ar m,
        free w.next (record w { next = suc w.next; live = w.next ∷ w.live }),
      )
      else (quiet, record w { next = suc w.next })
]

unfoldable pub run_manager_reply : ManagerReply → Option Handler → Message → World → Reply × World
run_manager_reply modem_list_query_done handler m w = (on_modem_list handler m, w)
run_manager_reply modem_activity_info_query_done handler m w = on_modem_activity handler m w
run_manager_reply enable_or_disable_modem_done handler m w = (on_enable_or_disable handler m, w)
run_manager_reply enable_modem_abnormal_event_done handler m w = (on_abnormal_event handler m, w)
run_manager_reply modem_status_query_done handler m w = (on_modem_status handler m, w)
run_manager_reply oem_ril_request_raw_cb handler m w = (on_oem_raw handler m, w)
run_manager_reply oem_ril_request_strings_cb handler m w = (on_oem_strings handler m, w)
