-- ===== src/Bus/Monad.antt =====
-- What a request does outside its own variables: the allocator, the calls handed to gdbus, the
-- signal watches, and the data logging reports.
use frameworks_connectivity.Common.{
  ℕ, suc, String, CString, Bool, true, false, ℤ, ◌==◌, if◌then◌else◌, List, [], ◌∷◌, Option, none,
  some,
}
use frameworks_connectivity.Records.{
  Errno, einval, enomem, Code, fail, Payload, AsyncResult, Handler,
}

-- An argument that is appended to a method call, or the value that is written to a property.
pub data Arg : Type 0 where
  string_arg : CString → Arg
  path_arg : CString → Arg
  byte_arg : ℕ → Arg
  int_arg : ℤ → Arg
  array_arg : List CString → Arg
  bytes_arg : List ℕ → Arg
  bool_arg : Bool → Arg
  written : Arg → Arg
  variant_arg : Arg → Arg

-- The reply functions of tapi_manager.c.
pub data ManagerReply : Type 0 where
  modem_list_query_done modem_activity_info_query_done enable_or_disable_modem_done : ManagerReply
  enable_modem_abnormal_event_done modem_status_query_done : ManagerReply
  oem_ril_request_raw_cb oem_ril_request_strings_cb : ManagerReply

-- The reply functions of tapi_sim.c.
pub data SimReply : Type 0 where
  method_call_complete open_logical_channel_cb transmit_apdu_cb : SimReply

-- The reply functions of tapi_ss.c.
pub data SsReply : Type 0 where
  ss_method_call_complete ss_initiate_complete ss_send_ussd_cb : SsReply
  query_fdn_cb query_call_waiting_cb query_clir_cb : SsReply
  call_forwarding_query_complete : SsReply

-- The reply functions of tapi_network.c.
pub data NetworkReply : Type 0 where
  network_register_cb cell_list_request_complete operator_scan_complete : NetworkReply

-- The reply functions of tapi_phonebook.c.
pub data PhonebookReply : Type 0 where
  load_adn_entries_cb load_fdn_entries_cb insert_fdn_record_cb : PhonebookReply
  phonebook_method_call_complete : PhonebookReply

-- The reply function that is handed to `g_dbus_proxy_method_call`.
pub data ReplyFunction : Type 0 where
  no_operate_callback dial_call_callback play_dtmf_callback : ReplyFunction
  merge_call_complete call_list_query_complete : ReplyFunction
  property_set_done : ReplyFunction
  manager_reply : ManagerReply → ReplyFunction
  sim_reply : SimReply → ReplyFunction
  ss_reply : SsReply → ReplyFunction
  network_reply : NetworkReply → ReplyFunction
  phonebook_reply : PhonebookReply → ReplyFunction
  stk_method_call_complete : ReplyFunction

-- The signal function that is handed to `g_dbus_add_signal_watch`.
pub data SignalFunction : Type 0 where
  call_manager_property_changed call_state_changed : SignalFunction
  radio_state_changed phone_state_changed process_oem_hook_raw_indication : SignalFunction
  modem_restart airplane_mode_changed device_info_changed modem_state_changed : SignalFunction
  modem_ecc_list_change data_log_ind : SignalFunction

-- `user_data` with its destroy function: none, a handler with `handler_free`, a block with `free`, or
-- a handler with `sim_event_data_free`, which frees the block that the result's data points to too.
pub data UserData : Type 0 where
  keep : UserData
  handler_free : Handler → UserData
  free_block : ℕ → UserData
  data_free : ℕ → Handler → UserData

-- A method call that was sent, and waits for its reply.
pub record Pending : Type 0 where
  pub proxy : ℕ
  pub member : String
  pub args : List Arg
  pub reply : ReplyFunction
  pub user_data : UserData

pub record Watch : Type 0 where
  pub path : String
  pub interface : String
  pub member : String
  pub function : SignalFunction
  pub handler : Handler

-- What `g_dbus_proxy_method_call` does: it sends the call and returns true, or returns false before
-- or after it has run the setup function that appends the arguments.
pub data Outcome : Type 0 where
  sent refused_early refused_late : Outcome

-- OFONO_NORMAL_CALL and the like, of ofono/dfx.h.
pub data CallType : Type 0 where
  type_unknow normal_call conference_call : CallType

pub data Direction : Type 0 where
  direction_unknow originate terminate : Direction

pub data Media : Type 0 where
  media_unknow voice : Media

pub data Scenario : Type 0 where
  normal dial_fail answer_fail hangup_fail : Scenario

pub record CallReport : Type 0 where
  pub type : CallType
  pub direction : Direction
  pub media : Media
  pub scenario : Scenario
  pub reason : String

-- A line of the data log: the fields of a call, or the type and the reason that tapi_ss.c gives.
pub data Report : Type 0 where
  of_call : CallReport → Report
  of_ss : String → String → Report

-- What the environment answers to the n-th question is `mallocs n`, `outcomes n`, `writes n` or
-- `watch_ids n`: of `malloc`, of a method call, of a property write and of a signal watch. `next`
-- counts the questions, and so names each block that is given.
pub record World : Type 0 where
  pub mallocs : ℕ → Bool
  pub outcomes : ℕ → Outcome
  pub writes : ℕ → Bool
  pub watch_ids : ℕ → ℕ
  pub next : ℕ
  pub live : List ℕ
  pub bad_free : Bool
  pub pending : List Pending
  pub watches : List Watch
  pub properties : List (ℕ × String × CString)
  pub reports : List Report

-- A function goes on, returns early, or dereferences what it may not.
pub data Step (A : Type 0) : Type 0 where
  go : A → World → Step A
  stop : Code → World → Step A
  crash : Step A

abbrev pub M : Type 0 → Type 0
M A = World → Step A

infixl 5 ◌>>=◌ ◌>>◌
unfoldable pub ◌>>=◌ : {A B : Type 0} → M A → (A → M B) → M B
◌>>=◌ m f w = elim (m w) [ go a w' ↦ f a w' | stop c w' ↦ stop c w' | crash ↦ crash ]

abbrev pub ◌>>◌ : {B : Type 0} → M (Unit {0}) → M B → M B
m >> k = m >>= λ _. k

-- `return code;`
unfoldable pub returns : {A : Type 0} → Code → M A
returns c w = stop c w

-- `if (!test) return -e;`
unfoldable pub require : Bool → Errno → M (Unit {0})
require true e w = go tt w
require false e w = stop (fail e) w

-- `if (pointer == NULL) return -e;`
unfoldable pub non_null : {A : Type 0} → Option A → Errno → M A
non_null (some a) e w = go a w
non_null none e w = stop (fail e) w

-- The allocator. A block that is freed twice, or was never given, is recorded.
abbrev pub remove : ℕ → List ℕ → Option (List ℕ)
remove p [] = none
remove p (x ∷ xs) =
    if x == p then some xs else elim (remove p xs) [ none ↦ none | some l ↦ some (x ∷ l) ]

unfoldable pub free : ℕ → World → World
free p w = elim (remove p w.live) [
  | none ↦ record w { bad_free = true }
  | some l ↦ record w { live = l }
]

-- `p = malloc(…); if (p == NULL) { cleanup; return -ENOMEM; }`
unfoldable pub malloc : (World → World) → M ℕ
malloc cleanup w =
    if w.mallocs w.next
    then go w.next (record w { next = suc w.next; live = w.next ∷ w.live })
    else stop (fail enomem) (cleanup (record w { next = suc w.next }))

-- A fresh `tapi_async_result`, before its fields are assigned.
abbrev pub fresh_result : ℕ → AsyncResult
fresh_result a = record {
  block = a;
  msg_id = none;
  msg_type = none;
  status = none;
  arg1 = none;
  arg2 = none;
  contents = Payload.unset;
  user_obj = none;
}

-- `handler_free`
unfoldable pub handler_release : Option Handler → World → World
unfolding free
handler_release none w = w
handler_release (some h) w = free h.block (elim h.result [ none ↦ w | some ar ↦ free ar.block w ])

-- What a setup function does: it appends arguments, and may free memory.
abbrev pub Setup : Type 0
Setup = World → List Arg × World

abbrev pub no_setup : Setup
no_setup w = ([], w)

-- `g_dbus_proxy_method_call`, by the answer to come.
unfoldable pub method_call : ℕ → String → Setup → ReplyFunction → UserData → M Bool
method_call proxy member setup reply data_ w =
    let (args, done) = setup (record w { next = suc w.next }) in
    elim (w.outcomes w.next) [
      | sent ↦ go true (record done {
        pending =
            record { proxy = proxy; member = member; args = args; reply = reply; user_data = data_ }
            ∷ done.pending;
      })
      | refused_early ↦ go false (record w { next = suc w.next })
      | refused_late ↦ go false done
    ]

-- `if (!g_dbus_…) { cleanup; return -EINVAL; }`
unfoldable pub or_fail : Bool → (World → Step (Unit {0})) → M (Unit {0})
or_fail true cleanup w = go tt w
or_fail false cleanup w = elim (cleanup w) [
  | go _ w' ↦ stop (fail einval) w'
  | stop c w' ↦ stop c w'
  | crash ↦ crash
]

-- The cleanup that only frees.
unfoldable pub releasing : (World → World) → World → Step (Unit {0})
releasing f w = go tt (f w)

-- `g_dbus_add_signal_watch`: the number of the watch, or 0.
unfoldable pub add_signal_watch : Watch → M ℕ
add_signal_watch x w =
    let w' = record w { next = suc w.next } in
    let id = w.watch_ids w.next in
    if id == 0 then go id w' else go id (record w' { watches = x ∷ w.watches })

-- `g_dbus_proxy_set_property_basic` with a string.
unfoldable pub set_property : ℕ → String → CString → M Bool
set_property proxy name v w =
    let w' = record w { next = suc w.next } in
    if w.writes w.next
    then go true (record w' { properties = (proxy, name, v) ∷ w.properties })
    else go false w'

-- `g_dbus_proxy_set_property_basic` on a proxy: the write waits for its reply as a call does.
unfoldable pub write_property : ℕ → String → Arg → ReplyFunction → UserData → M Bool
write_property proxy name value reply data_ w =
    let w' = record w { next = suc w.next } in
    if w.writes w.next
    then go true (record w' {
      pending =
          record {
            proxy = proxy;
            member = name;
            args = written value ∷ [];
            reply = reply;
            user_data = data_;
          }
          ∷ w'.pending;
    })
    else go false w'
