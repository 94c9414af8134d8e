-- ===== src/Manager/Proxies.antt =====
-- tapi_manager.c: the gdbus proxies that a context holds for each slot.
use frameworks_connectivity.Common.{
  ℕ, zero, suc, String, CString, Bool, true, false, pos, ◌==◌, ◌&&◌, List, [], ◌∷◌, Option, none,
  some, if◌then◌else◌,
}
use frameworks_connectivity.Utils.Modem.{Config, get_modem_path}
use frameworks_connectivity.Utils.Interfaces.{Interface, is_interface_supported}
use frameworks_connectivity.Records.{ProxyType, Context}
use frameworks_connectivity.Bus.Monad.{World, remove}

-- What the code is compiled and started with: the options, ofono's names, ULONG_MAX and `getenv`.
pub record Setting : Type 0 where
  pub config : Config
  pub names : Interface → String
  pub manager_path : String
  pub manager_interface : String
  pub ulong_max : ℕ
  pub getenv : String → CString

-- What gdbus answers: to the n-th `g_dbus_proxy_new`, to the n-th `g_dbus_setup_private`, to the
-- request for the bus name, to `g_dbus_client_new` and to `g_dbus_client_set_ready_watch`.
pub record Gdbus : Type 0 where
  pub proxies : ℕ → CString → String → Option ℕ
  pub connections : ℕ → Bool
  pub grants_name : Bool
  pub gives_client : Bool
  pub sets_ready_watch : Bool

-- `client_ready_cb_data`, with its block.
pub record ClientReady : Type 0 where
  pub block : ℕ
  pub client_name : Option ℕ
  pub user_data : Option ℕ
  pub callback : Option ℕ

-- A client's side of the framework. `context` is what the context's block stores; `references` are
-- the references to proxies that the code holds, `bad_unref` says that one was given back that it
-- did not hold. `asked` counts the proxies asked for, and `tries` and `sleeps` the connections
-- asked for and the pauses. `connected` and `has_client` say whether a connection and a gdbus client
-- are held, `watched` are the proxies with a property watch, `ready` is the data of the ready watch.
pub record Session : Type 0 where
  pub world : World
  pub context : Context
  pub references : List ℕ
  pub bad_unref : Bool
  pub asked : ℕ
  pub tries : ℕ
  pub sleeps : ℕ
  pub connected : Bool
  pub has_client : Bool
  pub watched : List ℕ
  pub ready : Option ClientReady

-- `dbus_proxy_server`: the interface of each type of proxy.
abbrev pub dbus_proxy_server : ProxyType → Interface
dbus_proxy_server ProxyType.modem = Interface.modem
dbus_proxy_server ProxyType.radio = Interface.radio_settings
dbus_proxy_server ProxyType.call = Interface.voicecall_manager
dbus_proxy_server ProxyType.sim = Interface.sim_manager
dbus_proxy_server ProxyType.stk = Interface.stk
dbus_proxy_server ProxyType.data_proxy = Interface.connection_manager
dbus_proxy_server ProxyType.sms = Interface.message_manager
dbus_proxy_server ProxyType.cbs = Interface.cell_broadcast
dbus_proxy_server ProxyType.netreg = Interface.network_registration
dbus_proxy_server ProxyType.netmon = Interface.netmon
dbus_proxy_server ProxyType.call_barring = Interface.call_barring
dbus_proxy_server ProxyType.call_forwarding = Interface.call_forwarding
dbus_proxy_server ProxyType.ss = Interface.supplementary_services
dbus_proxy_server ProxyType.call_setting = Interface.call_settings
dbus_proxy_server ProxyType.ims = Interface.ims
dbus_proxy_server ProxyType.phonebook = Interface.phonebook

-- The enumerator's value.
abbrev pub proxy_index : ProxyType → ℕ
proxy_index ProxyType.modem = 0
proxy_index ProxyType.radio = 1
proxy_index ProxyType.call = 2
proxy_index ProxyType.sim = 3
proxy_index ProxyType.stk = 4
proxy_index ProxyType.data_proxy = 5
proxy_index ProxyType.sms = 6
proxy_index ProxyType.cbs = 7
proxy_index ProxyType.netreg = 8
proxy_index ProxyType.netmon = 9
proxy_index ProxyType.call_barring = 10
proxy_index ProxyType.call_forwarding = 11
proxy_index ProxyType.ss = 12
proxy_index ProxyType.call_setting = 13
proxy_index ProxyType.ims = 14
proxy_index ProxyType.phonebook = 15

-- The types from 1 on, which the inner loops go through.
abbrev pub mutable_types : List ProxyType
mutable_types =
    ProxyType.radio ∷ ProxyType.call ∷ ProxyType.sim ∷ ProxyType.stk ∷ ProxyType.data_proxy
    ∷ ProxyType.sms ∷ ProxyType.cbs ∷ ProxyType.netreg ∷ ProxyType.netmon ∷ ProxyType.call_barring
    ∷ ProxyType.call_forwarding ∷ ProxyType.ss ∷ ProxyType.call_setting ∷ ProxyType.ims
    ∷ ProxyType.phonebook ∷ []

-- `ctx->dbus_proxy[i][j] = v`
abbrev pub set_proxy : ℕ → ProxyType → Option ℕ → Session → Session
set_proxy i t v s = record s {
  context = record s.context {
    dbus_proxy =
        λ j u. if j == i && proxy_index u == proxy_index t then v else s.context.dbus_proxy j u;
  };
}

-- `g_dbus_proxy_new`: a new proxy, or one reference more to a known one; null where it fails.
abbrev pub hold : Option ℕ → Session → Session
hold none s = record s { asked = suc s.asked }
hold (some p) s = record s { asked = suc s.asked; references = p ∷ s.references }

-- `g_dbus_proxy_unref`, which takes a null pointer too.
unfoldable pub unref : Option ℕ → Session → Session
unref none s = s
unref (some p) s = elim (remove p s.references) [
  | none ↦ record s { bad_unref = true }
  | some l ↦ record s { references = l }
]

-- The inner loop over the types, and the two nested loops over `n` slots from slot `i` on.
unfoldable pub for_types : (ProxyType → Session → Session) → List ProxyType → Session → Session
for_types body [] s = s
for_types body (t ∷ ts) s = for_types body ts (body t s)

unfoldable pub for_slots :
    (ℕ → ProxyType → Session → Session) → List ProxyType → ℕ → ℕ → Session → Session
unfolding for_types
for_slots body types i zero s = s
for_slots body types i (suc n) s = for_slots body types (suc i) n (for_types (body i) types s)

-- `is_interface_supported`, which has a variable for each interface of the table.
abbrev pub is_supported : Setting → ProxyType → Bool
is_supported e t =
    elim (is_interface_supported e.names e.ulong_max e.getenv (e.names (dbus_proxy_server t))) [
      | none ↦ false
      | some b ↦ b
    ]

module _ (g : Gdbus) (e : Setting) where
  unfoldable pub new_proxy : ℕ → ProxyType → Session → Session
  new_proxy i t s =
      let p = g.proxies s.asked (get_modem_path e.config (pos i)) (e.names (dbus_proxy_server t)) in
      set_proxy i t p (hold p s)

  -- The body of the loops of `get_mutable_dbus_proxy`.
  unfoldable pub get_cell : ℕ → ProxyType → Session → Session
  unfolding new_proxy
  get_cell i t s = if is_supported e t then new_proxy i t s else set_proxy i t none s

  unfoldable pub get_mutable_dbus_proxy : Session → Session
  unfolding for_slots get_cell
  get_mutable_dbus_proxy s = for_slots get_cell mutable_types 0 e.config.modem_active_count s

  abbrev pub get_manager : Session → Session
  get_manager s =
      let p = g.proxies s.asked (some e.manager_path) e.manager_interface in
      record (hold p s) { context = record s.context { dbus_proxy_manager = p } }

  unfoldable pub get_persistent_dbus_proxy : Session → Session
  unfolding for_slots new_proxy
  get_persistent_dbus_proxy s =
      for_slots new_proxy (ProxyType.modem ∷ []) 0 e.config.modem_active_count (get_manager s)

-- The body of the loops of `release_mutable_dbus_proxy`.
unfoldable pub release_cell : ℕ → ProxyType → Session → Session
unfolding unref
release_cell i t s = elim (s.context.dbus_proxy i t) [
  | none ↦ s
  | some p ↦ set_proxy i t none (unref (some p) s)
]

unfoldable pub release_mutable_dbus_proxy : Setting → Session → Session
unfolding for_slots release_cell
release_mutable_dbus_proxy e s =
    for_slots release_cell mutable_types 0 e.config.modem_active_count s

-- The body of the loop of `release_persistent_dbus_proxy`.
unfoldable pub unref_cell : ℕ → ProxyType → Session → Session
unfolding unref
unref_cell i t s = unref (s.context.dbus_proxy i t) s

unfoldable pub release_persistent_dbus_proxy : Setting → Session → Session
unfolding for_slots unref_cell
release_persistent_dbus_proxy e s =
    for_slots unref_cell (ProxyType.modem ∷ []) 0 e.config.modem_active_count
      (unref s.context.dbus_proxy_manager s)
