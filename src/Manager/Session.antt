-- ===== src/Manager/Session.antt =====
-- tapi_manager.c: the life of a context, from tapi_open to tapi_close, with the functions that gdbus
-- calls in between.
use frameworks_connectivity.Common.{
  ℕ, zero, suc, String, Bool, true, false, ltb, ◌==◌, ◌&&◌, str_eq, ℤ, pos, is_eq, List, [], ◌∷◌,
  Option, none, some, if◌then◌else◌,
}
use frameworks_connectivity.Utils.Proxies.{get_modem_id_by_proxy}
use frameworks_connectivity.Records.{Code, ret, fail, einval, ProxyType}
use frameworks_connectivity.Bus.Message.{Value, end, item, get_int}
use frameworks_connectivity.Bus.Monad.{Step, go, stop, crash, free}
use frameworks_connectivity.Manager.Abnormal.{enable_modem_abnormal_event}
use frameworks_connectivity.Manager.Proxies.{
  Setting, Gdbus, ClientReady, Session, get_persistent_dbus_proxy, get_mutable_dbus_proxy,
  release_persistent_dbus_proxy, release_mutable_dbus_proxy,
}

abbrev pub max_dbus_init_retry_count : ℕ
max_dbus_init_retry_count = 6

-- MODEM_STATE_POWER_OFF, MODEM_STATE_AWARE and MODEM_STATE_ALIVE.
abbrev pub power_off : ℤ
power_off = pos 0

abbrev pub aware : ℤ
aware = pos 1

abbrev pub alive : ℤ
alive = pos 2

-- A `malloc`: the block, or null.
unfoldable pub allocate : Session → Option ℕ × Session
allocate s =
    let n = s.world.next in
    if s.world.mallocs n
    then (some n, record s { world = record s.world { next = suc n; live = n ∷ s.world.live } })
    else (none, record s { world = record s.world { next = suc n } })

abbrev pub free_in : ℕ → Session → Session
free_in p s = record s { world = free p s.world }

-- How the loop of `tapi_open` ends: not within the fuel, at `goto error`, or with a gdbus client.
pub data Attempt : Type 0 where
  unfinished : Attempt
  gave_up client_made : Session → Attempt

-- What is done with a connection that was made.
abbrev pub connected : Gdbus → Session → Attempt
connected g s =
    if g.grants_name && g.gives_client
    then client_made (record s { connected = true; has_client = true })
    else gave_up (record s { connected = true })

-- The loop of `tapi_open`, on fuel.
unfoldable pub connect : Gdbus → ℕ → ℕ → Session → Attempt
connect g zero retry_round s = unfinished
connect g (suc fuel) retry_round s =
    let tried = record s { tries = suc s.tries } in
    let again = connect g fuel (suc retry_round) (record tried { sleeps = suc s.sleeps }) in
    if g.connections s.tries
    then connected g tried
    else if ltb retry_round max_dbus_init_retry_count
    then again
    else gave_up tried

-- What `tapi_open` returns: a null pointer or the block of the context.
pub data Opened : Type 0 where
  undefined : Opened
  null : Session → Opened
  opened : ℕ → Session → Opened

-- The label `error`: the connection, if there is one, is closed.
abbrev pub abort : ℕ → ℕ → Session → Session
abort ctx cbd s = record s { world = free cbd (free ctx s.world); connected = false }

-- `g_dbus_proxy_set_property_watch`, which refuses a null pointer.
abbrev pub watch : Option ℕ → Session → Session
watch none s = s
watch (some p) s = record s { watched = p ∷ s.watched }

abbrev pub set_modem_state : ℕ → ℤ → Session → Session
set_modem_state i v s = record s {
  context = record s.context { modem_state = λ j. if j == i then v else s.context.modem_state j };
}

-- The loop that sets the modem states and the property watches, over `n` slots from slot `i` on.
unfoldable pub watch_modems : ℕ → ℕ → Session → Session
watch_modems i zero s = s
watch_modems i (suc n) s =
    watch_modems (suc i) n
      (set_modem_state i power_off (watch (s.context.dbus_proxy i ProxyType.modem) s))

abbrev pub after_enabling : ℕ → Session → Step Code → Opened
after_enabling ctx s (go c w) = opened ctx (record s { world = w })
after_enabling ctx s (stop c w) = opened ctx (record s { world = w })
after_enabling ctx s crash = undefined

module _ (g : Gdbus) (e : Setting) (abnormal_event : Bool) where
  -- From `ctx->connection = connection` on; `abnormal_event` is CONFIG_MODEM_ABNORMAL_EVENT.
  abbrev pub prepare : Session → Session
  prepare s = watch_modems 0 e.config.modem_active_count (
      get_mutable_dbus_proxy g e (
        get_persistent_dbus_proxy g e (record s {
          context = record s.context { client_ready = false; logging_over_miwear_cb = none };
        })))

  unfoldable pub start : ℕ → Session → Opened
  unfolding watch_modems
  start ctx s =
      let s' = prepare s in
      after_enabling ctx s' (
        enable_modem_abnormal_event e.config (some s'.context) (pos 0) abnormal_event (pos 0)
          (pos 63) (pos 0) (pos 0) none s'.world)

  module _ (client_name callback user_data : Option ℕ) where
    -- What follows the loop.
    unfoldable pub finish : ℕ → ℕ → Attempt → Opened
    unfolding start
    finish ctx cbd unfinished = undefined
    finish ctx cbd (gave_up s) = null (abort ctx cbd s)
    finish ctx cbd (client_made s) =
        if g.sets_ready_watch
        then start ctx (record s {
          ready = some (record {
            block = cbd;
            client_name = client_name;
            user_data = user_data;
            callback = callback;
          });
        })
        else null (abort ctx cbd (record s { has_client = false }))

    -- What follows the second and the first `malloc`.
    abbrev pub with_cbd : ℕ → Option ℕ × Session → Opened
    with_cbd ctx (none, s) = null (free_in ctx s)
    with_cbd ctx (some cbd, s) = finish ctx cbd (connect g (suc max_dbus_init_retry_count) 0 s)

    abbrev pub with_ctx : Option ℕ × Session → Opened
    with_ctx (none, s) = null s
    with_ctx (some ctx, s) = with_cbd ctx (allocate s)

    unfoldable pub open_context : Session → Opened
    unfolding connect finish allocate
    open_context s = with_ctx (allocate s)

-- `on_dbus_client_ready`: the call of the client's function, and what is left.
unfoldable pub on_dbus_client_ready :
    Option ClientReady → Session → Option (ℕ × Option ℕ × Option ℕ) × Session
on_dbus_client_ready none s = (none, s)
on_dbus_client_ready (some cbd) s = (
  elim cbd.callback [ none ↦ none | some cb ↦ some (cb, cbd.client_name, cbd.user_data) ],
  free_in cbd.block (record s { context = record s.context { client_ready = true } }),
)

-- `on_modem_property_change`; `none` is undefined behaviour.
unfoldable pub on_modem_property_change :
    Gdbus → Setting → Option ℕ → String → Value → Session → Option Session
on_modem_property_change g e proxy name v s =
    if str_eq "ModemState" name
    then elim (get_int (item v end)) [
      | none ↦ none
      | some new_state ↦
          let modem_id = get_modem_id_by_proxy e.config s.context proxy in
          some (
            set_modem_state modem_id new_state (
              if is_eq (s.context.modem_state modem_id) aware && is_eq new_state alive
              then get_mutable_dbus_proxy g e (release_mutable_dbus_proxy e s)
              else s))
    ]
    else some s

-- `g_dbus_proxy_remove_property_watch` on the modem's proxies.
abbrev without : Option ℕ → List ℕ → List ℕ
without none l = l
without (some p) [] = []
without (some p) (x ∷ xs) = if x == p then without (some p) xs else x ∷ without (some p) xs

unfoldable pub unwatch_modems : ℕ → ℕ → Session → Session
unwatch_modems i zero s = s
unwatch_modems i (suc n) s =
    unwatch_modems (suc i) n
      (record s { watched = without (s.context.dbus_proxy i ProxyType.modem) s.watched })

-- `tapi_close`. The client's ready watch ends with the client.
unfoldable pub close_context : Setting → Option ℕ → Session → Code × Session
unfolding unwatch_modems
close_context e none s = (fail einval, s)
close_context e (some ctx) s =
    let s' =
      release_mutable_dbus_proxy e
        (release_persistent_dbus_proxy e (unwatch_modems 0 e.config.modem_active_count s)) in
    (ret 0, free_in ctx (record s' { has_client = false; connected = false; ready = none }))
