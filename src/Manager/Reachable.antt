-- ===== src/Manager/Reachable.antt =====
-- tapi_manager.c: every context that can be reached holds the references of its proxies.
use frameworks_connectivity.Common.{
  ℕ, zero, suc, ◌≡◌, refl, ◌∙◌, ap, subst, inl, inr, Bool-cases, String, str_eq, is_eq, ◌&&◌, List,
  Option, none, some, Option-cases,
}
use frameworks_connectivity.Utils.Proxies.{get_modem_id_by_proxy}
use frameworks_connectivity.Bus.Message.{Value, end, item, get_int}
use frameworks_connectivity.Manager.Proxies.{
  Setting, Gdbus, Session, ClientReady, get_mutable_dbus_proxy, release_mutable_dbus_proxy,
}
use frameworks_connectivity.Manager.Masks.{get_mutable-IsMasked}
use frameworks_connectivity.Manager.Failing.{open_context-IsLeft}
use frameworks_connectivity.Manager.Life.{
  Phase, idle, running, Event, opens, fails, client_ready, property_changed, requests, closes,
  Reach, here, next, IsSound, same-IsCounted, refreshed-IsCounted, released,
}
use frameworks_connectivity.Manager.Session.{
  aware, alive, on_dbus_client_ready, on_modem_property_change, unwatch_modems, close_context,
}
use frameworks_connectivity.Manager.Started.{Sound, open_context-Sound}

unwatch_modems_keep :
    {A : Type 0} (field : Session → A)
    → ((l : List ℕ) (s : Session) → field (record s { watched = l }) ≡ field s)
    → (i n : ℕ) (s : Session) → field (unwatch_modems i n s) ≡ field s
unfolding unwatch_modems
unwatch_modems_keep field h i zero s = refl
unwatch_modems_keep field h i (suc n) s = unwatch_modems_keep field h (suc i) n _ ∙ h _ s

module _ (e : Setting) where
  ready-IsSound :
      (ctx : ℕ) (o : Option ClientReady) (s : Session)
      → IsSound e (running ctx s)
      → IsSound e (running ctx (on_dbus_client_ready o s).1)
  unfolding on_dbus_client_ready
  ready-IsSound ctx none s h = h
  ready-IsSound ctx (some cbd) s h = (same-IsCounted e s _ refl refl refl refl h.0, h.1)

  -- A property change, where it is defined.
  abbrev Changed : ℕ → Option Session → Type 0
  Changed ctx none = Unit
  Changed ctx (some s) = IsSound e (running ctx s)

  refresh-IsSound :
      (g : Gdbus) (proxy : Option ℕ) (name : String) (v : Value) (ctx : ℕ) (s : Session)
      → IsSound e (running ctx s)
      → Changed ctx (on_modem_property_change g e proxy name v s)
  unfolding on_modem_property_change
  refresh-IsSound g proxy name v ctx s h = elim (Bool-cases (str_eq "ModemState" name)) [
    | inr k ↦ rw (on_modem_property_change, k) h
    | inl k ↦ elim (Option-cases (get_int (item v end))) [
      | inl u ↦ rw (on_modem_property_change, k, u) tt
      | inr (n, u) ↦
          rw (on_modem_property_change, k, u)
            (let id = get_modem_id_by_proxy e.config s.context proxy in
              elim (Bool-cases (is_eq (s.context.modem_state id) aware && is_eq n alive)) [
                | inl f ↦ rw f (
                  same-IsCounted e (get_mutable_dbus_proxy g e (release_mutable_dbus_proxy e s)) _
                      refl refl refl refl (refreshed-IsCounted e g s h.0),
                  get_mutable-IsMasked g e (release_mutable_dbus_proxy e s),
                )
                | inr f ↦ rw f (same-IsCounted e s _ refl refl refl refl h.0, h.1)
              ])
    ]
  ]

  closed-IsSound :
      (ctx : ℕ) (s : Session)
      → IsSound e (running ctx s)
      → IsSound e (idle (close_context e (some ctx) s).1)
  unfolding close_context
  closed-IsSound ctx s h =
      let n = e.config.modem_active_count in
      let keep = unwatch_modems_keep Session.context (λ l s. refl) 0 n s in
      let r = released e (unwatch_modems 0 n s) (
        same-IsCounted e s (unwatch_modems 0 n s)
          (unwatch_modems_keep Session.references (λ l s. refl) 0 n s)
          (unwatch_modems_keep Session.bad_unref (λ l s. refl) 0 n s)
          (ap (λ c. c.dbus_proxy_manager) keep) (ap (λ c. c.dbus_proxy) keep) h.0) in
      (r.0, r.1, refl, refl)

  Event-IsSound : {p q : Phase} → Event e p q → IsSound e p → IsSound e q
  Event-IsSound (opens g ab name cb ud o) h =
      subst (Sound e) o (open_context-Sound e g ab name cb ud _ h.0 h.1 h.2)
  Event-IsSound (fails g ab name cb ud o) h =
      let l = open_context-IsLeft g e ab name cb ud _ _ h.2 h.3 o in
      (l.bad_unref ∙ h.0, l.references ∙ h.1, l.disconnected, l.no_client)
  Event-IsSound (client_ready {s = s} {ctx = ctx}) h = ready-IsSound ctx s.ready s h
  Event-IsSound (property_changed g proxy name v {s = s} {ctx = ctx} o) h =
      subst (Changed ctx) o (refresh-IsSound g proxy name v ctx s h)
  Event-IsSound (requests w cb {s = s}) h = (same-IsCounted e s _ refl refl refl refl h.0, h.1)
  Event-IsSound (closes {s = s} {ctx = ctx}) h = closed-IsSound ctx s h

  -- From a client that holds nothing, whatever gdbus and the allocator answer and in whatever order a
  -- context is opened, becomes ready, is told of property changes, is used and is closed: the
  -- references to proxies that are held are exactly those that the context's proxies stand for,
  -- the renewed ones included; none is given back that is not held; a slot has no proxy for an
  -- interface that is not supported; and once the context is closed, or could not be opened, no
  -- reference, no connection and no gdbus client is left.
  pub Reach-IsSound : {p q : Phase} → Reach e p q → IsSound e p → IsSound e q
  Reach-IsSound here h = h
  Reach-IsSound (next r x) h = Event-IsSound x (Reach-IsSound r h)
