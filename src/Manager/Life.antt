-- ===== src/Manager/Life.antt =====
-- tapi_manager.c: the life of a context as steps, and the references to proxies through it.
use frameworks_connectivity.Common.{
  ℕ, ◌+◌, ◌≡◌, refl, ◌∙◌, ap, Bool, false, String, ==_iff, List, [], ◌∷◌, Option, some, arith,
}
use frameworks_connectivity.Bus.Message.{Value}
use frameworks_connectivity.Bus.Monad.{World}
use frameworks_connectivity.Manager.Proxies.{
  Setting, Gdbus, Session, get_mutable_dbus_proxy, get_persistent_dbus_proxy,
  release_mutable_dbus_proxy, release_persistent_dbus_proxy,
}
use frameworks_connectivity.Manager.Cells.{count}
use frameworks_connectivity.Manager.Masks.{IsMasked}
use frameworks_connectivity.Manager.Loops.{
  persistent, changing, get_mutable-Moved, get_persistent-Moved, release_mutable-Moved,
  release_persistent-Moved,
}
use frameworks_connectivity.Manager.Session.{
  null, opened, open_context, on_dbus_client_ready, on_modem_property_change, close_context,
}

-- A client before `tapi_open` and after `tapi_close`, or with a context in a block.
pub data Phase : Type 0 where
  idle : Session → Phase
  running : ℕ → Session → Phase

module _ (e : Setting) where
  -- What can happen. Each time gdbus may answer differently. A request or a reply of another part
  -- changes the world outside, and the callback of the data logging, and no proxy.
  pub data Event : Phase → Phase → Type 0 where
    opens :
        (g : Gdbus) (abnormal_event : Bool) (client_name callback user_data : Option ℕ)
        {s s' : Session} {ctx : ℕ}
        → open_context g e abnormal_event client_name callback user_data s ≡ opened ctx s'
        → Event (idle s) (running ctx s')
    fails :
        (g : Gdbus) (abnormal_event : Bool) (client_name callback user_data : Option ℕ)
        {s s' : Session}
        → open_context g e abnormal_event client_name callback user_data s ≡ null s'
        → Event (idle s) (idle s')
    client_ready :
        {s : Session} {ctx : ℕ}
        → Event (running ctx s) (running ctx (on_dbus_client_ready s.ready s).1)
    property_changed :
        (g : Gdbus) (proxy : Option ℕ) (name : String) (v : Value) {s s' : Session} {ctx : ℕ}
        → on_modem_property_change g e proxy name v s ≡ some s'
        → Event (running ctx s) (running ctx s')
    requests :
        (w : World) (cb : Option ℕ) {s : Session} {ctx : ℕ}
        → Event (running ctx s) (
            running ctx
              (record s { world = w; context = record s.context { logging_over_miwear_cb = cb } }))
    closes : {s : Session} {ctx : ℕ} → Event (running ctx s) (idle (close_context e (some ctx) s).1)

  pub data Reach (p : Phase) : Phase → Type 0 where
    here : Reach p p
    next : {q r : Phase} → Reach p q → Event q r → Reach p r

  -- The references that are held are exactly those that the context's proxies stand for, and none
  -- was given back that was not held.
  pub record IsCounted (s : Session) : Type 0 where
    pub sound : s.bad_unref ≡ false
    pub counted : (q : ℕ) → count q s.references ≡ persistent e s q + changing e s q

  abbrev pub IsSound : Phase → Type 0
  IsSound (idle s) =
      (s.bad_unref ≡ false) × (s.references ≡ []) × (s.connected ≡ false) × (s.has_client ≡ false)
  IsSound (running ctx s) = IsCounted s × IsMasked e s

  no_references : (l : List ℕ) → ((q : ℕ) → count q l ≡ 0) → l ≡ []
  no_references [] h = refl
  no_references (p ∷ l) h = absurd (ground (arith, h p, (==_iff p p).1 refl))

  -- What the proxies stand for does not depend on the rest of the session.
  pub same-IsCounted :
      (s s' : Session)
      → s'.references ≡ s.references
      → s'.bad_unref ≡ s.bad_unref
      → s'.context.dbus_proxy_manager ≡ s.context.dbus_proxy_manager
      → s'.context.dbus_proxy ≡ s.context.dbus_proxy
      → IsCounted s
      → IsCounted s'
  same-IsCounted s s' r b m d h = record {
    sound = b ∙ h.sound;
    counted = λ q. rw (r, m, d) (h.counted q);
  }

  pub same-IsMasked :
      (s s' : Session) → s'.context.dbus_proxy ≡ s.context.dbus_proxy → IsMasked e s → IsMasked e s'
  same-IsMasked s s' d h = rw d h

  -- The proxies of the context are renewed.
  pub refreshed-IsCounted :
      (g : Gdbus) (s : Session)
      → IsCounted s
      → IsCounted (get_mutable_dbus_proxy g e (release_mutable_dbus_proxy e s))
  refreshed-IsCounted g s h =
      let r = release_mutable-Moved e s (h.sound, λ q. omega (arith, h.counted q)) in
      let t = get_mutable-Moved e g (release_mutable_dbus_proxy e s) r.0.0 in
      record {
        sound = t.0.0;
        counted = λ q. omega (arith, h.counted q, r.0.1 q, r.1 q, t.0.1 q, t.1 q);
      }

  pub gotten-IsCounted :
      (g : Gdbus) (s : Session)
      → s.bad_unref ≡ false
      → s.references ≡ []
      → IsCounted (get_mutable_dbus_proxy g e (get_persistent_dbus_proxy g e s))
  gotten-IsCounted g s b r =
      let p = get_persistent-Moved e g s b in
      let t = get_mutable-Moved e g (get_persistent_dbus_proxy g e s) p.0 in
      record { sound = t.0.0; counted = λ q. omega (arith, p.1 q, t.0.1 q, t.1 q, ap (count q) r) }

  pub released :
      (s : Session)
      → IsCounted s
      → let s' = release_mutable_dbus_proxy e (release_persistent_dbus_proxy e s) in
        (s'.bad_unref ≡ false) × (s'.references ≡ [])
  released s h =
      let p = release_persistent-Moved e s (h.sound, λ q. omega (arith, h.counted q)) in
      let same = λ (q : ℕ). ap (λ c. changing e (record s { context = c }) q) p.1 in
      let t =
        release_mutable-Moved e (release_persistent_dbus_proxy e s)
          (p.0.0, λ q. omega (arith, h.counted q, p.0.1 q, same q)) in
      (t.0.0, no_references _ λ q. omega (arith, h.counted q, p.0.1 q, t.0.1 q, same q))
