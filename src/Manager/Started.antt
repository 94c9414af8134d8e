-- ===== src/Manager/Started.antt =====
-- tapi_manager.c: the context that tapi_open returns holds the references of its proxies.
use frameworks_connectivity.Common.{
  ℕ, zero, suc, ◌≡◌, refl, ◌∙◌, inl, inr, Bool, true, false, Bool-cases, [], Option, none, some,
  if◌then◌else◌,
}
use frameworks_connectivity.Records.{Code, ProxyType}
use frameworks_connectivity.Bus.Monad.{Step, go, stop, crash}
use frameworks_connectivity.Manager.Proxies.{Setting, Gdbus, Session}
use frameworks_connectivity.Manager.Masks.{IsMasked, get_mutable-IsMasked}
use frameworks_connectivity.Manager.Opening.{Ends, connect-Ends}
use frameworks_connectivity.Manager.Life.{
  IsCounted, same-IsCounted, same-IsMasked, gotten-IsCounted,
}
use frameworks_connectivity.Manager.Session.{
  Attempt, unfinished, gave_up, client_made, Opened, undefined, null, opened, allocate,
  max_dbus_init_retry_count, watch, set_modem_state, power_off, watch_modems, after_enabling,
  prepare, start, finish, with_cbd, with_ctx, open_context,
}

module _ {A : Type 0} (field : Session → A)
    (watched : (o : Option ℕ) (s : Session) → field (watch o s) ≡ field s)
    (set : (i : ℕ) (s : Session) → field (set_modem_state i power_off s) ≡ field s) where
  watch_modems_keep : (i n : ℕ) (s : Session) → field (watch_modems i n s) ≡ field s
  unfolding watch_modems
  watch_modems_keep i zero s = refl
  watch_modems_keep i (suc n) s =
      let o = s.context.dbus_proxy i ProxyType.modem in
      watch_modems_keep (suc i) n (set_modem_state i power_off (watch o s))
      ∙ set i (watch o s)
      ∙ watched o s

watch_references : (o : Option ℕ) (s : Session) → (watch o s).references ≡ s.references
watch_references none s = refl
watch_references (some p) s = refl

watch_bad_unref : (o : Option ℕ) (s : Session) → (watch o s).bad_unref ≡ s.bad_unref
watch_bad_unref none s = refl
watch_bad_unref (some p) s = refl

watch_manager :
    (o : Option ℕ) (s : Session)
    → (watch o s).context.dbus_proxy_manager ≡ s.context.dbus_proxy_manager
watch_manager none s = refl
watch_manager (some p) s = refl

watch_proxies : (o : Option ℕ) (s : Session) → (watch o s).context.dbus_proxy ≡ s.context.dbus_proxy
watch_proxies none s = refl
watch_proxies (some p) s = refl

allocate_keeps :
    (s : Session)
    → ((allocate s).1.bad_unref ≡ s.bad_unref)
      × ((allocate s).1.references ≡ s.references)
      × ((allocate s).1.connected ≡ s.connected)
unfolding allocate
allocate_keeps s = elim (Bool-cases (s.world.mallocs s.world.next)) [
  | inl h ↦ rw (allocate, h) (refl, refl, refl)
  | inr h ↦ rw (allocate, h) (refl, refl, refl)
]

module _ (e : Setting) where
  abbrev slots : ℕ
  slots = e.config.modem_active_count

  watch_modems-IsCounted : (s : Session) → IsCounted e s → IsCounted e (watch_modems 0 slots s)
  watch_modems-IsCounted s h =
      same-IsCounted e s (watch_modems 0 slots s)
        (watch_modems_keep Session.references watch_references (λ i s. refl) 0 slots s)
        (watch_modems_keep Session.bad_unref watch_bad_unref (λ i s. refl) 0 slots s)
        (watch_modems_keep (λ s. s.context.dbus_proxy_manager) watch_manager (λ i s. refl) 0 slots
          s)
        (watch_modems_keep (λ s. s.context.dbus_proxy) watch_proxies (λ i s. refl) 0 slots s) h

  watch_modems-IsMasked : (s : Session) → IsMasked e s → IsMasked e (watch_modems 0 slots s)
  watch_modems-IsMasked s h =
      same-IsMasked e s (watch_modems 0 slots s)
        (watch_modems_keep (λ s. s.context.dbus_proxy) watch_proxies (λ i s. refl) 0 slots s) h

  abbrev pub Sound : Opened → Type 0
  Sound undefined = Unit
  Sound (null s) = Unit
  Sound (opened ctx s) = IsCounted e s × IsMasked e s

  Sound-if : (b : Bool) (x y : Opened) → Sound x → Sound y → Sound (if b then x else y)
  Sound-if true x y h k = h
  Sound-if false x y h k = k

  module _ (g : Gdbus) (abnormal_event : Bool) where
    start-Sound :
        (ctx : ℕ) (s : Session)
        → s.bad_unref ≡ false
        → s.references ≡ []
        → Sound (start g e abnormal_event ctx s)
    unfolding start
    start-Sound ctx s b r =
        after (prepare g e abnormal_event s) _
          (watch_modems-IsCounted _ (gotten-IsCounted e g _ b r))
          (watch_modems-IsMasked _ (get_mutable-IsMasked g e _))
      where
        after :
            (s : Session) (x : Step Code)
            → IsCounted e s
            → IsMasked e s
            → Sound (after_enabling ctx s x)
        after s (go c w) h k = (same-IsCounted e s _ refl refl refl refl h, k)
        after s (stop c w) h k = (same-IsCounted e s _ refl refl refl refl h, k)
        after s crash h k = tt

    module _ (client_name callback user_data : Option ℕ) where
      finish-Sound :
          (ctx cbd : ℕ) (s : Session) (a : Attempt)
          → s.bad_unref ≡ false
          → s.references ≡ []
          → Ends g (suc max_dbus_init_retry_count) s a
          → Sound (finish g e abnormal_event client_name callback user_data ctx cbd a)
      unfolding finish
      finish-Sound ctx cbd s unfinished b r t = tt
      finish-Sound ctx cbd s (gave_up a) b r t = tt
      finish-Sound ctx cbd s (client_made a) b r t =
          Sound-if g.sets_ready_watch _ _
            (start-Sound ctx
              (record a {
                ready = some (record {
                  block = cbd;
                  client_name = client_name;
                  user_data = user_data;
                  callback = callback;
                });
              })
              (t.0.bad_unref ∙ b) (t.0.references ∙ r))
            tt

      cbd-Sound :
          (ctx : ℕ) (x : Option ℕ × Session)
          → x.1.bad_unref ≡ false
          → x.1.references ≡ []
          → x.1.connected ≡ false
          → Sound (with_cbd g e abnormal_event client_name callback user_data ctx x)
      cbd-Sound ctx (none, s) b r c = tt
      cbd-Sound ctx (some cbd, s) b r c = finish-Sound ctx cbd s _ b r (connect-Ends g s c)

      ctx-Sound :
          (x : Option ℕ × Session)
          → x.1.bad_unref ≡ false
          → x.1.references ≡ []
          → x.1.connected ≡ false
          → Sound (with_ctx g e abnormal_event client_name callback user_data x)
      ctx-Sound (none, s) b r c = tt
      ctx-Sound (some ctx, s) b r c =
          let k = allocate_keeps s in cbd-Sound ctx (allocate s) (k.0 ∙ b) (k.1 ∙ r) (k.2 ∙ c)

      pub open_context-Sound :
          (s : Session)
          → s.bad_unref ≡ false
          → s.references ≡ []
          → s.connected ≡ false
          → Sound (open_context g e abnormal_event client_name callback user_data s)
      unfolding open_context
      open_context-Sound s b r c =
          let k = allocate_keeps s in ctx-Sound (allocate s) (k.0 ∙ b) (k.1 ∙ r) (k.2 ∙ c)
