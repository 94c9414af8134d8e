-- ===== src/Manager/Loops.antt =====
-- tapi_manager.c: the loops that get and release the proxies of a context, as wholes.
use frameworks_connectivity.Common.{ℕ, ◌+◌, ◌≡◌, refl, ◌∙◌, ap, false, arith}
use frameworks_connectivity.Records.{ProxyType}
use frameworks_connectivity.Manager.Proxies.{
  Setting, Gdbus, Session, mutable_types, hold, unref, for_slots, new_proxy, get_cell,
  get_mutable_dbus_proxy, get_manager, get_persistent_dbus_proxy, release_cell,
  release_mutable_dbus_proxy, unref_cell, release_persistent_dbus_proxy,
}
use frameworks_connectivity.Manager.Cells.{
  one, cell, rows, Moved, Covers, slots_other_type, slots-Moved,
}
use frameworks_connectivity.Manager.References.{
  nothing, only_modem, no_rows_left, modem_rows, slots_keep, mutable_types-Ascends, hold-Moved,
  unref_context, unref-Moved, new_proxy-IsLocal, new_proxy-IsMove, new_proxy_manager,
  get_cell-IsLocal, get_cell-IsMove, get_cell_manager, release_cell-IsLocal, release_cell-IsMove,
  release_cell_manager, unref_cell-IsLocal, unref_cell-IsMove, unref_cell_context,
}

module _ (e : Setting) where
  abbrev slots : ℕ
  slots = e.config.modem_active_count

  -- The references that the persistent proxies stand for, and those of the mutable ones.
  abbrev pub persistent : Session → ℕ → ℕ
  persistent s q = one q s.context.dbus_proxy_manager + rows (one q) (cell s) only_modem 0 slots

  abbrev pub changing : Session → ℕ → ℕ
  changing s q = rows (one q) (cell s) mutable_types 0 slots

  pub get_mutable-Moved :
      (g : Gdbus) (s : Session)
      → s.bad_unref ≡ false
      → Moved s (get_mutable_dbus_proxy g e s) (λ q. 0) (changing (get_mutable_dbus_proxy g e s))
        × ((q : ℕ) → persistent (get_mutable_dbus_proxy g e s) q ≡ persistent s q)
  unfolding get_mutable_dbus_proxy
  get_mutable-Moved g s h = (
    (m.0, λ q. omega (arith, m.1 q, no_rows_left q (cell s) mutable_types 0 slots)),
    λ q.
        rw
          (
            slots_keep (λ x. x.context.dbus_proxy_manager) (get_cell g e) (get_cell_manager g e)
                mutable_types 0 slots s,
            modem_rows (one q) _ (cell s) 0 slots λ j.
                slots_other_type (get_cell g e) (get_cell-IsLocal g e) 1 mutable_types 0 slots s j
                  ProxyType.modem mutable_types-Ascends (omega arith),
          )
          refl,
  )
    where
      m :
          Moved s
            (for_slots (get_cell g e) mutable_types 0 slots s)
            (λ q. rows (nothing q) (cell s) mutable_types 0 slots)
            (λ q.
              rows
                (one q)
                (cell (for_slots (get_cell g e) mutable_types 0 slots s))
                mutable_types
                0
                slots)
      m =
          slots-Moved (get_cell g e) (get_cell-IsLocal g e) nothing one (get_cell-IsMove g e) 1
            mutable_types 0 slots s mutable_types-Ascends
            (h, λ q. omega (arith, no_rows_left q (cell s) mutable_types 0 slots))

  pub release_mutable-Moved :
      (s : Session)
      → Covers s (changing s)
      → Moved s (release_mutable_dbus_proxy e s) (changing s) (λ q. 0)
        × ((q : ℕ) → persistent (release_mutable_dbus_proxy e s) q ≡ persistent s q)
  unfolding release_mutable_dbus_proxy
  release_mutable-Moved s c = (
    (m.0, λ q. omega (arith, m.1 q, no_rows_left q (cell s') mutable_types 0 slots)),
    λ q.
        rw
          (
            slots_keep (λ x. x.context.dbus_proxy_manager) release_cell release_cell_manager
                mutable_types 0 slots s,
            modem_rows (one q) _ (cell s) 0 slots λ j.
                slots_other_type release_cell release_cell-IsLocal 1 mutable_types 0 slots s j
                  ProxyType.modem mutable_types-Ascends (omega arith),
          )
          refl,
  )
    where
      s' : Session
      s' = for_slots release_cell mutable_types 0 slots s

      m : Moved s s' (changing s) (λ q. rows (nothing q) (cell s') mutable_types 0 slots)
      m =
          slots-Moved release_cell release_cell-IsLocal one nothing release_cell-IsMove 1
            mutable_types 0 slots s mutable_types-Ascends c

  pub get_persistent-Moved :
      (g : Gdbus) (s : Session)
      → s.bad_unref ≡ false
      → Moved s
          (get_persistent_dbus_proxy g e s)
          (λ q. 0)
          (persistent (get_persistent_dbus_proxy g e s))
  unfolding get_persistent_dbus_proxy
  get_persistent-Moved g s h = (
    m.0,
    λ q.
        rw
          (slots_keep (λ x. x.context.dbus_proxy_manager) (new_proxy g e) (new_proxy_manager g e)
            only_modem 0 slots s')
          (omega (arith, m.1 q, first.1 q, no_rows_left q (cell s') only_modem 0 slots)),
  )
    where
      s' : Session
      s' = get_manager g e s

      first :
          Moved s
            (hold (s'.context.dbus_proxy_manager) s)
            (λ q. 0)
            (λ q. one q s'.context.dbus_proxy_manager)
      first = hold-Moved s'.context.dbus_proxy_manager s h

      m :
          Moved s'
            (for_slots (new_proxy g e) only_modem 0 slots s')
            (λ q. rows (nothing q) (cell s') only_modem 0 slots)
            (λ q.
              rows
                (one q)
                (cell (for_slots (new_proxy g e) only_modem 0 slots s'))
                only_modem
                0
                slots)
      m =
          slots-Moved (new_proxy g e) (new_proxy-IsLocal g e) nothing one (new_proxy-IsMove g e) 0
            only_modem 0 slots s' (omega arith, tt)
            (first.0, λ q. omega (arith, no_rows_left q (cell s') only_modem 0 slots))

  -- The context is left as it was.
  pub release_persistent-Moved :
      (s : Session)
      → Covers s (persistent s)
      → Moved s (release_persistent_dbus_proxy e s) (persistent s) (λ q. 0)
        × ((release_persistent_dbus_proxy e s).context ≡ s.context)
  unfolding release_persistent_dbus_proxy
  release_persistent-Moved s c = (
    (
      m.0,
      λ q. omega (arith, m.1 q, first.1 q, rest q, no_rows_left q (cell last) only_modem 0 slots),
    ),
    slots_keep (λ x. x.context) unref_cell unref_cell_context only_modem 0 slots s'
        ∙ unref_context s.context.dbus_proxy_manager s,
  )
    where
      s' : Session
      s' = unref s.context.dbus_proxy_manager s

      last : Session
      last = for_slots unref_cell only_modem 0 slots s'

      first : Moved s s' (λ q. one q s.context.dbus_proxy_manager) (λ q. 0)
      first = unref-Moved s.context.dbus_proxy_manager s (c.0, λ q. omega (arith, c.1 q))

      rest :
          (q : ℕ)
          → rows (one q) (cell s') only_modem 0 slots ≡ rows (one q) (cell s) only_modem 0 slots
      rest q = modem_rows (one q) (cell s') (cell s) 0 slots λ j.
          ap (λ x. x.dbus_proxy j ProxyType.modem) (unref_context s.context.dbus_proxy_manager s)

      m :
          Moved s' last
            (λ q. rows (one q) (cell s') only_modem 0 slots)
            (λ q. rows (nothing q) (cell last) only_modem 0 slots)
      m =
          slots-Moved unref_cell unref_cell-IsLocal one nothing unref_cell-IsMove 0 only_modem 0
            slots s' (omega arith, tt) (first.0, λ q. omega (arith, c.1 q, first.1 q, rest q))
