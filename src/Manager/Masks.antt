-- ===== src/Manager/Masks.antt =====
-- tapi_manager.c: what every cell holds after the loops that get proxies.
use frameworks_connectivity.Common.{
  ℕ, zero, suc, ◌+◌, ◌≤◌, ◌<◌, ◌≡◌, sym, ◌⊎◌, inl, inr, false, List, [], ◌∷◌, Option, none, All,
  subst, arith,
}
use frameworks_connectivity.Records.{ProxyType}
use frameworks_connectivity.Manager.Proxies.{
  Setting, Gdbus, Session, proxy_index, mutable_types, for_types, for_slots, is_supported, get_cell,
  get_mutable_dbus_proxy,
}
use frameworks_connectivity.Manager.Cells.{cell, Ascends, IsLocal, types_other_type, slots_before}
use frameworks_connectivity.Manager.References.{
  set_proxy_same, get_cell-IsLocal, mutable_types-Ascends,
}

eq_or_later : (i j : ℕ) → i ≤ j → (i ≡ j) ⊎ (suc i ≤ j)
eq_or_later i j h = ground arith

module _ (P : ProxyType → Option ℕ → Type 0) (body : ℕ → ProxyType → Session → Session)
    (local : IsLocal body)
    (sets : (i : ℕ) (t : ProxyType) (s : Session) → P t (cell (body i t s) i t)) where
  All-subst :
      (ts : List ProxyType) (c d : ProxyType → Option ℕ)
      → ((t : ProxyType) → c t ≡ d t)
      → All (λ t. P t (d t)) ts
      → All (λ t. P t (c t)) ts
  All-subst [] c d h a = tt
  All-subst (t ∷ ts) c d h a = (subst (P t) (sym (h t)) a.0, All-subst ts c d h a.1)

  types-All :
      (i lo : ℕ) (ts : List ProxyType) (s : Session)
      → Ascends lo ts
      → All (λ t. P t (cell (for_types (body i) ts s) i t)) ts
  unfolding for_types
  types-All i lo [] s a = tt
  types-All i lo (t ∷ ts) s a = (
    subst (P t)
        (sym (
          types_other_type body local i (suc (proxy_index t)) ts (body i t s) i t a.1
            (omega arith)))
        (sets i t s),
    types-All i (suc (proxy_index t)) ts (body i t s) a.1,
  )

  slots-All :
      (lo : ℕ) (ts : List ProxyType) (i n j : ℕ) (s : Session)
      → Ascends lo ts
      → i ≤ j
      → j < i + n
      → All (λ t. P t (cell (for_slots body ts i n s) j t)) ts
  unfolding for_slots
  slots-All lo ts i zero j s a le lt = absurd (omega arith)
  slots-All lo ts i (suc n) j s a le lt = elim (eq_or_later i j le) [
    | inl same ↦
        All-subst ts _ (cell (for_types (body i) ts s) i)
          (λ t.
            rw (← same)
              (slots_before body local ts (suc i) n (for_types (body i) ts s) i t (omega arith)))
          (types-All i lo ts s a)
    | inr later ↦ slots-All lo ts (suc i) n j (for_types (body i) ts s) a later (omega arith)
  ]

-- No proxy is held for an interface that is not supported.
abbrev pub IsMasked : Setting → Session → Type 0
IsMasked e s =
    (j : ℕ)
    → j < e.config.modem_active_count
    → All (λ t. is_supported e t ≡ false → cell s j t ≡ none) mutable_types

module _ (g : Gdbus) (e : Setting) where
  get_cell_masks :
      (i : ℕ) (t : ProxyType) (s : Session)
      → is_supported e t ≡ false
      → cell (get_cell g e i t s) i t ≡ none
  unfolding get_cell
  get_cell_masks i t s h = rw (get_cell, h) (set_proxy_same i t none s)

  pub get_mutable-IsMasked : (s : Session) → IsMasked e (get_mutable_dbus_proxy g e s)
  unfolding get_mutable_dbus_proxy
  get_mutable-IsMasked s j lt =
      slots-All (λ t o. is_supported e t ≡ false → o ≡ none) (get_cell g e) (get_cell-IsLocal g e)
        get_cell_masks 1 mutable_types 0 e.config.modem_active_count j s mutable_types-Ascends
        (omega arith) (omega arith)
