-- ===== src/Manager/References.antt =====
-- tapi_manager.c: the references that the proxies of a context stand for.
use frameworks_connectivity.Common.{
  ℕ, zero, suc, ◌+◌, ◌≤◌, ◌≡◌, ◌≢◌, refl, ◌∙◌, ap, ◌⊎◌, inl, inr, false, ◌==◌, ==_iff, List, [],
  ◌∷◌, Option, none, some, Bool-cases, Option-cases, arith,
}
use frameworks_connectivity.Records.{ProxyType}
use frameworks_connectivity.Bus.Monad.{remove}
use frameworks_connectivity.Manager.Proxies.{
  Setting, Gdbus, Session, proxy_index, mutable_types, set_proxy, hold, unref, for_types, for_slots,
  is_supported, new_proxy, get_cell, release_cell, unref_cell,
}
use frameworks_connectivity.Manager.Cells.{
  one, count, cell, row, rows, Ascends, IsLocal, Moved, Covers, IsMove,
}

abbrev pub nothing : ℕ → Option ℕ → ℕ
nothing q o = 0

abbrev pub only_modem : List ProxyType
only_modem = ProxyType.modem ∷ []

pub no_rows_left :
    (q : ℕ) (d : ℕ → ProxyType → Option ℕ) (ts : List ProxyType) (i n : ℕ)
    → rows (nothing q) d ts i n ≡ 0
no_rows_left q d ts i zero = refl
no_rows_left q d ts i (suc n) = omega (arith, row_nothing ts, no_rows_left q d ts (suc i) n)
  where
    row_nothing : (ts : List ProxyType) → row (nothing q) (d i) ts ≡ 0
    row_nothing [] = refl
    row_nothing (t ∷ ts) = omega (arith, row_nothing ts)

pub modem_rows :
    (f : Option ℕ → ℕ) (d d' : ℕ → ProxyType → Option ℕ) (i n : ℕ)
    → ((j : ℕ) → d j ProxyType.modem ≡ d' j ProxyType.modem)
    → rows f d only_modem i n ≡ rows f d' only_modem i n
modem_rows f d d' i zero h = refl
modem_rows f d d' i (suc n) h = rw (h i, modem_rows f d d' (suc i) n h) refl

-- What no round changes, the loops do not change.
pub slots_keep :
    {A : Type 0} (field : Session → A) (body : ℕ → ProxyType → Session → Session)
    → ((i : ℕ) (t : ProxyType) (s : Session) → field (body i t s) ≡ field s)
    → (ts : List ProxyType) (i n : ℕ) (s : Session) → field (for_slots body ts i n s) ≡ field s
unfolding for_slots for_types
slots_keep field body h ts i zero s = refl
slots_keep field body h ts i (suc n) s =
    slots_keep field body h ts (suc i) n (for_types (body i) ts s) ∙ types_keep ts s
  where
    types_keep : (ts : List ProxyType) (s : Session) → field (for_types (body i) ts s) ≡ field s
    types_keep [] s = refl
    types_keep (t ∷ ts) s = types_keep ts (body i t s) ∙ h i t s

pub mutable_types-Ascends : Ascends 1 mutable_types
mutable_types-Ascends = ground arith

count-remove :
    (p : ℕ) (l : List ℕ)
    → 1 ≤ count p l
    → (l' : List ℕ) × (remove p l ≡ some l') × ((q : ℕ) → count q l' + one q (some p) ≡ count q l)
count-remove p [] h = absurd (omega arith)
count-remove p (x ∷ xs) h = elim (Bool-cases (x == p)) [
  | inl e ↦ (xs, rw e refl, λ q. rw (← (==_iff x p).0 e) (omega arith))
  | inr e ↦
      let r = count-remove p xs (ground arith) in
      (x ∷ r.0, rw (e, r.1) refl, λ q. omega (arith, r.2 q))
]

-- Setting a cell.
pub set_proxy_same :
    (i : ℕ) (t : ProxyType) (v : Option ℕ) (s : Session) → cell (set_proxy i t v s) i t ≡ v
set_proxy_same i t v s =
    rw ((==_iff i i).1 refl, (==_iff (proxy_index t) (proxy_index t)).1 refl) refl

set_proxy_other :
    (i : ℕ) (t : ProxyType) (v : Option ℕ) (s : Session) (j : ℕ) (u : ProxyType)
    → (j ≢ i) ⊎ (proxy_index u ≢ proxy_index t)
    → cell (set_proxy i t v s) j u ≡ cell s j u
set_proxy_other i t v s j u h = elim (Bool-cases (j == i)) [
  | inr e ↦ rw e refl
  | inl e ↦ elim (Bool-cases (proxy_index u == proxy_index t)) [
    | inr k ↦ rw (e, k) refl
    | inl k ↦ absurd (elim h [
      | inl n ↦ n ((==_iff j i).0 e)
      | inr n ↦ n ((==_iff (proxy_index u) (proxy_index t)).0 k)
    ])
  ]
]

hold_context : (o : Option ℕ) (s : Session) → (hold o s).context ≡ s.context
hold_context none s = refl
hold_context (some p) s = refl

pub hold-Moved :
    (o : Option ℕ) (s : Session) → s.bad_unref ≡ false → Moved s (hold o s) (λ q. 0) (λ q. one q o)
hold-Moved none s h = (h, λ q. refl)
hold-Moved (some p) s h = (h, λ q. omega arith)

pub unref_context : (o : Option ℕ) (s : Session) → (unref o s).context ≡ s.context
unfolding unref
unref_context none s = refl
unref_context (some p) s = elim (Option-cases (remove p s.references)) [
  | inl e ↦ rw (unref, e) refl
  | inr (l, e) ↦ rw (unref, e) refl
]

pub unref-Moved :
    (o : Option ℕ) (s : Session)
    → Covers s (λ q. one q o)
    → Moved s (unref o s) (λ q. one q o) (λ q. 0)
unfolding unref
unref-Moved none s c = (c.0, λ q. refl)
unref-Moved (some p) s c =
    let held : 1 ≤ count p s.references = ground (arith, c.1 p, (==_iff p p).1 refl) in
    let r = count-remove p s.references held in rw (unref, r.1) (c.0, λ q. omega (arith, r.2 q))

-- The four bodies touch their own cell only, and move its weight.
module _ (g : Gdbus) (e : Setting) where
  pub new_proxy-IsLocal : IsLocal (new_proxy g e)
  unfolding new_proxy
  new_proxy-IsLocal i t s j u h =
      set_proxy_other i t _ (hold _ s) j u h ∙ ap (λ c. c.dbus_proxy j u) (hold_context _ s)

  pub new_proxy-IsMove : IsMove nothing one (new_proxy g e)
  unfolding new_proxy
  new_proxy-IsMove i t s c = rw (set_proxy_same i t _ (hold _ s)) (hold-Moved _ s c.0)

  pub get_cell-IsLocal : IsLocal (get_cell g e)
  unfolding get_cell
  get_cell-IsLocal i t s j u h = elim (Bool-cases (is_supported e t)) [
    | inl k ↦ rw (get_cell, k) (new_proxy-IsLocal i t s j u h)
    | inr k ↦ rw (get_cell, k) (set_proxy_other i t none s j u h)
  ]

  pub get_cell-IsMove : IsMove nothing one (get_cell g e)
  unfolding get_cell
  get_cell-IsMove i t s c = elim (Bool-cases (is_supported e t)) [
    | inl k ↦ rw (get_cell, k) (new_proxy-IsMove i t s c)
    | inr k ↦ rw (get_cell, k) (rw (set_proxy_same i t none s) (c.0, λ q. refl))
  ]

pub release_cell-IsLocal : IsLocal release_cell
unfolding release_cell
release_cell-IsLocal i t s j u h = elim (Option-cases (s.context.dbus_proxy i t)) [
  | inl k ↦ rw (release_cell, k) refl
  | inr (p, k) ↦
      rw (release_cell, k)
        (set_proxy_other i t none (unref (some p) s) j u h
          ∙ ap (λ c. c.dbus_proxy j u) (unref_context (some p) s))
]

pub release_cell-IsMove : IsMove one nothing release_cell
unfolding release_cell
release_cell-IsMove i t s c = elim (Option-cases (s.context.dbus_proxy i t)) [
  | inl k ↦ rw (release_cell, k) (c.0, λ q. refl)
  | inr (p, k) ↦ rw (release_cell, k) (unref-Moved (some p) s (rw k at c))
]

pub unref_cell-IsLocal : IsLocal unref_cell
unfolding unref_cell
unref_cell-IsLocal i t s j u h = ap (λ c. c.dbus_proxy j u) (unref_context _ s)

pub unref_cell-IsMove : IsMove one nothing unref_cell
unfolding unref_cell
unref_cell-IsMove i t s c = unref-Moved _ s c

-- The manager's proxy, which no round changes.
module _ (g : Gdbus) (e : Setting) (i : ℕ) (t : ProxyType) (s : Session) where
  pub new_proxy_manager :
      (new_proxy g e i t s).context.dbus_proxy_manager ≡ s.context.dbus_proxy_manager
  unfolding new_proxy
  new_proxy_manager = ap (λ c. c.dbus_proxy_manager) (hold_context _ s)

  pub get_cell_manager :
      (get_cell g e i t s).context.dbus_proxy_manager ≡ s.context.dbus_proxy_manager
  unfolding get_cell
  get_cell_manager = elim (Bool-cases (is_supported e t)) [
    | inl k ↦ rw (get_cell, k) new_proxy_manager
    | inr k ↦ rw (get_cell, k) refl
  ]

pub release_cell_manager :
    (i : ℕ) (t : ProxyType) (s : Session)
    → (release_cell i t s).context.dbus_proxy_manager ≡ s.context.dbus_proxy_manager
unfolding release_cell
release_cell_manager i t s = elim (Option-cases (s.context.dbus_proxy i t)) [
  | inl k ↦ rw (release_cell, k) refl
  | inr (p, k) ↦ rw (release_cell, k) (ap (λ c. c.dbus_proxy_manager) (unref_context (some p) s))
]

pub unref_cell_context :
    (i : ℕ) (t : ProxyType) (s : Session) → (unref_cell i t s).context ≡ s.context
unfolding unref_cell
unref_cell_context i t s = unref_context _ s
