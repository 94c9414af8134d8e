-- ===== src/Manager/Cells.antt =====
-- tapi_manager.c: what the two nested loops over slots and proxy types do to the references.
use frameworks_connectivity.Common.{
  ℕ, zero, suc, ◌+◌, ◌≤◌, ◌<◌, ◌≡◌, ◌≢◌, refl, ◌∙◌, ap, ◌⊎◌, inl, inr, false, ◌==◌, List, [], ◌∷◌,
  Option, none, some, if◌then◌else◌, arith,
}
use frameworks_connectivity.Records.{ProxyType}
use frameworks_connectivity.Manager.Proxies.{Session, proxy_index, for_types, for_slots}

-- How often a proxy occurs.
abbrev pub one : ℕ → Option ℕ → ℕ
one q none = 0
one q (some p) = if p == q then 1 else 0

abbrev pub count : ℕ → List ℕ → ℕ
count q [] = 0
count q (p ∷ ps) = one q (some p) + count q ps

abbrev pub cell : Session → ℕ → ProxyType → Option ℕ
cell s = s.context.dbus_proxy

-- The sum of a weight over the cells of a slot, and over `n` slots from slot `i` on.
abbrev pub row : (Option ℕ → ℕ) → (ProxyType → Option ℕ) → List ProxyType → ℕ
row f d [] = 0
row f d (t ∷ ts) = f (d t) + row f d ts

abbrev pub rows : (Option ℕ → ℕ) → (ℕ → ProxyType → Option ℕ) → List ProxyType → ℕ → ℕ → ℕ
rows f d ts i zero = 0
rows f d ts i (suc n) = row f (d i) ts + rows f d ts (suc i) n

-- The types are in the order of the enumerators, from `lo` on.
abbrev pub Ascends : ℕ → List ProxyType → Type 0
Ascends lo [] = Unit
Ascends lo (t ∷ ts) = (lo ≤ proxy_index t) × Ascends (suc (proxy_index t)) ts

Ascends-weaken : (lo hi : ℕ) (ts : List ProxyType) → lo ≤ hi → Ascends hi ts → Ascends lo ts
Ascends-weaken lo hi [] h a = tt
Ascends-weaken lo hi (t ∷ ts) h a = (omega (arith, a.0), a.1)

row_ext :
    (f : Option ℕ → ℕ) (d d' : ProxyType → Option ℕ) (lo : ℕ) (ts : List ProxyType)
    → Ascends lo ts
    → ((u : ProxyType) → lo ≤ proxy_index u → d u ≡ d' u)
    → row f d ts ≡ row f d' ts
row_ext f d d' lo [] a h = refl
row_ext f d d' lo (t ∷ ts) a h =
    rw (h t a.0, row_ext f d d' (suc (proxy_index t)) ts a.1 λ u k. h u (omega (arith, a.0))) refl

pub rows_ext :
    (f : Option ℕ → ℕ) (d d' : ℕ → ProxyType → Option ℕ) (lo : ℕ) (ts : List ProxyType) (i n : ℕ)
    → Ascends lo ts
    → ((j : ℕ) (u : ProxyType) → i ≤ j → lo ≤ proxy_index u → d j u ≡ d' j u)
    → rows f d ts i n ≡ rows f d' ts i n
rows_ext f d d' lo ts i zero a h = refl
rows_ext f d d' lo ts i (suc n) a h =
    rw
      (
        row_ext f (d i) (d' i) lo ts a (λ u k. h i u (omega arith) k),
        rows_ext f d d' lo ts (suc i) n a λ j u le k. h j u (omega arith) k,
      )
      refl

-- Each round touches its own cell only.
abbrev pub IsLocal : (ℕ → ProxyType → Session → Session) → Type 0
IsLocal body =
    (i : ℕ) (t : ProxyType) (s : Session) (j : ℕ) (u : ProxyType)
    → (j ≢ i) ⊎ (proxy_index u ≢ proxy_index t)
    → cell (body i t s) j u ≡ cell s j u

-- The references `after` have lost the weight `pre` and gained the weight `post`.
abbrev pub Moved : Session → Session → (ℕ → ℕ) → (ℕ → ℕ) → Type 0
Moved s s' pre post =
    (s'.bad_unref ≡ false)
    × ((q : ℕ) → count q s'.references + pre q ≡ count q s.references + post q)

-- The weight is held.
abbrev pub Covers : Session → (ℕ → ℕ) → Type 0
Covers s pre = (s.bad_unref ≡ false) × ((q : ℕ) → pre q ≤ count q s.references)

-- Each round takes the weight `pre` of its cell from the references, and adds `post` of the new one.
abbrev pub IsMove :
    (ℕ → Option ℕ → ℕ) → (ℕ → Option ℕ → ℕ) → (ℕ → ProxyType → Session → Session) → Type 0
IsMove pre post body =
    (i : ℕ) (t : ProxyType) (s : Session)
    → Covers s (λ q. pre q (cell s i t))
    → Moved s (body i t s) (λ q. pre q (cell s i t)) (λ q. post q (cell (body i t s) i t))

module _ (body : ℕ → ProxyType → Session → Session) (local : IsLocal body) where
  types_other_slot :
      (i : ℕ) (ts : List ProxyType) (s : Session) (j : ℕ) (u : ProxyType)
      → j ≢ i
      → cell (for_types (body i) ts s) j u ≡ cell s j u
  unfolding for_types
  types_other_slot i [] s j u ne = refl
  types_other_slot i (t ∷ ts) s j u ne =
      types_other_slot i ts (body i t s) j u ne ∙ local i t s j u (inl ne)

  pub types_other_type :
      (i lo : ℕ) (ts : List ProxyType) (s : Session) (j : ℕ) (u : ProxyType)
      → Ascends lo ts
      → proxy_index u < lo
      → cell (for_types (body i) ts s) j u ≡ cell s j u
  unfolding for_types
  types_other_type i lo [] s j u a h = refl
  types_other_type i lo (t ∷ ts) s j u a h =
      types_other_type i (suc (proxy_index t)) ts (body i t s) j u a.1 (omega (arith, a.0))
      ∙ local i t s j u (inr (omega (arith, a.0)))

  pub slots_before :
      (ts : List ProxyType) (i n : ℕ) (s : Session) (j : ℕ) (u : ProxyType)
      → j < i
      → cell (for_slots body ts i n s) j u ≡ cell s j u
  unfolding for_slots
  slots_before ts i zero s j u h = refl
  slots_before ts i (suc n) s j u h =
      slots_before ts (suc i) n (for_types (body i) ts s) j u (omega arith)
      ∙ types_other_slot i ts s j u (omega arith)

  -- The loops over the types from `lo` on leave the cells of the types before it.
  pub slots_other_type :
      (lo : ℕ) (ts : List ProxyType) (i n : ℕ) (s : Session) (j : ℕ) (u : ProxyType)
      → Ascends lo ts
      → proxy_index u < lo
      → cell (for_slots body ts i n s) j u ≡ cell s j u
  unfolding for_slots
  slots_other_type lo ts i zero s j u a h = refl
  slots_other_type lo ts i (suc n) s j u a h =
      slots_other_type lo ts (suc i) n (for_types (body i) ts s) j u a h
      ∙ types_other_type i lo ts s j u a h

  module _ (pre post : ℕ → Option ℕ → ℕ) (move : IsMove pre post body) where
    types-Moved :
        (i lo : ℕ) (ts : List ProxyType) (s : Session)
        → Ascends lo ts
        → Covers s (λ q. row (pre q) (cell s i) ts)
        → Moved s
            (for_types (body i) ts s)
            (λ q. row (pre q) (cell s i) ts)
            (λ q. row (post q) (cell (for_types (body i) ts s) i) ts)
    unfolding for_types
    types-Moved i lo [] s a c = (c.0, λ q. refl)
    types-Moved i lo (t ∷ ts) s a c =
        let rest =
          types-Moved i (suc (proxy_index t)) ts (body i t s) a.1
            (here.0, λ q. omega (arith, c.1 q, here.1 q, same q)) in
        (rest.0, λ q. omega (arith, here.1 q, rest.1 q, same q, kept q))
      where
        here : Moved s (body i t s) (λ q. pre q (cell s i t)) (λ q. post q (cell (body i t s) i t))
        here = move i t s (c.0, λ q. omega (arith, c.1 q))

        same : (q : ℕ) → row (pre q) (cell (body i t s) i) ts ≡ row (pre q) (cell s i) ts
        same q =
            row_ext (pre q) _ _ (suc (proxy_index t)) ts a.1
              λ u h. local i t s i u (inr (omega arith))

        kept :
            (q : ℕ)
            → post q (cell (for_types (body i) ts (body i t s)) i t)
              ≡ post q (cell (body i t s) i t)
        kept q =
            ap (post q)
              (types_other_type i (suc (proxy_index t)) ts (body i t s) i t a.1 (omega arith))

    -- The loops together move the weights of all their cells.
    pub slots-Moved :
        (lo : ℕ) (ts : List ProxyType) (i n : ℕ) (s : Session)
        → Ascends lo ts
        → Covers s (λ q. rows (pre q) (cell s) ts i n)
        → Moved s
            (for_slots body ts i n s)
            (λ q. rows (pre q) (cell s) ts i n)
            (λ q. rows (post q) (cell (for_slots body ts i n s)) ts i n)
    unfolding for_slots
    slots-Moved lo ts i zero s a c = (c.0, λ q. refl)
    slots-Moved lo ts i (suc n) s a c =
        let rest =
          slots-Moved lo ts (suc i) n (for_types (body i) ts s) a
            (here.0, λ q. omega (arith, c.1 q, here.1 q, same q)) in
        (rest.0, λ q. omega (arith, here.1 q, rest.1 q, same q, kept q))
      where
        here :
            Moved s
              (for_types (body i) ts s)
              (λ q. row (pre q) (cell s i) ts)
              (λ q. row (post q) (cell (for_types (body i) ts s) i) ts)
        here = types-Moved i lo ts s a (c.0, λ q. omega (arith, c.1 q))

        same :
            (q : ℕ)
            → rows (pre q) (cell (for_types (body i) ts s)) ts (suc i) n
              ≡ rows (pre q) (cell s) ts (suc i) n
        same q =
            rows_ext (pre q) _ _ lo ts (suc i) n a
              λ j u h k. types_other_slot i ts s j u (omega arith)

        kept :
            (q : ℕ)
            → row (post q) (cell (for_slots body ts (suc i) n (for_types (body i) ts s)) i) ts
              ≡ row (post q) (cell (for_types (body i) ts s) i) ts
        kept q =
            row_ext (post q) _ _ lo ts a
              λ u k. slots_before ts (suc i) n (for_types (body i) ts s) i u (omega arith)
