-- ===== src/Call/EccBounds.antt =====
-- tapi_call.c: how many emergency numbers are written, and where a number is found.
use frameworks_connectivity.Common.{
  ℕ, ◌+◌, ◌≤◌, ◌<◌, ◌≡◌, refl, String, codes, leb, inl, inr, ℤ, Option, none, some, List, [], ◌∷◌,
  length, Bool-cases, Option-cases, arith,
}
use frameworks_connectivity.Utils.Modem.{Config, is_valid_slotid}
use frameworks_connectivity.Records.{
  Code, ret, fail, EccInfo, Context, ProxyType, max_ecc_list_size,
}
use frameworks_connectivity.Bus.Message.{Value, Iter, end, item, string, object_path, array, ◌>>=◌}
use frameworks_connectivity.Utils.Modem.{slot_index}
use frameworks_connectivity.Call.DecodeBounds.{Yields, Yields-each, Yields-bind, Yields-some}
use frameworks_connectivity.Bus.Property.{Properties}
use frameworks_connectivity.Call.Ecc.{
  Entries, wrote, or_break, and_then, entry_of, cond_cat, entries_of, changed_entries,
  listed_entries, modem_numbers, slot_numbers, get_ecc_list,
}

-- What is written from the entry `index` on stays in the array.
abbrev Room : ℕ → List EccInfo → Type 0
Room index l = index + length l ≤ max_ecc_list_size

and_then-Room :
    (index : ℕ) (e : EccInfo) (rest : Option (List EccInfo))
    → index < max_ecc_list_size
    → (index + 1 < max_ecc_list_size → Yields (Room (index + 1)) rest)
    → Yields (Room index) (and_then e (leb max_ecc_list_size (index + 1)) rest)
and_then-Room index e rest lt h = elim (Bool-cases (leb max_ecc_list_size (index + 1))) [
  | inl b ↦ rw b (omega arith)
  | inr b ↦ rw b (
      Yields-bind (Room index) (Room (index + 1)) (λ l. some (e ∷ l)) rest (h (ground arith))
        λ l k. omega (arith, k))
]

changed-Room :
    (i : Iter) (index : ℕ)
    → index < max_ecc_list_size
    → Yields (Room index) (changed_entries index i)
unfolding changed_entries
changed-Room (item (string number) (item (string text) i)) index lt =
    Yields-each (Room index) _ (entry_of number (codes text))
      λ e. and_then-Room index e _ lt (changed-Room i (index + 1))
changed-Room (item (string number) end) index lt = omega arith
changed-Room (item (string number) (item v i)) index lt =
    and_then-Room index _ _ lt (changed-Room i (index + 1))
changed-Room _ index lt = omega arith

-- The emergency numbers that a change signal carries are at most thirty, as many as the array that
-- they are written to has room for, whatever the signal holds.
pub changed_entries_bound :
    (i : Iter) (l : List EccInfo) → changed_entries 0 i ≡ some l → length l ≤ max_ecc_list_size
changed_entries_bound i l e =
    omega (arith, Yields-some (Room 0) (changed_entries 0 i) l (changed-Room i 0 (omega arith)) e)

-- The entries are written at ascending indices from `i` on, below `n`.
unfoldable pub Within : ℕ → ℕ → Entries → Type 0
Within i n [] = i ≤ n
Within i n ((k, e) ∷ l) = (i ≤ k) × Within (k + 1) n l

-- The index at the end of the loop is that of the array at most, and every write is below it.
abbrev Held : ℕ → ℕ × Entries → Type 0
Held index r = (r.0 ≤ max_ecc_list_size) × Within index r.0 r.1

Within-lower : (i n : ℕ) (l : Entries) → Within (i + 1) n l → Within i n l
unfolding Within
Within-lower i n [] h = omega (arith, h)
Within-lower i n ((k, e) ∷ l) h = (omega (arith, h.0), h.1)

or_break-Held :
    (index : ℕ) (rest : Option (ℕ × Entries))
    → index < max_ecc_list_size
    → (index + 1 < max_ecc_list_size → Yields (Held (index + 1)) rest)
    → Yields (Held (index + 1)) (or_break (index + 1) rest)
unfolding Within
or_break-Held index rest lt h = elim (Bool-cases (leb max_ecc_list_size (index + 1))) [
  | inl b ↦ rw b (omega arith, omega arith)
  | inr b ↦ rw b (h (ground arith))
]

wrote-Held :
    (index : ℕ) (e : EccInfo) (o : Option (ℕ × Entries))
    → Yields (Held (index + 1)) o
    → Yields (Held index) (wrote index e o)
unfolding Within
wrote-Held index e none h = tt
wrote-Held index e (some r) h = (h.0, (omega arith, h.1))

skipped-Held :
    (index : ℕ) (o : Option (ℕ × Entries)) → Yields (Held (index + 1)) o → Yields (Held index) o
skipped-Held index none h = tt
skipped-Held index (some r) h = (h.0, Within-lower index r.0 r.1 h.1)

listed_text-Held :
    (index : ℕ) (number text : String) (rest : Option (ℕ × Entries))
    → index < max_ecc_list_size
    → (index + 1 < max_ecc_list_size → Yields (Held (index + 1)) rest)
    → Yields (Held index) (
        cond_cat text >>= λ s. entry_of number s >>= λ e. wrote index e (or_break (index + 1) rest))
listed_text-Held index number text rest lt h = Yields-each (Held index) _ (cond_cat text) λ s.
    Yields-each (Held index) _ (entry_of number s)
      λ e. wrote-Held index e _ (or_break-Held index rest lt h)

listed-Held :
    (i : Iter) (index : ℕ)
    → index < max_ecc_list_size
    → Yields (Held index) (listed_entries index i)
unfolding listed_entries Within
listed-Held end index lt = (omega arith, omega arith)
listed-Held (item (string number) (item (string text) i)) index lt =
    listed_text-Held index number text _ lt (listed-Held i (index + 1))
listed-Held (item (string number) (item (object_path text) i)) index lt =
    listed_text-Held index number text _ lt (listed-Held i (index + 1))
listed-Held (item (string number) _) index lt = tt
listed-Held (item v i) index lt =
    skipped-Held index _ (or_break-Held index _ lt (listed-Held i (index + 1)))

-- A count is thirty at most, and each write is to an index of its own below it; with an error nothing
-- is written.
abbrev pub Counted : Code × Entries → Type 0
Counted (ret n, l) = (n ≤ max_ecc_list_size) × Within 0 n l
Counted (fail e, l) = l ≡ []

entries-Counted : (v : Value) → Yields Counted (entries_of v >>= λ r. some (ret r.0, r.1))
unfolding Within
entries-Counted (array i) =
    Yields-bind Counted (Held 0) _ (listed_entries 0 i) (listed-Held i 0 (omega arith)) λ r k. k
entries-Counted _ = (omega arith, omega arith)

module _ (cfg : Config) (props : Properties) where
  found-Counted :
      (c : Code) (o : Option Value)
      → (o ≡ none → Counted (c, []))
      → Yields Counted
          (elim o [ none ↦ some (c, []) | some v ↦ entries_of v >>= λ r. some (ret r.0, r.1) ])
  found-Counted c none h = h refl
  found-Counted c (some v) h = entries-Counted v

  absent_modem :
      (o : Option ℕ)
      → (modem_numbers cfg props o).1 ≡ none
      → Counted ((modem_numbers cfg props o).0, [])
  absent_modem none e = refl
  absent_modem (some p) e = refl

  absent_call :
      (o : Option Value) (m : Option ℕ)
      → (elim o as (λ _. Code × Option Value) [
        | some v ↦ (ret 0, some v)
        | none ↦ modem_numbers cfg props m
      ]).1
        ≡ none
      → Counted (
        (elim o as (λ _. Code × Option Value) [
          | some v ↦ (ret 0, some v)
          | none ↦ modem_numbers cfg props m
        ]).0,
        [],
      )
  absent_call none m e = absent_modem m e
  absent_call (some v) m e = absurd (ground arith)

  absent-Counted :
      (c : Context) (slot proxy : ℕ)
      → (slot_numbers cfg props c slot proxy).1 ≡ none
      → Counted ((slot_numbers cfg props c slot proxy).0, [])
  absent-Counted c slot proxy e =
      absent_call (props proxy "EmergencyNumbers") (c.dbus_proxy slot ProxyType.modem) e

  list-Counted :
      (ctx : Option Context) (slot_id : ℤ) → Yields Counted (get_ecc_list cfg props ctx slot_id)
  unfolding get_ecc_list
  list-Counted none slot_id = refl
  list-Counted (some c) slot_id = elim (Bool-cases (is_valid_slotid cfg slot_id)) [
    | inr v ↦ rw v refl
    | inl v ↦ elim (Bool-cases c.client_ready) [
      | inr r ↦ rw (v, r) refl
      | inl r ↦ elim (Option-cases (c.dbus_proxy (slot_index slot_id) ProxyType.call)) [
        | inl p ↦ rw (v, r, p) refl
        | inr p ↦
            rw (v, r, p.1)
              (found-Counted (slot_numbers cfg props c (slot_index slot_id) p.0).0
                (slot_numbers cfg props c (slot_index slot_id) p.0).1
                (absent-Counted c (slot_index slot_id) p.0))
      ]
    ]
  ]

  -- Where it is defined, the query for the emergency numbers writes inside the caller's array of
  -- thirty only, each entry at an index of its own below the number that it returns, which is at most
  -- thirty; with an error it writes nothing. An index below the number may be left as it was.
  pub get_ecc_list-Counted :
      (ctx : Option Context) (slot_id : ℤ) (r : Code × Entries)
      → get_ecc_list cfg props ctx slot_id ≡ some r
      → Counted r
  get_ecc_list-Counted ctx slot_id r e =
      Yields-some Counted (get_ecc_list cfg props ctx slot_id) r (list-Counted ctx slot_id) e
