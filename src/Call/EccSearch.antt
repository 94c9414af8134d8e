-- ===== src/Call/EccSearch.antt =====
-- tapi_call.c: what it means that a number is an emergency number.
use frameworks_connectivity.Common.{
  ℕ, zero, suc, ◌+◌, ◌≤◌, ◌<◌, ◌≡◌, refl, sym, ap, ◌∙◌, ◌==◌, CString, String, str_eq, eq_iff, leb,
  inl, inr, ◌⊎◌, Bool, true, false, ℤ, pos, Option, none, some, [], ◌∷◌, Bool-cases, if◌then◌else◌,
  arith,
}
use frameworks_connectivity.Utils.Modem.{Config}
use frameworks_connectivity.Records.{Code, ret, fail, EccInfo, Context}
use frameworks_connectivity.Bus.Message.{◌>>=◌}
use frameworks_connectivity.Call.DecodeBounds.{Yields, Yields-bind, Yields-some}
use frameworks_connectivity.Bus.Property.{Properties}
use frameworks_connectivity.Call.Ecc.{
  Entries, entry_at, get_ecc_list, find_number, to_int, minus_one, search_slot, search_slots,
  is_emergency_number,
}

module _ (cfg : Config) (props : Properties) where
  -- An entry was written for the number, with the condition that `v` stands for.
  abbrev pub Names : String → ℤ → Entries → Type 0
  Names number v [] = ⊥
  Names number v ((k, e) ∷ l) =
      ((e.ecc_num ≡ some number) × (v ≡ to_int cfg props e.condition)) ⊎ Names number v l

  abbrev Finds : String → Entries → Option ℕ → Type 0
  Finds number l none = Unit
  Finds number l (some condition) = Names number (to_int cfg props condition) l

  -- An entry with a number was written.
  entry_at-Names :
      (number : String) (l : Entries) (j : ℕ)
      → (entry_at l j).ecc_num ≡ some number
      → Names number (to_int cfg props (entry_at l j).condition) l
  unfolding entry_at
  entry_at-Names number [] j h = absurd (ground arith)
  entry_at-Names number ((k, e) ∷ l) j h = at (k == j) h (entry_at-Names number l j)
    where
      at :
          (b : Bool)
          → (elim b as (λ _. EccInfo) [ true ↦ e | false ↦ entry_at l j ]).ecc_num ≡ some number
          → ((entry_at l j).ecc_num ≡ some number
              → Names number (to_int cfg props (entry_at l j).condition) l)
          → Names number
              (to_int cfg props
                (elim b as (λ _. EccInfo) [ true ↦ e | false ↦ entry_at l j ]).condition)
              ((k, e) ∷ l)
      at true h later = inl (h, refl)
      at false h later = inr (later h)

  compared :
      (number s : String) (l : Entries) (j : ℕ) (b : Bool) (rest : Option (Option ℕ))
      → str_eq number s ≡ b
      → (entry_at l j).ecc_num ≡ some s
      → Yields (Finds number l) rest
      → Yields
          (Finds number l)
          (elim b [ true ↦ some (some (entry_at l j).condition) | false ↦ rest ])
  compared number s l j true rest t h k =
      entry_at-Names number l j (h ∙ ap some (sym ((eq_iff number s).0 t)))
  compared number s l j false rest t h k = k

  Finds-at :
      (number : String) (l : Entries) (j : ℕ) (o : CString) (rest : Option (Option ℕ))
      → (entry_at l j).ecc_num ≡ o
      → Yields (Finds number l) rest
      → Yields (Finds number l) (elim o as (λ _. Option (Option ℕ)) [
        | none ↦ none
        | some s ↦ elim (str_eq number s) [
          | true ↦ some (some (entry_at l j).condition)
          | false ↦ rest
        ]
      ])
  Finds-at number l j none rest h k = tt
  Finds-at number l j (some s) rest h k = compared number s l j (str_eq number s) rest refl h k

  finds :
      (number : String) (l : Entries) (j n : ℕ)
      → Yields (Finds number l) (find_number cfg props number l j n)
  unfolding find_number
  finds number l j zero = tt
  finds number l j (suc n) =
      Finds-at number l j (entry_at l j).ecc_num _ refl (finds number l (j + 1) n)

  -- The result -1, or the condition of an entry for the number in the list of one of the slots from
  -- `i` on.
  abbrev pub Emergency : Option Context → String → ℕ → ℕ → ℤ → Type 0
  Emergency ctx number i n v =
      (v ≡ minus_one cfg props)
      ⊎ ((slot : ℕ) × (i ≤ slot)
          × (slot < i + n)
          × (r : Code × Entries) × (get_ecc_list cfg props ctx (pos slot) ≡ some r)
          × Names number v r.1)

  -- What one round says: an answer, or that the next slot is searched.
  abbrev Round : Option Context → String → ℕ → Option ℤ → Type 0
  Round ctx number i none = Unit
  Round ctx number i (some v) = Emergency ctx number i 1 v

  Round-of :
      (ctx : Option Context) (number : String) (i : ℕ) (r : Code × Entries) (f : Option ℕ)
      → get_ecc_list cfg props ctx (pos i) ≡ some r
      → Finds number r.1 f
      → Yields
          (Round ctx number i)
          (elim f [ none ↦ some none | some c ↦ some (some (to_int cfg props c)) ])
  Round-of ctx number i r none e k = tt
  Round-of ctx number i r (some c) e k = inr (i, omega arith, omega arith, r, e, k)

  one-Round :
      (ctx : Option Context) (number : String) (i : ℕ)
      → Yields (Round ctx number i) (search_slot cfg props ctx number i)
  unfolding search_slot
  one-Round ctx number i = listed (get_ecc_list cfg props ctx (pos i)) refl
    where
      listed :
          (o : Option (Code × Entries))
          → get_ecc_list cfg props ctx (pos i) ≡ o
          → Yields (Round ctx number i) (
              o >>= λ r. elim r.0 as (λ _. Option (Option ℤ)) [
                | fail e ↦ some (some (minus_one cfg props))
                | ret size ↦
                    if leb size 0
                    then some (some (minus_one cfg props))
                    else find_number cfg props number r.1 0 size >>= λ f. elim f [
                      | none ↦ some none
                      | some c ↦ some (some (to_int cfg props c))
                    ]
              ])
      listed none e = tt
      listed (some (fail c, l)) e = inl refl
      listed (some (ret size, l)) e = elim (Bool-cases (leb size 0)) [
        | inl z ↦ rw z (inl refl)
        | inr z ↦ rw z (
            Yields-bind (Round ctx number i) (Finds number l) _
              (find_number cfg props number l 0 size) (finds number l 0 size)
              λ f k. Round-of ctx number i (ret size, l) f e k)
      ]

  continued :
      (ctx : Option Context) (number : String) (i n : ℕ) (f : Option ℤ) (rest : Option ℤ)
      → Round ctx number i f
      → Yields (Emergency ctx number (suc i) n) rest
      → Yields (Emergency ctx number i (suc n)) (elim f [ some r ↦ some r | none ↦ rest ])
  continued ctx number i n (some v) rest (inl e) k = inl e
  continued ctx number i n (some v) rest (inr e) k =
      inr (e.0, e.1, omega (arith, e.2), e.3, e.4, e.5)
  continued ctx number i n none none h k = tt
  continued ctx number i n none (some v) h (inl e) = inl e
  continued ctx number i n none (some v) h (inr e) =
      inr (e.0, omega (arith, e.1), omega (arith, e.2), e.3, e.4, e.5)

  searched :
      (ctx : Option Context) (number : String) (i n : ℕ)
      → Yields (Emergency ctx number i n) (search_slots cfg props ctx number i n)
  unfolding search_slots
  searched ctx number i zero = inl refl
  searched ctx number i (suc n) =
      Yields-bind (Emergency ctx number i (suc n)) (Round ctx number i) _
        (search_slot cfg props ctx number i) (one-Round ctx number i)
        λ f k. continued ctx number i n f _ k (searched ctx number (suc i) n)

  -- The answer to whether a number is an emergency number is -1, or the condition of an entry for
  -- exactly that number in the list of an active slot.
  pub is_emergency_number-Emergency :
      (ctx : Option Context) (number : String) (v : ℤ)
      → is_emergency_number cfg props ctx number ≡ some v
      → Emergency ctx number 0 cfg.modem_active_count v
  unfolding is_emergency_number
  is_emergency_number-Emergency ctx number v e =
      Yields-some (Emergency ctx number 0 cfg.modem_active_count)
        (search_slots cfg props ctx number 0 cfg.modem_active_count) v
        (searched ctx number 0 cfg.modem_active_count) e
