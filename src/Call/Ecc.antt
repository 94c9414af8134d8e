-- ===== src/Call/Ecc.antt =====
-- tapi_call.c: emergency numbers, as the modem lists them: a number, then "category,condition".
use frameworks_connectivity.Common.{
  ℕ, zero, suc, ◌+◌, ◌-◌, ◌*◌, ◌%◌, ◌^◌, String, CString, codes, strlen, Bool, true, false, ℤ, pos,
  negsuc, ltb, leb, ◌==◌, ◌&&◌, ◌||◌, str_eq, if◌then◌else◌, Option, none, some, List, [], ◌∷◌,
}
use frameworks_connectivity.Utils.Modem.{Config, is_valid_slotid}
use frameworks_connectivity.Records.{
  Code, ret, fail, einval, eio, eagain, EccInfo, max_ecc_list_size, ProxyType, Context,
}
use frameworks_connectivity.Bus.Property.{Properties}
use frameworks_connectivity.Bus.Message.{Value, Iter, end, item, string, object_path, array, ◌>>=◌}
use frameworks_connectivity.Utils.Modem.{slot_index}

-- `strtok(s, ",")`: what the separators leave.
unfoldable pub skip_commas : List ℕ → List ℕ
skip_commas [] = []
skip_commas (c ∷ s) = elim (c == b',') [ true ↦ skip_commas s | false ↦ c ∷ s ]

-- The token, and what follows its separator, where a later call goes on.
unfoldable pub token : List ℕ → List ℕ × List ℕ
token [] = ([], [])
token (c ∷ s) = let r = token s in if c == b',' then ([], s) else (c ∷ r.0, r.1)

-- The two calls of `strtok`; `none` is a null pointer.
unfoldable pub strtok : List ℕ → Option (List ℕ × List ℕ)
unfolding skip_commas token
strtok s = elim (skip_commas s) [ [] ↦ none | c ∷ r ↦ some (token (c ∷ r)) ]

abbrev is_space : ℕ → Bool
is_space c = c == 32 || leb 9 c && leb c 13

abbrev is_digit : ℕ → Bool
is_digit c = leb b'0' c && leb c b'9'

unfoldable pub skip_spaces : List ℕ → List ℕ
skip_spaces [] = []
skip_spaces (c ∷ s) = elim (is_space c) [ true ↦ skip_spaces s | false ↦ c ∷ s ]

-- The number that the digits at the front say, after `v`.
unfoldable pub digits_value : ℕ → List ℕ → ℕ
digits_value v [] = v
digits_value v (c ∷ s) = elim (is_digit c) [
  | true ↦ digits_value (v * 10 + (c - b'0')) s
  | false ↦ v
]

abbrev signed : Bool → ℕ → Option ℤ
signed true v = if leb v (2 ^ 31) then some (elim v [ zero ↦ pos 0 | suc n ↦ negsuc n ]) else none
signed false v = if ltb v (2 ^ 31) then some (pos v) else none

abbrev atoi_sign : List ℕ → Option ℤ
atoi_sign [] = some (pos 0)
atoi_sign (c ∷ s) =
    if c == b'-'
    then signed true (digits_value 0 s)
    else if c == b'+'
    then signed false (digits_value 0 s)
    else signed false (digits_value 0 (c ∷ s))

-- `atoi`, undefined where the value is no `int`.
unfoldable pub atoi : List ℕ → Option ℤ
unfolding skip_spaces digits_value
atoi s = atoi_sign (skip_spaces s)

-- The conversion to `unsigned int`.
abbrev pub to_unsigned : ℤ → ℕ
to_unsigned (pos n) = n % 2 ^ 32
to_unsigned (negsuc n) = 2 ^ 32 - 1 - n % 2 ^ 32

-- The category and the condition; undefined where a token is missing, as `atoi` reads it.
unfoldable pub category_condition : List ℕ → Option (ℕ × ℕ)
unfolding strtok atoi
category_condition s = do
  first ← strtok s
  category ← atoi first.0
  second ← strtok first.1
  condition ← atoi second.0
  some (to_unsigned category, to_unsigned condition)

abbrev pub entry_of : String → List ℕ → Option EccInfo
entry_of number s = category_condition s >>= λ r.
    some (record { ecc_num = some number; category = r.0; condition = r.1 })

-- An entry of a list that was set to zero.
abbrev pub zero_entry : CString → EccInfo
zero_entry number = record { ecc_num = number; category = 0; condition = 0 }

abbrev pub and_then : EccInfo → Bool → Option (List EccInfo) → Option (List EccInfo)
and_then e true rest = some (e ∷ [])
and_then e false rest = rest >>= λ l. some (e ∷ l)

-- The loop of `tapi_call_property_change`, with the number of entries that were written before.
unfoldable pub changed_entries : ℕ → Iter → Option (List EccInfo)
changed_entries index (item (string number) (item (string text) i)) =
    let rest = changed_entries (index + 1) i in
    entry_of number (codes text) >>= λ e. and_then e (leb max_ecc_list_size (index + 1)) rest
changed_entries index (item (string number) (item v i)) =
    let rest = changed_entries (index + 1) i in
    and_then (zero_entry (some number)) (leb max_ecc_list_size (index + 1)) rest
changed_entries index (item (string number) end) = some (zero_entry (some number) ∷ [])
changed_entries index _ = some []

-- `strncpy(cond_cat, str, 4)` into five characters of which the last is not set: a text of four
-- characters or more is left with no terminator that is determined.
abbrev pub cond_cat : String → Option (List ℕ)
cond_cat s = if leb 4 (strlen s) then none else some (codes s)

-- What is written to `out`: entries with their index.
abbrev pub Entries : Type 0
Entries = List (ℕ × EccInfo)

abbrev pub wrote : ℕ → EccInfo → Option (ℕ × Entries) → Option (ℕ × Entries)
wrote index e rest = rest >>= λ r. some (r.0, (index, e) ∷ r.1)

-- `if (index >= MAX_ECC_LIST_SIZE) break;`
abbrev pub or_break : ℕ → Option (ℕ × Entries) → Option (ℕ × Entries)
or_break index rest = if leb max_ecc_list_size index then some (index, []) else rest

-- The loop of `tapi_call_get_ecc_list`, over every kind of element: the index at its end, and what it
-- writes. An element that is no string raises the index, and nothing is written for it.
unfoldable pub listed_entries : ℕ → Iter → Option (ℕ × Entries)
listed_entries index end = some (index, [])
listed_entries index (item (string number) (item (string text) i)) =
    let rest = listed_entries (index + 1) i in
    cond_cat text >>= λ s. entry_of number s >>= λ e. wrote index e (or_break (index + 1) rest)
listed_entries index (item (string number) (item (object_path text) i)) =
    let rest = listed_entries (index + 1) i in
    cond_cat text >>= λ s. entry_of number s >>= λ e. wrote index e (or_break (index + 1) rest)
listed_entries index (item (string number) _) = none
listed_entries index (item v i) =
    let rest = listed_entries (index + 1) i in or_break (index + 1) rest

-- The index and the entries of an array; a value of another type is not looked at.
abbrev pub entries_of : Value → Option (ℕ × Entries)
entries_of (array i) = listed_entries 0 i
entries_of _ = some (0, [])

-- The entry at an index of a list that was set to zero, and written to at indices that differ.
unfoldable pub entry_at : Entries → ℕ → EccInfo
entry_at [] j = zero_entry none
entry_at ((k, e) ∷ l) j = elim (k == j) [ true ↦ e | false ↦ entry_at l j ]

abbrev or_else : Option Value → Option Value → Option Value
or_else none o = o
or_else (some v) o = some v

module _ (cfg : Config) (props : Properties) where
  abbrev pub modem_numbers : Option ℕ → Code × Option Value
  modem_numbers none = (fail eio, none)
  modem_numbers (some p) = (fail einval, props p "EmergencyNumbers")

  abbrev pub slot_numbers : Context → ℕ → ℕ → Code × Option Value
  slot_numbers c slot proxy = elim (props proxy "EmergencyNumbers") [
    | some v ↦ (ret 0, some v)
    | none ↦ modem_numbers (c.dbus_proxy slot ProxyType.modem)
  ]

  -- `tapi_call_get_ecc_list`: the result and what was written to `out`; `none` is undefined.
  unfoldable pub get_ecc_list : Option Context → ℤ → Option (Code × Entries)
  get_ecc_list none slot_id = some (fail einval, [])
  get_ecc_list (some c) slot_id =
      if is_valid_slotid cfg slot_id
      then if c.client_ready
        then elim (c.dbus_proxy (slot_index slot_id) ProxyType.call) [
          | none ↦ some (fail eio, [])
          | some proxy ↦
              let found = slot_numbers c (slot_index slot_id) proxy in
              elim found.1 [
                | none ↦ some (found.0, [])
                | some v ↦ entries_of v >>= λ r. some (ret r.0, r.1)
              ]
        ]
        else some (fail eagain, [])
      else some (fail einval, [])

  -- The inner loop, from entry `j` on, over `n` entries: the condition of the first entry with the
  -- number. `strcmp` reads both texts.
  unfoldable pub find_number : String → Entries → ℕ → ℕ → Option (Option ℕ)
  unfolding entry_at
  find_number number l j zero = some none
  find_number number l j (suc n) =
      let rest = find_number number l (j + 1) n in
      elim (entry_at l j).ecc_num [
        | none ↦ none
        | some s ↦ elim (str_eq number s) [
          | true ↦ some (some (entry_at l j).condition)
          | false ↦ rest
        ]
      ]

  -- The conversion of an `unsigned int` to the `int` that is returned.
  abbrev pub to_int : ℕ → ℤ
  to_int n = if ltb n (2 ^ 31) then pos n else negsuc (2 ^ 32 - 1 - n)

  abbrev pub minus_one : ℤ
  minus_one = negsuc 0

  -- One round of the outer loop: `none` inside goes on to the next slot.
  unfoldable pub search_slot : Option Context → String → ℕ → Option (Option ℤ)
  search_slot ctx number i = get_ecc_list ctx (pos i) >>= λ r. elim r.0 [
    | fail e ↦ some (some minus_one)
    | ret size ↦
        if leb size 0
        then some (some minus_one)
        else find_number number r.1 0 size >>= λ f. elim f [
          | none ↦ some none
          | some condition ↦ some (some (to_int condition))
        ]
  ]

  -- The outer loop, from slot `i` on, over `n` slots.
  unfoldable pub search_slots : Option Context → String → ℕ → ℕ → Option ℤ
  search_slots ctx number i zero = some minus_one
  search_slots ctx number i (suc n) =
      let rest = search_slots ctx number (suc i) n in
      search_slot ctx number i >>= λ f. elim f [ some r ↦ some r | none ↦ rest ]

  unfoldable pub is_emergency_number : Option Context → String → Option ℤ
  unfolding search_slots
  is_emergency_number ctx number = search_slots ctx number 0 cfg.modem_active_count
