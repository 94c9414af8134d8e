-- ===== src/Utils/Modem.antt =====
-- Modem slots: Kconfig, tapi_internal.h and tapi_utils.c.
use frameworks_connectivity.Common.{
  ℕ, suc, zero, String, CString, Bool, true, false, ℤ, pos, negsuc, ltb, is_eq, if◌then◌else◌, some,
  none, str_eq, ◌≡◌, ◌≢◌, ◌⊎◌, inl, inr, Option-cases, eq_iff, arith,
}

-- The options of Kconfig that the code is compiled with, and whether data logging goes over miwear.
pub record Config : Type 0 where
  pub modem_active_count : ℕ
  pub modem_path : String
  pub modem_path_2 : CString
  pub log_over_miwear : Bool

abbrev pub slot_not_set : String
slot_not_set = "SLOT_NOT_SET"

-- One modem or two, the second path present with the second modem only (Kconfig), and paths that
-- tell the slots apart.
pub record IsConfig (c : Config) : Type 0 where
  pub counted :
      ((c.modem_active_count ≡ 1) × (c.modem_path_2 ≡ none))
      ⊎ ((c.modem_active_count ≡ 2) × (c.modem_path_2 ≢ none))
  pub distinct : c.modem_path_2 ≢ some c.modem_path
  pub path_set : c.modem_path ≢ slot_not_set
  pub path_2_set : c.modem_path_2 ≢ some slot_not_set

-- `slot_id >= 0 && slot_id < CONFIG_MODEM_ACTIVE_COUNT`
unfoldable pub is_valid_slotid : Config → ℤ → Bool
is_valid_slotid c (pos n) = ltb n c.modem_active_count
is_valid_slotid c (negsuc n) = false

-- The index of a slot that was found valid.
abbrev pub slot_index : ℤ → ℕ
slot_index (pos n) = n
slot_index (negsuc n) = 0

-- Slot 1 falls through to the case of -1 where there is no second path.
unfoldable pub get_modem_path : Config → ℤ → CString
get_modem_path c slot_id =
    if is_eq slot_id (pos 0)
    then some c.modem_path
    else if is_eq slot_id (pos 1)
    then elim c.modem_path_2 [ some p ↦ some p | none ↦ some slot_not_set ]
    else if is_eq slot_id (negsuc 0)
    then some slot_not_set
    else none

unfoldable pub get_slot_id : Config → String → ℤ
get_slot_id c path = if str_eq path c.modem_path then pos 0 else elim c.modem_path_2 [
  | some p ↦ if str_eq path p then pos 1 else negsuc 0
  | none ↦ negsuc 0
]

-- The slot of the path that stands for a slot: every active slot has a path and is read back from
-- it, and -1, which deselects, is read back as -1.
pub get_slot_id-get_modem_path :
    (c : Config) (slot_id : ℤ)
    → IsConfig c
    → (is_valid_slotid c slot_id ≡ true) ⊎ (slot_id ≡ negsuc 0)
    → (path : String) × (get_modem_path c slot_id ≡ some path) × (get_slot_id c path ≡ slot_id)
unfolding is_valid_slotid get_modem_path get_slot_id
get_slot_id-get_modem_path c (pos zero) v h =
    (c.modem_path, ground arith, ground (arith, eq_iff c.modem_path c.modem_path))
get_slot_id-get_modem_path c (pos (suc zero)) v h = elim (Option-cases c.modem_path_2) [
  | inl e ↦ absurd (ground arith)
  | inr (p, e) ↦ (p, ground arith, ground (arith, eq_iff p c.modem_path, eq_iff p p))
]
get_slot_id-get_modem_path c (pos (suc (suc n))) v h = absurd (ground arith)
get_slot_id-get_modem_path c (negsuc n) v h = elim (Option-cases c.modem_path_2) [
  | inl e ↦ (slot_not_set, ground arith, ground (arith, eq_iff slot_not_set c.modem_path))
  | inr (p, e) ↦ (
    slot_not_set,
    ground arith,
    ground (arith, eq_iff slot_not_set c.modem_path, eq_iff slot_not_set p),
  )
]
