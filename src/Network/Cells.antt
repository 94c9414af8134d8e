-- ===== src/Network/Cells.antt =====
-- tapi_network.c: what a message says of a cell and of an operator.
use frameworks_connectivity.Common.{
  ℕ, pos, leb, strlen, String, ℤ, str_eq, if◌then◌else◌, Option, none, some,
}
use frameworks_connectivity.Utils.Network.{cell_type_from_string, operator_status_from_string}
use frameworks_connectivity.Records.{CellIdentity, OperatorInfo}
use frameworks_connectivity.Bus.Message.{
  Iter, end, item, string, dict_entry, recurse, next_item, get_text, get_int, get_byte, ◌>>=◌,
}
use frameworks_connectivity.Bus.Property.{is_nonzero}

abbrev pub max_mcc_length : ℕ
max_mcc_length = 3

abbrev pub max_mnc_length : ℕ
max_mnc_length = 3

abbrev pub max_network_info_length : ℕ
max_network_info_length = 100

abbrev pub max_operator_name_length : ℕ
max_operator_name_length = 63

-- `if (strlen(value) <= size) strcpy(dst, value);`
abbrev pub kept : ℕ → String → String → String
kept size dst value = if leb (strlen value) size then value else dst

abbrev with_text : {A : Type 0} → Iter → (String → A) → Option A
with_text value f = get_text value >>= λ s. some (f s)

abbrev with_int : {A : Type 0} → Iter → (ℤ → A) → Option A
with_int value f = get_int value >>= λ n. some (f n)

unfoldable pub fill_cell_identity : String → Iter → CellIdentity → Option CellIdentity
fill_cell_identity prop value c =
    if str_eq prop "MobileCountryCode"
    then with_text value (λ s. record c { mcc_str = kept max_mcc_length c.mcc_str s })
    else if str_eq prop "MobileNetworkCode"
    then with_text value (λ s. record c { mnc_str = kept max_mnc_length c.mnc_str s })
    else if str_eq prop "LocationAreaCode"
    then with_int value (λ n. record c { lac = some n })
    else if str_eq prop "CellId"
    then with_int value (λ n. record c { ci = some n })
    else if str_eq prop "EARFCN"
    then with_int value (λ n. record c { earfcn = some n })
    else if str_eq prop "PhysicalCellId"
    then with_int value (λ n. record c { pci = some n })
    else if str_eq prop "TrackingAreaCode"
    then with_int value (λ n. record c { tac = some n })
    else if str_eq prop "Registered"
    then with_int value (λ n. record c { registered = some (is_nonzero n) })
    else if str_eq prop "Technology"
    then with_text value (λ s. record c { type = some (cell_type_from_string (some s)) })
    else if str_eq prop "Strength"
    then (get_byte value >>= λ b. some (record c { rssi = some (pos b) }))
    else if str_eq prop "SingalToNoiseRatio"
    then with_int value (λ n. record c { rssnr = some n })
    else if str_eq prop "ReferenceSignalReceivedQuality"
    then with_int value (λ n. record c { rsrq = some n })
    else if str_eq prop "ReferenceSignalReceivedPower"
    then with_int value (λ n. record c { rsrp = some n })
    else if str_eq prop "Level"
    then with_int value (λ n. record c { level = some n })
    else some c

-- A property that is no string is passed over.
unfoldable pub update_network_operator : String → Iter → OperatorInfo → OperatorInfo
update_network_operator prop (item (string value) i) o =
    if str_eq prop "Name"
    then record o { name = kept max_operator_name_length o.name value }
    else if str_eq prop "Status"
    then record o { status = some (operator_status_from_string (some value)) }
    else if str_eq prop "MobileCountryCode"
    then record o { mcc = kept max_mcc_length o.mcc value }
    else if str_eq prop "MobileNetworkCode"
    then record o { mnc = kept max_mnc_length o.mnc value }
    else if str_eq prop "Technologies"
    then record o { technology = kept max_network_info_length o.technology value }
    else o
update_network_operator prop _ o = o

-- `while (… == DBUS_TYPE_DICT_ENTRY)`
unfoldable pub fill_cell_identity_list : Iter → CellIdentity → Option CellIdentity
unfolding fill_cell_identity
fill_cell_identity_list (item (dict_entry k v) i) c = get_text (item k end) >>= λ key.
    recurse (item v end) >>= λ value.
    fill_cell_identity key value c >>= λ c'. fill_cell_identity_list i c'
fill_cell_identity_list _ c = some c

unfoldable pub fill_operator_list : Iter → OperatorInfo → Option OperatorInfo
unfolding update_network_operator
fill_operator_list (item (dict_entry k v) i) o = get_text (item k end) >>= λ key.
    recurse (item v end) >>= λ value. fill_operator_list i (update_network_operator key value o)
fill_operator_list _ o = some o

-- A cell that was allocated, with its texts emptied.
abbrev pub new_cell : CellIdentity
new_cell = record {
  ci = none;
  pci = none;
  tac = none;
  lac = none;
  earfcn = none;
  type = none;
  registered = none;
  mcc_str = "";
  mnc_str = "";
  rssi = none;
  rsrp = none;
  rsrq = none;
  rssnr = none;
  level = none;
}

abbrev pub new_operator : OperatorInfo
new_operator = record { id = ""; name = ""; mcc = ""; mnc = ""; status = none; technology = "" }

-- The bodies of the loops: one entry of the list.
unfoldable pub read_cell : Iter → Option CellIdentity
unfolding fill_cell_identity_list
read_cell entry = recurse entry >>= λ dict. fill_cell_identity_list dict new_cell

unfoldable pub read_operator : Iter → Option OperatorInfo
unfolding fill_operator_list
read_operator entry = get_text entry >>= λ path. recurse (next_item entry) >>= λ dict.
    fill_operator_list dict (record new_operator { id = kept max_network_info_length "" path })
