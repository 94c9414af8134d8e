-- ===== src/Utils/Network.antt =====
-- tapi_utils.c: preferred network modes, network types, registration states, selection modes,
-- operator states and cell types, as ofono spells them on the bus.
pub mod RoundTrip
use frameworks_connectivity.Common.{
  ℕ, String, CString, ℤ, pos, negsuc, is_eq, some, none, str_eq, if◌then◌else◌,
}

-- `tapi_pref_net_mode`
pub data PrefNetMode : Type 0 where
  any umts gsm_only wcdma_only lte_gsm_wcdma lte_only lte_wcdma : PrefNetMode

unfoldable pub network_mode_to_string : PrefNetMode → String
network_mode_to_string any = "any"
network_mode_to_string gsm_only = "gsm"
network_mode_to_string wcdma_only = "umts"
network_mode_to_string lte_only = "lte"
network_mode_to_string umts = "umts,gsm"
network_mode_to_string lte_wcdma = "lte,umts"
network_mode_to_string lte_gsm_wcdma = "lte,umts,gsm"

unfoldable pub network_mode_from_string : CString → PrefNetMode
network_mode_from_string none = any
network_mode_from_string (some mode) =
    if str_eq mode "any"
    then any
    else if str_eq mode "gsm"
    then gsm_only
    else if str_eq mode "umts"
    then wcdma_only
    else if str_eq mode "lte"
    then lte_only
    else if str_eq mode "umts,gsm"
    then umts
    else if str_eq mode "lte,umts"
    then lte_wcdma
    else if str_eq mode "lte,umts,gsm"
    then lte_gsm_wcdma
    else any

-- `tapi_network_type`
pub data NetworkType : Type 0 where
  network_unknown gprs edge utran hsdpa hsupa hspa lte lte_ca : NetworkType

-- The radio technologies that the function names, by the numbers of tapi_utils.c.
abbrev pub radio_tech_edge : ℤ
radio_tech_edge = pos 2

abbrev pub radio_tech_umts : ℤ
radio_tech_umts = pos 3

abbrev pub radio_tech_hsdpa : ℤ
radio_tech_hsdpa = pos 9

abbrev pub radio_tech_hsupa : ℤ
radio_tech_hsupa = pos 10

abbrev pub radio_tech_hspa : ℤ
radio_tech_hspa = pos 11

abbrev pub radio_tech_lte : ℤ
radio_tech_lte = pos 14

abbrev pub radio_tech_lte_ca : ℤ
radio_tech_lte_ca = pos 19

unfoldable pub network_type_from_ril_tech : ℤ → NetworkType
network_type_from_ril_tech type =
    if is_eq type radio_tech_edge
    then edge
    else if is_eq type radio_tech_umts
    then utran
    else if is_eq type radio_tech_lte
    then lte
    else if is_eq type radio_tech_hsdpa
    then hsdpa
    else if is_eq type radio_tech_hspa
    then hspa
    else if is_eq type radio_tech_hsupa
    then hsupa
    else if is_eq type radio_tech_lte_ca
    then lte_ca
    else network_unknown

-- `tapi_registration_state`
pub data RegistrationState : Type 0 where
  not_registered registered searching denied unknown roaming : RegistrationState
  registered_sms_eutran roaming_sms_eutran registered_em not_registered_em : RegistrationState
  searching_em denied_em unknown_em : RegistrationState

-- The value of the enumerator.
abbrev pub registration_code : RegistrationState → ℤ
registration_code not_registered = pos 0
registration_code registered = pos 1
registration_code searching = pos 2
registration_code denied = pos 3
registration_code unknown = pos 4
registration_code roaming = pos 5
registration_code registered_sms_eutran = pos 6
registration_code roaming_sms_eutran = pos 7
registration_code registered_em = pos 8
registration_code not_registered_em = pos 10
registration_code searching_em = pos 12
registration_code denied_em = pos 13
registration_code unknown_em = pos 14

unfoldable pub get_registration_status_string : ℤ → String
get_registration_status_string status =
    if is_eq status (registration_code not_registered)
    then "unregistered"
    else if is_eq status (registration_code registered)
    then "registered"
    else if is_eq status (registration_code searching)
    then "searching"
    else if is_eq status (registration_code denied)
    then "denied"
    else if is_eq status (registration_code unknown)
    then "unknown"
    else if is_eq status (registration_code roaming)
    then "roaming"
    else if is_eq status (registration_code registered_em)
    then "registered_em"
    else if is_eq status (registration_code not_registered_em)
    then "unregistered_em"
    else if is_eq status (registration_code searching_em)
    then "searching_em"
    else if is_eq status (registration_code denied_em)
    then "denied_em"
    else if is_eq status (registration_code unknown_em)
    then "unknown_em"
    else ""

unfoldable pub registration_status_from_string : CString → RegistrationState
registration_status_from_string none = unknown
registration_status_from_string (some status) =
    if str_eq status "unregistered"
    then not_registered
    else if str_eq status "registered"
    then registered
    else if str_eq status "searching"
    then searching
    else if str_eq status "denied"
    then denied
    else if str_eq status "unknown"
    then unknown
    else if str_eq status "roaming"
    then roaming
    else if str_eq status "registered_em"
    then registered_em
    else if str_eq status "unregistered_em"
    then not_registered_em
    else if str_eq status "searching_em"
    then searching_em
    else if str_eq status "denied_em"
    then denied_em
    else if str_eq status "unknown_em"
    then unknown_em
    else unknown

-- `tapi_selection_mode`
pub data SelectionMode : Type 0 where
  selection_unknown auto manual : SelectionMode

unfoldable pub registration_mode_from_string : CString → SelectionMode
registration_mode_from_string none = selection_unknown
registration_mode_from_string (some mode) =
    if str_eq mode "auto" then auto else if str_eq mode "manual" then manual else selection_unknown

-- `tapi_operator_status`
pub data OperatorStatus : Type 0 where
  operator_unknown available current forbidden : OperatorStatus

unfoldable pub operator_status_from_string : CString → OperatorStatus
operator_status_from_string none = operator_unknown
operator_status_from_string (some mode) =
    if str_eq mode "current"
    then current
    else if str_eq mode "available"
    then available
    else if str_eq mode "forbidden"
    then forbidden
    else operator_unknown

-- `tapi_cell_type`
pub data CellType : Type 0 where
  cell_none cell_gsm cell_umts cell_lte cell_nr : CellType

unfoldable pub cell_type_to_string : CellType → CString
cell_type_to_string cell_none = none
cell_type_to_string cell_gsm = some "gsm"
cell_type_to_string cell_umts = some "umts"
cell_type_to_string cell_lte = some "lte"
cell_type_to_string cell_nr = some "nr"

unfoldable pub cell_type_from_string : CString → CellType
cell_type_from_string none = cell_none
cell_type_from_string (some name) =
    if str_eq name "gsm"
    then cell_gsm
    else if str_eq name "umts"
    then cell_umts
    else if str_eq name "lte"
    then cell_lte
    else if str_eq name "nr"
    then cell_nr
    else cell_none
