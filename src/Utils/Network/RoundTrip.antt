-- ===== src/Utils/Network/RoundTrip.antt =====
-- What the network names say of the enumerators that they stand for, in both directions.
use frameworks_connectivity.Common.{some, ◌≡◌, refl, eq_iff, arith}
use frameworks_connectivity.Utils.Codec.{IsCodec}
use frameworks_connectivity.Utils.Network.{
  PrefNetMode, any, network_mode_to_string, network_mode_from_string, RegistrationState,
  not_registered, unknown, registered_sms_eutran, roaming_sms_eutran, registration_code,
  get_registration_status_string, registration_status_from_string, CellType, cell_none,
  cell_type_to_string, cell_type_from_string,
}

network_mode_from-to :
    (m : PrefNetMode) → network_mode_from_string (some (network_mode_to_string m)) ≡ m
unfolding network_mode_to_string network_mode_from_string
network_mode_from-to any = refl
network_mode_from-to _ = refl

-- Every preferred network mode is read back from the name that it is written as; a text is either
-- the name of the mode that it is read as, or is read as "any", as a null pointer is.
pub network_mode-IsCodec :
    IsCodec (λ m. some (network_mode_to_string m)) network_mode_from_string any
unfolding network_mode_to_string network_mode_from_string
network_mode-IsCodec = record {
  from-to = network_mode_from-to;
  to-from = λ s. ground (
    arith,
    eq_iff s "any",
    eq_iff s "gsm",
    eq_iff s "umts",
    eq_iff s "lte",
    eq_iff s "umts,gsm",
    eq_iff s "lte,umts",
    eq_iff s "lte,umts,gsm",
  );
  from-null = refl;
}

cell_type_from-to : (t : CellType) → cell_type_from_string (cell_type_to_string t) ≡ t
unfolding cell_type_to_string cell_type_from_string
cell_type_from-to cell_none = refl
cell_type_from-to _ = refl

-- Every cell type is read back from its name, "none" from the null pointer; a text is either the
-- name of the type that it is read as, or is read as "none".
pub cell_type-IsCodec : IsCodec cell_type_to_string cell_type_from_string cell_none
unfolding cell_type_to_string cell_type_from_string
cell_type-IsCodec = record {
  from-to = cell_type_from-to;
  to-from = λ s. ground (arith, eq_iff s "gsm", eq_iff s "umts", eq_iff s "lte", eq_iff s "nr");
  from-null = refl;
}

-- The state that a name is read back as: the two that are for SMS only have no name.
abbrev pub read_back : RegistrationState → RegistrationState
read_back registered_sms_eutran = unknown
read_back roaming_sms_eutran = unknown
read_back s = s

-- A registration state is read back from the name that is given for its number, except that the two
-- states for SMS only, which have no name, are read back as "unknown".
pub registration_round_trip :
    (s : RegistrationState)
    → registration_status_from_string (some (get_registration_status_string (registration_code s)))
      ≡ read_back s
unfolding get_registration_status_string registration_status_from_string
registration_round_trip not_registered = refl
registration_round_trip _ = refl
