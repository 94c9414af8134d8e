-- ===== src/Utils/InterfaceTests.antt =====
-- Concrete environments, and what the theorems say of them.
use frameworks_connectivity.Common.{
  ◌≡◌, refl, sym, ap, ◌∙◌, String, CString, str_eq, true, false, none, some, if◌then◌else◌, arith,
}
use frameworks_connectivity.Utils.Interfaces.{
  Interface, get_env_interface_support_string, strtoul, skip_spaces, read_digits,
  is_interface_supported,
}
use frameworks_connectivity.Utils.Switches.{
  own_variable, is_switched_on, is_interface_supported-is_switched_on,
}

-- Names that tell the interfaces apart.
abbrev names : Interface → String
names i = own_variable i

-- The interface that a name is for.
abbrev named : String → Interface
named s =
    if str_eq s "OFONO_MODEM_INTERFACE_SUPPORT"
    then Interface.modem
    else if str_eq s "OFONO_RADIO_SETTINGS_INTERFACE_SUPPORT"
    then Interface.radio_settings
    else if str_eq s "OFONO_VOICECALL_MANAGER_INTERFACE_SUPPORT"
    then Interface.voicecall_manager
    else if str_eq s "OFONO_SIM_MANAGER_INTERFACE_SUPPORT"
    then Interface.sim_manager
    else if str_eq s "OFONO_STK_INTERFACE_SUPPORT"
    then Interface.stk
    else if str_eq s "OFONO_CONNECTION_MANAGER_INTERFACE_SUPPORT"
    then Interface.connection_manager
    else if str_eq s "OFONO_MESSAGE_MANAGER_INTERFACE_SUPPORT"
    then Interface.message_manager
    else if str_eq s "OFONO_CELL_BROADCAST_INTERFACE_SUPPORT"
    then Interface.cell_broadcast
    else if str_eq s "OFONO_NETWORK_REGISTRATION_INTERFACE_SUPPORT"
    then Interface.network_registration
    else if str_eq s "OFONO_NETMON_INTERFACE_SUPPORT"
    then Interface.netmon
    else if str_eq s "OFONO_CALL_BARRING_INTERFACE_SUPPORT"
    then Interface.call_barring
    else if str_eq s "OFONO_CALL_FORWARDING_INTERFACE_SUPPORT"
    then Interface.call_forwarding
    else if str_eq s "OFONO_SUPPLEMENTARY_SERVICES_INTERFACE_SUPPORT"
    then Interface.supplementary_services
    else if str_eq s "OFONO_CALL_SETTINGS_INTERFACE_SUPPORT"
    then Interface.call_settings
    else if str_eq s "OFONO_IMS_INTERFACE_SUPPORT"
    then Interface.ims
    else Interface.phonebook

named_back : (i : Interface) → named (names i) ≡ i
named_back Interface.modem = refl
named_back _ = refl

names_apart : (i j : Interface) → names i ≡ names j → i ≡ j
names_apart i j e = sym (named_back i) ∙ ap named e ∙ named_back j

-- Only the STK interface is switched off.
abbrev environment : String → CString
environment variable = if str_eq variable "OFONO_STK_INTERFACE_SUPPORT" then some "0" else none

is_interface_supported-is_switched_on_example :
    is_interface_supported names 4294967295 environment (names Interface.stk)
    ≡ some (is_switched_on (environment (own_variable Interface.stk)))
is_interface_supported-is_switched_on_example =
    is_interface_supported-is_switched_on names 4294967295 environment Interface.stk names_apart
      (omega arith) refl

stk_off : is_interface_supported names 4294967295 environment (names Interface.stk) ≡ some false
unfolding is_interface_supported get_env_interface_support_string strtoul skip_spaces read_digits
stk_off = refl

ims_on : is_interface_supported names 4294967295 environment (names Interface.ims) ≡ some true
unfolding is_interface_supported get_env_interface_support_string strtoul skip_spaces read_digits
ims_on = refl
