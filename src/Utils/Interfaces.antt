-- ===== src/Utils/Interfaces.antt =====
-- tapi_utils.c: whether an interface of ofono is supported, as the environment says.
use frameworks_connectivity.Common.{
  ℕ, ◌+◌, ◌-◌, ◌*◌, ◌%◌, String, CString, codes, str_eq, ltb, leb, ◌==◌, not, ◌&&◌, ◌||◌, Bool,
  true, false, List, [], ◌∷◌, Option, none, some, if◌then◌else◌,
}

-- The interfaces that have a variable, in the order of the tests.
pub data Interface : Type 0 where
  modem radio_settings voicecall_manager sim_manager stk connection_manager : Interface
  message_manager cell_broadcast network_registration netmon call_barring : Interface
  call_forwarding supplementary_services call_settings ims phonebook : Interface

-- `strtoul(s, &endp, 10)`, with the value and the text at `endp`; `ulong_max` is ULONG_MAX.
abbrev pub is_space : ℕ → Bool
is_space c = c == 32 || leb 9 c && leb c 13

abbrev pub is_digit : ℕ → Bool
is_digit c = leb b'0' c && leb c b'9'

unfoldable pub skip_spaces : List ℕ → List ℕ
skip_spaces [] = []
skip_spaces (c ∷ s) = elim (is_space c) [ true ↦ skip_spaces s | false ↦ c ∷ s ]

unfoldable pub read_digits : ℕ → List ℕ → ℕ × List ℕ
read_digits v [] = (v, [])
read_digits v (c ∷ s) = elim (is_digit c) [
  | true ↦ read_digits (v * 10 + (c - b'0')) s
  | false ↦ (v, c ∷ s)
]

-- The digits after a sign, if there are any; `whole` is the text from the start.
abbrev pub converted : ℕ → Bool → List ℕ → List ℕ → ℕ × List ℕ
converted ulong_max negated whole [] = (0, whole)
converted ulong_max negated whole (c ∷ s) =
    if is_digit c
    then (
      if ltb ulong_max (read_digits 0 (c ∷ s)).0
          then ulong_max
          else if negated
          then (ulong_max + 1 - (read_digits 0 (c ∷ s)).0) % (ulong_max + 1)
          else (read_digits 0 (c ∷ s)).0,
      (read_digits 0 (c ∷ s)).1,
    )
    else (0, whole)

abbrev pub signed_text : ℕ → List ℕ → List ℕ → ℕ × List ℕ
signed_text ulong_max whole [] = (0, whole)
signed_text ulong_max whole (c ∷ s) =
    if c == b'-'
    then converted ulong_max true whole s
    else if c == b'+'
    then converted ulong_max false whole s
    else converted ulong_max false whole (c ∷ s)

unfoldable pub strtoul : ℕ → List ℕ → ℕ × List ℕ
unfolding skip_spaces read_digits
strtoul ulong_max s = signed_text ulong_max s (skip_spaces s)

-- `names` are the interface names of ofono/dbus.h, `env` is `getenv`.
module _ (names : Interface → String) where
  unfoldable pub get_env_interface_support_string : String → CString
  get_env_interface_support_string interface =
      if str_eq interface (names modem)
      then some "OFONO_MODEM_INTERFACE_SUPPORT"
      else if str_eq interface (names radio_settings)
      then some "OFONO_RADIO_SETTINGS_INTERFACE_SUPPORT"
      else if str_eq interface (names voicecall_manager)
      then some "OFONO_VOICECALL_MANAGER_INTERFACE_SUPPORT"
      else if str_eq interface (names sim_manager)
      then some "OFONO_SIM_MANAGER_INTERFACE_SUPPORT"
      else if str_eq interface (names stk)
      then some "OFONO_STK_INTERFACE_SUPPORT"
      else if str_eq interface (names connection_manager)
      then some "OFONO_CONNECTION_MANAGER_INTERFACE_SUPPORT"
      else if str_eq interface (names message_manager)
      then some "OFONO_MESSAGE_MANAGER_INTERFACE_SUPPORT"
      else if str_eq interface (names cell_broadcast)
      then some "OFONO_CELL_BROADCAST_INTERFACE_SUPPORT"
      else if str_eq interface (names network_registration)
      then some "OFONO_NETWORK_REGISTRATION_INTERFACE_SUPPORT"
      else if str_eq interface (names netmon)
      then some "OFONO_NETMON_INTERFACE_SUPPORT"
      else if str_eq interface (names call_barring)
      then some "OFONO_CALL_BARRING_INTERFACE_SUPPORT"
      else if str_eq interface (names call_forwarding)
      then some "OFONO_CALL_FORWARDING_INTERFACE_SUPPORT"
      else if str_eq interface (names supplementary_services)
      then some "OFONO_SUPPLEMENTARY_SERVICES_INTERFACE_SUPPORT"
      else if str_eq interface (names call_settings)
      then some "OFONO_CALL_SETTINGS_INTERFACE_SUPPORT"
      else if str_eq interface (names ims)
      then some "OFONO_IMS_INTERFACE_SUPPORT"
      else if str_eq interface (names phonebook)
      then some "OFONO_PHONEBOOK_INTERFACE_SUPPORT"
      else none

  abbrev pub capability : ℕ → List ℕ → Bool
  capability ulong_max [] = true
  capability ulong_max (c ∷ s) = elim (strtoul ulong_max (c ∷ s)).1 [
    | [] ↦ not ((strtoul ulong_max (c ∷ s)).0 == 0)
    | d ∷ r ↦ true
  ]

  abbrev pub of_variable : ℕ → CString → Bool
  of_variable ulong_max none = true
  of_variable ulong_max (some text) = capability ulong_max (codes text)

  -- Undefined for an interface with no variable, where `getenv` reads a null pointer.
  unfoldable pub is_interface_supported : ℕ → (String → CString) → String → Option Bool
  unfolding strtoul
  is_interface_supported ulong_max env interface =
      elim (get_env_interface_support_string interface) [
        | none ↦ none
        | some variable ↦ some (of_variable ulong_max (env variable))
      ]
