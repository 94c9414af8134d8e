-- ===== src/Utils/Switches.antt =====
-- tapi_utils.c: which variable of the environment switches an interface, and how.
use frameworks_connectivity.Common.{
  ℕ, ◌+◌, ◌-◌, ◌*◌, ◌<◌, ◌≡◌, refl, sym, ap, ◌∙◌, String, CString, codes, str_eq, eq_iff, ltb, ◌==◌,
  not, ◌&&◌, ◌||◌, true, false, List, [], ◌∷◌, Option, none, some, inl, inr, ◌⊎◌, Bool, Bool-cases,
  if◌then◌else◌, arith,
}
use frameworks_connectivity.Utils.Interfaces.{
  Interface, is_space, is_digit, skip_spaces, read_digits, strtoul, capability, of_variable,
  get_env_interface_support_string, is_interface_supported,
}

-- The variable of each interface, as a table.
abbrev pub own_variable : Interface → String
own_variable Interface.modem = "OFONO_MODEM_INTERFACE_SUPPORT"
own_variable Interface.radio_settings = "OFONO_RADIO_SETTINGS_INTERFACE_SUPPORT"
own_variable Interface.voicecall_manager = "OFONO_VOICECALL_MANAGER_INTERFACE_SUPPORT"
own_variable Interface.sim_manager = "OFONO_SIM_MANAGER_INTERFACE_SUPPORT"
own_variable Interface.stk = "OFONO_STK_INTERFACE_SUPPORT"
own_variable Interface.connection_manager = "OFONO_CONNECTION_MANAGER_INTERFACE_SUPPORT"
own_variable Interface.message_manager = "OFONO_MESSAGE_MANAGER_INTERFACE_SUPPORT"
own_variable Interface.cell_broadcast = "OFONO_CELL_BROADCAST_INTERFACE_SUPPORT"
own_variable Interface.network_registration = "OFONO_NETWORK_REGISTRATION_INTERFACE_SUPPORT"
own_variable Interface.netmon = "OFONO_NETMON_INTERFACE_SUPPORT"
own_variable Interface.call_barring = "OFONO_CALL_BARRING_INTERFACE_SUPPORT"
own_variable Interface.call_forwarding = "OFONO_CALL_FORWARDING_INTERFACE_SUPPORT"
own_variable Interface.supplementary_services = "OFONO_SUPPLEMENTARY_SERVICES_INTERFACE_SUPPORT"
own_variable Interface.call_settings = "OFONO_CALL_SETTINGS_INTERFACE_SUPPORT"
own_variable Interface.ims = "OFONO_IMS_INTERFACE_SUPPORT"
own_variable Interface.phonebook = "OFONO_PHONEBOOK_INTERFACE_SUPPORT"

abbrev interfaces : List Interface
interfaces =
    Interface.modem ∷ Interface.radio_settings ∷ Interface.voicecall_manager ∷ Interface.sim_manager
    ∷ Interface.stk ∷ Interface.connection_manager ∷ Interface.message_manager
    ∷ Interface.cell_broadcast ∷ Interface.network_registration ∷ Interface.netmon
    ∷ Interface.call_barring ∷ Interface.call_forwarding ∷ Interface.supplementary_services
    ∷ Interface.call_settings ∷ Interface.ims ∷ Interface.phonebook ∷ []

abbrev all_digits : List ℕ → Bool
all_digits [] = true
all_digits (c ∷ s) = is_digit c && all_digits s

abbrev any_nonzero : List ℕ → Bool
any_nonzero [] = false
any_nonzero (c ∷ s) = not (c == b'0') || any_nonzero s

-- A variable that is unset, or a text of decimal digits only.
abbrev pub is_plain : CString → Bool
is_plain none = true
is_plain (some text) = all_digits (codes text)

-- Switched on is what is unset, empty, or a number with a digit that is not 0.
abbrev switched : List ℕ → Bool
switched [] = true
switched (c ∷ s) = any_nonzero (c ∷ s)

abbrev pub is_switched_on : CString → Bool
is_switched_on none = true
is_switched_on (some text) = switched (codes text)

true-false : true ≡ false → ⊥
true-false e = ground arith

digit_nonzero :
    (v c : ℕ)
    → is_digit c ≡ true
    → not (v * 10 + (c - b'0') == 0) ≡ (not (v == 0) || not (c == b'0'))
digit_nonzero v c d = ground arith

or_assoc : (a b c : Bool) → ((a || b) || c) ≡ (a || (b || c))
or_assoc true b c = refl
or_assoc false b c = refl

or_false : (b : Bool) → b ≡ (b || false)
or_false true = refl
or_false false = refl

and_left : (a b : Bool) → (a && b) ≡ true → a ≡ true
and_left true b h = refl
and_left false b h = h

and_right : (a b : Bool) → (a && b) ≡ true → b ≡ true
and_right true b h = h
and_right false b h = absurd (ground arith)

-- All digits are read, and their number is not 0 if one of them is not.
digits_read :
    (s : List ℕ) (v : ℕ)
    → all_digits s ≡ true
    → ((read_digits v s).1 ≡ [])
      × (not ((read_digits v s).0 == 0) ≡ (not (v == 0) || any_nonzero s))
unfolding read_digits
digits_read [] v h = (refl, or_false (not (v == 0)))
digits_read (c ∷ s) v h =
    let d = and_left (is_digit c) (all_digits s) h in
    let r = digits_read s (v * 10 + (c - b'0')) (and_right (is_digit c) (all_digits s) h) in
    rw (d, read_digits)
      (
        r.0,
        r.1
            ∙ ap (λ b. b || any_nonzero s) (digit_nonzero v c d)
            ∙ or_assoc (not (v == 0)) (not (c == b'0')) (any_nonzero s),
      )

abbrev clamp : ℕ → ℕ → ℕ
clamp ulong_max n = if ltb ulong_max n then ulong_max else n

clamped :
    (ulong_max n : ℕ)
    → 0 < ulong_max
    → not ((if ltb ulong_max n then ulong_max else n) == 0) ≡ not (n == 0)
clamped ulong_max n h = elim (Bool-cases (ltb ulong_max n)) [
  | inl e ↦ rw e (ground arith)
  | inr e ↦ rw e refl
]

-- A text that begins with a digit has no space and no sign.
strtoul_digit :
    (ulong_max c : ℕ) (s : List ℕ)
    → is_digit c ≡ true
    → strtoul ulong_max (c ∷ s) ≡ (
      if ltb ulong_max (read_digits 0 (c ∷ s)).0 then ulong_max else (read_digits 0 (c ∷ s)).0,
      (read_digits 0 (c ∷ s)).1,
    )
unfolding strtoul skip_spaces
strtoul_digit ulong_max c s d =
    let space : is_space c ≡ false = ground arith in
    let minus : (c == b'-') ≡ false = ground arith in
    let plus : (c == b'+') ≡ false = ground arith in rw (skip_spaces, space, minus, plus, d) refl

-- What follows of the value and the text at `endp`.
abbrev ended : ℕ × List ℕ → Bool
ended p = elim p.1 [ [] ↦ not (p.0 == 0) | d ∷ r ↦ true ]

-- `names` are the interface names of ofono/dbus.h, `env` is `getenv`.
module _ (names : Interface → String) where
  capability_digits :
      (ulong_max : ℕ) (l : List ℕ)
      → 0 < ulong_max
      → all_digits l ≡ true
      → capability names ulong_max l ≡ switched l
  capability_digits ulong_max [] h d = refl
  capability_digits ulong_max (c ∷ s) h d =
      let r = digits_read (c ∷ s) 0 d in
      ap ended (strtoul_digit ulong_max c s (and_left (is_digit c) (all_digits s) d))
      ∙ ap (λ l. ended (clamp ulong_max (read_digits 0 (c ∷ s)).0, l)) r.0
      ∙ clamped ulong_max (read_digits 0 (c ∷ s)).0 h
      ∙ r.1

  variable_plain :
      (ulong_max : ℕ) (o : CString)
      → 0 < ulong_max
      → is_plain o ≡ true
      → of_variable names ulong_max o ≡ is_switched_on o
  variable_plain ulong_max none h d = refl
  variable_plain ulong_max (some text) h d = capability_digits ulong_max (codes text) h d

  -- The table from its first row on.
  unfoldable first_named : String → List Interface → CString
  first_named interface [] = none
  first_named interface (i ∷ is) =
      let rest = first_named interface is in
      if str_eq interface (names i) then some (own_variable i) else rest

  Any : Interface → List Interface → Type 0
  Any i [] = ⊥
  Any i (j ∷ js) = (i ≡ j) ⊎ Any i js

  every_interface : (i : Interface) → Any i interfaces
  unfolding Any
  every_interface _ = ground arith

  first_found :
      ((i j : Interface) → names i ≡ names j → i ≡ j)
      → (i : Interface) (l : List Interface) → Any i l
      → first_named (names i) l ≡ some (own_variable i)
  unfolding first_named Any
  first_found apart i [] a = absurd a
  first_found apart i (j ∷ js) a = elim (Bool-cases (str_eq (names i) (names j))) [
    | inl e ↦
        rw e (ap (λ k. some (own_variable k)) (apart j i (sym ((eq_iff (names i) (names j)).0 e))))
    | inr e ↦ rw e (first_found apart i js (later a e))
  ]
    where
      later : (i ≡ j) ⊎ Any i js → str_eq (names i) (names j) ≡ false → Any i js
      later (inl same) e =
          absurd (true-false (sym ((eq_iff (names i) (names j)).1 (ap names same)) ∙ e))
      later (inr b) e = b

  chain : (s : String) → get_env_interface_support_string names s ≡ first_named s interfaces
  unfolding get_env_interface_support_string first_named
  chain s = refl

  of_chain :
      (ulong_max : ℕ) (env : String → CString) (s variable : String)
      → get_env_interface_support_string names s ≡ some variable
      → is_interface_supported names ulong_max env s
        ≡ some (of_variable names ulong_max (env variable))
  unfolding is_interface_supported
  of_chain ulong_max env s variable e =
      ap
        (λ (o : CString). elim o as (λ _. Option Bool) [
          | none ↦ none
          | some v ↦ some (of_variable names ulong_max (env v))
        ])
        e

  -- Where ofono's names tell the interfaces apart, ULONG_MAX is not 0, and the interface's own
  -- variable is unset or a text of decimal digits only: the answer for the interface is defined, and
  -- is that it is supported exactly where the variable is unset, empty, or has a digit that is not 0.
  pub is_interface_supported-is_switched_on :
      (ulong_max : ℕ) (env : String → CString) (i : Interface)
      → ((i j : Interface) → names i ≡ names j → i ≡ j)
      → 0 < ulong_max
      → is_plain (env (own_variable i)) ≡ true
      → is_interface_supported names ulong_max env (names i)
        ≡ some (is_switched_on (env (own_variable i)))
  is_interface_supported-is_switched_on ulong_max env i apart h plain =
      of_chain ulong_max env (names i) (own_variable i)
        (chain (names i) ∙ first_found apart i interfaces (every_interface i))
      ∙ ap some (variable_plain ulong_max (env (own_variable i)) h plain)
