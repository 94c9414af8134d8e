-- ===== src/Bus/Message.antt =====
-- D-Bus messages as trees, and the iterator functions that the code reads them by.
-- An iterator is the values from its position to the end of its container.
use frameworks_connectivity.Common.{
  ℕ, String, CString, Bool, true, false, ℤ, pos, Option, none, some,
}

mutual
  pub data Value : Type 0 where
    string : String → Value
    object_path : String → Value
    int32 : ℤ → Value
    boolean : Bool → Value
    byte : ℕ → Value
    variant : Value → Value
    array : Iter → Value
    struct : Iter → Value
    dict_entry : Value → Value → Value

  pub data Iter : Type 0 where
    end : Iter
    item : Value → Iter → Iter

-- `fault` is set in an error reply; `sender` is left out, the watches filter by it.
pub record Message : Type 0 where
  pub fault : CString
  pub interface : String
  pub member : String
  pub signature : String
  pub args : Iter

-- `dbus_message_iter_next`, which is also called at the end.
abbrev pub next_item : Iter → Iter
next_item end = end
next_item (item v i) = i

-- `dbus_message_iter_recurse`; undefined where there is no container.
abbrev pub recurse : Iter → Option Iter
recurse (item (variant v) _) = some (item v end)
recurse (item (array i) _) = some i
recurse (item (struct i) _) = some i
recurse (item (dict_entry k v) _) = some (item k (item v end))
recurse _ = none

-- `dbus_message_iter_get_basic` into a `char*`, an `int`, an `unsigned char`: undefined where the
-- value is of another type. A boolean is written as 0 or 1.
abbrev pub get_text : Iter → Option String
get_text (item (string s) _) = some s
get_text (item (object_path s) _) = some s
get_text _ = none

abbrev pub get_int : Iter → Option ℤ
get_int (item (int32 n) _) = some n
get_int (item (boolean true) _) = some (pos 1)
get_int (item (boolean false) _) = some (pos 0)
get_int _ = none

abbrev pub get_byte : Iter → Option ℕ
get_byte (item (byte n) _) = some n
get_byte _ = none

-- `dbus_message_iter_get_arg_type` against the types that the code asks for.
abbrev pub is_string : Iter → Bool
is_string (item (string s) _) = true
is_string _ = false

abbrev pub is_object_path : Iter → Bool
is_object_path (item (object_path s) _) = true
is_object_path _ = false

abbrev pub is_int32 : Iter → Bool
is_int32 (item (int32 n) _) = true
is_int32 _ = false

-- `dbus_message_iter_init`: false for a message with no argument.
abbrev pub iter_init : Message → Bool
iter_init m = elim m.args [ end ↦ false | item v i ↦ true ]

-- Chains of reads; `none` is undefined behaviour.
infixl 5 ◌>>=◌
abbrev pub ◌>>=◌ {ℓ κ} : {A : Type ℓ} {B : Type κ} → Option A → (A → Option B) → Option B
none >>= f = none
some a >>= f = f a
