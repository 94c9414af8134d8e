-- ===== src/Bus/Found.antt =====
-- How a function that reads a property of a slot answers, by whether the property is there.
use frameworks_connectivity.Common.{
  ℕ, zero, suc, String, Bool, true, false, ℤ, ◌≡◌, refl, inl, inr, ◌⊎◌, Bool-cases, Option, none,
  some, if◌then◌else◌,
}
use frameworks_connectivity.Utils.Modem.{Config, is_valid_slotid, slot_index}
use frameworks_connectivity.Records.{Errno, einval, eagain, ret, fail, ProxyType, Context}
use frameworks_connectivity.Bus.Message.{Value, end, item, get_text, get_int, ◌>>=◌}
use frameworks_connectivity.Bus.Property.{
  Properties, Answer, refuse, write, of_proxy, read_property, map_text, map_int, Writes,
}

-- The value of a property of a slot, where the slot is valid, the client is ready, and the slot has
-- the proxy and the proxy the property.
abbrev pub found : Config → Properties → Option Context → ℤ → ProxyType → String → Option Value
found cfg props none slot_id type name = none
found cfg props (some c) slot_id type name =
    if is_valid_slotid cfg slot_id
    then if c.client_ready
      then (c.dbus_proxy (slot_index slot_id) type >>= λ proxy. props proxy name)
      else none
    else none

-- `dbus_message_iter_get_basic` on the value, and what is made of it.
abbrev pub text_value : {A : Type 0} → (String → A) → Value → Option A
text_value f v = elim (get_text (item v end)) [ none ↦ none | some s ↦ some (f s) ]

abbrev pub int_value : {A : Type 0} → (ℤ → A) → Value → Option A
int_value f v = elim (get_int (item v end)) [ none ↦ none | some n ↦ some (f n) ]

-- An answer, where the property is missing or is there, with what `value` makes of it. `conditional`
-- says that more than the property is needed, so that there can be an error, another result or an
-- undefined answer although it is there, and an undefined answer although it is not.
unfoldable pub Follows : {A : Type 0} → (Value → Option A) → Bool → Option Value → Answer A → Type 0
Follows value conditional none (some (fail e, none)) = Unit
Follows value conditional none none = conditional ≡ true
Follows value conditional none (some (ret n, o)) = ⊥
Follows value conditional none (some (fail e, some a)) = ⊥
Follows value conditional (some v) none = (conditional ≡ true) ⊎ (value v ≡ none)
Follows value conditional (some v) (some (ret zero, some a)) =
    (conditional ≡ true) ⊎ (value v ≡ some a)
Follows value conditional (some v) (some (ret zero, none)) = ⊥
Follows value conditional (some v) (some (ret (suc n), o)) = ⊥
Follows value conditional (some v) (some (fail e, none)) = conditional ≡ true
Follows value conditional (some v) (some (fail e, some a)) = ⊥

module _ {A : Type 0} (value : Value → Option A) where
  -- A function that writes or refuses follows a condition of its own.
  pub Follows-conditional : (v : Value) (a : Answer A) → Writes a → Follows value true (some v) a
  unfolding Follows Writes
  Follows-conditional v none h = inl refl
  Follows-conditional v (some (ret zero, some a)) h = inl refl
  Follows-conditional v (some (ret zero, none)) h = h
  Follows-conditional v (some (ret (suc n), o)) h = h
  Follows-conditional v (some (fail e, none)) h = refl
  Follows-conditional v (some (fail e, some a)) h = h

  pub refuse-Follows : (o : Option Value) (e : Errno) → Follows value true o (refuse e)
  unfolding Follows
  refuse-Follows none e = tt
  refuse-Follows (some v) e = refl

  pub undefined-Follows : (o : Option Value) → Follows value true o none
  unfolding Follows
  undefined-Follows none = refl
  undefined-Follows (some v) = inl refl

  -- The checks of the slot and of the client.
  pub checked-Follows :
      (valid ready : Bool) (o : Option Value) (a : Answer A)
      → Follows value true o a
      → Follows value true
          (if valid then if ready then o else none else none)
          (if valid then if ready then a else refuse eagain else refuse einval)
  unfolding Follows
  checked-Follows true true o a h = h
  checked-Follows true false o a h = tt
  checked-Follows false ready o a h = tt

-- A value that is read and written, or not of the type that it is read at.
value_read :
    {A B : Type 0} (get : Option B) (f : B → A) (value : Value → Option A) (b : Bool) (v : Value)
    → value v ≡ elim get as (λ _. Option A) [ none ↦ none | some x ↦ some (f x) ]
    → Follows value b (some v) (elim get as (λ _. Answer A) [ none ↦ none | some x ↦ write (f x) ])
unfolding Follows
value_read none f value b v e = inr e
value_read (some x) f value b v e = inr e

module _ {A : Type 0} where
  pub map_int-Follows :
      (f : ℤ → A) (b : Bool) (v : Value) → Follows (int_value f) b (some v) (map_int f v)
  map_int-Follows f b v = value_read (get_int (item v end)) f (int_value f) b v refl

  pub map_text-Follows :
      (f : String → A) (b : Bool) (v : Value) → Follows (text_value f) b (some v) (map_text f v)
  map_text-Follows f b v = value_read (get_text (item v end)) f (text_value f) b v refl

  module _ (cfg : Config) (props : Properties) (name : String) (absent : Errno)
      (read : Value → Answer A) (value : Value → Option A) (b : Bool)
      (h : (v : Value) → Follows value b (some v) (read v)) where
    pub of_proxy-Follows :
        (o : Option ℕ)
        → Follows value b (o >>= λ proxy. props proxy name) (of_proxy cfg props o name absent read)
    unfolding Follows
    of_proxy-Follows none = tt
    of_proxy-Follows (some p) = after (props p name)
      where
        after :
            (o : Option Value)
            → Follows value b o
                (elim o as (λ _. Answer A) [ none ↦ refuse absent | some v ↦ read v ])
        after none = tt
        after (some v) = h v

    pub read_property-Follows :
        (ctx : Option Context) (slot_id : ℤ) (type : ProxyType)
        → Follows value b
            (found cfg props ctx slot_id type name)
            (read_property cfg props ctx slot_id true type name absent read)
    unfolding read_property Follows
    read_property-Follows none slot_id type = tt
    read_property-Follows (some c) slot_id type = elim (Bool-cases (is_valid_slotid cfg slot_id)) [
      | inr v ↦ rw v tt
      | inl v ↦ elim (Bool-cases c.client_ready) [
        | inr r ↦ rw (v, r) tt
        | inl r ↦ rw (v, r) (of_proxy-Follows (c.dbus_proxy (slot_index slot_id) type))
      ]
    ]
