-- ===== src/Bus/Property.antt =====
-- The properties of a slot's proxies, as gdbus has them, and how the source reads one.
use frameworks_connectivity.Common.{
  ℕ, zero, suc, String, Bool, true, false, not, ℤ, pos, is_eq, ◌≡◌, ap, Option, none, some,
  if◌then◌else◌,
}
use frameworks_connectivity.Utils.Modem.{Config, is_valid_slotid, slot_index}
use frameworks_connectivity.Records.{
  Errno, einval, eio, eagain, Code, ret, fail, ProxyType, Context,
}
use frameworks_connectivity.Bus.Message.{Value, end, item, get_text, get_int}

-- What `g_dbus_proxy_get_property` gives for a proxy and a name.
abbrev pub Properties : Type 0
Properties = ℕ → String → Option Value

-- The result of a function, and what it writes to `out`; `none` is undefined behaviour.
abbrev pub Answer : Type 0 → Type 0
Answer A = Option (Code × Option A)

abbrev pub refuse : {A : Type 0} → Errno → Answer A
refuse e = some (fail e, none)

abbrev pub write : {A : Type 0} → A → Answer A
write a = some (ret 0, some a)

module _ (cfg : Config) (props : Properties) where
  -- The checks, and then the property `name` of the slot's proxy, which is refused with `absent`
  -- where there is none. The source repeats these lines in each function.
  abbrev pub of_proxy : {A : Type 0} → Option ℕ → String → Errno → (Value → Answer A) → Answer A
  of_proxy none name absent read = refuse eio
  of_proxy (some proxy) name absent read = elim (props proxy name) [
    | none ↦ refuse absent
    | some v ↦ read v
  ]

  unfoldable pub read_property :
      {A : Type 0}
      → Option Context
      → ℤ
      → Bool
      → ProxyType
      → String
      → Errno
      → (Value → Answer A)
      → Answer A
  read_property none slot_id allowed type name absent read = refuse einval
  read_property (some c) slot_id allowed type name absent read =
      if is_valid_slotid cfg slot_id
      then if allowed
        then if c.client_ready
          then of_proxy (c.dbus_proxy (slot_index slot_id) type) name absent read
          else refuse eagain
        else refuse einval
      else refuse einval

-- `dbus_message_iter_get_basic` on the value.
abbrev pub text_of : Value → Answer String
text_of v = elim (get_text (item v end)) [ none ↦ none | some s ↦ write s ]

abbrev pub map_int : {A : Type 0} → (ℤ → A) → Value → Answer A
map_int f v = elim (get_int (item v end)) [ none ↦ none | some n ↦ write (f n) ]

abbrev pub map_text : {A : Type 0} → (String → A) → Value → Answer A
map_text f v = elim (get_text (item v end)) [ none ↦ none | some s ↦ write (f s) ]

-- An `int` that is stored in a `bool`.
abbrev pub is_nonzero : ℤ → Bool
is_nonzero n = not (is_eq n (pos 0))

-- A function that writes to `out` returns 0, and one that does not returns an error.
unfoldable pub Writes : {A : Type 0} → Answer A → Type 0
Writes none = Unit
Writes (some (ret zero, some a)) = Unit
Writes (some (ret zero, none)) = ⊥
Writes (some (ret (suc n), o)) = ⊥
Writes (some (fail e, none)) = Unit
Writes (some (fail e, some a)) = ⊥

module _ {A : Type 0} where
  pub Writes-if : (b : Bool) (x y : Answer A) → Writes x → Writes y → Writes (if b then x else y)
  Writes-if true x y h k = h
  Writes-if false x y h k = k

  pub map_int-Writes : (f : ℤ → A) (v : Value) → Writes (map_int f v)
  unfolding Writes
  map_int-Writes f v = after (get_int (item v end))
    where
      after :
          (o : Option ℤ) → Writes (elim o as (λ _. Answer A) [ none ↦ none | some n ↦ write (f n) ])
      after none = tt
      after (some n) = tt

  pub map_text-Writes : (f : String → A) (v : Value) → Writes (map_text f v)
  unfolding Writes
  map_text-Writes f v = after (get_text (item v end))
    where
      after :
          (o : Option String)
          → Writes (elim o as (λ _. Answer A) [ none ↦ none | some n ↦ write (f n) ])
      after none = tt
      after (some n) = tt

  module _ (cfg : Config) (props : Properties) (name : String) (absent : Errno)
      (read : Value → Answer A) (h : (v : Value) → Writes (read v)) where
    pub of_proxy-Writes : (o : Option ℕ) → Writes (of_proxy cfg props o name absent read)
    unfolding Writes
    of_proxy-Writes none = tt
    of_proxy-Writes (some p) = after (props p name)
      where
        after :
            (o : Option Value)
            → Writes (elim o as (λ _. Answer A) [ none ↦ refuse absent | some v ↦ read v ])
        after none = tt
        after (some v) = h v

    pub read_property-Writes :
        (ctx : Option Context) (slot_id : ℤ) (allowed : Bool) (type : ProxyType)
        → Writes (read_property cfg props ctx slot_id allowed type name absent read)
    unfolding read_property Writes
    read_property-Writes none slot_id allowed type = tt
    read_property-Writes (some c) slot_id allowed type =
        Writes-if (is_valid_slotid cfg slot_id) _ _
          (Writes-if allowed _ _ (Writes-if c.client_ready _ _ (of_proxy-Writes _) tt) tt) tt

  -- The property is there, and every check passes.
  pub read_property_present :
      (cfg : Config) (props : Properties) (c : Context) (slot_id : ℤ) (type : ProxyType)
      (name : String) (absent : Errno) (read : Value → Answer A) (proxy : ℕ) (v : Value)
      → is_valid_slotid cfg slot_id ≡ true
      → c.client_ready ≡ true
      → c.dbus_proxy (slot_index slot_id) type ≡ some proxy
      → props proxy name ≡ some v
      → read_property cfg props (some c) slot_id true type name absent read ≡ read v
  unfolding read_property
  read_property_present cfg props c slot_id type name absent read proxy v valid ready has there =
      rw (valid, ready, has)
        (ap
          (λ (o : Option Value). elim o as (λ _. Answer A) [
            | none ↦ refuse absent
            | some u ↦ read u
          ])
          there)
