-- ===== src/Utils/Proxies.antt =====
-- tapi_utils.c: the slot that a proxy belongs to.
use frameworks_connectivity.Common.{
  ℕ, zero, suc, ◌+◌, ◌≤◌, ◌<◌, ◌≡◌, refl, sym, ◌∙◌, inl, inr, ◌⊎◌, Bool, true, false, ◌==◌, ==_iff,
  Option, none, some, List, [], ◌∷◌, Bool-cases, Option-cases, if◌then◌else◌, ap, arith,
}
use frameworks_connectivity.Utils.Modem.{Config}
use frameworks_connectivity.Records.{ProxyType, Context}

-- The types of proxy, in the order of the inner loop.
abbrev proxy_types : List ProxyType
proxy_types =
    ProxyType.modem ∷ ProxyType.radio ∷ ProxyType.call ∷ ProxyType.sim ∷ ProxyType.stk
    ∷ ProxyType.data_proxy ∷ ProxyType.sms ∷ ProxyType.cbs ∷ ProxyType.netreg ∷ ProxyType.netmon
    ∷ ProxyType.call_barring ∷ ProxyType.call_forwarding ∷ ProxyType.ss ∷ ProxyType.call_setting
    ∷ ProxyType.ims ∷ ProxyType.phonebook ∷ []

abbrev is_proxy : ℕ → Option ℕ → Bool
is_proxy p none = false
is_proxy p (some q) = q == p

-- The inner loop.
unfoldable pub has_proxy : Context → ℕ → ℕ → List ProxyType → Bool
has_proxy c i p [] = false
has_proxy c i p (t ∷ ts) =
    let rest = has_proxy c i p ts in if is_proxy p (c.dbus_proxy i t) then true else rest

-- The outer loop, from slot `i` on, over `n` slots.
unfoldable pub find_slot : Context → ℕ → ℕ → ℕ → ℕ
unfolding has_proxy
find_slot c p i zero = 0
find_slot c p i (suc n) =
    let rest = find_slot c p (suc i) n in if has_proxy c i p proxy_types then i else rest

-- `get_modem_id_by_proxy`, of a context that is not null.
unfoldable pub get_modem_id_by_proxy : Config → Context → Option ℕ → ℕ
unfolding find_slot
get_modem_id_by_proxy cfg c none = 0
get_modem_id_by_proxy cfg c (some p) = find_slot c p 0 cfg.modem_active_count

ne_lt : (i j : ℕ) → i ≤ j → (i ≡ j → ⊥) → suc i ≤ j
ne_lt i j le n = ground arith

false-true : true ≡ false → ⊥
false-true e = ground arith

Any : ProxyType → List ProxyType → Type 0
Any t [] = ⊥
Any t (u ∷ us) = (t ≡ u) ⊎ Any t us

every_type : (t : ProxyType) → Any t proxy_types
unfolding Any
every_type _ = ground arith

module _ (c : Context) (p : ℕ) where
  -- The slot has the proxy.
  abbrev pub Holds : ℕ → Type 0
  Holds i = (t : ProxyType) × (c.dbus_proxy i t ≡ some p)

  at_type :
      (i : ℕ) (t : ProxyType) (ts : List ProxyType)
      → is_proxy p (c.dbus_proxy i t) ≡ true
      → c.dbus_proxy i t ≡ some p
  at_type i t ts h = elim (Option-cases (c.dbus_proxy i t)) [
    | inl e ↦ absurd (ground arith)
    | inr q ↦ ground (arith, ==_iff q.0 p)
  ]

  has_proxy-Holds : (i : ℕ) (ts : List ProxyType) → has_proxy c i p ts ≡ true → Holds i
  unfolding has_proxy
  has_proxy-Holds i [] h = ground arith
  has_proxy-Holds i (t ∷ ts) h = elim (Bool-cases (is_proxy p (c.dbus_proxy i t))) [
    | inl e ↦ (t, at_type i t ts e)
    | inr e ↦ has_proxy-Holds i ts (rw e at h)
  ]

  Holds-has_proxy :
      (i : ℕ) (t : ProxyType) (ts : List ProxyType)
      → Any t ts
      → c.dbus_proxy i t ≡ some p
      → has_proxy c i p ts ≡ true
  unfolding has_proxy Any
  Holds-has_proxy i t [] a h = absurd a
  Holds-has_proxy i t (u ∷ us) (inl e) h = rw (← e, h) (ground (arith, ==_iff p p))
  Holds-has_proxy i t (u ∷ us) (inr a) h = elim (Bool-cases (is_proxy p (c.dbus_proxy i u))) [
    | inl e ↦ rw e refl
    | inr e ↦ rw e (Holds-has_proxy i t us a h)
  ]

  find_slot-Holds :
      (i n j : ℕ)
      → i ≤ j
      → j < i + n
      → Holds j
      → Holds (find_slot c p i n) × (find_slot c p i n ≤ j)
  unfolding find_slot
  find_slot-Holds i zero j le lt h = absurd (omega arith)
  find_slot-Holds i (suc n) j le lt h = elim (Bool-cases (has_proxy c i p proxy_types)) [
    | inl e ↦ rw e (has_proxy-Holds i proxy_types e, le)
    | inr e ↦ rw e (
        find_slot-Holds (suc i) n j
          (ne_lt i j le λ same. false-true (
            sym (Holds-has_proxy j h.0 proxy_types (every_type h.0) h.1)
            ∙ ap (λ k. has_proxy c k p proxy_types) (sym same)
            ∙ e))
          (omega arith) h)
  ]

-- Where an active slot has the proxy, the slot that is found for the proxy has it too, and is the
-- first of them.
pub get_modem_id_by_proxy-Holds :
    (cfg : Config) (c : Context) (p j : ℕ)
    → j < cfg.modem_active_count
    → Holds c p j
    → Holds c p (get_modem_id_by_proxy cfg c (some p)) × (get_modem_id_by_proxy cfg c (some p) ≤ j)
unfolding get_modem_id_by_proxy
get_modem_id_by_proxy-Holds cfg c p j lt h =
    find_slot-Holds c p 0 cfg.modem_active_count j (omega arith) (omega arith) h
