-- ===== src/Call/DefaultSlot.antt =====
-- tapi_call.c: the default slot for calls, as it is set and read.
use frameworks_connectivity.Common.{
  ℕ, suc, ◌≡◌, refl, ap, ◌∙◌, inl, inr, ◌⊎◌, String, ℤ, negsuc, is_eq, ◌||◌, Bool, true, false,
  Option, some, ◌∷◌, Bool-cases, subst, arith,
}
use frameworks_connectivity.Utils.Modem.{
  Config, IsConfig, is_valid_slotid, get_modem_path, get_slot_id, get_slot_id-get_modem_path,
}
use frameworks_connectivity.Records.{Code, ret, Context}
use frameworks_connectivity.Bus.Message.{string}
use frameworks_connectivity.Bus.Monad.{World, go, stop, M, ◌>>=◌, returns, set_property}
use frameworks_connectivity.Bus.Steps.{bind_go}
use frameworks_connectivity.Bus.Issued.{Succeeds, non_null-Succeeds, require-Succeeds}
use frameworks_connectivity.Call.Control.{set_default_slot}
use frameworks_connectivity.Bus.Property.{Properties}
use frameworks_connectivity.Call.Watch.{get_default_slot}

-- What a successful write of the default slot has had and done.
pub record Written (cfg : Config) (c : Context) (slot_id : ℤ) (w : World) (n : ℕ) (w' : World)
    : Type 0 where
  pub manager : ℕ
  pub given : c.dbus_proxy_manager ≡ some manager
  pub ready : c.client_ready ≡ true
  pub valid : (is_valid_slotid cfg slot_id || is_eq slot_id (negsuc 0)) ≡ true
  pub written :
      w'.properties ≡ (manager, "VoiceCallSlot", get_modem_path cfg slot_id) ∷ w.properties

module _ (proxy : ℕ) (name : String) (v : Option String) (w : World) where
  property_set :
      w.writes w.next ≡ true
      → set_property proxy name v w
        ≡ go true (record w { next = suc w.next; properties = (proxy, name, v) ∷ w.properties })
  unfolding set_property
  property_set e = rw (e, set_property) refl

  property_refused :
      w.writes w.next ≡ false
      → set_property proxy name v w ≡ go false (record w { next = suc w.next })
  unfolding set_property
  property_refused e = rw (e, set_property) refl

set_property-Succeeds :
    (P : ℕ → World → Type 0) (proxy : ℕ) (name : String) (v : Option String) (f : Bool → M Code)
    (w : World)
    → ((w' : World) → w'.properties ≡ (proxy, name, v) ∷ w.properties → Succeeds P (f true w'))
    → ((w' : World) → Succeeds P (f false w'))
    → Succeeds P ((set_property proxy name v >>= f) w)
set_property-Succeeds P proxy name v f w h k = elim (Bool-cases (w.writes w.next)) [
  | inl e ↦
      rw (bind_go (set_property proxy name v) f w _ true (property_set proxy name v w e)) (h _ refl)
  | inr e ↦
      rw (bind_go (set_property proxy name v) f w _ false (property_refused proxy name v w e)) (k _)
]

returned : (P : ℕ → World → Type 0) (w : World) → P 0 w → Succeeds P (returns {A = Code} (ret 0) w)
unfolding returns
returned P w h = h

module _ (cfg : Config) (c : Context) (slot_id : ℤ) (w : World) where
  set_default_slot-Written :
      Succeeds (Written cfg c slot_id w) (set_default_slot cfg (some c) slot_id w)
  unfolding set_default_slot
  set_default_slot-Written = non_null-Succeeds _ _ w _ _ λ proxy given.
      require-Succeeds _ _ w _ _ λ ready. require-Succeeds _ _ w _ _ λ valid.
        set_property-Succeeds _ _ _ _ _ w
          (λ w₁ written. require-Succeeds _ _ w₁ true _ λ _. returned _ w₁ (record {
            manager = proxy;
            given = given;
            ready = ready;
            valid = valid;
            written = written;
          }))
          (λ w₁. require-Succeeds _ _ w₁ false _ λ e. absurd (ground arith))

slot_or_unset :
    (cfg : Config) (slot_id : ℤ)
    → (is_valid_slotid cfg slot_id || is_eq slot_id (negsuc 0)) ≡ true
    → (is_valid_slotid cfg slot_id ≡ true) ⊎ (slot_id ≡ negsuc 0)
unfolding is_valid_slotid
slot_or_unset cfg (ℤ.pos n) h = inl (ground arith)
slot_or_unset cfg (negsuc ℕ.zero) h = inr refl
slot_or_unset cfg (negsuc (suc n)) h = ground arith

-- What `get_default_slot` gives where the manager has the path.
slot_read :
    (cfg : Config) (c : Context) (props : Properties) (proxy : ℕ) (path : String)
    → c.dbus_proxy_manager ≡ some proxy
    → c.client_ready ≡ true
    → props proxy "VoiceCallSlot" ≡ some (string path)
    → get_default_slot cfg props (some c) ≡ some (ret 0, some (get_slot_id cfg path))
unfolding get_default_slot
slot_read cfg c props proxy path given ready stored = rw (given, ready, stored) refl

-- A default slot that is set with success is an active one, or -1 for none. Its modem path is written
-- to the property "VoiceCallSlot" of the manager's proxy. Once that proxy has the property as it was
-- written, which is what `taken` says of the proxy and the name of the last write, the default slot
-- that is read is the one that was set.
pub set_default_slot-get_default_slot :
    (cfg : Config) (c : Context) (slot_id : ℤ) (w w' : World) (n : ℕ) (props : Properties)
    → IsConfig cfg
    → set_default_slot cfg (some c) slot_id w ≡ stop (ret n) w'
    → (taken : (proxy : ℕ) (name path : String)
        → w'.properties ≡ (proxy, name, some path) ∷ w.properties
        → props proxy name ≡ some (string path))
    → ((is_valid_slotid cfg slot_id ≡ true) ⊎ (slot_id ≡ negsuc 0))
      × ((manager : ℕ) × (c.dbus_proxy_manager ≡ some manager)
          × (w'.properties ≡ (manager, "VoiceCallSlot", get_modem_path cfg slot_id) ∷ w.properties))
      × (get_default_slot cfg props (some c) ≡ some (ret 0, some slot_id))
set_default_slot-get_default_slot cfg c slot_id w w' n props h e taken =
    let s : Written cfg c slot_id w n w' =
      subst (Succeeds (Written cfg c slot_id w)) e (set_default_slot-Written cfg c slot_id w) in
    let f = get_slot_id-get_modem_path cfg slot_id h (slot_or_unset cfg slot_id s.valid) in
    (
      slot_or_unset cfg slot_id s.valid,
      (s.manager, s.given, s.written),
      slot_read cfg c props s.manager f.0 s.given s.ready (
            taken s.manager "VoiceCallSlot" f.0
              (s.written ∙ ap (λ v. (s.manager, "VoiceCallSlot", v) ∷ w.properties) f.1))
          ∙ ap (λ id. some (ret 0, some id)) f.2,
    )
