-- ===== src/Sim/Guards.antt =====
-- tapi_sim.c: the checks that a request of the SIM card begins with. The source repeats these lines
-- in each request.
use frameworks_connectivity.Common.{ℕ, ℤ, Bool, Option, none, some}
use frameworks_connectivity.Utils.Modem.{Config, is_valid_slotid, slot_index}
use frameworks_connectivity.Records.{einval, eio, eagain, Code, ProxyType, Context}
use frameworks_connectivity.Bus.Monad.{World, M, ◌>>=◌, ◌>>◌, crash, require, non_null}
use frameworks_connectivity.Bus.Property.{Properties}
use frameworks_connectivity.Bus.Issued.{Succeeds, non_null-Succeeds, require-Succeeds}
use frameworks_connectivity.Bus.SentRules.{IsGuard}
use frameworks_connectivity.Sim.Getters.{card_inserted}

-- `if (!has_icc_card) return -EINVAL;`
abbrev pub require_card : Option Bool → M (Unit {0})
require_card none w = crash
require_card (some b) w = require b einval w

module _ (cfg : Config) (props : Properties) (ctx : Option Context) (slot_id : ℤ) where
  -- A context, a valid slot, arguments that are allowed, a card, and a proxy of the slot.
  unfoldable pub with_card : Bool → ProxyType → (ℕ → M Code) → M Code
  with_card allowed type request = do
    c ← non_null ctx einval
    require (is_valid_slotid cfg slot_id) einval
    require allowed einval
    require_card (card_inserted cfg props ctx slot_id)
    proxy ← non_null (c.dbus_proxy (slot_index slot_id) type) eio
    request proxy

  -- The same where the client has to be ready.
  unfoldable pub with_ready_card : Bool → ProxyType → (ℕ → M Code) → M Code
  with_ready_card allowed type request = do
    c ← non_null ctx einval
    require (is_valid_slotid cfg slot_id) einval
    require allowed einval
    require c.client_ready eagain
    require_card (card_inserted cfg props ctx slot_id)
    proxy ← non_null (c.dbus_proxy (slot_index slot_id) type) eio
    request proxy

  require_card-Succeeds :
      (P : ℕ → World → Type 0) (f : Unit {0} → M Code) (o : Option Bool) (w : World)
      → Succeeds P (f tt w)
      → Succeeds P ((require_card o >>= f) w)
  unfolding ◌>>=◌
  require_card-Succeeds P f none w k = tt
  require_card-Succeeds P f (some b) w k = require-Succeeds _ f w b einval λ _. k

  pub with_card-IsGuard : IsGuard cfg ctx slot_id with_card
  unfolding with_card
  with_card-IsGuard P allowed type request w k = non_null-Succeeds _ _ w _ _ λ c given.
      require-Succeeds _ _ w _ _ λ valid. require-Succeeds _ _ w _ _ λ ok.
        require_card-Succeeds _ _ (card_inserted cfg props ctx slot_id) w
          (non_null-Succeeds _ _ w _ _ λ proxy found. k c proxy given valid ok found)

  pub with_ready_card-IsGuard : IsGuard cfg ctx slot_id with_ready_card
  unfolding with_ready_card
  with_ready_card-IsGuard P allowed type request w k = non_null-Succeeds _ _ w _ _ λ c given.
      require-Succeeds _ _ w _ _ λ valid. require-Succeeds _ _ w _ _ λ ok.
        require-Succeeds _ _ w _ _ λ ready.
          require_card-Succeeds _ _ (card_inserted cfg props ctx slot_id) w
            (non_null-Succeeds _ _ w _ _ λ proxy found. k c proxy given valid ok found)
