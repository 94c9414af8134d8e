-- ===== src/Bus/Guards.antt =====
-- The checks that a request begins with. The source repeats these lines in each request.
use frameworks_connectivity.Common.{ℕ, ℤ, Bool, Option}
use frameworks_connectivity.Utils.Modem.{Config, is_valid_slotid, slot_index}
use frameworks_connectivity.Records.{einval, eio, eagain, Code, ProxyType, Context}
use frameworks_connectivity.Bus.Monad.{M, ◌>>=◌, ◌>>◌, require, non_null}

module _ (cfg : Config) (ctx : Option Context) (slot_id : ℤ) where
  -- A context, a valid slot, arguments that are allowed, and a proxy of the slot.
  unfoldable pub with_proxy : Bool → ProxyType → (ℕ → M Code) → M Code
  with_proxy allowed type request = do
    c ← non_null ctx einval
    require (is_valid_slotid cfg slot_id) einval
    require allowed einval
    proxy ← non_null (c.dbus_proxy (slot_index slot_id) type) eio
    request proxy

  -- The same where the client has to be ready.
  unfoldable pub with_ready_proxy : Bool → ProxyType → (ℕ → M Code) → M Code
  with_ready_proxy allowed type request = do
    c ← non_null ctx einval
    require (is_valid_slotid cfg slot_id) einval
    require allowed einval
    require c.client_ready eagain
    proxy ← non_null (c.dbus_proxy (slot_index slot_id) type) eio
    request proxy
