-- ===== src/Utils/Codec.antt =====
-- What a pair of conversions between an enumeration and its names on the bus promises.
use frameworks_connectivity.Common.{String, CString, some, none, ◌≡◌, ◌⊎◌}

-- `default` is what a null pointer and every text that names nothing are read as.
pub record IsCodec {E : Type 0} (to : E → CString) (from : CString → E) (default : E) : Type 0 where
  pub from-to : (e : E) → from (to e) ≡ e
  pub to-from : (s : String) → (to (from (some s)) ≡ some s) ⊎ (from (some s) ≡ default)
  pub from-null : from none ≡ default
