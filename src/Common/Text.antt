-- ===== src/Common/Text.antt =====
-- C strings: a text, or none for a null pointer.
use Prim.Native.Nat.{ℕ}
use Prim.Native.Char.{code}
use Prim.Native.String.{String}
use mathlib.Core.List.{List, [], ◌∷◌}
use mathlib.Core.Option.{Option}
use frameworks_connectivity.Common.Lists.{length}

abbrev pub CString : Type 0
CString = Option String

-- The code points of a text, which are its bytes where it is ASCII.
abbrev pub codes : String → List ℕ
codes String.[] = []
codes (String.◌∷◌ c s) = code c ∷ codes s

abbrev pub strlen : String → ℕ
strlen s = length (codes s)
