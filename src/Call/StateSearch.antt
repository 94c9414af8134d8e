-- ===== src/Call/StateSearch.antt =====
-- tapi_call.c: the calls that are found in a state.
use frameworks_connectivity.Common.{
  ℕ, ◌≡◌, refl, inl, inr, ℤ, pos, negsuc, is_eq, ==_iff, ap, subst, List, [], ◌∷◌, length, Option,
  none, some, Bool, true, false, Bool-cases, arith,
}
use frameworks_connectivity.Utils.Modem.{Config, is_valid_slotid}
use frameworks_connectivity.Records.{Code, ret, fail, CallInfo, Context}
use frameworks_connectivity.Call.Watch.{call_status_code, calls_in_state, get_call_by_state}

-- `k` is `l` with the calls in another state left out.
pub data Selects (state : ℤ) : List CallInfo → List CallInfo → Type 0 where
  none_left : Selects state [] []
  selected :
      (c : CallInfo) (l k : List CallInfo)
      → call_status_code c.state ≡ state
      → Selects state l k
      → Selects state (c ∷ l) (c ∷ k)
  left_out :
      (c : CallInfo) (l k : List CallInfo)
      → (call_status_code c.state ≡ state → ⊥)
      → Selects state l k
      → Selects state (c ∷ l) k

is_eq_iff : (a b : ℤ) → is_eq a b ≡ true → a ≡ b
is_eq_iff (pos m) (pos n) e = ap pos ((==_iff m n).0 e)
is_eq_iff (negsuc m) (negsuc n) e = ap negsuc ((==_iff m n).0 e)
is_eq_iff (pos m) (negsuc n) e = ground arith
is_eq_iff (negsuc m) (pos n) e = ground arith

is_eq_self : (a : ℤ) → is_eq a a ≡ true
is_eq_self (pos n) = (==_iff n n).1 refl
is_eq_self (negsuc n) = (==_iff n n).1 refl

calls_in_state-Selects : (state : ℤ) (l : List CallInfo) → Selects state l (calls_in_state state l)
unfolding calls_in_state
calls_in_state-Selects state [] = Selects.none_left
calls_in_state-Selects state (c ∷ l) = elim (Bool-cases (is_eq (call_status_code c.state) state)) [
  | inl e ↦ rw e (
      Selects.selected c l (calls_in_state state l) (is_eq_iff (call_status_code c.state) state e)
        (calls_in_state-Selects state l))
  | inr e ↦ rw e (
      Selects.left_out c l (calls_in_state state l)
        (λ same. ground (arith, e, same, is_eq_self state)) (calls_in_state-Selects state l))
]

-- What holds of the result and of the calls that are written.
abbrev Found : ℤ → List CallInfo → Code × List CallInfo → Type 0
Found state l (ret n, k) = (n ≡ length k) × Selects state l k
Found state l (fail e, k) = Unit

get_call_by_state-Found :
    (cfg : Config) (ctx : Option Context) (slot_id state : ℤ) (l : List CallInfo) (to_info : Bool)
    → Found state l (get_call_by_state cfg ctx slot_id state (some l) to_info)
unfolding get_call_by_state
get_call_by_state-Found cfg none slot_id state l to_info = tt
get_call_by_state-Found cfg (some c) slot_id state l false =
    elim (Bool-cases (is_valid_slotid cfg slot_id)) [ inl v ↦ rw v tt | inr v ↦ rw v tt ]
get_call_by_state-Found cfg (some c) slot_id state l true =
    elim (Bool-cases (is_valid_slotid cfg slot_id)) [
      | inl v ↦ rw v (refl, calls_in_state-Selects state l)
      | inr v ↦ rw v tt
    ]

-- A search of the calls by their state that returns a number has written that many calls, which are
-- all the calls of the list in that state, in their order, and no other.
pub get_call_by_state-Selects :
    (cfg : Config) (ctx : Option Context) (slot_id state : ℤ) (l : List CallInfo) (to_info : Bool)
    (n : ℕ) (k : List CallInfo)
    → get_call_by_state cfg ctx slot_id state (some l) to_info ≡ (ret n, k)
    → (n ≡ length k) × Selects state l k
get_call_by_state-Selects cfg ctx slot_id state l to_info n k e =
    subst (Found state l) e (get_call_by_state-Found cfg ctx slot_id state l to_info)
