-- ===== src/Utils/Plmn.antt =====
-- tapi_utils.c: the digits of a network that are covered by letters, and the operator of a network.
use frameworks_connectivity.Common.{
  ℕ, ◌+◌, ◌-◌, ◌%◌, ◌≤◌, ◌≡◌, ◌≢◌, refl, ap, sym, subst, ◌∙◌, String, str_eq, eq_iff, List, [], ◌∷◌,
  ◌++◌, map, ◌⊎◌, All, ◌&&◌, if◌then◌else◌, inl, inr, Bool-cases, arith,
}

-- `mcc[i] - '0' + 'a'`, stored in a `char`.
abbrev cover : ℕ → ℕ
cover c = (c + (b'a' - b'0')) % 256

-- `get_covered_plmn`: the characters that are written before the terminator.
unfoldable pub get_covered_plmn : List ℕ → List ℕ → List ℕ
get_covered_plmn mcc mnc = map cover mcc ++ map cover mnc

-- `tapi_op_code`
pub data OpCode : Type 0 where
  cu cmcc ct cbn unknow : OpCode

pub record PlmnOpCode : Type 0 where
  pub mcc : String
  pub mnc : String
  pub op_code : OpCode

abbrev in_china : String → OpCode → PlmnOpCode
in_china mnc op = record { mcc = "460"; mnc = mnc; op_code = op }

abbrev pub plmn_op_info_list : List PlmnOpCode
plmn_op_info_list =
    in_china "00" OpCode.cmcc
    ∷ in_china "02" OpCode.cmcc
    ∷ in_china "04" OpCode.cmcc
    ∷ in_china "07" OpCode.cmcc
    ∷ in_china "08" OpCode.cmcc
    ∷ in_china "03" OpCode.ct
    ∷ in_china "05" OpCode.ct
    ∷ in_china "11" OpCode.ct
    ∷ in_china "01" OpCode.cu
    ∷ in_china "06" OpCode.cu
    ∷ in_china "09" OpCode.cu
    ∷ in_china "15" OpCode.cbn
    ∷ []

-- The loop over the table.
unfoldable pub find_op_code : String → String → List PlmnOpCode → OpCode
find_op_code mcc mnc [] = OpCode.unknow
find_op_code mcc mnc (e ∷ es) =
    let rest = find_op_code mcc mnc es in
    if str_eq mcc e.mcc && str_eq mnc e.mnc then e.op_code else rest

unfoldable pub get_op_code_base_mcc_mnc : String → String → OpCode
unfolding find_op_code
get_op_code_base_mcc_mnc mcc mnc = find_op_code mcc mnc plmn_op_info_list

abbrev pub IsDigit : ℕ → Type 0
IsDigit c = (b'0' ≤ c) × (c ≤ b'9')

abbrev pub uncover : ℕ → ℕ
uncover c = c - (b'a' - b'0')

uncover-cover : (c : ℕ) → IsDigit c → uncover (cover c) ≡ c
uncover-cover c d = omega (arith, d.0, d.1)

uncovered : (l : List ℕ) → All IsDigit l → map uncover (map cover l) ≡ l
uncovered [] a = refl
uncovered (c ∷ l) a = rw (uncovered l a.1) (ap (λ d. d ∷ l) (uncover-cover c a.0))

map-append : (f : ℕ → ℕ) (k l : List ℕ) → map f (k ++ l) ≡ map f k ++ map f l
map-append f [] l = refl
map-append f (x ∷ k) l = ap (λ m. f x ∷ m) (map-append f k l)

-- The digits of a network can be read back from the letters that cover them.
pub uncover-get_covered_plmn :
    (mcc mnc : List ℕ)
    → All IsDigit mcc
    → All IsDigit mnc
    → map uncover (get_covered_plmn mcc mnc) ≡ mcc ++ mnc
unfolding get_covered_plmn
uncover-get_covered_plmn mcc mnc a b =
    map-append uncover (map cover mcc) (map cover mnc)
    ∙ ap (λ l. l ++ map uncover (map cover mnc)) (uncovered mcc a)
    ∙ ap (λ l. mcc ++ l) (uncovered mnc b)

-- The table has an entry for the network, with the operator.
abbrev pub Lists : String → String → OpCode → List PlmnOpCode → Type 0
Lists mcc mnc op [] = ⊥
Lists mcc mnc op (e ∷ es) = ((mcc ≡ e.mcc) × (mnc ≡ e.mnc) × (op ≡ e.op_code)) ⊎ Lists mcc mnc op es

find_op_code-Lists :
    (mcc mnc : String) (l : List PlmnOpCode)
    → find_op_code mcc mnc l ≢ OpCode.unknow
    → Lists mcc mnc (find_op_code mcc mnc l) l
unfolding find_op_code
find_op_code-Lists mcc mnc [] h = absurd (h refl)
find_op_code-Lists mcc mnc (e ∷ es) h = elim (Bool-cases (str_eq mcc e.mcc && str_eq mnc e.mnc)) [
  | inl t ↦ rw t (inl (ground (arith, eq_iff mcc e.mcc), ground (arith, eq_iff mnc e.mnc), refl))
  | inr t ↦
      (let same : find_op_code mcc mnc (e ∷ es) ≡ find_op_code mcc mnc es = rw t refl in
        inr (
          subst (λ op. Lists mcc mnc op es) (sym same)
            (find_op_code-Lists mcc mnc es λ x. h (same ∙ x))))
]

-- An operator that is found for a network is that of an entry of the table for the network, by the
-- whole country code and the whole network code.
pub get_op_code_base_mcc_mnc-Lists :
    (mcc mnc : String)
    → get_op_code_base_mcc_mnc mcc mnc ≢ OpCode.unknow
    → Lists mcc mnc (get_op_code_base_mcc_mnc mcc mnc) plmn_op_info_list
unfolding get_op_code_base_mcc_mnc
get_op_code_base_mcc_mnc-Lists mcc mnc h = find_op_code-Lists mcc mnc plmn_op_info_list h
