-- ===== src/Call/ListBounds.antt =====
-- The lists that replies are read into: the calls of a slot, the paths of a conference.
use frameworks_connectivity.Common.{
  ℕ, zero, suc, ◌+◌, ◌≤◌, ◌<◌, String, ltb, leb, if◌then◌else◌, Bool, true, false, inl, inr, ◌≡◌,
  refl, sym, ap, ◌∙◌, Option, none, some, Bool-cases, Option-cases, subst, All, List, [], ◌∷◌, ◌++◌,
  length, length-append, take, ltb→lt, arith,
}
use frameworks_connectivity.Records.{
  Code, CallInfo, max_call_list_count, max_conference_participant_count,
}
use frameworks_connectivity.Bus.Message.{Iter, item, object_path, struct, is_object_path, ◌>>=◌}
use frameworks_connectivity.Call.Decode.{
  decode_voice_call_info, decode_struct, decode_calls, merge_paths, store,
}
use frameworks_connectivity.Call.DecodeBounds.{
  Fits, CallFits, Yields, Yields-bind, Yields-some, voice-CallFits, decode_voice_call_info-Fits,
}

-- The entries of a list of calls that stand for a call: structures that begin with a path.
unfoldable pub call_entries : Iter → ℕ
call_entries (item (struct entry) i) =
    if is_object_path entry then suc (call_entries i) else call_entries i
call_entries _ = 0

-- What the loop yields, begun with `written`.
abbrev Listed : ℕ → List CallInfo → Type 0
Listed n l = (length l ≡ n) × (length l ≤ max_call_list_count) × All Fits l

All-append-one : (l : List CallInfo) (c : CallInfo) → All Fits l → Fits c → All Fits (l ++ (c ∷ []))
All-append-one [] c a f = (f, tt)
All-append-one (x ∷ xs) c a f = (a.0, All-append-one xs c a.1 f)

store-Listed :
    (n : ℕ) (written : List CallInfo) (c : CallInfo)
    → Listed n written
    → Fits c
    → Yields (Listed (suc n)) (store max_call_list_count written c)
store-Listed n written c h f = elim (Bool-cases (ltb (length written) max_call_list_count)) [
  | inl room ↦ rw room (
    omega (arith, h.0, length-append written (c ∷ [])),
    omega (arith, ltb→lt _ _ room, length-append written (c ∷ [])),
    All-append-one written c h.2 f,
  )
  | inr full ↦ rw full tt
]

struct-Listed :
    (entry : Iter) (n : ℕ) (written : List CallInfo)
    → Listed n written
    → Yields (Listed (if is_object_path entry then suc n else n)) (decode_struct entry written)
unfolding decode_struct
struct-Listed entry n written h = elim (Bool-cases (is_object_path entry)) [
  | inl e ↦ rw e (
      Yields-bind (Listed (suc n)) CallFits (λ r. store max_call_list_count written r.1)
        (decode_voice_call_info entry) (voice-CallFits entry) λ r f. store-Listed n written r.1 h f)
  | inr e ↦ rw e h
]

more-Listed :
    (b : Bool) (n m : ℕ) (i : Iter) (l : List CallInfo)
    → ((n' : ℕ) → Listed n' l → Yields (Listed (n' + m)) (decode_calls i l))
    → Listed (if b then suc n else n) l
    → Yields (Listed (n + (if b then suc m else m))) (decode_calls i l)
more-Listed true n m i l f k =
    subst (λ x. Yields (Listed x) (decode_calls i l)) (omega arith) (f (suc n) k)
more-Listed false n m i l f k = f n k

calls-Listed :
    (i : Iter) (n : ℕ) (written : List CallInfo)
    → Listed n written
    → Yields (Listed (n + call_entries i)) (decode_calls i written)
unfolding decode_calls call_entries
calls-Listed (item (struct entry) i) n written h =
    Yields-bind _ (Listed (if is_object_path entry then suc n else n)) (decode_calls i)
      (decode_struct entry written) (struct-Listed entry n written h)
      λ l k.
        more-Listed (is_object_path entry) n (call_entries i) i l (λ n' h'. calls-Listed i n' l h')
          k
calls-Listed _ n written h = (omega (arith, h.0), h.1, h.2)

all-Listed : (i : Iter) → Yields (Listed (call_entries i)) (decode_calls i [])
all-Listed i =
    subst (λ n. Yields (Listed n) (decode_calls i [])) (omega arith)
      (calls-Listed i 0 [] (refl, omega arith, tt))

-- The structures that stand for a call, in order.
unfoldable pub call_structs : Iter → List Iter
call_structs (item (struct entry) i) =
    if is_object_path entry then entry ∷ call_structs i else call_structs i
call_structs _ = []

-- Each call is what its structure is decoded to, and every text of it fits its buffer.
unfoldable pub Decoded : List Iter → List CallInfo → Type 0
Decoded [] [] = Unit
Decoded (e ∷ es) (c ∷ cs) =
    ((r : Code) × (decode_voice_call_info e ≡ some (r, c))) × Fits c × Decoded es cs
Decoded _ _ = ⊥

-- The calls that are written after those before.
abbrev Continues : Iter → List CallInfo → List CallInfo → Type 0
Continues i written l = (k : List CallInfo) × (l ≡ written ++ k) × Decoded (call_structs i) k

pub Decoded-length : (es : List Iter) (cs : List CallInfo) → Decoded es cs → length cs ≡ length es
unfolding Decoded
Decoded-length [] [] h = refl
Decoded-length (e ∷ es) (c ∷ cs) h = ap suc (Decoded-length es cs h.2)
Decoded-length [] (c ∷ cs) h = absurd h
Decoded-length (e ∷ es) [] h = absurd h

append_one : (l k : List CallInfo) (c : CallInfo) → (l ++ (c ∷ [])) ++ k ≡ l ++ (c ∷ k)
append_one [] k c = refl
append_one (x ∷ l) k c = ap (λ t. x ∷ t) (append_one l k c)

module _ (entry i : Iter) (written : List CallInfo)
    (rest : (l : List CallInfo) → Yields (Continues i l) (decode_calls i l)) where
  abbrev ContinuesWith : List Iter → List CallInfo → Type 0
  ContinuesWith es l = (k : List CallInfo) × (l ≡ written ++ k) × Decoded es k

  prepended :
      (r : Code) (c : CallInfo) (o : Option (List CallInfo))
      → decode_voice_call_info entry ≡ some (r, c)
      → Yields (Continues i (written ++ (c ∷ []))) o
      → Yields (ContinuesWith (entry ∷ call_structs i)) o
  unfolding Decoded
  prepended r c none e h = tt
  prepended r c (some l) e h = (
    c ∷ h.0,
    h.1 ∙ append_one written h.0 c,
    ((r, e), decode_voice_call_info-Fits entry r c e, h.2),
  )

  stored-Decoded :
      (o : Option (Code × CallInfo))
      → decode_voice_call_info entry ≡ o
      → Yields
          (ContinuesWith (entry ∷ call_structs i))
          ((o >>= λ r. store max_call_list_count written r.1) >>= λ l. decode_calls i l)
  stored-Decoded none e = tt
  stored-Decoded (some (r, c)) e = elim (Bool-cases (ltb (length written) max_call_list_count)) [
    | inl room ↦ rw room (prepended r c _ e (rest (written ++ (c ∷ []))))
    | inr full ↦ rw full tt
  ]

  struct-Decoded :
      (b : Bool)
      → Yields (ContinuesWith (if b then entry ∷ call_structs i else call_structs i)) (
          (if b
            then (decode_voice_call_info entry >>= λ r. store max_call_list_count written r.1)
            else some written)
          >>= λ l. decode_calls i l)
  struct-Decoded true = stored-Decoded (decode_voice_call_info entry) refl
  struct-Decoded false = rest written

append_nil : (l : List CallInfo) → l ≡ l ++ []
append_nil [] = refl
append_nil (x ∷ l) = ap (λ t. x ∷ t) (append_nil l)

calls-Decoded :
    (i : Iter) (written : List CallInfo) → Yields (Continues i written) (decode_calls i written)
unfolding decode_calls decode_struct call_structs Decoded
calls-Decoded (item (struct entry) i) written =
    struct-Decoded entry i written (λ l. calls-Decoded i l) (is_object_path entry)
calls-Decoded _ written = ([], append_nil written, tt)

-- Where the loop over the calls of a reply is defined, it writes exactly the calls of the structures
-- that begin with a path, in their order: one for each, as the structure is decoded, and with every
-- text within its buffer.
pub decode_calls-Decoded :
    (i : Iter) (l : List CallInfo)
    → decode_calls i [] ≡ some l
    → Decoded (call_structs i) l × (length l ≡ length (call_structs i))
decode_calls-Decoded i l e =
    let c = Yields-some (Continues i []) (decode_calls i []) l (calls-Decoded i []) e in
    let d = subst (λ x. Decoded (call_structs i) x) (sym c.1) c.2 in
    (d, Decoded-length (call_structs i) l d)

-- A reply with more entries than the list has room for is undefined behaviour: the code writes past
-- the end of the list.
pub decode_calls_overrun :
    (i : Iter) → max_call_list_count < call_entries i → decode_calls i [] ≡ none
decode_calls_overrun i over = elim (Option-cases (decode_calls i [])) [
  | inl e ↦ e
  | inr f ↦
      (let h = Yields-some (Listed (call_entries i)) (decode_calls i []) f.0 (all-Listed i) f.1 in
        absurd (omega (arith, over, h.0, h.1)))
]

-- The paths at the front of a list.
unfoldable pub leading_paths : Iter → List String
leading_paths (item (object_path p) i) = p ∷ leading_paths i
leading_paths _ = []

abbrev none_left : ℕ → Bool
none_left zero = true
none_left (suc k) = false

full_at :
    (n k : ℕ)
    → n + suc k ≡ max_conference_participant_count
    → leb max_conference_participant_count (n + 1) ≡ none_left k
full_at n zero h = ground arith
full_at n (suc k) h = ground arith

merge_paths_from :
    (i : Iter) (n k : ℕ)
    → n + suc k ≡ max_conference_participant_count
    → merge_paths n i ≡ take (suc k) (leading_paths i)
unfolding merge_paths leading_paths
merge_paths_from (item (object_path p) i) n zero h = rw (full_at n 0 h) refl
merge_paths_from (item (object_path p) i) n (suc k) h =
    rw (full_at n (suc k) h, merge_paths_from i (n + 1) k (omega (arith, h))) refl
merge_paths_from _ n k h = refl

-- The paths that a conference reply is read into are the first six of the paths that it begins
-- with, so the array of six is never overrun.
pub merge_paths-take :
    (i : Iter) → merge_paths 0 i ≡ take max_conference_participant_count (leading_paths i)
merge_paths-take i = merge_paths_from i 0 5 (omega arith)
