-- ===== src/Call/ReplyValues.antt =====
-- tapi_call.c: what the replies to dial, GetCalls and CreateMultiparty are read into.
use frameworks_connectivity.Common.{
  ℕ, subst, pos, true, false, ◌≡◌, ◌↔◌, refl, inl, inr, Option, none, some, List, Bool-cases,
  str_eq, length, take, [], ap, arith,
}
use frameworks_connectivity.Records.{
  ok, AsyncResult, Payload, CallInfo, max_conference_participant_count,
}
use frameworks_connectivity.Bus.Message.{
  Message, Iter, item, object_path, iter_init, is_object_path, get_text, recurse,
}
use frameworks_connectivity.Call.Decode.{decode_calls, merge_paths}
use frameworks_connectivity.Call.ListBounds.{
  Decoded, call_structs, decode_calls-Decoded, leading_paths, merge_paths-take,
}
use frameworks_connectivity.Bus.Client.{Reply, undefined, called, is_fault}
use frameworks_connectivity.Call.Reply.{on_dial, on_merge, on_call_list, list_of_calls}
use frameworks_connectivity.Bus.Answers.{client}

-- A result with the status `ok` hands on the calls that the structures of the reply are decoded to.
abbrev ListsCalls : Message → Reply → Type 0
ListsCalls m (called cb ar) =
    ar.status ≡ some ok
    → (i : Iter) × (l : List CallInfo) × (recurse m.args ≡ some i)
      × (ar.contents ≡ Payload.calls l)
      × (ar.arg2 ≡ some (pos (length l)))
      × Decoded (call_structs i) l
ListsCalls m _ = Unit

-- A result with the status `ok` hands on the first paths of the reply and their number.
abbrev ListsPaths : Message → Reply → Type 0
ListsPaths m (called cb ar) =
    ar.status ≡ some ok
    → (i : Iter) × (recurse m.args ≡ some i)
      × (ar.contents ≡ Payload.paths (take max_conference_participant_count (leading_paths i)))
      × (ar.arg2 ≡ some (pos (length (take max_conference_participant_count (leading_paths i)))))
ListsPaths m _ = Unit

-- A result has no status exactly when the call is answered with arguments of which the first is no
-- path.
abbrev pub LeavesStatus : Message → Reply → Type 0
LeavesStatus m (called cb ar) =
    (ar.status ≡ none)
    ↔ ((is_fault m ≡ false) × (iter_init m ≡ true) × (is_object_path m.args ≡ false))
LeavesStatus m _ = Unit

list_of_calls_some :
    (m : Message) (l : List CallInfo) (o : Option Iter)
    → recurse m.args ≡ o
    → elim o [ none ↦ none | some i ↦ decode_calls i [] ] ≡ some l
    → (i : Iter) × (recurse m.args ≡ some i) × (decode_calls i [] ≡ some l)
list_of_calls_some m l none e h = ground arith
list_of_calls_some m l (some i) e h = (i, e, h)

module _ (block cb : ℕ) (ar : AsyncResult) (m : Message) (unset : ar.status ≡ none) where
  listed :
      (o : Option (List CallInfo))
      → list_of_calls m.args ≡ o
      → ListsCalls m (elim o [
        | none ↦ undefined
        | some l ↦ called cb (record ar {
          arg2 = some (pos (length l));
          status = some ok;
          contents = Payload.calls l;
        })
      ])
  listed none e = tt
  listed (some l) e =
      let f = list_of_calls_some m l (recurse m.args) refl e in
      λ _. (f.0, l, f.1, refl, refl, (decode_calls-Decoded f.0 l f.2).0)

  call_list_reply : ListsCalls m (on_call_list (some (client block cb ar m)) m)
  unfolding on_call_list
  call_list_reply = elim (Bool-cases (is_fault m)) [
    | inl e ↦ rw e (ground arith)
    | inr e ↦ elim (Bool-cases (str_eq m.signature "a(oa{sv})")) [
      | inl f ↦ elim (Bool-cases (iter_init m)) [
        | inl g ↦ rw (e, f, g) (listed (list_of_calls m.args) refl)
        | inr g ↦ rw (e, f, g) (ground arith)
      ]
      | inr f ↦ rw (e, f) (ground arith)
    ]
  ]

  -- A reply to GetCalls that the client sees as a success carries exactly the calls of the reply's
  -- structures that begin with a path, in their order, each as its structure is decoded and with
  -- every text within its buffer; `arg2` holds their number. The result is one whose status was not
  -- set before.
  pub on_call_list-ListsCalls :
      (cb' : ℕ) (ar' : AsyncResult)
      → on_call_list (some (client block cb ar m)) m ≡ called cb' ar'
      → ar'.status ≡ some ok
      → (i : Iter) × (l : List CallInfo) × (recurse m.args ≡ some i)
        × (ar'.contents ≡ Payload.calls l)
        × (ar'.arg2 ≡ some (pos (length l)))
        × Decoded (call_structs i) l
  on_call_list-ListsCalls cb' ar' e h = subst (ListsCalls m) e call_list_reply h

  merged :
      (o : Option Iter)
      → recurse m.args ≡ o
      → ListsPaths m (elim o [
        | none ↦ undefined
        | some i ↦ called cb (record ar {
          contents = Payload.paths (merge_paths 0 i);
          status = some ok;
          arg2 = some (pos (length (merge_paths 0 i)));
        })
      ])
  merged none e = tt
  merged (some i) e = λ _. (
    i,
    e,
    ap Payload.paths (merge_paths-take i),
    ap (λ l. some (pos (length l))) (merge_paths-take i),
  )

  merge_reply : ListsPaths m (on_merge (some (client block cb ar m)) m)
  unfolding on_merge
  merge_reply = elim (Bool-cases (is_fault m)) [
    | inl e ↦ rw e (ground arith)
    | inr e ↦ elim (Bool-cases (str_eq m.signature "ao")) [
      | inl f ↦ elim (Bool-cases (iter_init m)) [
        | inl g ↦ rw (e, f, g) (merged (recurse m.args) refl)
        | inr g ↦ rw (e, f, g) (ground arith)
      ]
      | inr f ↦ rw (e, f) (ground arith)
    ]
  ]

  -- A reply to CreateMultiparty or PrivateChat that the client sees as a success carries the first
  -- six of the paths that the reply begins with, and `arg2` holds how many they are. The result is
  -- one whose status was not set before.
  pub on_merge-ListsPaths :
      (cb' : ℕ) (ar' : AsyncResult)
      → on_merge (some (client block cb ar m)) m ≡ called cb' ar'
      → ar'.status ≡ some ok
      → (i : Iter) × (recurse m.args ≡ some i)
        × (ar'.contents ≡ Payload.paths (take max_conference_participant_count (leading_paths i)))
        × (ar'.arg2 ≡ some (pos (length (take max_conference_participant_count (leading_paths i)))))
  on_merge-ListsPaths cb' ar' e h = subst (ListsPaths m) e merge_reply h

  dialed :
      (i : Iter)
      → m.args ≡ i
      → is_object_path i ≡ true
      → LeavesStatus m (elim (get_text i) [
        | none ↦ undefined
        | some id ↦ called cb (record ar { contents = Payload.text (some id); status = some ok })
      ])
  dialed (item (object_path p) i) e h = ground arith
  dialed _ e h = ground arith

  -- The result of a dial, whose status was not set before, has no status after the reply, which is
  -- indeterminate memory in the code, exactly when the reply is no error and has arguments of which
  -- the first is no path; every other reply sets it.
  pub on_dial-LeavesStatus : LeavesStatus m (on_dial (some (client block cb ar m)) m)
  unfolding on_dial
  on_dial-LeavesStatus = elim (Bool-cases (is_fault m)) [
    | inl e ↦ rw e (ground arith)
    | inr e ↦ elim (Bool-cases (iter_init m)) [
      | inl g ↦ elim (Bool-cases (is_object_path m.args)) [
        | inl f ↦ rw (e, g, f) (dialed m.args refl f)
        | inr f ↦ rw (e, g, f) (ground (arith, unset))
      ]
      | inr g ↦ rw (e, g) (ground arith)
    ]
  ]
