-- ===== src/Bus/Answers.antt =====
-- What a reply function hands to the client, for the reply functions of every file.
use frameworks_connectivity.Common.{
  ℕ, ℤ, Bool, true, false, ◌≡◌, refl, Option, none, some, if◌then◌else◌,
}
use frameworks_connectivity.Records.{Status, error, AsyncResult, Handler, Payload}
use frameworks_connectivity.Bus.Message.{Message, iter_init}
use frameworks_connectivity.Bus.Client.{Reply, undefined, quiet, called, is_fault}

-- The result that the client gets is the one that its request allocated.
pub record IsSame (a b : AsyncResult) : Type 0 where
  pub block : b.block ≡ a.block
  pub msg_id : b.msg_id ≡ a.msg_id
  pub msg_type : b.msg_type ≡ a.msg_type
  pub arg1 : b.arg1 ≡ a.arg1
  pub user_obj : b.user_obj ≡ a.user_obj

-- A reply that calls nobody but `cb`, and with the request's own result.
unfoldable pub Answers : ℕ → AsyncResult → Reply → Type 0
Answers cb ar undefined = Unit
Answers cb ar quiet = ⊥
Answers cb ar (called cb' ar') = (cb' ≡ cb) × IsSame ar ar'

pub Answers-changed :
    (cb : ℕ) (ar : AsyncResult) (s : Option Status) (n : Option ℤ) (c : Payload)
    → Answers cb ar (called cb (record ar { status = s; arg2 = n; contents = c }))
unfolding Answers
Answers-changed cb ar s n c =
    (refl, record { block = refl; msg_id = refl; msg_type = refl; arg1 = refl; user_obj = refl })

pub Answers-if :
    (cb : ℕ) (ar : AsyncResult) (b : Bool) (x y : Reply)
    → Answers cb ar x
    → Answers cb ar y
    → Answers cb ar (if b then x else y)
Answers-if cb ar true x y h k = h
Answers-if cb ar false x y h k = k

pub Answers-option :
    {A : Type 0} (cb : ℕ) (ar : AsyncResult) (o : Option A) (f : A → Reply)
    → ((a : A) → Answers cb ar (f a))
    → Answers cb ar (elim o [ none ↦ undefined | some a ↦ f a ])
unfolding Answers
Answers-option cb ar none f h = tt
Answers-option cb ar (some a) f h = h a

module _ (block cb : ℕ) (ar : AsyncResult) (m : Message) where
  abbrev pub client : Handler
  client = record { block = block; result = some ar; cb_function = some cb }

  pub told_error : Answers cb ar (called cb (record ar { status = some error }))
  told_error = Answers-changed cb ar (some error) ar.arg2 ar.contents

  -- The checks that a reply function begins with: an error reply, the signature, no argument.
  pub checked :
      (b : Bool) (x : Reply)
      → Answers cb ar x
      → Answers cb ar (
          if is_fault m
          then called cb (record ar { status = some error })
          else if b
          then (if iter_init m then x else called cb (record ar { status = some error }))
          else called cb (record ar { status = some error }))
  checked b x h =
      Answers-if cb ar (is_fault m) _ _ told_error
        (Answers-if cb ar b _ _ (Answers-if cb ar (iter_init m) _ _ h told_error) told_error)
