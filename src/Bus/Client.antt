-- ===== src/Bus/Client.antt =====
-- How a reply reaches the client: what the reply functions of every file begin and end with.
use frameworks_connectivity.Common.{ℕ, CString, Bool, true, false, Option, none, some}
use frameworks_connectivity.Records.{ok, error, AsyncResult, Handler}
use frameworks_connectivity.Bus.Message.{Message}

-- What a reply function does: it calls the client back with a result, or not at all.
pub data Reply : Type 0 where
  undefined quiet : Reply
  called : ℕ → AsyncResult → Reply

-- The checks for null pointers that each function begins with.
abbrev pub with_callback : Option Handler → (ℕ → AsyncResult → Reply) → Reply
with_callback none f = quiet
with_callback (some h) f = elim h.result [
  | none ↦ quiet
  | some ar ↦ elim h.cb_function [ none ↦ quiet | some cb ↦ f cb ar ]
]

abbrev pub is_fault : Message → Bool
is_fault m = elim m.fault [ none ↦ false | some e ↦ true ]

abbrev pub failed : ℕ → AsyncResult → Reply
failed cb ar = called cb (record ar { status = some error })

-- `property_set_done` of tapi_utils.c, with the error of the write.
unfoldable pub property_set_done : Option Handler → CString → Reply
property_set_done handler fault =
    with_callback handler
      λ cb ar. called cb (record ar { status = some (elim fault [ none ↦ ok | some e ↦ error ]) })
