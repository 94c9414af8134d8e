-- ===== src/Call/DecodeBounds.antt =====
-- The buffers that decoding writes to: the texts of a call, the list of calls, the list of paths.
use frameworks_connectivity.Common.{
  ℕ, ◌≤◌, String, CString, strlen, ltb, inl, inr, ◌≡◌, Option, none, some, Bool-cases, subst, arith,
}
use frameworks_connectivity.Utils.CallNames.{call_status_from_string}
use frameworks_connectivity.Records.{Code, ret, fail, CallInfo, max_call_text_length}
use frameworks_connectivity.Bus.Message.{
  Value, Iter, end, item, dict_entry, recurse, get_text, get_int, get_byte, next_item, ◌>>=◌,
}
use frameworks_connectivity.Call.Decode.{
  call_strcpy, copied, state, line_identification, incoming_line, name, start_time, multiparty,
  remote_held, remote_multiparty, information, icon, emergency, disconnect_reason, other, truth,
  Property, property_of, assign, decode_property, decode_entry, decode_properties, decode_rest,
  decode_voice_call_info,
}

-- Every text of the call leaves room for its terminator in a buffer of MAX_…_LENGTH + 1 characters.
pub record Fits (c : CallInfo) : Type 0 where
  pub call_id : strlen c.call_id ≤ max_call_text_length
  pub line_identification : strlen c.line_identification ≤ max_call_text_length
  pub incoming_line : strlen c.incoming_line ≤ max_call_text_length
  pub name : strlen c.name ≤ max_call_text_length
  pub start_time : strlen c.start_time ≤ max_call_text_length
  pub info : strlen c.info ≤ max_call_text_length

strcpy_fits :
    (dst : String) (src : CString) (n : ℕ) → strlen dst ≤ n → strlen (call_strcpy dst src n).1 ≤ n
unfolding call_strcpy
strcpy_fits dst none n h = h
strcpy_fits dst (some src) n h = elim (Bool-cases (ltb n (strlen src))) [
  | inl e ↦ rw e h
  | inr e ↦ rw e (ground arith)
]

-- A read that may be undefined, with what holds of its result.
abbrev pub Yields : {A : Type 0} → (A → Type 0) → Option A → Type 0
Yields P none = Unit
Yields P (some a) = P a

pub Yields-bind :
    {A B : Type 0} (P : B → Type 0) (Q : A → Type 0) (g : A → Option B) (o : Option A)
    → Yields Q o
    → ((a : A) → Q a → Yields P (g a))
    → Yields P (o >>= g)
Yields-bind P Q g none q h = tt
Yields-bind P Q g (some a) q h = h a q

module _ (value : Iter) (c : CallInfo) (f : Fits c) where
  -- A field is set to a value that is read.
  set-Fits :
      {A : Type 0} (set : A → CallInfo) (o : Option A)
      → ((r : A) → Fits (set r))
      → Yields Fits (o >>= λ r. some (set r))
  set-Fits set none h = tt
  set-Fits set (some r) h = h r

  assign-Fits : (p : Property) → Yields Fits (assign p value c)
  unfolding assign
  assign-Fits state =
      set-Fits (λ r. record c { state = call_status_from_string (some r) }) (get_text value)
        λ r. omega arith
  assign-Fits line_identification =
      set-Fits (λ r. record c { line_identification = copied c.line_identification r })
        (get_text value)
        λ r. omega (
          arith,
          strcpy_fits c.line_identification (some r) max_call_text_length f.line_identification,
        )
  assign-Fits incoming_line =
      set-Fits (λ r. record c { incoming_line = copied c.incoming_line r }) (get_text value)
        λ r.
          omega (arith, strcpy_fits c.incoming_line (some r) max_call_text_length f.incoming_line)
  assign-Fits name =
      set-Fits (λ r. record c { name = copied c.name r }) (get_text value)
        λ r. omega (arith, strcpy_fits c.name (some r) max_call_text_length f.name)
  assign-Fits start_time =
      set-Fits (λ r. record c { start_time = copied c.start_time r }) (get_text value)
        λ r. omega (arith, strcpy_fits c.start_time (some r) max_call_text_length f.start_time)
  assign-Fits multiparty =
      set-Fits (λ r. record c { multiparty = truth r }) (get_int value) λ r. omega arith
  assign-Fits remote_held =
      set-Fits (λ r. record c { remote_held = truth r }) (get_int value) λ r. omega arith
  assign-Fits remote_multiparty =
      set-Fits (λ r. record c { remote_multiparty = truth r }) (get_int value) λ r. omega arith
  assign-Fits information =
      set-Fits (λ r. record c { info = copied c.info r }) (get_text value)
        λ r. omega (arith, strcpy_fits c.info (some r) max_call_text_length f.info)
  assign-Fits icon = set-Fits (λ r. record c { icon = r }) (get_byte value) λ r. omega arith
  assign-Fits emergency =
      set-Fits (λ r. record c { is_emergency_number = truth r }) (get_int value) λ r. omega arith
  assign-Fits disconnect_reason =
      set-Fits (λ r. record c { disconnect_reason = r }) (get_int value) λ r. omega arith
  assign-Fits other = f

pub Yields-each :
    {A B : Type 0} (P : B → Type 0) (g : A → Option B) (o : Option A)
    → ((a : A) → Yields P (g a))
    → Yields P (o >>= g)
Yields-each P g none h = tt
Yields-each P g (some a) h = h a

pub Yields-some :
    {A : Type 0} (P : A → Type 0) (o : Option A) (a : A) → Yields P o → o ≡ some a → P a
Yields-some P o a h e = subst (Yields P) e h

entry-Fits : (k v : Value) (c : CallInfo) → Fits c → Yields Fits (decode_entry k v c)
entry-Fits k v c f =
    Yields-each Fits (λ key. recurse (item v end) >>= λ value. decode_property key value c)
      (get_text (item k end))
      λ key.
        Yields-each Fits (λ value. decode_property key value c) (recurse (item v end))
          λ value. assign-Fits value c f (property_of key)

properties_fit : (i : Iter) (c : CallInfo) → Fits c → Yields Fits (decode_properties i c)
unfolding decode_properties
properties_fit (item (dict_entry k v) i) c f =
    Yields-bind Fits Fits (decode_properties i) (decode_entry k v c) (entry-Fits k v c f)
      (properties_fit i)
properties_fit _ c f = f

abbrev pub CallFits : Code × CallInfo → Type 0
CallFits r = Fits r.1

rest-Fits : (r : Code) (i : Iter) (c : CallInfo) → Fits c → Yields CallFits (decode_rest r i c)
rest-Fits (fail e) i c f = f
rest-Fits (ret n) i c f =
    Yields-each CallFits (λ p. decode_properties p c >>= λ d. some (ret 1, d)) (recurse i)
      λ p.
        Yields-bind CallFits Fits (λ d. some (ret 1, d)) (decode_properties p c)
          (properties_fit p c f) λ d g. g

pub voice-CallFits : (i : Iter) → Yields CallFits (decode_voice_call_info i)
unfolding decode_voice_call_info
voice-CallFits i = Yields-each CallFits _ (get_text i) λ p.
    rest-Fits (call_strcpy "" (some p) max_call_text_length).0 (next_item i) _ (
      let h : strlen (call_strcpy "" (some p) max_call_text_length).1 ≤ max_call_text_length =
        strcpy_fits "" (some p) max_call_text_length (omega arith) in
      omega arith)

-- A call that is read off a message is written inside its buffers: no text of it is longer than
-- the limit of its field, whatever the message holds.
pub decode_voice_call_info-Fits :
    (i : Iter) (r : Code) (c : CallInfo) → decode_voice_call_info i ≡ some (r, c) → Fits c
decode_voice_call_info-Fits i r c e =
    Yields-some CallFits (decode_voice_call_info i) (r, c) (voice-CallFits i) e
