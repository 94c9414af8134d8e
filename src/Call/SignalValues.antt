-- ===== src/Call/SignalValues.antt =====
-- tapi_call.c: what the signals of calls tell the client.
use frameworks_connectivity.Common.{
  ℕ, ltb, ◌<◌, ◌≡◌, refl, inl, inr, String, strlen, true, false, Option, none, some, Bool-cases,
  if◌then◌else◌, arith,
}
use frameworks_connectivity.Records.{
  Code, ret, fail, ok, AsyncResult, Handler, Payload, CallInfo, zero_call, max_call_text_length,
}
use frameworks_connectivity.Bus.Message.{
  Message, Iter, item, object_path, iter_init, recurse, get_text, ◌>>=◌,
}
use frameworks_connectivity.Call.Decode.{
  decode_voice_call_info, decode_rest, decode_properties, call_strcpy,
}
use frameworks_connectivity.Call.DecodeBounds.{Yields, Yields-each}
use frameworks_connectivity.Call.Signal.{
  Signal, undefined, done, or_undefined, told, is_true, call_state_changed,
}

-- A result is never the 0 that the function for changes of a call takes for a failure.
code-is_true :
    (c : Code) (i : Iter) (info : CallInfo)
    → Yields (λ r. is_true r.0 ≡ true) (decode_rest c i info)
code-is_true (fail e) i info = refl
code-is_true (ret n) i info =
    Yields-each (λ r. is_true r.0 ≡ true) (λ p. decode_properties p info >>= λ d. some (ret 1, d))
      (recurse i)
      λ p.
        Yields-each (λ r. is_true r.0 ≡ true) (λ d. some (ret 1, d)) (decode_properties p info)
          λ d. refl

voice-is_true : (i : Iter) → Yields (λ r. is_true r.0 ≡ true) (decode_voice_call_info i)
unfolding decode_voice_call_info
voice-is_true i = Yields-each (λ r. is_true r.0 ≡ true) _ (get_text i) λ s. code-is_true _ _ _

module _ (block cb : ℕ) (ar : AsyncResult) (m : Message) where
  abbrev pub watcher : Handler
  watcher = record { block = block; result = some ar; cb_function = some cb }

  -- The client is told `ok` with the call that the signal is decoded to, whatever the result of the
  -- decoding, and is not told only where the signal has no arguments.
  abbrev pub TellsCall : Signal → Type 0
  TellsCall undefined = (iter_init m ≡ true) × (decode_voice_call_info m.args ≡ none)
  TellsCall (done b none) = (b ≡ false) × (iter_init m ≡ false)
  TellsCall (done b (some (cb', ar'))) =
      (b ≡ true)
      × (cb' ≡ cb)
      × (iter_init m ≡ true)
      × ((r : Code × CallInfo) × (decode_voice_call_info m.args ≡ some r)
          × (ar' ≡ record ar { contents = Payload.call r.1; status = some ok }))

  told_call :
      (o : Option (Code × CallInfo))
      → decode_voice_call_info m.args ≡ o
      → iter_init m ≡ true
      → Yields (λ r. is_true r.0 ≡ true) o
      → TellsCall (
          or_undefined (
            o >>= λ r.
            if is_true r.0
            then some (told cb (record ar { contents = Payload.call r.1 }))
            else some (done false none)))
  told_call none e i t = (i, e)
  told_call (some (r, c)) e i t = rw t (refl, refl, i, ((r, c), e, refl))

  -- The function for changes of a call calls its own client exactly where the signal has arguments,
  -- and then with the call that they are decoded to and the status `ok`, even where the decoding
  -- failed, and keeps its watch; where there are no arguments it lets its watch be dropped. The only
  -- other outcome is the undefined one of the decoding.
  pub call_state_changed-TellsCall : TellsCall (call_state_changed (some watcher) m)
  unfolding call_state_changed
  call_state_changed-TellsCall = elim (Bool-cases (iter_init m)) [
    | inl e ↦ rw e (told_call (decode_voice_call_info m.args) refl e (voice-is_true m.args))
    | inr e ↦ rw e (refl, e)
  ]

  -- A call whose path is longer than its buffer is told as a success all the same, with a call that
  -- has no id and no other content.
  pub call_state_changed_long_path :
      (p : String) (i : Iter)
      → m.args ≡ item (object_path p) i
      → max_call_text_length < strlen p
      → call_state_changed (some watcher) m
        ≡ done true (some (cb, record ar { contents = Payload.call zero_call; status = some ok }))
  unfolding call_state_changed decode_voice_call_info call_strcpy
  call_state_changed_long_path p i e lt =
      let long : ltb max_call_text_length (strlen p) ≡ true = ground arith in rw (e, long) refl
