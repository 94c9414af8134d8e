-- ===== src/Call/Dispatch.antt =====
-- tapi_call.c: which signals of the managers reach which client.
use frameworks_connectivity.Common.{
  ℕ, ◌≤◌, ◌≡◌, refl, sym, ap, ◌∙◌, subst, inl, inr, ◌⊎◌, ◌&&◌, String, str_eq, eq_iff, ℤ, pos,
  Option, none, some, List, length, Bool, true, false, Bool-cases, if◌then◌else◌, arith,
}
use frameworks_connectivity.Utils.Modem.{Config, get_slot_id}
use frameworks_connectivity.Records.{ok, AsyncResult, Payload, EccInfo, max_ecc_list_size}
use frameworks_connectivity.Bus.Message.{
  Message, Iter, iter_init, next_item, recurse, get_text, get_int, is_string, is_int32, ◌>>=◌,
}
use frameworks_connectivity.Call.DecodeBounds.{Yields}
use frameworks_connectivity.Call.Ecc.{changed_entries}
use frameworks_connectivity.Call.EccBounds.{changed_entries_bound}
use frameworks_connectivity.Call.SignalValues.{watcher}
use frameworks_connectivity.Call.Signal.{
  Signal, undefined, done, or_undefined, told, is_message, Ofono, property_change,
  ring_back_tone_change, default_slot_change, manager_property_changed, ring_back_tone_ind,
  ecc_list_change_ind, default_voicecall_slot_change_ind,
}

-- A client that is told anything is told `ok`, keeps its watch, and is told what `Q` says.
abbrev Tells : ℕ → (AsyncResult → Type 0) → Signal → Type 0
Tells cb Q undefined = Unit
Tells cb Q (done b none) = Unit
Tells cb Q (done b (some (cb', ar'))) = (b ≡ true) × (cb' ≡ cb) × (ar'.status ≡ some ok) × Q ar'

or_undefined-Tells :
    (cb : ℕ) (Q : AsyncResult → Type 0) (o : Option Signal)
    → Yields (Tells cb Q) o
    → Tells cb Q (or_undefined o)
or_undefined-Tells cb Q none h = tt
or_undefined-Tells cb Q (some s) h = h

Tells-weaken :
    (cb : ℕ) (Q R : AsyncResult → Type 0) (s : Signal)
    → ((ar : AsyncResult) → Q ar → R ar)
    → Tells cb Q s
    → Tells cb R s
Tells-weaken cb Q R undefined h t = tt
Tells-weaken cb Q R (done b none) h t = tt
Tells-weaken cb Q R (done b (some (cb', ar'))) h t = (t.0, t.1, t.2, h ar' t.3)

-- The value is at hand, with the equation that says where it is from.
Yields-known :
    {A : Type 0} (P : Signal → Type 0) (o : Option A) (f : A → Option Signal)
    → ((x : A) → o ≡ some x → Yields P (f x))
    → Yields P (o >>= f)
Yields-known P none f h = tt
Yields-known P (some x) f h = h x refl

both : (x y x' y' : String) → (str_eq x x' && str_eq y y') ≡ true → (x ≡ x') × (y ≡ y')
both x y x' y' e = elim (Bool-cases (str_eq x x')) [
  | inl f ↦ ((eq_iff x x').0 f, (eq_iff y y').0 (and_true f e))
  | inr f ↦ absurd (false-true f e)
]
  where
    and_true : str_eq x x' ≡ true → (str_eq x x' && str_eq y y') ≡ true → str_eq y y' ≡ true
    and_true f h = ground arith

    false-true : str_eq x x' ≡ false → (str_eq x x' && str_eq y y') ≡ true → ⊥
    false-true f h = ground arith

module _ (cfg : Config) (names : Ofono) (block cb : ℕ) (ar : AsyncResult) (m : Message) where
  -- The client waits for the message.
  abbrev Awaits : ℤ → Type 0
  Awaits id = is_message cfg ar id ≡ true

  abbrev IsSignal : String → String → Type 0
  IsSignal interface member = (m.interface ≡ interface) × (m.member ≡ member)

  -- The list that the value of a changed "EmergencyNumbers" is read into.
  abbrev EccsOf : AsyncResult → Type 0
  EccsOf ar' =
      Awaits ecc_list_change_ind
      × (get_text m.args ≡ some "EmergencyNumbers")
      × ((list : Iter) × (entries : Iter) × (l : List EccInfo) × (recurse (next_item m.args)
            ≡ some list)
          × (recurse list ≡ some entries)
          × (changed_entries 0 entries ≡ some l)
          × (ar'.contents ≡ Payload.eccs l)
          × (ar'.arg2 ≡ some (pos (length l)))
          × (length l ≤ max_ecc_list_size))

  -- The slot of the modem path that is the value of a changed "VoiceCallSlot".
  abbrev SlotOf : AsyncResult → Type 0
  SlotOf ar' =
      (get_text m.args ≡ some "VoiceCallSlot")
      × ((var : Iter) × (path : String) × (recurse (next_item m.args) ≡ some var)
          × (get_text var ≡ some path)
          × (ar'.arg2 ≡ some (get_slot_id cfg path)))

  abbrev pub TellsEccs : AsyncResult → Type 0
  TellsEccs ar' = IsSignal names.voicecall_manager_interface "PropertyChanged" × EccsOf ar'

  abbrev pub TellsTone : AsyncResult → Type 0
  TellsTone ar' =
      IsSignal names.voicecall_manager_interface "RingBackTone"
      × Awaits ring_back_tone_ind
      × (ar'.arg2 ≡ get_int m.args)

  abbrev pub TellsSlot : AsyncResult → Type 0
  TellsSlot ar' =
      IsSignal names.manager_interface "PropertyChanged"
      × Awaits default_voicecall_slot_change_ind
      × SlotOf ar'

  property_change-Tells : Tells cb EccsOf (property_change cfg (some (watcher block cb ar m)) m)
  unfolding property_change
  property_change-Tells = elim (Bool-cases (iter_init m && is_string m.args)) [
    | inr e ↦ rw e tt
    | inl e ↦ rw e (
        or_undefined-Tells cb EccsOf _ (
          Yields-known (Tells cb EccsOf) (get_text m.args) _ λ key k.
            keyed key k (is_message cfg ar ecc_list_change_ind) (str_eq key "EmergencyNumbers") refl
              refl))
  ]
    where
      keyed :
          (key : String)
          → get_text m.args ≡ some key
          → (awaited named : Bool) → is_message cfg ar ecc_list_change_ind ≡ awaited
          → str_eq key "EmergencyNumbers" ≡ named
          → Yields (Tells cb EccsOf) (
              if awaited && named
              then (recurse (next_item m.args) >>= λ list. recurse list >>= λ entries.
                  changed_entries 0 entries >>= λ ecc_list. some (
                    told cb (record ar {
                      contents = Payload.eccs ecc_list;
                      arg2 = some (pos (length ecc_list));
                    })))
              else some (done true none))
      keyed key k true true a n =
          Yields-known (Tells cb EccsOf) (recurse (next_item m.args)) _ λ list x.
            Yields-known (Tells cb EccsOf) (recurse list) _ λ entries y.
              Yields-known (Tells cb EccsOf) (changed_entries 0 entries) _ λ l z. (
                refl,
                refl,
                refl,
                (
                  a,
                  k ∙ ap some ((eq_iff key "EmergencyNumbers").0 n),
                  (list, entries, l, x, y, z, refl, refl, changed_entries_bound entries l z),
                ),
              )
      keyed key k true false a n = tt
      keyed key k false named a n = tt

  tone_told :
      (o : Option ℤ)
      → get_int m.args ≡ o
      → Yields
          (Tells cb (λ ar'. ar'.arg2 ≡ get_int m.args))
          (o >>= λ n. some (told cb (record ar { arg2 = some n })))
  tone_told none e = tt
  tone_told (some n) e = (refl, refl, refl, sym e)

  ring_back_tone_change-Tells :
      Tells cb
        (λ ar'. ar'.arg2 ≡ get_int m.args)
        (ring_back_tone_change cfg (some (watcher block cb ar m)) m)
  unfolding ring_back_tone_change
  ring_back_tone_change-Tells = elim (Bool-cases (iter_init m && is_int32 m.args)) [
    | inr e ↦ rw e tt
    | inl e ↦ rw e (or_undefined-Tells cb _ _ (tone_told (get_int m.args) refl))
  ]

  slot_told :
      (property : String) (var : Iter)
      → get_text m.args ≡ some property
      → recurse (next_item m.args) ≡ some var
      → (b : Bool) → str_eq property "VoiceCallSlot" ≡ b
      → Yields (Tells cb SlotOf) (
          if b
          then (get_text var >>= λ slot.
              some (told cb (record ar { arg2 = some (get_slot_id cfg slot) })))
          else some (done true none))
  slot_told property var k v false e = tt
  slot_told property var k v true e = Yields-known (Tells cb SlotOf) (get_text var) _ λ slot s. (
    refl,
    refl,
    refl,
    (k ∙ ap some ((eq_iff property "VoiceCallSlot").0 e), (var, slot, v, s, refl)),
  )

  default_slot_change-Tells :
      Tells cb SlotOf (default_slot_change cfg (some (watcher block cb ar m)) m)
  unfolding default_slot_change
  default_slot_change-Tells = elim (Bool-cases (iter_init m)) [
    | inr e ↦ rw e tt
    | inl e ↦ rw e (
        or_undefined-Tells cb SlotOf _ (
          Yields-known (Tells cb SlotOf) (get_text m.args) _ λ property k.
            Yields-known (Tells cb SlotOf) (recurse (next_item m.args)) _
              λ var v. slot_told property var k v (str_eq property "VoiceCallSlot") refl))
  ]

  abbrev TellsAny : AsyncResult → Type 0
  TellsAny ar' = TellsEccs ar' ⊎ TellsTone ar' ⊎ TellsSlot ar'

  abbrev is_changed : Bool
  is_changed =
      str_eq m.interface names.voicecall_manager_interface && str_eq m.member "PropertyChanged"

  abbrev is_tone : Bool
  is_tone = str_eq m.interface names.voicecall_manager_interface && str_eq m.member "RingBackTone"

  abbrev is_manager : Bool
  is_manager = str_eq m.interface names.manager_interface && str_eq m.member "PropertyChanged"

  slot_dispatched :
      (vm slot : Bool)
      → is_manager ≡ vm
      → is_message cfg ar default_voicecall_slot_change_ind ≡ slot
      → Tells cb TellsAny (
          if vm && slot
          then default_slot_change cfg (some (watcher block cb ar m)) m
          else done true none)
  slot_dispatched true true v s =
      Tells-weaken cb SlotOf TellsAny _ (λ ar' h. inr (inr (both _ _ _ _ v, s, h)))
        default_slot_change-Tells
  slot_dispatched true false v s = tt
  slot_dispatched false slot v s = tt

  dispatched :
      (vc vr tone : Bool)
      → is_changed ≡ vc
      → is_tone ≡ vr
      → is_message cfg ar ring_back_tone_ind ≡ tone
      → Tells cb TellsAny (
          if vc
          then property_change cfg (some (watcher block cb ar m)) m
          else if vr && tone
          then ring_back_tone_change cfg (some (watcher block cb ar m)) m
          else if is_manager && is_message cfg ar default_voicecall_slot_change_ind
          then default_slot_change cfg (some (watcher block cb ar m)) m
          else done true none)
  dispatched true vr tone c r t =
      Tells-weaken cb EccsOf TellsAny _ (λ ar' h. inl (both _ _ _ _ c, h)) property_change-Tells
  dispatched false true true c r t =
      Tells-weaken cb _ TellsAny _ (λ ar' h. inr (inl (both _ _ _ _ r, t, h)))
        ring_back_tone_change-Tells
  dispatched false true false c r t =
      slot_dispatched is_manager (is_message cfg ar default_voicecall_slot_change_ind) refl refl
  dispatched false false tone c r t =
      slot_dispatched is_manager (is_message cfg ar default_voicecall_slot_change_ind) refl refl

  manager-Tells :
      Tells cb TellsAny (manager_property_changed cfg names (some (watcher block cb ar m)) m)
  unfolding manager_property_changed
  manager-Tells =
      dispatched is_changed is_tone (is_message cfg ar ring_back_tone_ind) refl refl refl

  -- A signal of the managers that is told to a client is told with the status `ok` to the client of
  -- that watch, which stays. It is one of three that the client waits for: a change of the property
  -- "EmergencyNumbers" of the voice call manager, with the list that its value is read into, at most
  -- thirty and with their number; a ring back tone, with the number of the signal; or a change of the
  -- property "VoiceCallSlot" of the manager, with the slot of the modem path that is its value.
  pub manager_property_changed-TellsAny :
      (b : Bool) (cb' : ℕ) (ar' : AsyncResult)
      → manager_property_changed cfg names (some (watcher block cb ar m)) m
        ≡ done b (some (cb', ar'))
      → (b ≡ true)
        × (cb' ≡ cb)
        × (ar'.status ≡ some ok)
        × (TellsEccs ar' ⊎ TellsTone ar' ⊎ TellsSlot ar')
  manager_property_changed-TellsAny b cb' ar' e = subst (Tells cb TellsAny) e manager-Tells
