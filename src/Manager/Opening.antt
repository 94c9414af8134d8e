-- ===== src/Manager/Opening.antt =====
-- tapi_manager.c: how tapi_open connects, and what it leaves behind when it fails.
use frameworks_connectivity.Common.{
  ℕ, zero, suc, ◌+◌, ◌≤◌, ◌<◌, ◌≡◌, refl, sym, ◌∙◌, ap, ◌⊎◌, inl, inr, true, false, ltb, ◌&&◌,
  Bool-cases, arith,
}
use frameworks_connectivity.Manager.Proxies.{Gdbus, Session}
use frameworks_connectivity.Manager.Session.{
  Attempt, unfinished, gave_up, client_made, connect, connected, max_dbus_init_retry_count,
}

-- The tries of the loop from `s` to `s'`, with at most `left` of them: it stops at the first
-- connection that is made, or when no try is left, and pauses between two tries only.
pub record Tried (g : Gdbus) (left : ℕ) (s s' : Session) : Type 0 where
  pub last : ℕ
  pub counted : s'.tries ≡ suc last
  pub begun : s.tries ≤ last
  pub bounded : suc last ≤ s.tries + left
  pub answered : g.connections last ≡ s'.connected
  pub earlier : (u : ℕ) → s.tries ≤ u → u < last → g.connections u ≡ false
  pub spent : s'.connected ≡ false → s'.tries ≡ s.tries + left
  pub paused : s'.sleeps + suc s.tries ≡ s.sleeps + s'.tries
  pub world : s'.world ≡ s.world
  pub references : s'.references ≡ s.references
  pub bad_unref : s'.bad_unref ≡ s.bad_unref

-- The loop has ended, and not for want of fuel; a client comes with its connection.
abbrev pub Ends : Gdbus → ℕ → Session → Attempt → Type 0
Ends g left s unfinished = ⊥
Ends g left s (gave_up s') = Tried g left s s' × (s'.has_client ≡ s.has_client)
Ends g left s (client_made s') = Tried g left s s' × (s'.connected ≡ true) × (s'.has_client ≡ true)

module _ (g : Gdbus) where
  -- The try succeeds.
  first_try :
      (left : ℕ) (s s' : Session)
      → g.connections s.tries ≡ true
      → s' ≡ record s { tries = suc s.tries; connected = true; has_client = s'.has_client }
      → Tried g (suc left) s s'
  first_try left s s' h e = record {
    last = s.tries;
    counted = ap Session.tries e;
    begun = omega arith;
    bounded = omega arith;
    answered = h ∙ sym (ap Session.connected e);
    earlier = λ u le lt. absurd (omega arith);
    spent = λ no. absurd (ground (arith, ap Session.connected e));
    paused = omega (arith, ap Session.sleeps e, ap Session.tries e);
    world = ap Session.world e;
    references = ap Session.references e;
    bad_unref = ap Session.bad_unref e;
  }

  -- The last try fails.
  last_try :
      (s : Session)
      → g.connections s.tries ≡ false
      → s.connected ≡ false
      → Tried g 1 s (record s { tries = suc s.tries })
  last_try s h c = record {
    last = s.tries;
    counted = refl;
    begun = omega arith;
    bounded = omega arith;
    answered = h ∙ sym c;
    earlier = λ u le lt. absurd (omega arith);
    spent = λ no. omega arith;
    paused = refl;
    world = refl;
    references = refl;
    bad_unref = refl;
  }

  abbrev paused_from : Session → Session
  paused_from s = record s { tries = suc s.tries; sleeps = suc s.sleeps }

  eq_or_later : (i j : ℕ) → i ≤ j → (i ≡ j) ⊎ (suc i ≤ j)
  eq_or_later i j h = ground arith

  later_try :
      (left : ℕ) (s s' : Session)
      → g.connections s.tries ≡ false
      → Tried g left (paused_from s) s'
      → Tried g (suc left) s s'
  later_try left s s' h t = record {
    last = t.last;
    counted = t.counted;
    begun = omega (arith, t.begun);
    bounded = omega (arith, t.bounded);
    answered = t.answered;
    earlier = λ u le lt. elim (eq_or_later s.tries u le) [
      | inl same ↦ rw (← same) h
      | inr later ↦ t.earlier u later lt
    ];
    spent = λ no. omega (arith, t.spent no);
    paused = omega (arith, t.paused);
    world = t.world;
    references = t.references;
    bad_unref = t.bad_unref;
  }

  later_end :
      (left : ℕ) (s : Session) (a : Attempt)
      → g.connections s.tries ≡ false
      → Ends g left (paused_from s) a
      → Ends g (suc left) s a
  later_end left s unfinished h t = t
  later_end left s (gave_up s') h t = (later_try left s s' h t.0, t.1)
  later_end left s (client_made s') h t = (later_try left s s' h t.0, t.1, t.2)

  connected-Ends :
      (left : ℕ) (s : Session)
      → g.connections s.tries ≡ true
      → Ends g (suc left) s (connected g (record s { tries = suc s.tries }))
  connected-Ends left s h = elim (Bool-cases (g.grants_name && g.gives_client)) [
    | inl e ↦ rw e (first_try left s _ h refl, refl, refl)
    | inr e ↦ rw e (first_try left s _ h refl, refl)
  ]

  connect_rounds :
      (fuel retry_round : ℕ) (s : Session)
      → suc fuel + retry_round ≡ suc max_dbus_init_retry_count
      → s.connected ≡ false
      → Ends g (suc fuel) s (connect g (suc fuel) retry_round s)
  unfolding connect
  connect_rounds zero r s e c = elim (Bool-cases (g.connections s.tries)) [
    | inl h ↦ rw h (connected-Ends 0 s h)
    | inr h ↦
        let full : r ≡ max_dbus_init_retry_count = omega arith in
        rw (h, full) (last_try s h c, refl)
  ]
  connect_rounds (suc fuel) r s e c = elim (Bool-cases (g.connections s.tries)) [
    | inl h ↦ rw h (connected-Ends (suc fuel) s h)
    | inr h ↦
        let more : ltb r max_dbus_init_retry_count ≡ true = ground arith in
        rw (h, more)
          (later_end (suc fuel) s _ h (connect_rounds fuel (suc r) (paused_from s) (omega arith) c))
  ]

  -- The loop of `tapi_open` ends after at most seven tries: the fuel is enough. It stops at the first
  -- connection that gdbus gives, or after the seventh try, has paused exactly once between each two
  -- tries, and reports a client only with its connection. The heap and the references to proxies
  -- are as they were.
  pub connect-Ends :
      (s : Session)
      → s.connected ≡ false
      → Ends g (suc max_dbus_init_retry_count) s (connect g (suc max_dbus_init_retry_count) 0 s)
  connect-Ends s c = connect_rounds max_dbus_init_retry_count 0 s refl c
