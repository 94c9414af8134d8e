-- ===== src/Manager/Failing.antt =====
-- tapi_manager.c: what tapi_open leaves behind when it returns a null pointer.
use frameworks_connectivity.Common.{
  ℕ, suc, ◌≡◌, refl, ◌∙◌, ap, subst, inl, inr, Bool, true, false, Bool-cases, ◌∷◌, Option, none,
  some, if◌then◌else◌, arith,
}
use frameworks_connectivity.Records.{Code}
use frameworks_connectivity.Bus.Monad.{World, Step, go, stop, crash, free}
use frameworks_connectivity.Bus.Heap.{remove-first}
use frameworks_connectivity.Bus.Held.{free_live}
use frameworks_connectivity.Manager.Proxies.{Setting, Gdbus, Session}
use frameworks_connectivity.Manager.Session.{
  Attempt, unfinished, gave_up, client_made, max_dbus_init_retry_count, allocate, abort, free_in,
  Opened, undefined, null, opened, after_enabling, prepare, start, finish, open_context,
}
use frameworks_connectivity.Manager.Opening.{Ends, connect-Ends, Tried}

-- The session is as before: nothing is held, and nothing was freed that was not held.
pub record IsLeft (s s' : Session) : Type 0 where
  pub live : s'.world.live ≡ s.world.live
  pub bad_free : s'.world.bad_free ≡ s.world.bad_free
  pub pending : s'.world.pending ≡ s.world.pending
  pub references : s'.references ≡ s.references
  pub bad_unref : s'.bad_unref ≡ s.bad_unref
  pub disconnected : s'.connected ≡ false
  pub no_client : s'.has_client ≡ false

-- A failed opening; any other result says nothing.
abbrev Left : Session → Opened → Type 0
Left s undefined = Unit
Left s (null s') = IsLeft s s'
Left s (opened ctx s') = Unit

Left-if :
    (s : Session) (b : Bool) (x y : Opened) → Left s x → Left s y → Left s (if b then x else y)
Left-if s true x y h k = h
Left-if s false x y h k = k

freed_both :
    (n : ℕ) (w w' : World)
    → w' ≡ record w { next = suc (suc n); live = suc n ∷ n ∷ w.live }
    → free (suc n) (free n w') ≡ record w { next = suc (suc n) }
freed_both n w w' e =
    rw
      (
        e,
        free_live n (record w { next = suc (suc n); live = suc n ∷ n ∷ w.live }) (suc n ∷ w.live)
            (ground arith),
      )
      (free_live (suc n) (record w { next = suc (suc n); live = suc n ∷ w.live }) w.live
        (remove-first (suc n) w.live))

module _ (s : Session) where
  given :
      s.world.mallocs s.world.next ≡ true
      → allocate s ≡ (
        some s.world.next,
        record s {
          world = record s.world { next = suc s.world.next; live = s.world.next ∷ s.world.live };
        },
      )
  unfolding allocate
  given h = rw (allocate, h) refl

  refused :
      s.world.mallocs s.world.next ≡ false
      → allocate s ≡ (none, record s { world = record s.world { next = suc s.world.next } })
  unfolding allocate
  refused h = rw (allocate, h) refl

module _ (g : Gdbus) (e : Setting) (abnormal_event : Bool)
    (client_name callback user_data : Option ℕ) (s : Session) where
  abbrev taken : Session
  taken = record s {
    world = record s.world {
      next = suc (suc s.world.next);
      live = suc s.world.next ∷ s.world.next ∷ s.world.live;
    };
  }

  abbrev one : Session
  one = record s {
    world = record s.world { next = suc s.world.next; live = s.world.next ∷ s.world.live };
  }

  aborted :
      (a : Session)
      → Tried g (suc max_dbus_init_retry_count) taken a
      → a.has_client ≡ false
      → IsLeft s (abort s.world.next (suc s.world.next) a)
  aborted a t c =
      let gone = freed_both s.world.next s.world a.world t.world in
      record {
        live = ap World.live gone;
        bad_free = ap World.bad_free gone;
        pending = ap World.pending gone;
        references = t.references;
        bad_unref = t.bad_unref;
        disconnected = refl;
        no_client = c;
      }

  start-Left : (ctx : ℕ) (a : Session) → Left s (start g e abnormal_event ctx a)
  unfolding start
  start-Left ctx a = after (prepare g e abnormal_event a) _
    where
      after : (a : Session) (r : Step Code) → Left s (after_enabling ctx a r)
      after a (go c w) = tt
      after a (stop c w) = tt
      after a crash = tt

  finish-Left :
      (a : Attempt)
      → s.has_client ≡ false
      → Ends g (suc max_dbus_init_retry_count) taken a
      → Left s (
          finish g e abnormal_event client_name callback user_data s.world.next
            (suc s.world.next)
            a)
  unfolding finish
  finish-Left unfinished c t = absurd t
  finish-Left (gave_up a) c t = aborted a t.0 (t.1 ∙ c)
  finish-Left (client_made a) c t =
      Left-if s g.sets_ready_watch _ _
        (start-Left s.world.next (record a {
          ready = some (record {
            block = suc s.world.next;
            client_name = client_name;
            user_data = user_data;
            callback = callback;
          });
        }))
        (aborted (record a { has_client = false })
          (record {
            last = t.0.last;
            counted = t.0.counted;
            begun = t.0.begun;
            bounded = t.0.bounded;
            answered = t.0.answered;
            earlier = t.0.earlier;
            spent = t.0.spent;
            paused = t.0.paused;
            world = t.0.world;
            references = t.0.references;
            bad_unref = t.0.bad_unref;
          })
          refl)

  -- The context is freed where there is no memory for what follows.
  undone :
      s.connected ≡ false
      → s.has_client ≡ false
      → IsLeft s (
          free_in s.world.next
            (record one { world = record one.world { next = suc (suc s.world.next) } }))
  undone d c =
      let gone =
        free_live s.world.next (record one.world { next = suc (suc s.world.next) }) s.world.live
          (remove-first s.world.next s.world.live) in
      record {
        live = ap World.live gone;
        bad_free = ap World.bad_free gone;
        pending = ap World.pending gone;
        references = refl;
        bad_unref = refl;
        disconnected = d;
        no_client = c;
      }

  every-Left :
      s.connected ≡ false
      → s.has_client ≡ false
      → Left s (open_context g e abnormal_event client_name callback user_data s)
  unfolding open_context allocate
  every-Left d c = elim (Bool-cases (s.world.mallocs s.world.next)) [
    | inr h ↦
        rw (open_context, refused s h)
          (record {
            live = refl;
            bad_free = refl;
            pending = refl;
            references = refl;
            bad_unref = refl;
            disconnected = d;
            no_client = c;
          })
    | inl h ↦ elim (Bool-cases (s.world.mallocs (suc s.world.next))) [
      | inl k ↦
          rw (open_context, given s h) (rw (given one k) (finish-Left _ c (connect-Ends g taken d)))
      | inr k ↦ rw (open_context, given s h) (rw (refused one k) (undone d c))
    ]
  ]

  -- When `tapi_open` returns a null pointer to a client that has no connection, it leaves nothing
  -- behind: both blocks that it may have allocated are freed, and no other; no call is pending; the
  -- connection is closed and the gdbus client is given back; no reference to a proxy is held.
  pub open_context-IsLeft :
      (s' : Session)
      → s.connected ≡ false
      → s.has_client ≡ false
      → open_context g e abnormal_event client_name callback user_data s ≡ null s'
      → IsLeft s s'
  open_context-IsLeft s' d c o = subst (Left s) o (every-Left d c)
