-- ===== src/Bus/Steps.antt =====
-- Each step of a request, at the answer that it gets.
use frameworks_connectivity.Common.{ℕ, suc, ◌≡◌, refl, true, false, String, List, [], ◌∷◌}
use frameworks_connectivity.Records.{einval, enomem, Code, ret, fail}
use frameworks_connectivity.Bus.Monad.{
  World, Arg, written, write_property, go, stop, crash, M, ◌>>=◌, sent, refused_early, refused_late,
  malloc, Setup, ReplyFunction, UserData, method_call, or_fail, returns,
}

-- The steps at the answers that they get.
pub bind_go :
    {A B : Type 0} (m : M A) (f : A → M B) (w w' : World) (a : A)
    → m w ≡ go a w'
    → (m >>= f) w ≡ f a w'
unfolding ◌>>=◌
bind_go m f w w' a e = rw (e, ◌>>=◌)

pub bind_stop :
    {A B : Type 0} (m : M A) (f : A → M B) (w w' : World) (c : Code)
    → m w ≡ stop c w'
    → (m >>= f) w ≡ stop c w'
unfolding ◌>>=◌
bind_stop m f w w' c e = rw (e, ◌>>=◌)

pub bind_crash :
    {A B : Type 0} (m : M A) (f : A → M B) (w : World) → m w ≡ crash → (m >>= f) w ≡ crash
unfolding ◌>>=◌
bind_crash m f w e = rw (e, ◌>>=◌)

pub malloc_given :
    (cleanup : World → World) (w : World)
    → w.mallocs w.next ≡ true
    → malloc cleanup w ≡ go w.next (record w { next = suc w.next; live = w.next ∷ w.live })
unfolding malloc
malloc_given cleanup w e = rw (e, malloc)

pub malloc_refused :
    (cleanup : World → World) (w : World)
    → w.mallocs w.next ≡ false
    → malloc cleanup w ≡ stop (fail enomem) (cleanup (record w { next = suc w.next }))
unfolding malloc
malloc_refused cleanup w e = rw (e, malloc)

module _ (cleanup : M (Unit {0})) (w : World) where
  pub or_fail_go :
      (w' : World) → cleanup w ≡ go tt w' → or_fail false cleanup w ≡ stop (fail einval) w'
  unfolding or_fail
  or_fail_go w' e = rw (e, or_fail)

  pub or_fail_crash : cleanup w ≡ crash → or_fail false cleanup w ≡ crash
  unfolding or_fail
  or_fail_crash e = rw (e, or_fail)

pub sent_returns :
    (cleanup : M (Unit {0})) (w : World)
    → ◌>>=◌ {B = Code} (or_fail true cleanup) (λ _. returns {A = Code} (ret 0)) w ≡ stop (ret 0) w
unfolding ◌>>=◌ or_fail returns
sent_returns cleanup w = refl

module _ (proxy : ℕ) (member : String) (setup : Setup) (reply : ReplyFunction) (data_ : UserData)
    (w : World) where
  unfoldable pub setup_done : List Arg × World
  setup_done = setup (record w { next = suc w.next })

  pub method_call_sent :
      w.outcomes w.next ≡ sent
      → method_call proxy member setup reply data_ w
        ≡ go true (record setup_done.1 {
          pending =
              record {
                proxy = proxy;
                member = member;
                args = setup_done.0;
                reply = reply;
                user_data = data_;
              }
              ∷ setup_done.1.pending;
        })
  unfolding method_call setup_done
  method_call_sent e = rw (e, method_call)

  pub method_call_early :
      w.outcomes w.next ≡ refused_early
      → method_call proxy member setup reply data_ w ≡ go false (record w { next = suc w.next })
  unfolding method_call
  method_call_early e = rw (e, method_call)

  pub method_call_late :
      w.outcomes w.next ≡ refused_late
      → method_call proxy member setup reply data_ w ≡ go false setup_done.1
  unfolding method_call setup_done
  method_call_late e = rw (e, method_call)

module _ (proxy : ℕ) (name : String) (value : Arg) (reply : ReplyFunction) (data_ : UserData)
    (w : World) where
  pub write_sent :
      w.writes w.next ≡ true
      → write_property proxy name value reply data_ w
        ≡ go true (record w {
          next = suc w.next;
          pending =
              record {
                proxy = proxy;
                member = name;
                args = written value ∷ [];
                reply = reply;
                user_data = data_;
              }
              ∷ w.pending;
        })
  unfolding write_property
  write_sent e = rw (e, write_property) refl

  pub write_refused :
      w.writes w.next ≡ false
      → write_property proxy name value reply data_ w ≡ go false (record w { next = suc w.next })
  unfolding write_property
  write_refused e = rw (e, write_property) refl
