-- ===== src/Verifier/Cache/Threads/SingleFlight.antt =====
-- At most one thread fetches the key document at a time.
use mcp_auth_gateway.Prelude.{
  ℕ, ◌≡◌, refl, sym, ap, ◌∙◌, arith, Str, Bool, true, false, not, ◌&&◌, Option, none, some, List,
  Bool-cases, inl, inr, lookup,
}
use mcp_auth_gateway.Verifier.Cache.{
  Timing, Cache, KeyError, may_refresh, enter_loop, enter_with, enter, wake_with, wake, finish,
  fetch_error, ready_enter,
}
use mcp_auth_gateway.Verifier.Cache.Threads.{
  Thread, outside, is_fetching, System, set_thread, after, after_fetch, after_ready, Step, resolve,
  resume, complete, look, ask_ready, complete_ready, Reach, here, next,
}

-- The flag is set exactly while one thread fetches.
pub record IsSingle (refreshing : Bool) (threads : ℕ → Thread) : Type 0 where
  pub idle : refreshing ≡ false → (j : ℕ) → is_fetching (threads j) ≡ false
  pub busy :
      refreshing ≡ true
      → (i : ℕ) × (is_fetching (threads i) ≡ true)
        × ((j : ℕ) → is_fetching (threads j) ≡ true → j ≡ i)

-- A section that begins a fetch exactly if it sets the flag, and never clears it.
pub record Begins (before after' : Bool) (t : Thread) : Type 0 where
  pub flag : is_fetching t ≡ (after' && not before)
  pub up : before ≡ true → after' ≡ true

IsSingle-Begins :
    (b b' : Bool) (ts : ℕ → Thread) (i : ℕ) (t : Thread)
    → is_fetching (ts i) ≡ false
    → Begins b b' t
    → IsSingle b ts
    → IsSingle b' (set_thread ts i t)
IsSingle-Begins false false ts i t q e h = record {
  idle = λ r j. ground (arith, e.flag, h.idle refl j);
  busy = λ r. cc;
}
IsSingle-Begins false true ts i t q e h = record {
  idle = λ r j. cc;
  busy = λ r. (i, ground (arith, e.flag), λ j f. ground (arith, e.flag, h.idle refl j));
}
IsSingle-Begins true true ts i t q e h = record {
  idle = λ r j. cc;
  busy = λ r.
      let (k, f, only) = h.busy refl in (k, ground arith, λ j g. ground (arith, e.flag, only j));
}
IsSingle-Begins true false ts i t q e h = cc (e.up refl)

-- The fetching thread clears the flag and is outside the fetch.
IsSingle-ends :
    (b : Bool) (ts : ℕ → Thread) (i : ℕ) (t : Thread)
    → is_fetching (ts i) ≡ true
    → is_fetching t ≡ false
    → IsSingle b ts
    → IsSingle false (set_thread ts i t)
IsSingle-ends false ts i t q e h = cc (h.idle refl i)
IsSingle-ends true ts i t q e h =
    let (k, f, only) = h.busy refl in
    record { idle = λ r j. ground (arith, only i q, only j); busy = λ r. cc }

after_fetch_ends : (kid : Str) (e : Option KeyError) → is_fetching (after_fetch kid e) ≡ false
after_fetch_ends kid none = refl
after_fetch_ends kid (some e) = refl

module _ {K : Type 0} (c : Timing) where
  may_refresh-Begins :
      (kid : Str) (key : Option K) (now : ℕ) (s : Cache K)
      → s.refreshing ≡ false
      → Begins s.refreshing
          (may_refresh c key now s).0.refreshing
          (after kid (may_refresh c key now s).1)
  unfolding may_refresh
  may_refresh-Begins kid none now s q = record { flag = ground arith; up = ground arith }
  may_refresh-Begins kid (some k) now s q = record { flag = ground arith; up = ground arith }

  enter_loop-Begins :
      (kid : Str) (key : Option K) (now : ℕ) (s : Cache K)
      → Begins s.refreshing
          (enter_loop c key now s).0.refreshing
          (after kid (enter_loop c key now s).1)
  unfolding enter_loop
  enter_loop-Begins kid none now s = record { flag = ground arith; up = ground arith }
  enter_loop-Begins kid (some k) now s = record { flag = ground arith; up = ground arith }

  enter_with-Begins :
      (kid : Str) (key : Option K) (now now' : ℕ) (s : Cache K)
      → Begins s.refreshing
          (enter_with c key now now' s).0.refreshing
          (after kid (enter_with c key now now' s).1)
  unfolding enter_with
  enter_with-Begins kid none now now' s = enter_loop-Begins kid none now' s
  enter_with-Begins kid (some k) now now' s = record { flag = ground arith; up = ground arith }

  pub enter-Begins :
      (kid : Str) (now now' : ℕ) (s : Cache K)
      → Begins s.refreshing
          (enter c kid now now' s).0.refreshing
          (after kid (enter c kid now now' s).1)
  unfolding enter
  enter-Begins kid now now' s = enter_with-Begins kid (lookup kid s.keys) now now' s

  wake_with-Begins :
      (kid : Str) (key : Option K) (now : ℕ) (s : Cache K)
      → Begins s.refreshing
          (wake_with c key now s).0.refreshing
          (after kid (wake_with c key now s).1)
  unfolding wake_with
  wake_with-Begins kid none now s = record { flag = ground arith; up = ground arith }
  wake_with-Begins kid (some k) now s = record { flag = ground arith; up = ground arith }

  pub wake-Begins :
      (kid : Str) (signalled : Bool) (now : ℕ) (s : Cache K)
      → Begins s.refreshing
          (wake c kid signalled now s).0.refreshing
          (after kid (wake c kid signalled now s).1)
  unfolding wake
  wake-Begins kid true now s = wake_with-Begins kid (lookup kid s.keys) now s
  wake-Begins kid false now s = record { flag = ground arith; up = ground arith }

  pub ready_enter-Begins :
      (now : ℕ) (s : Cache K)
      → Begins s.refreshing (ready_enter c now s).0.refreshing (after_ready (ready_enter c now s).1)
  unfolding ready_enter
  ready_enter-Begins now s = record { flag = ground arith; up = ground arith }

  pub finish_clears :
      (new_keys : Option (List (Str × K))) (now : ℕ) (s : Cache K)
      → (finish new_keys now s).refreshing ≡ false
  unfolding finish
  finish_clears none now s = refl
  finish_clears (some ks) now s = refl

  -- Every section of every thread keeps the invariant.
  Step-IsSingle :
      {s u : System K}
      → Step c s u
      → IsSingle s.cache.refreshing s.threads
      → IsSingle u.cache.refreshing u.threads
  Step-IsSingle {s} (resolve i kid now now' at _ _ e) h =
      rw e (
        IsSingle-Begins _ _ s.threads i _ (ap is_fetching at) (enter-Begins kid now now' s.cache) h)
  Step-IsSingle {s} (resume i kid signalled now at _ e) h = rw e (
      IsSingle-Begins _ _ s.threads i _ (ap is_fetching at) (wake-Begins kid signalled now s.cache)
        h)
  Step-IsSingle {s} (complete i kid new_keys now at _ e) h = rw e (
      rw (finish_clears new_keys now s.cache) (
        IsSingle-ends _ s.threads i _ (ap is_fetching at)
          (after_fetch_ends kid (fetch_error new_keys)) h))
  Step-IsSingle {s} (look i kid now at _ e) h = rw e (
      IsSingle-Begins s.cache.refreshing s.cache.refreshing s.threads i outside (ap is_fetching at)
        (record { flag = ground arith; up = λ p. p }) h)
  Step-IsSingle {s} (ask_ready i now at _ e) h =
      rw e
        (IsSingle-Begins _ _ s.threads i _ (ap is_fetching at) (ready_enter-Begins now s.cache) h)
  Step-IsSingle {s} (complete_ready i new_keys now at _ e) h = rw e (
      rw (finish_clears new_keys now s.cache)
        (IsSingle-ends _ s.threads i outside (ap is_fetching at) refl h))

  pub Reach-IsSingle :
      {t0 : ℕ} {s : System K} → Reach c t0 s → IsSingle s.cache.refreshing s.threads
  Reach-IsSingle here = record { idle = λ r j. refl; busy = λ r. cc }
  Reach-IsSingle (next r st) = Step-IsSingle st (Reach-IsSingle r)

  -- Whatever the threads do and however the network answers, two threads that are fetching the key
  -- document, for a token or for the readiness test, are the same thread.
  pub single_flight :
      {t0 : ℕ} {s : System K} (i j : ℕ)
      → Reach c t0 s
      → is_fetching (s.threads i) ≡ true
      → is_fetching (s.threads j) ≡ true
      → i ≡ j
  single_flight {s = s} i j r f g = elim (Bool-cases s.cache.refreshing) [
    | inl b ↦ let (k, _, only) = (Reach-IsSingle r).busy b in only i f ∙ sym (only j g)
    | inr b ↦ cc ((Reach-IsSingle r).idle b i)
  ]
