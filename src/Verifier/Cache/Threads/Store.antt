-- ===== src/Verifier/Cache/Threads/Store.antt =====
-- src/mcp_gateway/verifier.py: what the key cache promises, a store of the key document that was read
-- last, from which keys are served; and what a section of a thread is, seen so.
use mcp_auth_gateway.Prelude.{
  is_empty, if◌then◌else◌, ℕ, ◌≡◌, refl, arith, Str, Bool, true, false, Option, none, some, List,
  lookup, choose,
}
use mcp_auth_gateway.Verifier.Cache.{
  Timing, Cache, Next, found, wait, fetch, fail, is_fresh, may_refresh, enter_loop, enter_with,
  enter, wake_with, wake, finish, stale_or_fail, look_again, ready_enter,
}
use mcp_auth_gateway.Verifier.Cache.Threads.{
  System, Step, resolve, resume, complete, look, ask_ready, complete_ready,
}

-- The document that was read last, when a fetch ended last, and when one gave a document with keys.
pub record Store (K : Type 0) : Type 0 where
  pub document : List (Str × K)
  pub checked : Option ℕ
  pub supplied : Option ℕ

-- What a section lets others see: a key that it returns for an id, or the end of a fetch with its
-- answer, or nothing.
pub data Event (K : Type 0) : Type 0 where
  quiet : Event K
  served : Str → K → Event K
  fetched : Option (List (Str × K)) → ℕ → Event K

module _ {K : Type 0} where
  abbrev pub document_after : Option (List (Str × K)) → List (Str × K) → List (Str × K)
  document_after none old = old
  document_after (some new) old = new

  abbrev pub supplied_after : Option (List (Str × K)) → ℕ → Option ℕ → Option ℕ
  supplied_after none now old = old
  supplied_after (some new) now old = if is_empty new then old else some now

  -- The store's own steps.
  pub data Move : Event K → Store K → Store K → Type 0 where
    stand : {d e : Store K} → e ≡ d → Move quiet d e
    serve :
        {d e : Store K} {kid : Str} {k : K}
        → lookup kid d.document ≡ some k
        → e ≡ d
        → Move (served kid k) d e
    install :
        {d e : Store K} {answer : Option (List (Str × K))} {now : ℕ}
        → e ≡ record {
          document = document_after answer d.document;
          checked = some now;
          supplied = supplied_after answer now d.supplied;
        }
        → Move (fetched answer now) d e

  abbrev pub view : Cache K → Store K
  view s = record { document = s.keys; checked = s.last_fetch; supplied = s.last_success }

  abbrev pub next_event : Str → Next K → Event K
  next_event kid (found k) = served kid k
  next_event kid wait = quiet
  next_event kid fetch = quiet
  next_event kid (fail _) = quiet

  unfoldable pub event : {c : Timing} {s u : System K} → Step c s u → Event K
  event {c} {s} (resolve i kid now now' _ _ _ _) = next_event kid (enter c kid now now' s.cache).1
  event {c} {s} (resume i kid signalled now _ _ _) =
      next_event kid (wake c kid signalled now s.cache).1
  event (complete i kid answer now _ _ _) = fetched answer now
  event {c} {s} (look i kid now _ _ _) = next_event kid (look_again kid s.cache)
  event (ask_ready i now _ _ _) = quiet
  event (complete_ready i answer now _ _ _) = fetched answer now

  -- A section that reads `key` from the store, and leaves the store as it is.
  record Reads (key : Option K) (s : Cache K) (r : Cache K × Next K) : Type 0 where
    same : view r.0 ≡ view s
    read : (k : K) → r.1 ≡ found k → key ≡ some k

  may_refresh-Reads :
      (c : Timing) (key : Option K) (now : ℕ) (s : Cache K) → Reads key s (may_refresh c key now s)
  unfolding may_refresh
  may_refresh-Reads c none now s = record { same = ground arith; read = λ k e. ground arith }
  may_refresh-Reads c (some k) now s = record { same = ground arith; read = λ k e. ground arith }

  enter_loop-Reads :
      (c : Timing) (key : Option K) (now : ℕ) (s : Cache K) → Reads key s (enter_loop c key now s)
  unfolding enter_loop
  enter_loop-Reads c none now s =
      choose (Reads none s) s.refreshing _ _ (λ b. record { same = refl; read = λ k e. cc })
        (λ b. may_refresh-Reads c none now s)
  enter_loop-Reads c (some k) now s =
      choose (Reads (some k) s) s.refreshing _ _
        (λ b. record { same = refl; read = λ k e. ground arith })
        (λ b. may_refresh-Reads c (some k) now s)

  enter_with-Reads :
      (c : Timing) (key : Option K) (now now' : ℕ) (s : Cache K)
      → Reads key s (enter_with c key now now' s)
  unfolding enter_with
  enter_with-Reads c none now now' s = enter_loop-Reads c none now' s
  enter_with-Reads c (some k) now now' s =
      choose (Reads (some k) s) (is_fresh c now s) _ _
        (λ b. record { same = refl; read = λ k e. ground arith })
        (λ b. enter_loop-Reads c (some k) now' s)

  enter-Reads :
      (c : Timing) (kid : Str) (now now' : ℕ) (s : Cache K)
      → Reads (lookup kid s.keys) s (enter c kid now now' s)
  unfolding enter
  enter-Reads c kid now now' s = enter_with-Reads c (lookup kid s.keys) now now' s

  wake_with-Reads :
      (c : Timing) (key : Option K) (now : ℕ) (s : Cache K) → Reads key s (wake_with c key now s)
  unfolding wake_with
  wake_with-Reads c none now s =
      choose (Reads none s) s.refreshing _ _ (λ b. record { same = refl; read = λ k e. cc })
        (λ b. may_refresh-Reads c none now s)
  wake_with-Reads c (some k) now s = record { same = refl; read = λ k e. ground arith }

  wake-Reads :
      (c : Timing) (kid : Str) (signalled : Bool) (now : ℕ) (s : Cache K)
      → Reads (lookup kid s.keys) s (wake c kid signalled now s)
  unfolding wake
  wake-Reads c kid true now s = wake_with-Reads c (lookup kid s.keys) now s
  wake-Reads c kid false now s = record { same = refl; read = λ k e. cc }

  stale-Reads : (key : Option K) (s : Cache K) → Reads key s (s, stale_or_fail key)
  stale-Reads none s = record { same = refl; read = λ k e. cc }
  stale-Reads (some k) s = record { same = refl; read = λ k e. ground arith }

  look_again-Reads : (kid : Str) (s : Cache K) → Reads (lookup kid s.keys) s (s, look_again kid s)
  unfolding look_again
  look_again-Reads kid s = stale-Reads (lookup kid s.keys) s

  ready_enter-same : (c : Timing) (now : ℕ) (s : Cache K) → view (ready_enter c now s).0 ≡ view s
  unfolding ready_enter
  ready_enter-same c now s = ground arith

  finish-view :
      (answer : Option (List (Str × K))) (now : ℕ) (s : Cache K)
      → view (finish answer now s) ≡ record {
        document = document_after answer s.keys;
        checked = some now;
        supplied = supplied_after answer now s.last_success;
      }
  unfolding finish
  finish-view none now s = refl
  finish-view (some new) now s = refl

  -- A section that reads the store is a step of the store.
  Reads-Move :
      (kid : Str) (s : Cache K) (r : Cache K × Next K)
      → Reads (lookup kid s.keys) s r
      → Move (next_event kid r.1) (view s) (view r.0)
  Reads-Move kid s (s', found k) h = Move.serve (h.read k refl) h.same
  Reads-Move kid s (s', wait) h = Move.stand h.same
  Reads-Move kid s (s', fetch) h = Move.stand h.same
  Reads-Move kid s (s', fail e) h = Move.stand h.same

  -- Every section of every thread is a step of the store, with what the section lets others see: a key
  -- that it returns is that of the store's document under the id that was asked for, the end of a fetch
  -- that gave a document installs it, and nothing else changes the store.
  pub Step-Move :
      {c : Timing} {s u : System K} (st : Step c s u)
      → Move (event st) (view s.cache) (view u.cache)
  unfolding event
  Step-Move {c} {s} (resolve i kid now now' at _ _ e) =
      rw e
        (Reads-Move kid s.cache (enter c kid now now' s.cache) (enter-Reads c kid now now' s.cache))
  Step-Move {c} {s} (resume i kid signalled now at _ e) = rw e (
      Reads-Move kid s.cache (wake c kid signalled now s.cache)
        (wake-Reads c kid signalled now s.cache))
  Step-Move {c} {s} (complete i kid answer now at _ e) =
      rw e (Move.install (finish-view answer now s.cache))
  Step-Move {c} {s} (look i kid now at _ e) =
      rw e (Reads-Move kid s.cache (s.cache, look_again kid s.cache) (look_again-Reads kid s.cache))
  Step-Move {c} {s} (ask_ready i now at _ e) = rw e (Move.stand (ready_enter-same c now s.cache))
  Step-Move {c} {s} (complete_ready i answer now at _ e) =
      rw e (Move.install (finish-view answer now s.cache))
