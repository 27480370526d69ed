-- ===== src/Verifier/Cache.antt =====
-- src/mcp_gateway/verifier.py, the key cache of `JwksVerifier`: `ready` and `_resolve_key`, section by
-- section of the lock. `K` is a signing key; what a refresh gives is an argument (Verifier.Keys).
-- Times are ticks of `time.monotonic()`, and so are the two intervals of `Timing`.
pub mod Threads
use mcp_auth_gateway.Prelude.{
  ℕ, ◌-◌, Str, Bool, true, false, ◌&&◌, ◌||◌, not, Option, none, some, List, [], ◌∷◌, codes,
  is_empty, is_some, ltb, leb, ◌==◌, lookup, if◌then◌else◌,
}

pub record Timing : Type 0 where
  pub ttl : ℕ
  pub min_refresh_interval : ℕ

-- `none` for a time is `-inf`.
pub record Cache (K : Type 0) : Type 0 where
  pub keys : List (Str × K)
  pub refreshing : Bool
  pub last_fetch : Option ℕ
  pub last_success : Option ℕ

abbrev pub empty_cache : {K : Type 0} → Cache K
empty_cache = record { keys = []; refreshing = false; last_fetch = none; last_success = none }

-- the `TokenError`s of key resolution, by their messages
pub data KeyError : Type 0 where
  refresh_timed_out no_matching_key retrieval_failed no_usable_keys : KeyError

-- `now - last <= limit` and the like, where `-inf` is infinitely long ago
abbrev pub within : ℕ → Option ℕ → ℕ → Bool
within now none limit = false
within now (some last) limit = leb (now - last) limit

abbrev pub elapsed : ℕ → Option ℕ → ℕ → Bool
elapsed now none interval = true
elapsed now (some last) interval = leb interval (now - last)

-- `ttl_expired` at the second test
abbrev pub ttl_expired : Timing → ℕ → Option ℕ → Bool
ttl_expired c now none = false
ttl_expired c now (some last) = c.ttl == 0 || ltb c.ttl (now - last)

-- What a thread does when it leaves the lock.
pub data Next (K : Type 0) : Type 0 where
  found : K → Next K
  wait : Next K
  fetch : Next K
  fail : KeyError → Next K

module _ {K : Type 0} where
  abbrev start_refresh : Cache K → Cache K
  start_refresh s = record s { refreshing = true }

  abbrev stale_or_fail : Option K → Next K
  stale_or_fail none = fail no_matching_key
  stale_or_fail (some k) = found k

  -- from "No refresh in flight" to the end of the section
  unfoldable pub may_refresh : Timing → Option K → ℕ → Cache K → Cache K × Next K
  may_refresh c key now s =
      if not (is_some s.last_fetch)
        || ttl_expired c now s.last_fetch
        || elapsed now s.last_fetch c.min_refresh_interval
      then (start_refresh s, fetch)
      else (s, stale_or_fail key)

  -- the first round of the loop, for a key that is not both there and fresh
  unfoldable pub enter_loop : Timing → Option K → ℕ → Cache K → Cache K × Next K
  unfolding may_refresh
  enter_loop c (some k) now s = if s.refreshing then (s, found k) else may_refresh c (some k) now s
  enter_loop c none now s = if s.refreshing then (s, wait) else may_refresh c none now s

  unfoldable pub is_fresh : Timing → ℕ → Cache K → Bool
  is_fresh c now s = ltb 0 c.ttl && within now s.last_fetch c.ttl

  unfoldable pub enter_with : Timing → Option K → ℕ → ℕ → Cache K → Cache K × Next K
  unfolding enter_loop is_fresh
  enter_with c none now now' s = enter_loop c none now' s
  enter_with c (some k) now now' s =
      if is_fresh c now s then (s, found k) else enter_loop c (some k) now' s

  -- The section that a call of `_resolve_key` enters; `now` and `now'` are its two clock readings.
  unfoldable pub enter : Timing → Str → ℕ → ℕ → Cache K → Cache K × Next K
  unfolding enter_with
  enter c kid now now' s = enter_with c (lookup kid s.keys) now now' s

  unfoldable pub wake_with : Timing → Option K → ℕ → Cache K → Cache K × Next K
  unfolding may_refresh
  wake_with c (some k) now s = (s, found k)
  wake_with c none now s = if s.refreshing then (s, wait) else may_refresh c none now s

  -- After `wait`: `signalled` is what it returned.
  unfoldable pub wake : Timing → Str → Bool → ℕ → Cache K → Cache K × Next K
  unfolding wake_with
  wake c kid signalled now s =
      if signalled then wake_with c (lookup kid s.keys) now s else (s, fail refresh_timed_out)

  -- The `finally` section: `none` where the document was not retrieved or not parsed.
  unfoldable pub finish : Option (List (Str × K)) → ℕ → Cache K → Cache K
  finish none now s = record s { refreshing = false; last_fetch = some now }
  finish (some new_keys) now s = record s {
    keys = new_keys;
    refreshing = false;
    last_fetch = some now;
    last_success = if is_empty new_keys then s.last_success else some now;
  }

  -- the error that the fetching thread raises after it
  unfoldable pub fetch_error : Option (List (Str × K)) → Option KeyError
  fetch_error none = some retrieval_failed
  fetch_error (some new_keys) = if is_empty new_keys then some no_usable_keys else none

  -- the last section
  unfoldable pub look_again : Str → Cache K → Next K
  look_again kid s = stale_or_fail (lookup kid s.keys)

  -- What the first section of `ready` decides: an answer, or that this thread fetches.
  unfoldable pub ready_enter : Timing → ℕ → Cache K → Cache K × Option Bool
  ready_enter c now s =
      if not (is_empty s.keys) && (ltb 0 c.ttl && within now s.last_success c.ttl)
      then (s, some true)
      else if s.refreshing
      then (s, some false)
      else if not (elapsed now s.last_fetch c.min_refresh_interval)
      then (s, some false)
      else (start_refresh s, none)

  -- `bool(new_keys)`
  unfoldable pub ready_answer : Option (List (Str × K)) → Bool
  ready_answer none = false
  ready_answer (some new_keys) = not (is_empty new_keys)
