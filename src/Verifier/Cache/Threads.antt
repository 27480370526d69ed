-- ===== src/Verifier/Cache/Threads.antt =====
-- The threads that share the cache, one section of the lock at a time.
pub mod SingleFlight
pub mod Pace
pub mod Cooldown
pub mod Runs
pub mod Progress
pub mod Live
pub mod Store
pub mod Served
use mcp_auth_gateway.Prelude.{
  ℕ, ◌≤◌, ◌≡◌, Str, Bool, true, false, Option, none, some, List, [], ◌∷◌, ◌==◌, if◌then◌else◌,
}
use mcp_auth_gateway.Verifier.Cache.{
  Timing, Cache, KeyError, Next, found, wait, fetch, fail, empty_cache, enter, wake, finish,
  fetch_error, look_again, ready_enter,
}

-- Where a thread stands between two sections.
pub data Thread : Type 0 where
  outside : Thread
  -- in `Condition.wait`, for the key of a token
  waiting : Str → Thread
  -- in `_fetch_jwks` and `_parse_jwks`, for a token or for `ready`
  fetching : Str → Thread
  probing : Thread
  -- after a fetch that gave keys, before the last section
  looking : Str → Thread

abbrev pub is_fetching : Thread → Bool
is_fetching (fetching _) = true
is_fetching probing = true
is_fetching _ = false

-- `starts` holds the times at which fetches were begun, the last one first.
pub record System (K : Type 0) : Type 0 where
  pub cache : Cache K
  pub threads : ℕ → Thread
  pub clock : ℕ
  pub starts : List ℕ

abbrev pub set_thread : (ℕ → Thread) → ℕ → Thread → ℕ → Thread
set_thread ts i t j = if j == i then t else ts j

abbrev pub after_fetch : Str → Option KeyError → Thread
after_fetch kid none = looking kid
after_fetch kid (some _) = outside

abbrev pub after_ready : Option Bool → Thread
after_ready none = probing
after_ready (some _) = outside

abbrev pub probe_started : Option Bool → ℕ → List ℕ → List ℕ
probe_started none now starts = now ∷ starts
probe_started (some _) now starts = starts

module _ {K : Type 0} where
  -- where a call of `_resolve_key` is after a section
  abbrev pub after : Str → Next K → Thread
  after kid (found _) = outside
  after kid wait = waiting kid
  after kid fetch = fetching kid
  after kid (fail _) = outside

  abbrev pub started : Next K → ℕ → List ℕ → List ℕ
  started (found _) now starts = starts
  started wait now starts = starts
  started fetch now starts = now ∷ starts
  started (fail _) now starts = starts

  -- the system after thread `i` has run a section
  abbrev pub moved : System K → ℕ → Thread → Cache K → ℕ → List ℕ → System K
  moved s i t cache now starts = record {
    cache = cache;
    threads = set_thread s.threads i t;
    clock = now;
    starts = starts;
  }

  -- One section of one thread. The network gives any result at any later time.
  pub data Step (c : Timing) (s u : System K) : Type 0 where
    resolve :
        (i : ℕ) (kid : Str) (now now' : ℕ)
        → s.threads i ≡ outside
        → s.clock ≤ now
        → now ≤ now'
        → u ≡ (
            let r = enter c kid now now' s.cache in
            moved s i (after kid r.1) r.0 now' (started r.1 now' s.starts))
        → Step c s u
    resume :
        (i : ℕ) (kid : Str) (signalled : Bool) (now : ℕ)
        → s.threads i ≡ waiting kid
        → s.clock ≤ now
        → u ≡ (
            let r = wake c kid signalled now s.cache in
            moved s i (after kid r.1) r.0 now (started r.1 now s.starts))
        → Step c s u
    complete :
        (i : ℕ) (kid : Str) (new_keys : Option (List (Str × K))) (now : ℕ)
        → s.threads i ≡ fetching kid
        → s.clock ≤ now
        → u
          ≡ moved s i
              (after_fetch kid (fetch_error new_keys))
              (finish new_keys now s.cache)
              now
              s.starts
        → Step c s u
    look :
        (i : ℕ) (kid : Str) (now : ℕ)
        → s.threads i ≡ looking kid
        → s.clock ≤ now
        → u ≡ moved s i outside s.cache now s.starts
        → Step c s u
    ask_ready :
        (i : ℕ) (now : ℕ)
        → s.threads i ≡ outside
        → s.clock ≤ now
        → u ≡ (
            let r = ready_enter c now s.cache in
            moved s i (after_ready r.1) r.0 now (probe_started r.1 now s.starts))
        → Step c s u
    complete_ready :
        (i : ℕ) (new_keys : Option (List (Str × K))) (now : ℕ)
        → s.threads i ≡ probing
        → s.clock ≤ now
        → u ≡ moved s i outside (finish new_keys now s.cache) now s.starts
        → Step c s u

  -- A verifier as it is constructed, with every thread outside.
  abbrev pub initial : ℕ → System K
  initial now = record { cache = empty_cache; threads = λ i. outside; clock = now; starts = [] }

  pub data Reach (c : Timing) (t0 : ℕ) : System K → Type 0 where
    here : Reach c t0 (initial t0)
    next : {s u : System K} → Reach c t0 s → Step c s u → Reach c t0 u
