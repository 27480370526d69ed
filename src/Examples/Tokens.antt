-- ===== src/Examples/Tokens.antt =====
-- src/mcp_gateway/verifier.py at concrete tokens and threads.
use mcp_auth_gateway.Prelude.{
  ℕ, ◌+◌, ◌≤◌, Str, true, false, ◌≡◌, ◌↔◌, refl, arith, not, none, some, ◌⊎◌, [], ◌∷◌, codes,
  lookup, Result, ok,
}
use Prim.Native.Nat.{◌*◌}
use mcp_auth_gateway.Json.{Json, str, Fields, end, field}
use mcp_auth_gateway.Verifier.{Jwt, VerifiedToken, verify}
use mcp_auth_gateway.Verifier.Verified.{IsVerified, verify_iff}
use mcp_auth_gateway.Verifier.Cache.{Timing, KeyError, empty_cache, enter}
use mcp_auth_gateway.Verifier.Cache.Threads.{
  System, Reach, here, next, Step, initial, moved, fetching, waiting,
}
use mcp_auth_gateway.Verifier.Cache.Threads.{is_fetching}
use mcp_auth_gateway.Verifier.Cache.Threads.Live.{thread_returns, refresh_settles}
use mcp_auth_gateway.Verifier.Cache.Threads.Progress.{Advances}
use mcp_auth_gateway.Verifier.Cache.Threads.Store.{event, fetched}
use mcp_auth_gateway.Verifier.Cache.Threads.Runs.{
  is_outside, sections_left, own, waits, entry, Run, passes,
}
use mcp_auth_gateway.Verifier.Cache.Threads.SingleFlight.{single_flight}
use mcp_auth_gateway.Verifier.Cache.Threads.Cooldown.{begun_since, fetches_bounded}

abbrev claims : Fields
claims =
    field (codes "sub") (str (codes "alice"))
      (field (codes "scope") (str (codes "mcp:read mcp:invoke")) end)

abbrev alice : VerifiedToken
alice = record {
  subject = codes "alice";
  scopes = codes "mcp:read" ∷ codes "mcp:invoke" ∷ [];
  claims = claims;
}

-- A library that takes every token for one that key 7 signs.
abbrev claim_text : Json → Str
claim_text (str s) = s
claim_text _ = []

abbrev token_header : Fields
token_header =
    field (codes "alg") (str (codes "RS256")) (field (codes "kid") (str (codes "k1")) end)

abbrev library : Jwt ℕ
library = record {
  get_unverified_header = λ _. some token_header;
  decode = λ _ _. some claims;
  text = claim_text;
}

abbrev only_k1 : Str → Result KeyError ℕ
only_k1 _ = ok 7

verify_iff_example :
    (verify library (codes "RS256" ∷ []) only_k1 (codes "a.b.c") ≡ ok alice)
    ↔ IsVerified library (codes "RS256" ∷ []) only_k1 (codes "a.b.c") alice
verify_iff_example = verify_iff library (codes "RS256" ∷ []) only_k1 (codes "a.b.c") alice

abbrev timing : Timing
timing = record { ttl = 300; min_refresh_interval = 30 }

-- One thread asks for a key, and fetches the document.
abbrev one_fetch : System ℕ
one_fetch =
    moved (initial 10) 0 (fetching (codes "k1")) (record empty_cache { refreshing = true }) 12
      (12 ∷ [])

one_fetch-Reach : Reach timing 10 one_fetch
unfolding enter lookup
one_fetch-Reach =
    next here (Step.resolve 0 (codes "k1") 11 12 refl (omega arith) (omega arith) refl)

single_flight_example : ◌≡◌ {A = ℕ} 0 0
single_flight_example = single_flight timing 0 0 one_fetch-Reach refl refl

fetches_bounded_example : begun_since 12 one_fetch.starts * 30 + 12 ≤ 12 + 30
fetches_bounded_example = fetches_bounded timing (omega arith) 12 one_fetch-Reach (omega arith)

-- Meanwhile a second thread asks for the key, and waits.
abbrev joined : System ℕ
joined = moved one_fetch 1 (waiting (codes "k1")) one_fetch.cache 13 one_fetch.starts

abbrev join_step : Step timing one_fetch joined
unfolding enter lookup
join_step = Step.resolve 1 (codes "k1") 13 13 refl (omega arith) (omega arith) refl

abbrev join_run : Run timing one_fetch joined (entry join_step ∷ [])
join_run = Run.then Run.stays join_step

thread_returns_example :
    (passes (λ v. is_outside (v.threads 0)) join_run ≡ true)
    ⊎ ((own 0 (entry join_step ∷ []) + sections_left (joined.threads 0)
          ≤ sections_left (one_fetch.threads 0) + waits 0 (entry join_step ∷ []))
        × Advances timing joined 0 none 20)
thread_returns_example = thread_returns join_run 0 none 20 (omega arith)

refresh_settles_example :
    (i : ℕ) × (is_fetching (one_fetch.threads i) ≡ true)
    × ((passes (λ v. not v.cache.refreshing) join_run ≡ true)
        ⊎ ((own i (entry join_step ∷ []) ≡ 0)
            × (a : Advances timing joined i none 20) × (event a.step ≡ fetched none 20)
            × (a.next.cache.refreshing ≡ false)))
refresh_settles_example = refresh_settles none 20 one_fetch-Reach refl join_run (omega arith)

-- The first thread has not run in this run, and fetches still.
join_run_tests :
    (passes (λ v. is_outside (v.threads 0)) join_run ≡ false)
    × (passes (λ v. not v.cache.refreshing) join_run ≡ false)
    × (own 0 (entry join_step ∷ []) ≡ 0)
    × (waits 1 (entry join_step ∷ []) ≡ 1)
unfolding passes own waits join_step
join_run_tests = (refl, refl, refl, refl)
