-- ===== src/Examples/Keys.antt =====
-- The key cache of src/mcp_gateway/verifier.py, run by two threads.
use mcp_auth_gateway.Prelude.{
  is_empty, ℕ, Str, true, false, ◌≡◌, refl, arith, Option, some, List, [], ◌∷◌, codes, lookup,
  eq_str,
}
use mcp_auth_gateway.Verifier.Cache.{
  ready_enter, Timing, Cache, found, empty_cache, enter, finish, look_again, enter_with, is_fresh,
}
use mcp_auth_gateway.Verifier.Cache.Threads.{
  is_fetching, System, Step, initial, moved, outside, fetching, looking,
}
use mcp_auth_gateway.Verifier.Cache.Threads.Store.{Event, event, Move, view, Step-Move}
use mcp_auth_gateway.Verifier.Cache.Threads.Served.{
  Trace, store_after, CheckedWithin, served-current, served-CheckedWithin, ready-supplied,
}

abbrev timing : Timing
timing = record { ttl = 300; min_refresh_interval = 30 }

abbrev answer : Option (List (Str × ℕ))
answer = some ((codes "k1", 7) ∷ [])

-- A thread fetches, gets one key, and returns it; a second one then asks for it.
abbrev asked : System ℕ
asked =
    moved (initial 10) 0 (fetching (codes "k1")) (record empty_cache { refreshing = true }) 12
      (12 ∷ [])

abbrev filled : Cache ℕ
filled = record {
  keys = (codes "k1", 7) ∷ [];
  refreshing = false;
  last_fetch = some 20;
  last_success = some 20;
}

abbrev fetched_keys : System ℕ
fetched_keys = moved asked 0 (looking (codes "k1")) filled 20 (12 ∷ [])

abbrev returned : System ℕ
returned = moved fetched_keys 0 outside filled 21 (12 ∷ [])

abbrev again : System ℕ
again = moved returned 1 outside filled 31 (12 ∷ [])

ask_step : Step timing (initial 10) asked
unfolding enter lookup
ask_step = Step.resolve 0 (codes "k1") 11 12 refl (omega arith) (omega arith) refl

answer_step : Step timing asked fetched_keys
unfolding finish mcp_auth_gateway.Verifier.Cache.fetch_error
answer_step = Step.complete 0 (codes "k1") answer 20 refl (omega arith) refl

look_step : Step timing fetched_keys returned
look_step = Step.look 0 (codes "k1") 21 refl (omega arith) refl

hit_step : Step timing returned again
unfolding enter enter_with is_fresh lookup eq_str
hit_step = Step.resolve 1 (codes "k1") 30 31 refl (omega arith) (omega arith) refl

history : List (Event ℕ)
history = event look_step ∷ event answer_step ∷ event ask_step ∷ []

run : Trace timing 10 history returned
unfolding history
run = Trace.also (Trace.also (Trace.also Trace.start ask_step) answer_step) look_step

Step-Move_example : Move (event hit_step) (view returned.cache) (view again.cache)
Step-Move_example = Step-Move hit_step

served-current_example : lookup (codes "k1") (store_after history).document ≡ some 7
unfolding event enter enter_with is_fresh lookup eq_str hit_step
served-current_example = served-current run hit_step refl

served-CheckedWithin_example : CheckedWithin (store_after history).checked 300 30
unfolding enter enter_with is_fresh lookup eq_str
served-CheckedWithin_example = served-CheckedWithin (codes "k1") 30 31 7 run idle (omega arith) refl
  where
    idle : (j : ℕ) → is_fetching (returned.threads j) ≡ false
    idle j = ground arith

-- Readiness is asked while the cache is fresh, and answered at once.
abbrev ready_step :
    Step timing returned (moved returned 1 outside returned.cache 35 returned.starts)
unfolding ready_enter
ready_step = Step.ask_ready 1 35 refl (omega arith) refl

ready-supplied_example :
    (is_empty (store_after (event ready_step ∷ history)).document ≡ false)
    × CheckedWithin (store_after (event ready_step ∷ history)).supplied 300 35
unfolding ready_enter
ready-supplied_example = ready-supplied run ready_step refl
