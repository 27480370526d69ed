-- ===== src/Verifier/Cache/Threads/Progress.antt =====
-- Every section of a thread inside a call of src/mcp_gateway/verifier.py brings it nearer to the end of
-- the call, and one is always open to it.

use mcp_auth_gateway.Prelude.{
  ℕ, ◌+◌, ◌≤◌, ◌<◌, ◌==◌, ◌≡◌, refl, sym, ap, ◌∙◌, arith, Str, Bool, true, false, Option, none,
  some, List, ◌⊎◌, inl, inr, Bool-cases, lookup,
}
use mcp_auth_gateway.Verifier.Cache.{
  Timing, Cache, KeyError, wake, wake_with, may_refresh, finish, fetch_error,
}
use mcp_auth_gateway.Verifier.Cache.Threads.{
  Thread, outside, waiting, fetching, probing, looking, is_fetching, System, set_thread, moved,
  after, after_fetch, Step,
}
use mcp_auth_gateway.Verifier.Cache.Threads.Store.{event, fetched}
use mcp_auth_gateway.Verifier.Cache.Threads.Runs.{
  is_outside, sections_left, waits_again, own, waits, Entry, mover, entry, Run, passes, set_same,
  stands_still, own_same, own_other,
}

after_fetch_left :
    (kid : Str) (o : Option KeyError) (b : Bool)
    → 1 + sections_left (after_fetch kid o) ≤ 2 + waits_again (after_fetch kid o) b
after_fetch_left kid none b = omega arith
after_fetch_left kid (some e) b = omega arith

fetch_nearer : (kid : Str) (o : Option KeyError) → sections_left (after_fetch kid o) < 2
fetch_nearer kid none = omega arith
fetch_nearer kid (some e) = omega arith

set_nearer :
    (ts : ℕ → Thread) (j : ℕ) (w t : Thread)
    → ts j ≡ w
    → sections_left t < sections_left w
    → sections_left (set_thread ts j t j) < sections_left (ts j)
set_nearer ts j w t e h =
    let x = ap sections_left e in let y = ap sections_left (set_same ts j t) in omega arith

pub fetching_inside : (t : Thread) → is_fetching t ≡ true → is_outside t ≡ false
fetching_inside outside f = cc
fetching_inside (waiting kid) f = refl
fetching_inside (fetching kid) f = refl
fetching_inside probing f = refl
fetching_inside (looking kid) f = refl

module _ {K : Type 0} where
  -- After a wake-up the call is nearer to its end, unless it waits for a refresh in flight.
  woken_with :
      (c : Timing) (kid : Str) (key : Option K) (now : ℕ) (s : Cache K)
      → 1 + sections_left (after kid (wake_with c key now s).1)
        ≤ 3 + waits_again (after kid (wake_with c key now s).1) (wake_with c key now s).0.refreshing
  unfolding wake_with may_refresh
  woken_with c kid (some k) now s = omega arith
  woken_with c kid none now s = ground arith

  woken :
      (c : Timing) (kid : Str) (signalled : Bool) (now : ℕ) (s : Cache K)
      → 1 + sections_left (after kid (wake c kid signalled now s).1)
        ≤ 3
          + waits_again
              (after kid (wake c kid signalled now s).1)
              (wake c kid signalled now s).0.refreshing
  unfolding wake
  woken c kid true now s = woken_with c kid (lookup kid s.keys) now s
  woken c kid false now s = omega arith

  closer_moved :
      (s u : System K) (i : ℕ) (w t : Thread) (cache : Cache K) (now : ℕ) (starts : List ℕ)
      → s.threads i ≡ w
      → u ≡ moved s i t cache now starts
      → 1 + sections_left t ≤ sections_left w + waits_again t cache.refreshing
      → 1 + sections_left (u.threads i)
        ≤ sections_left (s.threads i) + waits_again (u.threads i) u.cache.refreshing
  closer_moved s u i w t cache now starts p q h =
      let a : u.threads i ≡ t = ap (λ (v : System K). v.threads i) q ∙ set_same s.threads i t in
      let b : u.cache.refreshing ≡ cache.refreshing = ap (λ (v : System K). v.cache.refreshing) q in
      rw a (rw b (rw p h))

  -- Every section of a thread inside a call brings it nearer to the end of that call, unless it
  -- leaves it waiting for a refresh in flight.
  pub closer :
      {c : Timing} {s u : System K} (st : Step c s u)
      → is_outside (s.threads (mover st)) ≡ false
      → 1 + sections_left (u.threads (mover st))
        ≤ sections_left (s.threads (mover st))
          + waits_again (u.threads (mover st)) u.cache.refreshing
  closer (Step.resolve i kid now now' p l m q) f = cc
  closer {c} {s} {u} (Step.resume i kid signalled now p l q) f =
      closer_moved s u i (waiting kid) _ _ now _ p q (woken c kid signalled now s.cache)
  closer {s = s} {u} (Step.complete i kid new_keys now p l q) f =
      closer_moved s u i (fetching kid) _ _ now _ p q
        (after_fetch_left kid (fetch_error new_keys) _)
  closer {s = s} {u} (Step.look i kid now p l q) f =
      closer_moved s u i (looking kid) _ _ now _ p q (omega arith)
  closer (Step.ask_ready i now p l q) f = cc
  closer {s = s} {u} (Step.complete_ready i new_keys now p l q) f =
      closer_moved s u i probing _ _ now _ p q (omega arith)

  pub own_bound :
      {c : Timing} {s u : System K} {log : List Entry} (r : Run c s u log) (j : ℕ)
      → (passes (λ v. is_outside (v.threads j)) r ≡ true)
        ⊎ ((own j log + sections_left (u.threads j) ≤ sections_left (s.threads j) + waits j log)
            × (is_outside (u.threads j) ≡ false))
  unfolding passes own waits
  own_bound {s = s} Run.stays j = elim (Bool-cases (is_outside (s.threads j))) [
    | inl o ↦ inl o
    | inr f ↦ inr (omega arith, f)
  ]
  own_bound {u = u} (Run.then {t} {log = log} r st) j = elim (own_bound r j) [
    | inl p ↦ inl (ground arith)
    | inr (b, f) ↦ elim (Bool-cases (is_outside (u.threads j))) [
      | inl o ↦ inl (ground arith)
      | inr g ↦ elim (Bool-cases (j == mover st)) [
        | inl e ↦
            let q : j ≡ mover st = ground arith in
            let (m, n) = own_same j (entry st) log e in
            let h = closer st (ap (λ i. is_outside (t.threads i)) (sym q) ∙ f) in
            let x = ap (λ i. sections_left (t.threads i)) q in
            let y = ap (λ i. sections_left (u.threads i)) q in inr (omega arith, g)
        | inr e ↦
            let (m, n) = own_other j (entry st) log e in
            let x = ap sections_left (stands_still st j e) in inr (omega arith, g)
      ]
    ]
  ]

  -- A section of thread `j` at the time `now` that brings it nearer to the end of its call; if the
  -- thread is fetching, it is the end of its fetch with this answer.
  pub record Advances (c : Timing) (s : System K) (j : ℕ) (answer : Option (List (Str × K)))
      (now : ℕ) : Type 0 where
    pub next : System K
    pub step : Step c s next
    pub mine : mover step ≡ j
    pub at_time : next.clock ≡ now
    pub nearer : sections_left (next.threads j) < sections_left (s.threads j)
    pub answered : (is_fetching (s.threads j) ≡ false) ⊎ (event step ≡ fetched answer now)

  pub next_section :
      (c : Timing) (s : System K) (j : ℕ) (answer : Option (List (Str × K))) (now : ℕ)
      → s.clock ≤ now
      → (t : Thread) → s.threads j ≡ t
      → is_outside t ≡ false
      → Advances c s j answer now
  unfolding wake event
  next_section c s j answer now later outside e f = cc
  next_section c s j answer now later (waiting kid) e f = record {
    next = moved s j outside s.cache now s.starts;
    step = Step.resume j kid false now e later refl;
    mine = refl;
    at_time = refl;
    nearer = set_nearer s.threads j _ outside e (omega arith);
    answered = inl (ap is_fetching e);
  }
  next_section c s j answer now later (fetching kid) e f =
      let after = after_fetch kid (fetch_error answer) in
      record {
        next = moved s j after (finish answer now s.cache) now s.starts;
        step = Step.complete j kid answer now e later refl;
        mine = refl;
        at_time = refl;
        nearer =
            set_nearer s.threads j (fetching kid) after e (fetch_nearer kid (fetch_error answer));
        answered = inr refl;
      }
  next_section c s j answer now later probing e f = record {
    next = moved s j outside (finish answer now s.cache) now s.starts;
    step = Step.complete_ready j answer now e later refl;
    mine = refl;
    at_time = refl;
    nearer = set_nearer s.threads j _ outside e (omega arith);
    answered = inr refl;
  }
  next_section c s j answer now later (looking kid) e f = record {
    next = moved s j outside s.cache now s.starts;
    step = Step.look j kid now e later refl;
    mine = refl;
    at_time = refl;
    nearer = set_nearer s.threads j _ outside e (omega arith);
    answered = inl (ap is_fetching e);
  }
