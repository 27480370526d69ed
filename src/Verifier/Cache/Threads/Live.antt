-- ===== src/Verifier/Cache/Threads/Live.antt =====
-- No refresh and no thread is held up for ever by the others, however the network answers.

use mcp_auth_gateway.Prelude.{
  ℕ, ◌+◌, ◌≤◌, ◌==◌, not, ◌≡◌, refl, sym, ap, ◌∙◌, arith, Str, true, false, Option, List, ◌⊎◌, inl,
  inr, Bool-cases,
}
use mcp_auth_gateway.Verifier.Cache.{Timing}
use mcp_auth_gateway.Verifier.Cache.Threads.{is_fetching, System, Reach}
use mcp_auth_gateway.Verifier.Cache.Threads.SingleFlight.{Reach-IsSingle}
use mcp_auth_gateway.Verifier.Cache.Threads.Store.{event, fetched}
use mcp_auth_gateway.Verifier.Cache.Threads.Progress.{
  fetching_inside, own_bound, Advances, next_section,
}
use mcp_auth_gateway.Verifier.Cache.Threads.Runs.{
  is_outside, sections_left, own, waits, Entry, mover, entry, Run, passes, stands_still,
  mover_clears, own_other,
}

module _ {K : Type 0} where
  -- In any run of the threads, with any answers of the network at any times, either thread `j` is outside
  -- at some point, or the sections that it has run, with those that it still has to run, are at most as
  -- many as it had to run at the start (three if it waits, two in a fetch for a token, one in a fetch for
  -- `ready` or before the last look), plus one for each time that a section of its left it waiting while
  -- a refresh was in flight. In the second case it is not stuck: at every later time it has a section
  -- that brings it nearer to the outside, which for a thread that is fetching ends the fetch with
  -- whatever answer the network gives.
  pub thread_returns :
      {c : Timing} {s u : System K} {log : List Entry} (r : Run c s u log) (j : ℕ)
      (answer : Option (List (Str × K))) (now : ℕ)
      → u.clock ≤ now
      → (passes (λ v. is_outside (v.threads j)) r ≡ true)
        ⊎ ((own j log + sections_left (u.threads j) ≤ sections_left (s.threads j) + waits j log)
            × Advances c u j answer now)
  thread_returns {c} {u = u} r j answer now later = elim (own_bound r j) [
    | inl p ↦ inl p
    | inr (b, f) ↦ inr (b, next_section c u j answer now later (u.threads j) refl f)
  ]

  -- The fetching thread has run no section, and the flag is set.
  still_fetching :
      {c : Timing} {s u : System K} {log : List Entry} (r : Run c s u log) (i : ℕ)
      → is_fetching (s.threads i) ≡ true
      → (passes (λ v. not v.cache.refreshing) r ≡ true)
        ⊎ ((own i log ≡ 0) × (is_fetching (u.threads i) ≡ true))
  unfolding passes own
  still_fetching Run.stays i f = inr (refl, f)
  still_fetching {u = u} (Run.then {t} {log = log} r st) i f = elim (still_fetching r i f) [
    | inl p ↦ inl (ground arith)
    | inr (n, g) ↦ elim (Bool-cases (i == mover st)) [
      | inl e ↦
          let q : i ≡ mover st = ground arith in
          let h = mover_clears st (ap (λ k. is_fetching (t.threads k)) (sym q) ∙ g) in
          inl (rw h refl)
      | inr e ↦ inr ((own_other i (entry st) log e).0 ∙ n, ap is_fetching (stands_still st i e) ∙ g)
    ]
  ]

  Advances-clears :
      {c : Timing} {s : System K} {j : ℕ} {answer : Option (List (Str × K))} {now : ℕ}
      (a : Advances c s j answer now)
      → is_fetching (s.threads j) ≡ true
      → a.next.cache.refreshing ≡ false
  Advances-clears {s = s} a f = mover_clears a.step (ap (λ i. is_fetching (s.threads i)) a.mine ∙ f)

  Advances-answered :
      {c : Timing} {s : System K} {j : ℕ} {answer : Option (List (Str × K))} {now : ℕ}
      (a : Advances c s j answer now)
      → is_fetching (s.threads j) ≡ true
      → event a.step ≡ fetched answer now
  Advances-answered a f = elim a.answered [ inl h ↦ let bad : ⊥ = cc in absurd bad | inr e ↦ e ]

  -- A refresh in flight ends, however the network answers: in any run from a reachable system whose flag
  -- is set, there is a thread that is fetching at the start, and either the flag is clear at some point of
  -- the run, or that thread has run no section in it. In the second case it is not held up: for every
  -- answer, at every later time, it has a section that ends the fetch with this answer, and that clears
  -- the flag. The flag is never left set by nobody.
  pub refresh_settles :
      {c : Timing} {t0 : ℕ} {s u : System K} {log : List Entry} (answer : Option (List (Str × K)))
      (now : ℕ)
      → Reach c t0 s
      → s.cache.refreshing ≡ true
      → (r : Run c s u log) → u.clock ≤ now
      → (i : ℕ) × (is_fetching (s.threads i) ≡ true)
        × ((passes (λ v. not v.cache.refreshing) r ≡ true)
            ⊎ ((own i log ≡ 0)
                × (a : Advances c u i answer now) × (event a.step ≡ fetched answer now)
                × (a.next.cache.refreshing ≡ false)))
  refresh_settles {c} {u = u} answer now reach b r later =
      let (i, f, only) = (Reach-IsSingle c reach).busy b in
      elim (still_fetching r i f) [
        | inl p ↦ (i, f, inl p)
        | inr (n, g) ↦
            let inside = fetching_inside (u.threads i) g in
            let a = next_section c u i answer now later (u.threads i) refl inside in
            (i, f, inr (n, a, Advances-answered a g, Advances-clears a g))
      ]
