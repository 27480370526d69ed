-- ===== src/Verifier/Cache/Threads/Served.antt =====
-- src/mcp_gateway/verifier.py: which keys the cache serves, and how old they are.
use mathlib.Core.Path.{subst}
use mcp_auth_gateway.Prelude.{
  is_empty, Bool, ℕ, ◌+◌, ◌≤◌, ◌≡◌, refl, sym, ap, ◌∙◌, arith, Str, true, false, Option, none, some,
  List, [], ◌∷◌, lookup, Bool-cases, Option-cases, inl, inr,
}
use mcp_auth_gateway.Verifier.Cache.{
  Timing, Cache, found, is_fresh, may_refresh, enter_loop, enter_with, enter, ready_enter,
  ready_answer, finish,
}
use mcp_auth_gateway.Verifier.Cache.Threads.{is_fetching, System, Step, initial, Reach, here, next}
use mcp_auth_gateway.Verifier.Cache.Threads.SingleFlight.{Reach-IsSingle}
use mcp_auth_gateway.Verifier.Cache.Threads.Store.{
  Store, Event, quiet, served, fetched, document_after, supplied_after, Move, view, event,
  Step-Move,
}

-- A fetch has ended no longer than the time to live ago.
abbrev pub CheckedWithin : Option ℕ → ℕ → ℕ → Type 0
CheckedWithin none ttl now = ⊥
CheckedWithin (some t) ttl now = now ≤ t + ttl

CheckedWithin-before :
    (last : Option ℕ) (ttl now now' : ℕ)
    → now ≤ now'
    → CheckedWithin last ttl now'
    → CheckedWithin last ttl now
CheckedWithin-before none ttl now now' l h = h
CheckedWithin-before (some t) ttl now now' l h = omega arith

module _ {K : Type 0} where
  -- A run from the start, with what it let others see, the last event first.
  pub data Trace (c : Timing) (t0 : ℕ) : List (Event K) → System K → Type 0 where
    start : Trace c t0 [] (initial t0)
    also :
        {es : List (Event K)} {s u : System K}
        → Trace c t0 es s
        → (st : Step c s u) → Trace c t0 (event st ∷ es) u

  -- The store after some events, from these alone.
  abbrev pub applied : Event K → Store K → Store K
  applied quiet d = d
  applied (served kid k) d = d
  applied (fetched answer now) d = record {
    document = document_after answer d.document;
    checked = some now;
    supplied = supplied_after answer now d.supplied;
  }

  unfoldable pub store_after : List (Event K) → Store K
  store_after [] = record { document = []; checked = none; supplied = none }
  store_after (e ∷ es) = applied e (store_after es)

  Move-applied : {v : Event K} {d e : Store K} → Move v d e → e ≡ applied v d
  Move-applied (Move.stand q) = q
  Move-applied (Move.serve _ q) = q
  Move-applied (Move.install q) = q

  Trace-store :
      {c : Timing} {t0 : ℕ} {es : List (Event K)} {s : System K}
      → Trace c t0 es s
      → view s.cache ≡ store_after es
  unfolding store_after
  Trace-store Trace.start = refl
  Trace-store (Trace.also tr st) =
      Move-applied (Step-Move st) ∙ ap (applied (event st)) (Trace-store tr)

  Trace-Reach :
      {c : Timing} {t0 : ℕ} {es : List (Event K)} {s : System K} → Trace c t0 es s → Reach c t0 s
  Trace-Reach Trace.start = here
  Trace-Reach (Trace.also tr st) = next (Trace-Reach tr) st

  Move-served :
      {d e : Store K} {v : Event K} {kid : Str} {k : K}
      → Move v d e
      → v ≡ served kid k
      → lookup kid d.document ≡ some k
  Move-served (Move.stand _) q = cc
  Move-served (Move.serve h _) q = cc
  Move-served (Move.install _) q = cc

  -- Whatever the threads do and however the network answers, a key that is returned for a token's id is
  -- the one under that id in the key document that was read last: no key of an earlier document is used
  -- once a fetch has brought one without it.
  pub served-current :
      {c : Timing} {t0 : ℕ} {es : List (Event K)} {s u : System K} {kid : Str} {k : K}
      → Trace c t0 es s
      → (st : Step c s u) → event st ≡ served kid k
      → lookup kid (store_after es).document ≡ some k
  served-current {kid = kid} tr st e =
      ap (λ (d : Store K). lookup kid d.document) (sym (Trace-store tr))
      ∙ Move-served (Step-Move st) e

  may_refresh-CheckedWithin :
      (c : Timing) (key : Option K) (now : ℕ) (s : Cache K) (k : K)
      → (may_refresh c key now s).1 ≡ found k
      → CheckedWithin s.last_fetch c.ttl now
  unfolding may_refresh
  may_refresh-CheckedWithin c key now s k e = elim (Option-cases s.last_fetch) [
    | inl n ↦ let bad : ⊥ = ground arith in absurd bad
    | inr (t, q) ↦ rw q (ground arith)
  ]

  enter_loop-CheckedWithin :
      (c : Timing) (key : Option K) (now : ℕ) (s : Cache K) (k : K)
      → s.refreshing ≡ false
      → (enter_loop c key now s).1 ≡ found k
      → CheckedWithin s.last_fetch c.ttl now
  unfolding enter_loop
  enter_loop-CheckedWithin c none now s k b e =
      may_refresh-CheckedWithin c none now s k (ground arith)
  enter_loop-CheckedWithin c (some j) now s k b e =
      may_refresh-CheckedWithin c (some j) now s k (ground arith)

  fresh-CheckedWithin :
      (c : Timing) (now : ℕ) (s : Cache K)
      → is_fresh c now s ≡ true
      → CheckedWithin s.last_fetch c.ttl now
  unfolding is_fresh
  fresh-CheckedWithin c now s h = elim (Option-cases s.last_fetch) [
    | inl n ↦ let bad : ⊥ = ground arith in absurd bad
    | inr (t, q) ↦ rw q (ground arith)
  ]

  enter_with-CheckedWithin :
      (c : Timing) (key : Option K) (now now' : ℕ) (s : Cache K) (k : K)
      → s.refreshing ≡ false
      → now ≤ now'
      → (enter_with c key now now' s).1 ≡ found k
      → CheckedWithin s.last_fetch c.ttl now
  unfolding enter_with
  enter_with-CheckedWithin c none now now' s k b l e =
      CheckedWithin-before s.last_fetch c.ttl now now' l
        (enter_loop-CheckedWithin c none now' s k b e)
  enter_with-CheckedWithin c (some j) now now' s k b l e = elim (Bool-cases (is_fresh c now s)) [
    | inl t ↦ fresh-CheckedWithin c now s t
    | inr f ↦
        CheckedWithin-before s.last_fetch c.ttl now now' l
          (enter_loop-CheckedWithin c (some j) now' s k b (ground arith))
  ]

  idle_flag :
      {c : Timing} {t0 : ℕ} {s : System K}
      → Reach c t0 s
      → ((j : ℕ) → is_fetching (s.threads j) ≡ false)
      → s.cache.refreshing ≡ false
  idle_flag {c} {s = s} r h = elim (Bool-cases s.cache.refreshing) [
    | inl b ↦ let (i, f, _) = (Reach-IsSingle c r).busy b in cc (h i)
    | inr b ↦ b
  ]

  -- A key that a thread is given at once, while no thread is fetching, comes from a store that a fetch
  -- has checked no longer ago than the time to live, whether that fetch brought a document or failed.
  pub served-CheckedWithin :
      {c : Timing} {t0 : ℕ} {es : List (Event K)} {s : System K} (kid : Str) (now now' : ℕ) (k : K)
      → Trace c t0 es s
      → ((j : ℕ) → is_fetching (s.threads j) ≡ false)
      → now ≤ now'
      → (enter c kid now now' s.cache).1 ≡ found k
      → CheckedWithin (store_after es).checked c.ttl now
  unfolding enter
  served-CheckedWithin {c} {s = s} kid now now' k tr h l e =
      subst (λ (d : Store K). CheckedWithin d.checked c.ttl now) (Trace-store tr)
        (enter_with-CheckedWithin c (lookup kid s.cache.keys) now now' s.cache k
          (idle_flag (Trace-Reach tr) h) l e)

  -- What `ready` answers in a section, if it is one in which it answers.
  abbrev pub reported : {c : Timing} {s u : System K} → Step c s u → Option Bool
  reported (Step.resolve i kid now now' p l m q) = none
  reported (Step.resume i kid signalled now p l q) = none
  reported (Step.complete i kid new_keys now p l q) = none
  reported (Step.look i kid now p l q) = none
  reported {c} {s} (Step.ask_ready i now p l q) = (ready_enter c now s.cache).1
  reported (Step.complete_ready i new_keys now p l q) = some (ready_answer new_keys)

  -- The cache holds keys, and the last document with keys came no longer ago than the time to live.
  abbrev IsSupplied : Timing → ℕ → Cache K → Type 0
  IsSupplied c now s = (is_empty s.keys ≡ false) × CheckedWithin s.last_success c.ttl now

  ready_enter-true :
      (c : Timing) (now : ℕ) (s : Cache K)
      → (ready_enter c now s).1 ≡ some true
      → IsSupplied c now (ready_enter c now s).0
  unfolding ready_enter
  ready_enter-true c now s e = elim (Option-cases s.last_success) [
    | inl n ↦ let bad : ⊥ = ground arith in absurd bad
    | inr (t, q) ↦ (ground arith, ground arith)
  ]

  ready_answer-true :
      (c : Timing) (answer : Option (List (Str × K))) (now : ℕ) (s : Cache K)
      → ready_answer answer ≡ true
      → IsSupplied c now (finish answer now s)
  unfolding ready_answer finish
  ready_answer-true c none now s e = cc
  ready_answer-true c (some []) now s e = cc
  ready_answer-true c (some (k ∷ ks)) now s e = (refl, omega arith)

  reported-true :
      {c : Timing} {s u : System K} (st : Step c s u)
      → reported st ≡ some true
      → IsSupplied c u.clock u.cache
  reported-true (Step.resolve i kid now now' p l m q) e = cc
  reported-true (Step.resume i kid signalled now p l q) e = cc
  reported-true (Step.complete i kid new_keys now p l q) e = cc
  reported-true (Step.look i kid now p l q) e = cc
  reported-true {c} {s} (Step.ask_ready i now p l q) e =
      subst (λ (v : System K). IsSupplied c v.clock v.cache) (sym q)
        (ready_enter-true c now s.cache e)
  reported-true {c} {s} (Step.complete_ready i new_keys now p l q) e =
      subst (λ (v : System K). IsSupplied c v.clock v.cache) (sym q)
        (ready_answer-true c new_keys now s.cache cc)

  -- Where `ready` answers that the cache is ready, be it at once or after a refresh of its own, the
  -- document that was read last, that refresh included, has keys, and a document with keys was read no
  -- longer ago than the time to live: a refresh that failed, or that brought no key, never makes the
  -- gateway report that it is ready.
  pub ready-supplied :
      {c : Timing} {t0 : ℕ} {es : List (Event K)} {s u : System K}
      → Trace c t0 es s
      → (st : Step c s u) → reported st ≡ some true
      → (is_empty (store_after (event st ∷ es)).document ≡ false)
        × CheckedWithin (store_after (event st ∷ es)).supplied c.ttl u.clock
  ready-supplied {c} {u = u} tr st e =
      subst
        (λ (d : Store K). (is_empty d.document ≡ false) × CheckedWithin d.supplied c.ttl u.clock)
        (Trace-store (Trace.also tr st)) (reported-true st e)
