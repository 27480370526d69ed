-- ===== src/Verifier/Cache/Threads/Runs.antt =====
-- Runs of the threads that share the cache, and how far each thread has come in them.
use mcp_auth_gateway.Prelude.{
  ℕ, ◌+◌, ◌==◌, ◌&&◌, ◌||◌, ◌≡◌, refl, ap, ◌∙◌, arith, Bool, true, false, List, [], ◌∷◌,
  if◌then◌else◌,
}
use mcp_auth_gateway.Verifier.Cache.{Timing}
use mcp_auth_gateway.Verifier.Cache.Threads.{
  Thread, outside, waiting, fetching, probing, looking, is_fetching, System, set_thread, Step,
}
use mcp_auth_gateway.Verifier.Cache.Threads.SingleFlight.{finish_clears}

abbrev pub is_outside : Thread → Bool
is_outside outside = true
is_outside _ = false

abbrev pub is_waiting : Thread → Bool
is_waiting (waiting _) = true
is_waiting _ = false

-- The sections until a thread is outside, if it does not have to wait again.
abbrev pub sections_left : Thread → ℕ
sections_left outside = 0
sections_left (looking _) = 1
sections_left probing = 1
sections_left (fetching _) = 2
sections_left (waiting _) = 3

-- One section of a run: whose it was, where it left that thread, and whether a refresh was in flight
-- after it.
pub record Entry : Type 0 where
  pub mover : ℕ
  pub stands : Thread
  pub in_flight : Bool

abbrev pub waits_again : Thread → Bool → ℕ
waits_again t in_flight = if is_waiting t && in_flight then 1 else 0

-- how many of the sections are thread `j`'s, and how many of those left it waiting for a refresh
unfoldable pub own : ℕ → List Entry → ℕ
own j [] = 0
own j (e ∷ es) = (if j == e.mover then 1 else 0) + own j es

unfoldable pub waits : ℕ → List Entry → ℕ
waits j [] = 0
waits j (e ∷ es) = (if j == e.mover then waits_again e.stands e.in_flight else 0) + waits j es

-- What one more section adds to the counts.
pub own_same :
    (j : ℕ) (e : Entry) (log : List Entry)
    → (j == e.mover) ≡ true
    → (own j (e ∷ log) ≡ 1 + own j log)
      × (waits j (e ∷ log) ≡ waits_again e.stands e.in_flight + waits j log)
unfolding own waits
own_same j e log h = (rw h refl, rw h refl)

pub own_other :
    (j : ℕ) (e : Entry) (log : List Entry)
    → (j == e.mover) ≡ false
    → (own j (e ∷ log) ≡ own j log) × (waits j (e ∷ log) ≡ waits j log)
unfolding own waits
own_other j e log h = (rw h (omega arith), rw h (omega arith))

pub set_same : (ts : ℕ → Thread) (i : ℕ) (t : Thread) → set_thread ts i t i ≡ t
set_same ts i t = ground arith

set_other : (ts : ℕ → Thread) (i j : ℕ) (t : Thread) → (j == i) ≡ false → set_thread ts i t j ≡ ts j
set_other ts i j t e = ground arith

module _ {K : Type 0} where
  -- the thread that runs a section
  abbrev pub mover : {c : Timing} {s u : System K} → Step c s u → ℕ
  mover (Step.resolve i kid now now' p l m q) = i
  mover (Step.resume i kid signalled now p l q) = i
  mover (Step.complete i kid new_keys now p l q) = i
  mover (Step.look i kid now p l q) = i
  mover (Step.ask_ready i now p l q) = i
  mover (Step.complete_ready i new_keys now p l q) = i

  abbrev pub entry : {c : Timing} {s u : System K} → Step c s u → Entry
  entry {u = u} st = record {
    mover = mover st;
    stands = u.threads (mover st);
    in_flight = u.cache.refreshing;
  }

  -- Any sections of any threads, the last one first.
  pub data Run (c : Timing) (s : System K) : System K → List Entry → Type 0 where
    stays : Run c s s []
    then :
        {t u : System K} {log : List Entry}
        → Run c s t log
        → (st : Step c t u) → Run c s u (entry st ∷ log)

  -- Some system of the run passes the test, the first and the last included.
  unfoldable pub passes :
      {c : Timing} {s u : System K} {log : List Entry} → (System K → Bool) → Run c s u log → Bool
  passes {s = s} test Run.stays = test s
  passes {u = u} test (Run.then r st) = test u || passes test r

  -- A section moves no thread but its own.
  pub stands_still :
      {c : Timing} {s u : System K} (st : Step c s u) (j : ℕ)
      → (j == mover st) ≡ false
      → u.threads j ≡ s.threads j
  stands_still {s = s} (Step.resolve i kid now now' p l m q) j e =
      ap (λ (v : System K). v.threads j) q ∙ set_other s.threads i j _ e
  stands_still {s = s} (Step.resume i kid signalled now p l q) j e =
      ap (λ (v : System K). v.threads j) q ∙ set_other s.threads i j _ e
  stands_still {s = s} (Step.complete i kid new_keys now p l q) j e =
      ap (λ (v : System K). v.threads j) q ∙ set_other s.threads i j _ e
  stands_still {s = s} (Step.look i kid now p l q) j e =
      ap (λ (v : System K). v.threads j) q ∙ set_other s.threads i j _ e
  stands_still {s = s} (Step.ask_ready i now p l q) j e =
      ap (λ (v : System K). v.threads j) q ∙ set_other s.threads i j _ e
  stands_still {s = s} (Step.complete_ready i new_keys now p l q) j e =
      ap (λ (v : System K). v.threads j) q ∙ set_other s.threads i j _ e

  -- Every section of a fetching thread clears the flag.
  pub mover_clears :
      {c : Timing} {s u : System K} (st : Step c s u)
      → is_fetching (s.threads (mover st)) ≡ true
      → u.cache.refreshing ≡ false
  mover_clears (Step.resolve i kid now now' p l m q) f = cc
  mover_clears (Step.resume i kid signalled now p l q) f = cc
  mover_clears {c} {s} (Step.complete i kid new_keys now p l q) f =
      ap (λ (v : System K). v.cache.refreshing) q ∙ finish_clears c new_keys now s.cache
  mover_clears (Step.look i kid now p l q) f = cc
  mover_clears (Step.ask_ready i now p l q) f = cc
  mover_clears {c} {s} (Step.complete_ready i new_keys now p l q) f =
      ap (λ (v : System K). v.cache.refreshing) q ∙ finish_clears c new_keys now s.cache
