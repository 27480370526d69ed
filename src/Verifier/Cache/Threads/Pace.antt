-- ===== src/Verifier/Cache/Threads/Pace.antt =====
-- What one section of the lock does to the list of fetches.

use mcp_auth_gateway.Prelude.{
  is_empty, ltb, ℕ, ◌+◌, ◌≤◌, ◌≡◌, refl, sym, ◌∙◌, arith, Str, Bool, true, false, not, ◌&&◌, ◌||◌,
  Option, none, some, List, [], ◌∷◌, Bool-cases, choose, inl, inr, ◌⊎◌, lookup, is_some,
}
use mcp_auth_gateway.Verifier.Cache.{
  Timing, Cache, Next, ttl_expired, within, elapsed, is_fresh, may_refresh, enter_loop, enter_with,
  enter, wake_with, wake, ready_enter,
}
use mcp_auth_gateway.Verifier.Cache.Threads.{started, probe_started}

-- Each fetch was begun at least `gap` after the one before it; the list has the last one first.
abbrev pub Spaced : ℕ → List ℕ → Type 0
Spaced gap [] = Unit
Spaced gap (x ∷ []) = Unit
Spaced gap (x ∷ y ∷ starts) = (y + gap ≤ x) × Spaced gap (y ∷ starts)

-- The last fetch was begun before a time.
abbrev pub BegunBy : List ℕ → ℕ → Type 0
BegunBy [] t = Unit
BegunBy (x ∷ _) t = x ≤ t

-- The last fetch that was begun has ended.
abbrev pub Ended : List ℕ → Option ℕ → Type 0
Ended [] last = Unit
Ended (_ ∷ _) none = ⊥
Ended (x ∷ _) (some f) = x ≤ f

abbrev pub EndedBy : Option ℕ → ℕ → Type 0
EndedBy none t = Unit
EndedBy (some f) t = f ≤ t

pub record IsPaced {K : Type 0} (c : Timing) (cache : Cache K) (clock : ℕ) (starts : List ℕ)
    : Type 0 where
  pub spaced : Spaced c.min_refresh_interval starts
  pub begun : BegunBy starts clock
  pub ended : cache.refreshing ≡ false → Ended starts cache.last_fetch
  pub ended_by : EndedBy cache.last_fetch clock

-- The cooldown since the last fetch has passed, if there was one.
abbrev pub Rested : ℕ → Option ℕ → ℕ → Type 0
Rested gap none now = Unit
Rested gap (some f) now = f + gap ≤ now

-- What a section does to the cache and the list of fetches: nothing, or it begins a fetch.
pub record Paces {K : Type 0} (c : Timing) (s s' : Cache K) (now : ℕ) (starts starts' : List ℕ)
    : Type 0 where
  pub same_last : s'.last_fetch ≡ s.last_fetch
  pub shape :
      (starts' ≡ starts) × (s'.refreshing ≡ s.refreshing)
      ⊎ (starts' ≡ now ∷ starts)
        × (s'.refreshing ≡ true)
        × (s.refreshing ≡ false)
        × Rested c.min_refresh_interval s.last_fetch now

rested :
    (c : Timing) (last : Option ℕ) (now : ℕ)
    → c.min_refresh_interval ≤ c.ttl
    → EndedBy last now
    → (not (is_some last) || ttl_expired c now last || elapsed now last c.min_refresh_interval)
      ≡ true
    → Rested c.min_refresh_interval last now
rested c none now g e h = tt
rested c (some f) now g e h = ground arith

elapsed-Rested :
    (c : Timing) (last : Option ℕ) (now : ℕ)
    → EndedBy last now
    → elapsed now last c.min_refresh_interval ≡ true
    → Rested c.min_refresh_interval last now
elapsed-Rested c none now e h = tt
elapsed-Rested c (some f) now e h = ground arith

pub EndedBy-mono : (last : Option ℕ) (t t' : ℕ) → t ≤ t' → EndedBy last t → EndedBy last t'
EndedBy-mono none t t' l h = tt
EndedBy-mono (some f) t t' l h = omega arith

pub BegunBy-mono : (starts : List ℕ) (t t' : ℕ) → t ≤ t' → BegunBy starts t → BegunBy starts t'
BegunBy-mono [] t t' l h = tt
BegunBy-mono (x ∷ starts) t t' l h = omega arith

-- A fetch that is begun after the cooldown is spaced from the one before.
Spaced-begin :
    (c : Timing) (starts : List ℕ) (last : Option ℕ) (now : ℕ)
    → Spaced c.min_refresh_interval starts
    → Ended starts last
    → Rested c.min_refresh_interval last now
    → Spaced c.min_refresh_interval (now ∷ starts)
Spaced-begin c [] last now h e r = tt
Spaced-begin c (x ∷ starts) none now h e r = absurd e
Spaced-begin c (x ∷ starts) (some f) now h e r = (omega arith, h)

module _ {K : Type 0} (c : Timing) (fits : c.min_refresh_interval ≤ c.ttl) where
  may_refresh-Paces :
      (key : Option K) (now : ℕ) (s : Cache K) (starts : List ℕ)
      → s.refreshing ≡ false
      → EndedBy s.last_fetch now
      → Paces c s
          (may_refresh c key now s).0
          now
          starts
          (started (may_refresh c key now s).1 now starts)
  unfolding may_refresh
  may_refresh-Paces key now s starts q e =
      elim (Bool-cases (
        not (is_some s.last_fetch)
        || ttl_expired c now s.last_fetch
        || elapsed now s.last_fetch c.min_refresh_interval)) [
          | inl h ↦ record {
            same_last = ground arith;
            shape = inr (ground arith, ground arith, q, rested c s.last_fetch now fits e h);
          }
          | inr h ↦ record { same_last = ground arith; shape = inl (kept key h, ground arith) }
        ]
    where
      kept :
          (key : Option K)
          → (not (is_some s.last_fetch)
              || ttl_expired c now s.last_fetch
              || elapsed now s.last_fetch c.min_refresh_interval)
            ≡ false
          → started (may_refresh c key now s).1 now starts ≡ starts
      kept none h = ground arith
      kept (some k) h = ground arith

  -- A section that leaves the cache alone and begins nothing.
  pub still : (now : ℕ) (s : Cache K) (starts : List ℕ) → Paces c s s now starts starts
  still now s starts = record { same_last = refl; shape = inl (refl, refl) }

  -- A section that returns `r` paces the fetches.
  abbrev Good : ℕ → Cache K → List ℕ → Cache K × Next K → Type 0
  Good now s starts r = Paces c s r.0 now starts (started r.1 now starts)

  enter_loop-Paces :
      (key : Option K) (now : ℕ) (s : Cache K) (starts : List ℕ)
      → EndedBy s.last_fetch now
      → Good now s starts (enter_loop c key now s)
  unfolding enter_loop
  enter_loop-Paces none now s starts e =
      choose (Good now s starts) s.refreshing _ _ (λ b. still now s starts)
        (λ b. may_refresh-Paces none now s starts b e)
  enter_loop-Paces (some k) now s starts e =
      choose (Good now s starts) s.refreshing _ _ (λ b. still now s starts)
        (λ b. may_refresh-Paces (some k) now s starts b e)

  enter_with-Paces :
      (key : Option K) (now now' : ℕ) (s : Cache K) (starts : List ℕ)
      → EndedBy s.last_fetch now'
      → Good now' s starts (enter_with c key now now' s)
  unfolding enter_with
  enter_with-Paces none now now' s starts e = enter_loop-Paces none now' s starts e
  enter_with-Paces (some k) now now' s starts e =
      choose (Good now' s starts) (is_fresh c now s) _ _ (λ b. still now' s starts)
        (λ b. enter_loop-Paces (some k) now' s starts e)

  pub enter-Paces :
      (kid : Str) (now now' : ℕ) (s : Cache K) (starts : List ℕ)
      → EndedBy s.last_fetch now'
      → Good now' s starts (enter c kid now now' s)
  unfolding enter
  enter-Paces kid now now' s starts e = enter_with-Paces (lookup kid s.keys) now now' s starts e

  wake_with-Paces :
      (key : Option K) (now : ℕ) (s : Cache K) (starts : List ℕ)
      → EndedBy s.last_fetch now
      → Good now s starts (wake_with c key now s)
  unfolding wake_with
  wake_with-Paces none now s starts e =
      choose (Good now s starts) s.refreshing _ _ (λ b. still now s starts)
        (λ b. may_refresh-Paces none now s starts b e)
  wake_with-Paces (some k) now s starts e = still now s starts

  pub wake-Paces :
      (kid : Str) (signalled : Bool) (now : ℕ) (s : Cache K) (starts : List ℕ)
      → EndedBy s.last_fetch now
      → Good now s starts (wake c kid signalled now s)
  unfolding wake
  wake-Paces kid true now s starts e = wake_with-Paces (lookup kid s.keys) now s starts e
  wake-Paces kid false now s starts e = still now s starts

  pub ready_enter-Paces :
      (now : ℕ) (s : Cache K) (starts : List ℕ)
      → EndedBy s.last_fetch now
      → Paces c s
          (ready_enter c now s).0
          now
          starts
          (probe_started (ready_enter c now s).1 now starts)
  unfolding ready_enter
  ready_enter-Paces now s starts e = record {
    same_last = ground arith;
    shape =
        elim (Bool-cases
          (not (is_empty s.keys) && (ltb 0 c.ttl && within now s.last_success c.ttl))) [
            | inl h ↦ inl (ground arith, ground arith)
            | inr h ↦ elim (Bool-cases s.refreshing) [
              | inl b ↦ inl (ground arith, ground arith)
              | inr b ↦ elim (Bool-cases (elapsed now s.last_fetch c.min_refresh_interval)) [
                | inl go ↦
                    inr (ground arith, ground arith, b, elapsed-Rested c s.last_fetch now e go)
                | inr n ↦ inl (ground arith, ground arith)
              ]
            ]
          ];
  }

  pub Paces-IsPaced :
      (s s' : Cache K) (clock now : ℕ) (starts starts' : List ℕ)
      → clock ≤ now
      → Paces c s s' now starts starts'
      → IsPaced c s clock starts
      → IsPaced c s' now starts'
  Paces-IsPaced s s' clock now starts starts' l p h = elim p.shape [
    | inl (a, b) ↦ rw a (record {
      spaced = h.spaced;
      begun = BegunBy-mono starts clock now l h.begun;
      ended = λ q. rw p.same_last (h.ended (sym b ∙ q));
      ended_by = rw p.same_last (EndedBy-mono s.last_fetch clock now l h.ended_by);
    })
    | inr (a, b, d, r) ↦ rw a (record {
      spaced = Spaced-begin c starts s.last_fetch now h.spaced (h.ended d) r;
      begun = omega arith;
      ended = λ q. cc;
      ended_by = rw p.same_last (EndedBy-mono s.last_fetch clock now l h.ended_by);
    })
  ]
