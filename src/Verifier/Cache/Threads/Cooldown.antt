-- ===== src/Verifier/Cache/Threads/Cooldown.antt =====
-- How often the key document is fetched.
use Prim.Native.Nat.{◌*◌}
use native.Mathlib.Decide.{dec_le}
use mcp_auth_gateway.Prelude.{
  suc, ◌<◌, leb, ℕ, ◌+◌, ◌≤◌, ◌≡◌, arith, Str, Option, none, some, List, [], ◌∷◌, if◌then◌else◌,
}
use mcp_auth_gateway.Verifier.Cache.{Timing, Cache, enter, wake, finish, ready_enter}
use mcp_auth_gateway.Verifier.Cache.Threads.{
  System, Step, resolve, resume, complete, look, ask_ready, complete_ready, Reach, here, next,
}
use mcp_auth_gateway.Verifier.Cache.Threads.Pace.{
  Spaced, BegunBy, Ended, EndedBy, IsPaced, EndedBy-mono, BegunBy-mono, still, enter-Paces,
  wake-Paces, ready_enter-Paces, Paces-IsPaced,
}

-- How many fetches were begun at a time or later.
pub begun_since : ℕ → List ℕ → ℕ
begun_since t [] = 0
begun_since t (x ∷ starts) = let rest = begun_since t starts in if leb t x then suc rest else rest

-- Before the last fetch there are only earlier ones.
begun_since-zero :
    (gap t x : ℕ) (starts : List ℕ)
    → Spaced gap (x ∷ starts)
    → x < t
    → begun_since t (x ∷ starts) ≡ 0
unfolding begun_since
begun_since-zero gap t x [] h l = ground arith
begun_since-zero gap t x (y ∷ starts) h l =
    ground (arith, begun_since-zero gap t y starts h.1 (omega (arith, h.0)))

begun_since-suc :
    (t x : ℕ) (starts : List ℕ) → t ≤ x → begun_since t (x ∷ starts) ≡ suc (begun_since t starts)
unfolding begun_since
begun_since-suc t x starts l = ground arith

window :
    (gap t x : ℕ) (starts : List ℕ)
    → Spaced gap (x ∷ starts)
    → t ≤ x
    → begun_since t (x ∷ starts) * gap + t ≤ x + gap
window gap t x [] h l = rw (begun_since-suc t x [] l) (unfold begun_since in omega arith)
window gap t x (y ∷ starts) h l = elim (dec_le t y) [
  | yes m ↦
      rw (begun_since-suc t x (y ∷ starts) l) (omega (arith, window gap t y starts h.1 m, h.0))
  | no m ↦
      rw (begun_since-suc t x (y ∷ starts) l)
        (rw (begun_since-zero gap t y starts h.1 (omega arith)) (omega arith))
]

window_of :
    (gap t now : ℕ) (starts : List ℕ)
    → Spaced gap starts
    → BegunBy starts now
    → t ≤ now
    → begun_since t starts * gap + t ≤ now + gap
window_of gap t now [] h b l = unfold begun_since in omega arith
window_of gap t now (x ∷ starts) h b l = elim (dec_le t x) [
  | yes m ↦ omega (arith, window gap t x starts h m)
  | no m ↦ rw (begun_since-zero gap t x starts h (omega arith)) (omega arith)
]

module _ {K : Type 0} (c : Timing) where
  -- A fetch ends: the flag is cleared, and the time is recorded.
  finish-IsPaced :
      (new_keys : Option (List (Str × K))) (s : Cache K) (clock now : ℕ) (starts : List ℕ)
      → clock ≤ now
      → IsPaced c s clock starts
      → IsPaced c (finish new_keys now s) now starts
  unfolding finish
  finish-IsPaced new_keys s clock now starts l h = record {
    spaced = h.spaced;
    begun = BegunBy-mono starts clock now l h.begun;
    ended = λ _. last_at new_keys starts (BegunBy-mono starts clock now l h.begun);
    ended_by = by_now new_keys;
  }
    where
      last_at :
          (new_keys : Option (List (Str × K))) (starts : List ℕ)
          → BegunBy starts now
          → Ended starts (finish new_keys now s).last_fetch
      last_at none [] b = tt
      last_at none (x ∷ r) b = b
      last_at (some ks) [] b = tt
      last_at (some ks) (x ∷ r) b = b

      by_now : (new_keys : Option (List (Str × K))) → EndedBy (finish new_keys now s).last_fetch now
      by_now none = omega arith
      by_now (some ks) = omega arith

  module _ (fits : c.min_refresh_interval ≤ c.ttl) where
    Step-IsPaced :
        {s u : System K}
        → Step c s u
        → IsPaced c s.cache s.clock s.starts
        → IsPaced c u.cache u.clock u.starts
    Step-IsPaced {s} (resolve i kid now now' at l l' e) h = rw e (
        Paces-IsPaced c fits s.cache (enter c kid now now' s.cache).0 s.clock now' s.starts _
          (omega arith)
          (enter-Paces c fits kid now now' s.cache s.starts
            (EndedBy-mono s.cache.last_fetch s.clock now' (omega arith) h.ended_by))
          h)
    Step-IsPaced {s} (resume i kid signalled now at l e) h = rw e (
        Paces-IsPaced c fits s.cache (wake c kid signalled now s.cache).0 s.clock now s.starts _ l
          (wake-Paces c fits kid signalled now s.cache s.starts
            (EndedBy-mono s.cache.last_fetch s.clock now l h.ended_by))
          h)
    Step-IsPaced {s} (complete i kid new_keys now at l e) h =
        rw e (finish-IsPaced new_keys s.cache s.clock now s.starts l h)
    Step-IsPaced {s} (look i kid now at l e) h = rw e (
        Paces-IsPaced c fits s.cache s.cache s.clock now s.starts s.starts l
          (still c fits now s.cache s.starts) h)
    Step-IsPaced {s} (ask_ready i now at l e) h = rw e (
        Paces-IsPaced c fits s.cache (ready_enter c now s.cache).0 s.clock now s.starts _ l
          (ready_enter-Paces c fits now s.cache s.starts
            (EndedBy-mono s.cache.last_fetch s.clock now l h.ended_by))
          h)
    Step-IsPaced {s} (complete_ready i new_keys now at l e) h =
        rw e (finish-IsPaced new_keys s.cache s.clock now s.starts l h)

    Reach-IsPaced : {t0 : ℕ} {s : System K} → Reach c t0 s → IsPaced c s.cache s.clock s.starts
    Reach-IsPaced here = record { spaced = tt; begun = tt; ended = λ _. tt; ended_by = tt }
    Reach-IsPaced (next r st) = Step-IsPaced st (Reach-IsPaced r)

    -- If the cooldown is no longer than the time to live of the keys, the fetches that are begun from
    -- a time on are, after the first, one for each cooldown that has passed since: whatever tokens
    -- the threads present, however many, and however the network answers.
    pub fetches_bounded :
        {t0 : ℕ} {s : System K} (t : ℕ)
        → Reach c t0 s
        → t ≤ s.clock
        → begun_since t s.starts * c.min_refresh_interval + t ≤ s.clock + c.min_refresh_interval
    fetches_bounded {s = s} t r l =
        window_of c.min_refresh_interval t s.clock s.starts (Reach-IsPaced r).spaced
          (Reach-IsPaced r).begun l
