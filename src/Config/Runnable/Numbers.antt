-- ===== src/Config/Runnable/Numbers.antt =====
-- src/mcp_gateway/config.py, `validate_runtime`: the tests on the numbers and the timeouts.
use mcp_auth_gateway.Prelude.{
  zero, suc, Str, true, false, not, ◌&&◌, ◌≡◌, ◌↔◌, ◌⊎◌, inl, inr, refl, arith, Option, none, some,
  [],
}
use mcp_auth_gateway.Prelude.Int.{
  ℤ, pos, negsuc, ◌≤ℤ◌, ◌<ℤ◌, ltb_ℤ, Float, nan, infinite, finite, is_negative, is_positive,
  is_nonpositive,
}
use mcp_auth_gateway.Config.{Settings, number_problems, timeout_problem, timeout_problems}
use mcp_auth_gateway.Config.Runnable.Outcomes.{append-empty_iff, problem_if_iff, split_if, join_if}

-- The ranges of the numbers; 0 is no limit for a request or a response.
pub record IsNumbers (s : Settings) : Type 0 where
  pub port_low : pos 0 <ℤ s.port
  pub port_high : s.port <ℤ pos 65536
  pub leeway : pos 0 ≤ℤ s.leeway_seconds
  pub ttl : pos 0 ≤ℤ s.jwks_cache_ttl
  pub refresh_interval : is_negative s.jwks_min_refresh_interval ≡ false
  pub request_bytes : pos 0 ≤ℤ s.max_request_bytes
  pub response_bytes : pos 0 ≤ℤ s.max_response_bytes
  pub tools_list_bytes : pos 0 <ℤ s.max_tools_list_bytes
  pub smaller : (s.max_response_bytes ≡ pos 0) ⊎ (s.max_tools_list_bytes <ℤ s.max_response_bytes)

smaller_of :
    (r t : ℤ)
    → ltb_ℤ r (pos 0) ≡ false
    → (ltb_ℤ (pos 0) r && not (ltb_ℤ t r)) ≡ false
    → (r ≡ pos 0) ⊎ (t <ℤ r)
smaller_of (negsuc n) t f k = ground arith
smaller_of (pos zero) t f k = inl refl
smaller_of (pos (suc n)) t f k = inr (ground arith)

-- The outcomes of the tests.
abbrev NumberTests : Settings → Type 0
NumberTests s =
    ((not (ltb_ℤ (pos 0) s.port && ltb_ℤ s.port (pos 65536))) ≡ false)
    × (ltb_ℤ s.leeway_seconds (pos 0) ≡ false)
    × (ltb_ℤ s.jwks_cache_ttl (pos 0) ≡ false)
    × (is_negative s.jwks_min_refresh_interval ≡ false)
    × (ltb_ℤ s.max_request_bytes (pos 0) ≡ false)
    × (ltb_ℤ s.max_response_bytes (pos 0) ≡ false)
    × (not (ltb_ℤ (pos 0) s.max_tools_list_bytes) ≡ false)
    × ((ltb_ℤ (pos 0) s.max_response_bytes
          && not (ltb_ℤ s.max_tools_list_bytes s.max_response_bytes))
        ≡ false)

number_tests : (s : Settings) → (number_problems s ≡ []) ↔ NumberTests s
unfolding number_problems
number_tests s = (
  λ h.
      let (a, h1) = split_if _ _ _ h in
      let (b, h2) = split_if _ _ _ h1 in
      let (c, h3) = split_if _ _ _ h2 in
      let (d, h4) = split_if _ _ _ h3 in
      let (e, h5) = split_if _ _ _ h4 in
      let (f, h6) = split_if _ _ _ h5 in
      let (g, h7) = split_if _ _ _ h6 in (a, b, c, d, e, f, g, (problem_if_iff _ _).0 h7),
  λ (a, b, c, d, e, f, g, k). join_if _ _ _ a (
      join_if _ _ _ b (
        join_if _ _ _ c (
          join_if _ _ _ d
            (join_if _ _ _ e (join_if _ _ _ f (join_if _ _ _ g ((problem_if_iff _ _).1 k))))))),
)

pub number_problems-IsNumbers_iff : (s : Settings) → (number_problems s ≡ []) ↔ IsNumbers s
number_problems-IsNumbers_iff s = (
  λ h.
      let (a, b, c, d, e, f, g, k) = (number_tests s).0 h in
      record {
        port_low = ground arith;
        port_high = ground arith;
        leeway = ground arith;
        ttl = ground arith;
        refresh_interval = d;
        request_bytes = ground arith;
        response_bytes = ground arith;
        tools_list_bytes = ground arith;
        smaller = smaller_of s.max_response_bytes s.max_tools_list_bytes f k;
      },
  λ n. (number_tests s).1 (
    ground arith,
    ground arith,
    ground arith,
    n.refresh_interval,
    ground arith,
    ground arith,
    ground arith,
    ground arith,
  ),
)

-- A timeout that is positive, or not a number.
abbrev pub IsTimeout : Float → Type 0
IsTimeout x = (x ≡ nan) ⊎ (is_positive x ≡ true)

is_nonpositive_iff : (x : Float) → (is_nonpositive x ≡ false) ↔ IsTimeout x
is_nonpositive_iff nan = (λ h. inl refl, λ h. refl)
is_nonpositive_iff (infinite true) = (λ h. cc, λ h. ground arith)
is_nonpositive_iff (infinite false) = (λ h. inr refl, λ h. refl)
is_nonpositive_iff (finite m k) = (λ h. inr (ground arith), λ h. ground arith)

abbrev pub IsTimeoutIfSet : Option Float → Type 0
IsTimeoutIfSet none = Unit
IsTimeoutIfSet (some x) = IsTimeout x

timeout_iff : (name : Str) (o : Option Float) → (timeout_problem name o ≡ []) ↔ IsTimeoutIfSet o
unfolding timeout_problem
timeout_iff name none = (λ h. tt, λ h. refl)
timeout_iff name (some x) =
    (λ h. (is_nonpositive_iff x).0 (ground arith), λ h. ground (arith, (is_nonpositive_iff x).1 h))

pub record IsTimeouts (s : Settings) : Type 0 where
  pub upstream : IsTimeout s.upstream_timeout
  pub connect : IsTimeoutIfSet s.connect_timeout
  pub read : IsTimeoutIfSet s.read_timeout
  pub write : IsTimeoutIfSet s.write_timeout
  pub pool : IsTimeoutIfSet s.pool_timeout

pub timeout_problems-IsTimeouts_iff : (s : Settings) → (timeout_problems s ≡ []) ↔ IsTimeouts s
unfolding timeout_problems
timeout_problems-IsTimeouts_iff s = (
  λ h.
      let (a, h1) = split_if _ _ _ h in
      let (b, h2) = (append-empty_iff (timeout_problem _ s.connect_timeout) _).0 h1 in
      let (c, h3) = (append-empty_iff (timeout_problem _ s.read_timeout) _).0 h2 in
      let (d, e) = (append-empty_iff (timeout_problem _ s.write_timeout) _).0 h3 in
      record {
        upstream = (is_nonpositive_iff s.upstream_timeout).0 a;
        connect = (timeout_iff _ s.connect_timeout).0 b;
        read = (timeout_iff _ s.read_timeout).0 c;
        write = (timeout_iff _ s.write_timeout).0 d;
        pool = (timeout_iff _ s.pool_timeout).0 e;
      },
  λ n. join_if _ _ _ ((is_nonpositive_iff s.upstream_timeout).1 n.upstream) (
      (append-empty_iff _ _).1 (
        (timeout_iff _ s.connect_timeout).1 n.connect,
        (append-empty_iff _ _).1 (
          (timeout_iff _ s.read_timeout).1 n.read,
          (append-empty_iff _ _).1
              ((timeout_iff _ s.write_timeout).1 n.write, (timeout_iff _ s.pool_timeout).1 n.pool),
        ),
      )),
)
