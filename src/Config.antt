-- ===== src/Config.antt =====
-- src/mcp_gateway/config.py: the settings and `validate_runtime`. pydantic's parse of the environment
-- into `Settings` is not modelled; the test whether a path is a file is a parameter.
pub mod Visible
pub mod Runnable
use mcp_auth_gateway.Prelude.{
  ℕ, ◌+◌, Str, Bool, true, false, not, ◌&&◌, ◌||◌, Option, none, some, is_some, List, [], ◌∷◌, ◌++◌,
  codes, is_empty, eq_str, elem, starts_with, strip, drop, length, if◌then◌else◌, ◌==◌, Result, ok,
  err,
}
use mcp_auth_gateway.Prelude.Int.{
  ℤ, pos, negsuc, pos_part, neg_part, ltb_ℤ, Float, is_negative, is_nonpositive,
}
use mcp_auth_gateway.Prelude.Int
use mcp_auth_gateway.Verifier.{is_asymmetric}
use mcp_auth_gateway.App.Messages.{normalize_origin}

-- What pydantic makes of a URL; `text` is its `str`.
pub record HttpUrl : Type 0 where
  pub scheme : Str
  pub host : Option Str
  pub text : Str

pub record Settings : Type 0 where
  pub host : Str
  pub port : ℤ
  pub upstream_url : HttpUrl
  pub issuer : Str
  pub audience : Str
  pub jwks_url : Option HttpUrl
  pub allow_insecure_jwks : Bool
  pub allowed_algorithms : List Str
  pub leeway_seconds : ℤ
  pub jwks_cache_ttl : ℤ
  pub jwks_min_refresh_interval : Float
  pub scope_policy_file : Option Str
  pub tool_policy_file : Option Str
  pub allowed_origins : List Str
  pub require_auth : Bool
  pub upstream_timeout : Float
  pub connect_timeout : Option Float
  pub read_timeout : Option Float
  pub write_timeout : Option Float
  pub pool_timeout : Option Float
  pub max_request_bytes : ℤ
  pub max_response_bytes : ℤ
  pub max_tools_list_bytes : ℤ
  pub public_base_url : Option Str

-- The problems, by their messages.
pub data Problem : Type 0 where
  empty_issuer empty_audience no_algorithms : Problem
  symmetric_algorithms : List Str → Problem
  no_jwks_url insecure_jwks_url remote_insecure_jwks : Problem
  missing_scope_policy missing_tool_policy : Str → Problem
  bad_port negative_leeway negative_ttl : ℤ → Problem
  negative_refresh_interval : Float → Problem
  negative_request_bytes negative_response_bytes bad_tools_list_bytes : ℤ → Problem
  tools_list_not_smaller : Problem
  bad_upstream_timeout : Float → Problem
  bad_timeout : Str → Float → Problem
  origin_without_scheme origin_with_path : Str → Problem
  bad_public_base_url : Str → Problem

-- `if test: problems.append(p)`
abbrev pub problem_if : Bool → Problem → List Problem
problem_if test p = if test then p ∷ [] else []

-- `not a.startswith(("RS", "ES", "PS"))`
unfoldable pub symmetric_ones : List Str → List Str
unfolding is_asymmetric
symmetric_ones [] = []
symmetric_ones (a ∷ algs) =
    let rest = symmetric_ones algs in if is_asymmetric a then rest else a ∷ rest

unfoldable pub algorithm_problems : List Str → List Problem
unfolding symmetric_ones
algorithm_problems [] = no_algorithms ∷ []
algorithm_problems (a ∷ algs) =
    problem_if (not (is_empty (symmetric_ones (a ∷ algs))))
      (symmetric_algorithms (symmetric_ones (a ∷ algs)))

abbrev pub is_https : HttpUrl → Bool
is_https u = eq_str u.scheme (codes "https")

-- `host in {"localhost", "127.0.0.1", "::1"}`
abbrev pub is_loopback : Option Str → Bool
is_loopback none = false
is_loopback (some h) = elem h (codes "localhost" ∷ codes "127.0.0.1" ∷ codes "::1" ∷ [])

-- the three tests on the JWKS endpoint where authentication is on
unfoldable pub jwks_problems : Bool → Option HttpUrl → List Problem
jwks_problems allow_insecure none = no_jwks_url ∷ []
jwks_problems allow_insecure (some u) =
    problem_if (not (is_https u) && not allow_insecure) insecure_jwks_url
    ++ problem_if (not (is_https u) && (allow_insecure && not (is_loopback u.host)))
        remote_insecure_jwks

unfoldable pub endpoint_problems : Settings → List Problem
unfolding jwks_problems
endpoint_problems s = if s.require_auth then jwks_problems s.allow_insecure_jwks s.jwks_url else []

-- `path and not os.path.isfile(path)`
unfoldable pub file_problems : (Str → Bool) → (Str → Problem) → Option Str → List Problem
file_problems is_file p none = []
file_problems is_file p (some path) =
    problem_if (not (is_empty path) && not (is_file path)) (p path)

-- the numbers, from the port to the bound on a tools/list response
unfoldable pub number_problems : Settings → List Problem
number_problems s =
    problem_if (not (ltb_ℤ (pos 0) s.port && ltb_ℤ s.port (pos 65536))) (bad_port s.port)
    ++ (problem_if (ltb_ℤ s.leeway_seconds (pos 0)) (negative_leeway s.leeway_seconds)
        ++ (problem_if (ltb_ℤ s.jwks_cache_ttl (pos 0)) (negative_ttl s.jwks_cache_ttl)
            ++ (problem_if (is_negative s.jwks_min_refresh_interval)
                  (negative_refresh_interval s.jwks_min_refresh_interval)
                ++ (problem_if (ltb_ℤ s.max_request_bytes (pos 0))
                      (negative_request_bytes s.max_request_bytes)
                    ++ (problem_if (ltb_ℤ s.max_response_bytes (pos 0))
                          (negative_response_bytes s.max_response_bytes)
                        ++ (problem_if (not (ltb_ℤ (pos 0) s.max_tools_list_bytes))
                              (bad_tools_list_bytes s.max_tools_list_bytes)
                            ++ problem_if
                                (ltb_ℤ (pos 0) s.max_response_bytes
                                  && not (ltb_ℤ s.max_tools_list_bytes s.max_response_bytes))
                                tools_list_not_smaller))))))

unfoldable pub timeout_problem : Str → Option Float → List Problem
timeout_problem name none = []
timeout_problem name (some value) = problem_if (is_nonpositive value) (bad_timeout name value)

unfoldable pub timeout_problems : Settings → List Problem
unfolding timeout_problem
timeout_problems s =
    problem_if (is_nonpositive s.upstream_timeout) (bad_upstream_timeout s.upstream_timeout)
    ++ (timeout_problem (codes "GATEWAY_CONNECT_TIMEOUT") s.connect_timeout
        ++ (timeout_problem (codes "GATEWAY_READ_TIMEOUT") s.read_timeout
            ++ (timeout_problem (codes "GATEWAY_WRITE_TIMEOUT") s.write_timeout
                ++ timeout_problem (codes "GATEWAY_POOL_TIMEOUT") s.pool_timeout)))

-- `v.startswith(("http://", "https://"))`
abbrev pub has_http_scheme : Str → Bool
has_http_scheme v = starts_with v (codes "http://") || starts_with v (codes "https://")

-- `v.split(sep, 1)[1]`, for a `v` that has `sep` in it
unfoldable pub after_first : Str → Str → Str
after_first sep [] = []
after_first sep (c ∷ v) =
    let rest = after_first sep v in
    if starts_with (c ∷ v) sep then drop (length sep) (c ∷ v) else rest

-- `c in v`
unfoldable pub has_char : ℕ → Str → Bool
has_char c [] = false
has_char c (d ∷ v) = d == c || has_char c v

unfoldable pub origin_problem : Str → List Problem
unfolding normalize_origin after_first has_char
origin_problem o =
    let v = normalize_origin o in
    if eq_str v (codes "null")
    then []
    else if not (has_http_scheme v)
    then origin_without_scheme o ∷ []
    else problem_if (has_char b'/' (after_first (codes "://") v)) (origin_with_path o)

-- the loop over the origins
unfoldable pub origin_problems : List Str → List Problem
unfolding origin_problem
origin_problems [] = []
origin_problems (o ∷ origins) = origin_problem o ++ origin_problems origins

unfoldable pub base_url_problems : Option Str → List Problem
base_url_problems none = []
base_url_problems (some url) =
    problem_if (not (is_empty url) && not (has_http_scheme url)) (bad_public_base_url url)

-- `problems`
unfoldable pub problems : (Str → Bool) → Settings → List Problem
unfolding algorithm_problems endpoint_problems file_problems number_problems timeout_problems
    origin_problems base_url_problems
problems is_file s =
    problem_if (is_empty (strip s.issuer)) empty_issuer
    ++ (problem_if (is_empty (strip s.audience)) empty_audience
        ++ (algorithm_problems s.allowed_algorithms
            ++ (endpoint_problems s
                ++ (file_problems is_file missing_scope_policy s.scope_policy_file
                    ++ (file_problems is_file missing_tool_policy s.tool_policy_file
                        ++ (number_problems s
                            ++ (timeout_problems s
                                ++ (origin_problems s.allowed_origins
                                    ++ base_url_problems s.public_base_url))))))))

-- `raise ConfigError(problems)`
unfoldable pub raise_problems : List Problem → Result (List Problem) (Unit {0})
raise_problems [] = ok tt
raise_problems (p ∷ ps) = err (p ∷ ps)

unfoldable pub validate_runtime : (Str → Bool) → Settings → Result (List Problem) (Unit {0})
unfolding problems raise_problems
validate_runtime is_file s = raise_problems (problems is_file s)
