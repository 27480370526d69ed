-- ===== src/Config/Runnable.antt =====
-- The settings that `validate_runtime` passes, described without its messages.
use mcp_auth_gateway.Prelude.{
  ℕ, suc, ◌+◌, ◌≤◌, Str, Bool, true, false, not, ◌&&◌, ◌||◌, ◌≡◌, ◌≢◌, ◌↔◌, ◌⊎◌, inl, inr, refl,
  sym, ap, ◌∙◌, arith, Option, none, some, List, [], ◌∷◌, ◌++◌, codes, is_empty, eq_str, eq_str_iff,
  eq_str_refl, elem, starts_with, strip, drop, length, if◌then◌else◌, ltb, Result, ok, err,
  Bool-cases,
}
use mcp_auth_gateway.Prelude.Int.{
  ℤ, pos, negsuc, pos_part, neg_part, ◌≤ℤ◌, ◌<ℤ◌, ltb_ℤ, Float, nan, infinite, finite, is_negative,
  is_positive, is_nonpositive,
}
use mcp_auth_gateway.Verifier.{is_asymmetric}
use mcp_auth_gateway.App.Messages.{normalize_origin}
use mcp_auth_gateway.Config.{
  HttpUrl, Settings, Problem, missing_scope_policy, missing_tool_policy, problem_if, symmetric_ones,
  algorithm_problems, is_https, is_loopback, jwks_problems, endpoint_problems, file_problems,
  number_problems, timeout_problem, timeout_problems, has_http_scheme, after_first, has_char,
  origin_problem, origin_problems, base_url_problems, problems, raise_problems, validate_runtime,
}
use mcp_auth_gateway.Config.Visible.{IsVisible, is_empty-strip_iff}
pub mod Outcomes
pub mod Keys
pub mod Numbers
pub mod Origins
use mcp_auth_gateway.Config.Runnable.Keys.{
  AllAsymmetric, IsEndpoint, IsFile, algorithm_problems-AllAsymmetric_iff,
  endpoint_problems-IsEndpoint_iff, file_problems-IsFile_iff,
}
use mcp_auth_gateway.Config.Runnable.Numbers.{
  IsNumbers, IsTimeouts, number_problems-IsNumbers_iff, timeout_problems-IsTimeouts_iff,
}
use mcp_auth_gateway.Config.Runnable.Origins.{
  AllOrigins, IsBaseUrl, origin_problems-AllOrigins_iff, base_url_problems-IsBaseUrl_iff,
}
use mcp_auth_gateway.Config.Runnable.Outcomes.{
  append-empty_iff, problem_if_iff, split_if, join_if, append_none,
}

-- Settings to run with.
pub record IsRunnable (is_file : Str → Bool) (s : Settings) : Type 0 where
  pub issuer : IsVisible s.issuer
  pub audience : IsVisible s.audience
  pub some_algorithm : is_empty s.allowed_algorithms ≡ false
  pub asymmetric : AllAsymmetric s.allowed_algorithms
  pub endpoint : IsEndpoint s
  pub scope_policy : IsFile is_file s.scope_policy_file
  pub tool_policy : IsFile is_file s.tool_policy_file
  pub numbers : IsNumbers s
  pub timeouts : IsTimeouts s
  pub origins : AllOrigins s.allowed_origins
  pub base_url : IsBaseUrl s.public_base_url

raised_none : (ps : List Problem) → raise_problems ps ≡ ok tt → ps ≡ []
unfolding raise_problems
raised_none [] h = refl
raised_none (p ∷ ps) h = cc

no_problem : (is_file : Str → Bool) (s : Settings) → IsRunnable is_file s → problems is_file s ≡ []
unfolding problems
no_problem is_file s r = join_if _ _ _ ((is_empty-strip_iff s.issuer).1 r.issuer) (
    join_if _ _ _ ((is_empty-strip_iff s.audience).1 r.audience) (
      append_none
        ((algorithm_problems-AllAsymmetric_iff s.allowed_algorithms).1
          (r.some_algorithm, r.asymmetric))
        (append_none ((endpoint_problems-IsEndpoint_iff s).1 r.endpoint) (
          append_none
            ((file_problems-IsFile_iff is_file missing_scope_policy s.scope_policy_file).1
              r.scope_policy)
            (append_none
              ((file_problems-IsFile_iff is_file missing_tool_policy s.tool_policy_file).1
                r.tool_policy)
              (append_none ((number_problems-IsNumbers_iff s).1 r.numbers) (
                append_none ((timeout_problems-IsTimeouts_iff s).1 r.timeouts) (
                  append_none ((origin_problems-AllOrigins_iff s.allowed_origins).1 r.origins)
                    ((base_url_problems-IsBaseUrl_iff s.public_base_url).1 r.base_url)))))))))

-- `validate_runtime` passes settings exactly when they are fit to run with: the issuer and the
-- audience are not blank, there is an algorithm and all are asymmetric, the keys come over https or
-- from this machine, the policy files are there, the numbers are in their ranges with the bound on a
-- tools/list response below that on any response, no timeout is zero or negative, the origins have no
-- path, and the public URL has a scheme.
pub validate_runtime_iff :
    (is_file : Str → Bool) (s : Settings)
    → (validate_runtime is_file s ≡ ok tt) ↔ IsRunnable is_file s
unfolding validate_runtime
validate_runtime_iff is_file s = (
  λ h.
      let (a, h1) = split_if (is_empty (strip s.issuer)) _ _ (raised_none (problems is_file s) h) in
      let (b, h2) = split_if (is_empty (strip s.audience)) _ _ h1 in
      let (c, h3) = (append-empty_iff (algorithm_problems s.allowed_algorithms) _).0 h2 in
      let (d, h4) = (append-empty_iff (endpoint_problems s) _).0 h3 in
      let (e, h5) =
        (append-empty_iff (file_problems is_file missing_scope_policy s.scope_policy_file) _).0
          h4 in
      let (f, h6) =
        (append-empty_iff (file_problems is_file missing_tool_policy s.tool_policy_file) _).0 h5 in
      let (g, h7) = (append-empty_iff (number_problems s) _).0 h6 in
      let (k, h8) = (append-empty_iff (timeout_problems s) _).0 h7 in
      let (l, m) = (append-empty_iff (origin_problems s.allowed_origins) _).0 h8 in
      let algorithms = (algorithm_problems-AllAsymmetric_iff s.allowed_algorithms).0 c in
      record {
        issuer = (is_empty-strip_iff s.issuer).0 a;
        audience = (is_empty-strip_iff s.audience).0 b;
        some_algorithm = algorithms.0;
        asymmetric = algorithms.1;
        endpoint = (endpoint_problems-IsEndpoint_iff s).0 d;
        scope_policy =
            (file_problems-IsFile_iff is_file missing_scope_policy s.scope_policy_file).0 e;
        tool_policy = (file_problems-IsFile_iff is_file missing_tool_policy s.tool_policy_file).0 f;
        numbers = (number_problems-IsNumbers_iff s).0 g;
        timeouts = (timeout_problems-IsTimeouts_iff s).0 k;
        origins = (origin_problems-AllOrigins_iff s.allowed_origins).0 l;
        base_url = (base_url_problems-IsBaseUrl_iff s.public_base_url).0 m;
      },
  λ r. ap raise_problems (no_problem is_file s r),
)
