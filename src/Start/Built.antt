-- ===== src/Start/Built.antt =====
-- When the gateway starts, and with what.
use mathlib.Core.Path.{subst}
use mcp_auth_gateway.Prelude.{
  Str, Bool, true, false, ◌≡◌, ◌↔◌, inl, inr, refl, ap, ◌∙◌, arith, Option, none, some, List, [],
  ◌∷◌, is_empty, ok, >>=-eq-ok, Bool-cases,
}
use mcp_auth_gateway.Json.{Json}
use mcp_auth_gateway.Verifier.{algorithms_ok}
use mcp_auth_gateway.Verifier.Setup.{JwksSettings, construct}
use mcp_auth_gateway.Config.{HttpUrl, Settings, validate_runtime}
use mcp_auth_gateway.Config.Runnable.{IsRunnable, validate_runtime_iff}
use mcp_auth_gateway.Config.Runnable.Keys.{AllAsymmetric}
use mcp_auth_gateway.Start.{
  config_error, Served, with_error, scope_policy_of, tool_policy_of, url_text, jwks_settings,
  construct_verifier, verifier_of, build,
}
use mcp_auth_gateway.Start.Policies.{
  IsScopePolicy, IsToolPolicy, with_error_ok, scope_policy_of_iff, tool_policy_of_iff,
}

-- What a verifier takes from the settings.
pub record IsFor (s : Settings) (j : JwksSettings) : Type 0 where
  pub jwks_url : j.jwks_url ≡ url_text s.jwks_url
  pub issuer : j.issuer ≡ s.issuer
  pub audience : j.audience ≡ s.audience
  pub algorithms : j.algorithms ≡ s.allowed_algorithms
  pub leeway : j.leeway ≡ s.leeway_seconds
  pub ttl : j.ttl ≡ s.jwks_cache_ttl
  pub min_refresh_interval : j.min_refresh_interval ≡ s.jwks_min_refresh_interval

pub jwks_settings-IsFor : (s : Settings) → IsFor s (jwks_settings s)
jwks_settings-IsFor s = record {
  jwks_url = refl;
  issuer = refl;
  audience = refl;
  algorithms = refl;
  leeway = refl;
  ttl = refl;
  min_refresh_interval = refl;
}

IsFor-jwks_settings : (s : Settings) (j : JwksSettings) → IsFor s j → j ≡ jwks_settings s
IsFor-jwks_settings s j i =
    rw
      (
        ← i.jwks_url,
        ← i.issuer,
        ← i.audience,
        ← i.algorithms,
        ← i.leeway,
        ← i.ttl,
        ← i.min_refresh_interval,
      )
      refl

-- The verifier: none where authentication is off, else one for the settings.
pub data IsVerifier (s : Settings) (v : Option JwksSettings) : Type 0 where
  auth_off : s.require_auth ≡ false → v ≡ none → IsVerifier s v
  auth_on : (j : JwksSettings) → s.require_auth ≡ true → v ≡ some j → IsFor s j → IsVerifier s v

pub IsVerifier-settings :
    (s : Settings) (v : Option JwksSettings)
    → s.require_auth ≡ true
    → IsVerifier s v
    → v ≡ some (jwks_settings s)
IsVerifier-settings s v t (IsVerifier.auth_off f q) = cc
IsVerifier-settings s v t (IsVerifier.auth_on j u q i) = q ∙ ap some (IsFor-jwks_settings s j i)

-- What is served for some settings.
pub record IsServed (is_file : Str → Bool) (load : Str → Option Json) (s : Settings) (app : Served)
    : Type 0 where
  pub runnable : IsRunnable is_file s
  pub settings : app.settings ≡ s
  pub policy : IsScopePolicy load s.scope_policy_file app.policy
  pub tool_policy : IsToolPolicy load s.tool_policy_file app.tool_policy
  pub verifier : IsVerifier s app.verifier

algorithms_ok_of :
    (algs : List Str) → is_empty algs ≡ false → AllAsymmetric algs → algorithms_ok algs ≡ true
unfolding algorithms_ok
algorithms_ok_of [] n a = cc
algorithms_ok_of (a ∷ []) n (t, u) = t
algorithms_ok_of (a ∷ b ∷ algs) n (t, u) = ground (arith, algorithms_ok_of (b ∷ algs) refl u)

-- The URLs of some settings are printed as texts that are not empty.
module _ (s : Settings)
    (printed : (u : HttpUrl) → s.jwks_url ≡ some u → is_empty u.text ≡ false) where
  url_text-given : (o : Option HttpUrl) → s.jwks_url ≡ o → is_empty (url_text o) ≡ false
  url_text-given none e = refl
  url_text-given (some u) e = printed u e

  constructed :
      (is_file : Str → Bool)
      → IsRunnable is_file s
      → construct_verifier (jwks_settings s) ≡ ok (some (jwks_settings s))
  unfolding construct_verifier construct
  constructed is_file r =
      let a = algorithms_ok_of s.allowed_algorithms r.some_algorithm r.asymmetric in
      let n = url_text-given s.jwks_url refl in rw (n, a) refl

  verifier_of_iff :
      (is_file : Str → Bool) (v : Option JwksSettings)
      → IsRunnable is_file s
      → (verifier_of s ≡ ok v) ↔ IsVerifier s v
  unfolding verifier_of
  verifier_of_iff is_file v r = (
    λ h. elim (Bool-cases s.require_auth) [
      | inl t ↦
          IsVerifier.auth_on (jwks_settings s) t (ground (arith, constructed is_file r))
            (jwks_settings-IsFor s)
      | inr f ↦ IsVerifier.auth_off f (ground arith)
    ],
    λ i. elim i [
      | IsVerifier.auth_off f q ↦ ground arith
      | IsVerifier.auth_on j t q f ↦
          let e = q ∙ ap some (IsFor-jwks_settings s j f) in ground (arith, constructed is_file r)
    ],
  )

  -- `build` makes an application exactly when the settings are fit to run with and the policy files
  -- that they name can be read and parsed. It is for these settings, the scope policy is the file's,
  -- or the built-in one where no file is named, the tool policy is the file's, or none, and it has a
  -- verifier exactly where authentication is on: its key endpoint, issuer, audience, algorithms, leeway
  -- and intervals are those of the settings. The text of a URL is not empty.
  pub build_served_iff :
      (is_file : Str → Bool) (load : Str → Option Json) (app : Served)
      → (build is_file load s ≡ ok app) ↔ IsServed is_file load s app
  unfolding build
  build_served_iff is_file load app = (
    λ h.
        let (u, a, h1) = >>=-eq-ok (with_error config_error (validate_runtime is_file s)) _ h in
        let (p, b, h2) = >>=-eq-ok (scope_policy_of load s.scope_policy_file) _ h1 in
        let (t, c, h3) = >>=-eq-ok (tool_policy_of load s.tool_policy_file) _ h2 in
        let (v, d, h4) = >>=-eq-ok (verifier_of s) _ h3 in
        let r =
          (validate_runtime_iff is_file s).0
            (with_error_ok config_error (validate_runtime is_file s) a) in
        let q : record { settings = s; verifier = v; policy = p; tool_policy = t } ≡ app =
          ground arith in
        subst (IsServed is_file load s) q (record {
          runnable = r;
          settings = refl;
          policy = (scope_policy_of_iff load s.scope_policy_file p).0 b;
          tool_policy = (tool_policy_of_iff load s.tool_policy_file t).0 c;
          verifier = (verifier_of_iff is_file v r).0 d;
        }),
    λ i.
        let a = (validate_runtime_iff is_file s).1 i.runnable in
        let b = (scope_policy_of_iff load s.scope_policy_file app.policy).1 i.policy in
        let c = (tool_policy_of_iff load s.tool_policy_file app.tool_policy).1 i.tool_policy in
        let d = (verifier_of_iff is_file app.verifier i.runnable).1 i.verifier in
        let e = i.settings in rw (a, b, c, d) (ground arith),
  )
