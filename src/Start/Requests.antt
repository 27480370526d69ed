-- ===== src/Start/Requests.antt =====
-- Whose requests an application that `build` makes lets through to the upstream.

use mcp_auth_gateway.Prelude.{
  ℕ, Str, Bool, true, false, ◌≡◌, refl, ap, ◌∙◌, arith, Option, none, some, List, [], ◌∷◌, codes,
  is_empty, eq_str, eq_str_iff, elem, Result, ok, Bool-cases, inl, inr,
}
use mcp_auth_gateway.Json.{Json, str, get}
use mcp_auth_gateway.Json.Decode.{Document}
use mcp_auth_gateway.Verifier.{Jwt, VerifiedToken, is_asymmetric, is_allowed, verify}
use mcp_auth_gateway.Verifier.Cache.{KeyError}
use mcp_auth_gateway.Verifier.Setup.{JwksSettings}
use mcp_auth_gateway.Verifier.Verified.{IsVerified, verify-IsVerified}
use mcp_auth_gateway.Config.{HttpUrl, Settings}
use mcp_auth_gateway.Config.Runnable.Keys.{AllAsymmetric}
use mcp_auth_gateway.App.Messages.{Request, header, bearer_token}
use mcp_auth_gateway.App.{Authorized, authorize}
use mcp_auth_gateway.App.Admitted.{IsAuthentic, authorize-IsAuthorized}
use mcp_auth_gateway.Start.{Served, jwks_settings, create_app, build}
use mcp_auth_gateway.Start.Built.{IsFor, jwks_settings-IsFor, IsVerifier-settings, build_served_iff}

-- An algorithm that is allowed is among those listed, all of which are asymmetric.
listed-asymmetric :
    (alg : Str) (algs : List Str)
    → AllAsymmetric algs
    → elem alg algs ≡ true
    → is_asymmetric alg ≡ true
unfolding elem
listed-asymmetric alg [] h e = cc
listed-asymmetric alg (b ∷ algs) (t, h) e = elim (Bool-cases (eq_str alg b)) [
  | inl q ↦ ap is_asymmetric ((eq_str_iff alg b).0 q) ∙ t
  | inr f ↦ listed-asymmetric alg algs h (ground arith)
]

allowed-asymmetric :
    (algs : List Str) (o : Option Json)
    → AllAsymmetric algs
    → is_allowed algs o ≡ true
    → (alg : Str) × (o ≡ some (str alg)) × (is_asymmetric alg ≡ true)
allowed-asymmetric algs (some (str alg)) h e = (alg, refl, listed-asymmetric alg algs h e)
allowed-asymmetric algs none h e = cc
allowed-asymmetric algs (some _) h e = cc

module _ {K : Type 0} (jwt : JwksSettings → Jwt K)
    (resolve_key : JwksSettings → Str → Result KeyError K) (scan : List ℕ → Document) where
  -- Whose request it is, for some settings.
  pub record HasCaller (s : Settings) (r : Request) (a : Authorized) : Type 0 where
    pub caller : VerifiedToken
    pub is_verified : a.verified ≡ some caller
    pub settings : JwksSettings
    pub are_for : IsFor s settings
    pub token_verified :
        IsVerified
          (jwt settings)
          s.allowed_algorithms
          (resolve_key settings)
          (bearer_token (header (codes "authorization") r))
          caller
    pub algorithm : Str
    pub algorithm_named : get (codes "alg") token_verified.header ≡ some (str algorithm)
    pub asymmetric : is_asymmetric algorithm ≡ true

  caller_of :
      (s : Settings) (app : Served) (r : Request) (o : Option VerifiedToken)
      → app.settings ≡ s
      → s.require_auth ≡ true
      → app.verifier ≡ some (jwks_settings s)
      → IsAuthentic (create_app jwt resolve_key scan app) r o
      → (v : VerifiedToken) × (o ≡ some v)
        × (verify
              (jwt (jwks_settings s))
              s.allowed_algorithms
              (resolve_key (jwks_settings s))
              (bearer_token (header (codes "authorization") r))
            ≡ ok v)
  unfolding create_app
  caller_of s app r none e t h (IsAuthentic.auth_off f) = cc
  caller_of s app r _ e t h (IsAuthentic.bearer check w z q n k) = (w, refl, cc)

  -- Where authentication is on, every request that the application of `build` lets through to the
  -- upstream carries a bearer token that PyJWT accepts for the issuer, the audience and the algorithms
  -- of the settings, with a key from the settings' endpoint, and that is signed with an asymmetric
  -- algorithm: it is never forwarded without a verified caller. The text of a URL is not empty.
  pub built-HasCaller :
      (is_file : Str → Bool) (load : Str → Option Json) (s : Settings) (app : Served)
      (request_id : Str) (r : Request) (a : Authorized)
      → ((u : HttpUrl) → s.jwks_url ≡ some u → is_empty u.text ≡ false)
      → s.require_auth ≡ true
      → build is_file load s ≡ ok app
      → authorize (create_app jwt resolve_key scan app) request_id r ≡ ok a
      → HasCaller s r a
  built-HasCaller is_file load s app request_id r a printed t b h =
      let i = (build_served_iff s printed is_file load app).0 b in
      let k = authorize-IsAuthorized (create_app jwt resolve_key scan app) request_id r a h in
      let (v, q, p) =
        caller_of s app r a.verified i.settings t (IsVerifier-settings s app.verifier t i.verifier)
          k.authentic in
      let d =
        verify-IsVerified (jwt (jwks_settings s)) s.allowed_algorithms
          (resolve_key (jwks_settings s)) (bearer_token (header (codes "authorization") r)) v p in
      let (alg, e, f) =
        allowed-asymmetric s.allowed_algorithms (get (codes "alg") d.header) i.runnable.asymmetric
          d.allowed in
      record {
        caller = v;
        is_verified = q;
        settings = jwks_settings s;
        are_for = jwks_settings-IsFor s;
        token_verified = d;
        algorithm = alg;
        algorithm_named = e;
        asymmetric = f;
      }
