-- ===== src/Verifier/Setup.antt =====
-- src/mcp_gateway/verifier.py, `JwksVerifier.__init__`: its guards, and what it keeps of its arguments.
use mcp_auth_gateway.Prelude.{Str, not, List, is_empty, Result, ok, ◌>>◌, require}
use mcp_auth_gateway.Prelude.Int.{ℤ, Float}
use mcp_auth_gateway.Verifier.{algorithms_ok}

pub data SetupError : Type 0 where
  no_jwks_url : SetupError
  not_asymmetric : List Str → SetupError

pub record JwksSettings : Type 0 where
  pub jwks_url : Str
  pub issuer : Str
  pub audience : Str
  pub algorithms : List Str
  pub leeway : ℤ
  pub ttl : ℤ
  pub min_refresh_interval : Float

-- `JwksVerifier(...)`
unfoldable pub construct : JwksSettings → Result SetupError JwksSettings
unfolding algorithms_ok
construct s = do
  require (not (is_empty s.jwks_url)) no_jwks_url
  require (algorithms_ok s.algorithms) (not_asymmetric s.algorithms)
  ok s
