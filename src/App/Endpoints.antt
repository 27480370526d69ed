-- ===== src/App/Endpoints.antt =====
-- src/mcp_gateway/app.py: `livez`, `readyz`, the resource metadata and `_build_timeout`.
pub mod Discovered
use mcp_auth_gateway.Prelude.{
  ℕ, Str, Bool, Option, none, some, List, [], ◌∷◌, ◌++◌, codes, sorted, frozenset, if◌then◌else◌,
}
use mcp_auth_gateway.Prelude.Int.{Float}
use mcp_auth_gateway.Policy.{ScopePolicy}
use mcp_auth_gateway.Config
use mcp_auth_gateway.App.Messages.{Settings, base_url}

-- A status code, and the `status` of the body.
abbrev pub Health : Type 0
Health = ℕ × Str

abbrev pub livez : Health
livez = (200, codes "ok")

-- `ready` is what the verifier's `ready` answers
abbrev pub ready_answer : Bool → Health
ready_answer ready = if ready then (200, codes "ready") else (503, codes "not_ready")

abbrev pub asked : Option Bool → Health
asked none = (503, codes "not_ready")
asked (some ready) = ready_answer ready

unfoldable pub readyz : Settings → Option Bool → Health
readyz s verifier_ready = if s.require_auth then asked verifier_ready else (200, codes "ready")

pub record Metadata : Type 0 where
  pub resource : Str
  pub authorization_servers : List Str
  pub scopes_supported : List Str
  pub bearer_methods_supported : List Str

-- `s for scopes in policy.rules.values() for s in scopes`
unfoldable pub rule_scopes : List (Str × List Str) → List Str
rule_scopes [] = []
rule_scopes ((_, scopes) ∷ rules) = scopes ++ rule_scopes rules

unfoldable pub scopes_of : ScopePolicy → List Str
unfolding rule_scopes
scopes_of p = sorted (frozenset (rule_scopes p.rules ++ p.default))

unfoldable pub protected_resource_metadata : Settings → ScopePolicy → Metadata
unfolding base_url scopes_of
protected_resource_metadata s p = record {
  resource = base_url s;
  authorization_servers = s.issuer ∷ [];
  scopes_supported = scopes_of p;
  bearer_methods_supported = codes "header" ∷ [];
}

-- The arguments of `httpx.Timeout`.
pub record Timeout : Type 0 where
  pub connect : Float
  pub read : Float
  pub write : Float
  pub pool : Float

abbrev pub or_base : Float → Option Float → Float
or_base base none = base
or_base base (some value) = value

-- `_build_timeout`
unfoldable pub build_timeout : Config.Settings → Timeout
build_timeout s = record {
  connect = or_base s.upstream_timeout s.connect_timeout;
  read = or_base s.upstream_timeout s.read_timeout;
  write = or_base s.upstream_timeout s.write_timeout;
  pool = or_base s.upstream_timeout s.pool_timeout;
}
