-- ===== src/Start.antt =====
-- src/mcp_gateway/__main__.py: `build` and `main`. A file is `none` where `open` or `json.load` raises;
-- the server that `main` runs is not modelled.
pub mod Policies
pub mod Built
pub mod Requests
pub mod Logging
pub mod Application
use mcp_auth_gateway.Prelude.{
  ℕ, Str, Bool, Option, none, some, List, codes, is_empty, if◌then◌else◌, Result, ok, err, ◌>>=◌,
  ◌>>◌,
}
use mcp_auth_gateway.Prelude.Int.{ℤ, pos_part}
use mcp_auth_gateway.Json.{Json}
use mcp_auth_gateway.Json.Decode.{Document}
use mcp_auth_gateway.Policy
use mcp_auth_gateway.Policy.{ScopePolicy}
use mcp_auth_gateway.Policy.File as ScopeFile
use mcp_auth_gateway.Policy.File.{PolicyError}
use mcp_auth_gateway.ToolPolicy.{ToolPolicy}
use mcp_auth_gateway.ToolPolicy.File as ToolFile
use mcp_auth_gateway.ToolPolicy.File.{ToolPolicyError}
use mcp_auth_gateway.Verifier.{Jwt, TokenError, VerifiedToken, verify}
use mcp_auth_gateway.Verifier.Cache.{KeyError}
use mcp_auth_gateway.Verifier.Setup.{SetupError, JwksSettings, construct}
use mcp_auth_gateway.Config.{HttpUrl, Settings, Problem, validate_runtime}
use mcp_auth_gateway.App.Messages
use mcp_auth_gateway.App.Messages.{Env}

pub data StartError : Type 0 where
  config_error : List Problem → StartError
  unreadable : Str → StartError
  policy_error : PolicyError → StartError
  tool_policy_error : ToolPolicyError → StartError
  setup_error : SetupError → StartError

-- What `create_app` is given.
pub record Served : Type 0 where
  pub settings : Settings
  pub verifier : Option JwksSettings
  pub policy : ScopePolicy
  pub tool_policy : Option ToolPolicy

abbrev pub with_error : {E A : Type 0} → (E → StartError) → Result E A → Result StartError A
with_error f (err e) = err (f e)
with_error f (ok a) = ok a

abbrev pub readable : Str → Option Json → Result StartError Json
readable path none = err (unreadable path)
readable path (some j) = ok j

-- `json.load(open(path))`
abbrev pub read : (Str → Option Json) → Str → Result StartError Json
read load path = readable path (load path)

-- `ScopePolicy.from_file(path)` and `ToolPolicy.from_file(path)`
unfoldable pub load_scope_policy : (Str → Option Json) → Str → Result StartError ScopePolicy
load_scope_policy load path = do j ← read load path; with_error policy_error (ScopeFile.from_file j)

unfoldable pub load_tool_policy : (Str → Option Json) → Str → Result StartError (Option ToolPolicy)
load_tool_policy load path = do
  j ← read load path
  p ← with_error tool_policy_error (ToolFile.from_file j)
  ok (some p)

unfoldable pub scope_policy_of : (Str → Option Json) → Option Str → Result StartError ScopePolicy
unfolding load_scope_policy
scope_policy_of load none = ok Policy.builtin
scope_policy_of load (some path) =
    if is_empty path then ok Policy.builtin else load_scope_policy load path

unfoldable pub tool_policy_of :
    (Str → Option Json) → Option Str → Result StartError (Option ToolPolicy)
unfolding load_tool_policy
tool_policy_of load none = ok none
tool_policy_of load (some path) = if is_empty path then ok none else load_tool_policy load path

-- `str(settings.jwks_url)`
abbrev pub url_text : Option HttpUrl → Str
url_text none = codes "None"
url_text (some u) = u.text

abbrev pub jwks_settings : Settings → JwksSettings
jwks_settings s = record {
  jwks_url = url_text s.jwks_url;
  issuer = s.issuer;
  audience = s.audience;
  algorithms = s.allowed_algorithms;
  leeway = s.leeway_seconds;
  ttl = s.jwks_cache_ttl;
  min_refresh_interval = s.jwks_min_refresh_interval;
}

unfoldable pub construct_verifier : JwksSettings → Result StartError (Option JwksSettings)
unfolding construct
construct_verifier s = do v ← with_error setup_error (construct s); ok (some v)

unfoldable pub verifier_of : Settings → Result StartError (Option JwksSettings)
unfolding construct_verifier
verifier_of s = if s.require_auth then construct_verifier (jwks_settings s) else ok none

unfoldable pub build : (Str → Bool) → (Str → Option Json) → Settings → Result StartError Served
unfolding scope_policy_of tool_policy_of verifier_of
build is_file load s = do
  with_error config_error (validate_runtime is_file s)
  policy ← scope_policy_of load s.scope_policy_file
  tool_policy ← tool_policy_of load s.tool_policy_file
  verifier ← verifier_of s
  ok (record { settings = s; verifier = verifier; policy = policy; tool_policy = tool_policy })

-- How `main` goes on: it exits with status 2 and the problems, raises, or serves.
pub data Outcome : Type 0 where
  exits : ℕ → List Problem → Outcome
  raises : StartError → Outcome
  serves : Served → Str → ℤ → Outcome

unfoldable pub run : Result StartError Served → Outcome
run (err (config_error ps)) = exits 2 ps
run (err e) = raises e
run (ok app) = serves app app.settings.host app.settings.port

unfoldable pub main : (Str → Bool) → (Str → Option Json) → Settings → Outcome
unfolding build run
main is_file load s = run (build is_file load s)

-- The settings as the handler reads them. The numbers of validated settings are not negative.
abbrev pub handler_settings : Settings → Messages.Settings
handler_settings s = record {
  host = s.host;
  port = pos_part s.port;
  issuer = s.issuer;
  audience = s.audience;
  require_auth = s.require_auth;
  allowed_origins = s.allowed_origins;
  max_request_bytes = pos_part s.max_request_bytes;
  max_response_bytes = pos_part s.max_response_bytes;
  max_tools_list_bytes = pos_part s.max_tools_list_bytes;
  public_base_url = s.public_base_url;
}

-- The verifier of an application. PyJWT and the key cache work by its settings.
abbrev pub verifier_with :
    {K : Type 0}
    → (JwksSettings → Jwt K)
    → (JwksSettings → Str → Result KeyError K)
    → Option JwksSettings
    → Option (Str → Result TokenError VerifiedToken)
verifier_with jwt resolve_key none = none
verifier_with jwt resolve_key (some v) = some (verify (jwt v) v.algorithms (resolve_key v))

-- `create_app(settings, verifier, policy, tool_policy)`, for the handler
unfoldable pub create_app :
    {K : Type 0}
    → (JwksSettings → Jwt K)
    → (JwksSettings → Str → Result KeyError K)
    → (List ℕ → Document)
    → Served
    → Env
create_app jwt resolve_key scan app = record {
  settings = handler_settings app.settings;
  verifier = verifier_with jwt resolve_key app.verifier;
  policy = app.policy;
  tool_policy = app.tool_policy;
  scan = scan;
}
