-- ===== src/App.antt =====
-- src/mcp_gateway/app.py: the request handler `proxy_mcp`, up to the call of the upstream server.
-- The verifier and the scanner of `json.loads` are fields of `Env`.
pub mod Messages
pub mod Body
pub mod Admitted
pub mod Permitted
pub mod Logged
pub mod Stream
pub mod Forward
pub mod Exchange
pub mod Handle
pub mod Endpoints
use mcp_auth_gateway.App.Messages.{
  Settings, Request, Detail, message, scope_detail, tool_detail, rpc_detail, ErrorResponse, Refusal,
  refused, crashed, Env, normalize_origin, header, bearer_token, base_url, resource_metadata_url,
  unauthorized, forbidden, forbidden_tool, plain_error, stop,
}
use mcp_auth_gateway.Prelude.{
  ℕ, ◌-◌, Str, Bool, true, false, ◌&&◌, ◌||◌, not, Option, none, some, is_some, List, [], ◌∷◌, ◌++◌,
  codes, is_empty, ltb, leb, ◌==◌, eq_str, elem, strip, strip_right, lower, map, drop, take, length,
  digits_value, decimal, starts_with, sorted, join, if◌then◌else◌, Result, ok, err, ◌>>=◌, ◌>>◌,
  lookup,
}
use mcp_auth_gateway.Json.{Fields}
use mcp_auth_gateway.Json.Decode.{Document}
use mcp_auth_gateway.Policy
use mcp_auth_gateway.Policy.{ScopePolicy, ScopeDecision, ScopeReason}
use mcp_auth_gateway.ToolPolicy
use mcp_auth_gateway.ToolPolicy.{ToolPolicy, ToolDecision, ToolReason}
use mcp_auth_gateway.JsonRpc.{JsonRpcParse, RpcError, Unhandled, parse_jsonrpc, error_code}
use mcp_auth_gateway.Verifier.{TokenError, VerifiedToken}
use mcp_auth_gateway.Audit.{
  AuditRecord, Decision, Reason, rejected, denied, error, text, origin_reason, token_reason,
  rpc_reason, scope_reason, tool_reason, new_record,
}

-- the record before the first check
unfoldable pub opened : Settings → Str → Request → AuditRecord
unfolding new_record header
opened s request_id r = record (new_record request_id r.client) {
  client_request_id = header (codes "x-request-id") r;
  issuer = some s.issuer;
  audience = some s.audience;
}

-- 0a. the origin; the allow-list is normalized when the application is made
unfoldable pub origin_allowed : Settings → Option Str → Bool
origin_allowed s none = true
origin_allowed s (some origin) =
    elem (normalize_origin origin) (map normalize_origin s.allowed_origins)

unfoldable pub check_origin : Settings → AuditRecord → Option Str → Result Refusal (Unit {0})
unfolding origin_allowed normalize_origin
check_origin s audit none = ok tt
check_origin s audit (some origin) =
    if origin_allowed s (some origin)
    then ok tt
    else stop audit rejected (codes "origin_not_allowed") (some (origin_reason (take 256 origin))) (
        plain_error 403 (codes "origin_not_allowed")
          (message (codes "request origin is not allowed")))

abbrev pub too_large : {A : Type 0} → AuditRecord → Result Refusal A
too_large audit =
    stop audit rejected (codes "payload_too_large") audit.reason
      (plain_error 413 (codes "payload_too_large") (message (codes "request body exceeds limit")))

-- whether a `Content-Length` declares more than a limit; a limit of 0 is none. The HTTP libraries
-- hand over ASCII digits only: `isdigit` takes others too, which `int` may refuse.
unfoldable pub declares_more : ℕ → Option Str → Bool
declares_more limit none = false
declares_more limit (some declared) = elim (digits_value declared) [
  | none ↦ false
  | some n ↦ ltb 0 limit && ltb limit n
]

-- the loop over the chunks; `none` is the early return
unfoldable pub read_chunks : ℕ → List ℕ → List (List ℕ) → Option (List ℕ)
read_chunks limit body [] = some body
read_chunks limit body (chunk ∷ chunks) =
    let rest = read_chunks limit (body ++ chunk) chunks in
    if ltb 0 limit && ltb limit (length (body ++ chunk)) then none else rest

-- 0b. the body
unfoldable pub read_body : Settings → AuditRecord → Request → Result Refusal (List ℕ)
unfolding declares_more read_chunks header
read_body s audit r =
    if declares_more s.max_request_bytes (header (codes "content-length") r)
    then too_large audit
    else elim (read_chunks s.max_request_bytes [] r.chunks) [
      | none ↦ too_large audit
      | some raw ↦ ok raw
    ]

-- 1. the token, if authentication is on
unfoldable pub with_result :
    Settings → AuditRecord → Result TokenError VerifiedToken → Result Refusal (Option VerifiedToken)
unfolding unauthorized
with_result s audit (ok v) = ok (some v)
with_result s audit (err e) =
    stop audit rejected (codes "invalid_token") (some (token_reason e))
      (unauthorized s (codes "invalid bearer token") true)

unfoldable pub verify_with :
    Settings
    → AuditRecord
    → (Str → Result TokenError VerifiedToken)
    → Str
    → Result Refusal (Option VerifiedToken)
unfolding with_result
verify_with s audit verify token =
    if is_empty token
    then stop audit rejected (codes "missing_token") audit.reason
        (unauthorized s (codes "missing bearer token") false)
    else with_result s audit (verify token)

unfoldable pub authenticate_by :
    Env
    → AuditRecord
    → Request
    → Option (Str → Result TokenError VerifiedToken)
    → Result Refusal (Option VerifiedToken)
unfolding verify_with bearer_token header
authenticate_by env audit r none = stop audit error (codes "server_misconfigured") audit.reason (
    plain_error 500 (codes "server_misconfigured")
      (message (codes "auth required but no verifier")))
authenticate_by env audit r (some verify) =
    verify_with env.settings audit verify (bearer_token (header (codes "authorization") r))

unfoldable pub authenticate : Env → AuditRecord → Request → Result Refusal (Option VerifiedToken)
unfolding authenticate_by
authenticate env audit r =
    if env.settings.require_auth then authenticate_by env audit r env.verifier else ok none

-- the record after a token is verified
unfoldable pub with_token : Option VerifiedToken → AuditRecord → AuditRecord
with_token none audit = audit
with_token (some v) audit = record audit {
  subject = some v.subject;
  held_scope_count = length v.scopes;
  scope_values = sorted v.scopes;
}

unfoldable pub held_scopes : Option VerifiedToken → List Str
held_scopes none = []
held_scopes (some v) = v.scopes

unfoldable pub claims_of : Option VerifiedToken → Option Fields
claims_of none = none
claims_of (some v) = some v.claims

-- A request that the parser resolves to a method.
pub record Call : Type 0 where
  pub method : Str
  pub tool_name : Option Str
  pub body : List ℕ

-- 2. the parse; one without an error has a method, and a body but for the defensive fallback
unfoldable pub resolve_call :
    AuditRecord
    → List ℕ
    → Option RpcError
    → Option Str
    → Option Str
    → Option (List ℕ)
    → Result Refusal Call
unfolding error_code
resolve_call audit raw (some e) method tool_name body =
    stop audit rejected (error_code e) (some (rpc_reason e))
      (plain_error 400 (error_code e) (rpc_detail e))
resolve_call audit raw none none tool_name body = err crashed
resolve_call audit raw none (some method) tool_name none =
    ok (record { method = method; tool_name = tool_name; body = raw })
resolve_call audit raw none (some method) tool_name (some body) =
    ok (record { method = method; tool_name = tool_name; body = body })

unfoldable pub resolve_parse :
    AuditRecord → List ℕ → Result Unhandled JsonRpcParse → Result Refusal Call
unfolding resolve_call
resolve_parse audit raw (err _) = err crashed
resolve_parse audit raw (ok p) =
    resolve_call audit raw p.error p.method p.tool_name p.canonical_body

-- the record after the parse and the scope decision
unfoldable pub with_call : Call → List Str → AuditRecord → AuditRecord
with_call call required audit = record audit {
  method = some call.method;
  tool_name = call.tool_name;
  required_scopes = sorted required;
}

unfoldable pub check_scopes : AuditRecord → ScopeDecision → Result Refusal (Unit {0})
unfolding forbidden
check_scopes audit d =
    if d.allowed
    then ok tt
    else stop audit denied (codes "insufficient_scope") (some (scope_reason d.reason))
        (forbidden d.reason (sorted d.required))

abbrev pub tools_call : Str
tools_call = codes "tools/call"

abbrev no_tool_name : Str
no_tool_name = codes "tools/call request missing a string 'params.name'"

-- 2b. the tool decision for a named tool; the value is the record with `tool_rule`
unfoldable pub judge_tool : AuditRecord → Str → ToolDecision → Result Refusal AuditRecord
unfolding forbidden_tool
judge_tool audit tool d =
    if d.allowed
    then ok (record audit { tool_rule = d.matched_rule })
    else stop (record audit { tool_rule = d.matched_rule }) denied (codes "tool_not_allowed")
        (some (tool_reason d.reason)) (forbidden_tool tool d.reason)

unfoldable pub check_tool_name :
    ToolPolicy → Option Fields → AuditRecord → Option Str → Result Refusal AuditRecord
unfolding judge_tool
check_tool_name p claims audit none =
    stop audit rejected (codes "invalid_tool_call") (some (text no_tool_name))
      (plain_error 400 (codes "invalid_tool_call") (message no_tool_name))
check_tool_name p claims audit (some tool) = judge_tool audit tool (ToolPolicy.check p tool claims)

unfoldable pub check_tool :
    Option ToolPolicy → Option Fields → AuditRecord → Call → Result Refusal AuditRecord
unfolding check_tool_name
check_tool none claims audit call = ok audit
check_tool (some p) claims audit call =
    if eq_str call.method tools_call
    then check_tool_name p claims audit call.tool_name
    else ok audit

-- What the handler has once every check is passed.
pub record Authorized : Type 0 where
  pub audit : AuditRecord
  pub verified : Option VerifiedToken
  pub call : Call

-- The handler up to "3. Reverse-proxy".
unfoldable pub authorize : Env → Str → Request → Result Refusal Authorized
unfolding resolve_parse
authorize env request_id r = do
  let audit = opened env.settings request_id r
  check_origin env.settings audit (header (codes "origin") r)
  raw ← read_body env.settings audit r
  verified ← authenticate env audit r
  call ← resolve_parse (with_token verified audit) raw (parse_jsonrpc env.scan raw)
  let decision = Policy.check env.policy call.method (held_scopes verified)
  let audit' = with_call call decision.required (with_token verified audit)
  check_scopes audit' decision
  audit'' ← check_tool env.tool_policy (claims_of verified) audit' call
  ok (record { audit = audit''; verified = verified; call = call })
