-- ===== src/App/Messages.antt =====
-- src/mcp_gateway/app.py: the request, the error responses and what they are built from.
use mcp_auth_gateway.Prelude.{
  ℕ, Str, Bool, Option, none, some, List, [], ◌∷◌, ◌++◌, codes, is_empty, ◌==◌, strip, strip_right,
  lower, drop, decimal, starts_with, join, if◌then◌else◌, Result, err, lookup,
}
use mcp_auth_gateway.Json.Decode.{Document}
use mcp_auth_gateway.Policy.{ScopePolicy, ScopeReason}
use mcp_auth_gateway.ToolPolicy.{ToolPolicy, ToolReason}
use mcp_auth_gateway.JsonRpc.{RpcError}
use mcp_auth_gateway.Verifier.{TokenError, VerifiedToken}
use mcp_auth_gateway.Audit.{AuditRecord, Decision, Reason}

-- The settings that the handler reads.
pub record Settings : Type 0 where
  pub host : Str
  pub port : ℕ
  pub issuer : Str
  pub audience : Str
  pub require_auth : Bool
  pub allowed_origins : List Str
  pub max_request_bytes : ℕ
  pub max_response_bytes : ℕ
  pub max_tools_list_bytes : ℕ
  pub public_base_url : Option Str

-- The names of the headers are in lower case, as the server hands them over. `chunks` is the body
-- as it arrives.
pub record Request : Type 0 where
  pub headers : List (Str × Str)
  pub client : Option Str
  pub chunks : List (List ℕ)

-- The body of a JSON error: its `detail`, and what else it holds.
pub data Detail : Type 0 where
  message : Str → Detail
  scope_detail : ScopeReason → List Str → Detail
  tool_detail : ToolReason → Str → Detail
  rpc_detail : RpcError → Detail
  unreachable : Str → Detail

-- A JSON error response: its status, its `error` member, and its `WWW-Authenticate` header.
pub record ErrorResponse : Type 0 where
  pub status : ℕ
  pub code : Str
  pub detail : Detail
  pub challenge : Option Str

-- A request ends before the upstream is called: with a response, after the event for its record, or
-- by an exception that the handler does not catch, which is logged by no event.
pub data Refusal : Type 0 where
  refused : AuditRecord → ErrorResponse → Refusal
  crashed : Refusal

pub record Env : Type 0 where
  pub settings : Settings
  pub verifier : Option (Str → Result TokenError VerifiedToken)
  pub policy : ScopePolicy
  pub tool_policy : Option ToolPolicy
  pub scan : List ℕ → Document

-- `_normalize_origin`
unfoldable pub normalize_origin : Str → Str
normalize_origin origin = lower (strip_right (λ c. c == b'/') (strip origin))

unfoldable pub header : Str → Request → Option Str
header name r = lookup name r.headers

-- `_bearer_token`
unfoldable pub bearer_token : Option Str → Str
bearer_token none = []
bearer_token (some value) =
    if starts_with (lower value) (codes "bearer ") then strip (drop 7 value) else []

-- `_base_url`
unfoldable pub base_url : Settings → Str
base_url s = elim s.public_base_url [
  | none ↦ codes "http://" ++ (s.host ++ (codes ":" ++ decimal s.port))
  | some url ↦
      if is_empty url
      then codes "http://" ++ (s.host ++ (codes ":" ++ decimal s.port))
      else strip_right (λ c. c == b'/') url
]

unfoldable pub resource_metadata_url : Settings → Str
unfolding base_url
resource_metadata_url s = base_url s ++ codes "/.well-known/oauth-protected-resource"

-- `_unauthorized`; `invalid` is whether the error code `invalid_token` is given
unfoldable pub unauthorized : Settings → Str → Bool → ErrorResponse
unfolding resource_metadata_url
unauthorized s detail invalid = record {
  status = 401;
  code = codes "unauthorized";
  detail = message detail;
  challenge = some (
      (if invalid
        then codes "Bearer error=\"invalid_token\", resource_metadata=\""
        else codes "Bearer resource_metadata=\"")
      ++ (resource_metadata_url s ++ codes "\""));
}

-- `_forbidden`
unfoldable pub forbidden : ScopeReason → List Str → ErrorResponse
forbidden reason required = record {
  status = 403;
  code = codes "insufficient_scope";
  detail = scope_detail reason required;
  challenge = some (
      codes "Bearer error=\"insufficient_scope\", scope=\""
      ++ (join (codes " ") required ++ codes "\""));
}

-- `_forbidden_tool`
unfoldable pub forbidden_tool : Str → ToolReason → ErrorResponse
forbidden_tool tool reason = record {
  status = 403;
  code = codes "tool_not_allowed";
  detail = tool_detail reason tool;
  challenge = none;
}

abbrev pub plain_error : ℕ → Str → Detail → ErrorResponse
plain_error status code detail = record {
  status = status;
  code = code;
  detail = detail;
  challenge = none;
}

-- `audit.record.decision = …; …; audit.emit(); return …`
abbrev pub stop :
    {A : Type 0} → AuditRecord → Decision → Str → Option Reason → ErrorResponse → Result Refusal A
stop audit decision code reason response = err (
    refused (record audit { decision = decision; error_code = some code; reason = reason })
      response)

-- all chunks, one after the other
unfoldable pub joined : List (List ℕ) → List ℕ
joined [] = []
joined (c ∷ cs) = c ++ joined cs
