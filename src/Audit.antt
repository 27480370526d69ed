-- ===== src/Audit.antt =====
-- src/mcp_gateway/audit.py: the record of one request and the level of its event. Audit/Line has the
-- line of an event, with the latency.
pub mod Line
use mcp_auth_gateway.Prelude.{ℕ, Str, Bool, true, false, Option, none, some, List, []}
use mcp_auth_gateway.Policy.{ScopeReason}
use mcp_auth_gateway.ToolPolicy.{ToolReason}
use mcp_auth_gateway.JsonRpc.{RpcError}
use mcp_auth_gateway.Verifier.{TokenError}

pub data Decision : Type 0 where
  pending allowed denied rejected error : Decision

-- The text of `AuditRecord.reason`, by where it comes from.
pub data Reason : Type 0 where
  text : Str → Reason
  origin_reason : Str → Reason
  token_reason : TokenError → Reason
  rpc_reason : RpcError → Reason
  scope_reason : ScopeReason → Reason
  tool_reason : ToolReason → Reason
  exception_name : Str → Reason

pub data StreamResult : Type 0 where
  completed client_disconnected truncated_response_too_large upstream_read_error : StreamResult

pub record AuditRecord : Type 0 where
  pub request_id : Str
  pub client_request_id : Option Str
  pub source_ip : Option Str
  pub subject : Option Str
  pub issuer : Option Str
  pub audience : Option Str
  pub method : Option Str
  pub tool_name : Option Str
  pub tool_rule : Option Str
  pub tools_returned : Option ℕ
  pub tools_filtered : Option ℕ
  pub decision : Decision
  pub error_code : Option Str
  pub reason : Option Reason
  pub required_scopes : List Str
  pub held_scope_count : ℕ
  pub upstream_status : Option ℕ
  pub stream_result : Option StreamResult
  pub bytes_streamed : Option ℕ
  pub scope_values : List Str

-- `AuditContext(request_id, source_ip)`
unfoldable pub new_record : Str → Option Str → AuditRecord
new_record request_id source_ip = record {
  request_id = request_id;
  client_request_id = none;
  source_ip = source_ip;
  subject = none;
  issuer = none;
  audience = none;
  method = none;
  tool_name = none;
  tool_rule = none;
  tools_returned = none;
  tools_filtered = none;
  decision = pending;
  error_code = none;
  reason = none;
  required_scopes = [];
  held_scope_count = 0;
  upstream_status = none;
  stream_result = none;
  bytes_streamed = none;
  scope_values = [];
}

-- the level at which `emit` logs a record
unfoldable pub is_warning : Decision → Bool
is_warning denied = true
is_warning rejected = true
is_warning error = true
is_warning _ = false

-- the record that `emit_stream_event` logs
unfoldable pub stream_event : StreamResult → ℕ → AuditRecord → AuditRecord
stream_event result sent r = record r { stream_result = some result; bytes_streamed = some sent }
