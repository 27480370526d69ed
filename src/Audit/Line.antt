-- ===== src/Audit/Line.antt =====
-- src/mcp_gateway/audit.py: `to_dict`, and the lines that `emit` and `emit_stream_event` log. The
-- texts of the reasons and of the latency are arguments.
pub mod Printable
use mcp_auth_gateway.Prelude.{
  ℕ, Str, Bool, true, false, Option, none, some, List, [], ◌∷◌, codes, decimal, le_str,
  if◌then◌else◌,
}
use mcp_auth_gateway.Json.{Json, str, num, arr, obj, Items, nil, cons, Fields, end, field}
use mcp_auth_gateway.Json.Print.{dumps}
use mcp_auth_gateway.Audit.{
  Decision, pending, allowed, denied, rejected, error, Reason, StreamResult, completed,
  client_disconnected, truncated_response_too_large, upstream_read_error, AuditRecord, is_warning,
  stream_event,
}

abbrev pub decision_text : Decision → Str
decision_text pending = codes "pending"
decision_text allowed = codes "allowed"
decision_text denied = codes "denied"
decision_text rejected = codes "rejected"
decision_text error = codes "error"

abbrev pub result_text : StreamResult → Str
result_text completed = codes "completed"
result_text client_disconnected = codes "client_disconnected"
result_text truncated_response_too_large = codes "truncated_response_too_large"
result_text upstream_read_error = codes "upstream_read_error"

-- A text, a count, and a list of texts as values.
abbrev pub count : ℕ → Json
count n = num (decimal n)

abbrev pub texts : List Str → Items
texts [] = nil
texts (s ∷ ss) = cons (str s) (texts ss)

-- a member of the dictionary whose value may be `None`, which is left out
abbrev pub member {ℓ} : {A : Type ℓ} → Str → (A → Json) → Option A → Fields → Fields
member k f none rest = rest
member k f (some a) rest = field k (f a) rest

-- `AuditRecord.to_dict`
unfoldable pub to_dict : (Reason → Str) → Option Str → Bool → AuditRecord → Fields
to_dict describe latency include_scope_values r = field (codes "request_id") (str r.request_id) (
    member (codes "client_request_id") str r.client_request_id (
      member (codes "source_ip") str r.source_ip (
        member (codes "subject") str r.subject (
          member (codes "issuer") str r.issuer (
            member (codes "audience") str r.audience (
              member (codes "method") str r.method (
                member (codes "tool_name") str r.tool_name (
                  member (codes "tool_rule") str r.tool_rule (
                    member (codes "tools_returned") count r.tools_returned (
                      member (codes "tools_filtered") count r.tools_filtered (
                        field (codes "decision") (str (decision_text r.decision)) (
                          member (codes "error_code") str r.error_code (
                            member (codes "reason") (λ x. str (describe x)) r.reason
                              (field (codes "required_scopes") (arr (texts r.required_scopes)) (
                                field (codes "held_scope_count") (count r.held_scope_count) (
                                  member (codes "upstream_status") count r.upstream_status (
                                    member (codes "latency_ms") num latency (
                                      member (codes "stream_result") (λ x. str (result_text x))
                                        r.stream_result
                                        (member (codes "bytes_streamed") count r.bytes_streamed (
                                          if include_scope_values
                                          then field (codes "held_scopes")
                                              (arr (texts r.scope_values)) end
                                          else end))))))))))))))))))))

-- `sort_keys=True`; no value of the dictionary is a dictionary
unfoldable pub insert_key : Str → Json → Fields → Fields
insert_key k v end = field k v end
insert_key k v (field j w fs) =
    if le_str k j then field k v (field j w fs) else field j w (insert_key k v fs)

unfoldable pub sort_keys : Fields → Fields
unfolding insert_key
sort_keys end = end
sort_keys (field k v fs) = insert_key k v (sort_keys fs)

unfoldable pub line : (Reason → Str) → Str → Bool → AuditRecord → Str
unfolding to_dict sort_keys
line describe latency debug_on r =
    dumps true (obj (sort_keys (to_dict describe (some latency) debug_on r)))

pub data Level : Type 0 where
  warning info : Level

abbrev pub level_if : Bool → Level
level_if is_warned = if is_warned then warning else info

-- `AuditContext.emit`: the level and the line that are logged
unfoldable pub emit : (Reason → Str) → Str → Bool → AuditRecord → Level × Str
unfolding line is_warning
emit describe latency debug_on r =
    (level_if (is_warning r.decision), line describe latency debug_on r)

abbrev pub is_truncated : StreamResult → Bool
is_truncated truncated_response_too_large = true
is_truncated _ = false

-- `AuditContext.emit_stream_event`
unfoldable pub emit_stream_event :
    (Reason → Str) → Str → Bool → StreamResult → ℕ → AuditRecord → Level × Str
unfolding line stream_event
emit_stream_event describe latency debug_on result sent r =
    (level_if (is_truncated result), line describe latency debug_on (stream_event result sent r))
