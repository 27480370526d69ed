-- ===== src/App/Exchange.antt =====
-- src/mcp_gateway/app.py, `proxy_mcp` from the call of the upstream on. `Sent` is what httpx makes of
-- the call.
pub mod Settled
pub mod Filtered
use mcp_auth_gateway.Prelude.{
  ℕ, Str, Bool, true, false, ◌&&◌, not, Option, none, some, is_some, List, [], ◌∷◌, ◌++◌, codes,
  eq_str, elem, lower, strip, before, length, ltb, ◌==◌, lookup, if◌then◌else◌, Result, ok, err,
}
use mcp_auth_gateway.Json.{Fields}
use mcp_auth_gateway.Json.Decode.{Document}
use mcp_auth_gateway.ToolPolicy.{ToolPolicy}
use mcp_auth_gateway.ToolsList.{
  FilterError, filter_failed, upstream_error, FilterOutcome, filter_tools_list,
}
use mcp_auth_gateway.Audit.{
  AuditRecord, Decision, Reason, allowed, rejected, error, text, exception_name, stream_event,
}
use mcp_auth_gateway.App.Messages.{Settings, ErrorResponse, message, unreachable, plain_error}
use mcp_auth_gateway.App.{declares_more}
use mcp_auth_gateway.App.Forward.{Headers, set_item}
use mcp_auth_gateway.App.Stream.{Arriving, Streamed, body_iter}

-- What `upstream.aiter_bytes()` does: its chunks are decoded, and it ends or raises an `HTTPError`.
pub data Reading : Type 0 where
  read_end read_failed : Reading
  read_chunk : List ℕ → Reading → Reading

-- The names of the headers are in lower case, and each is there once.
pub record Upstream : Type 0 where
  pub status : ℕ
  pub headers : Headers
  pub decoded : Reading
  pub raw : Arriving

-- A `RequestError`, by the name of its class, any other exception, or a response.
pub data Sent : Type 0 where
  request_error : Str → Sent
  raised : Sent
  responded : Upstream → Sent

pub data Reply : Type 0 where
  json_error : ErrorResponse → Reply
  filtered : List ℕ → Headers → Reply
  streaming : ℕ → Headers → Streamed → Reply

-- The events that are emitted, how often the context of the upstream is left, and the reply; `none`
-- is an exception that the handler does not catch.
pub record Exchange : Type 0 where
  pub events : List AuditRecord
  pub closed : ℕ
  pub reply : Option Reply

-- `_HOP_BY_HOP` and `_FILTERED_RESPONSE_HEADERS`
abbrev pub hop_by_hop : List Str
hop_by_hop =
    codes "connection"
    ∷ codes "keep-alive"
    ∷ codes "proxy-authenticate"
    ∷ codes "proxy-authorization"
    ∷ codes "te"
    ∷ codes "trailers"
    ∷ codes "transfer-encoding"
    ∷ codes "upgrade"
    ∷ codes "host"
    ∷ codes "content-length"
    ∷ []

abbrev pub filtered_response_headers : List Str
filtered_response_headers = codes "mcp-session-id" ∷ codes "mcp-protocol-version" ∷ []

-- A dictionary comprehension over headers, with a test of the name in lower case.
unfoldable pub select_headers : (Str → Bool) → Headers → Headers → Headers
unfolding set_item
select_headers test d [] = d
select_headers test d ((k, v) ∷ items) =
    select_headers test (if test (lower k) then set_item k v d else d) items

-- `_tools_list_error`, after the upstream is left
unfoldable pub tools_list_error : AuditRecord → Str → Str → Exchange
tools_list_error audit code detail = record {
  events =
      record audit { decision = rejected; error_code = some code; reason = some (text detail) }
      ∷ [];
  closed = 1;
  reply = some (json_error (plain_error 502 code (message detail)));
}

unfoldable pub media_type : Headers → Str
media_type headers = elim (lookup (codes "content-type") headers) [
  | none ↦ []
  | some value ↦ lower (strip (before b';' value))
]

-- Whether the decoded body could be read.
pub data ReadError : Type 0 where
  too_large read_failed : ReadError

-- the loop over `aiter_bytes`
unfoldable pub read_decoded : ℕ → List ℕ → Reading → Result ReadError (List ℕ)
read_decoded limit body read_end = ok body
read_decoded limit body Reading.read_failed = err ReadError.read_failed
read_decoded limit body (read_chunk c rest) =
    let others = read_decoded limit (body ++ c) rest in
    if ltb limit (length (body ++ c)) then err too_large else others

-- `FILTER_FAILED` and `UPSTREAM_ERROR`
unfoldable pub filter_error : AuditRecord → FilterError → Exchange
unfolding tools_list_error
filter_error audit filter_failed =
    tools_list_error audit (codes "tools_list_filter_failed")
      (codes "tools/list response could not be filtered")
filter_error audit upstream_error =
    tools_list_error audit (codes "tools_list_upstream_error")
      (codes "upstream returned a JSON-RPC error that was not relayed")

-- from `outcome` on
unfoldable pub answer_list :
    AuditRecord → Headers → FilterOutcome → Option FilterError → Option (List ℕ) → Exchange
unfolding filter_error select_headers
answer_list audit headers o (some e) body = filter_error audit e
answer_list audit headers o none none = filter_error audit filter_failed
answer_list audit headers o none (some body) = record {
  events =
      record audit {
        decision = allowed;
        tools_returned = some o.tools_returned;
        tools_filtered = some o.tools_filtered;
      }
      ∷ [];
  closed = 1;
  reply = some (
      filtered body (
        set_item (codes "Cache-Control") (codes "no-store")
          (select_headers (λ k. elem k filtered_response_headers) [] headers)));
}

unfoldable pub filter_read :
    (List ℕ → Document)
    → ToolPolicy
    → Option Fields
    → AuditRecord
    → Headers
    → Result ReadError (List ℕ)
    → Exchange
unfolding answer_list
filter_read scan p claims audit headers (err too_large) =
    tools_list_error audit (codes "tools_list_response_too_large")
      (codes "tools/list response exceeds filtering limit")
filter_read scan p claims audit headers (err ReadError.read_failed) =
    tools_list_error audit (codes "tools_list_read_failed")
      (codes "tools/list response could not be read")
filter_read scan p claims audit headers (ok body) =
    let o = filter_tools_list scan body p claims in answer_list audit headers o o.error_code o.body

-- 3b. `audit` has the status of the upstream
unfoldable pub relay_list :
    Settings → (List ℕ → Document) → ToolPolicy → Option Fields → AuditRecord → Upstream → Exchange
unfolding filter_read read_decoded media_type
relay_list s scan p claims audit u =
    if not (eq_str (media_type u.headers) (codes "application/json"))
    then tools_list_error audit (codes "tools_list_filter_unsupported_media_type")
        (codes "tools/list response media type cannot be filtered")
    else filter_read scan p claims audit u.headers
        (read_decoded s.max_tools_list_bytes [] u.decoded)

-- the record of the stream's event
unfoldable pub with_reason : Option Str → AuditRecord → AuditRecord
with_reason none audit = audit
with_reason (some name) audit = record audit { reason = some (exception_name name) }

-- the rest of the handler, with the stream of the reply run to its end
unfoldable pub relay_stream : Settings → AuditRecord → Upstream → Exchange
unfolding declares_more body_iter stream_event with_reason
relay_stream s audit u =
    let sent = record audit { decision = allowed; upstream_status = some u.status } in
    let b = body_iter s.max_response_bytes 0 u.raw in
    if declares_more s.max_response_bytes (lookup (codes "content-length") u.headers)
    then record {
      events =
          record audit { decision = rejected; error_code = some (codes "response_too_large") } ∷ [];
      closed = 1;
      reply = some (
          json_error (
            plain_error 413 (codes "response_too_large")
              (message (codes "upstream response exceeds limit"))));
    }
    else record {
      events = sent ∷ stream_event b.result b.sent (with_reason b.reason sent) ∷ [];
      closed = 1;
      reply =
          some (streaming u.status (select_headers (λ k. not (elem k hop_by_hop)) [] u.headers) b);
    }

abbrev pub tools_list : Str
tools_list = codes "tools/list"

unfoldable pub relay :
    Settings
    → (List ℕ → Document)
    → Option ToolPolicy
    → Option Fields
    → Str
    → AuditRecord
    → Upstream
    → Exchange
unfolding relay_list relay_stream
relay s scan none claims method audit u = relay_stream s audit u
relay s scan (some p) claims method audit u =
    if eq_str method tools_list && (u.status == 200)
    then relay_list s scan p claims (record audit { upstream_status = some u.status }) u
    else relay_stream s audit u

-- the handler from "3. Reverse-proxy" on
unfoldable pub exchange :
    Settings
    → (List ℕ → Document)
    → Option ToolPolicy
    → Option Fields
    → Str
    → AuditRecord
    → Sent
    → Exchange
unfolding relay
exchange s scan policy claims method audit (request_error name) = record {
  events =
      record audit {
        decision = error;
        error_code = some (codes "bad_gateway");
        reason = some (exception_name name);
      }
      ∷ [];
  closed = 0;
  reply = some (json_error (plain_error 502 (codes "bad_gateway") (unreachable name)));
}
exchange s scan policy claims method audit raised = record { events = []; closed = 0; reply = none }
exchange s scan policy claims method audit (responded u) = relay s scan policy claims method audit u
