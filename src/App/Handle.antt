-- ===== src/App/Handle.antt =====
-- src/mcp_gateway/app.py: `proxy_mcp` as a whole. What the upstream makes of a request is a parameter.
pub mod Open
pub mod Mediated
pub mod Trail
pub mod Determined
pub mod Ready
pub mod Listed
pub mod Identified
use mcp_auth_gateway.Prelude.{ℕ, Str, Option, none, some, List, [], ◌∷◌, Result, ok, err}
use mcp_auth_gateway.Audit.{AuditRecord}
use mcp_auth_gateway.App.Messages.{ErrorResponse, Request, Refusal, refused, crashed, Env}
use mcp_auth_gateway.App.{Call, Authorized, authorize, claims_of}
use mcp_auth_gateway.App.Forward.{Headers, forwarded_headers}
use mcp_auth_gateway.App.Exchange.{Sent, Reply, json_error, Exchange, exchange}

-- The request to the upstream.
pub record Forwarded : Type 0 where
  pub url : Str
  pub headers : Headers
  pub content : List ℕ

-- What is done for a request: the request that is handed to the HTTP client, the events that are emitted,
-- and the reply. `none` for the reply is an exception that the handler does not catch.
pub record Handled : Type 0 where
  pub forwarded : Option Forwarded
  pub events : List AuditRecord
  pub reply : Option Reply

-- the arguments of `client.stream`
unfoldable pub forwarded_request : Str → Request → Authorized → Forwarded
unfolding forwarded_headers
forwarded_request url r a = record {
  url = url;
  headers = forwarded_headers a.audit.request_id a.verified r.headers;
  content = a.call.body;
}

unfoldable pub exchange_for : Env → Authorized → Sent → Exchange
unfolding exchange
exchange_for env a sent =
    exchange env.settings env.scan env.tool_policy (claims_of a.verified) a.call.method a.audit sent

unfoldable pub finish :
    Env → Str → (Forwarded → Sent) → Request → Result Refusal Authorized → Handled
unfolding forwarded_request exchange_for
finish env url send r (err crashed) = record { forwarded = none; events = []; reply = none }
finish env url send r (err (refused audit response)) = record {
  forwarded = none;
  events = audit ∷ [];
  reply = some (json_error response);
}
finish env url send r (ok a) =
    let x = exchange_for env a (send (forwarded_request url r a)) in
    record { forwarded = some (forwarded_request url r a); events = x.events; reply = x.reply }

-- `proxy_mcp`, under the id that `new_request_id` gives
unfoldable pub proxy_mcp : Env → Str → (Forwarded → Sent) → Str → Request → Handled
unfolding finish authorize
proxy_mcp env url send request_id r = finish env url send r (authorize env request_id r)
