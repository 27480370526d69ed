-- ===== src/App/Exchange/Settled.antt =====
-- How an exchange with the upstream ends.
use mcp_auth_gateway.Prelude.{
  ℕ, ◌≡◌, refl, arith, Str, Bool, true, false, ◌&&◌, Option, none, some, List, [], codes, eq_str,
  eq_str_refl, ◌==◌, lookup, Result, ok, err, Bool-cases, inl, inr,
}
use mcp_auth_gateway.Json.{Fields}
use mcp_auth_gateway.Json.Decode.{Document}
use mcp_auth_gateway.ToolPolicy.{ToolPolicy}
use mcp_auth_gateway.ToolsList.{
  FilterError, filter_failed, upstream_error, FilterOutcome, filter_tools_list,
}
use mcp_auth_gateway.Audit.{AuditRecord}
use mcp_auth_gateway.App.Messages.{Settings}
use mcp_auth_gateway.App.{declares_more}
use mcp_auth_gateway.App.Forward.{Headers}
use mcp_auth_gateway.App.Exchange.{
  Upstream, responded, Reply, streaming, Exchange, tools_list_error, media_type, ReadError,
  too_large, read_decoded, filter_error, answer_list, filter_read, relay_list, relay_stream,
  tools_list, exchange,
}

abbrev pub is_streamed : Option Reply → Bool
is_streamed (some (streaming _ _ _)) = true
is_streamed _ = false

-- An exchange in which the upstream was left once, and its response is not passed on as it comes.
record IsBuffered (x : Exchange) : Type 0 where
  closed_once : x.closed ≡ 1
  not_streamed : is_streamed x.reply ≡ false

tools_list_error-IsBuffered :
    (audit : AuditRecord) (code detail : Str) → IsBuffered (tools_list_error audit code detail)
unfolding tools_list_error
tools_list_error-IsBuffered audit code detail = record { closed_once = refl; not_streamed = refl }

filter_error-IsBuffered :
    (audit : AuditRecord) (e : FilterError) → IsBuffered (filter_error audit e)
unfolding filter_error
filter_error-IsBuffered audit filter_failed = tools_list_error-IsBuffered audit _ _
filter_error-IsBuffered audit upstream_error = tools_list_error-IsBuffered audit _ _

answer_list-IsBuffered :
    (audit : AuditRecord) (headers : Headers) (o : FilterOutcome) (e : Option FilterError)
    (b : Option (List ℕ))
    → IsBuffered (answer_list audit headers o e b)
unfolding answer_list
answer_list-IsBuffered audit headers o (some e) b = filter_error-IsBuffered audit e
answer_list-IsBuffered audit headers o none none = filter_error-IsBuffered audit filter_failed
answer_list-IsBuffered audit headers o none (some b) = record {
  closed_once = refl;
  not_streamed = refl;
}

module _ (s : Settings) (scan : List ℕ → Document) (p : ToolPolicy) (claims : Option Fields) where
  filter_read-IsBuffered :
      (audit : AuditRecord) (headers : Headers) (r : Result ReadError (List ℕ))
      → IsBuffered (filter_read scan p claims audit headers r)
  unfolding filter_read
  filter_read-IsBuffered audit headers (err too_large) = tools_list_error-IsBuffered audit _ _
  filter_read-IsBuffered audit headers (err ReadError.read_failed) =
      tools_list_error-IsBuffered audit _ _
  filter_read-IsBuffered audit headers (ok body) =
      let o = filter_tools_list scan body p claims in
      answer_list-IsBuffered audit headers o o.error_code o.body

  relay_list-IsBuffered :
      (audit : AuditRecord) (u : Upstream) → IsBuffered (relay_list s scan p claims audit u)
  unfolding relay_list
  relay_list-IsBuffered audit u =
      elim (Bool-cases (eq_str (media_type u.headers) (codes "application/json"))) [
        | inl t ↦ rw t (
            filter_read-IsBuffered audit u.headers
              (read_decoded s.max_tools_list_bytes [] u.decoded))
        | inr f ↦ rw f (tools_list_error-IsBuffered audit _ _)
      ]

relay_stream_closed :
    (s : Settings) (audit : AuditRecord) (u : Upstream) → (relay_stream s audit u).closed ≡ 1
unfolding relay_stream
relay_stream_closed s audit u = ground (
  arith,
  Bool-cases (declares_more s.max_response_bytes (lookup (codes "content-length") u.headers)),
)

-- Whatever the upstream responds, the handler leaves its context exactly once.
pub exchange_closes_once :
    (s : Settings) (scan : List ℕ → Document) (policy : Option ToolPolicy) (claims : Option Fields)
    (method : Str) (audit : AuditRecord) (u : Upstream)
    → (exchange s scan policy claims method audit (responded u)).closed ≡ 1
unfolding exchange
exchange_closes_once s scan none claims method audit u = relay_stream_closed s audit u
exchange_closes_once s scan (some p) claims method audit u = ground (
  arith,
  Bool-cases (eq_str method tools_list && (u.status == 200)),
  relay_stream_closed s audit u,
  (relay_list-IsBuffered s scan p claims (record audit { upstream_status = some u.status })
      u).closed_once,
)

-- With a tool policy, a tools/list response with status 200 is never passed on as it comes: the
-- client gets the filtered body or an error.
pub exchange_list_buffered :
    (s : Settings) (scan : List ℕ → Document) (p : ToolPolicy) (claims : Option Fields)
    (audit : AuditRecord) (u : Upstream)
    → u.status ≡ 200
    → is_streamed (exchange s scan (some p) claims tools_list audit (responded u)).reply ≡ false
unfolding exchange
exchange_list_buffered s scan p claims audit u h = ground (
  arith,
  eq_str_refl tools_list,
  (relay_list-IsBuffered s scan p claims (record audit { upstream_status = some u.status })
      u).not_streamed,
)
