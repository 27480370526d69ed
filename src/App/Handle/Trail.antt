-- ===== src/App/Handle/Trail.antt =====
-- The events of a request.
use mcp_auth_gateway.Prelude.{
  ℕ, ◌==◌, ◌&&◌, Str, Bool, true, false, ◌≡◌, refl, Option, none, some, List, [], ◌∷◌, codes,
  eq_str, lookup, Result, ok, err, Bool-cases, inl, inr,
}
use mcp_auth_gateway.Json.{Fields}
use mcp_auth_gateway.Json.Decode.{Document}
use mcp_auth_gateway.ToolPolicy.{ToolPolicy}
use mcp_auth_gateway.ToolsList.{
  FilterError, filter_failed, upstream_error, FilterOutcome, filter_tools_list,
}
use mcp_auth_gateway.Audit.{AuditRecord, allowed, is_warning, stream_event}
use mcp_auth_gateway.App.Messages.{Settings, ErrorResponse, Request, Refusal, refused, crashed, Env}
use mcp_auth_gateway.App.{declares_more, Authorized, authorize, claims_of}
use mcp_auth_gateway.App.Logged.{IsLogged, authorize-IsLogged}
use mcp_auth_gateway.App.Forward.{Headers}
use mcp_auth_gateway.App.Stream.{Streamed, body_iter}
use mcp_auth_gateway.App.Exchange.{
  Upstream, Sent, request_error, raised, responded, Reply, json_error, filtered, streaming,
  Exchange, tools_list_error, media_type, ReadError, too_large, read_decoded, filter_error,
  answer_list, filter_read, relay_list, with_reason, relay_stream, tools_list, exchange,
}
use mcp_auth_gateway.App.Handle.Open.{IsOpen, authorize-IsOpen}
use mcp_auth_gateway.App.Handle.{Forwarded, forwarded_request, exchange_for, finish, proxy_mcp}

abbrev pub is_json_error : Reply → Bool
is_json_error (json_error _) = true
is_json_error _ = false

-- The events of a request, for the reply to it.
pub data IsTrail (id : Str) : List AuditRecord → Option Reply → Type 0 where
  -- an exception that the handler does not catch
  unanswered : IsTrail id [] none
  -- the decision, logged as a warning exactly if the reply is an error
  error_event :
      (e : AuditRecord) (response : ErrorResponse)
      → e.request_id ≡ id
      → is_warning e.decision ≡ true
      → IsTrail id (e ∷ []) (some (json_error response))
  filtered_event :
      (e : AuditRecord) (body : List ℕ) (hs : Headers)
      → e.request_id ≡ id
      → e.decision ≡ allowed
      → IsTrail id (e ∷ []) (some (filtered body hs))
  -- the decision, and how the stream ended
  stream_events :
      (e f : AuditRecord) (status : ℕ) (hs : Headers) (b : Streamed)
      → e.request_id ≡ id
      → e.decision ≡ allowed
      → e.stream_result ≡ none
      → f.request_id ≡ id
      → f.decision ≡ allowed
      → f.stream_result ≡ some b.result
      → f.bytes_streamed ≡ some b.sent
      → IsTrail id (e ∷ f ∷ []) (some (streaming status hs b))

abbrev pub Trails : Str → Exchange → Type 0
Trails id x = IsTrail id x.events x.reply

module _ (id : Str) where
  tools_list_error-Trails :
      (audit : AuditRecord) (code detail : Str)
      → IsOpen id audit
      → Trails id (tools_list_error audit code detail)
  unfolding tools_list_error is_warning
  tools_list_error-Trails audit code detail i = IsTrail.error_event _ _ i.same_request refl

  filter_error-Trails :
      (audit : AuditRecord) (e : FilterError) → IsOpen id audit → Trails id (filter_error audit e)
  unfolding filter_error
  filter_error-Trails audit filter_failed i = tools_list_error-Trails audit _ _ i
  filter_error-Trails audit upstream_error i = tools_list_error-Trails audit _ _ i

  answer_list-Trails :
      (audit : AuditRecord) (headers : Headers) (o : FilterOutcome) (e : Option FilterError)
      (b : Option (List ℕ))
      → IsOpen id audit
      → Trails id (answer_list audit headers o e b)
  unfolding answer_list
  answer_list-Trails audit headers o (some e) b i = filter_error-Trails audit e i
  answer_list-Trails audit headers o none none i = filter_error-Trails audit filter_failed i
  answer_list-Trails audit headers o none (some b) i =
      IsTrail.filtered_event _ _ _ i.same_request refl

  module _ (s : Settings) (scan : List ℕ → Document) where
    filter_read-Trails :
        (p : ToolPolicy) (claims : Option Fields) (audit : AuditRecord) (headers : Headers)
        (r : Result ReadError (List ℕ))
        → IsOpen id audit
        → Trails id (filter_read scan p claims audit headers r)
    unfolding filter_read
    filter_read-Trails p claims audit headers (err too_large) i =
        tools_list_error-Trails audit _ _ i
    filter_read-Trails p claims audit headers (err ReadError.read_failed) i =
        tools_list_error-Trails audit _ _ i
    filter_read-Trails p claims audit headers (ok body) i =
        let o = filter_tools_list scan body p claims in
        answer_list-Trails audit headers o o.error_code o.body i

    relay_list-Trails :
        (p : ToolPolicy) (claims : Option Fields) (audit : AuditRecord) (u : Upstream)
        → IsOpen id audit
        → Trails id (relay_list s scan p claims audit u)
    unfolding relay_list
    relay_list-Trails p claims audit u i =
        elim (Bool-cases (eq_str (media_type u.headers) (codes "application/json"))) [
          | inl t ↦ rw t (
              filter_read-Trails p claims audit u.headers
                (read_decoded s.max_tools_list_bytes [] u.decoded) i)
          | inr f ↦ rw f (tools_list_error-Trails audit _ _ i)
        ]

    stream_event-Trails :
        (audit : AuditRecord) (o : Option Str) (u : Upstream) (hs : Headers) (b : Streamed)
        → IsOpen id audit
        → IsTrail id
            (record audit { decision = allowed; upstream_status = some u.status }
              ∷ stream_event b.result b.sent (
                  with_reason o
                    (record audit { decision = allowed; upstream_status = some u.status }))
              ∷ [])
            (some (streaming u.status hs b))
    unfolding stream_event with_reason
    stream_event-Trails audit none u hs b i =
        IsTrail.stream_events _ _ _ _ _ i.same_request refl i.not_streamed i.same_request refl refl
          refl
    stream_event-Trails audit (some name) u hs b i =
        IsTrail.stream_events _ _ _ _ _ i.same_request refl i.not_streamed i.same_request refl refl
          refl

    relay_stream-Trails :
        (audit : AuditRecord) (u : Upstream) → IsOpen id audit → Trails id (relay_stream s audit u)
    unfolding relay_stream is_warning
    relay_stream-Trails audit u i =
        let b = body_iter s.max_response_bytes 0 u.raw in
        elim (Bool-cases
          (declares_more s.max_response_bytes (lookup (codes "content-length") u.headers))) [
            | inl t ↦ rw t (IsTrail.error_event _ _ i.same_request refl)
            | inr f ↦ rw f (stream_event-Trails audit b.reason u _ b i)
          ]

    exchange-Trails :
        (p : Option ToolPolicy) (claims : Option Fields) (method : Str) (audit : AuditRecord)
        (sent : Sent)
        → IsOpen id audit
        → Trails id (exchange s scan p claims method audit sent)
    unfolding exchange is_warning
    exchange-Trails p claims method audit (request_error name) i =
        IsTrail.error_event _ _ i.same_request refl
    exchange-Trails p claims method audit raised i = IsTrail.unanswered
    exchange-Trails none claims method audit (responded u) i = relay_stream-Trails audit u i
    exchange-Trails (some p) claims method audit (responded u) i =
        elim (Bool-cases (eq_str method tools_list && (u.status == 200))) [
          | inl t ↦ rw t (
              relay_list-Trails p claims (record audit { upstream_status = some u.status }) u
                (record { same_request = i.same_request; not_streamed = i.not_streamed }))
          | inr f ↦ rw f (relay_stream-Trails audit u i)
        ]

finish-IsTrail :
    (env : Env) (url : Str) (send : Forwarded → Sent) (id : Str) (r : Request)
    (x : Result Refusal Authorized)
    → ((audit : AuditRecord) (response : ErrorResponse)
        → x ≡ err (refused audit response)
        → IsLogged id audit response)
    → ((a : Authorized) → x ≡ ok a → IsOpen id a.audit)
    → IsTrail id (finish env url send r x).events (finish env url send r x).reply
unfolding finish exchange_for
finish-IsTrail env url send id r (err crashed) h k = IsTrail.unanswered
finish-IsTrail env url send id r (err (refused audit response)) h k =
    let l = h audit response refl in IsTrail.error_event audit response l.same_request l.warned
finish-IsTrail env url send id r (ok a) h k =
    exchange-Trails id env.settings env.scan env.tool_policy (claims_of a.verified) a.call.method
      a.audit (send (forwarded_request url r a)) (k a refl)

-- Every request that gets a reply is logged under its own id, with exactly one event for the decision,
-- which is a warning where the reply is an error and says that the request is allowed where it is not;
-- a body that is streamed has exactly one more event, after that of the decision, which says how the
-- stream ended and how many bytes of it were counted. A request without a reply has no event.
pub proxy_mcp-IsTrail :
    (env : Env) (url : Str) (send : Forwarded → Sent) (request_id : Str) (r : Request)
    → IsTrail request_id
        (proxy_mcp env url send request_id r).events
        (proxy_mcp env url send request_id r).reply
unfolding proxy_mcp
proxy_mcp-IsTrail env url send request_id r =
    finish-IsTrail env url send request_id r (authorize env request_id r)
      (authorize-IsLogged env request_id r) (authorize-IsOpen env request_id r)
