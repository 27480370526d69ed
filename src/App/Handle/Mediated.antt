-- ===== src/App/Handle/Mediated.antt =====
-- What is handed to the HTTP client for the upstream.
use mathlib.Core.Path.{subst}
use mcp_auth_gateway.Prelude.{Str, ◌≡◌, ◌↔◌, refl, sym, ap, ◌∙◌, arith, some, Result, ok, err}
use mcp_auth_gateway.App.Messages.{Request, Refusal, refused, crashed, Env}
use mcp_auth_gateway.App.{Authorized, authorize}
use mcp_auth_gateway.App.Admitted.{IsAuthorized, authorize-IsAuthorized}
use mcp_auth_gateway.App.Permitted.{authorize-admits}
use mcp_auth_gateway.App.Forward.{forwarded_headers}
use mcp_auth_gateway.App.Exchange.{Sent}
use mcp_auth_gateway.App.Handle.Open.{authorize-IsOpen}
use mcp_auth_gateway.App.Handle.{Forwarded, forwarded_request, finish, proxy_mcp}

-- The request to the upstream for a request from a client: it is that of a call which the policies
-- allow for the caller, under the gateway's request id.
pub record IsMediated (env : Env) (url request_id : Str) (r : Request) (f : Forwarded)
    : Type 0 where
  pub admitted : Authorized
  pub authorized : IsAuthorized env r admitted
  pub to_url : f.url ≡ url
  pub identified : f.headers ≡ forwarded_headers request_id admitted.verified r.headers
  pub content : f.content ≡ admitted.call.body

finish-forwarded :
    (env : Env) (url : Str) (send : Forwarded → Sent) (r : Request) (x : Result Refusal Authorized)
    (f : Forwarded)
    → (finish env url send r x).forwarded ≡ some f
    → (a : Authorized) × (x ≡ ok a) × (forwarded_request url r a ≡ f)
unfolding finish
finish-forwarded env url send r (err crashed) f h = cc
finish-forwarded env url send r (err (refused audit response)) f h = cc
finish-forwarded env url send r (ok a) f h = (a, refl, ground arith)

sent_as :
    {env : Env} {url request_id : Str} {r : Request} {f : Forwarded} (a : Authorized)
    (m : IsMediated env url request_id r f)
    → a.audit.request_id ≡ request_id
    → a.verified ≡ m.admitted.verified
    → a.call ≡ m.admitted.call
    → forwarded_request url r a ≡ f
unfolding forwarded_request
sent_as a m q v c =
    let h = m.identified in
    let u = m.to_url in let w = m.content in rw (q, v, c, sym h, sym w, sym u) refl

-- The handler is a reference monitor: it hands a request for the upstream to the HTTP client exactly
-- when the client's request has all that `IsAuthorized` asks for, and it hands on the body of the call that was
-- allowed, under the gateway's own request id and the identity of the verified caller. Whatever the
-- upstream does with a request has no part in it.
pub proxy_mcp-mediates_iff :
    (env : Env) (url : Str) (send : Forwarded → Sent) (request_id : Str) (r : Request)
    (f : Forwarded)
    → ((proxy_mcp env url send request_id r).forwarded ≡ some f) ↔ IsMediated env url request_id r f
unfolding proxy_mcp forwarded_request
proxy_mcp-mediates_iff env url send request_id r f = (
  λ h.
      let (a, e, q) = finish-forwarded env url send r (authorize env request_id r) f h in
      let i = authorize-IsOpen env request_id r a e in
      subst (IsMediated env url request_id r) q (record {
        admitted = a;
        authorized = authorize-IsAuthorized env request_id r a e;
        to_url = refl;
        identified = ap (λ x. forwarded_headers x a.verified r.headers) i.same_request;
        content = refl;
      }),
  λ m.
      let (a, e, v, c) = authorize-admits env request_id r m.admitted m.authorized in
      let i = authorize-IsOpen env request_id r a e in
      ap (λ x. (finish env url send r x).forwarded) e ∙ ap some (sent_as a m (i.same_request) v c),
)
