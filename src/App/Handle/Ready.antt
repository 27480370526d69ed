-- ===== src/App/Handle/Ready.antt =====
-- src/mcp_gateway/app.py, `proxy_mcp`: what decides on a request that the handler can read and whose
-- caller it knows.
use mcp_auth_gateway.Prelude.{
  ◌≤◌, ◌⊎◌, Str, true, false, ◌≡◌, ◌↔◌, refl, sym, ap, ◌∙◌, Option, some, none, [], codes, length,
  Result, ok,
}
use mcp_auth_gateway.Policy
use mcp_auth_gateway.JsonRpc.{JsonRpcParse, parse_jsonrpc}
use mcp_auth_gateway.Verifier.{VerifiedToken}
use mcp_auth_gateway.App.Messages.{Request, Env, header, joined}
use mcp_auth_gateway.App.{Authorized, Call, opened, origin_allowed, declares_more, held_scopes}
use mcp_auth_gateway.App.Admitted.{IsAuthentic, IsToolAllowed, IsAuthorized, body_or}
use mcp_auth_gateway.App.Permitted.{authenticate-ok}
use mcp_auth_gateway.App.Forward.{forwarded_headers}
use mcp_auth_gateway.App.Exchange.{Sent}
use mcp_auth_gateway.App.Handle.Mediated.{proxy_mcp-mediates_iff}
use mcp_auth_gateway.App.Handle.{Forwarded, proxy_mcp}

-- A request of a caller that the handler reads as a call. There is no caller where authentication is
-- off.
pub record IsReady (env : Env) (r : Request) (caller : Option VerifiedToken) (call : Call)
    : Type 0 where
  pub origin : origin_allowed env.settings (header (codes "origin") r) ≡ true
  pub declared :
      declares_more env.settings.max_request_bytes (header (codes "content-length") r) ≡ false
  pub within :
      (env.settings.max_request_bytes ≡ 0)
      ⊎ (length (joined r.chunks) ≤ env.settings.max_request_bytes)
  pub authentic : IsAuthentic env r caller
  pub parse : JsonRpcParse
  pub parsed : parse_jsonrpc env.scan (joined r.chunks) ≡ ok parse
  pub without_error : parse.error ≡ none
  pub method : parse.method ≡ some call.method
  pub tool : call.tool_name ≡ parse.tool_name
  pub body : call.body ≡ body_or (joined r.chunks) parse.canonical_body

pub same_some : {A : Type 0} {o : Option A} {a b : A} → o ≡ some a → o ≡ some b → a ≡ b
same_some p q = cc

pub same_ok : {E A : Type 0} {x : Result E A} {a b : A} → x ≡ ok a → x ≡ ok b → a ≡ b
same_ok p q = cc

-- A request has one caller.
pub IsAuthentic-unique :
    (env : Env) (r : Request) (a b : Option VerifiedToken)
    → IsAuthentic env r a
    → IsAuthentic env r b
    → a ≡ b
IsAuthentic-unique env r a b h k =
    let audit = opened env.settings [] r in
    same_ok (authenticate-ok env audit r a h) (authenticate-ok env audit r b k)

same_call : (a b : Call) → a.method ≡ b.method → a.tool_name ≡ b.tool_name → a.body ≡ b.body → a ≡ b
same_call a b p q r = cc

module _ (env : Env) (r : Request) (caller : Option VerifiedToken) (call : Call) where
  -- Both policies let the caller make the call.
  pub record IsPermitted : Type 0 where
    pub scopes : (Policy.check env.policy call.method (held_scopes caller)).allowed ≡ true
    pub tool : IsToolAllowed env caller call

  module _ (ready : IsReady env r caller call) where
    authorized-IsPermitted : (a : Authorized) → IsAuthorized env r a → IsPermitted
    authorized-IsPermitted a k =
        let v = IsAuthentic-unique env r a.verified caller k.authentic ready.authentic in
        let p = same_ok k.parsed ready.parsed in
        let method =
          same_some (ap (λ (y : JsonRpcParse). y.method) (sym p) ∙ k.method) ready.method in
        let tool = k.tool ∙ ap (λ (y : JsonRpcParse). y.tool_name) p ∙ sym ready.tool in
        let body =
          k.body
          ∙ ap (λ (y : JsonRpcParse). body_or (joined r.chunks) y.canonical_body) p
          ∙ sym ready.body in
        let c = same_call a.call call method tool body in
        record { scopes = rw (c, v) at k.scopes; tool = rw (c, v) at k.tool_decision }

    abbrev pub ready_call : Str → Authorized
    ready_call request_id = record {
      audit = opened env.settings request_id r;
      verified = caller;
      call = call;
    }

    permitted-IsAuthorized :
        (request_id : Str) → IsPermitted → IsAuthorized env r (ready_call request_id)
    permitted-IsAuthorized request_id h = record {
      origin = ready.origin;
      declared = ready.declared;
      within = ready.within;
      authentic = ready.authentic;
      parse = ready.parse;
      parsed = ready.parsed;
      without_error = ready.without_error;
      method = ready.method;
      tool = ready.tool;
      body = ready.body;
      scopes = h.scopes;
      tool_decision = h.tool;
    }

    -- A call that can be read, of a known caller, is handed to the HTTP client exactly when both policies let
    -- that caller make it.
    pub ready-forwarded_iff :
        (url : Str) (send : Forwarded → Sent) (request_id : Str)
        → ((f : Forwarded) × ((proxy_mcp env url send request_id r).forwarded ≡ some f))
          ↔ IsPermitted
    ready-forwarded_iff url send request_id = (
      λ (f, e).
          let m = (proxy_mcp-mediates_iff env url send request_id r f).0 e in
          authorized-IsPermitted m.admitted m.authorized,
      λ h.
          let f : Forwarded = record {
            url = url;
            headers = forwarded_headers request_id caller r.headers;
            content = call.body;
          } in
          (
            f,
            (proxy_mcp-mediates_iff env url send request_id r f).1 (record {
              admitted = ready_call request_id;
              authorized = permitted-IsAuthorized request_id h;
              to_url = refl;
              identified = refl;
              content = refl;
            }),
          ),
    )
