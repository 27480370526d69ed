-- ===== src/App/Handle/Determined.antt =====
-- The body that is forwarded determines the call that was authorized.
use mcp_auth_gateway.Prelude.{Str, ◌≡◌, refl, sym, ap, ◌∙◌, some, ok}
use mcp_auth_gateway.Json.{Json}
use mcp_auth_gateway.Json.Decode.{loads, no_duplicate_keys}
use mcp_auth_gateway.Json.Print.Kinds.{IsStandard}
use mcp_auth_gateway.JsonRpc.Accepted.{parse_jsonrpc-IsAccepted}
use mcp_auth_gateway.JsonRpc.Determined.{parse_jsonrpc-determined, some_of}
use mcp_auth_gateway.App.Messages.{Request, Env, joined}
use mcp_auth_gateway.App.{Call, Authorized, authorize}
use mcp_auth_gateway.App.Admitted.{IsAuthorized, body_or, authorize-IsAuthorized}

same_call : (c d : Call) → c.method ≡ d.method → c.tool_name ≡ d.tool_name → c.body ≡ d.body → c ≡ d
same_call c d m t b = rw (m, t, b) refl

-- What is forwarded is the canonical body.
forwarded-canonical :
    (env : Env) (r : Request) (a : Authorized) (i : IsAuthorized env r a)
    → i.parse.canonical_body ≡ some a.call.body
forwarded-canonical env r a i =
    let k =
      (parse_jsonrpc-IsAccepted env.scan (joined r.chunks) i.parse i.parsed
        i.without_error).accepted in
    k.canonical ∙ ap some (sym (i.body ∙ ap (body_or (joined r.chunks)) k.canonical))

-- Two requests that are forwarded with the same body were authorized as the same call, with one method
-- and one tool, whatever their original bodies were: what the upstream can read in the body is no
-- other call than the one that the policies allowed. The original bodies hold no float beyond the
-- range, which is printed as no JSON.
pub authorize_body_determines :
    (env : Env) (id id' : Str) (r r' : Request) (a a' : Authorized)
    → ((j : Json) → loads no_duplicate_keys (env.scan (joined r.chunks)) ≡ ok j → IsStandard j)
    → ((j : Json) → loads no_duplicate_keys (env.scan (joined r'.chunks)) ≡ ok j → IsStandard j)
    → authorize env id r ≡ ok a
    → authorize env id' r' ≡ ok a'
    → a.call.body ≡ a'.call.body
    → a.call ≡ a'.call
authorize_body_determines env id id' r r' a a' s s' h h' e =
    let i = authorize-IsAuthorized env id r a h in
    let i' = authorize-IsAuthorized env id' r' a' h' in
    let c = forwarded-canonical env r a i in
    let c' = forwarded-canonical env r' a' i' in
    let p =
      parse_jsonrpc-determined env.scan (joined r.chunks) (joined r'.chunks) i.parse i'.parse
        i.parsed i'.parsed i.without_error i'.without_error s s' (c ∙ ap some e ∙ sym c') in
    let m = some_of (sym i.method ∙ ap (λ x. x.method) p ∙ i'.method) in
    let t = i.tool ∙ ap (λ x. x.tool_name) p ∙ sym i'.tool in same_call a.call a'.call m t e
