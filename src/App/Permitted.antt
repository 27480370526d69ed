-- ===== src/App/Permitted.antt =====
-- The handler lets every request through that has what `IsAuthorized` asks for.

use mcp_auth_gateway.Prelude.{
  ℕ, Str, true, false, ◌≡◌, refl, ap, arith, Option, none, some, List, codes, eq_str, eq_str_iff,
  is_empty, Result, ok, Bool-cases, inl, inr,
}
use mcp_auth_gateway.Policy
use mcp_auth_gateway.Policy.{ScopeDecision}
use mcp_auth_gateway.ToolPolicy
use mcp_auth_gateway.ToolPolicy.{ToolPolicy, ToolDecision}
use mcp_auth_gateway.JsonRpc.{RpcError}
use mcp_auth_gateway.Verifier.{TokenError, VerifiedToken}
use mcp_auth_gateway.Audit.{AuditRecord}
use mcp_auth_gateway.App.Body.{read_body-whole}
use mcp_auth_gateway.App.Messages.{Settings, Request, Env, header, bearer_token, joined}
use mcp_auth_gateway.App.{
  opened, origin_allowed, check_origin, with_result, verify_with, authenticate_by, authenticate,
  with_token, held_scopes, claims_of, Call, resolve_call, resolve_parse, with_call, check_scopes,
  tools_call, judge_tool, check_tool_name, check_tool, Authorized, authorize,
}
use mcp_auth_gateway.App.Admitted.{IsAuthentic, IsToolAllowed, IsAuthorized, body_or}

check_origin-ok :
    (s : Settings) (audit : AuditRecord) (origin : Option Str)
    → origin_allowed s origin ≡ true
    → check_origin s audit origin ≡ ok tt
unfolding check_origin
check_origin-ok s audit none h = refl
check_origin-ok s audit (some origin) h = rw h refl

verify_with-verified :
    (s : Settings) (audit : AuditRecord) (verify : Str → Result TokenError VerifiedToken)
    (token : Str) (v : VerifiedToken)
    → is_empty token ≡ false
    → verify token ≡ ok v
    → verify_with s audit verify token ≡ ok (some v)
unfolding verify_with with_result
verify_with-verified s audit verify token v n e = rw (n, e) refl

pub authenticate-ok :
    (env : Env) (audit : AuditRecord) (r : Request) (o : Option VerifiedToken)
    → IsAuthentic env r o
    → authenticate env audit r ≡ ok o
unfolding authenticate authenticate_by
authenticate-ok env audit r _ (IsAuthentic.auth_off f) = rw f refl
authenticate-ok env audit r _ (IsAuthentic.bearer verify v t e n k) =
    rw (t, e)
      (verify_with-verified env.settings audit verify
        (bearer_token (header (codes "authorization") r)) v n k)

resolve_call-call :
    (audit : AuditRecord) (raw : List ℕ) (e : Option RpcError) (m t : Option Str)
    (b : Option (List ℕ)) (call : Call)
    → e ≡ none
    → m ≡ some call.method
    → call.tool_name ≡ t
    → call.body ≡ body_or raw b
    → resolve_call audit raw e m t b ≡ ok call
unfolding resolve_call
resolve_call-call audit raw (some e) m t b call p q u w = cc
resolve_call-call audit raw none none t b call p q u w = cc
resolve_call-call audit raw none (some m) t none call p q u w = ap ok (ground arith)
resolve_call-call audit raw none (some m) t (some b) call p q u w = ap ok (ground arith)

check_scopes-ok :
    (audit : AuditRecord) (d : ScopeDecision) → d.allowed ≡ true → check_scopes audit d ≡ ok tt
unfolding check_scopes
check_scopes-ok audit d h = rw h refl

judge_tool-ok :
    (audit : AuditRecord) (tool : Str) (d : ToolDecision)
    → d.allowed ≡ true
    → (a : AuditRecord) × (judge_tool audit tool d ≡ ok a)
unfolding judge_tool
judge_tool-ok audit tool d h = (record audit { tool_rule = d.matched_rule }, rw h refl)

check_tool-ok :
    (env : Env) (verified : Option VerifiedToken) (audit : AuditRecord) (call : Call)
    → IsToolAllowed env verified call
    → (a : AuditRecord) × (check_tool env.tool_policy (claims_of verified) audit call ≡ ok a)
unfolding check_tool check_tool_name
check_tool-ok env verified audit call (IsToolAllowed.no_tool_policy e) = (audit, rw e refl)
check_tool-ok env verified audit call (IsToolAllowed.not_a_tool_call n) =
    (audit, passed env.tool_policy)
  where
    passed : (o : Option ToolPolicy) → check_tool o (claims_of verified) audit call ≡ ok audit
    passed none = refl
    passed (some p) = ground (arith, eq_str_iff call.method tools_call)
check_tool-ok env verified audit call (IsToolAllowed.tool_allowed p tool e q k) =
    elim (Bool-cases (eq_str call.method tools_call)) [
      | inl t ↦
          let (a, h) = judge_tool-ok audit tool (ToolPolicy.check p tool (claims_of verified)) k in
          (a, rw (e, t, q) h)
      | inr f ↦ (audit, rw (e, f) refl)
    ]

-- A request whose origin is allowed, whose body neither declares more than the limit nor is longer,
-- that has the bearer token of a verified caller wherever authentication is on, and whose body the
-- parser accepts, with a method and a tool that the policies allow for that caller, is let through for
-- that caller and that call: no check of the handler asks for more.
pub authorize-admits :
    (env : Env) (request_id : Str) (r : Request) (a : Authorized)
    → IsAuthorized env r a
    → (b : Authorized) × (authorize env request_id r ≡ ok b)
      × (b.verified ≡ a.verified)
      × (b.call ≡ a.call)
unfolding authorize resolve_parse
authorize-admits env request_id r a i =
    let audit = opened env.settings request_id r in
    let audit1 = with_token a.verified audit in
    let d = Policy.check env.policy a.call.method (held_scopes a.verified) in
    let audit2 = with_call a.call d.required audit1 in
    let o = check_origin-ok env.settings audit (header (codes "origin") r) i.origin in
    let b = read_body-whole env.settings audit r i.declared i.within in
    let v = authenticate-ok env audit r a.verified i.authentic in
    let c =
      resolve_call-call audit1 (joined r.chunks) i.parse.error i.parse.method i.parse.tool_name
        i.parse.canonical_body a.call i.without_error i.method i.tool i.body in
    let s = check_scopes-ok audit2 d i.scopes in
    let (audit3, t) = check_tool-ok env a.verified audit2 a.call i.tool_decision in
    (
      record { audit = audit3; verified = a.verified; call = a.call },
      rw (o, b, v, i.parsed, c, s, t) refl,
      refl,
      refl,
    )
