-- ===== src/App/Handle/Open.antt =====
-- The record that the checks leave for a request that they let through.
use mathlib.Core.Path.{subst}
use mcp_auth_gateway.Prelude.{
  Str, ◌≡◌, refl, arith, Option, none, some, List, codes, ok, >>=-eq-ok, eq_str, Bool-cases, inl,
  inr,
}
use mcp_auth_gateway.Json.{Fields}
use mcp_auth_gateway.Policy
use mcp_auth_gateway.Policy.{ScopeDecision}
use mcp_auth_gateway.ToolPolicy
use mcp_auth_gateway.ToolPolicy.{ToolPolicy, ToolDecision}
use mcp_auth_gateway.JsonRpc.{parse_jsonrpc}
use mcp_auth_gateway.Verifier.{VerifiedToken}
use mcp_auth_gateway.Audit.{AuditRecord}
use mcp_auth_gateway.App.Messages.{Settings, Request, Env, header}
use mcp_auth_gateway.App.{
  opened, check_origin, read_body, authenticate, with_token, held_scopes, claims_of, Call,
  resolve_parse, with_call, check_scopes, tools_call, judge_tool, check_tool_name, check_tool,
  Authorized, authorize,
}

-- A record of the request, for which no body has been streamed.
pub record IsOpen (request_id : Str) (a : AuditRecord) : Type 0 where
  pub same_request : a.request_id ≡ request_id
  pub not_streamed : a.stream_result ≡ none

module _ (id : Str) (audit : AuditRecord) (i : IsOpen id audit) where
  judge_tool-IsOpen :
      (tool : Str) (d : ToolDecision) (a : AuditRecord)
      → judge_tool audit tool d ≡ ok a
      → IsOpen id a
  unfolding judge_tool
  judge_tool-IsOpen tool d a h = elim (Bool-cases d.allowed) [
    | inl t ↦
        let q : record audit { tool_rule = d.matched_rule } ≡ a = ground arith in
        subst (IsOpen id) q
          (record { same_request = i.same_request; not_streamed = i.not_streamed })
    | inr f ↦ ground arith
  ]

  check_tool_name-IsOpen :
      (p : ToolPolicy) (claims : Option Fields) (tool : Option Str) (a : AuditRecord)
      → check_tool_name p claims audit tool ≡ ok a
      → IsOpen id a
  unfolding check_tool_name
  check_tool_name-IsOpen p claims none a h = cc
  check_tool_name-IsOpen p claims (some t) a h =
      judge_tool-IsOpen t (ToolPolicy.check p t claims) a h

  check_tool-IsOpen :
      (p : Option ToolPolicy) (claims : Option Fields) (call : Call) (a : AuditRecord)
      → check_tool p claims audit call ≡ ok a
      → IsOpen id a
  unfolding check_tool
  check_tool-IsOpen none claims call a h = let q : audit ≡ a = ground arith in subst (IsOpen id) q i
  check_tool-IsOpen (some p) claims call a h = elim (Bool-cases (eq_str call.method tools_call)) [
    | inl t ↦ check_tool_name-IsOpen p claims call.tool_name a (ground arith)
    | inr f ↦ let q : audit ≡ a = ground arith in subst (IsOpen id) q i
  ]

with_token-IsOpen :
    (id : Str) (audit : AuditRecord) (o : Option VerifiedToken)
    → IsOpen id audit
    → IsOpen id (with_token o audit)
unfolding with_token
with_token-IsOpen id audit none i = i
with_token-IsOpen id audit (some v) i = record {
  same_request = i.same_request;
  not_streamed = i.not_streamed;
}

with_call-IsOpen :
    (id : Str) (audit : AuditRecord) (call : Call) (required : List Str)
    → IsOpen id audit
    → IsOpen id (with_call call required audit)
unfolding with_call
with_call-IsOpen id audit call required i = record {
  same_request = i.same_request;
  not_streamed = i.not_streamed;
}

opened-IsOpen : (s : Settings) (id : Str) (r : Request) → IsOpen id (opened s id r)
unfolding opened
opened-IsOpen s id r = record { same_request = refl; not_streamed = refl }

pub authorize-IsOpen :
    (env : Env) (id : Str) (r : Request) (a : Authorized)
    → authorize env id r ≡ ok a
    → IsOpen id a.audit
unfolding authorize
authorize-IsOpen env id r a h =
    let audit = opened env.settings id r in
    let (u, o, h1) = >>=-eq-ok (check_origin env.settings audit (header (codes "origin") r)) _ h in
    let (raw, b, h2) = >>=-eq-ok (read_body env.settings audit r) _ h1 in
    let (verified, v, h3) = >>=-eq-ok (authenticate env audit r) _ h2 in
    let audit1 = with_token verified audit in
    let (call, c, h4) = >>=-eq-ok (resolve_parse audit1 raw (parse_jsonrpc env.scan raw)) _ h3 in
    let d = Policy.check env.policy call.method (held_scopes verified) in
    let audit2 = with_call call d.required audit1 in
    let (w, s, h5) = >>=-eq-ok (check_scopes audit2 d) _ h4 in
    let (audit3, t, h6) =
      >>=-eq-ok (check_tool env.tool_policy (claims_of verified) audit2 call) _ h5 in
    let i1 = with_token-IsOpen id audit verified (opened-IsOpen env.settings id r) in
    let i2 = with_call-IsOpen id audit1 call d.required i1 in
    let i3 = check_tool-IsOpen id audit2 i2 env.tool_policy (claims_of verified) call audit3 t in
    let q : record { audit = audit3; verified = verified; call = call } ≡ a = ground arith in
    subst (λ x. IsOpen id x.audit) q i3
