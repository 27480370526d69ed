-- ===== src/App/Admitted.antt =====
-- What is known of a request that the handler lets through to the upstream.
use mathlib.Core.Path.{subst}
use mcp_auth_gateway.Prelude.{
  ℕ, ◌≤◌, ◌⊎◌, Str, true, false, ◌≡◌, ◌≢◌, refl, sym, ap, ◌∙◌, arith, Option, none, some, List, [],
  ◌∷◌, codes, eq_str, eq_str_iff, is_empty, length, Result, ok, err, >>=-eq-ok, Bool-cases, inl,
  inr,
}
use mcp_auth_gateway.Json.{Fields}
use mcp_auth_gateway.Policy
use mcp_auth_gateway.Policy.{ScopePolicy, ScopeDecision, ScopeReason}
use mcp_auth_gateway.ToolPolicy
use mcp_auth_gateway.ToolPolicy.{ToolPolicy, ToolDecision, ToolReason}
use mcp_auth_gateway.JsonRpc.{JsonRpcParse, RpcError, Unhandled, parse_jsonrpc}
use mcp_auth_gateway.Verifier.{TokenError, VerifiedToken}
use mcp_auth_gateway.Audit.{AuditRecord}
use mcp_auth_gateway.App.Body.{read_body-IsRead, read_body-declared}
use mcp_auth_gateway.App.Messages.{Settings, Request, Env, header, bearer_token, joined}
use mcp_auth_gateway.App.{
  opened, origin_allowed, check_origin, declares_more, read_body, with_result, verify_with,
  authenticate_by, authenticate, with_token, held_scopes, claims_of, Call, resolve_call,
  resolve_parse, with_call, check_scopes, tools_call, judge_tool, check_tool_name, check_tool,
  Authorized, authorize,
}

-- Whose request it is: nobody's if authentication is off, else the bearer's of a token that is verified.
pub data IsAuthentic (env : Env) (r : Request) : Option VerifiedToken → Type 0 where
  auth_off : env.settings.require_auth ≡ false → IsAuthentic env r none
  bearer :
      (verify : Str → Result TokenError VerifiedToken) (v : VerifiedToken)
      → env.settings.require_auth ≡ true
      → env.verifier ≡ some verify
      → is_empty (bearer_token (header (codes "authorization") r)) ≡ false
      → verify (bearer_token (header (codes "authorization") r)) ≡ ok v
      → IsAuthentic env r (some v)

-- Whether the tool policy lets a call through.
pub data IsToolAllowed (env : Env) (verified : Option VerifiedToken) (call : Call) : Type 0 where
  no_tool_policy : env.tool_policy ≡ none → IsToolAllowed env verified call
  not_a_tool_call : call.method ≢ tools_call → IsToolAllowed env verified call
  tool_allowed :
      (p : ToolPolicy) (tool : Str)
      → env.tool_policy ≡ some p
      → call.tool_name ≡ some tool
      → (ToolPolicy.check p tool (claims_of verified)).allowed ≡ true
      → IsToolAllowed env verified call

-- The parser's body, or else the one that was read.
abbrev pub body_or : List ℕ → Option (List ℕ) → List ℕ
body_or raw none = raw
body_or raw (some body) = body

pub record IsAuthorized (env : Env) (r : Request) (a : Authorized) : Type 0 where
  pub origin : origin_allowed env.settings (header (codes "origin") r) ≡ true
  pub declared :
      declares_more env.settings.max_request_bytes (header (codes "content-length") r) ≡ false
  pub within :
      (env.settings.max_request_bytes ≡ 0)
      ⊎ (length (joined r.chunks) ≤ env.settings.max_request_bytes)
  pub authentic : IsAuthentic env r a.verified
  pub parse : JsonRpcParse
  pub parsed : parse_jsonrpc env.scan (joined r.chunks) ≡ ok parse
  pub without_error : parse.error ≡ none
  pub method : parse.method ≡ some a.call.method
  pub tool : a.call.tool_name ≡ parse.tool_name
  pub body : a.call.body ≡ body_or (joined r.chunks) parse.canonical_body
  pub scopes : (Policy.check env.policy a.call.method (held_scopes a.verified)).allowed ≡ true
  pub tool_decision : IsToolAllowed env a.verified a.call

check_origin-allowed :
    (s : Settings) (audit : AuditRecord) (origin : Option Str) {u : Unit {0}}
    → check_origin s audit origin ≡ ok u
    → origin_allowed s origin ≡ true
unfolding check_origin
check_origin-allowed s audit none h = refl
check_origin-allowed s audit (some origin) h = ground arith

with_result-ok :
    (s : Settings) (audit : AuditRecord) (x : Result TokenError VerifiedToken)
    (o : Option VerifiedToken)
    → with_result s audit x ≡ ok o
    → (v : VerifiedToken) × (x ≡ ok v) × (some v ≡ o)
unfolding with_result
with_result-ok s audit (err e) o h = cc
with_result-ok s audit (ok v) o h = (v, refl, ground arith)

verify_with-ok :
    (s : Settings) (audit : AuditRecord) (verify : Str → Result TokenError VerifiedToken)
    (token : Str) (o : Option VerifiedToken)
    → verify_with s audit verify token ≡ ok o
    → (v : VerifiedToken) × (is_empty token ≡ false) × (verify token ≡ ok v) × (some v ≡ o)
unfolding verify_with
verify_with-ok s audit verify [] o h = cc
verify_with-ok s audit verify (c ∷ token) o h =
    let (v, e, q) = with_result-ok s audit (verify (c ∷ token)) o h in (v, refl, e, q)

authenticate_by-IsAuthentic :
    (env : Env) (audit : AuditRecord) (r : Request)
    (verifier : Option (Str → Result TokenError VerifiedToken)) (o : Option VerifiedToken)
    → env.settings.require_auth ≡ true
    → env.verifier ≡ verifier
    → authenticate_by env audit r verifier ≡ ok o
    → IsAuthentic env r o
unfolding authenticate_by
authenticate_by-IsAuthentic env audit r none o t e h = cc
authenticate_by-IsAuthentic env audit r (some verify) o t e h =
    let (v, n, k, q) =
      verify_with-ok env.settings audit verify (bearer_token (header (codes "authorization") r)) o
        h in
    subst (IsAuthentic env r) q (IsAuthentic.bearer verify v t e n k)

authenticate-IsAuthentic :
    (env : Env) (audit : AuditRecord) (r : Request) (o : Option VerifiedToken)
    → authenticate env audit r ≡ ok o
    → IsAuthentic env r o
unfolding authenticate
authenticate-IsAuthentic env audit r o h = elim (Bool-cases env.settings.require_auth) [
  | inl t ↦ authenticate_by-IsAuthentic env audit r env.verifier o t refl (ground arith)
  | inr f ↦ let q : none ≡ o = ground arith in subst (IsAuthentic env r) q (IsAuthentic.auth_off f)
]

-- The parse that a call comes from.
record IsCallOf (raw : List ℕ) (d : Result Unhandled JsonRpcParse) (call : Call) : Type 0 where
  parse : JsonRpcParse
  parsed : d ≡ ok parse
  without_error : parse.error ≡ none
  method : parse.method ≡ some call.method
  tool : call.tool_name ≡ parse.tool_name
  body : call.body ≡ body_or raw parse.canonical_body

resolve_call-ok :
    (audit : AuditRecord) (raw : List ℕ) (e : Option RpcError) (m t : Option Str)
    (b : Option (List ℕ)) (call : Call)
    → resolve_call audit raw e m t b ≡ ok call
    → (e ≡ none) × (m ≡ some call.method) × (call.tool_name ≡ t) × (call.body ≡ body_or raw b)
unfolding resolve_call
resolve_call-ok audit raw (some e) m t b call h = cc
resolve_call-ok audit raw none none t b call h = cc
resolve_call-ok audit raw none (some m) t none call h =
    (refl, ground arith, ground arith, ground arith)
resolve_call-ok audit raw none (some m) t (some b) call h =
    (refl, ground arith, ground arith, ground arith)

resolve_parse-IsCallOf :
    (audit : AuditRecord) (raw : List ℕ) (d : Result Unhandled JsonRpcParse) (call : Call)
    → resolve_parse audit raw d ≡ ok call
    → IsCallOf raw d call
unfolding resolve_parse
resolve_parse-IsCallOf audit raw (err u) call h = cc
resolve_parse-IsCallOf audit raw (ok p) call h =
    let (e, m, t, b) =
      resolve_call-ok audit raw p.error p.method p.tool_name p.canonical_body call h in
    record { parse = p; parsed = refl; without_error = e; method = m; tool = t; body = b }

check_scopes-allowed :
    (audit : AuditRecord) (d : ScopeDecision) {u : Unit {0}}
    → check_scopes audit d ≡ ok u
    → d.allowed ≡ true
unfolding check_scopes
check_scopes-allowed audit d h = ground arith

judge_tool-allowed :
    (audit : AuditRecord) (tool : Str) (d : ToolDecision) (a : AuditRecord)
    → judge_tool audit tool d ≡ ok a
    → d.allowed ≡ true
unfolding judge_tool
judge_tool-allowed audit tool d a h = ground arith

check_tool_name-allowed :
    (p : ToolPolicy) (claims : Option Fields) (audit : AuditRecord) (tool : Option Str)
    (a : AuditRecord)
    → check_tool_name p claims audit tool ≡ ok a
    → (t : Str) × (tool ≡ some t) × ((ToolPolicy.check p t claims).allowed ≡ true)
unfolding check_tool_name
check_tool_name-allowed p claims audit none a h = cc
check_tool_name-allowed p claims audit (some t) a h =
    (t, refl, judge_tool-allowed audit t (ToolPolicy.check p t claims) a h)

check_tool-allowed :
    (env : Env) (verified : Option VerifiedToken) (o : Option ToolPolicy) (audit a : AuditRecord)
    (call : Call)
    → env.tool_policy ≡ o
    → check_tool o (claims_of verified) audit call ≡ ok a
    → IsToolAllowed env verified call
unfolding check_tool
check_tool-allowed env verified none audit a call e h = IsToolAllowed.no_tool_policy e
check_tool-allowed env verified (some p) audit a call e h =
    elim (Bool-cases (eq_str call.method tools_call)) [
      | inl t ↦
          let (tool, q, k) =
            check_tool_name-allowed p (claims_of verified) audit call.tool_name a (ground arith) in
          IsToolAllowed.tool_allowed p tool e q k
      | inr f ↦
          IsToolAllowed.not_a_tool_call (λ q. ground (arith, eq_str_iff call.method tools_call))
    ]

-- A request that the handler lets through has an allowed origin, a body that neither declares more
-- than the limit nor is longer, the bearer
-- token of a verified caller wherever authentication is on, a body that the parser accepts, a method
-- that the scope policy allows for the scopes of that caller, and, where there is a tool policy and
-- the method is tools/call, a tool that this policy allows for the claims of that caller.
pub authorize-IsAuthorized :
    (env : Env) (request_id : Str) (r : Request) (a : Authorized)
    → authorize env request_id r ≡ ok a
    → IsAuthorized env r a
unfolding authorize
authorize-IsAuthorized env request_id r a h =
    let audit = opened env.settings request_id r in
    let (u, o, h1) = >>=-eq-ok (check_origin env.settings audit (header (codes "origin") r)) _ h in
    let (raw, b, h2) = >>=-eq-ok (read_body env.settings audit r) _ h1 in
    let (verified, v, h3) = >>=-eq-ok (authenticate env audit r) _ h2 in
    let audit1 = with_token verified audit in
    let (call, c, h4) = >>=-eq-ok (resolve_parse audit1 raw (parse_jsonrpc env.scan raw)) _ h3 in
    let d = Policy.check env.policy call.method (held_scopes verified) in
    let audit2 = with_call call d.required audit1 in
    let (w, s, h5) = >>=-eq-ok (check_scopes audit2 d) _ h4 in
    let (audit3, t, h6) =
      >>=-eq-ok (check_tool env.tool_policy (claims_of verified) audit2 call) _ h5 in
    let i = read_body-IsRead env.settings audit r raw b in
    let k = resolve_parse-IsCallOf audit1 raw (parse_jsonrpc env.scan raw) call c in
    let q : record { audit = audit3; verified = verified; call = call } ≡ a = ground arith in
    subst (IsAuthorized env r) q (record {
      origin = check_origin-allowed env.settings audit (header (codes "origin") r) o;
      declared = read_body-declared env.settings audit r raw b;
      within =
          subst
            (λ x.
              (env.settings.max_request_bytes ≡ 0) ⊎ (length x ≤ env.settings.max_request_bytes))
            i.whole i.within;
      authentic = authenticate-IsAuthentic env audit r verified v;
      parse = k.parse;
      parsed = ap (parse_jsonrpc env.scan) (sym i.whole) ∙ k.parsed;
      without_error = k.without_error;
      method = k.method;
      tool = k.tool;
      body = k.body ∙ ap (λ x. body_or x k.parse.canonical_body) i.whole;
      scopes = check_scopes-allowed audit2 d s;
      tool_decision = check_tool-allowed env verified env.tool_policy audit2 audit3 call refl t;
    })
