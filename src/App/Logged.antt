-- ===== src/App/Logged.antt =====
-- The event and the response of a request that the handler refuses.
use mathlib.Core.Path.{subst}
use mcp_auth_gateway.Prelude.{
  ◌⊎◌, inl, inr, ℕ, ◌≢◌, [], ◌≤◌, Str, Bool, true, false, ◌≡◌, refl, sym, ap, arith, Option, none,
  some, is_some, List, codes, eq_str, is_empty, if◌then◌else◌, Result, ok, err, ◌>>=◌, ◌>>◌,
}
use mcp_auth_gateway.Json.{Fields}
use mcp_auth_gateway.Policy
use mcp_auth_gateway.Policy.{ScopeDecision}
use mcp_auth_gateway.ToolPolicy
use mcp_auth_gateway.ToolPolicy.{ToolPolicy, ToolDecision}
use mcp_auth_gateway.JsonRpc.{JsonRpcParse, RpcError, Unhandled, parse_jsonrpc}
use mcp_auth_gateway.Verifier.{TokenError, VerifiedToken}
use mcp_auth_gateway.Audit.{AuditRecord, Decision, Reason, is_warning, new_record}
use mcp_auth_gateway.App.Messages.{
  Settings, Request, ErrorResponse, Refusal, refused, crashed, Env, header, bearer_token,
  unauthorized, forbidden, forbidden_tool,
}
use mcp_auth_gateway.App.{
  opened, origin_allowed, check_origin, declares_more, read_chunks, read_body, with_result,
  verify_with, authenticate_by, authenticate, with_token, held_scopes, claims_of, Call,
  resolve_call, resolve_parse, with_call, check_scopes, tools_call, judge_tool, too_large,
  check_tool_name, check_tool, Authorized, authorize,
}

-- The record of the event is logged as a warning, under the request's id, with an error code, which
-- is that of the response but for a 401; the response is an error, and a 401 says where to find out
-- how to get a token.
pub record IsLogged (request_id : Str) (a : AuditRecord) (response : ErrorResponse) : Type 0 where
  pub warned : is_warning a.decision ≡ true
  pub coded : is_some a.error_code ≡ true
  pub same_request : a.request_id ≡ request_id
  pub is_error : 400 ≤ response.status
  pub answered :
      ((response.status ≡ 401) × (is_some response.challenge ≡ true))
      ⊎ ((response.status ≢ 401) × (a.error_code ≡ some response.code))

abbrev Logs : {A : Type 0} → Str → Result Refusal A → Type 0
Logs id (ok a) = Unit {0}
Logs id (err crashed) = Unit {0}
Logs id (err (refused a response)) = IsLogged id a response

>>=-Logs :
    {A B : Type 0} (id : Str) (m : Result Refusal A) (f : A → Result Refusal B)
    → Logs id m
    → ((a : A) → Logs id (f a))
    → Logs id (m >>= f)
>>=-Logs id (ok a) f h k = k a
>>=-Logs id (err crashed) f h k = tt
>>=-Logs id (err (refused a r)) f h k = h

if-Logs :
    {A : Type 0} (id : Str) (b : Bool) (x y : Result Refusal A)
    → Logs id x
    → Logs id y
    → Logs id (if b then x else y)
if-Logs id true x y h k = h
if-Logs id false x y h k = k

module _ (id : Str) (audit : AuditRecord) (e : audit.request_id ≡ id) where
  -- A refusal with another status than 401.
  logged :
      (d : Decision) (code : Str) (reason : Option Reason) (r : ErrorResponse)
      → is_warning d ≡ true
      → r.code ≡ code
      → 400 ≤ r.status
      → r.status ≢ 401
      → IsLogged id (record audit { decision = d; error_code = some code; reason = reason }) r
  logged d code reason r w c s n = record {
    warned = w;
    coded = refl;
    same_request = e;
    is_error = s;
    answered = inr (n, ap some (sym c));
  }

  -- A refusal with status 401.
  challenges :
      (d : Decision) (code : Str) (reason : Option Reason) (r : ErrorResponse)
      → is_warning d ≡ true
      → r.status ≡ 401
      → is_some r.challenge ≡ true
      → IsLogged id (record audit { decision = d; error_code = some code; reason = reason }) r
  challenges d code reason r w s c = record {
    warned = w;
    coded = refl;
    same_request = e;
    is_error = omega arith;
    answered = inl (s, c);
  }

  check_origin-Logs : (s : Settings) (origin : Option Str) → Logs id (check_origin s audit origin)
  unfolding check_origin is_warning
  check_origin-Logs s none = tt
  check_origin-Logs s (some origin) =
      if-Logs id (origin_allowed s (some origin)) _ _ tt
        (logged _ _ _ _ refl refl (omega arith) (λ q. omega arith))

  chunks-Logs :
      (s : Settings) (chunks : Option (List ℕ))
      → Logs id (elim chunks [ none ↦ too_large {A = List ℕ} audit | some raw ↦ ok raw ])
  unfolding is_warning
  chunks-Logs s none = logged _ _ _ _ refl refl (omega arith) (λ q. omega arith)
  chunks-Logs s (some raw) = tt

  read_body-Logs : (s : Settings) (r : Request) → Logs id (read_body s audit r)
  unfolding read_body is_warning
  read_body-Logs s r =
      if-Logs id (declares_more s.max_request_bytes (header (codes "content-length") r)) _ _
        (logged _ _ _ _ refl refl (omega arith) (λ q. omega arith))
        (chunks-Logs s (read_chunks s.max_request_bytes [] r.chunks))

  with_result-Logs :
      (s : Settings) (x : Result TokenError VerifiedToken) → Logs id (with_result s audit x)
  unfolding with_result unauthorized is_warning
  with_result-Logs s (ok v) = tt
  with_result-Logs s (err x) = challenges _ _ _ _ refl refl refl

  authenticate_by-Logs :
      (env : Env) (r : Request) (o : Option (Str → Result TokenError VerifiedToken))
      → Logs id (authenticate_by env audit r o)
  unfolding authenticate_by verify_with unauthorized is_warning
  authenticate_by-Logs env r none = logged _ _ _ _ refl refl (omega arith) (λ q. omega arith)
  authenticate_by-Logs env r (some verify) =
      if-Logs id (is_empty (bearer_token (header (codes "authorization") r))) _ _
        (challenges _ _ _ _ refl refl refl)
        (with_result-Logs env.settings (verify (bearer_token (header (codes "authorization") r))))

  authenticate-Logs : (env : Env) (r : Request) → Logs id (authenticate env audit r)
  unfolding authenticate
  authenticate-Logs env r =
      if-Logs id env.settings.require_auth _ _ (authenticate_by-Logs env r env.verifier) tt

  resolve_call-Logs :
      (raw : List ℕ) (x : Option RpcError) (m t : Option Str) (b : Option (List ℕ))
      → Logs id (resolve_call audit raw x m t b)
  unfolding resolve_call is_warning
  resolve_call-Logs raw (some x) m t b = logged _ _ _ _ refl refl (omega arith) (λ q. omega arith)
  resolve_call-Logs raw none none t b = tt
  resolve_call-Logs raw none (some m) t none = tt
  resolve_call-Logs raw none (some m) t (some b) = tt

  resolve_parse-Logs :
      (raw : List ℕ) (d : Result Unhandled JsonRpcParse) → Logs id (resolve_parse audit raw d)
  unfolding resolve_parse
  resolve_parse-Logs raw (err u) = tt
  resolve_parse-Logs raw (ok p) =
      resolve_call-Logs raw p.error p.method p.tool_name p.canonical_body

  check_scopes-Logs : (d : ScopeDecision) → Logs id (check_scopes audit d)
  unfolding check_scopes forbidden is_warning
  check_scopes-Logs d =
      if-Logs id d.allowed _ _ tt (logged _ _ _ _ refl refl (omega arith) (λ q. omega arith))

judge_tool-Logs :
    (id : Str) (audit : AuditRecord) (tool : Str) (d : ToolDecision)
    → audit.request_id ≡ id
    → Logs id (judge_tool audit tool d)
unfolding judge_tool forbidden_tool is_warning
judge_tool-Logs id audit tool d e = if-Logs id d.allowed _ _ tt (
    logged id (record audit { tool_rule = d.matched_rule }) e _ _ _ _ refl refl (omega arith)
      (λ q. omega arith))

check_tool_name-Logs :
    (id : Str) (audit : AuditRecord) (p : ToolPolicy) (claims : Option Fields) (tool : Option Str)
    → audit.request_id ≡ id
    → Logs id (check_tool_name p claims audit tool)
unfolding check_tool_name is_warning
check_tool_name-Logs id audit p claims none e =
    logged id audit e _ _ _ _ refl refl (omega arith) (λ q. omega arith)
check_tool_name-Logs id audit p claims (some t) e =
    judge_tool-Logs id audit t (ToolPolicy.check p t claims) e

check_tool-Logs :
    (id : Str) (audit : AuditRecord) (o : Option ToolPolicy) (claims : Option Fields) (call : Call)
    → audit.request_id ≡ id
    → Logs id (check_tool o claims audit call)
unfolding check_tool
check_tool-Logs id audit none claims call e = tt
check_tool-Logs id audit (some p) claims call e =
    if-Logs id (eq_str call.method tools_call) _ _
      (check_tool_name-Logs id audit p claims call.tool_name e) tt

with_token_id :
    (o : Option VerifiedToken) (audit : AuditRecord)
    → (with_token o audit).request_id ≡ audit.request_id
unfolding with_token
with_token_id none audit = refl
with_token_id (some v) audit = refl

-- the checks from the scopes on
judged-Logs :
    (env : Env) (id : Str) (verified : Option VerifiedToken) (call : Call) (audit : AuditRecord)
    → audit.request_id ≡ id
    → Logs {A = Authorized} id (
        check_scopes audit (Policy.check env.policy call.method (held_scopes verified))
        >> (check_tool env.tool_policy (claims_of verified) audit call >>= λ a.
            ok (record { audit = a; verified = verified; call = call })))
judged-Logs env id verified call audit e =
    >>=-Logs id (check_scopes audit (Policy.check env.policy call.method (held_scopes verified))) _
      (check_scopes-Logs id audit e (Policy.check env.policy call.method (held_scopes verified)))
      (λ _.
        >>=-Logs id (check_tool env.tool_policy (claims_of verified) audit call) _
          (check_tool-Logs id audit env.tool_policy (claims_of verified) call e) (λ _. tt))

authorize-Logs : (env : Env) (id : Str) (r : Request) → Logs id (authorize env id r)
unfolding authorize opened new_record
authorize-Logs env id r =
    let audit = opened env.settings id r in
    >>=-Logs id (check_origin env.settings audit (header (codes "origin") r)) _
      (check_origin-Logs id audit refl env.settings (header (codes "origin") r))
      (λ _.
        >>=-Logs id (read_body env.settings audit r) _ (read_body-Logs id audit refl env.settings r)
          (λ raw.
            >>=-Logs id (authenticate env audit r) _ (authenticate-Logs id audit refl env r) (λ v.
              >>=-Logs id (resolve_parse (with_token v audit) raw (parse_jsonrpc env.scan raw)) _
                (resolve_parse-Logs id (with_token v audit) (with_token_id v audit) raw
                  (parse_jsonrpc env.scan raw))
                (λ call.
                  judged-Logs env id v call
                    (with_call call (Policy.check env.policy call.method (held_scopes v)).required
                      (with_token v audit))
                    (unfold with_call in with_token_id v audit)))))

-- A request that the handler refuses, at whichever check, is answered by an error that the event of
-- its record announces.
pub authorize-IsLogged :
    (env : Env) (request_id : Str) (r : Request) (a : AuditRecord) (response : ErrorResponse)
    → authorize env request_id r ≡ err (refused a response)
    → IsLogged request_id a response
authorize-IsLogged env request_id r a response h =
    subst (Logs request_id) h (authorize-Logs env request_id r)
