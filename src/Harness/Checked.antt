-- ===== src/Harness/Checked.antt =====
-- verification/mint_token.py and e2e_client.py before the gateway: what it does for a client that
-- sends a minted token.
use mathlib.Core.Path.{subst}
use mcp_auth_gateway.Prelude.{
  ℕ, ◌+◌, ◌≤◌, ◌<◌, ◌≡◌, ◌≢◌, ◌↔◌, ◌⊎◌, refl, sym, ap, ◌∙◌, arith, Str, true, false, Option, none,
  some, List, codes, length, elem, is_empty, Result, ok,
}
use mcp_auth_gateway.Json.{Fields}
use mcp_auth_gateway.Pkce.Compliant.{all_unreserved}
use mcp_auth_gateway.Policy
use mcp_auth_gateway.JsonRpc.{JsonRpcParse, parse_jsonrpc}
use mcp_auth_gateway.Verifier.{Jwt, TokenError, VerifiedToken, verify}
use mcp_auth_gateway.Verifier.Cache.{KeyError}
use mcp_auth_gateway.App.Messages.{Env, Request, header, bearer_token, joined}
use mcp_auth_gateway.App.{Call, origin_allowed, declares_more, held_scopes}
use mcp_auth_gateway.App.Admitted.{IsAuthentic, IsToolAllowed, body_or}
use mcp_auth_gateway.App.Exchange.{Sent}
use mcp_auth_gateway.App.Handle.{Forwarded, proxy_mcp}
use mcp_auth_gateway.App.Handle.Ready.{IsReady, same_some, same_ok, ready-forwarded_iff}
use mcp_auth_gateway.App.Handle.Mediated.{proxy_mcp-mediates_iff}
use mcp_auth_gateway.Harness.Client.{authorization, bearer_token-authorization}
use mcp_auth_gateway.Harness.Mint.{Encode, rs256, kid_header, mint}
use mcp_auth_gateway.Harness.Mint.Tokens.{
  Kind, valid, readonly, expired, kind_text, minted, issued_at, expires_at, Decodes, mint_token,
  caller, granted, verdict, verify-minted,
}

verdict-caller :
    (kind : Kind) (claims : Fields) (v : VerifiedToken)
    → verdict kind claims ≡ ok v
    → (kind ≢ expired) × (caller (granted kind) claims ≡ v)
verdict-caller valid claims v h = (λ e. cc, ground arith)
verdict-caller readonly claims v h = (λ e. cc, ground arith)
verdict-caller expired claims v h = cc

verdict_ok :
    (kind : Kind) (claims : Fields)
    → kind ≢ expired
    → verdict kind claims ≡ ok (caller (granted kind) claims)
verdict_ok valid claims n = refl
verdict_ok readonly claims n = refl
verdict_ok expired claims n = absurd (n refl)

-- The gateway as the README of the scripts starts it: with the built-in policy and no tool policy.
pub record IsStarted (env : Env) (verify : Str → Result TokenError VerifiedToken) : Type 0 where
  pub require_auth : env.settings.require_auth ≡ true
  pub verifier : env.verifier ≡ some verify
  pub policy : env.policy ≡ Policy.builtin
  pub tool_policy : env.tool_policy ≡ none

-- A client's request with a token, for a call that the gateway can read.
pub record IsCallWith (env : Env) (r : Request) (token method : Str) : Type 0 where
  pub bearing : header (codes "authorization") r ≡ some (authorization token)
  pub origin : origin_allowed env.settings (header (codes "origin") r) ≡ true
  pub declared :
      declares_more env.settings.max_request_bytes (header (codes "content-length") r) ≡ false
  pub within :
      (env.settings.max_request_bytes ≡ 0)
      ⊎ (length (joined r.chunks) ≤ env.settings.max_request_bytes)
  pub parse : JsonRpcParse
  pub parsed : parse_jsonrpc env.scan (joined r.chunks) ≡ ok parse
  pub without_error : parse.error ≡ none
  pub named : parse.method ≡ some method

authentic_caller :
    (env : Env) (r : Request) (verify : Str → Result TokenError VerifiedToken) (token : Str)
    (o : Option VerifiedToken)
    → IsStarted env verify
    → header (codes "authorization") r ≡ some (authorization token)
    → all_unreserved token ≡ true
    → IsAuthentic env r o
    → (v : VerifiedToken) × (o ≡ some v) × (verify token ≡ ok v)
authentic_caller env r verify token _ s b u (IsAuthentic.auth_off f) = cc s.require_auth
authentic_caller env r verify token _ s b u (IsAuthentic.bearer check v t e n k) =
    let q : check ≡ verify = ground (arith, s.verifier) in
    let x = ap bearer_token b ∙ bearer_token-authorization token u in (v, refl, rw (q, x) at k)

caller-IsAuthentic :
    (env : Env) (r : Request) (verify : Str → Result TokenError VerifiedToken) (token : Str)
    (v : VerifiedToken)
    → IsStarted env verify
    → header (codes "authorization") r ≡ some (authorization token)
    → all_unreserved token ≡ true
    → is_empty token ≡ false
    → verify token ≡ ok v
    → IsAuthentic env r (some v)
caller-IsAuthentic env r verify token v s b u n k =
    let x = ap bearer_token b ∙ bearer_token-authorization token u in
    IsAuthentic.bearer verify v s.require_auth s.verifier (rw x n) (rw x k)

module _ (env : Env) (url : Str) (send : Forwarded → Sent) (request_id : Str) (r : Request)
    (method : Str) (verify : Str → Result TokenError VerifiedToken) (token : Str) (kind : Kind)
    (claims : Fields) (started : IsStarted env verify) (call : IsCallWith env r token method)
    (unreserved : all_unreserved token ≡ true) (given : is_empty token ≡ false)
    (judged : verify token ≡ verdict kind claims) where
  -- Something is handed to the HTTP client for the upstream.
  abbrev pub Reaches : Type 0
  Reaches = (f : Forwarded) × ((proxy_mcp env url send request_id r).forwarded ≡ some f)

  abbrev pub IsGranted : Type 0
  IsGranted =
      (kind ≢ expired) × ((Policy.check Policy.builtin method (granted kind)).allowed ≡ true)

  reaches-IsGranted : Reaches → IsGranted
  unfolding held_scopes
  reaches-IsGranted (f, e) =
      let m = (proxy_mcp-mediates_iff env url send request_id r f).0 e in
      let k = m.authorized in
      let (v, q, x) =
        authentic_caller env r verify token m.admitted.verified started call.bearing unreserved
          k.authentic in
      let (n, w) = verdict-caller kind claims v (sym judged ∙ x) in
      let p = same_ok k.parsed call.parsed in
      let named = same_some (ap (λ (y : JsonRpcParse). y.method) (sym p) ∙ k.method) call.named in
      let d : m.admitted.verified ≡ some (caller (granted kind) claims) = q ∙ ap some (sym w) in
      (n, rw (started.policy, named, d) at k.scopes)

  abbrev read_call : Call
  read_call = record {
    method = method;
    tool_name = call.parse.tool_name;
    body = body_or (joined r.chunks) call.parse.canonical_body;
  }

  granted-IsReady : IsGranted → IsReady env r (some (caller (granted kind) claims)) read_call
  granted-IsReady (n, h) = record {
    origin = call.origin;
    declared = call.declared;
    within = call.within;
    authentic =
        caller-IsAuthentic env r verify token _ started call.bearing unreserved given
          (judged ∙ verdict_ok kind claims n);
    parse = call.parse;
    parsed = call.parsed;
    without_error = call.without_error;
    method = call.named;
    tool = refl;
    body = refl;
  }

  granted-reaches : IsGranted → Reaches
  unfolding held_scopes
  granted-reaches (n, h) =
      (ready-forwarded_iff env r (some (caller (granted kind) claims)) read_call
          (granted-IsReady (n, h)) url send request_id).1
        (record {
          scopes = rw started.policy h;
          tool = IsToolAllowed.no_tool_policy started.tool_policy;
        })

-- A token that `mint` makes, sent by the client within an hour, does what its kind promises: the call
-- is handed to the HTTP client for the upstream exactly when the token is not of the expired kind and the built-in policy allows
-- the method for the scopes of the kind, whatever the upstream does with it. The gateway runs with
-- authentication, the built-in policy and no tool policy, allows RS256, has a leeway of at most an hour,
-- finds the key under the token's id, which is not empty, and can read the call; PyJWT decodes what it
-- encodes; and the clock is past 02:00 on 1 January 1970.
pub minted_token-forwarded_iff :
    {K : Type 0} (jwt : ℕ → Jwt K) (algs : List Str) (leeway : ℕ)
    (resolve_key : Str → Result KeyError K) (encode : Encode) (read : Str → Option Str)
    (kind : Kind) (issuer audience kid path priv : Str) (key : K) (t u : ℕ) (env : Env) (url : Str)
    (send : Forwarded → Sent) (request_id : Str) (r : Request) (method token : Str)
    → read path ≡ some priv
    → mint encode read t (kind_text kind) issuer audience kid path ≡ ok token
    → Decodes jwt algs leeway issuer audience key
        (issued_at kind t)
        (expires_at kind t)
        (minted kind t issuer audience)
        (kid_header kid)
        (encode (minted kind t issuer audience) priv rs256 (kid_header kid))
    → is_empty kid ≡ false
    → resolve_key kid ≡ ok key
    → elem rs256 algs ≡ true
    → 7200 ≤ t
    → t ≤ u
    → u < t + 3600
    → leeway ≤ 3600
    → IsStarted env (verify (jwt u) algs resolve_key)
    → IsCallWith env r token method
    → ((f : Forwarded) × ((proxy_mcp env url send request_id r).forwarded ≡ some f))
      ↔ ((kind ≢ expired) × ((Policy.check Policy.builtin method (granted kind)).allowed ≡ true))
minted_token-forwarded_iff jwt algs leeway resolve_key encode read kind issuer audience kid path
      priv key t u env url send request_id r method token readable m d n found listed old p q w
      started call =
    let e = same_ok (mint_token encode read t kind issuer audience kid path priv readable) m in
    let d' : Decodes jwt algs leeway issuer audience key (issued_at kind t) (expires_at kind t)
        (minted kind t issuer audience) (kid_header kid) token =
      subst
        (Decodes jwt algs leeway issuer audience key (issued_at kind t) (expires_at kind t)
          (minted kind t issuer audience) (kid_header kid))
        e d in
    let judged =
      verify-minted jwt algs leeway resolve_key kind issuer audience kid token key t u old p q w n
        found listed d' in
    (
      reaches-IsGranted env url send request_id r method (verify (jwt u) algs resolve_key) token
          kind (minted kind t issuer audience) started call d'.compact d'.given judged,
      granted-reaches env url send request_id r method (verify (jwt u) algs resolve_key) token kind
          (minted kind t issuer audience) started call d'.compact d'.given judged,
    )
