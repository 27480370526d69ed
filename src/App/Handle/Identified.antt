-- ===== src/App/Handle/Identified.antt =====
-- src/mcp_gateway/app.py, `proxy_mcp`: what the upstream learns of the caller.
use mathlib.Core.Path.{subst}
use mcp_auth_gateway.Prelude.{
  Str, true, false, ◌≡◌, refl, sym, ap, ◌∙◌, arith, Option, some, List, [], ◌∷◌, ◌++◌, codes,
  eq_str, eq_str_iff, eq_str_refl, elem, elem-sorted, lookup, lower, join, sorted, Member, Result,
  ok, choose, if◌then◌else◌,
}
use mcp_auth_gateway.Verifier.{Jwt, TokenError, VerifiedToken, all_header_chars, verify}
use mcp_auth_gateway.Verifier.Scopes.{
  all_scope_chars, valid_scope_token, words, all_valid, parse_scopes,
}
use mcp_auth_gateway.Verifier.Scopes.Forwarded.{parse_scopes-valid, all_valid_of, scopes_resplit}
use mcp_auth_gateway.Verifier.Cache.{KeyError}
use mcp_auth_gateway.Verifier.Verified.{IsVerified, verify-IsVerified}
use mcp_auth_gateway.App.Messages.{Env, Request, header, bearer_token}
use mcp_auth_gateway.App.Admitted.{IsAuthentic}
use mcp_auth_gateway.App.Forward.{
  forwarded_request_headers, Headers, set_item, request_id_header, sub_header, scopes_header,
  joined_scopes, kept_headers, with_identity, forwarded_headers,
}
use mcp_auth_gateway.App.Forward.Trusted.{Origin, forwarded_headers-Origin}
use mcp_auth_gateway.App.Exchange.{Sent}
use mcp_auth_gateway.App.Handle.{Forwarded, proxy_mcp}
use mcp_auth_gateway.App.Handle.Mediated.{proxy_mcp-mediates_iff}

all_header_chars-append :
    (s t : Str)
    → all_header_chars s ≡ true
    → all_header_chars t ≡ true
    → all_header_chars (s ++ t) ≡ true
unfolding all_header_chars
all_header_chars-append [] t h k = k
all_header_chars-append (c ∷ s) t h k = ground (arith, all_header_chars-append s t)

-- A scope can stand in a header.
scope_chars-header : (s : Str) → all_scope_chars s ≡ true → all_header_chars s ≡ true
unfolding all_scope_chars all_header_chars
scope_chars-header [] h = refl
scope_chars-header (c ∷ s) h = ground (arith, scope_chars-header s)

join-header : (ts : List Str) → all_valid ts ≡ true → all_header_chars (join (codes " ") ts) ≡ true
unfolding all_valid valid_scope_token join
join-header [] h = unfold all_header_chars in refl
join-header (t ∷ []) h = scope_chars-header t (ground arith)
join-header (t ∷ u ∷ ts) h =
    all_header_chars-append t (codes " " ++ join (codes " ") (u ∷ ts))
      (scope_chars-header t (ground arith))
      (all_header_chars-append (codes " ") (join (codes " ") (u ∷ ts))
        (unfold all_header_chars in refl) (join-header (u ∷ ts) (ground arith)))

joined_scopes-header :
    (v : VerifiedToken)
    → parse_scopes v.claims ≡ ok v.scopes
    → all_header_chars (joined_scopes v) ≡ true
joined_scopes-header v h = join-header (sorted v.scopes) (
    all_valid_of (sorted v.scopes)
      (λ x m. parse_scopes-valid v.claims v.scopes x h (sym (elem-sorted x v.scopes) ∙ m)))

-- An item that is set is found, and no other is changed by it.
lookup-set_item : (k v : Str) (d : Headers) → lookup k (set_item k v d) ≡ some v
unfolding lookup set_item
lookup-set_item k v [] = ground (arith, eq_str_refl k)
lookup-set_item k v ((j, w) ∷ d) = ground (arith, lookup-set_item k v d)

lookup-set_other :
    (k j v : Str) (d : Headers) → eq_str k j ≡ false → lookup k (set_item j v d) ≡ lookup k d
unfolding lookup set_item
lookup-set_other k j v [] h = ground arith
lookup-set_other k j v ((i, w) ∷ d) h =
    choose (λ x. lookup k x ≡ lookup k ((i, w) ∷ d)) (eq_str j i) _ _
      (λ t.
        let f : eq_str k i ≡ false = ap (eq_str k) (sym ((eq_str_iff j i).0 t)) ∙ h in rw f refl)
      (λ t. ap (λ o. if eq_str k i then some w else o) (lookup-set_other k j v d h))

-- One header of the forwarded request.
pub data Tells (request_id : Str) (items : Headers) (caller : VerifiedToken) (k v : Str)
    : Type 0 where
  of_client :
      elem (lower k) forwarded_request_headers ≡ true
      → Member (k, v) items
      → Tells request_id items caller k v
  of_request_id : k ≡ request_id_header → v ≡ request_id → Tells request_id items caller k v
  of_subject :
      k ≡ sub_header
      → v ≡ caller.subject
      → all_header_chars v ≡ true
      → Tells request_id items caller k v
  of_scopes :
      k ≡ scopes_header
      → words v ≡ sorted caller.scopes
      → all_header_chars v ≡ true
      → Tells request_id items caller k v

-- The headers that tell the upstream who the caller is.
pub record IsIdentified {K : Type 0} (jwt : Jwt K) (algs : List Str)
    (resolve_key : Str → Result KeyError K) (request_id : Str) (r : Request) (headers : Headers)
    : Type 0 where
  pub caller : VerifiedToken
  pub is_verified :
      IsVerified jwt algs resolve_key (bearer_token (header (codes "authorization") r)) caller
  pub subject : lookup sub_header headers ≡ some caller.subject
  pub scopes : lookup scopes_header headers ≡ some (joined_scopes caller)
  pub told : (k v : Str) → Member (k, v) headers → Tells request_id r.headers caller k v

Origin-Tells :
    (request_id : Str) (items : Headers) (caller : VerifiedToken) (k v : Str)
    → all_header_chars caller.subject ≡ true
    → parse_scopes caller.claims ≡ ok caller.scopes
    → Origin request_id (some caller) items k v
    → Tells request_id items caller k v
Origin-Tells id items caller k v s p (Origin.of_request h m) = Tells.of_client h m
Origin-Tells id items caller k v s p (Origin.of_gateway e q) = Tells.of_request_id e q
Origin-Tells id items caller k v s p (Origin.of_subject t w e q) =
    let c : caller ≡ t = cc in
    Tells.of_subject e (q ∙ ap (λ (x : VerifiedToken). x.subject) (sym c)) (rw (q, sym c) s)
Origin-Tells id items caller k v s p (Origin.of_scopes t w e q) =
    let c : caller ≡ t = cc in
    let j : v ≡ joined_scopes caller = q ∙ ap joined_scopes (sym c) in
    Tells.of_scopes e (ap words j ∙ scopes_resplit caller.claims caller.scopes p)
      (ap all_header_chars j ∙ joined_scopes-header caller p)

identity_found :
    (caller : VerifiedToken) (d : Headers)
    → (lookup sub_header (with_identity (some caller) d) ≡ some caller.subject)
      × (lookup scopes_header (with_identity (some caller) d) ≡ some (joined_scopes caller))
unfolding with_identity eq_str
identity_found caller d = (
  lookup-set_other sub_header scopes_header (joined_scopes caller)
        (set_item sub_header caller.subject d) refl
      ∙ lookup-set_item sub_header caller.subject d,
  lookup-set_item scopes_header (joined_scopes caller) (set_item sub_header caller.subject d),
)

caller_of :
    (env : Env) (r : Request) (verify : Str → Result TokenError VerifiedToken)
    (o : Option VerifiedToken)
    → env.settings.require_auth ≡ true
    → env.verifier ≡ some verify
    → IsAuthentic env r o
    → (v : VerifiedToken) × (o ≡ some v)
      × (verify (bearer_token (header (codes "authorization") r)) ≡ ok v)
caller_of env r verify _ t e (IsAuthentic.auth_off f) = cc
caller_of env r verify _ t e (IsAuthentic.bearer check v _ q n k) =
    let p : check ≡ verify = cc in (v, refl, rw p at k)

module _ {K : Type 0} (jwt : Jwt K) (algs : List Str) (resolve_key : Str → Result KeyError K) where
  headers-IsIdentified :
      (request_id : Str) (r : Request) (caller : VerifiedToken) (headers : Headers)
      → IsVerified jwt algs resolve_key (bearer_token (header (codes "authorization") r)) caller
      → headers ≡ forwarded_headers request_id (some caller) r.headers
      → IsIdentified jwt algs resolve_key request_id r headers
  unfolding forwarded_headers
  headers-IsIdentified request_id r caller headers i e =
      let d = set_item request_id_header request_id (kept_headers [] r.headers) in
      let (sub, scopes) = identity_found caller d in
      record {
        caller = caller;
        is_verified = i;
        subject = ap (lookup sub_header) e ∙ sub;
        scopes = ap (lookup scopes_header) e ∙ scopes;
        told = λ k v m. Origin-Tells request_id r.headers caller k v i.subject_printable i.scopes (
            forwarded_headers-Origin request_id (some caller) r.headers k v
              (subst (Member (k, v)) e m));
      }

  -- Where authentication is on, a forwarded request tells the upstream who the caller is: it has the
  -- subject and the scopes of a token that was verified for the request, and each of its headers is one
  -- of the client's that is on the list, or the gateway's own request id, subject or scopes. Subject and
  -- scopes are printable ASCII, which cannot end a header, and the scopes split at spaces into exactly
  -- those of the token.
  pub forwarded-IsIdentified :
      (env : Env) (url : Str) (send : Forwarded → Sent) (request_id : Str) (r : Request)
      (f : Forwarded)
      → env.settings.require_auth ≡ true
      → env.verifier ≡ some (verify jwt algs resolve_key)
      → (proxy_mcp env url send request_id r).forwarded ≡ some f
      → IsIdentified jwt algs resolve_key request_id r f.headers
  forwarded-IsIdentified env url send request_id r f t e h =
      let m = (proxy_mcp-mediates_iff env url send request_id r f).0 h in
      let (v, q, k) =
        caller_of env r (verify jwt algs resolve_key) m.admitted.verified t e
          m.authorized.authentic in
      headers-IsIdentified request_id r v f.headers
        (verify-IsVerified jwt algs resolve_key (bearer_token (header (codes "authorization") r)) v
          k)
        (m.identified ∙ ap (λ o. forwarded_headers request_id o r.headers) q)
