-- ===== src/Verifier/Verified.antt =====
-- What is known of a token that `verify` accepts.
use mathlib.Core.Path.{subst}
use mcp_auth_gateway.Prelude.{
  Str, Bool, true, false, not, ◌≡◌, ◌↔◌, refl, sym, arith, Option, none, some, List, [], ◌∷◌, codes,
  is_empty, eq_str_iff, strip, Result, ok, err, ◌>>◌, require, >>=-eq-ok,
}
use mcp_auth_gateway.Json.{Json, str, Fields, get}
use mcp_auth_gateway.Verifier.Scopes.{ScopeClaimError, parse_scopes}
use mcp_auth_gateway.Verifier.Cache.{KeyError}
use mcp_auth_gateway.Verifier.{
  malformed_header, missing_kid, token_rejected, VerifiedToken, Jwt, is_allowed, key_id, or_raise,
  with_key_error, with_scope_error, subject_of, all_header_chars, subject_ok, verify,
}

pub record IsVerified {K : Type 0} (jwt : Jwt K) (algs : List Str)
    (resolve_key : Str → Result KeyError K) (token : Str) (v : VerifiedToken) : Type 0 where
  pub header : Fields
  pub kid : Str
  pub key : K
  pub given : is_empty token ≡ false
  pub parsed : jwt.get_unverified_header token ≡ some header
  pub allowed : is_allowed algs (get (codes "alg") header) ≡ true
  pub named : get (codes "kid") header ≡ some (str kid)
  pub named_text : is_empty kid ≡ false
  pub resolved : resolve_key kid ≡ ok key
  pub decoded : jwt.decode token key ≡ some v.claims
  pub subject : v.subject ≡ subject_of jwt.text (get (codes "sub") v.claims)
  pub subject_given : is_empty v.subject ≡ false
  pub subject_printable : all_header_chars v.subject ≡ true
  pub subject_stripped : strip v.subject ≡ v.subject
  pub scopes : parse_scopes v.claims ≡ ok v.scopes

require_ok :
    {E B : Type 0} (b : Bool) (e : E) (k : Result E B) {r : B}
    → (require b e >> k) ≡ ok r
    → (b ≡ true) × (k ≡ ok r)
require_ok true e k h = (refl, h)
require_ok false e k h = cc

or_raise_ok : {E A : Type 0} (e : E) (o : Option A) {a : A} → or_raise e o ≡ ok a → o ≡ some a
or_raise_ok e none h = cc
or_raise_ok e (some a) h = ground arith

key_ok : {A : Type 0} (r : Result KeyError A) {a : A} → with_key_error r ≡ ok a → r ≡ ok a
key_ok (err e) h = cc
key_ok (ok a) h = ground arith

scope_ok :
    {A : Type 0} (r : Result ScopeClaimError A) {a : A} → with_scope_error r ≡ ok a → r ≡ ok a
scope_ok (err e) h = cc
scope_ok (ok a) h = ground arith

key_id-some :
    (o : Option Json) (kid : Str)
    → key_id o ≡ some kid
    → (o ≡ some (str kid)) × (is_empty kid ≡ false)
key_id-some (some (str [])) kid h = cc
key_id-some (some (str (c ∷ s))) kid h = (ground arith, ground arith)
key_id-some none kid h = cc
key_id-some (some _) kid h = cc

subject-ok : (s : Str) → all_header_chars s ≡ true → strip s ≡ s → subject_ok s ≡ true
unfolding subject_ok
subject-ok s h e = ground (arith, eq_str_iff s (strip s))

module _ {K : Type 0} (jwt : Jwt K) (algs : List Str) (resolve_key : Str → Result KeyError K) where
  pub verify-IsVerified :
      (token : Str) (v : VerifiedToken)
      → verify jwt algs resolve_key token ≡ ok v
      → IsVerified jwt algs resolve_key token v
  unfolding verify
  verify-IsVerified token v h =
      let (t, h1) = require_ok (not (is_empty token)) _ _ h in
      let (header, a, h2) =
        >>=-eq-ok (or_raise malformed_header (jwt.get_unverified_header token)) _ h1 in
      let (alg, h3) = require_ok (is_allowed algs (get (codes "alg") header)) _ _ h2 in
      let (kid, b, h4) =
        >>=-eq-ok (or_raise missing_kid (key_id (get (codes "kid") header))) _ h3 in
      let (key, c, h5) = >>=-eq-ok (with_key_error (resolve_key kid)) _ h4 in
      let (claims, d, h6) = >>=-eq-ok (or_raise token_rejected (jwt.decode token key)) _ h5 in
      let subject = subject_of jwt.text (get (codes "sub") claims) in
      let (s, h7) = require_ok (not (is_empty subject)) _ _ h6 in
      let (p, h8) = require_ok (subject_ok subject) _ _ h7 in
      let (scopes, e, h9) = >>=-eq-ok (with_scope_error (parse_scopes claims)) _ h8 in
      let (k, n) =
        key_id-some (get (codes "kid") header) kid
          (or_raise_ok missing_kid (key_id (get (codes "kid") header)) b) in
      let q : record { subject = subject; scopes = scopes; claims = claims } ≡ v = ground arith in
      subst (IsVerified jwt algs resolve_key token) q (record {
        header = header;
        kid = kid;
        key = key;
        given = ground arith;
        parsed = or_raise_ok malformed_header (jwt.get_unverified_header token) a;
        allowed = alg;
        named = k;
        named_text = n;
        resolved = key_ok (resolve_key kid) c;
        decoded = or_raise_ok token_rejected (jwt.decode token key) d;
        subject = refl;
        subject_given = ground arith;
        subject_printable = unfold subject_ok in ground arith;
        subject_stripped = unfold subject_ok in ground (arith, eq_str_iff subject (strip subject));
        scopes = scope_ok (parse_scopes claims) e;
      })

  IsVerified-verify :
      (token : Str) (v : VerifiedToken)
      → IsVerified jwt algs resolve_key token v
      → verify jwt algs resolve_key token ≡ ok v
  unfolding verify subject_ok
  IsVerified-verify token v i =
      let p = i.parsed in
      let c = i.decoded in
      let s = i.subject in
      let sub : subject_ok v.subject ≡ true =
        subject-ok v.subject i.subject_printable i.subject_stripped in
      rw
        (
          i.given,
          p,
          i.allowed,
          i.named,
          i.named_text,
          i.resolved,
          c,
          sym s,
          i.subject_given,
          sub,
          i.scopes,
        )
        refl

  -- A token is accepted, as that of a caller, exactly when it is not empty and has a readable header
  -- whose algorithm is one of those allowed and whose key id is a non-empty text; PyJWT decodes it with
  -- the key that is resolved for that id; the caller's subject is the `sub` claim, which is not empty,
  -- is printable ASCII and has no whitespace around it; and the caller's scopes and claims are those of
  -- the token.
  pub verify_iff :
      (token : Str) (v : VerifiedToken)
      → (verify jwt algs resolve_key token ≡ ok v) ↔ IsVerified jwt algs resolve_key token v
  verify_iff token v = (verify-IsVerified token v, IsVerified-verify token v)
