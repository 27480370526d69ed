-- ===== src/Harness/Mint/Tokens.antt =====
-- verification/mint_token.py: what the gateway makes of a minted token.
use mcp_auth_gateway.Prelude.{
  ℕ, ◌+◌, ◌-◌, ◌≤◌, ◌<◌, ◌≡◌, refl, ap, arith, Str, true, false, Option, none, some, List, [], ◌∷◌,
  codes, decimal, elem, eq_str, is_empty, lookup, strip, drop_while, strip_right, split, frozenset,
  Result, ok, err,
}
use mcp_auth_gateway.Json.{str, num, Fields, get, put}
use mcp_auth_gateway.Pkce.Compliant.{all_unreserved}
use mcp_auth_gateway.Verifier.{
  Jwt, TokenError, token_rejected, VerifiedToken, all_header_chars, subject_ok, verify,
}
use mcp_auth_gateway.Verifier.Scopes.{
  words, nonempty, all_valid, valid_scope_token, all_scope_chars, claimed_tokens, validate,
  parse_scopes,
}
use mcp_auth_gateway.Verifier.Cache.{KeyError}
use mcp_auth_gateway.Harness.Mint.{before, base_claims, claims_for, Encode, rs256, kid_header, mint}

-- The kinds of token.
pub data Kind : Type 0 where
  valid readonly expired : Kind

abbrev pub kind_text : Kind → Str
kind_text valid = codes "valid"
kind_text readonly = codes "readonly"
kind_text expired = codes "expired"

abbrev pub kind_scope : Kind → Str
kind_scope valid = codes "mcp:read mcp:invoke"
kind_scope readonly = codes "mcp:read"
kind_scope expired = codes "mcp:read mcp:invoke"

-- The claims of a token of a kind that is minted at a time.
abbrev pub minted : Kind → ℕ → Str → Str → Fields
minted kind t issuer audience =
    claims_for (kind_text kind) t (base_claims issuer audience t (kind_scope kind))

-- The times in them.
abbrev pub issued_at : Kind → ℕ → ℕ
issued_at valid t = t
issued_at readonly t = t
issued_at expired t = t - 7200

abbrev pub expires_at : Kind → ℕ → ℕ
expires_at valid t = t + 3600
expires_at readonly t = t + 3600
expires_at expired t = t - 3600

-- What PyJWT does, at each time, with a token that it made of some claims, with these times of issue and expiry: its header holds the
-- algorithm and the headers that it was given, and with the key it decodes to the claims if the issuer
-- and the audience are those of the verifier and the times are right, but for the leeway; not if it
-- has expired.
pub record Decodes {K : Type 0} (jwt : ℕ → Jwt K) (algs : List Str) (leeway : ℕ)
    (issuer audience : Str) (key : K) (issued expires : ℕ) (claims headers : Fields) (token : Str)
    : Type 0 where
  pub compact : all_unreserved token ≡ true
  pub given : is_empty token ≡ false
  pub header : Fields
  pub parsed : (u : ℕ) → (jwt u).get_unverified_header token ≡ some header
  pub algorithm : get (codes "alg") header ≡ some (str rs256)
  pub key_id : get (codes "kid") header ≡ get (codes "kid") headers
  pub text : (u : ℕ) (s : Str) → (jwt u).text (str s) ≡ s
  pub accepts :
      (u : ℕ)
      → elem rs256 algs ≡ true
      → get (codes "iss") claims ≡ some (str issuer)
      → get (codes "aud") claims ≡ some (str audience)
      → get (codes "iat") claims ≡ some (num (decimal issued))
      → get (codes "exp") claims ≡ some (num (decimal expires))
      → issued ≤ u + leeway
      → u < expires + leeway
      → (jwt u).decode token key ≡ some claims
  pub rejects :
      (u : ℕ)
      → get (codes "exp") claims ≡ some (num (decimal expires))
      → expires + leeway ≤ u
      → (jwt u).decode token key ≡ none

-- What the verifier should say to a token.
abbrev pub caller : List Str → Fields → VerifiedToken
caller scopes claims = record { subject = codes "test-user"; scopes = scopes; claims = claims }

abbrev pub granted : Kind → List Str
granted valid = codes "mcp:read" ∷ codes "mcp:invoke" ∷ []
granted readonly = codes "mcp:read" ∷ []
granted expired = []

abbrev pub verdict : Kind → Fields → Result TokenError VerifiedToken
verdict valid claims = ok (caller (granted valid) claims)
verdict readonly claims = ok (caller (granted readonly) claims)
verdict expired claims = err token_rejected

before-decimal : (now n : ℕ) → n ≤ now → before now n ≡ decimal (now - n)
before-decimal now n h = ground arith

pub mint_token :
    (encode : Encode) (read : Str → Option Str) (t : ℕ) (kind : Kind)
    (issuer audience kid path priv : Str)
    → read path ≡ some priv
    → mint encode read t (kind_text kind) issuer audience kid path
      ≡ ok (encode (minted kind t issuer audience) priv rs256 (kid_header kid))
unfolding mint lookup eq_str
mint_token encode read t valid issuer audience kid path priv h = rw h refl
mint_token encode read t readonly issuer audience kid path priv h = rw h refl
mint_token encode read t expired issuer audience kid path priv h = rw h refl

module _ {K : Type 0} (jwt : ℕ → Jwt K) (algs : List Str) (leeway : ℕ)
    (resolve_key : Str → Result KeyError K) where
  accepted :
      (issuer audience kid token : Str) (key : K) (i e : ℕ) (claims : Fields) (u : ℕ)
      (ss : List Str)
      → is_empty kid ≡ false
      → resolve_key kid ≡ ok key
      → elem rs256 algs ≡ true
      → (d : Decodes jwt algs leeway issuer audience key i e claims (kid_header kid) token)
      → (jwt u).decode token key ≡ some claims
      → get (codes "sub") claims ≡ some (str (codes "test-user"))
      → parse_scopes claims ≡ ok ss
      → verify (jwt u) algs resolve_key token ≡ ok (caller ss claims)
  unfolding verify get eq_str subject_ok all_header_chars strip drop_while strip_right
  accepted issuer audience kid token key i e claims u ss n r a d decoded sub scopes =
      let p = d.parsed u in
      let x = d.text u (codes "test-user") in
      rw (d.given, p, d.algorithm, a, d.key_id, n, r, decoded, sub, x, scopes) refl

  refused_expired :
      (issuer audience kid token : Str) (key : K) (i e : ℕ) (claims : Fields) (u : ℕ)
      → is_empty kid ≡ false
      → resolve_key kid ≡ ok key
      → elem rs256 algs ≡ true
      → (d : Decodes jwt algs leeway issuer audience key i e claims (kid_header kid) token)
      → (jwt u).decode token key ≡ none
      → verify (jwt u) algs resolve_key token ≡ err token_rejected
  unfolding verify get eq_str
  refused_expired issuer audience kid token key i e claims u n r a d decoded =
      let p = d.parsed u in rw (d.given, p, d.algorithm, a, d.key_id, n, r, decoded) refl

  pub verify-minted :
      (kind : Kind) (issuer audience kid token : Str) (key : K) (t u : ℕ)
      → 7200 ≤ t
      → t ≤ u
      → u < t + 3600
      → leeway ≤ 3600
      → is_empty kid ≡ false
      → resolve_key kid ≡ ok key
      → elem rs256 algs ≡ true
      → Decodes jwt algs leeway issuer audience key
          (issued_at kind t)
          (expires_at kind t)
          (minted kind t issuer audience)
          (kid_header kid)
          token
      → verify (jwt u) algs resolve_key token ≡ verdict kind (minted kind t issuer audience)
  unfolding base_claims claims_for get put eq_str parse_scopes claimed_tokens words nonempty split
      validate all_valid valid_scope_token all_scope_chars frozenset elem
  verify-minted valid issuer audience kid token key t u l p q w n r a d =
      accepted issuer audience kid token key t (t + 3600) (minted valid t issuer audience) u _ n r a
        d (d.accepts u a refl refl refl refl (omega arith) (omega arith)) refl refl
  verify-minted readonly issuer audience kid token key t u l p q w n r a d =
      accepted issuer audience kid token key t (t + 3600) (minted readonly t issuer audience) u _ n
        r a d (d.accepts u a refl refl refl refl (omega arith) (omega arith)) refl refl
  verify-minted expired issuer audience kid token key t u l p q w n r a d =
      refused_expired issuer audience kid token key (t - 7200) (t - 3600)
        (minted expired t issuer audience) u n r a d
        (d.rejects u (ap (λ x. some (num x)) (before-decimal t 3600 (omega arith))) (omega arith))
