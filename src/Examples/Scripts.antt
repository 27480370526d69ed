-- ===== src/Examples/Scripts.antt =====
-- The scripts of verification/ at a token, a call and the public exponent of a key.
use mcp_auth_gateway.Prelude.{
  ℕ, ◌*◌, ◌≤◌, Str, true, ◌≡◌, ◌≢◌, ◌↔◌, refl, arith, Option, none, some, List, [], ◌∷◌, codes,
  elem, eq_str, length, lookup, ltb, split, if◌then◌else◌, Result, ok, inr,
}
use mcp_auth_gateway.Json.{Json, str, Fields, end, field, get, put}
use mcp_auth_gateway.Json.Decode.{loads, no_duplicate_keys}
use mcp_auth_gateway.Json.Print.{encode, dumps}
use mcp_auth_gateway.Policy
use mcp_auth_gateway.Pkce.Compliant.{b64_bytes, all_unreserved}
use mcp_auth_gateway.JsonRpc.{parse_jsonrpc}
use mcp_auth_gateway.Verifier.{Jwt, verify}
use mcp_auth_gateway.Verifier.Cache.{KeyError}
use mcp_auth_gateway.App.Messages.{Env, Request, header, joined}
use mcp_auth_gateway.App.{origin_allowed, declares_more}
use mcp_auth_gateway.App.Exchange.{Sent, raised}
use mcp_auth_gateway.App.Handle.{Forwarded, proxy_mcp}
use mcp_auth_gateway.Harness.Keys.{b64url_uint}
use mcp_auth_gateway.Harness.Keys.Readable.{uint, pow256, b64url_uint-readable}
use mcp_auth_gateway.Harness.Client.{authorization}
use mcp_auth_gateway.Harness.Mint.{Encode, rs256, kid_header, mint}
use mcp_auth_gateway.Harness.Mint.Tokens.{readonly, expired, minted, Decodes, granted}
use mcp_auth_gateway.Harness.Checked.{IsStarted, IsCallWith, minted_token-forwarded_iff}
use mcp_auth_gateway.Examples.Requests.{env, ping_parse}

b64url_uint-readable_example :
    (uint 0 (b64_bytes (b64url_uint 65537)) ≡ 65537)
    × (1 ≤ 65537 → pow256 (length (b64_bytes (b64url_uint 65537))) ≤ 256 * 65537)
b64url_uint-readable_example = b64url_uint-readable 65537

abbrev issuer : Str
issuer = codes "https://issuer.test"

abbrev audience : Str
audience = codes "mcp-gateway"

abbrev kid : Str
kid = codes "local-verify-1"

abbrev token_header : Fields
token_header = field (codes "alg") (str rs256) (field (codes "kid") (str kid) end)

abbrev claim_text : Json → Str
claim_text (str s) = s
claim_text _ = []

-- A library that makes one token, and takes it for a read-only one until it expires.
abbrev one_token : Encode
one_token _ _ _ _ = codes "a.b.c"

abbrev library : ℕ → Jwt ℕ
library u = record {
  get_unverified_header = λ _. some token_header;
  decode = λ _ _. if ltb u 13630 then some (minted readonly 10000 issuer audience) else none;
  text = claim_text;
}

abbrev one_key : Str → Result KeyError ℕ
one_key _ = ok 7

abbrev algorithms : List Str
algorithms = codes "RS256" ∷ []

abbrev key_file : Str → Option Str
key_file _ = some (codes "private key")

library-Decodes :
    Decodes library algorithms 30 issuer audience 7 10000 13600
      (minted readonly 10000 issuer audience)
      (kid_header kid)
      (codes "a.b.c")
unfolding all_unreserved get eq_str
library-Decodes = record {
  compact = refl;
  given = refl;
  header = token_header;
  parsed = λ u. refl;
  algorithm = refl;
  key_id = refl;
  text = λ u s. refl;
  accepts = λ u a b c d e f g. ground arith;
  rejects = λ u a b. ground arith;
}

abbrev checked_env : Env
checked_env = record env { verifier = some (verify (library 10100) algorithms one_key) }

abbrev call : Request
call = record {
  headers = (codes "authorization", authorization (codes "a.b.c")) ∷ [];
  client = none;
  chunks = (1 ∷ 2 ∷ []) ∷ [];
}

started : IsStarted checked_env (verify (library 10100) algorithms one_key)
started = record { require_auth = refl; verifier = refl; policy = refl; tool_policy = refl }

call_with : IsCallWith checked_env call (codes "a.b.c") (codes "ping")
unfolding header lookup eq_str parse_jsonrpc origin_allowed declares_more joined loads
    no_duplicate_keys elem get put split encode dumps
call_with = record {
  bearing = refl;
  origin = refl;
  declared = refl;
  within = inr (omega arith);
  parse = ping_parse;
  parsed = refl;
  without_error = refl;
  named = refl;
}

abbrev broken_upstream : Forwarded → Sent
broken_upstream _ = raised

minted_token-forwarded_iff_example :
    ((f : Forwarded) × ((proxy_mcp checked_env
          (codes "http://up")
          broken_upstream
          (codes "id")
          call).forwarded
        ≡ some f))
    ↔ ((readonly ≢ expired)
        × ((Policy.check Policy.builtin (codes "ping") (granted readonly)).allowed ≡ true))
unfolding mint lookup eq_str elem
minted_token-forwarded_iff_example =
    minted_token-forwarded_iff library algorithms 30 one_key one_token key_file readonly issuer
      audience kid (codes "private_key.pem") (codes "private key") 7 10000 10100 checked_env
      (codes "http://up") broken_upstream (codes "id") call (codes "ping") (codes "a.b.c") refl refl
      library-Decodes refl refl refl (omega arith) (omega arith) (omega arith) (omega arith) started
      call_with
