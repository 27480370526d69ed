-- ===== src/Harness/Mint.antt =====
-- verification/mint_token.py: `mint` and `main`. PyJWT's `encode` is a parameter, and so are the file
-- system, the environment and the clock.
pub mod Tokens
use mcp_auth_gateway.Prelude.{
  ℕ, ◌+◌, ◌-◌, Str, Option, none, some, List, [], ◌∷◌, codes, decimal, eq_str, is_empty, lookup,
  keys, ltb, sorted, if◌then◌else◌, Result, ok, err, ◌>>=◌,
}
use mcp_auth_gateway.Harness.Options.{argument, given, or_else}
use mcp_auth_gateway.Json.{Json, str, num, Fields, end, field, put}

-- `SCOPES`
abbrev pub scopes : List (Str × Str)
scopes =
    (codes "valid", codes "mcp:read mcp:invoke")
    ∷ (codes "readonly", codes "mcp:read")
    ∷ (codes "expired", codes "mcp:read mcp:invoke")
    ∷ []

-- How the script ends without a token: `SystemExit`, or the exception of `open`.
pub data MintError : Type 0 where
  unknown_kind : Str → List Str → MintError
  unreadable_key : Str → MintError
  missing_issuer_or_audience : MintError

-- `str(now - n)`
abbrev pub before : ℕ → ℕ → Str
before now n = if ltb now n then b'-' ∷ decimal (n - now) else decimal (now - n)

-- `claims` as it is first built
unfoldable pub base_claims : Str → Str → ℕ → Str → Fields
base_claims issuer audience now scope = field (codes "sub") (str (codes "test-user")) (
    field (codes "iss") (str issuer) (
      field (codes "aud") (str audience) (
        field (codes "iat") (num (decimal now)) (
          field (codes "exp") (num (decimal (now + 3600)))
            (field (codes "scope") (str scope) end)))))

-- what `if kind == "expired"` makes of it
unfoldable pub claims_for : Str → ℕ → Fields → Fields
claims_for kind now claims =
    if eq_str kind (codes "expired")
    then put (codes "exp") (num (before now 3600))
        (put (codes "iat") (num (before now 7200)) claims)
    else claims

-- `jwt.encode`: the claims, the key, the algorithm and the headers
abbrev pub Encode : Type 0
Encode = Fields → Str → Str → Fields → Str

abbrev pub rs256 : Str
rs256 = codes "RS256"

abbrev pub kid_header : Str → Fields
kid_header kid = field (codes "kid") (str kid) end

abbrev pub key_text : Str → Option Str → Result MintError Str
key_text path none = err (unreadable_key path)
key_text path (some priv) = ok priv

abbrev pub scope_of : Str → Option Str → Result MintError Str
scope_of kind none = err (unknown_kind kind (sorted (keys scopes)))
scope_of kind (some scope) = ok scope

unfoldable pub mint :
    Encode → (Str → Option Str) → ℕ → Str → Str → Str → Str → Str → Result MintError Str
unfolding base_claims claims_for
mint encode read now kind issuer audience kid key_path = do
  scope ← scope_of kind (lookup kind scopes)
  priv ← key_text key_path (read key_path)
  ok (
      encode (claims_for kind now (base_claims issuer audience now scope)) priv rs256
        (kid_header kid))

-- The options that are given; the kind is one that the parser of the command line lets through.
pub record Args : Type 0 where
  pub kind : Str
  pub issuer : Option Str
  pub audience : Option Str
  pub kid : Option Str
  pub key : Option Str

unfoldable pub mint_for :
    Encode
    → (Str → Option Str)
    → ℕ
    → Str
    → Option Str
    → Option Str
    → Str
    → Str
    → Result MintError Str
unfolding mint
mint_for encode read now kind (some issuer) (some audience) kid key =
    mint encode read now kind issuer audience kid key
mint_for encode read now kind none audience kid key = err missing_issuer_or_audience
mint_for encode read now kind (some issuer) none kid key = err missing_issuer_or_audience

-- `main`: the token that it prints
unfoldable pub main :
    Encode → (Str → Option Str) → (Str → Option Str) → ℕ → Args → Result MintError Str
unfolding mint_for
main encode read environ now args =
    mint_for encode read now args.kind (given (argument args.issuer (environ (codes "ISSUER"))))
      (given (argument args.audience (environ (codes "AUDIENCE"))))
      (or_else (or_else (codes "local-verify-1") (environ (codes "KID"))) args.kid)
      (or_else (codes "private_key.pem") args.key)
