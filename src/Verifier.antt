-- ===== src/Verifier.antt =====
-- src/mcp_gateway/verifier.py: `JwksVerifier.verify`. PyJWT is a parameter (`Jwt`), and so is the
-- answer of `_resolve_key` for the token's key id, which `Verifier.Cache` models.
pub mod Scopes
pub mod Cache
pub mod Verified
pub mod Setup
pub mod Keys
use mcp_auth_gateway.Prelude.{
  ℕ, Str, Bool, true, false, ◌&&◌, ◌||◌, not, Option, none, some, List, [], ◌∷◌, codes, is_empty,
  ltb, leb, ◌==◌, eq_str, elem, strip, starts_with, if◌then◌else◌, Result, ok, err, ◌>>=◌, ◌>>◌,
  require,
}
use mcp_auth_gateway.Json.{Json, str, Fields, get}
use mcp_auth_gateway.Verifier.Scopes.{ScopeClaimError, parse_scopes}
use mcp_auth_gateway.Verifier.Cache.{KeyError}

-- The `TokenError`s, by their messages.
pub data TokenError : Type 0 where
  empty_token malformed_header algorithm_not_allowed missing_kid : TokenError
  key_error : KeyError → TokenError
  token_rejected missing_sub bad_sub bad_scope : TokenError

pub record VerifiedToken : Type 0 where
  pub subject : Str
  pub scopes : List Str
  pub claims : Fields

-- What the verifier calls of PyJWT, for its own algorithms, issuer, audience and leeway, and Python's
-- `str` of a claim. `none` is a `PyJWTError`.
pub record Jwt (K : Type 0) : Type 0 where
  pub get_unverified_header : Str → Option Fields
  pub decode : Str → K → Option Fields
  pub text : Json → Str

-- the guard of `JwksVerifier.__init__` on its algorithms
unfoldable pub is_asymmetric : Str → Bool
is_asymmetric a =
    starts_with a (codes "RS") || starts_with a (codes "ES") || starts_with a (codes "PS")

unfoldable pub algorithms_ok : List Str → Bool
unfolding is_asymmetric
algorithms_ok [] = false
algorithms_ok (a ∷ []) = is_asymmetric a
algorithms_ok (a ∷ b ∷ algs) = is_asymmetric a && algorithms_ok (b ∷ algs)

-- `alg in self._algs` and `isinstance(kid, str) and kid`
abbrev pub is_allowed : List Str → Option Json → Bool
is_allowed algs (some (str alg)) = elem alg algs
is_allowed algs _ = false

abbrev pub key_id : Option Json → Option Str
key_id (some (str kid)) = if is_empty kid then none else some kid
key_id _ = none

abbrev pub or_raise : {E A : Type 0} → E → Option A → Result E A
or_raise e none = err e
or_raise e (some a) = ok a

abbrev pub with_key_error : {A : Type 0} → Result KeyError A → Result TokenError A
with_key_error (err e) = err (key_error e)
with_key_error (ok a) = ok a

abbrev pub with_scope_error : {A : Type 0} → Result ScopeClaimError A → Result TokenError A
with_scope_error (err _) = err bad_scope
with_scope_error (ok a) = ok a

-- `str(claims.get("sub", ""))`
abbrev pub subject_of : (Json → Str) → Option Json → Str
subject_of text none = []
subject_of text (some j) = text j

-- an ASCII character that is no control character
abbrev pub is_header_char : ℕ → Bool
is_header_char c = ltb c 0x80 && not (ltb c 0x20 || c == 0x7f)

unfoldable pub all_header_chars : Str → Bool
all_header_chars [] = true
all_header_chars (c ∷ s) = is_header_char c && all_header_chars s

-- the test on `sub`: `isascii`, no surrounding whitespace, no control character
unfoldable pub subject_ok : Str → Bool
unfolding all_header_chars
subject_ok s = all_header_chars s && eq_str s (strip s)

unfoldable pub verify :
    {K : Type 0}
    → Jwt K
    → List Str
    → (Str → Result KeyError K)
    → Str
    → Result TokenError VerifiedToken
verify jwt algs resolve_key token = do
  require (not (is_empty token)) empty_token
  header ← or_raise malformed_header (jwt.get_unverified_header token)
  require (is_allowed algs (get (codes "alg") header)) algorithm_not_allowed
  kid ← or_raise missing_kid (key_id (get (codes "kid") header))
  signing_key ← with_key_error (resolve_key kid)
  claims ← or_raise token_rejected (jwt.decode token signing_key)
  let subject = subject_of jwt.text (get (codes "sub") claims)
  require (not (is_empty subject)) missing_sub
  require (subject_ok subject) bad_sub
  scopes ← with_scope_error (parse_scopes claims)
  ok (record { subject = subject; scopes = scopes; claims = claims })
