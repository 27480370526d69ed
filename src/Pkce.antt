-- ===== src/Pkce.antt =====
-- src/mcp_gateway/pkce.py: the PKCE pair and the authorization URL. The random bytes are arguments,
-- and SHA-256 is a parameter.
pub mod Compliant
pub mod Query
pub mod Url
use mcp_auth_gateway.Prelude.{
  ℕ, ◌+◌, ◌-◌, ◌*◌, ◌/◌, ◌%◌, Str, Bool, true, false, ◌&&◌, ◌||◌, Option, none, some, List, [], ◌∷◌,
  ◌++◌, codes, is_empty, leb, ltb, ◌==◌, join, if◌then◌else◌,
}
use mcp_auth_gateway.Json.Print.{encode}

-- The URL-safe alphabet of base64.
abbrev pub sextet_char : ℕ → ℕ
sextet_char n =
    if ltb n 26
    then 65 + n
    else if ltb n 52
    then 71 + n
    else if ltb n 62
    then n - 4
    else if n == 62
    then b'-'
    else b'_'

-- `_b64url`: base64 by groups of three bytes, without the padding
unfoldable pub b64url : List ℕ → Str
b64url [] = []
b64url (a ∷ []) = sextet_char (a / 4) ∷ sextet_char (a % 4 * 16) ∷ []
b64url (a ∷ b ∷ []) =
    sextet_char (a / 4) ∷ sextet_char (a % 4 * 16 + b / 16) ∷ sextet_char (b % 16 * 4) ∷ []
b64url (a ∷ b ∷ c ∷ rest) =
    sextet_char (a / 4)
    ∷ sextet_char (a % 4 * 16 + b / 16)
    ∷ sextet_char (b % 16 * 4 + c / 64)
    ∷ sextet_char (c % 64)
    ∷ b64url rest

pub record PkcePair : Type 0 where
  pub verifier : Str
  pub challenge : Str
  pub method : Str

-- `generate_pkce`, for the 32 random bytes; the verifier is ASCII
unfoldable pub generate_pkce : (List ℕ → List ℕ) → List ℕ → PkcePair
unfolding b64url
generate_pkce sha256 random = record {
  verifier = b64url random;
  challenge = b64url (sha256 (b64url random));
  method = codes "S256";
}

-- The characters that `urllib.parse.quote` leaves as they are.
abbrev pub is_unreserved : ℕ → Bool
is_unreserved c =
    leb b'A' c && leb c b'Z'
    || leb b'a' c && leb c b'z'
    || leb b'0' c && leb c b'9'
    || c == b'-'
    || c == b'.'
    || c == b'_'
    || c == b'~'

abbrev pub upper_hex : ℕ → ℕ
upper_hex n = if ltb n 10 then 48 + n else 55 + n

-- `quote_plus` of the bytes of a text
unfoldable pub quote_bytes : List ℕ → Str
quote_bytes [] = []
quote_bytes (b ∷ bytes) =
    let rest = quote_bytes bytes in
    if is_unreserved b
    then b ∷ rest
    else if b == 32
    then b'+' ∷ rest
    else b'%' ∷ upper_hex (b / 16 % 16) ∷ upper_hex (b % 16) ∷ rest

abbrev pub quoted : Option (List ℕ) → Option Str
quoted none = none
quoted (some bytes) = some (quote_bytes bytes)

abbrev pub pair_text : Option Str → Option Str → Option Str
pair_text none v = none
pair_text (some k) none = none
pair_text (some k) (some v) = some (k ++ (b'=' ∷ v))

abbrev pub and_text : Option Str → Option Str → Option Str
and_text none rest = none
and_text (some p) none = none
and_text (some p) (some rest) = some (p ++ (b'&' ∷ rest))

-- `urlencode`; `none` is the `UnicodeEncodeError` for a lone surrogate
unfoldable pub urlencode : List (Str × Str) → Option Str
unfolding quote_bytes encode
urlencode [] = some []
urlencode ((k, v) ∷ []) = pair_text (quoted (encode k)) (quoted (encode v))
urlencode ((k, v) ∷ (l, w) ∷ params) =
    and_text (pair_text (quoted (encode k)) (quoted (encode v))) (urlencode ((l, w) ∷ params))

-- `state or _b64url(...)`
abbrev pub state_or : Option Str → List ℕ → Str
state_or none random = b64url random
state_or (some state) random = if is_empty state then b64url random else state

abbrev pub audience_params : Option Str → List (Str × Str)
audience_params none = []
audience_params (some audience) =
    if is_empty audience then [] else (codes "audience", audience) ∷ []

abbrev pub with_state : Str → Str → Option Str → Option (Str × Str)
with_state endpoint state none = none
with_state endpoint state (some query) = some (endpoint ++ (b'?' ∷ query), state)

-- `params`
abbrev pub authorization_params :
    Str → Str → List Str → PkcePair → Str → Option Str → List (Str × Str)
authorization_params client_id redirect_uri scopes pkce state audience =
    (codes "response_type", codes "code")
    ∷ (codes "client_id", client_id)
    ∷ (codes "redirect_uri", redirect_uri)
    ∷ (codes "scope", join (codes " ") scopes)
    ∷ (codes "state", state)
    ∷ (codes "code_challenge", pkce.challenge)
    ∷ (codes "code_challenge_method", pkce.method)
    ∷ audience_params audience

-- `build_authorization_url`, for the 16 random bytes of a state that is not given
unfoldable pub build_authorization_url :
    Str → Str → Str → List Str → PkcePair → Option Str → Option Str → List ℕ → Option (Str × Str)
unfolding urlencode b64url
build_authorization_url endpoint client_id redirect_uri scopes pkce state audience random =
    let s = state_or state random in
    with_state endpoint s
      (urlencode (authorization_params client_id redirect_uri scopes pkce s audience))
