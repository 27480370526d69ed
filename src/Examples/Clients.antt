-- ===== src/Examples/Clients.antt =====
-- src/mcp_gateway/pkce.py, the metadata of src/mcp_gateway/app.py and the key document of
-- src/mcp_gateway/verifier.py at concrete inputs.
use mcp_auth_gateway.Prelude.{
  ℕ, Str, Option, none, some, lower, starts_with, zero, suc, true, Bool, ltb, ◌&&◌, join, ◌≡◌, refl,
  arith, List, [], ◌∷◌, codes, elem, eq_str, frozenset, lookup, without,
}
use mcp_auth_gateway.Policy
use mcp_auth_gateway.Policy.{builtin, judge, match, mcp_invoke}
use mcp_auth_gateway.App.Endpoints.{protected_resource_metadata}
use mcp_auth_gateway.App.Endpoints.Discovered.{metadata_lists_required}
use mcp_auth_gateway.Pkce.{
  PkcePair, generate_pkce, urlencode, authorization_params, build_authorization_url,
}
use mcp_auth_gateway.Pkce.Url.{AllPoints, AllTexts, IsReadable, build_authorization_url-IsReadable}
use mcp_auth_gateway.Pkce.Compliant.{AllBytes, IsCompliantText, generate_pkce-IsCompliant}
use mcp_auth_gateway.Json.{Json, get, put}
use mcp_auth_gateway.Json.Decode.{loads, plain}
use mcp_auth_gateway.Verifier.Keys.{new_keys, fetch_jwks, parse_jwks, keys_of, key_map, set_key}
use mcp_auth_gateway.Verifier.Keys.Named.{HasOrigin, new_keys-HasOrigin}
use mcp_auth_gateway.Examples.Requests.{settings, scan_ping}

abbrev sevens : ℕ → List ℕ
sevens zero = []
sevens (suc n) = 7 ∷ sevens n

sevens-AllBytes : (n : ℕ) → AllBytes (sevens n)
sevens-AllBytes zero = tt
sevens-AllBytes (suc n) = (omega arith, sevens-AllBytes n)

abbrev constant_hash : List ℕ → List ℕ
constant_hash _ = sevens 32

generate_pkce-IsCompliant_example :
    IsCompliantText (sevens 32) (generate_pkce constant_hash (sevens 32)).verifier
    × IsCompliantText
        (constant_hash (generate_pkce constant_hash (sevens 32)).verifier)
        (generate_pkce constant_hash (sevens 32)).challenge
generate_pkce-IsCompliant_example =
    generate_pkce-IsCompliant constant_hash (sevens 32) (sevens-AllBytes 32) refl
      (sevens-AllBytes 32) refl

metadata_lists_required_example :
    elem mcp_invoke (protected_resource_metadata settings builtin).scopes_supported ≡ true
unfolding Policy.check judge match builtin lookup eq_str elem without frozenset
metadata_lists_required_example =
    metadata_lists_required settings builtin (codes "tools/call") [] mcp_invoke refl

-- A network and a library that give one key, after one without an id.
abbrev one_document : Str → Option (List ℕ)
one_document _ = some (1 ∷ [])

abbrev key_set : Json → Option (List (Option Str × ℕ))
key_set _ = some ((none, 5) ∷ (some (codes "k1"), 7) ∷ [])

abbrev key_url : Str
key_url = codes "https://idp/jwks"

new_keys-HasOrigin_example : HasOrigin one_document scan_ping key_set key_url (codes "k1") 7
unfolding new_keys fetch_jwks parse_jwks keys_of key_map set_key lookup loads plain lower
    starts_with get put eq_str
new_keys-HasOrigin_example =
    new_keys-HasOrigin one_document scan_ping key_set key_url ((codes "k1", 7) ∷ []) (codes "k1") 7
      refl refl

-- Texts of Unicode.
abbrev all_points : Str → Bool
all_points [] = true
all_points (c ∷ s) = ltb c 0x110000 && all_points s

points-AllPoints : (s : Str) → all_points s ≡ true → AllPoints s
points-AllPoints [] h = tt
points-AllPoints (c ∷ s) h = (ground arith, points-AllPoints s (ground arith))

abbrev all_texts : List (Str × Str) → Bool
all_texts [] = true
all_texts ((k, v) ∷ ps) = all_points k && (all_points v && all_texts ps)

texts-AllTexts : (ps : List (Str × Str)) → all_texts ps ≡ true → AllTexts ps
texts-AllTexts [] h = tt
texts-AllTexts ((k, v) ∷ ps) h = (
  points-AllPoints k (ground arith),
  points-AllPoints v (ground arith),
  texts-AllTexts ps (ground arith),
)

-- A redirect URI that tries to end its parameter and to add one.
abbrev pair : PkcePair
pair = record { verifier = codes "v"; challenge = codes "c"; method = codes "S256" }

abbrev tricky : Str
tricky = codes "https://app/cb?x=1&state=other"

abbrev url : Str
url =
    codes
      "https://idp/auth?response_type=code&client_id=app&redirect_uri=https%3A%2F%2Fapp%2Fcb%3Fx%3D1%26state%3Dother&scope=mcp%3Aread&state=s&code_challenge=c&code_challenge_method=S256"

tricky_url :
    ◌≡◌ {A = Option (Str × Str)}
      (build_authorization_url
        (codes "https://idp/auth")
        (codes "app")
        tricky
        (codes "mcp:read" ∷ [])
        pair
        (some (codes "s"))
        none
        [])
      (some (url, codes "s"))
unfolding build_authorization_url urlencode join
tricky_url = refl

build_authorization_url-IsReadable_example :
    IsReadable
      (codes "https://idp/auth")
      (authorization_params (codes "app") tricky (codes "mcp:read" ∷ []) pair (codes "s") none)
      url
unfolding join
build_authorization_url-IsReadable_example =
    build_authorization_url-IsReadable (codes "https://idp/auth") (codes "app") tricky
      (codes "mcp:read" ∷ []) pair (some (codes "s")) none [] url (codes "s")
      (texts-AllTexts
        (authorization_params (codes "app") tricky (codes "mcp:read" ∷ []) pair (codes "s") none)
        refl)
      tricky_url
