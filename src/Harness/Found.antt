-- ===== src/Harness/Found.antt =====
-- verification/gen_keys.py and jwks_server.py before the key cache: the gateway finds the key.
use mcp_auth_gateway.Prelude.{
  ℕ, ◌≡◌, refl, Str, true, false, Option, some, List, [], ◌∷◌, eq_str, eq_str_refl, is_empty, ok,
}
use mcp_auth_gateway.Json.{Json}
use mcp_auth_gateway.Json.Decode.{Document, plain, loads}
use mcp_auth_gateway.Verifier.Keys.{
  is_http, fetch_jwks, set_key, key_map, keys_of, parse_jwks, new_keys,
}
use mcp_auth_gateway.Harness.Keys as Generated
use mcp_auth_gateway.Harness.Keys.{PublicNumbers, Args, Written, jwks}
use mcp_auth_gateway.Harness.Servers.{do_get, jwks_path}

module _ {K : Type 0} (scan : List ℕ → Document) (from_dict : Json → Option (List (Option Str × K)))
    (environ : Str → Option Str) (nums : PublicNumbers) (private_bytes : List ℕ) (args : Args) where
  abbrev written : Written
  written = Generated.main environ nums private_bytes args

  keys_of-written :
      (key : K)
      → is_empty written.kid ≡ false
      → from_dict written.document ≡ some ((some written.kid, key) ∷ [])
      → keys_of from_dict (ok written.document) ≡ some ((written.kid, key) ∷ [])
  unfolding Generated.main jwks keys_of mcp_auth_gateway.Json.get eq_str key_map set_key
  keys_of-written key n e = rw e (rw n refl)

  -- A gateway that fetches the document which the key server serves, for a key that `main` of
  -- gen_keys.py wrote, has exactly that key then, under the id that was written. The server's file is
  -- the document, the id is not empty, and PyJWT reads the key from the document with its id.
  pub new_keys-written :
      (urlopen : Str → Option (List ℕ)) (url : Str) (payload : List ℕ) (key : K)
      → is_http url ≡ true
      → urlopen url ≡ some (do_get payload jwks_path).body
      → loads plain (scan payload) ≡ ok written.document
      → is_empty written.kid ≡ false
      → from_dict written.document ≡ some ((some written.kid, key) ∷ [])
      → new_keys urlopen scan from_dict url ≡ some ((written.kid, key) ∷ [])
  unfolding new_keys fetch_jwks parse_jwks do_get
  new_keys-written urlopen url payload key h u l n e =
      let d = keys_of-written key n e in rw (h, u, eq_str_refl jwks_path, l) d
