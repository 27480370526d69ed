-- ===== src/Verifier/Keys.antt =====
-- src/mcp_gateway/verifier.py, `_fetch_jwks` and `_parse_jwks`. The request of `urllib`, the scanner of
-- `json.loads` and `PyJWKSet.from_dict` are parameters; `none` is an exception.
pub mod Named
use mcp_auth_gateway.Prelude.{
  ℕ, Str, Bool, true, false, ◌||◌, Option, none, some, List, [], ◌∷◌, codes, eq_str, is_empty,
  lower, starts_with, if◌then◌else◌, Result, ok, err,
}
use mcp_auth_gateway.Json.{Json, arr, obj, Items, nil, Fields, get}
use mcp_auth_gateway.Json.Decode.{Document, DecodeError, plain, loads}

-- the guard on the scheme
abbrev pub is_http : Str → Bool
is_http url =
    starts_with (lower url) (codes "http://") || starts_with (lower url) (codes "https://")

-- `_fetch_jwks`
unfoldable pub fetch_jwks : (Str → Option (List ℕ)) → Str → Option (List ℕ)
fetch_jwks urlopen url = if is_http url then urlopen url else none

-- `document.get("keys") == []` for a dictionary
abbrev pub is_empty_array : Option Json → Bool
is_empty_array (some (arr nil)) = true
is_empty_array _ = false

abbrev pub has_no_keys : Json → Bool
has_no_keys (obj fs) = is_empty_array (get (codes "keys") fs)
has_no_keys _ = false

module _ {K : Type 0} where
  -- `d[k] = v`
  unfoldable pub set_key : Str → K → List (Str × K) → List (Str × K)
  set_key k v [] = (k, v) ∷ []
  set_key k v ((j, w) ∷ d) = if eq_str k j then (j, v) ∷ d else (j, w) ∷ set_key k v d

  -- `{key.key_id: key for key in keyset.keys if key.key_id}`, for the keys with their ids
  unfoldable pub key_map : List (Str × K) → List (Option Str × K) → List (Str × K)
  unfolding set_key
  key_map d [] = d
  key_map d ((none, key) ∷ keyset) = key_map d keyset
  key_map d ((some kid, key) ∷ keyset) =
      key_map (if is_empty kid then d else set_key kid key d) keyset

  abbrev pub map_of : Option (List (Option Str × K)) → Option (List (Str × K))
  map_of none = none
  map_of (some keyset) = some (key_map [] keyset)

  unfoldable pub keys_of :
      (Json → Option (List (Option Str × K))) → Result DecodeError Json → Option (List (Str × K))
  unfolding key_map
  keys_of from_dict (err e) = none
  keys_of from_dict (ok document) =
      if has_no_keys document then some [] else map_of (from_dict document)

  -- `_parse_jwks`
  unfoldable pub parse_jwks :
      (List ℕ → Document)
      → (Json → Option (List (Option Str × K)))
      → List ℕ
      → Option (List (Str × K))
  unfolding keys_of
  parse_jwks scan from_dict raw = keys_of from_dict (loads plain (scan raw))

  abbrev pub parsed : (List ℕ → Option (List (Str × K))) → Option (List ℕ) → Option (List (Str × K))
  parsed parse none = none
  parsed parse (some raw) = parse raw

  -- The network part of a refresh: what `new_keys` is after it.
  unfoldable pub new_keys :
      (Str → Option (List ℕ))
      → (List ℕ → Document)
      → (Json → Option (List (Option Str × K)))
      → Str
      → Option (List (Str × K))
  unfolding fetch_jwks parse_jwks
  new_keys urlopen scan from_dict url = parsed (parse_jwks scan from_dict) (fetch_jwks urlopen url)
