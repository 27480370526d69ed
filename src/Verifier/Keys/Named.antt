-- ===== src/Verifier/Keys/Named.antt =====
-- Where the keys of the cache come from.
use mcp_auth_gateway.Prelude.{
  ℕ, Str, true, false, ◌≡◌, ◌≢◌, ◌⊎◌, inl, inr, refl, sym, ap, ◌∙◌, arith, Option, none, some, List,
  [], ◌∷◌, eq_str, eq_str_iff, is_empty, lookup, Member, Result, ok, err, Bool-cases,
}
use mcp_auth_gateway.Json.{Json}
use mcp_auth_gateway.Json.Decode.{Document, DecodeError, plain, loads}
use mcp_auth_gateway.Verifier.Keys.{
  is_http, fetch_jwks, has_no_keys, set_key, key_map, map_of, keys_of, parse_jwks, parsed, new_keys,
}

fetch_jwks-http :
    (urlopen : Str → Option (List ℕ)) (url : Str) (raw : List ℕ)
    → fetch_jwks urlopen url ≡ some raw
    → (is_http url ≡ true) × (urlopen url ≡ some raw)
unfolding fetch_jwks
fetch_jwks-http urlopen url raw h = elim (Bool-cases (is_http url)) [
  | inl t ↦ (t, ground arith)
  | inr f ↦ ground arith
]

module _ {K : Type 0} where
  named_pair :
      {x k : Str} {u v : K} → x ≡ k → u ≡ v → ◌≡◌ {A = Option Str × K} (some x, u) (some k, v)
  named_pair p q = cc

  no_lookup : (x : Str) (u : K) → lookup x [] ≢ some u
  unfolding lookup
  no_lookup x u h = cc

  lookup-set_key :
      (x k : Str) (v u : K) (d : List (Str × K))
      → lookup x (set_key k v d) ≡ some u
      → ((x ≡ k) × (u ≡ v)) ⊎ (lookup x d ≡ some u)
  unfolding lookup set_key
  lookup-set_key x k v u [] h = elim (Bool-cases (eq_str x k)) [
    | inl t ↦ inl ((eq_str_iff x k).0 t, ground arith)
    | inr f ↦ ground arith
  ]
  lookup-set_key x k v u ((j, w) ∷ d) h = elim (Bool-cases (eq_str k j)) [
    | inl t ↦ elim (Bool-cases (eq_str x j)) [
      | inl g ↦ inl ((eq_str_iff x j).0 g ∙ sym ((eq_str_iff k j).0 t), ground arith)
      | inr g ↦ inr (ground arith)
    ]
    | inr f ↦ elim (Bool-cases (eq_str x j)) [
      | inl g ↦ inr (ground arith)
      | inr g ↦ elim (lookup-set_key x k v u d (ground arith)) [
        | inl p ↦ inl p
        | inr e ↦ inr (ground arith)
      ]
    ]
  ]

  -- A key that the map holds was in the set under that id, or in the map before.
  key_map-Member :
      (x : Str) (u : K) (d : List (Str × K)) (keyset : List (Option Str × K))
      → lookup x (key_map d keyset) ≡ some u
      → (Member (some x, u) keyset × (is_empty x ≡ false)) ⊎ (lookup x d ≡ some u)
  unfolding key_map
  key_map-Member x u d [] h = inr h
  key_map-Member x u d ((none, key) ∷ keyset) h = elim (key_map-Member x u d keyset h) [
    | inl (m, n) ↦ inl (inr m, n)
    | inr e ↦ inr e
  ]
  key_map-Member x u d ((some kid, key) ∷ keyset) h = elim (Bool-cases (is_empty kid)) [
    | inl t ↦ elim (key_map-Member x u d keyset (ground arith)) [
      | inl (m, n) ↦ inl (inr m, n)
      | inr e ↦ inr e
    ]
    | inr f ↦ elim (key_map-Member x u (set_key kid key d) keyset (ground arith)) [
      | inl (m, n) ↦ inl (inr m, n)
      | inr e ↦ elim (lookup-set_key x kid key u d e) [
        | inl (p, q) ↦ inl (inl (named_pair p q), ap is_empty p ∙ f)
        | inr g ↦ inr g
      ]
    ]
  ]

  -- Where a key comes from: a document that was fetched over http or https, and an entry of its key set
  -- with that id.
  pub record HasOrigin (urlopen : Str → Option (List ℕ)) (scan : List ℕ → Document)
      (from_dict : Json → Option (List (Option Str × K))) (url kid : Str) (key : K) : Type 0 where
    pub raw : List ℕ
    pub document : Json
    pub keyset : List (Option Str × K)
    pub over_http : is_http url ≡ true
    pub fetched : urlopen url ≡ some raw
    pub decoded : loads plain (scan raw) ≡ ok document
    pub read : from_dict document ≡ some keyset
    pub listed : Member (some kid, key) keyset
    pub named : is_empty kid ≡ false

  map_of-Member :
      (o : Option (List (Option Str × K))) (keys : List (Str × K)) (kid : Str) (key : K)
      → map_of o ≡ some keys
      → lookup kid keys ≡ some key
      → (keyset : List (Option Str × K)) × (o ≡ some keyset)
        × Member (some kid, key) keyset
        × (is_empty kid ≡ false)
  map_of-Member none keys kid key h l = cc
  map_of-Member (some keyset) keys kid key h l =
      let q : key_map [] keyset ≡ keys = ground arith in
      elim (key_map-Member kid key [] keyset (ap (lookup kid) q ∙ l)) [
        | inl (m, n) ↦ (keyset, refl, m, n)
        | inr e ↦ absurd (no_lookup kid key e)
      ]

  keys_of-document :
      (from_dict : Json → Option (List (Option Str × K))) (d : Result DecodeError Json)
      (keys : List (Str × K)) (kid : Str) (key : K)
      → keys_of from_dict d ≡ some keys
      → lookup kid keys ≡ some key
      → (document : Json) × (d ≡ ok document) × (map_of (from_dict document) ≡ some keys)
  unfolding keys_of lookup
  keys_of-document from_dict (err e) keys kid key h l = cc
  keys_of-document from_dict (ok document) keys kid key h l =
      elim (Bool-cases (has_no_keys document)) [
        | inl t ↦
            let q : [] ≡ keys = ground arith in absurd (no_lookup kid key (ap (lookup kid) q ∙ l))
        | inr f ↦ (document, refl, ground arith)
      ]

  parsed_some :
      (parse : List ℕ → Option (List (Str × K))) (o : Option (List ℕ)) (keys : List (Str × K))
      → parsed parse o ≡ some keys
      → (raw : List ℕ) × (o ≡ some raw) × (parse raw ≡ some keys)
  parsed_some parse none keys h = cc
  parsed_some parse (some raw) keys h = (raw, refl, h)

  -- Every key that a refresh puts into the cache under an id comes from a document that was fetched
  -- over http or https, and is in the key set of that document under that id, which is not empty.
  pub new_keys-HasOrigin :
      (urlopen : Str → Option (List ℕ)) (scan : List ℕ → Document)
      (from_dict : Json → Option (List (Option Str × K))) (url : Str) (keys : List (Str × K))
      (kid : Str) (key : K)
      → new_keys urlopen scan from_dict url ≡ some keys
      → lookup kid keys ≡ some key
      → HasOrigin urlopen scan from_dict url kid key
  unfolding new_keys parse_jwks
  new_keys-HasOrigin urlopen scan from_dict url keys kid key h l =
      let (raw, f, p) = parsed_some (parse_jwks scan from_dict) (fetch_jwks urlopen url) keys h in
      let (http, opened) = fetch_jwks-http urlopen url raw f in
      let (document, d, m) = keys_of-document from_dict (loads plain (scan raw)) keys kid key p l in
      let (keyset, r, i, n) = map_of-Member (from_dict document) keys kid key m l in
      record {
        raw = raw;
        document = document;
        keyset = keyset;
        over_http = http;
        fetched = opened;
        decoded = d;
        read = r;
        listed = i;
        named = n;
      }
