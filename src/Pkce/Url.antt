-- ===== src/Pkce/Url.antt =====
-- src/mcp_gateway/pkce.py: the authorization URL is read back as the parameters it was built from.
use mathlib.Core.Path.{subst}
use mcp_auth_gateway.Prelude.{
  is_empty, false, ℕ, suc, ◌≤◌, Str, ◌≡◌, refl, sym, ap, ◌∙◌, arith, Option, none, some, List, [],
  ◌∷◌, ◌++◌, ltb, split, choose,
}
use mcp_auth_gateway.Json.Print.{is_surrogate, encode_char, then_encode, encode}
use mcp_auth_gateway.Pkce.{
  PkcePair, quoted, pair_text, and_text, urlencode, state_or, with_state, authorization_params,
  build_authorization_url, quote_bytes,
}
use mcp_auth_gateway.Pkce.Compliant.{AllBytes}
use mcp_auth_gateway.Pkce.Query.{
  read_pairs, read_query, quote-all_safe, is_one_pair, split_one, split_more, pair_of_bytes,
  read_pair-quote,
}

-- The code points of Unicode.
abbrev pub AllPoints : Str → Type 0
AllPoints [] = Unit
AllPoints (c ∷ s) = (suc c ≤ 0x110000) × AllPoints s

abbrev pub AllTexts : List (Str × Str) → Type 0
AllTexts [] = Unit
AllTexts ((k, v) ∷ params) = AllPoints k × AllPoints v × AllTexts params

-- The bytes of the names and of the values are those of the parameters.
abbrev pub Encodes : List (Str × Str) → List (List ℕ × List ℕ) → Type 0
Encodes [] [] = Unit
Encodes [] (_ ∷ _) = ⊥
Encodes (_ ∷ _) [] = ⊥
Encodes ((k, v) ∷ params) ((a, b) ∷ pairs) =
    (encode k ≡ some a) × (encode v ≡ some b) × Encodes params pairs

-- UTF-8 is made of bytes.
abbrev OfBytes : Option (List ℕ) → Type 0
OfBytes none = Unit
OfBytes (some bs) = AllBytes bs

encode_char-OfBytes : (c : ℕ) → suc c ≤ 0x110000 → OfBytes (encode_char c)
unfolding encode_char
encode_char-OfBytes c h =
    choose OfBytes (ltb c 0x80) _ _ (λ a. (ground arith, tt))
      (λ a.
        choose OfBytes (ltb c 0x800) _ _ (λ b. (ground arith, (omega arith, tt)))
          (λ b.
            choose OfBytes (is_surrogate c) _ _ (λ d. tt)
              (λ d.
                choose OfBytes (ltb c 0x10000) _ _
                  (λ e. (ground arith, (omega arith, (omega arith, tt))))
                  (λ e. (omega arith, (omega arith, (omega arith, (omega arith, tt))))))))

AllBytes-append : (a b : List ℕ) → AllBytes a → AllBytes b → AllBytes (a ++ b)
AllBytes-append [] b h k = k
AllBytes-append (x ∷ a) b (p, h) k = (p, AllBytes-append a b h k)

then_encode-OfBytes : (x y : Option (List ℕ)) → OfBytes x → OfBytes y → OfBytes (then_encode x y)
then_encode-OfBytes none y h k = tt
then_encode-OfBytes (some a) none h k = tt
then_encode-OfBytes (some a) (some b) h k = AllBytes-append a b h k

encode-OfBytes : (s : Str) → AllPoints s → OfBytes (encode s)
unfolding encode
encode-OfBytes [] h = tt
encode-OfBytes (c ∷ s) (p, h) =
    then_encode-OfBytes (encode_char c) (encode s) (encode_char-OfBytes c p) (encode-OfBytes s h)

encode-AllBytes : (s : Str) (a : List ℕ) → AllPoints s → encode s ≡ some a → AllBytes a
encode-AllBytes s a h e = subst OfBytes e (encode-OfBytes s h)

-- A pair of the query that could be encoded.
quoted_pair :
    (x y : Option (List ℕ)) (p : Str)
    → pair_text (quoted x) (quoted y) ≡ some p
    → (a b : List ℕ) × (x ≡ some a) × (y ≡ some b) × (p ≡ pair_of_bytes a b)
quoted_pair none y p h = cc
quoted_pair (some a) none p h = cc
quoted_pair (some a) (some b) p h = (a, b, refl, refl, ground arith)

and_text-some :
    (x y : Option Str) (q : Str)
    → and_text x y ≡ some q
    → (p r : Str) × (x ≡ some p) × (y ≡ some r) × (q ≡ p ++ (b'&' ∷ r))
and_text-some none y q h = cc
and_text-some (some p) none q h = cc
and_text-some (some p) (some r) q h = (p, r, refl, refl, ground arith)

-- A query that `urlencode` makes of parameters is read back as their names and values, byte for byte.
read_query-urlencode :
    (k v : Str) (params : List (Str × Str)) (q : Str)
    → AllTexts ((k, v) ∷ params)
    → urlencode ((k, v) ∷ params) ≡ some q
    → Encodes ((k, v) ∷ params) (read_query q)
unfolding urlencode read_query read_pairs
read_query-urlencode k v [] q (h, i, _) e =
    let (a, b, x, y, z) = quoted_pair (encode k) (encode v) q e in
    let one = is_one_pair (quote_bytes a) (quote_bytes b) (quote-all_safe a) (quote-all_safe b) in
    let s = split_one (pair_of_bytes a b) one in
    let r = read_pair-quote a b (encode-AllBytes k a h x) (encode-AllBytes v b i y) in
    subst (λ ps. Encodes ((k, v) ∷ []) (read_pairs ps)) (sym (ap (split b'&') z ∙ s))
      (subst (λ pair. Encodes ((k, v) ∷ []) (pair ∷ [])) (sym r) (x, y, tt))
read_query-urlencode k v ((l, w) ∷ params) q (h, i, t) e =
    let (p, rest, f, g, j) =
      and_text-some (pair_text (quoted (encode k)) (quoted (encode v)))
        (urlencode ((l, w) ∷ params)) q e in
    let (a, b, x, y, z) = quoted_pair (encode k) (encode v) p f in
    let one = is_one_pair (quote_bytes a) (quote_bytes b) (quote-all_safe a) (quote-all_safe b) in
    let s = split_more (pair_of_bytes a b) rest one in
    let r = read_pair-quote a b (encode-AllBytes k a h x) (encode-AllBytes v b i y) in
    let u = j ∙ ap (λ (o : Str). o ++ (b'&' ∷ rest)) z in
    subst (λ ps. Encodes ((k, v) ∷ (l, w) ∷ params) (read_pairs ps)) (sym (ap (split b'&') u ∙ s))
      (subst (λ pair. Encodes ((k, v) ∷ (l, w) ∷ params) (pair ∷ read_pairs (split b'&' rest)))
        (sym r) (x, y, read_query-urlencode l w params rest t g))

read_query-params :
    (params : List (Str × Str)) (q : Str)
    → is_empty params ≡ false
    → AllTexts params
    → urlencode params ≡ some q
    → Encodes params (read_query q)
read_query-params [] q n t e = cc
read_query-params ((k, v) ∷ params) q n t e = read_query-urlencode k v params q t e

-- The URL that a client is sent to.
pub record IsReadable (endpoint : Str) (params : List (Str × Str)) (url : Str) : Type 0 where
  pub query : Str
  pub whole : url ≡ endpoint ++ (b'?' ∷ query)
  pub read : Encodes params (read_query query)

with_state-some :
    (endpoint state : Str) (o : Option Str) (url s : Str)
    → ◌≡◌ {A = Option (Str × Str)} (with_state endpoint state o) (some (url, s))
    → (q : Str) × (o ≡ some q) × (url ≡ endpoint ++ (b'?' ∷ q)) × (state ≡ s)
with_state-some endpoint state none url s h = cc
with_state-some endpoint state (some q) url s h = (q, refl, cc, cc)

-- Whatever texts it is given, the URL that `build_authorization_url` returns is the endpoint with a query
-- that a reader takes for the parameters it was built from, in their order and byte for byte: no
-- redirect URI, scope, state or audience can add a parameter, end one or change another. The state that
-- is returned with it is the one in the query.
pub build_authorization_url-IsReadable :
    (endpoint client_id redirect_uri : Str) (scopes : List Str) (pkce : PkcePair)
    (state audience : Option Str) (random : List ℕ) (url s : Str)
    → AllTexts
        (authorization_params client_id redirect_uri scopes pkce (state_or state random) audience)
    → build_authorization_url endpoint client_id redirect_uri scopes pkce state audience random
      ≡ some (url, s)
    → IsReadable endpoint (authorization_params client_id redirect_uri scopes pkce s audience) url
unfolding build_authorization_url
build_authorization_url-IsReadable endpoint client_id redirect_uri scopes pkce state audience random
      url s t h =
    let ps =
      authorization_params client_id redirect_uri scopes pkce (state_or state random) audience in
    let (q, e, w, g) = with_state-some endpoint (state_or state random) (urlencode ps) url s h in
    subst
      (λ x.
        IsReadable endpoint (authorization_params client_id redirect_uri scopes pkce x audience)
          url)
      g (record { query = q; whole = w; read = read_query-params ps q refl t e })
