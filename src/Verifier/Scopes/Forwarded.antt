-- ===== src/Verifier/Scopes/Forwarded.antt =====
-- The scopes of a verified token survive their journey in one space-delimited header.
use mcp_auth_gateway.Prelude.{
  Str, true, ◌≡◌, refl, sym, ap, ◌∙◌, arith, List, [], ◌∷◌, ◌++◌, codes, split, join, frozenset,
  sorted, elem, eq_str_iff, eq_str_refl, elem-frozenset, elem-sorted, ok, >>=-eq-ok,
}
use mcp_auth_gateway.Json.{Fields, get}
use mcp_auth_gateway.Verifier.Scopes.{
  all_scope_chars, valid_scope_token, words, space, claimed_tokens, all_valid, validate,
  parse_scopes,
}

-- A text without spaces is one piece.
split_solid : (s : Str) → all_scope_chars s ≡ true → split space s ≡ s ∷ []
unfolding split all_scope_chars
split_solid [] h = refl
split_solid (c ∷ s) h = ground (arith, split_solid s)

-- A text without spaces, and a space behind it, is the first piece.
split-append :
    (s t : Str) → all_scope_chars s ≡ true → split space (s ++ (space ∷ t)) ≡ s ∷ split space t
unfolding split all_scope_chars
split-append [] t h = refl
split-append (c ∷ s) t h = ground (arith, split-append s t)

-- Tokens that are joined by spaces split into themselves.
words-join : (ts : List Str) → all_valid ts ≡ true → words (join (space ∷ []) ts) ≡ ts
unfolding words join all_valid split
words-join [] h = refl
words-join (t ∷ []) h = ground (arith, split_solid t)
words-join (t ∷ u ∷ ts) h =
    ground (arith, split-append t (join (space ∷ []) (u ∷ ts)), words-join (u ∷ ts))

all_valid-elem :
    (x : Str) (ts : List Str) → all_valid ts ≡ true → elem x ts ≡ true → valid_scope_token x ≡ true
unfolding all_valid elem
all_valid-elem x [] h m = cc
all_valid-elem x (t ∷ ts) h m = ground (arith, eq_str_iff x t, all_valid-elem x ts)

pub all_valid_of :
    (ts : List Str)
    → ((x : Str) → elem x ts ≡ true → valid_scope_token x ≡ true)
    → all_valid ts ≡ true
unfolding all_valid elem
all_valid_of [] h = refl
all_valid_of (t ∷ ts) h =
    ground (arith, h t, eq_str_refl t, all_valid_of ts (λ x m. h x (ground arith)))

validate-valid :
    (tokens ss : List Str)
    → validate tokens ≡ ok ss
    → (all_valid tokens ≡ true) × (ss ≡ frozenset tokens)
unfolding validate
validate-valid tokens ss h = (ground arith, ground arith)

-- Every scope of a claim that is accepted is a scope-token of RFC 6749: not empty, and made of
-- printable ASCII characters other than the space, the double quote and the backslash.
pub parse_scopes-valid :
    (claims : Fields) (ss : List Str) (x : Str)
    → parse_scopes claims ≡ ok ss
    → elem x ss ≡ true
    → valid_scope_token x ≡ true
unfolding parse_scopes
parse_scopes-valid claims ss x h m =
    let (tokens, a, b) =
      >>=-eq-ok (claimed_tokens (get (codes "scope") claims) (get (codes "scp") claims)) validate
        h in
    let (v, q) = validate-valid tokens ss b in
    all_valid-elem x tokens v (sym (elem-frozenset x tokens) ∙ (ap (elem x) (sym q) ∙ m))

-- The scopes of a verified token, sorted and joined by spaces as the gateway forwards them, split
-- again into the same list: no scope is made, lost, split or merged on the way.
pub scopes_resplit :
    (claims : Fields) (ss : List Str)
    → parse_scopes claims ≡ ok ss
    → words (join (space ∷ []) (sorted ss)) ≡ sorted ss
scopes_resplit claims ss h = words-join (sorted ss) (
    all_valid_of (sorted ss) (λ x m. parse_scopes-valid claims ss x h (sym (elem-sorted x ss) ∙ m)))
