-- ===== src/Verifier/Scopes.antt =====
-- src/mcp_gateway/verifier.py, `_parse_scopes` and `_valid_scope_token`.
pub mod Forwarded
use mcp_auth_gateway.Prelude.{
  ℕ, Str, Bool, true, false, ◌&&◌, not, Option, none, some, List, [], ◌∷◌, codes, is_empty, ltb,
  leb, ◌==◌, split, frozenset, if◌then◌else◌, Result, ok, err, ◌>>=◌,
}
use mcp_auth_gateway.Json.{Json, str, arr, Fields, get, strings}

pub data ScopeClaimError : Type 0 where
  invalid_token : ScopeClaimError

-- `ch in _SCOPE_TOKEN_OK`
abbrev pub is_scope_char : ℕ → Bool
is_scope_char c = leb 0x21 c && ltb c 0x7f && not (c == 0x22) && not (c == 0x5c)

unfoldable pub all_scope_chars : Str → Bool
all_scope_chars [] = true
all_scope_chars (c ∷ s) = is_scope_char c && all_scope_chars s

-- `_valid_scope_token`
unfoldable pub valid_scope_token : Str → Bool
unfolding all_scope_chars
valid_scope_token tok = not (is_empty tok) && all_scope_chars tok

-- `[t for t in parts if t]`
unfoldable pub nonempty : List Str → List Str
nonempty [] = []
nonempty (t ∷ ts) = let rest = nonempty ts in if is_empty t then rest else t ∷ rest

abbrev pub space : ℕ
space = 32

-- `[t for t in text.split(" ") if t]`
unfoldable pub words : Str → List Str
unfolding nonempty
words text = nonempty (split space text)

-- the tokens of the two claims, `scope` before `scp`
unfoldable pub claimed_tokens : Option Json → Option Json → Result ScopeClaimError (List Str)
unfolding words
claimed_tokens (some (str raw)) scp = ok (words raw)
claimed_tokens raw (some (str scp)) = ok (words scp)
claimed_tokens raw (some (arr els)) = elim (strings els) [
  | none ↦ err invalid_token
  | some tokens ↦ ok tokens
]
claimed_tokens raw scp = ok []

unfoldable pub all_valid : List Str → Bool
unfolding valid_scope_token
all_valid [] = true
all_valid (t ∷ ts) = valid_scope_token t && all_valid ts

unfoldable pub validate : List Str → Result ScopeClaimError (List Str)
unfolding all_valid
validate tokens = if all_valid tokens then ok (frozenset tokens) else err invalid_token

-- `_parse_scopes`
unfoldable pub parse_scopes : Fields → Result ScopeClaimError (List Str)
unfolding claimed_tokens validate
parse_scopes claims = do
  tokens ← claimed_tokens (get (codes "scope") claims) (get (codes "scp") claims)
  validate tokens
