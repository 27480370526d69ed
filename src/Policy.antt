-- ===== src/Policy.antt =====
-- src/mcp_gateway/policy.py: which scopes a caller must hold to invoke a method.
-- A `frozenset` is a list read through `elem`; the rules are a dictionary in insertion order.
pub mod Match
pub mod Scopes
pub mod File
use mcp_auth_gateway.Prelude.{
  ℕ, Str, Bool, true, false, ◌&&◌, Option, none, some, List, [], ◌∷◌, codes, if◌then◌else◌,
  is_empty, lookup, keys, starts_with, ends_with, length, ltb, without, sorted, frozenset,
}

-- The text of `ScopeDecision.reason`, by its cases.
pub data ScopeReason : Type 0 where
  no_policy : Str → ScopeReason
  missing_scopes : List Str → ScopeReason
  scopes_ok : ScopeReason

pub record ScopeDecision : Type 0 where
  pub allowed : Bool
  pub required : List Str
  pub reason : ScopeReason

pub record ScopePolicy : Type 0 where
  pub rules : List (Str × List Str)
  pub default : List Str
  pub deny_by_default : Bool

abbrev pub slash : ℕ
slash = b'/'

-- a prefix rule that covers the method
abbrev pub covers : Str → Str → Bool
covers method key = ends_with slash key && starts_with method key

abbrev pub longer : Str → Option Str → Option Str
longer key none = some key
longer key (some best) = if ltb (length best) (length key) then some key else some best

-- the loop over the keys; `best` is the longest prefix rule so far
pub best_prefix : Str → Option Str → List Str → Option Str
best_prefix method best [] = best
best_prefix method best (key ∷ ks) =
    best_prefix method (if covers method key then longer key best else best) ks

-- `_match`
unfoldable pub match : ScopePolicy → Str → Option (List Str)
unfolding best_prefix
match p method = elim (lookup method p.rules) [
  | some scopes ↦ some scopes
  | none ↦ elim (best_prefix method none (keys p.rules)) [
    | none ↦ none
    | some key ↦ lookup key p.rules
  ]
]

-- the second half of `check`, once the required scopes are known
unfoldable pub judge : List Str → List Str → ScopeDecision
judge required held =
    let missing = without required held in
    if is_empty missing
    then record { allowed = true; required = required; reason = scopes_ok }
    else record { allowed = false; required = required; reason = missing_scopes (sorted missing) }

unfoldable pub check : ScopePolicy → Str → List Str → ScopeDecision
unfolding judge
check p method held_scopes = elim (match p method) [
  | some required ↦ judge required (frozenset held_scopes)
  | none ↦
      if p.deny_by_default && is_empty p.default
      then record { allowed = false; required = []; reason = no_policy method }
      else judge p.default (frozenset held_scopes)
]

abbrev pub mcp_read : Str
mcp_read = codes "mcp:read"

abbrev pub mcp_invoke : Str
mcp_invoke = codes "mcp:invoke"

unfoldable pub builtin : ScopePolicy
builtin = record {
  rules =
      (codes "initialize", [])
      ∷ (codes "ping", [])
      ∷ (codes "notifications/", [])
      ∷ (codes "tools/list", mcp_read ∷ [])
      ∷ (codes "tools/call", mcp_invoke ∷ [])
      ∷ (codes "resources/", mcp_read ∷ [])
      ∷ (codes "prompts/", mcp_read ∷ [])
      ∷ (codes "completion/complete", mcp_invoke ∷ [])
      ∷ (codes "logging/setLevel", mcp_invoke ∷ [])
      ∷ [];
  default = [];
  deny_by_default = true;
}
