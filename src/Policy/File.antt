-- ===== src/Policy/File.antt =====
-- src/mcp_gateway/policy.py, `ScopePolicy.from_file`, from the document that `json.load` returns.
pub mod Exact
use mcp_auth_gateway.Prelude.{
  Str, Bool, true, false, ◌≡◌, Option, none, some, List, [], ◌∷◌, codes, Result, ok, err, ◌>>=◌,
  frozenset,
}
use mcp_auth_gateway.Json.{Json, arr, obj, bool, Items, nil, Fields, end, field, get, strings}
use mcp_auth_gateway.Policy.{ScopePolicy}

-- The `ValueError`s, by their messages.
pub data PolicyError : Type 0 where
  not_object rules_not_object : PolicyError
  rule_not_list : Str → PolicyError
  rule_bad_scope : Str → PolicyError
  default_not_list default_bad_scope deny_not_bool : PolicyError

-- `d.get(key, fallback)`
unfoldable pub get_or : Json → Str → Fields → Json
get_or fallback key fs = elim (get key fs) [ none ↦ fallback | some v ↦ v ]

pub scope_set : PolicyError → PolicyError → Json → Result PolicyError (List Str)
scope_set not_list bad (arr js) = elim (strings js) [ none ↦ err bad | some ss ↦ ok (frozenset ss) ]
scope_set not_list bad _ = err not_list

-- the loop over the rules
pub load_rules : Fields → Result PolicyError (List (Str × List Str))
load_rules end = ok []
load_rules (field method scopes fs) = do
  set ← scope_set (rule_not_list method) (rule_bad_scope method) scopes
  rest ← load_rules fs
  ok ((method, set) ∷ rest)

pub load_rule_table : Json → Result PolicyError (List (Str × List Str))
load_rule_table (obj fs) = load_rules fs
load_rule_table _ = err rules_not_object

pub load_deny : Json → Result PolicyError Bool
load_deny (bool b) = ok b
load_deny _ = err deny_not_bool

unfoldable pub from_file : Json → Result PolicyError ScopePolicy
unfolding get_or scope_set load_rules load_rule_table load_deny
from_file (obj fs) = do
  rules ← load_rule_table (get_or (obj end) (codes "rules") fs)
  default ← scope_set default_not_list default_bad_scope (get_or (arr nil) (codes "default") fs)
  deny ← load_deny (get_or (bool true) (codes "deny_by_default") fs)
  ok (record { rules = rules; default = default; deny_by_default = deny })
from_file _ = err not_object
