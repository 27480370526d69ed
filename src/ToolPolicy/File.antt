-- ===== src/ToolPolicy/File.antt =====
-- src/mcp_gateway/tool_policy.py, `ToolPolicy.from_file` and `_string_list`, from the document that
-- `json.load` returns.
pub mod Loaded
use mcp_auth_gateway.Prelude.{
  ℕ, suc, Str, Bool, true, false, Option, none, some, List, [], ◌∷◌, ◌++◌, codes, decimal, is_empty,
  sorted, without, Result, ok, err, ◌>>=◌, ◌>>◌, require, frozenset, not,
}
use mcp_auth_gateway.Json.{
  Json, null, str, arr, obj, Items, nil, cons, Fields, end, field, get, nonempty_strings,
}
use mcp_auth_gateway.ToolPolicy.{ToolPolicy, ToolRule}

-- Which list an error is about.
pub data Label : Type 0 where
  top_tools : Label
  rule_any_of rule_tools : Str → Label

-- The `ValueError`s, by their messages.
pub data ToolPolicyError : Type 0 where
  not_object : ToolPolicyError
  unknown_keys : List Str → ToolPolicyError
  list_required list_expected bad_strings : Label → ToolPolicyError
  bad_claim rules_not_list : ToolPolicyError
  rule_not_object : ℕ → ToolPolicyError
  unknown_rule_keys : ℕ → List Str → ToolPolicyError
  bad_rule_name : ℕ → ToolPolicyError
  empty_any_of : Str → ToolPolicyError

abbrev policy_keys : List Str
policy_keys = codes "allowed_tools" ∷ codes "claim" ∷ codes "rules" ∷ []

abbrev rule_keys : List Str
rule_keys = codes "name" ∷ codes "any_of" ∷ codes "allowed_tools" ∷ []

-- `set(d)`: the keys of an object
pub key_set : Fields → List Str
key_set end = []
key_set (field k _ fs) = k ∷ key_set fs

-- `sorted(set(d) - known)`
pub unknown : List Str → Fields → List Str
unfolding key_set
unknown known fs = sorted (without (key_set fs) known)

-- `d.get(key, fallback)`
pub get_or : Json → Str → Fields → Json
get_or fallback key fs = elim (get key fs) [ none ↦ fallback | some v ↦ v ]

-- `_string_list`
pub string_list : Label → Json → Result ToolPolicyError (List Str)
string_list label null = err (list_required label)
string_list label (arr js) = elim (nonempty_strings js) [
  | none ↦ err (bad_strings label)
  | some ss ↦ ok (frozenset ss)
]
string_list label _ = err (list_expected label)

-- `isinstance(v, str) and v`
pub nonempty_text : ToolPolicyError → Json → Result ToolPolicyError Str
nonempty_text e (str s) = do require (not (is_empty s)) e; ok s
nonempty_text e _ = err e

pub load_rule : ℕ → Json → Result ToolPolicyError ToolRule
load_rule i (obj fs) = do
  require (is_empty (unknown rule_keys fs)) (unknown_rule_keys i (unknown rule_keys fs))
  name ←
      nonempty_text (bad_rule_name i)
        (get_or (str (codes "rules[" ++ (decimal i ++ codes "]"))) (codes "name") fs)
  any_of ← string_list (rule_any_of name) (get_or null (codes "any_of") fs)
  require (not (is_empty any_of)) (empty_any_of name)
  tools ← string_list (rule_tools name) (get_or null (codes "allowed_tools") fs)
  ok (record { name = name; any_of = any_of; allowed_tools = tools })
load_rule i _ = err (rule_not_object i)

-- the loop `for i, raw in enumerate(raw_rules)`
pub load_rules : ℕ → Items → Result ToolPolicyError (List ToolRule)
load_rules i nil = ok []
load_rules i (cons raw raws) = do
  rule ← load_rule i raw
  rules ← load_rules (suc i) raws
  ok (rule ∷ rules)

pub load_rule_list : Json → Result ToolPolicyError (List ToolRule)
load_rule_list (arr raws) = load_rules 0 raws
load_rule_list _ = err rules_not_list

unfoldable pub from_file : Json → Result ToolPolicyError ToolPolicy
unfolding get_or unknown string_list nonempty_text load_rule load_rules load_rule_list
from_file (obj fs) = do
  require (is_empty (unknown policy_keys fs)) (unknown_keys (unknown policy_keys fs))
  allowed ← string_list top_tools (get_or (arr nil) (codes "allowed_tools") fs)
  claim ← nonempty_text bad_claim (get_or (str (codes "groups")) (codes "claim") fs)
  rules ← load_rule_list (get_or (arr nil) (codes "rules") fs)
  ok (record { allowed_tools = allowed; claim = claim; rules = rules })
from_file _ = err not_object
