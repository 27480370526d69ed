-- ===== src/Policy/File/Exact.antt =====
-- A policy file loads to the policy that it writes down.
use mcp_auth_gateway.Prelude.{
  Option, Str, true, ◌≡◌, refl, none, some, List, [], ◌∷◌, arith, codes, ok, >>=-eq-ok, frozenset,
  lookup, eq_str, Bool-cases, Option-cases, inl, inr,
}
use mathlib.Core.Path.{subst}
use mcp_auth_gateway.Json.{
  Json, str, arr, obj, bool, Items, nil, cons, Fields, end, field, get, strings,
}
use mcp_auth_gateway.Policy.{ScopePolicy}
use mcp_auth_gateway.Policy.File.{
  PolicyError, get_or, scope_set, load_rules, load_rule_table, load_deny, from_file, rule_not_list,
  rule_bad_scope, default_not_list, default_bad_scope,
}

-- The document of a policy.
abbrev pub texts : List Str → Items
texts [] = nil
texts (s ∷ ss) = cons (str s) (texts ss)

abbrev pub rule_fields : List (Str × List Str) → Fields
rule_fields [] = end
rule_fields ((method, scopes) ∷ rules) = field method (arr (texts scopes)) (rule_fields rules)

abbrev pub document : ScopePolicy → Json
document p = obj (
    field (codes "rules") (obj (rule_fields p.rules)) (
      field (codes "default") (arr (texts p.default))
        (field (codes "deny_by_default") (bool p.deny_by_default) end)))

-- Each set of the policy lists its elements once.
abbrev pub AreSets : List (Str × List Str) → Type 0
AreSets [] = Unit
AreSets ((_, scopes) ∷ rules) = (frozenset scopes ≡ scopes) × AreSets rules

strings-texts : (ss : List Str) → strings (texts ss) ≡ some ss
unfolding strings
strings-texts [] = refl
strings-texts (s ∷ ss) = rw (strings-texts ss)

scope_set-texts :
    (e d : PolicyError) (ss : List Str) → frozenset ss ≡ ss → scope_set e d (arr (texts ss)) ≡ ok ss
unfolding scope_set
scope_set-texts e d ss h = ground (arith, strings-texts ss)

load_rules-fields :
    (rules : List (Str × List Str)) → AreSets rules → load_rules (rule_fields rules) ≡ ok rules
unfolding load_rules
load_rules-fields [] h = refl
load_rules-fields ((method, scopes) ∷ rules) h =
    rw (scope_set-texts (rule_not_list method) (rule_bad_scope method) scopes h.0)
      (rw (load_rules-fields rules h.1))

-- Writing a policy down and loading the document gives the policy back, its rules in their order,
-- if each of its scope lists has no element twice.
pub from_file-document :
    (p : ScopePolicy)
    → AreSets p.rules
    → frozenset p.default ≡ p.default
    → from_file (document p) ≡ ok p
unfolding from_file get eq_str
from_file-document p h d = ground (
  arith,
  load_rules-fields p.rules h,
  scope_set-texts default_not_list default_bad_scope p.default d,
)

-- What a member of `rules` must be for the file to load, and the set that it becomes.
pub record IsRule (v : Json) (scopes : List Str) : Type 0 where
  pub items : Items
  pub listed : List Str
  pub is_array : v ≡ arr items
  pub all_strings : strings items ≡ some listed
  pub as_set : scopes ≡ frozenset listed

scope_set-IsRule :
    (e d : PolicyError) (v : Json) (scopes : List Str)
    → scope_set e d v ≡ ok scopes
    → IsRule v scopes
unfolding scope_set
scope_set-IsRule e d (arr js) scopes h = elim (Option-cases (strings js)) [
  | inl n ↦ ground arith
  | inr (ss, q) ↦ record {
    items = js;
    listed = ss;
    is_array = refl;
    all_strings = q;
    as_set = ground arith;
  }
]
scope_set-IsRule e d (str s) scopes h = cc
scope_set-IsRule e d _ scopes h = cc

load_rules-cons :
    (j : Str) (w : Json) (fs : Fields) (rules : List (Str × List Str))
    → load_rules (field j w fs) ≡ ok rules
    → (set : List Str) × (rest : List (Str × List Str)) × (scope_set
          (rule_not_list j)
          (rule_bad_scope j)
          w
        ≡ ok set)
      × (load_rules fs ≡ ok rest)
      × (rules ≡ (j, set) ∷ rest)
unfolding load_rules
load_rules-cons j w fs rules h =
    let (set, a, r) = >>=-eq-ok (scope_set (rule_not_list j) (rule_bad_scope j) w) _ h in
    let (rest, b, q) = >>=-eq-ok (load_rules fs) _ r in (set, rest, a, b, ground arith)

load_rules-lookup :
    (fs : Fields) (rules : List (Str × List Str)) (method : Str) (v : Json)
    → load_rules fs ≡ ok rules
    → get method fs ≡ some v
    → (scopes : List Str) × (lookup method rules ≡ some scopes) × IsRule v scopes
unfolding load_rules get lookup
load_rules-lookup end rules method v h g = cc
load_rules-lookup (field j w fs) rules method v h g =
    let (set, rest, a, b, q) = load_rules-cons j w fs rules h in
    elim (Bool-cases (eq_str method j)) [
      | inl e ↦ (
        set,
        rw q (rw e),
        subst (λ x. IsRule x set) (ground arith)
            (scope_set-IsRule (rule_not_list j) (rule_bad_scope j) w set a),
      )
      | inr e ↦
          let (scopes, l, r) = load_rules-lookup fs rest method v b (ground arith) in
          (scopes, rw q (rw e l), r)
    ]

load_rules-none :
    (fs : Fields) (rules : List (Str × List Str)) (method : Str)
    → load_rules fs ≡ ok rules
    → get method fs ≡ none
    → lookup method rules ≡ none
unfolding load_rules get lookup
load_rules-none end rules method h g = ground arith
load_rules-none (field j w fs) rules method h g =
    let (set, rest, a, b, q) = load_rules-cons j w fs rules h in
    elim (Bool-cases (eq_str method j)) [
      | inl e ↦ ground arith
      | inr e ↦ rw q (rw e (load_rules-none fs rest method b (ground arith)))
    ]

from_file-rules :
    (fs : Fields) (p : ScopePolicy)
    → from_file (obj fs) ≡ ok p
    → load_rule_table (get_or (obj end) (codes "rules") fs) ≡ ok p.rules
unfolding from_file
from_file-rules fs p h =
    let (rules, a, r) = >>=-eq-ok (load_rule_table (get_or (obj end) (codes "rules") fs)) _ h in
    let (default, b, s) =
      >>=-eq-ok
        (scope_set default_not_list default_bad_scope (get_or (arr nil) (codes "default") fs)) _
        r in
    let (deny, c, q) =
      >>=-eq-ok (load_deny (get_or (bool true) (codes "deny_by_default") fs)) _ s in
    ground arith

-- What a method has in the file, and the rule that it has in the policy.
pub data IsExact (written : Option Json) (rule : Option (List Str)) : Type 0 where
  member :
      (v : Json) (scopes : List Str)
      → written ≡ some v
      → rule ≡ some scopes
      → IsRule v scopes
      → IsExact written rule
  no_member : written ≡ none → rule ≡ none → IsExact written rule

-- A file that loads has, for each member of its `rules`, an array of strings there, and the policy
-- demands exactly those; a method that is no member has no exact rule.
pub from_file-IsExact :
    (fs members : Fields) (p : ScopePolicy) (method : Str)
    → from_file (obj fs) ≡ ok p
    → get (codes "rules") fs ≡ some (obj members)
    → IsExact (get method members) (lookup method p.rules)
from_file-IsExact fs members p method h g =
    let loaded : load_rules members ≡ ok p.rules =
      unfold get_or load_rule_table in ground (arith, from_file-rules fs p h) in
    elim (Option-cases (get method members)) [
      | inl e ↦ IsExact.no_member e (load_rules-none members p.rules method loaded e)
      | inr (v, e) ↦
          let (scopes, a, b) = load_rules-lookup members p.rules method v loaded e in
          IsExact.member v scopes e a b
    ]
