-- ===== src/ToolPolicy/File/Loaded.antt =====
-- What a tool policy that loads from a file satisfies.
use mathlib.Core.Path.{subst}
use mcp_auth_gateway.Prelude.{
  is_empty-sorted, ℕ, suc, Str, Bool, true, false, ◌≡◌, refl, some, List, [], ◌∷◌, codes, arith,
  is_empty, elem, eq_str, Result, ok, ◌>>◌, require, >>=-eq-ok, elem-frozenset, not, Option-cases,
  inl, inr, Subset, without-empty→Subset, without, sorted,
}
use mcp_auth_gateway.Json.{Json, null, str, arr, obj, Items, nil, cons, Fields, nonempty_strings}
use mcp_auth_gateway.ToolPolicy.{ToolPolicy, ToolRule}
use mcp_auth_gateway.ToolPolicy.File.{
  Label, top_tools, rule_any_of, rule_tools, ToolPolicyError, bad_claim, bad_rule_name, policy_keys,
  rule_keys, key_set, unknown, get_or, string_list, nonempty_text, load_rule, load_rules,
  load_rule_list, from_file,
}

-- No element of a list is the empty text.
abbrev pub NoEmpty : List Str → Type 0
NoEmpty xs = elem [] xs ≡ false

nonempty_strings-NoEmpty : (js : Items) (ss : List Str) → nonempty_strings js ≡ some ss → NoEmpty ss
unfolding nonempty_strings elem eq_str
nonempty_strings-NoEmpty nil ss h = ground arith
nonempty_strings-NoEmpty (cons (str []) js) ss h = ground arith
nonempty_strings-NoEmpty (cons (str (c ∷ s)) js) ss h = elim (Option-cases (nonempty_strings js)) [
  | inl n ↦ ground arith
  | inr (rest, e) ↦ ground (arith, nonempty_strings-NoEmpty js rest e)
]
nonempty_strings-NoEmpty (cons null js) ss h = cc
nonempty_strings-NoEmpty (cons _ js) ss h = cc

string_list-NoEmpty :
    (label : Label) (v : Json) (ss : List Str) → string_list label v ≡ ok ss → NoEmpty ss
unfolding string_list
string_list-NoEmpty label (arr js) ss h = elim (Option-cases (nonempty_strings js)) [
  | inl n ↦ ground arith
  | inr (raw, e) ↦ ground (arith, nonempty_strings-NoEmpty js raw e, elem-frozenset [] raw)
]
string_list-NoEmpty label null ss h = cc
string_list-NoEmpty label _ ss h = cc

-- A rule that grants no empty tool, asks for at least one claim value and has a name.
pub record IsUsable (r : ToolRule) : Type 0 where
  pub named : is_empty r.name ≡ false
  pub some_value : is_empty r.any_of ≡ false
  pub real_values : NoEmpty r.any_of
  pub real_tools : NoEmpty r.allowed_tools

abbrev pub AllUsable : List ToolRule → Type 0
AllUsable [] = Unit
AllUsable (r ∷ rs) = IsUsable r × AllUsable rs

nonempty_text-nonempty :
    (e : ToolPolicyError) (v : Json) (s : Str) → nonempty_text e v ≡ ok s → is_empty s ≡ false
unfolding nonempty_text
nonempty_text-nonempty e (str []) s h = cc
nonempty_text-nonempty e (str (c ∷ t)) s h = ground arith
nonempty_text-nonempty e null s h = cc
nonempty_text-nonempty e _ s h = cc

-- A requirement that is met.
require_ok :
    {E B : Type 0} (b : Bool) (e : E) (k : Result E B) {r : B}
    → (require b e >> k) ≡ ok r
    → (b ≡ true) × (k ≡ ok r)
require_ok true e k h = (refl, h)
require_ok false e k h = cc

load_rule-IsUsable : (i : ℕ) (raw : Json) (r : ToolRule) → load_rule i raw ≡ ok r → IsUsable r
unfolding load_rule
load_rule-IsUsable i (obj fs) r h =
    let (known, h1) = require_ok (is_empty (unknown rule_keys fs)) _ _ h in
    let (name, n, h2) = >>=-eq-ok (nonempty_text (bad_rule_name i) _) _ h1 in
    let (any_of, a, h3) = >>=-eq-ok (string_list (rule_any_of name) _) _ h2 in
    let (given, h4) = require_ok (not (is_empty any_of)) _ _ h3 in
    let (tools, t, h5) = >>=-eq-ok (string_list (rule_tools name) _) _ h4 in
    record {
      named = ground (arith, nonempty_text-nonempty _ _ name n);
      some_value = ground arith;
      real_values = ground (arith, string_list-NoEmpty _ _ any_of a);
      real_tools = ground (arith, string_list-NoEmpty _ _ tools t);
    }
load_rule-IsUsable i null r h = cc
load_rule-IsUsable i _ r h = cc

load_rules-AllUsable :
    (i : ℕ) (raws : Items) (rs : List ToolRule) → load_rules i raws ≡ ok rs → AllUsable rs
unfolding load_rules
load_rules-AllUsable i nil [] h = tt
load_rules-AllUsable i nil (r ∷ rs) h = cc
load_rules-AllUsable i (cons raw raws) rs h =
    let (rule, a, h1) = >>=-eq-ok (load_rule i raw) _ h in
    let (rules, b, h2) = >>=-eq-ok (load_rules (suc i) raws) _ h1 in
    let e : rule ∷ rules ≡ rs = ground arith in
    subst AllUsable e (load_rule-IsUsable i raw rule a, load_rules-AllUsable (suc i) raws rules b)

load_rule_list-AllUsable : (v : Json) (rs : List ToolRule) → load_rule_list v ≡ ok rs → AllUsable rs
unfolding load_rule_list
load_rule_list-AllUsable (arr raws) rs h = load_rules-AllUsable 0 raws rs h
load_rule_list-AllUsable null rs h = cc
load_rule_list-AllUsable _ rs h = cc

sorted-empty : (xs : List Str) → is_empty (sorted xs) ≡ true → xs ≡ []
sorted-empty [] h = refl
sorted-empty (x ∷ xs) h = cc (is_empty-sorted (x ∷ xs))

unknown-Subset :
    (known : List Str) (fs : Fields)
    → is_empty (unknown known fs) ≡ true
    → Subset (key_set fs) known
unfolding unknown
unknown-Subset known fs h =
    without-empty→Subset (key_set fs) known (sorted-empty (without (key_set fs) known) h)

-- What holds of a policy that loads from an object.
pub record IsLoaded (fs : Fields) (p : ToolPolicy) : Type 0 where
  pub keys_known : Subset (key_set fs) policy_keys
  pub real_tools : NoEmpty p.allowed_tools
  pub real_claim : is_empty p.claim ≡ false
  pub rules_usable : AllUsable p.rules

-- A file loads only if each of its keys is one that the format has; and then no tool of the policy
-- is the empty text, the claim has a name, and every rule has a name, at least one claim value, and
-- neither an empty value nor an empty tool.
pub from_file-IsLoaded : (fs : Fields) (p : ToolPolicy) → from_file (obj fs) ≡ ok p → IsLoaded fs p
unfolding from_file
from_file-IsLoaded fs p h =
    let (known, h1) = require_ok (is_empty (unknown policy_keys fs)) _ _ h in
    let (allowed, a, h2) = >>=-eq-ok (string_list top_tools _) _ h1 in
    let (claim, c, h3) =
      >>=-eq-ok (nonempty_text bad_claim (get_or (str (codes "groups")) (codes "claim") fs)) _ h2 in
    let (rules, r, h4) = >>=-eq-ok (load_rule_list (get_or (arr nil) (codes "rules") fs)) _ h3 in
    let e : record { allowed_tools = allowed; claim = claim; rules = rules } ≡ p = ground arith in
    subst (IsLoaded fs) e (record {
      keys_known = unknown-Subset policy_keys fs known;
      real_tools = string_list-NoEmpty _ _ allowed a;
      real_claim =
          nonempty_text-nonempty bad_claim (get_or (str (codes "groups")) (codes "claim") fs) claim
            c;
      rules_usable = load_rule_list-AllUsable (get_or (arr nil) (codes "rules") fs) rules r;
    })
