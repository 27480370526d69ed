-- ===== src/App/Endpoints/Discovered.antt =====
-- What a client can find out about the scopes from the metadata.
use mcp_auth_gateway.Prelude.{
  Str, true, ◌||◌, ◌≡◌, inl, inr, refl, sym, ◌∙◌, arith, some, List, [], ◌∷◌, ◌++◌, elem, is_empty,
  eq_str, lookup, frozenset, without, elem-sorted, elem-frozenset, Bool-cases, Option-cases,
}
use mcp_auth_gateway.Policy
use mcp_auth_gateway.Policy.{ScopePolicy, judge, match}
use mcp_auth_gateway.Policy.Match.{Resolves, match_iff}
use mcp_auth_gateway.App.Messages.{Settings}
use mcp_auth_gateway.App.Endpoints.{rule_scopes, scopes_of, protected_resource_metadata}

elem-append : (x : Str) (xs ys : List Str) → elem x (xs ++ ys) ≡ elem x xs || elem x ys
unfolding elem
elem-append x [] ys = refl
elem-append x (y ∷ xs) ys = ground (arith, elem-append x xs ys)

elem-scopes_of :
    (x : Str) (p : ScopePolicy)
    → elem x (scopes_of p) ≡ elem x (rule_scopes p.rules) || elem x p.default
unfolding scopes_of
elem-scopes_of x p =
    elem-sorted x _ ∙ elem-frozenset x _ ∙ elem-append x (rule_scopes p.rules) p.default

lookup-rule_scopes :
    (x k : Str) (rules : List (Str × List Str)) (s : List Str)
    → lookup k rules ≡ some s
    → elem x s ≡ true
    → elem x (rule_scopes rules) ≡ true
unfolding lookup rule_scopes
lookup-rule_scopes x k [] s h e = cc
lookup-rule_scopes x k ((j, t) ∷ rules) s h e = elim (Bool-cases (eq_str k j)) [
  | inl q ↦ let a : t ≡ s = ground arith in ground (arith, elem-append x t (rule_scopes rules))
  | inr q ↦
      ground (
        arith,
        elem-append x t (rule_scopes rules),
        lookup-rule_scopes x k rules s (ground arith) e,
      )
]

Resolves-rule_scopes :
    (x : Str) (p : ScopePolicy) (method : Str) (s : List Str)
    → Resolves p method (some s)
    → elem x s ≡ true
    → elem x (rule_scopes p.rules) ≡ true
Resolves-rule_scopes x p method s (Resolves.exact t h q) e =
    lookup-rule_scopes x method p.rules s (h ∙ sym q) e
Resolves-rule_scopes x p method s (Resolves.by_prefix k t n l h q) e =
    lookup-rule_scopes x k p.rules s (h ∙ sym q) e
Resolves-rule_scopes x p method s (Resolves.unmatched n l q) e = cc

judge-required : (required held : List Str) → (judge required held).required ≡ required
unfolding judge
judge-required required held = ground (arith, Bool-cases (is_empty (without required held)))

-- Whatever `check` requires for a method, and so whatever a refusal with status 403 names as missing,
-- is among the scopes that the resource metadata lists: a client can ask the authorization server for
-- all it will ever need.
pub metadata_lists_required :
    (s : Settings) (p : ScopePolicy) (method : Str) (held : List Str) (x : Str)
    → elem x (Policy.check p method held).required ≡ true
    → elem x (protected_resource_metadata s p).scopes_supported ≡ true
unfolding protected_resource_metadata Policy.check
metadata_lists_required s p method held x e = elim (Option-cases (match p method)) [
  | inl n ↦ ground (arith, elem-scopes_of x p, judge-required p.default (frozenset held))
  | inr (r, q) ↦
      let a = Resolves-rule_scopes x p method r ((match_iff p method (some r)).0 q) in
      ground (arith, elem-scopes_of x p, judge-required r (frozenset held))
]
