-- ===== src/Start/Policies.antt =====
-- The policies that the gateway starts with.

use mcp_auth_gateway.Prelude.{
  Str, false, ◌≡◌, ◌↔◌, ◌⊎◌, inl, inr, refl, sym, ap, ◌∙◌, arith, Option, none, some, [], ◌∷◌,
  is_empty, Result, ok, err, >>=-eq-ok,
}
use mcp_auth_gateway.Json.{Json}
use mcp_auth_gateway.Policy
use mcp_auth_gateway.Policy.{ScopePolicy}
use mcp_auth_gateway.Policy.File as ScopeFile
use mcp_auth_gateway.ToolPolicy.{ToolPolicy}
use mcp_auth_gateway.ToolPolicy.File as ToolFile
use mcp_auth_gateway.Start.{
  StartError, policy_error, tool_policy_error, with_error, readable, read, load_scope_policy,
  load_tool_policy, scope_policy_of, tool_policy_of,
}

-- The policy for a path: the built-in one for none, else the one in the file.
pub data IsScopePolicy (load : Str → Option Json) (o : Option Str) (p : ScopePolicy) : Type 0 where
  builtin : (o ≡ none) ⊎ (o ≡ some []) → p ≡ Policy.builtin → IsScopePolicy load o p
  in_file :
      (path : Str) (j : Json)
      → o ≡ some path
      → is_empty path ≡ false
      → load path ≡ some j
      → ScopeFile.from_file j ≡ ok p
      → IsScopePolicy load o p

-- The tool policy for a path: none at all, or the one in the file.
pub data IsToolPolicy (load : Str → Option Json) (o : Option Str) (p : Option ToolPolicy)
    : Type 0 where
  absent : (o ≡ none) ⊎ (o ≡ some []) → p ≡ none → IsToolPolicy load o p
  in_file :
      (path : Str) (j : Json) (t : ToolPolicy)
      → o ≡ some path
      → is_empty path ≡ false
      → load path ≡ some j
      → ToolFile.from_file j ≡ ok t
      → p ≡ some t
      → IsToolPolicy load o p

pub with_error_ok :
    {E A : Type 0} (f : E → StartError) (r : Result E A) {a : A} → with_error f r ≡ ok a → r ≡ ok a
with_error_ok f (err e) h = cc
with_error_ok f (ok a) h = ground arith

pub with_error_iff :
    {E A : Type 0} (f : E → StartError) (r : Result E A) {a : A}
    → (with_error f r ≡ ok a) ↔ (r ≡ ok a)
with_error_iff f r = (with_error_ok f r, λ h. ap (with_error f) h)

readable_iff : (path : Str) (o : Option Json) (j : Json) → (readable path o ≡ ok j) ↔ (o ≡ some j)
readable_iff path none j = (λ h. cc, λ h. cc)
readable_iff path (some k) j = (λ h. ground arith, λ h. ground arith)

load_scope_policy_iff :
    (load : Str → Option Json) (path : Str) (p : ScopePolicy)
    → (load_scope_policy load path ≡ ok p)
      ↔ ((j : Json) × (load path ≡ some j) × (ScopeFile.from_file j ≡ ok p))
unfolding load_scope_policy
load_scope_policy_iff load path p = (
  λ h.
      let (j, a, b) = >>=-eq-ok (read load path) _ h in
      (
        j,
        (readable_iff path (load path) j).0 a,
        with_error_ok policy_error (ScopeFile.from_file j) b,
      ),
  λ (j, a, b). rw (a, b) refl,
)

load_tool_policy_iff :
    (load : Str → Option Json) (path : Str) (p : Option ToolPolicy)
    → (load_tool_policy load path ≡ ok p) ↔ (
        (j : Json) × (t : ToolPolicy) × (load path ≡ some j)
        × (ToolFile.from_file j ≡ ok t)
        × (p ≡ some t))
unfolding load_tool_policy
load_tool_policy_iff load path p = (
  λ h.
      let (j, a, h1) = >>=-eq-ok (read load path) _ h in
      let (t, b, h2) = >>=-eq-ok (with_error tool_policy_error (ToolFile.from_file j)) _ h1 in
      (
        j,
        t,
        (readable_iff path (load path) j).0 a,
        with_error_ok tool_policy_error (ToolFile.from_file j) b,
        ground arith,
      ),
  λ (j, t, a, b, q). rw (a, b, q) refl,
)

pub scope_policy_of_iff :
    (load : Str → Option Json) (o : Option Str) (p : ScopePolicy)
    → (scope_policy_of load o ≡ ok p) ↔ IsScopePolicy load o p
unfolding scope_policy_of
scope_policy_of_iff load none p = (
  λ h. IsScopePolicy.builtin (inl refl) (ground arith),
  λ i. elim i [
    | IsScopePolicy.builtin w q ↦ ap ok (sym q)
    | IsScopePolicy.in_file path j e f a b ↦ cc
  ],
)
scope_policy_of_iff load (some []) p = (
  λ h. IsScopePolicy.builtin (inr refl) (ground arith),
  λ i. elim i [
    | IsScopePolicy.builtin w q ↦ ap ok (sym q)
    | IsScopePolicy.in_file path j e f a b ↦ ground arith
  ],
)
scope_policy_of_iff load (some (c ∷ cs)) p = (
  λ h.
      let (j, a, b) = (load_scope_policy_iff load (c ∷ cs) p).0 h in
      IsScopePolicy.in_file (c ∷ cs) j refl refl a b,
  λ i. elim i [
    | IsScopePolicy.builtin w q ↦ elim w [ inl e ↦ cc | inr e ↦ ground arith ]
    | IsScopePolicy.in_file path j e f a b ↦
        let q : c ∷ cs ≡ path = ground arith in
        (load_scope_policy_iff load (c ∷ cs) p).1 (j, ap load q ∙ a, b)
  ],
)

pub tool_policy_of_iff :
    (load : Str → Option Json) (o : Option Str) (p : Option ToolPolicy)
    → (tool_policy_of load o ≡ ok p) ↔ IsToolPolicy load o p
unfolding tool_policy_of
tool_policy_of_iff load none p = (
  λ h. IsToolPolicy.absent (inl refl) (ground arith),
  λ i. elim i [
    | IsToolPolicy.absent w q ↦ ap ok (sym q)
    | IsToolPolicy.in_file path j t e f a b q ↦ cc
  ],
)
tool_policy_of_iff load (some []) p = (
  λ h. IsToolPolicy.absent (inr refl) (ground arith),
  λ i. elim i [
    | IsToolPolicy.absent w q ↦ ap ok (sym q)
    | IsToolPolicy.in_file path j t e f a b q ↦ ground arith
  ],
)
tool_policy_of_iff load (some (c ∷ cs)) p = (
  λ h.
      let (j, t, a, b, q) = (load_tool_policy_iff load (c ∷ cs) p).0 h in
      IsToolPolicy.in_file (c ∷ cs) j t refl refl a b q,
  λ i. elim i [
    | IsToolPolicy.absent w q ↦ elim w [ inl e ↦ cc | inr e ↦ ground arith ]
    | IsToolPolicy.in_file path j t e f a b r ↦
        let q : c ∷ cs ≡ path = ground arith in
        (load_tool_policy_iff load (c ∷ cs) p).1 (j, t, ap load q ∙ a, b, r)
  ],
)
