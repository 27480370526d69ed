-- ===== src/Policy/Scopes.antt =====
-- What `check` decides: a caller passes exactly when it holds every scope that its method demands.
use mcp_auth_gateway.Prelude.{
  Str, true, false, ◌&&◌, not, ◌≡◌, ◌↔◌, refl, sym, ◌∙◌, ap, none, some, List, [], ◌∷◌, arith, elem,
  is_empty, Subset, without, frozenset, without-empty→Subset, Subset→without-empty, elem-without,
  elem-sorted, elem-frozenset, Bool-cases, Option-cases, ◌⊎◌, inl, inr,
}
use mcp_auth_gateway.Policy.{
  ScopePolicy, ScopeDecision, no_policy, missing_scopes, match, judge, check,
}
use mcp_auth_gateway.Policy.Match.{Resolves, match_iff}

-- The scopes that the policy demands for a method: those of its rule, or the default where no rule
-- matches, unless `deny_by_default` is set and the default is empty.
pub data Demands (p : ScopePolicy) (method : Str) (r : List Str) : Type 0 where
  by_rule : Resolves p method (some r) → Demands p method r
  by_default :
      Resolves p method none
      → (p.deny_by_default && is_empty p.default) ≡ false
      → r ≡ p.default
      → Demands p method r

empty_of : {A : Type 0} (xs : List A) → is_empty xs ≡ true → xs ≡ []
empty_of [] h = refl
empty_of (x ∷ xs) h = cc

judge_allowed_iff :
    (required held : List Str) → ((judge required held).allowed ≡ true) ↔ Subset required held
unfolding judge
judge_allowed_iff required held = (
  λ h. without-empty→Subset required held (empty_of (without required held) (ground arith)),
  λ h. rw (Subset→without-empty required held h) refl,
)

Subset-frozenset : (r held : List Str) → Subset r (frozenset held) ↔ Subset r held
Subset-frozenset r held =
    (λ h x m. sym (elem-frozenset x held) ∙ h x m, λ h x m. elem-frozenset x held ∙ h x m)

judge_held : (r held : List Str) → ((judge r (frozenset held)).allowed ≡ true) ↔ Subset r held
judge_held r held = (
  λ h. (Subset-frozenset r held).0 ((judge_allowed_iff r (frozenset held)).0 h),
  λ h. (judge_allowed_iff r (frozenset held)).1 ((Subset-frozenset r held).1 h),
)

-- `check` by cases on the rule and on the fallback.
check_rule :
    (p : ScopePolicy) (method : Str) (held r : List Str)
    → match p method ≡ some r
    → check p method held ≡ judge r (frozenset held)
unfolding check
check_rule p method held r e = ground arith

check_default :
    (p : ScopePolicy) (method : Str) (held : List Str)
    → match p method ≡ none
    → (p.deny_by_default && is_empty p.default) ≡ false
    → check p method held ≡ judge p.default (frozenset held)
unfolding check
check_default p method held e d = ground arith

check_denied :
    (p : ScopePolicy) (method : Str) (held : List Str)
    → match p method ≡ none
    → (p.deny_by_default && is_empty p.default) ≡ true
    → check p method held ≡ record { allowed = false; required = []; reason = no_policy method }
unfolding check
check_denied p method held e d = ground arith

-- The demanded scopes are those that `check` judges by.
Demands-judge :
    (p : ScopePolicy) (method : Str) (held r : List Str)
    → Demands p method r
    → check p method held ≡ judge r (frozenset held)
Demands-judge p method held r (Demands.by_rule h) =
    check_rule p method held r ((match_iff p method (some r)).1 h)
Demands-judge p method held r (Demands.by_default h d e) =
    check_default p method held ((match_iff p method none).1 h) d
    ∙ ap (λ (s : List Str). judge s (frozenset held)) (sym e)

-- Either the policy demands some scopes or it denies the method outright.
Demands-cases :
    (p : ScopePolicy) (method : Str)
    → ((r : List Str) × Demands p method r)
      ⊎ ((match p method ≡ none) × ((p.deny_by_default && is_empty p.default) ≡ true))
Demands-cases p method = elim (Option-cases (match p method)) [
  | inr (r, e) ↦ inl (r, Demands.by_rule ((match_iff p method (some r)).0 e))
  | inl e ↦ elim (Bool-cases (p.deny_by_default && is_empty p.default)) [
    | inl d ↦ inr (e, d)
    | inr d ↦ inl (p.default, Demands.by_default ((match_iff p method none).0 e) d refl)
  ]
]

-- `check` allows a call exactly when the policy demands some scopes for its method, none of them perhaps,
-- and the caller holds all of them. The demanded scopes are those of the rule that resolves the method.
-- Where no rule does, they are the policy's default scopes, also under `deny_by_default`: a caller that
-- holds these is allowed, and one is allowed with no scope at all if the default is empty and
-- `deny_by_default` is off. Only if the default is empty and `deny_by_default` is on, nothing is demanded
-- and the call is denied outright.
pub check_allowed_iff :
    (p : ScopePolicy) (method : Str) (held : List Str)
    → ((check p method held).allowed ≡ true) ↔ ((r : List Str) × Demands p method r × Subset r held)
check_allowed_iff p method held = (
  λ h. elim (Demands-cases p method) [
    | inl (r, d) ↦ (
      r,
      d,
      (judge_held r held).0
          (sym (ap (λ (c : ScopeDecision). c.allowed) (Demands-judge p method held r d)) ∙ h),
    )
    | inr (e, d) ↦ cc (check_denied p method held e d)
  ],
  λ (r, d, s). rw (Demands-judge p method held r d) ((judge_held r held).1 s),
)

-- A caller that holds more scopes is never refused what one that holds fewer is allowed.
pub check_mono :
    (p : ScopePolicy) (method : Str) (held more : List Str)
    → Subset held more
    → (check p method held).allowed ≡ true
    → (check p method more).allowed ≡ true
check_mono p method held more s h =
    let (r, d, inside) = (check_allowed_iff p method held).0 h in
    (check_allowed_iff p method more).1 (r, d, λ x m. s x (inside x m))

judge-missing :
    (r held missing : List Str)
    → (judge r held).reason ≡ missing_scopes missing
    → (x : Str) → elem x missing ≡ (elem x r && not (elem x held))
unfolding judge
judge-missing r held missing h x =
    ground (arith, elem-sorted x (without r held), elem-without x r held)

-- A refusal that names scopes names exactly those that are demanded and not held.
pub check_missing_exact :
    (p : ScopePolicy) (method : Str) (held missing r : List Str)
    → Demands p method r
    → (check p method held).reason ≡ missing_scopes missing
    → (x : Str) → elem x missing ≡ (elem x r && not (elem x held))
check_missing_exact p method held missing r d h x =
    judge-missing r (frozenset held) missing
      (sym (ap (λ (c : ScopeDecision). c.reason) (Demands-judge p method held r d)) ∙ h) x
    ∙ ap (λ b. elem x r && not b) (elem-frozenset x held)
