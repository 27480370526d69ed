-- ===== src/Config/Runnable/Outcomes.antt =====
-- A list of problems that is empty.
use mcp_auth_gateway.Prelude.{Bool, true, false, ◌≡◌, ◌↔◌, refl, arith, List, [], ◌∷◌, ◌++◌}
use mcp_auth_gateway.Config.{Problem, problem_if}

pub append-empty_iff {ℓ} : {A : Type ℓ} (xs ys : List A) → (xs ++ ys ≡ []) ↔ ((xs ≡ []) × (ys ≡ []))
append-empty_iff [] ys = (λ h. (refl, h), λ (a, b). b)
append-empty_iff (x ∷ xs) ys = (λ h. cc, λ (a, b). cc)

pub append_none {ℓ} : {A : Type ℓ} {xs ys : List A} → xs ≡ [] → ys ≡ [] → xs ++ ys ≡ []
append_none {xs = []} e h = h
append_none {xs = x ∷ xs} e h = cc

pub problem_if_iff : (b : Bool) (p : Problem) → (problem_if b p ≡ []) ↔ (b ≡ false)
problem_if_iff b p = (λ h. ground arith, λ h. ground arith)

-- One test before others.
pub split_if :
    (b : Bool) (p : Problem) (ps : List Problem)
    → problem_if b p ++ ps ≡ []
    → (b ≡ false) × (ps ≡ [])
split_if true p ps h = cc
split_if false p ps h = (refl, h)

pub join_if :
    (b : Bool) (p : Problem) (ps : List Problem) → b ≡ false → ps ≡ [] → problem_if b p ++ ps ≡ []
join_if true p ps e h = cc
join_if false p ps e h = h
