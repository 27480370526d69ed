-- ===== src/Config/Runnable/Keys.antt =====
-- src/mcp_gateway/config.py, `validate_runtime`: the tests on the algorithms, the key endpoint and the
-- policy files. Each group finds no problem exactly if the settings have the property that it is about.
use mcp_auth_gateway.Prelude.{
  Str, Bool, true, false, ◌≡◌, ◌↔◌, inl, inr, refl, arith, Option, none, some, List, [], ◌∷◌, codes,
  is_empty, eq_str_iff, Bool-cases,
}
use mcp_auth_gateway.Verifier.{is_asymmetric}
use mcp_auth_gateway.Config.{
  HttpUrl, Settings, Problem, symmetric_ones, algorithm_problems, is_https, is_loopback,
  jwks_problems, endpoint_problems, file_problems,
}

abbrev pub AllAsymmetric : List Str → Type 0
AllAsymmetric [] = Unit
AllAsymmetric (a ∷ algs) = (is_asymmetric a ≡ true) × AllAsymmetric algs

symmetric_ones_iff :
    (algs : List Str) → (is_empty (symmetric_ones algs) ≡ true) ↔ AllAsymmetric algs
unfolding symmetric_ones
symmetric_ones_iff [] = (λ h. tt, λ h. refl)
symmetric_ones_iff (a ∷ algs) = elim (Bool-cases (is_asymmetric a)) [
  | inl t ↦ (
    λ h. (t, (symmetric_ones_iff algs).0 (ground arith)),
    λ (e, h). ground (arith, (symmetric_ones_iff algs).1 h),
  )
  | inr f ↦ (λ h. ground arith, λ (e, h). cc)
]

pub algorithm_problems-AllAsymmetric_iff :
    (algs : List Str)
    → (algorithm_problems algs ≡ []) ↔ ((is_empty algs ≡ false) × AllAsymmetric algs)
unfolding algorithm_problems
algorithm_problems-AllAsymmetric_iff [] = (λ h. cc, λ (e, h). cc)
algorithm_problems-AllAsymmetric_iff (a ∷ algs) = (
  λ h. (refl, (symmetric_ones_iff (a ∷ algs)).0 (ground arith)),
  λ (e, h). ground (arith, (symmetric_ones_iff (a ∷ algs)).1 h),
)

-- Where the keys are fetched from: nowhere, over https, or, if that is allowed, from this machine.
pub data IsEndpoint (s : Settings) : Type 0 where
  auth_off : s.require_auth ≡ false → IsEndpoint s
  secure : (u : HttpUrl) → s.jwks_url ≡ some u → u.scheme ≡ codes "https" → IsEndpoint s
  loopback :
      (u : HttpUrl)
      → s.jwks_url ≡ some u
      → s.allow_insecure_jwks ≡ true
      → is_loopback u.host ≡ true
      → IsEndpoint s

jwks_problems-IsEndpoint :
    (s : Settings) (o : Option HttpUrl)
    → s.jwks_url ≡ o
    → jwks_problems s.allow_insecure_jwks o ≡ []
    → IsEndpoint s
unfolding jwks_problems
jwks_problems-IsEndpoint s none e h = cc
jwks_problems-IsEndpoint s (some u) e h = elim (Bool-cases (is_https u)) [
  | inl t ↦ IsEndpoint.secure u e ((eq_str_iff u.scheme (codes "https")).0 t)
  | inr f ↦ IsEndpoint.loopback u e (ground arith) (ground arith)
]

pub endpoint_problems-IsEndpoint_iff : (s : Settings) → (endpoint_problems s ≡ []) ↔ IsEndpoint s
unfolding endpoint_problems jwks_problems
endpoint_problems-IsEndpoint_iff s = (
  λ h. elim (Bool-cases s.require_auth) [
    | inl t ↦ jwks_problems-IsEndpoint s s.jwks_url refl (ground arith)
    | inr f ↦ IsEndpoint.auth_off f
  ],
  λ h. elim h [
    | IsEndpoint.auth_off f ↦ ground arith
    | IsEndpoint.secure u e q ↦ ground (arith, (eq_str_iff u.scheme (codes "https")).1 q)
    | IsEndpoint.loopback u e a l ↦ ground arith
  ],
)

-- A path that is not given, is empty, or is a file's.
pub data IsFile (is_file : Str → Bool) (o : Option Str) : Type 0 where
  unset : o ≡ none → IsFile is_file o
  blank : o ≡ some [] → IsFile is_file o
  present : (path : Str) → o ≡ some path → is_file path ≡ true → IsFile is_file o

pub file_problems-IsFile_iff :
    (is_file : Str → Bool) (p : Str → Problem) (o : Option Str)
    → (file_problems is_file p o ≡ []) ↔ IsFile is_file o
unfolding file_problems
file_problems-IsFile_iff is_file p none = (λ h. IsFile.unset refl, λ h. refl)
file_problems-IsFile_iff is_file p (some []) = (λ h. IsFile.blank refl, λ h. refl)
file_problems-IsFile_iff is_file p (some (c ∷ path)) = (
  λ h. IsFile.present (c ∷ path) refl (ground arith),
  λ h. elim h [ IsFile.unset e ↦ cc | IsFile.blank e ↦ cc | IsFile.present q e t ↦ ground arith ],
)
