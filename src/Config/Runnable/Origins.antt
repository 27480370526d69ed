-- ===== src/Config/Runnable/Origins.antt =====
-- src/mcp_gateway/config.py, `validate_runtime`: the tests on the origins and the public URL.
use mcp_auth_gateway.Prelude.{
  Str, true, false, ◌≡◌, ◌↔◌, ◌⊎◌, inl, inr, refl, sym, ap, ◌∙◌, arith, Option, none, some, List,
  [], ◌∷◌, ◌++◌, codes, eq_str, eq_str_iff, starts_with, drop, length, Bool-cases,
}
use mcp_auth_gateway.App.Messages.{normalize_origin}
use mcp_auth_gateway.Config.{
  has_http_scheme, after_first, has_char, origin_problem, origin_problems, base_url_problems,
}
use mcp_auth_gateway.Config.Runnable.Outcomes.{append-empty_iff}

starts_with-append : (v p : Str) → starts_with v p ≡ true → v ≡ p ++ drop (length p) v
unfolding starts_with
starts_with-append v [] h = refl
starts_with-append [] (c ∷ p) h = cc
starts_with-append (a ∷ v) (c ∷ p) h = ground (arith, starts_with-append v p)

-- An origin that is opaque, or a scheme with what has no slash in it.
pub data IsOrigin (o : Str) : Type 0 where
  opaque : normalize_origin o ≡ codes "null" → IsOrigin o
  http :
      (rest : Str)
      → normalize_origin o ≡ codes "http://" ++ rest
      → has_char b'/' rest ≡ false
      → IsOrigin o
  https :
      (rest : Str)
      → normalize_origin o ≡ codes "https://" ++ rest
      → has_char b'/' rest ≡ false
      → IsOrigin o

after_http : (r : Str) → after_first (codes "://") (codes "http://" ++ r) ≡ r
unfolding after_first starts_with
after_http r = refl

after_https : (r : Str) → after_first (codes "://") (codes "https://" ++ r) ≡ r
unfolding after_first starts_with
after_https r = refl

-- the tests of the loop on a normalized origin
scheme-IsOrigin :
    (o v : Str)
    → normalize_origin o ≡ v
    → has_http_scheme v ≡ true
    → has_char b'/' (after_first (codes "://") v) ≡ false
    → IsOrigin o
scheme-IsOrigin o v e t h = elim (Bool-cases (starts_with v (codes "http://"))) [
  | inl a ↦
      let q = starts_with-append v (codes "http://") a in
      IsOrigin.http (drop 7 v) (e ∙ q) (
        ap (has_char b'/') (sym (after_http (drop 7 v)) ∙ ap (after_first (codes "://")) (sym q))
        ∙ h)
  | inr b ↦
      let q = starts_with-append v (codes "https://") (ground arith) in
      IsOrigin.https (drop 8 v) (e ∙ q) (
        ap (has_char b'/') (sym (after_https (drop 8 v)) ∙ ap (after_first (codes "://")) (sym q))
        ∙ h)
]

-- the tests, by cases of their outcomes
origin_problem-IsOrigin : (o : Str) → origin_problem o ≡ [] → IsOrigin o
unfolding origin_problem
origin_problem-IsOrigin o h = elim (Bool-cases (eq_str (normalize_origin o) (codes "null"))) [
  | inl n ↦ IsOrigin.opaque ((eq_str_iff (normalize_origin o) (codes "null")).0 n)
  | inr n ↦ scheme-IsOrigin o (normalize_origin o) refl (ground arith) (ground arith)
]

scheme_is_no_null :
    (v r : Str)
    → (v ≡ codes "http://" ++ r) ⊎ (v ≡ codes "https://" ++ r)
    → has_http_scheme v ≡ true
unfolding starts_with
scheme_is_no_null v r (inl e) = rw e refl
scheme_is_no_null v r (inr e) = rw e refl

IsOrigin-origin_problem : (o : Str) → IsOrigin o → origin_problem o ≡ []
unfolding origin_problem
IsOrigin-origin_problem o (IsOrigin.opaque e) =
    ground (arith, (eq_str_iff (normalize_origin o) (codes "null")).1 e)
IsOrigin-origin_problem o (IsOrigin.http r e h) = ground (
  arith,
  scheme_is_no_null (normalize_origin o) r (inl e),
  ap (λ v. has_char b'/' (after_first (codes "://") v)) e ∙ ap (has_char b'/') (after_http r),
)
IsOrigin-origin_problem o (IsOrigin.https r e h) = ground (
  arith,
  scheme_is_no_null (normalize_origin o) r (inr e),
  ap (λ v. has_char b'/' (after_first (codes "://") v)) e ∙ ap (has_char b'/') (after_https r),
)

abbrev pub AllOrigins : List Str → Type 0
AllOrigins [] = Unit
AllOrigins (o ∷ origins) = IsOrigin o × AllOrigins origins

pub origin_problems-AllOrigins_iff :
    (origins : List Str) → (origin_problems origins ≡ []) ↔ AllOrigins origins
unfolding origin_problems
origin_problems-AllOrigins_iff [] = (λ h. tt, λ h. refl)
origin_problems-AllOrigins_iff (o ∷ origins) = (
  λ h.
      let (a, b) = (append-empty_iff (origin_problem o) (origin_problems origins)).0 h in
      (origin_problem-IsOrigin o a, (origin_problems-AllOrigins_iff origins).0 b),
  λ (a, b).
      (append-empty_iff (origin_problem o) (origin_problems origins)).1
        (IsOrigin-origin_problem o a, (origin_problems-AllOrigins_iff origins).1 b),
)

-- A public URL that is not given, is empty, or has a scheme of the web.
pub data IsBaseUrl (o : Option Str) : Type 0 where
  unset : o ≡ none → IsBaseUrl o
  blank : o ≡ some [] → IsBaseUrl o
  with_scheme : (url : Str) → o ≡ some url → has_http_scheme url ≡ true → IsBaseUrl o

pub base_url_problems-IsBaseUrl_iff : (o : Option Str) → (base_url_problems o ≡ []) ↔ IsBaseUrl o
unfolding base_url_problems
base_url_problems-IsBaseUrl_iff none = (λ h. IsBaseUrl.unset refl, λ h. refl)
base_url_problems-IsBaseUrl_iff (some []) = (λ h. IsBaseUrl.blank refl, λ h. refl)
base_url_problems-IsBaseUrl_iff (some (c ∷ url)) = (
  λ h. IsBaseUrl.with_scheme (c ∷ url) refl (ground arith),
  λ h. elim h [
    | IsBaseUrl.unset e ↦ cc
    | IsBaseUrl.blank e ↦ cc
    | IsBaseUrl.with_scheme q e t ↦ ground arith
  ],
)
