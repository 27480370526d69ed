-- ===== src/JsonRpc/Segments.antt =====
-- What it is for a method name to have a path segment that is empty, `.` or `..`, said without splitting
-- the name; src/mcp_gateway/app.py, `_parse_jsonrpc`, refuses such a name.
use mcp_auth_gateway.Prelude.{
  ℕ, Str, true, false, ◌≡◌, refl, ap, ◌∙◌, arith, List, [], ◌∷◌, ◌++◌, ◌==◌, codes, eq_str, split,
  Bool-cases, inl, inr, extend,
}
use mcp_auth_gateway.JsonRpc.{any_relative}

pub data Relative : Str → Type 0 where
  empty : Relative []
  dot : Relative (codes ".")
  dots : Relative (codes "..")

-- A segment ends where the name ends, or at a slash.
pub data IsEnd : Str → Type 0 where
  name_end : IsEnd []
  slash : (rest : Str) → IsEnd (b'/' ∷ rest)

-- It begins where the name begins, or behind a slash.
pub data HasRelative (method : Str) : Type 0 where
  first :
      (seg after : Str) → Relative seg → IsEnd after → method ≡ seg ++ after → HasRelative method
  later :
      (before seg after : Str)
      → Relative seg
      → IsEnd after
      → method ≡ before ++ (b'/' ∷ (seg ++ after))
      → HasRelative method

extend-extend :
    (a b : ℕ) (xs ys : List Str) → extend a (extend b xs ++ ys) ≡ extend a (extend b xs) ++ ys
extend-extend a b [] ys = refl
extend-extend a b (x ∷ xs) ys = refl

extend-append :
    (a : ℕ) (s : Str) (ys : List Str)
    → extend a (split b'/' s ++ ys) ≡ extend a (split b'/' s) ++ ys
unfolding split
extend-append a [] ys = refl
extend-append a (b ∷ s) ys = elim (Bool-cases (b == b'/')) [
  | inl e ↦ rw e refl
  | inr e ↦ rw e (extend-extend a b (split b'/' s) ys)
]

split-slash :
    (before rest : Str)
    → split b'/' (before ++ (b'/' ∷ rest)) ≡ split b'/' before ++ split b'/' rest
unfolding split
split-slash [] rest = refl
split-slash (a ∷ before) rest = elim (Bool-cases (a == b'/')) [
  | inl e ↦ rw e (ap (λ xs. [] ∷ xs) (split-slash before rest))
  | inr e ↦
      rw e (ap (extend a) (split-slash before rest) ∙ extend-append a before (split b'/' rest))
]

any_relative-append : (xs ys : List Str) → any_relative ys ≡ true → any_relative (xs ++ ys) ≡ true
unfolding any_relative
any_relative-append [] ys h = h
any_relative-append (x ∷ xs) ys h = ground (arith, any_relative-append xs ys h)

first_refused :
    (seg after : Str) → Relative seg → IsEnd after → any_relative (split b'/' (seg ++ after)) ≡ true
unfolding any_relative split eq_str
first_refused _ _ Relative.empty IsEnd.name_end = refl
first_refused _ _ Relative.empty (IsEnd.slash rest) = refl
first_refused _ _ Relative.dot IsEnd.name_end = refl
first_refused _ _ Relative.dot (IsEnd.slash rest) = refl
first_refused _ _ Relative.dots IsEnd.name_end = refl
first_refused _ _ Relative.dots (IsEnd.slash rest) = refl

HasRelative-any_relative :
    (method : Str) → HasRelative method → any_relative (split b'/' method) ≡ true
HasRelative-any_relative method (HasRelative.first seg after r e q) =
    ap (λ s. any_relative (split b'/' s)) q ∙ first_refused seg after r e
HasRelative-any_relative method (HasRelative.later before seg after r e q) =
    ap (λ s. any_relative (split b'/' s)) q
    ∙ ap any_relative (split-slash before (seg ++ after))
    ∙ any_relative-append (split b'/' before) (split b'/' (seg ++ after))
        (first_refused seg after r e)

-- A name that the test of `_parse_jsonrpc` lets pass has no such segment.
pub HasRelative-refused :
    (method : Str) → any_relative (split b'/' method) ≡ false → HasRelative method → ⊥
HasRelative-refused method f x = cc (HasRelative-any_relative method x)
