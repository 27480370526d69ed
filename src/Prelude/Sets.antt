-- ===== src/Prelude/Sets.antt =====
-- Python's sets and dictionaries of strings as lists, by the operations that the gateway uses.
use Prim.Native.Nat.{compare, Ordering}
use mathlib.Core.Path.{◌≡◌, refl}
use mathlib.Core.Bool.{Bool, true, false, not, ◌&&◌, ◌||◌}
use mathlib.Core.Option.{Option, none, some}
use mathlib.Core.List.{List, [], ◌∷◌}
use mathlib.Core.Logic.{inl, inr}
use mathlib.Core.Logic.{◌⊎◌}
use native.Mathlib.Omega.{arith}
use mcp_auth_gateway.Prelude.Tests.{Bool-cases, if◌then◌else◌}
use mcp_auth_gateway.Prelude.Text.{is_empty, Str, eq_str, eq_str_iff, eq_str_refl}

-- `x in xs`
unfoldable pub elem : Str → List Str → Bool
elem x [] = false
elem x (y ∷ ys) = eq_str x y || elem x ys

-- `xs - ys`
unfoldable pub without : List Str → List Str → List Str
without [] ys = []
without (x ∷ xs) ys = let rest = without xs ys in if elem x ys then rest else x ∷ rest

-- `bool(xs & ys)`
unfoldable pub meets : List Str → List Str → Bool
meets [] ys = false
meets (x ∷ xs) ys = elem x ys || meets xs ys

-- `frozenset(xs)`: each element once
unfoldable pub frozenset : List Str → List Str
frozenset [] = []
frozenset (x ∷ xs) = let rest = frozenset xs in if elem x rest then rest else x ∷ rest

-- The order of `str`, by code points.
unfoldable pub le_str : Str → Str → Bool
le_str [] t = true
le_str (a ∷ s) [] = false
le_str (a ∷ s) (b ∷ t) = elim (compare a b) [
  | Ordering.lt ↦ true
  | Ordering.eq ↦ le_str s t
  | Ordering.gt ↦ false
]

unfoldable pub insert_sorted : Str → List Str → List Str
insert_sorted x [] = x ∷ []
insert_sorted x (y ∷ ys) = if le_str x y then x ∷ y ∷ ys else y ∷ insert_sorted x ys

-- `sorted(xs)`
unfoldable pub sorted : List Str → List Str
unfolding insert_sorted
sorted [] = []
sorted (x ∷ xs) = insert_sorted x (sorted xs)

module _ {ℓ} {V : Type ℓ} where
  -- `d.get(k)`
  unfoldable pub lookup : Str → List (Str × V) → Option V
  lookup k [] = none
  lookup k ((j, v) ∷ d) = if eq_str k j then some v else lookup k d

  -- the keys, in order
  abbrev pub keys : List (Str × V) → List Str
  keys [] = []
  keys ((k, _) ∷ d) = k ∷ keys d

-- Every element of the one set is in the other.
abbrev pub Subset : List Str → List Str → Type 0
Subset xs ys = (x : Str) → elem x xs ≡ true → elem x ys ≡ true

-- A set difference holds what is in the first set and not in the second.
pub elem-without :
    (x : Str) (xs ys : List Str) → elem x (without xs ys) ≡ elem x xs && not (elem x ys)
unfolding elem without
elem-without x [] ys = refl
elem-without x (y ∷ xs) ys = ground (arith, elem-without x xs ys, eq_str_iff x y)

-- A set difference is empty exactly when the first set lies in the second.
pub without-empty→Subset : (xs ys : List Str) → without xs ys ≡ [] → Subset xs ys
unfolding elem without
without-empty→Subset [] ys h x m = cc
without-empty→Subset (y ∷ xs) ys h x m =
    ground (arith, without-empty→Subset xs ys (ground arith) x, eq_str_iff x y)

pub Subset→without-empty : (xs ys : List Str) → Subset xs ys → without xs ys ≡ []
unfolding elem without
Subset→without-empty [] ys h = refl
Subset→without-empty (x ∷ xs) ys h =
    ground (arith, Subset→without-empty xs ys (λ z m. h z (ground arith)), h x, eq_str_refl x)

pub elem-insert_sorted :
    (x y : Str) (ys : List Str) → elem x (insert_sorted y ys) ≡ eq_str x y || elem x ys
unfolding elem insert_sorted
elem-insert_sorted x y [] = refl
elem-insert_sorted x y (z ∷ ys) = ground (arith, elem-insert_sorted x y ys)

-- Sorting keeps the elements.
pub elem-sorted : (x : Str) (xs : List Str) → elem x (sorted xs) ≡ elem x xs
unfolding sorted elem
elem-sorted x [] = refl
elem-sorted x (y ∷ ys) = ground (arith, elem-insert_sorted x y (sorted ys), elem-sorted x ys)

-- So does taking the set of a list.
pub elem-frozenset : (x : Str) (xs : List Str) → elem x (frozenset xs) ≡ elem x xs
unfolding frozenset elem
elem-frozenset x [] = refl
elem-frozenset x (y ∷ ys) = ground (arith, elem-frozenset x ys, eq_str_iff x y)

-- Two sets meet exactly when they have an element in common.
pub meets→common :
    (xs ys : List Str) → meets xs ys ≡ true → (x : Str) × (elem x xs ≡ true) × (elem x ys ≡ true)
unfolding meets elem
meets→common [] ys h = cc
meets→common (x ∷ xs) ys h = elim (Bool-cases (elem x ys)) [
  | inl here ↦ (x, ground (arith, eq_str_refl x), here)
  | inr there ↦ let (z, m, n) = meets→common xs ys (ground arith) in (z, ground arith, n)
]

pub common→meets :
    (x : Str) (xs ys : List Str) → elem x xs ≡ true → elem x ys ≡ true → meets xs ys ≡ true
unfolding meets elem
common→meets x [] ys h k = cc
common→meets x (y ∷ xs) ys h k = ground (arith, common→meets x xs ys, eq_str_iff x y)

-- `x` is one of the elements of a list.
abbrev pub Member : {A : Type 0} → A → List A → Type 0
Member x [] = ⊥
Member x (y ∷ ys) = (x ≡ y) ⊎ Member x ys

insert_sorted-nonempty : (x : Str) (ys : List Str) → is_empty (insert_sorted x ys) ≡ false
unfolding insert_sorted
insert_sorted-nonempty x [] = refl
insert_sorted-nonempty x (y ∷ ys) = ground arith

pub is_empty-sorted : (xs : List Str) → is_empty (sorted xs) ≡ is_empty xs
unfolding sorted
is_empty-sorted [] = refl
is_empty-sorted (x ∷ xs) = insert_sorted-nonempty x (sorted xs)
