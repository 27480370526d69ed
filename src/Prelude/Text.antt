-- ===== src/Prelude/Text.antt =====
-- Python's `str` as the list of its code points, with the methods that the gateway calls.
-- `bytes` is the list of the bytes.
use Prim.Native.Nat.{◌*◌, ◌-◌, ◌/◌, ◌%◌, ℕ, zero, suc, ◌+◌}
use Prim.Native.Char.{code}
use Prim.Native.String.{String}
use mathlib.Core.Path.{◌≡◌, refl}
use mathlib.Core.Logic.{◌↔◌}
use mathlib.Core.Option.{Option, none, some}
use mathlib.Core.Bool.{not, Bool, true, false, ◌&&◌, ◌||◌}
use mathlib.Core.List.{map, List, [], ◌∷◌, ◌++◌, reverse}
use native.Mathlib.Omega.{arith}
use mcp_auth_gateway.Prelude.Tests.{ltb, leb, ◌==◌, if◌then◌else◌}

abbrev pub Str : Type 0
Str = List ℕ

-- The code points of a literal.
abbrev pub codes : String → Str
codes String.[] = []
codes (String.◌∷◌ c s) = code c ∷ codes s

unfoldable pub eq_str : Str → Str → Bool
eq_str [] [] = true
eq_str (a ∷ s) (b ∷ t) = a == b && eq_str s t
eq_str _ _ = false

pub eq_str_refl : (s : Str) → eq_str s s ≡ true
unfolding eq_str
eq_str_refl [] = refl
eq_str_refl (a ∷ s) = ground (arith, eq_str_refl s)

pub eq_str_iff : (s t : Str) → (eq_str s t ≡ true) ↔ (s ≡ t)
unfolding eq_str
eq_str_iff [] [] = ground arith
eq_str_iff [] (b ∷ t) = ground arith
eq_str_iff (a ∷ s) [] = ground arith
eq_str_iff (a ∷ s) (b ∷ t) = ground (arith, eq_str_iff s t)

module _ {ℓ} {A : Type ℓ} where
  abbrev pub length : List A → ℕ
  length [] = 0
  length (x ∷ xs) = suc (length xs)

  -- `not xs`
  abbrev pub is_empty : List A → Bool
  is_empty [] = true
  is_empty (_ ∷ _) = false

  abbrev pub take : ℕ → List A → List A
  take zero xs = []
  take (suc n) [] = []
  take (suc n) (x ∷ xs) = x ∷ take n xs

  abbrev pub drop : ℕ → List A → List A
  drop zero xs = xs
  drop (suc n) [] = []
  drop (suc n) (x ∷ xs) = drop n xs

  pub length-append : (xs ys : List A) → length (xs ++ ys) ≡ length xs + length ys
  length-append [] ys = omega arith
  length-append (x ∷ xs) ys = omega (arith, length-append xs ys)

-- `s.startswith(p)`
unfoldable pub starts_with : Str → Str → Bool
starts_with s [] = true
starts_with [] (_ ∷ _) = false
starts_with (a ∷ s) (b ∷ p) = a == b && starts_with s p

-- `s.endswith(c)` for one character
unfoldable pub ends_with : ℕ → Str → Bool
ends_with c [] = false
ends_with c (a ∷ []) = a == c
ends_with c (a ∷ b ∷ s) = ends_with c (b ∷ s)

-- Puts a character in front of the first piece.
abbrev pub extend : ℕ → List Str → List Str
extend a [] = (a ∷ []) ∷ []
extend a (p ∷ ps) = (a ∷ p) ∷ ps

-- `s.split(c)` for one character
unfoldable pub split : ℕ → Str → List Str
split c [] = [] ∷ []
split c (a ∷ s) = let rest = split c s in if a == c then [] ∷ rest else extend a rest

-- `c.join(parts)`
unfoldable pub join : Str → List Str → Str
join c [] = []
join c (p ∷ []) = p
join c (p ∷ q ∷ ps) = p ++ (c ++ join c (q ∷ ps))

-- `str.isspace` of one character, the whitespace that `str.strip` removes
abbrev pub is_space : ℕ → Bool
is_space c =
    leb 9 c && leb c 13
    || leb 28 c && leb c 32
    || c == 0x85
    || c == 0xa0
    || c == 0x1680
    || leb 0x2000 c && leb c 0x200a
    || c == 0x2028
    || c == 0x2029
    || c == 0x202f
    || c == 0x205f
    || c == 0x3000

unfoldable pub drop_while : (ℕ → Bool) → Str → Str
drop_while p [] = []
drop_while p (c ∷ s) = let rest = drop_while p s in if p c then rest else c ∷ s

-- `s.rstrip(chars)`, the characters given by their test
unfoldable pub strip_right : (ℕ → Bool) → Str → Str
unfolding drop_while
strip_right p s = reverse (drop_while p (reverse s))

-- `s.strip()`
unfoldable pub strip : Str → Str
unfolding drop_while strip_right
strip s = drop_while is_space (strip_right is_space s)

-- `str(n)`: a number has fewer digits than it counts, so the fuel `n + 1` is enough.
unfoldable pub digits : ℕ → ℕ → Str
digits zero n = []
digits (suc f) n =
    let front = digits f (n / 10) in
    if ltb n 10 then (48 + n) ∷ [] else front ++ ((48 + n % 10) ∷ [])

unfoldable pub decimal : ℕ → Str
unfolding digits
decimal n = digits (suc n) n

-- `str.lower` of one character of Latin-1, the range of a header. Beyond it the map has the four
-- characters whose lower case lies in Latin-1, and leaves all others as they are, so that two texts
-- are compared rightly after it if one of them is a header.
abbrev pub lower_char : ℕ → ℕ
lower_char c =
    if leb 65 c && leb c 90 || leb 0xc0 c && leb c 0xde && not (c == 0xd7)
    then c + 32
    else if c == 0x178
    then 0xff
    else if c == 0x1e9e
    then 0xdf
    else if c == 0x212a
    then 0x6b
    else if c == 0x212b
    then 0xe5
    else c

unfoldable pub lower : Str → Str
lower s = map lower_char s

-- `s.split(c, 1)[0]` for one character
unfoldable pub before : ℕ → Str → Str
before c [] = []
before c (a ∷ s) = let rest = before c s in if a == c then [] else a ∷ rest

abbrev pub is_digit : ℕ → Bool
is_digit c = leb 48 c && leb c 57

unfoldable pub number_from : ℕ → Str → Option ℕ
number_from n [] = some n
number_from n (c ∷ s) =
    let rest = number_from (n * 10 + (c - 48)) s in if is_digit c then rest else none

-- `int(s)` where `s.isdigit()`, for ASCII digits
unfoldable pub digits_value : Str → Option ℕ
unfolding number_from
digits_value [] = none
digits_value (c ∷ s) = number_from 0 (c ∷ s)
