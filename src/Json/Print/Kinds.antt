-- ===== src/Json/Print/Kinds.antt =====
-- The kinds of values, by what `json.dumps` prints first, and the texts of numbers.

use mcp_auth_gateway.Prelude.{
  ℕ, Str, Bool, true, false, ◌&&◌, ◌||◌, not, ◌≡◌, ◌≢◌, refl, sym, ap, ◌∙◌, arith, [], ◌∷◌, ◌++◌,
  ltb, leb, ◌==◌, if◌then◌else◌,
}
use mcp_auth_gateway.Json.{Json, Items, Fields}
use mcp_auth_gateway.Json.Print.{dumps, quote}
use mcp_auth_gateway.Json.Print.Chars.{tail_of}

-- A character of a number: a digit, a sign, a point or an exponent's letter.
abbrev pub is_num_char : ℕ → Bool
is_num_char c =
    leb b'0' c && ltb c b':' || c == b'-' || c == b'+' || c == b'.' || c == b'e' || c == b'E'

unfoldable pub all_num_chars : Str → Bool
all_num_chars [] = true
all_num_chars (c ∷ s) = is_num_char c && all_num_chars s

-- A number begins with a digit or a minus.
abbrev pub is_num_text : Str → Bool
is_num_text [] = false
is_num_text (c ∷ s) = (leb b'0' c && ltb c b':' || c == b'-') && all_num_chars s

-- A value without infinities, whose numbers are printed as numbers.
unfoldable mutual
  pub IsStandard : Json → Type 0
  IsStandard (Json.num n) = is_num_text n ≡ true
  IsStandard (Json.infinite _) = true ≡ false
  IsStandard (Json.arr js) = AllStandard js
  IsStandard (Json.obj fs) = AllMembers fs
  IsStandard _ = Unit

  pub AllStandard : Items → Type 0
  AllStandard Items.nil = Unit
  AllStandard (Items.cons j js) = IsStandard j × AllStandard js

  pub AllMembers : Fields → Type 0
  AllMembers Fields.end = Unit
  AllMembers (Fields.field k v fs) = IsStandard v × AllMembers fs

-- The kind of a value by its first character, and by itself; 7 is none.
abbrev pub kind_of_char : ℕ → ℕ
kind_of_char c =
    if c == b'n'
    then 0
    else if c == b't'
    then 1
    else if c == b'f'
    then 2
    else if c == 34
    then 3
    else if c == b'['
    then 4
    else if c == b'{'
    then 5
    else if leb b'0' c && ltb c b':' || c == b'-'
    then 6
    else 7

abbrev pub first_kind : Str → ℕ
first_kind [] = 7
first_kind (c ∷ s) = kind_of_char c

abbrev pub kind : Json → ℕ
kind Json.null = 0
kind (Json.bool true) = 1
kind (Json.bool false) = 2
kind (Json.num n) = 6
kind (Json.infinite b) = 8
kind (Json.str s) = 3
kind (Json.arr js) = 4
kind (Json.obj fs) = 5

pub first_kind-dumps :
    (j : Json) (r : Str) → IsStandard j → first_kind (dumps false j ++ r) ≡ kind j
unfolding dumps quote IsStandard
first_kind-dumps Json.null r h = refl
first_kind-dumps (Json.bool true) r h = refl
first_kind-dumps (Json.bool false) r h = refl
first_kind-dumps (Json.num []) r h = cc
first_kind-dumps (Json.num (c ∷ n)) r h = ground arith
first_kind-dumps (Json.infinite b) r h = cc
first_kind-dumps (Json.str s) r h = refl
first_kind-dumps (Json.arr js) r h = refl
first_kind-dumps (Json.obj fs) r h = refl

-- Two values that are printed alike are of one kind.
pub kind-eq :
    (j k : Json) (r s : Str)
    → IsStandard j
    → IsStandard k
    → dumps false j ++ r ≡ dumps false k ++ s
    → kind j ≡ kind k
kind-eq j k r s h i e = sym (first_kind-dumps j r h) ∙ ap first_kind e ∙ first_kind-dumps k s i

-- Where a value ends: before no character of a number.
abbrev pub ends : Str → Bool
ends [] = true
ends (c ∷ s) = not (is_num_char c)

num-ends : (c : ℕ) (s : Str) → is_num_char c ≡ true → ends (c ∷ s) ≢ true
num-ends c s h e = ground arith

pub num_text-all : (n : Str) → is_num_text n ≡ true → all_num_chars n ≡ true
unfolding all_num_chars
num_text-all [] h = cc
num_text-all (c ∷ n) h = ground arith

pub num-injective :
    (n m r s : Str)
    → all_num_chars n ≡ true
    → all_num_chars m ≡ true
    → ends r ≡ true
    → ends s ≡ true
    → n ++ r ≡ m ++ s
    → (n ≡ m) × (r ≡ s)
unfolding all_num_chars
num-injective [] [] r s h i p q e = (refl, e)
num-injective [] (d ∷ m) r s h i p q e =
    absurd (num-ends d (m ++ s) (ground arith) (sym (ap ends e) ∙ p))
num-injective (c ∷ n) [] r s h i p q e = absurd (num-ends c (n ++ r) (ground arith) (ap ends e ∙ q))
num-injective (c ∷ n) (d ∷ m) r s h i p q e =
    let (f, g) = num-injective n m r s (ground arith) (ground arith) p q (tail_of e) in (cc, g)

pub kind-not_end : (j : Json) → kind j ≢ 7
kind-not_end (Json.bool true) e = omega arith
kind-not_end (Json.bool false) e = omega arith
kind-not_end _ e = omega arith

-- A value of each kind.
pub is_null : (j : Json) → kind j ≡ 0 → j ≡ Json.null
is_null Json.null e = refl
is_null (Json.bool true) e = absurd (omega arith)
is_null (Json.bool false) e = absurd (omega arith)
is_null _ e = absurd (omega arith)

pub is_true : (j : Json) → kind j ≡ 1 → j ≡ Json.bool true
is_true (Json.bool true) e = refl
is_true (Json.bool false) e = absurd (omega arith)
is_true _ e = absurd (omega arith)

pub is_false : (j : Json) → kind j ≡ 2 → j ≡ Json.bool false
is_false (Json.bool true) e = absurd (omega arith)
is_false (Json.bool false) e = refl
is_false _ e = absurd (omega arith)

pub is_str : (j : Json) → kind j ≡ 3 → (t : Str) × (j ≡ Json.str t)
is_str (Json.str t) e = (t, refl)
is_str (Json.bool true) e = absurd (omega arith)
is_str (Json.bool false) e = absurd (omega arith)
is_str _ e = absurd (omega arith)

pub is_arr : (j : Json) → kind j ≡ 4 → (js : Items) × (j ≡ Json.arr js)
is_arr (Json.arr js) e = (js, refl)
is_arr (Json.bool true) e = absurd (omega arith)
is_arr (Json.bool false) e = absurd (omega arith)
is_arr _ e = absurd (omega arith)

pub is_obj : (j : Json) → kind j ≡ 5 → (fs : Fields) × (j ≡ Json.obj fs)
is_obj (Json.obj fs) e = (fs, refl)
is_obj (Json.bool true) e = absurd (omega arith)
is_obj (Json.bool false) e = absurd (omega arith)
is_obj _ e = absurd (omega arith)

pub is_num : (j : Json) → kind j ≡ 6 → (n : Str) × (j ≡ Json.num n)
is_num (Json.num n) e = (n, refl)
is_num (Json.bool true) e = absurd (omega arith)
is_num (Json.bool false) e = absurd (omega arith)
is_num _ e = absurd (omega arith)
