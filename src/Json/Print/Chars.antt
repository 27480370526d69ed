-- ===== src/Json/Print/Chars.antt =====
-- A printed text can be read back: no two texts are printed alike where characters beyond ASCII stand
-- for themselves.
use mathlib.Core.List.{append_assoc}
use mcp_auth_gateway.Prelude.{
  ℕ, ◌+◌, ◌-◌, ◌*◌, Str, Bool, true, false, ◌≡◌, ◌≢◌, refl, sym, ap, ◌∙◌, arith, Option, none, some,
  [], ◌∷◌, ◌++◌, ltb, ◌==◌, if◌then◌else◌,
}
use mcp_auth_gateway.Json.Print.{quote, escape, escape_all, unicode_escape}

abbrev hex_value : ℕ → ℕ
hex_value d = if ltb d 58 then d - 48 else d - 87

abbrev short : ℕ → ℕ
short m =
    if m == b'n'
    then 10
    else if m == b'r'
    then 13
    else if m == b't'
    then 9
    else if m == b'f'
    then 12
    else if m == b'b'
    then 8
    else m

abbrev read_unicode : Str → Option (ℕ × Str)
read_unicode (a ∷ b ∷ c ∷ d ∷ s) =
    some (hex_value a * 4096 + (hex_value b * 256 + (hex_value c * 16 + hex_value d)), s)
read_unicode _ = none

abbrev read_escape : Str → Option (ℕ × Str)
read_escape [] = none
read_escape (m ∷ s) = if m == b'u' then read_unicode s else some (short m, s)

-- What a reader of a text takes for its first character, and the rest.
abbrev read_char : Str → Option (ℕ × Str)
read_char [] = none
read_char (c ∷ s) = if c == 92 then read_escape s else some (c, s)

if-read :
    (b : Bool) (x y r : Str) (c : ℕ)
    → (b ≡ true → read_char (x ++ r) ≡ some (c, r))
    → (b ≡ false → read_char (y ++ r) ≡ some (c, r))
    → read_char ((if b then x else y) ++ r) ≡ some (c, r)
if-read true x y r c h k = h refl
if-read false x y r c h k = k refl

read-unicode_escape :
    (c : ℕ) (r : Str) → ltb c 32 ≡ true → read_char (unicode_escape c ++ r) ≡ some (c, r)
read-unicode_escape c r h = ap (λ n. some (n, r)) (ground arith)

read_char-escape : (c : ℕ) (r : Str) → read_char (escape false c ++ r) ≡ some (c, r)
unfolding escape
read_char-escape c r =
    if-read (c == 34) _ _ r c (λ a. ap (λ n. some (n, r)) (ground arith))
      (λ a.
        if-read (c == 92) _ _ r c (λ b. ap (λ n. some (n, r)) (ground arith))
          (λ b.
            if-read (c == 10) _ _ r c (λ d. ap (λ n. some (n, r)) (ground arith))
              (λ d.
                if-read (c == 13) _ _ r c (λ e. ap (λ n. some (n, r)) (ground arith))
                  (λ e.
                    if-read (c == 9) _ _ r c (λ f. ap (λ n. some (n, r)) (ground arith))
                      (λ f.
                        if-read (c == 12) _ _ r c (λ g. ap (λ n. some (n, r)) (ground arith))
                          (λ g.
                            if-read (c == 8) _ _ r c (λ i. ap (λ n. some (n, r)) (ground arith))
                              (λ i.
                                if-read (ltb c 32) _ _ r c (λ j. read-unicode_escape c r j)
                                  (λ j. rw b refl))))))))

pub pair_of :
    {a b : ℕ} {s t : Str}
    → ◌≡◌ {A = Option (ℕ × Str)} (some (a, s)) (some (b, t))
    → (a ≡ b) × (s ≡ t)
pair_of h = (cc, cc)

cons_of : {a b : ℕ} {s t : Str} → a ≡ b → s ≡ t → a ∷ s ≡ b ∷ t
cons_of p q = cc

pub tail_of : {a b : ℕ} {s t : Str} → a ∷ s ≡ b ∷ t → s ≡ t
tail_of h = cc

-- The end of a text is not taken for a character of it.
first-not_quote : (c : ℕ) (r s : Str) → escape false c ++ r ≢ 34 ∷ s
unfolding escape
first-not_quote c r s h = ground arith

escape_all-injective :
    (s t r u : Str)
    → escape_all false s ++ (34 ∷ r) ≡ escape_all false t ++ (34 ∷ u)
    → (s ≡ t) × (r ≡ u)
unfolding escape_all
escape_all-injective [] [] r u h = (refl, ground arith)
escape_all-injective [] (d ∷ t) r u h =
    let q = append_assoc (escape false d) (escape_all false t) (34 ∷ u) in
    absurd (first-not_quote d (escape_all false t ++ (34 ∷ u)) r (sym q ∙ sym h))
escape_all-injective (c ∷ s) [] r u h =
    let q = append_assoc (escape false c) (escape_all false s) (34 ∷ r) in
    absurd (first-not_quote c (escape_all false s ++ (34 ∷ r)) u (sym q ∙ h))
escape_all-injective (c ∷ s) (d ∷ t) r u h =
    let p = append_assoc (escape false c) (escape_all false s) (34 ∷ r) in
    let q = append_assoc (escape false d) (escape_all false t) (34 ∷ u) in
    let a = read_char-escape c (escape_all false s ++ (34 ∷ r)) in
    let b = read_char-escape d (escape_all false t ++ (34 ∷ u)) in
    let (f, g) = pair_of (sym a ∙ ap read_char (sym p ∙ h ∙ q) ∙ b) in
    let (k, l) = escape_all-injective s t r u g in (cons_of f k, l)

pub quote-injective : (s t r u : Str) → quote false s ++ r ≡ quote false t ++ u → (s ≡ t) × (r ≡ u)
unfolding quote
quote-injective s t r u h =
    let p = append_assoc (escape_all false s) (34 ∷ []) r in
    let q = append_assoc (escape_all false t) (34 ∷ []) u in
    escape_all-injective s t r u (sym p ∙ tail_of h ∙ q)
