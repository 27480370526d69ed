-- ===== src/Json/Print/Bytes.antt =====
-- UTF-8 can be read back: no two texts are encoded alike.
use mcp_auth_gateway.Prelude.{
  ℕ, ◌+◌, ◌-◌, ◌*◌, ◌/◌, ◌%◌, Str, Bool, true, false, ◌≡◌, ◌≢◌, refl, sym, ap, ◌∙◌, arith, Option,
  none, some, List, [], ◌∷◌, ◌++◌, ltb, if◌then◌else◌,
}
use mcp_auth_gateway.Json.Print.{is_surrogate, encode_char, then_encode, encode}
use mcp_auth_gateway.Json.Print.Chars.{pair_of}

abbrev read2 : List ℕ → Option (ℕ × List ℕ)
read2 (a ∷ b ∷ s) = some ((a - 0xc0) * 64 + (b - 0x80), s)
read2 _ = none

abbrev read3 : List ℕ → Option (ℕ × List ℕ)
read3 (a ∷ b ∷ c ∷ s) = some ((a - 0xe0) * 4096 + ((b - 0x80) * 64 + (c - 0x80)), s)
read3 _ = none

abbrev read4 : List ℕ → Option (ℕ × List ℕ)
read4 (a ∷ b ∷ c ∷ d ∷ s) =
    some ((a - 0xf0) * 262144 + ((b - 0x80) * 4096 + ((c - 0x80) * 64 + (d - 0x80))), s)
read4 _ = none

-- What a reader of UTF-8 takes for the first character, and the rest.
abbrev read_bytes : List ℕ → Option (ℕ × List ℕ)
read_bytes [] = none
read_bytes (a ∷ s) =
    if ltb a 0x80
    then some (a, s)
    else if ltb a 0xe0
    then read2 (a ∷ s)
    else if ltb a 0xf0
    then read3 (a ∷ s)
    else read4 (a ∷ s)

-- An encoding that a reader takes for a character.
abbrev ReadsAs : ℕ → Option (List ℕ) → Type 0
ReadsAs c none = Unit
ReadsAs c (some x) = (r : List ℕ) → read_bytes (x ++ r) ≡ some (c, r)

if-ReadsAs :
    (b : Bool) (x y : Option (List ℕ)) (c : ℕ)
    → (b ≡ true → ReadsAs c x)
    → (b ≡ false → ReadsAs c y)
    → ReadsAs c (if b then x else y)
if-ReadsAs true x y c h k = h refl
if-ReadsAs false x y c h k = k refl

read-two :
    (c : ℕ) (r : List ℕ)
    → ltb c 0x80 ≡ false
    → ltb c 0x800 ≡ true
    → read_bytes ((0xc0 + c / 64) ∷ (0x80 + c % 64) ∷ r) ≡ some (c, r)
read-two c r h k =
    let a : ltb (0xc0 + c / 64) 0x80 ≡ false = ground arith in
    let b : ltb (0xc0 + c / 64) 0xe0 ≡ true = ground arith in
    rw (a, b) (ap (λ n. some (n, r)) (omega arith))

read-three :
    (c : ℕ) (r : List ℕ)
    → ltb c 0x10000 ≡ true
    → read_bytes ((0xe0 + c / 4096) ∷ (0x80 + c / 64 % 64) ∷ (0x80 + c % 64) ∷ r) ≡ some (c, r)
read-three c r h =
    let a : ltb (0xe0 + c / 4096) 0x80 ≡ false = ground arith in
    let b : ltb (0xe0 + c / 4096) 0xe0 ≡ false = ground arith in
    let d : ltb (0xe0 + c / 4096) 0xf0 ≡ true = ground arith in
    rw (a, b, d) (ap (λ n. some (n, r)) (omega arith))

read-four :
    (c : ℕ) (r : List ℕ)
    → read_bytes
        ((0xf0 + c / 262144) ∷ (0x80 + c / 4096 % 64) ∷ (0x80 + c / 64 % 64) ∷ (0x80 + c % 64) ∷ r)
      ≡ some (c, r)
read-four c r =
    let a : ltb (0xf0 + c / 262144) 0x80 ≡ false = ground arith in
    let b : ltb (0xf0 + c / 262144) 0xe0 ≡ false = ground arith in
    let d : ltb (0xf0 + c / 262144) 0xf0 ≡ false = ground arith in
    rw (a, b, d) (ap (λ n. some (n, r)) (omega arith))

encode_char-ReadsAs : (c : ℕ) → ReadsAs c (encode_char c)
unfolding encode_char
encode_char-ReadsAs c =
    if-ReadsAs (ltb c 0x80) _ _ c (λ a r. rw a refl)
      (λ a.
        if-ReadsAs (ltb c 0x800) _ _ c (λ b r. read-two c r a b)
          (λ b.
            if-ReadsAs (is_surrogate c) _ _ c (λ d. tt)
              (λ d.
                if-ReadsAs (ltb c 0x10000) _ _ c (λ e r. read-three c r e) (λ e r. read-four c r))))

-- The encoding of a text is that of its first character before that of the rest.
then_encode-some :
    (x y : Option (List ℕ)) (b : List ℕ)
    → then_encode x y ≡ some b
    → (p q : List ℕ) × (x ≡ some p) × (y ≡ some q) × (p ++ q ≡ b)
then_encode-some none y b h = cc
then_encode-some (some p) none b h = cc
then_encode-some (some p) (some q) b h = (p, q, refl, refl, ground arith)

reads_as : (c : ℕ) (p q : List ℕ) → encode_char c ≡ some p → read_bytes (p ++ q) ≡ some (c, q)
reads_as c p q e = go (encode_char c) (encode_char-ReadsAs c) e
  where
    go : (o : Option (List ℕ)) → ReadsAs c o → o ≡ some p → read_bytes (p ++ q) ≡ some (c, q)
    go none h e = cc
    go (some x) h e = let f : x ≡ p = ground arith in ap (λ y. read_bytes (y ++ q)) (sym f) ∙ h q

no_bytes : (c : ℕ) (b q : List ℕ) → [] ≡ b → read_bytes b ≢ some (c, q)
no_bytes c [] q e h = cc
no_bytes c (x ∷ b) q e h = cc

-- Two texts that are encoded as the same bytes are the same.
pub encode-injective : (s t : Str) (b : List ℕ) → encode s ≡ some b → encode t ≡ some b → s ≡ t
unfolding encode
encode-injective [] [] b h k = refl
encode-injective [] (d ∷ t) b h k =
    let (p, q, e, f, g) = then_encode-some (encode_char d) (encode t) b k in
    absurd (no_bytes d b q (ground arith) (ap read_bytes (sym g) ∙ reads_as d p q e))
encode-injective (c ∷ s) [] b h k =
    let (p, q, e, f, g) = then_encode-some (encode_char c) (encode s) b h in
    absurd (no_bytes c b q (ground arith) (ap read_bytes (sym g) ∙ reads_as c p q e))
encode-injective (c ∷ s) (d ∷ t) b h k =
    let (p, q, e, f, g) = then_encode-some (encode_char c) (encode s) b h in
    let (u, v, i, j, l) = then_encode-some (encode_char d) (encode t) b k in
    let (m, n) = pair_of (sym (reads_as c p q e) ∙ ap read_bytes (g ∙ sym l) ∙ reads_as d u v i) in
    let o = encode-injective s t q f (j ∙ ap some (sym n)) in cc
