-- ===== src/Pkce/Query.antt =====
-- src/mcp_gateway/pkce.py: the query of the authorization URL, and a reader of it.
use mcp_auth_gateway.Prelude.{
  ℕ, zero, suc, ◌+◌, ◌-◌, ◌*◌, ◌/◌, ◌%◌, ◌≤◌, Str, Bool, true, ◌&&◌, not, ◌≡◌, refl, ap, ◌∙◌, arith,
  Option, none, some, List, [], ◌∷◌, ◌++◌, length, ltb, ◌==◌, split, before, choose, if◌then◌else◌,
}
use mcp_auth_gateway.Pkce.{is_unreserved, upper_hex, quote_bytes}
use mcp_auth_gateway.Pkce.Compliant.{AllBytes}

abbrev unhex : ℕ → ℕ
unhex c = if ltb c 58 then c - 48 else c - 55

abbrev read_hex : Str → Option (ℕ × Str)
read_hex (a ∷ b ∷ s) = some (unhex a * 16 + unhex b, s)
read_hex _ = none

-- What a reader of a form takes for the first byte, and the rest.
abbrev read_byte : Str → Option (ℕ × Str)
read_byte [] = none
read_byte (c ∷ s) = if c == b'%' then read_hex s else some (if c == b'+' then 32 else c, s)

-- The bytes that a text stands for. Each is at least one character, so that the length of the text is
-- enough fuel.
unfoldable pub unquote : ℕ → Str → List ℕ
unquote zero s = []
unquote (suc f) s = elim (read_byte s) [ none ↦ [] | some r ↦ r.0 ∷ unquote f r.1 ]

-- `s.split(c, 1)[1]` for one character, or an empty text
unfoldable pub after : ℕ → Str → Str
after c [] = []
after c (a ∷ s) = let rest = after c s in if a == c then s else rest

-- The names and the values of a query, as bytes.
abbrev pub read_pair : Str → List ℕ × List ℕ
read_pair p = (
  unquote (length (before b'=' p)) (before b'=' p),
  unquote (length (after b'=' p)) (after b'=' p),
)

unfoldable pub read_pairs : List Str → List (List ℕ × List ℕ)
unfolding unquote after before
read_pairs [] = []
read_pairs (p ∷ ps) = read_pair p ∷ read_pairs ps

unfoldable pub read_query : Str → List (List ℕ × List ℕ)
unfolding read_pairs split
read_query q = read_pairs (split b'&' q)

-- A character that cannot end a name or a value.
abbrev pub is_safe : ℕ → Bool
is_safe c = not (c == b'&') && not (c == b'=')

unfoldable pub all_safe : Str → Bool
all_safe [] = true
all_safe (c ∷ s) = is_safe c && all_safe s

abbrev hex_text : ℕ → Str → Str
hex_text b rest = b'%' ∷ upper_hex (b / 16 % 16) ∷ upper_hex (b % 16) ∷ rest

-- One byte, read back.
read_byte-hex : (b : ℕ) (rest : Str) → b ≤ 255 → read_byte (hex_text b rest) ≡ some (b, rest)
read_byte-hex b rest h = ap (λ n. some (n, rest)) (ground arith)

read_byte-quote :
    (b : ℕ) (bs : List ℕ) → b ≤ 255 → read_byte (quote_bytes (b ∷ bs)) ≡ some (b, quote_bytes bs)
unfolding quote_bytes
read_byte-quote b bs h =
    choose (λ x. read_byte x ≡ some (b, quote_bytes bs)) (is_unreserved b) _ _ (λ u. ground arith)
      (λ u.
        choose (λ x. read_byte x ≡ some (b, quote_bytes bs)) (b == 32) _ _ (λ e. ground arith)
          (λ e. read_byte-hex b (quote_bytes bs) h))

unquote_step :
    (f : ℕ) (s : Str) (b : ℕ) (r : Str)
    → read_byte s ≡ some (b, r)
    → unquote (suc f) s ≡ b ∷ unquote f r
unfolding unquote
unquote_step f s b r h =
    ap (λ (o : Option (ℕ × Str)). elim o [ none ↦ [] | some x ↦ x.0 ∷ unquote f x.1 ]) h

unquote-quote :
    (bs : List ℕ) (f : ℕ) → AllBytes bs → length bs ≤ f → unquote f (quote_bytes bs) ≡ bs
unfolding unquote
unquote-quote [] zero h l = refl
unquote-quote [] (suc f) h l = unfold quote_bytes in refl
unquote-quote (b ∷ bs) zero h l = let bad : ⊥ = omega arith in absurd bad
unquote-quote (b ∷ bs) (suc f) (p, h) l =
    unquote_step f (quote_bytes (b ∷ bs)) b (quote_bytes bs) (read_byte-quote b bs (omega arith))
    ∙ ap (λ r. b ∷ r) (unquote-quote bs f h (omega arith))

length-quote : (bs : List ℕ) → length bs ≤ length (quote_bytes bs)
unfolding quote_bytes
length-quote [] = omega arith
length-quote (b ∷ bs) = ground (arith, length-quote bs)

upper_hex-is_safe : (n : ℕ) → is_safe (upper_hex (n % 16)) ≡ true
upper_hex-is_safe n = ground arith

unreserved_is_safe : (c : ℕ) → is_unreserved c ≡ true → is_safe c ≡ true
unreserved_is_safe c h = ground arith

pub quote-all_safe : (bs : List ℕ) → all_safe (quote_bytes bs) ≡ true
unfolding quote_bytes all_safe
quote-all_safe [] = refl
quote-all_safe (b ∷ bs) =
    let i = quote-all_safe bs in
    choose (λ x. all_safe x ≡ true) (is_unreserved b) _ _ (λ u. rw (unreserved_is_safe b u, i) refl)
      (λ u.
        choose (λ x. all_safe x ≡ true) (b == 32) _ _ (λ e. i)
          (λ e. rw (upper_hex-is_safe (b / 16), upper_hex-is_safe b, i) refl))

-- Names and values are found between the separators.
before-safe : (s t : Str) → all_safe s ≡ true → before b'=' (s ++ (b'=' ∷ t)) ≡ s
unfolding before all_safe
before-safe [] t h = refl
before-safe (c ∷ s) t h = ground (arith, before-safe s t)

after-safe : (s t : Str) → all_safe s ≡ true → after b'=' (s ++ (b'=' ∷ t)) ≡ t
unfolding after all_safe
after-safe [] t h = refl
after-safe (c ∷ s) t h = ground (arith, after-safe s t)

-- Without `&`.
unfoldable pub is_one : Str → Bool
is_one [] = true
is_one (c ∷ s) = not (c == b'&') && is_one s

pub is_one_pair :
    (s t : Str) → all_safe s ≡ true → all_safe t ≡ true → is_one (s ++ (b'=' ∷ t)) ≡ true
unfolding is_one all_safe
is_one_pair [] [] h k = refl
is_one_pair [] (c ∷ t) h k = ground (arith, is_one_pair [] t)
is_one_pair (c ∷ s) t h k = ground (arith, is_one_pair s t)

pub split_one : (s : Str) → is_one s ≡ true → split b'&' s ≡ s ∷ []
unfolding split is_one
split_one [] h = refl
split_one (c ∷ s) h = ground (arith, split_one s)

pub split_more : (s t : Str) → is_one s ≡ true → split b'&' (s ++ (b'&' ∷ t)) ≡ s ∷ split b'&' t
unfolding split is_one
split_more [] t h = refl
split_more (c ∷ s) t h = ground (arith, split_more s t)

abbrev pub pair_of_bytes : List ℕ → List ℕ → Str
pair_of_bytes a b = quote_bytes a ++ (b'=' ∷ quote_bytes b)

pub read_pair-quote :
    (a b : List ℕ) → AllBytes a → AllBytes b → read_pair (pair_of_bytes a b) ≡ (a, b)
read_pair-quote a b h k =
    let x = before-safe (quote_bytes a) (quote_bytes b) (quote-all_safe a) in
    let y = after-safe (quote_bytes a) (quote_bytes b) (quote-all_safe a) in
    let u = unquote-quote a (length (quote_bytes a)) h (length-quote a) in
    let v = unquote-quote b (length (quote_bytes b)) k (length-quote b) in rw (x, y, u, v) refl
