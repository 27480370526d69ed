-- ===== src/Json/Print/Printable.antt =====
-- What `json.dumps` prints with `ensure_ascii` is printable ASCII.
use mcp_auth_gateway.Prelude.{
  ℕ, ◌+◌, ◌-◌, ◌/◌, ◌%◌, Str, Bool, true, false, ◌&&◌, ◌≡◌, refl, arith, [], ◌∷◌, ◌++◌, ltb, leb,
  ◌==◌, if◌then◌else◌,
}
use mcp_auth_gateway.Json.{Json, obj, Items, Fields}
use mcp_auth_gateway.Json.Print.{
  dumps, dump_items, dump_fields, quote, escape, escape_all, hex_digit, unicode_escape,
}

-- Printable ASCII: neither a control character, a line break among them, nor anything beyond ASCII.
abbrev pub is_printable : ℕ → Bool
is_printable c = leb 32 c && ltb c 127

unfoldable pub all_printable : Str → Bool
all_printable [] = true
all_printable (c ∷ s) = is_printable c && all_printable s

pub append-printable :
    (s t : Str) → all_printable s ≡ true → all_printable t ≡ true → all_printable (s ++ t) ≡ true
unfolding all_printable
append-printable [] t h k = k
append-printable (c ∷ s) t h k = ground (arith, append-printable s t (ground arith) k)

hex_digit-printable : (n : ℕ) → is_printable (hex_digit (n % 16)) ≡ true
hex_digit-printable n = ground arith

unicode_escape-printable : (c : ℕ) → all_printable (unicode_escape c) ≡ true
unfolding all_printable
unicode_escape-printable c =
    rw
      (
        hex_digit-printable (c / 4096),
        hex_digit-printable (c / 256),
        hex_digit-printable (c / 16),
        hex_digit-printable c,
      )
      refl

if-printable :
    (b : Bool) (x y : Str)
    → all_printable x ≡ true
    → (b ≡ false → all_printable y ≡ true)
    → all_printable (if b then x else y) ≡ true
if-printable true x y h k = h
if-printable false x y h k = k refl

escape-printable : (c : ℕ) → all_printable (escape true c) ≡ true
unfolding all_printable escape
escape-printable c = if-printable (c == 34) _ _ refl (λ a. if-printable (c == 92) _ _ refl (λ b.
    if-printable (c == 10) _ _ refl (λ d. if-printable (c == 13) _ _ refl (λ e.
      if-printable (c == 9) _ _ refl (λ f. if-printable (c == 12) _ _ refl (λ g.
        if-printable (c == 8) _ _ refl (λ i.
          if-printable (ltb c 32) _ _ (unicode_escape-printable c) (λ j.
            if-printable (ltb 126 c) _ _
              (if-printable (ltb c 0x10000) _ _ (unicode_escape-printable c) (λ l.
                append-printable (unicode_escape (0xd800 + (c - 0x10000) / 1024))
                  (unicode_escape (0xdc00 + (c - 0x10000) % 1024))
                  (unicode_escape-printable (0xd800 + (c - 0x10000) / 1024))
                  (unicode_escape-printable (0xdc00 + (c - 0x10000) % 1024))))
              (λ k. ground arith)))))))))

escape_all-printable : (s : Str) → all_printable (escape_all true s) ≡ true
unfolding all_printable escape_all
escape_all-printable [] = refl
escape_all-printable (c ∷ s) =
    append-printable (escape true c) (escape_all true s) (escape-printable c)
      (escape_all-printable s)

-- A printable text between two characters.
around :
    (a b : ℕ) (s : Str)
    → is_printable a ≡ true
    → is_printable b ≡ true
    → all_printable s ≡ true
    → all_printable (a ∷ (s ++ (b ∷ []))) ≡ true
unfolding all_printable
around a b s p q h = let k = append-printable s (b ∷ []) h (ground arith) in ground arith

quote-printable : (s : Str) → all_printable (quote true s) ≡ true
unfolding quote
quote-printable s = around 34 34 (escape_all true s) refl refl (escape_all-printable s)

-- A value whose numbers are printed as printable texts.
unfoldable mutual
  pub AllNums : Json → Type 0
  AllNums (Json.num n) = all_printable n ≡ true
  AllNums (Json.arr js) = AllItems js
  AllNums (Json.obj fs) = AllFields fs
  AllNums _ = Unit

  pub AllItems : Items → Type 0
  AllItems Items.nil = Unit
  AllItems (Items.cons j js) = AllNums j × AllItems js

  pub AllFields : Fields → Type 0
  AllFields Fields.end = Unit
  AllFields (Fields.field k v fs) = AllNums v × AllFields fs

mutual
  unfolding dumps dump_items dump_fields all_printable AllNums AllItems AllFields

  dumps-printable : (j : Json) → AllNums j → all_printable (dumps true j) ≡ true
  dumps-printable Json.null h = refl
  dumps-printable (Json.bool true) h = refl
  dumps-printable (Json.bool false) h = refl
  dumps-printable (Json.num n) h = h
  dumps-printable (Json.infinite true) h = refl
  dumps-printable (Json.infinite false) h = refl
  dumps-printable (Json.str s) h = quote-printable s
  dumps-printable (Json.arr js) h =
      around b'[' b']' (dump_items true js) refl refl (dump_items-printable js h)
  dumps-printable (Json.obj fs) h =
      around b'{' b'}' (dump_fields true fs) refl refl (dump_fields-printable fs h)

  dump_items-printable : (js : Items) → AllItems js → all_printable (dump_items true js) ≡ true
  dump_items-printable Items.nil h = refl
  dump_items-printable (Items.cons j Items.nil) (h, k) = dumps-printable j h
  dump_items-printable (Items.cons j (Items.cons i js)) (h, k) =
      append-printable (dumps true j) (b',' ∷ dump_items true (Items.cons i js))
        (dumps-printable j h) (dump_items-printable (Items.cons i js) k)

  dump_fields-printable : (fs : Fields) → AllFields fs → all_printable (dump_fields true fs) ≡ true
  dump_fields-printable Fields.end h = refl
  dump_fields-printable (Fields.field k v Fields.end) (h, t) =
      append-printable (quote true k) (b':' ∷ dumps true v) (quote-printable k)
        (dumps-printable v h)
  dump_fields-printable (Fields.field k v (Fields.field l w fs)) (h, t) =
      append-printable (quote true k)
        (b':' ∷ (dumps true v ++ (b',' ∷ dump_fields true (Fields.field l w fs))))
        (quote-printable k)
        (append-printable (dumps true v) (b',' ∷ dump_fields true (Fields.field l w fs))
          (dumps-printable v h) (dump_fields-printable (Fields.field l w fs) t))

pub object-printable : (fs : Fields) → AllFields fs → all_printable (dumps true (obj fs)) ≡ true
unfolding AllNums
object-printable fs h = dumps-printable (obj fs) h
