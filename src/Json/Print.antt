-- ===== src/Json/Print.antt =====
-- `json.dumps(value, separators=(",", ":"))` and `str.encode("utf-8")`, as src/mcp_gateway/app.py
-- and src/mcp_gateway/tools_list.py call them.
pub mod Printable
pub mod Chars
pub mod Kinds
pub mod Injective
pub mod Bytes
use mcp_auth_gateway.Prelude.{
  ℕ, ◌+◌, ◌-◌, ◌/◌, ◌%◌, Str, Bool, true, false, ◌&&◌, Option, none, some, List, [], ◌∷◌, ◌++◌,
  codes, ltb, leb, ◌==◌, if◌then◌else◌,
}
use mcp_auth_gateway.Json.{Json, Items, Fields}

abbrev pub hex_digit : ℕ → ℕ
hex_digit n = if ltb n 10 then 48 + n else 87 + n

-- `\uXXXX`
abbrev pub unicode_escape : ℕ → Str
unicode_escape c =
    92
    ∷ b'u'
    ∷ hex_digit (c / 4096 % 16)
    ∷ hex_digit (c / 256 % 16)
    ∷ hex_digit (c / 16 % 16)
    ∷ hex_digit (c % 16)
    ∷ []

-- One character of a string; `ascii` is `ensure_ascii`.
unfoldable pub escape : Bool → ℕ → Str
escape ascii c =
    if c == 34
    then 92 ∷ 34 ∷ []
    else if c == 92
    then 92 ∷ 92 ∷ []
    else if c == 10
    then 92 ∷ b'n' ∷ []
    else if c == 13
    then 92 ∷ b'r' ∷ []
    else if c == 9
    then 92 ∷ b't' ∷ []
    else if c == 12
    then 92 ∷ b'f' ∷ []
    else if c == 8
    then 92 ∷ b'b' ∷ []
    else if ltb c 32
    then unicode_escape c
    else if ascii && ltb 126 c
    then (if ltb c 0x10000
        then unicode_escape c
        else unicode_escape (0xd800 + (c - 0x10000) / 1024)
          ++ unicode_escape (0xdc00 + (c - 0x10000) % 1024))
    else c ∷ []

unfoldable pub escape_all : Bool → Str → Str
escape_all ascii [] = []
escape_all ascii (c ∷ s) = escape ascii c ++ escape_all ascii s

unfoldable pub quote : Bool → Str → Str
unfolding escape escape_all
quote ascii s = 34 ∷ (escape_all ascii s ++ (34 ∷ []))

unfoldable mutual
  unfolding quote

  pub dumps : Bool → Json → Str
  dumps ascii Json.null = codes "null"
  dumps ascii (Json.bool b) = if b then codes "true" else codes "false"
  dumps ascii (Json.num n) = n
  dumps ascii (Json.infinite negative) = if negative then codes "-Infinity" else codes "Infinity"
  dumps ascii (Json.str s) = quote ascii s
  dumps ascii (Json.arr js) = b'[' ∷ (dump_items ascii js ++ (b']' ∷ []))
  dumps ascii (Json.obj fs) = b'{' ∷ (dump_fields ascii fs ++ (b'}' ∷ []))

  pub dump_items : Bool → Items → Str
  dump_items ascii Items.nil = []
  dump_items ascii (Items.cons j Items.nil) = dumps ascii j
  dump_items ascii (Items.cons j (Items.cons k js)) =
      dumps ascii j ++ (b',' ∷ dump_items ascii (Items.cons k js))

  pub dump_fields : Bool → Fields → Str
  dump_fields ascii Fields.end = []
  dump_fields ascii (Fields.field k v Fields.end) = quote ascii k ++ (b':' ∷ dumps ascii v)
  dump_fields ascii (Fields.field k v (Fields.field l w fs)) =
      quote ascii k ++ (b':' ∷ (dumps ascii v ++ (b',' ∷ dump_fields ascii (Fields.field l w fs))))

-- Whether no number of the value is an infinity.
unfoldable mutual
  pub is_finite : Json → Bool
  is_finite Json.null = true
  is_finite (Json.bool b) = true
  is_finite (Json.num n) = true
  is_finite (Json.infinite negative) = false
  is_finite (Json.str s) = true
  is_finite (Json.arr js) = finite_items js
  is_finite (Json.obj fs) = finite_fields fs

  pub finite_items : Items → Bool
  finite_items Items.nil = true
  finite_items (Items.cons j js) = is_finite j && finite_items js

  pub finite_fields : Fields → Bool
  finite_fields Fields.end = true
  finite_fields (Fields.field k v fs) = is_finite v && finite_fields fs

-- `json.dumps(…, allow_nan=False)`: `none` is the `ValueError`
unfoldable pub dumps_finite : Bool → Json → Option Str
dumps_finite ascii j = if is_finite j then some (dumps ascii j) else none

abbrev pub is_surrogate : ℕ → Bool
is_surrogate c = leb 0xd800 c && leb c 0xdfff

-- The bytes of one character; `none` is the `UnicodeEncodeError` for a surrogate.
unfoldable pub encode_char : ℕ → Option (List ℕ)
encode_char c =
    if ltb c 0x80
    then some (c ∷ [])
    else if ltb c 0x800
    then some ((0xc0 + c / 64) ∷ (0x80 + c % 64) ∷ [])
    else if is_surrogate c
    then none
    else if ltb c 0x10000
    then some ((0xe0 + c / 4096) ∷ (0x80 + c / 64 % 64) ∷ (0x80 + c % 64) ∷ [])
    else some
        ((0xf0 + c / 262144) ∷ (0x80 + c / 4096 % 64) ∷ (0x80 + c / 64 % 64) ∷ (0x80 + c % 64) ∷ [])

abbrev pub then_encode : Option (List ℕ) → Option (List ℕ) → Option (List ℕ)
then_encode none rest = none
then_encode (some b) none = none
then_encode (some b) (some bs) = some (b ++ bs)

-- `s.encode("utf-8")`
unfoldable pub encode : Str → Option (List ℕ)
unfolding encode_char
encode [] = some []
encode (c ∷ s) = then_encode (encode_char c) (encode s)
