-- ===== src/Json/Decode/Repeats.antt =====
-- What it is for a scanned text to have an object with one key twice, at any depth, said of the text
-- alone; src/mcp_gateway/app.py, `_no_duplicate_keys`, accepts none.
use mcp_auth_gateway.Prelude.{
  Str, true, false, sym, ap, ◌∙◌, Bool-cases, inl, inr, ◌≡◌, refl, arith, none, List, [], ◌∷◌, elem,
  eq_str_iff, ok, >>=-eq-ok,
}
use mcp_auth_gateway.Json.{Json, Items, Fields, field}
use mcp_auth_gateway.Json.Decode.{
  Raw, RawItems, RawFields, item, pair, Document, decode, decode_items, decode_fields, loads,
  repeated, no_duplicate_keys,
}

-- A key is among the pairs, and some key is there twice.
pub data Occurs (k : Str) : RawFields → Type 0 where
  at_once : {r : Raw} {rs : RawFields} → Occurs k (pair k r rs)
  behind : {j : Str} {r : Raw} {rs : RawFields} → Occurs k rs → Occurs k (pair j r rs)

pub data KeyTwice : RawFields → Type 0 where
  again : {k : Str} {r : Raw} {rs : RawFields} → Occurs k rs → KeyTwice (pair k r rs)
  further : {k : Str} {r : Raw} {rs : RawFields} → KeyTwice rs → KeyTwice (pair k r rs)

mutual
  pub data Repeats : Raw → Type 0 where
    twice : {rs : RawFields} → KeyTwice rs → Repeats (Raw.obj rs)
    in_object : {rs : RawFields} → FieldRepeats rs → Repeats (Raw.obj rs)
    in_array : {rs : RawItems} → ItemRepeats rs → Repeats (Raw.arr rs)

  pub data ItemRepeats : RawItems → Type 0 where
    this_item : {r : Raw} {rs : RawItems} → Repeats r → ItemRepeats (item r rs)
    later_item : {r : Raw} {rs : RawItems} → ItemRepeats rs → ItemRepeats (item r rs)

  pub data FieldRepeats : RawFields → Type 0 where
    this_value : {k : Str} {r : Raw} {rs : RawFields} → Repeats r → FieldRepeats (pair k r rs)
    later_value :
        {k : Str} {r : Raw} {rs : RawFields} → FieldRepeats rs → FieldRepeats (pair k r rs)

-- A pair is decoded to a field with its key.
record DecodesPair (k : Str) (r : Raw) (rs : RawFields) (fs : Fields) : Type 0 where
  v : Json
  gs : Fields
  value : decode no_duplicate_keys r ≡ ok v
  rest : decode_fields no_duplicate_keys rs ≡ ok gs
  whole : fs ≡ field k v gs

pair-DecodesPair :
    (k : Str) (r : Raw) (rs : RawFields) (fs : Fields)
    → decode_fields no_duplicate_keys (pair k r rs) ≡ ok fs
    → DecodesPair k r rs fs
unfolding decode_fields
pair-DecodesPair k r rs fs p =
    let (v, a, q) = >>=-eq-ok (decode no_duplicate_keys r) _ p in
    let (gs, b, s) = >>=-eq-ok (decode_fields no_duplicate_keys rs) _ q in
    record { v = v; gs = gs; value = a; rest = b; whole = cc }

seen_none :
    (seen : List Str) (k : Str) (v : Json) (fs gs : Fields)
    → fs ≡ field k v gs
    → repeated seen fs ≡ none
    → (elem k seen ≡ false) × (repeated (k ∷ seen) gs ≡ none)
unfolding repeated
seen_none seen k v fs gs e h =
    let g : repeated seen (field k v gs) ≡ none = ap (repeated seen) (sym e) ∙ h in
    elim (Bool-cases (elem k seen)) [
      | inl m ↦ let bad : ⊥ = ground arith in absurd bad
      | inr m ↦ (m, ground arith)
    ]

key_is_new :
    {k : Str} {rs : RawFields}
    → Occurs k rs
    → (fs : Fields) (seen : List Str) → decode_fields no_duplicate_keys rs ≡ ok fs
    → elem k seen ≡ true
    → repeated seen fs ≡ none
    → ⊥
unfolding elem
key_is_new {k} (Occurs.at_once {r} {rs}) fs seen p m h =
    let d = pair-DecodesPair k r rs fs p in cc (seen_none seen k d.v fs d.gs d.whole h).0
key_is_new {k} (Occurs.behind {j} {r} {rs} o) fs seen p m h =
    let d = pair-DecodesPair j r rs fs p in
    key_is_new o d.gs (j ∷ seen) d.rest (ground arith) (seen_none seen j d.v fs d.gs d.whole h).1

twice_seen :
    {rs : RawFields}
    → KeyTwice rs
    → (fs : Fields) (seen : List Str) → decode_fields no_duplicate_keys rs ≡ ok fs
    → repeated seen fs ≡ none
    → ⊥
unfolding elem
twice_seen (KeyTwice.again {k} {r} {rs} o) fs seen p h =
    let d = pair-DecodesPair k r rs fs p in
    key_is_new o d.gs (k ∷ seen) d.rest (rw ((eq_str_iff k k).1 refl) refl)
      (seen_none seen k d.v fs d.gs d.whole h).1
twice_seen (KeyTwice.further {k} {r} {rs} t) fs seen p h =
    let d = pair-DecodesPair k r rs fs p in
    twice_seen t d.gs (k ∷ seen) d.rest (seen_none seen k d.v fs d.gs d.whole h).1

accepted_once : (pairs fs : Fields) → no_duplicate_keys pairs ≡ ok fs → repeated [] pairs ≡ none
unfolding no_duplicate_keys
accepted_once pairs fs h = ground arith

mutual
  unfolding decode

  decode-unrepeated : {r : Raw} → Repeats r → (j : Json) → decode no_duplicate_keys r ≡ ok j → ⊥
  decode-unrepeated (Repeats.twice {rs} t) j p =
      let (pairs, a, q) = >>=-eq-ok (decode_fields no_duplicate_keys rs) _ p in
      let (fs, b, s) = >>=-eq-ok (no_duplicate_keys pairs) _ q in
      twice_seen t pairs [] a (accepted_once pairs fs b)
  decode-unrepeated (Repeats.in_object {rs} t) j p =
      let (pairs, a, q) = >>=-eq-ok (decode_fields no_duplicate_keys rs) _ p in
      fields-unrepeated t pairs a
  decode-unrepeated (Repeats.in_array {rs} t) j p =
      let (items, a, q) = >>=-eq-ok (decode_items no_duplicate_keys rs) _ p in
      items-unrepeated t items a

  items-unrepeated :
      {rs : RawItems}
      → ItemRepeats rs
      → (js : Items) → decode_items no_duplicate_keys rs ≡ ok js
      → ⊥
  items-unrepeated (ItemRepeats.this_item {r} {rs} t) js p =
      let (v, a, q) = >>=-eq-ok (decode no_duplicate_keys r) _ p in decode-unrepeated t v a
  items-unrepeated (ItemRepeats.later_item {r} {rs} t) js p =
      let (v, a, q) = >>=-eq-ok (decode no_duplicate_keys r) _ p in
      let (vs, b, s) = >>=-eq-ok (decode_items no_duplicate_keys rs) _ q in items-unrepeated t vs b

  fields-unrepeated :
      {rs : RawFields}
      → FieldRepeats rs
      → (fs : Fields) → decode_fields no_duplicate_keys rs ≡ ok fs
      → ⊥
  fields-unrepeated (FieldRepeats.this_value {k} {r} {rs} t) fs p =
      let (v, a, q) = >>=-eq-ok (decode no_duplicate_keys r) _ p in decode-unrepeated t v a
  fields-unrepeated (FieldRepeats.later_value {k} {r} {rs} t) fs p =
      let (v, a, q) = >>=-eq-ok (decode no_duplicate_keys r) _ p in
      let (vs, b, s) = >>=-eq-ok (decode_fields no_duplicate_keys rs) _ q in
      fields-unrepeated t vs b

-- A document that the gateway decodes has no key twice.
pub loads-unrepeated :
    (d : Document) (j : Json) → loads no_duplicate_keys d ≡ ok j → Repeats d.value → ⊥
unfolding loads
loads-unrepeated d j p t =
    let (v, a, q) = >>=-eq-ok (decode no_duplicate_keys d.value) _ p in decode-unrepeated t v a
