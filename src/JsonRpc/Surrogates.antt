-- ===== src/JsonRpc/Surrogates.antt =====
-- Lone surrogates: a JSON escape such as `\ud800` decodes to a character that UTF-8 cannot encode.
use mcp_auth_gateway.Prelude.{
  ℕ, ◌≤◌, Str, true, false, ◌≡◌, refl, arith, Option, none, some, List, [], ◌∷◌, ◌++◌, codes,
  eq_str, is_empty, length, split, ok, err, Bool-cases, inl, inr, Member,
}
use mcp_auth_gateway.Json.{str, obj, Fields, end, field, get}
use mcp_auth_gateway.Json.Decode.{Document, loads, no_duplicate_keys}
use mcp_auth_gateway.Json.Print.{
  dumps, dump_fields, quote, escape, escape_all, encode, encode_char, then_encode, is_surrogate,
}
use mcp_auth_gateway.JsonRpc.{
  max_identifier_len, unicode_encode_error, any_relative, parse_method, parse_jsonrpc,
}

then_encode-none :
    (o p q : Option (List ℕ))
    → (p ≡ none → q ≡ none)
    → then_encode o p ≡ none
    → then_encode o q ≡ none
then_encode-none none p q f h = refl
then_encode-none (some b) none q f h = rw (f refl)
then_encode-none (some b) (some c) q f h = cc

then_encode_rest : (o q : Option (List ℕ)) → q ≡ none → then_encode o q ≡ none
then_encode_rest none q h = refl
then_encode_rest (some b) q h = rw h

-- A text cannot be encoded if either half of it cannot.
encode-append_left : (s t : Str) → encode s ≡ none → encode (s ++ t) ≡ none
unfolding encode
encode-append_left [] t h = cc
encode-append_left (c ∷ s) t h =
    then_encode-none (encode_char c) (encode s) (encode (s ++ t)) (encode-append_left s t) h

encode-append_right : (s t : Str) → encode t ≡ none → encode (s ++ t) ≡ none
unfolding encode
encode-append_right [] t h = h
encode-append_right (c ∷ s) t h =
    then_encode_rest (encode_char c) (encode (s ++ t)) (encode-append_right s t h)

encode_char-surrogate : (c : ℕ) → is_surrogate c ≡ true → encode_char c ≡ none
unfolding encode_char
encode_char-surrogate c h = ground arith

escape-surrogate : (c : ℕ) → is_surrogate c ≡ true → escape false c ≡ c ∷ []
unfolding escape
escape-surrogate c h = ground arith

-- A printed text with a surrogate cannot be encoded.
encode-surrogate : (c : ℕ) → is_surrogate c ≡ true → encode (c ∷ []) ≡ none
unfolding encode
encode-surrogate c h = rw (encode_char-surrogate c h)

escape_all-surrogate :
    (c : ℕ) (s : Str) → is_surrogate c ≡ true → Member c s → encode (escape_all false s) ≡ none
unfolding escape_all
escape_all-surrogate c [] h m = absurd m
escape_all-surrogate c (a ∷ s) h (inl e) =
    encode-append_left (escape false a) (escape_all false s)
      (rw (← e) (rw (escape-surrogate c h) (encode-surrogate c h)))
escape_all-surrogate c (a ∷ s) h (inr m) =
    encode-append_right (escape false a) (escape_all false s) (escape_all-surrogate c s h m)

quote-surrogate :
    (c : ℕ) (s : Str) → is_surrogate c ≡ true → Member c s → encode (quote false s) ≡ none
unfolding quote
quote-surrogate c s h m =
    encode-append_right (34 ∷ []) (escape_all false s ++ (34 ∷ []))
      (encode-append_left (escape_all false s) (34 ∷ []) (escape_all-surrogate c s h m))

-- So cannot an object that has such a text under any of its keys.
dump_fields-surrogate :
    (fs : Fields) (k s : Str) (c : ℕ)
    → get k fs ≡ some (str s)
    → is_surrogate c ≡ true
    → Member c s
    → encode (dump_fields false fs) ≡ none
unfolding get dumps
dump_fields-surrogate end k s c g h m = cc
dump_fields-surrogate (field j v end) k s c g h m =
    let q : v ≡ str s = ground arith in
    encode-append_right (quote false j) (58 ∷ dumps false v)
      (encode-append_right (58 ∷ []) (dumps false v) (rw q (quote-surrogate c s h m)))
dump_fields-surrogate (field j v (field l w fs)) k s c g h m = elim (Bool-cases (eq_str k j)) [
  | inl e ↦
      let q : v ≡ str s = ground arith in
      encode-append_right (quote false j)
        (58 ∷ (dumps false v ++ (44 ∷ dump_fields false (field l w fs))))
        (encode-append_right (58 ∷ []) (dumps false v ++ (44 ∷ dump_fields false (field l w fs))) (
          encode-append_left (dumps false v) (44 ∷ dump_fields false (field l w fs))
            (rw q (quote-surrogate c s h m))))
  | inr e ↦
      encode-append_right (quote false j)
        (58 ∷ (dumps false v ++ (44 ∷ dump_fields false (field l w fs))))
        (encode-append_right (58 ∷ []) (dumps false v ++ (44 ∷ dump_fields false (field l w fs))) (
          encode-append_right (dumps false v) (44 ∷ dump_fields false (field l w fs)) (
            encode-append_right (44 ∷ []) (dump_fields false (field l w fs))
              (dump_fields-surrogate (field l w fs) k s c (ground arith) h m))))
]

dumps-surrogate :
    (fs : Fields) (k s : Str) (c : ℕ)
    → get k fs ≡ some (str s)
    → is_surrogate c ≡ true
    → Member c s
    → encode (dumps false (obj fs)) ≡ none
unfolding dumps
dumps-surrogate fs k s c g h m =
    encode-append_right (b'{' ∷ []) (dump_fields false fs ++ (b'}' ∷ []))
      (encode-append_left (dump_fields false fs) (b'}' ∷ []) (dump_fields-surrogate fs k s c g h m))

parse_method-none :
    (fs : Fields) (method : Str)
    → is_empty method ≡ false
    → length method ≤ max_identifier_len
    → any_relative (split b'/' method) ≡ false
    → encode (dumps false (obj fs)) ≡ none
    → parse_method fs (some method) ≡ err unicode_encode_error
unfolding parse_method
parse_method-none fs method e l r n = ground arith

-- A request object with a well-formed method and, under any key of it, a text with a lone surrogate
-- is not answered with an error code: the encoding of its canonical body raises, and the parser does
-- not catch that.
pub parse_jsonrpc-surrogate :
    (scan : List ℕ → Document) (raw : List ℕ) (fs : Fields) (method k s : Str) (c : ℕ)
    → loads no_duplicate_keys (scan raw) ≡ ok (obj fs)
    → get (codes "method") fs ≡ some (str method)
    → is_empty method ≡ false
    → length method ≤ max_identifier_len
    → any_relative (split b'/' method) ≡ false
    → get k fs ≡ some (str s)
    → Member c s
    → is_surrogate c ≡ true
    → parse_jsonrpc scan raw ≡ err unicode_encode_error
unfolding parse_jsonrpc
parse_jsonrpc-surrogate scan raw fs method k s c d m e l r g mem h =
    rw (d, m) (parse_method-none fs method e l r (dumps-surrogate fs k s c g h mem))
