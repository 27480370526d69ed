-- ===== src/JsonRpc/Accepted.antt =====
-- What is known of a request body that the parser accepts.

use mcp_auth_gateway.Prelude.{
  ℕ, ◌≤◌, Str, false, ◌≡◌, ◌≢◌, refl, sym, ap, ◌∙◌, arith, Option, none, some, List, [], ◌∷◌, codes,
  eq_str, eq_str_iff, is_empty, length, split, Result, ok, err, Bool-cases, inl, inr,
}
use mcp_auth_gateway.Json.{Json, arr, obj, Fields, get}
use mcp_auth_gateway.Json.Decode.{
  Document, DecodeError, duplicate_key, non_finite, invalid, loads, no_duplicate_keys,
}
use mcp_auth_gateway.Json.Print.{dumps, encode}
use mcp_auth_gateway.Json.Decode.Repeats.{Repeats, loads-unrepeated}
use mcp_auth_gateway.JsonRpc.Segments.{HasRelative, HasRelative-refused}
use mcp_auth_gateway.JsonRpc.{
  max_identifier_len, JsonRpcParse, text_of, any_relative, params_name, parse_tool_call, parse_tail,
  parse_method, parse_decoded, parse_jsonrpc,
}

-- The tool that an accepted request names: for tools/call the non-empty text in `params.name`, of
-- bounded length; for any other method none.
pub data NamesTool (method : Str) (fs : Fields) (tool : Option Str) : Type 0 where
  other_method : method ≢ codes "tools/call" → tool ≡ none → NamesTool method fs tool
  no_name :
      method ≡ codes "tools/call"
      → (params_name (get (codes "params") fs) ≡ none)
      → tool ≡ none
      → NamesTool method fs tool
  empty_name :
      method ≡ codes "tools/call"
      → (params_name (get (codes "params") fs) ≡ some [])
      → tool ≡ none
      → NamesTool method fs tool
  named :
      (name : Str)
      → method ≡ codes "tools/call"
      → params_name (get (codes "params") fs) ≡ some name
      → is_empty name ≡ false
      → length name ≤ max_identifier_len
      → tool ≡ some name
      → NamesTool method fs tool

-- The decoded object, its method, and what is forwarded for it.
pub record IsAccepted (d : Result DecodeError Json) (r : JsonRpcParse) : Type 0 where
  pub fields : Fields
  pub method : Str
  pub decoded : d ≡ ok (obj fields)
  pub has_method : text_of (get (codes "method") fields) ≡ some method
  pub resolved : r.method ≡ some method
  pub not_empty : is_empty method ≡ false
  pub bounded : length method ≤ max_identifier_len
  pub no_relative : ¬ HasRelative method
  pub tool : NamesTool method fields r.tool_name
  pub body : List ℕ
  pub canonical : r.canonical_body ≡ some body
  pub printed : encode (dumps false (obj fields)) ≡ some body

-- What the last stage adds.
record FromTail (fs : Fields) (method : Str) (body : List ℕ) (r : JsonRpcParse) : Type 0 where
  resolved : r.method ≡ some method
  tool : NamesTool method fs r.tool_name
  canonical : r.canonical_body ≡ some body

parse_tool_call-FromTail :
    (fs : Fields) (method : Str) (body : List ℕ) (name : Option Str) (r : JsonRpcParse)
    → method ≡ codes "tools/call"
    → params_name (get (codes "params") fs) ≡ name
    → parse_tool_call method body name ≡ ok r
    → r.error ≡ none
    → FromTail fs method body r
unfolding parse_tool_call
parse_tool_call-FromTail fs method body none r m n h e = record {
  resolved = ground arith;
  tool = NamesTool.no_name m n (ground arith);
  canonical = ground arith;
}
parse_tool_call-FromTail fs method body (some []) r m n h e = record {
  resolved = ground arith;
  tool = NamesTool.empty_name m n (ground arith);
  canonical = ground arith;
}
parse_tool_call-FromTail fs method body (some (c ∷ s)) r m n h e = record {
  resolved = ground arith;
  tool = NamesTool.named (c ∷ s) m n refl (ground arith) (ground arith);
  canonical = ground arith;
}

parse_tail-FromTail :
    (fs : Fields) (method : Str) (body : List ℕ) (r : JsonRpcParse)
    → parse_tail fs method (some body) ≡ ok r
    → r.error ≡ none
    → FromTail fs method body r
unfolding parse_tail
parse_tail-FromTail fs method body r h e = elim (Bool-cases (eq_str method (codes "tools/call"))) [
  | inl t ↦
      parse_tool_call-FromTail fs method body (params_name (get (codes "params") fs)) r
        ((eq_str_iff method (codes "tools/call")).0 t) refl (ground arith) e
  | inr t ↦ record {
    resolved = ground arith;
    tool =
        NamesTool.other_method (λ q. ground (arith, eq_str_iff method (codes "tools/call")))
          (ground arith);
    canonical = ground arith;
  }
]

-- The guards of `parse_method` are passed.
record PassesGuards (fs : Fields) (m : Option Str) (r : JsonRpcParse) : Type 0 where
  method : Str
  has_method : m ≡ some method
  not_empty : is_empty method ≡ false
  bounded : length method ≤ max_identifier_len
  no_relative : any_relative (split b'/' method) ≡ false
  rest : parse_tail fs method (encode (dumps false (obj fs))) ≡ ok r

parse_method-PassesGuards :
    (fs : Fields) (m : Option Str) (r : JsonRpcParse)
    → parse_method fs m ≡ ok r
    → r.error ≡ none
    → PassesGuards fs m r
unfolding parse_method
parse_method-PassesGuards fs none r h e = ground arith
parse_method-PassesGuards fs (some method) r h e = record {
  method = method;
  has_method = refl;
  not_empty = ground arith;
  bounded = ground arith;
  no_relative = ground arith;
  rest = ground arith;
}

-- The body of an accepted request was encoded.
parse_tail_encoded :
    (fs : Fields) (method : Str) (o : Option (List ℕ)) (r : JsonRpcParse)
    → parse_tail fs method o ≡ ok r
    → (body : List ℕ) × (o ≡ some body)
unfolding parse_tail
parse_tail_encoded fs method none r h = cc
parse_tail_encoded fs method (some body) r h = (body, refl)

parse_method-IsAccepted :
    (fs : Fields) (r : JsonRpcParse)
    → parse_method fs (text_of (get (codes "method") fs)) ≡ ok r
    → r.error ≡ none
    → IsAccepted (ok (obj fs)) r
parse_method-IsAccepted fs r h e =
    let g = parse_method-PassesGuards fs (text_of (get (codes "method") fs)) r h e in
    let (body, q) = parse_tail_encoded fs g.method (encode (dumps false (obj fs))) r g.rest in
    let t =
      parse_tail-FromTail fs g.method body r (ap (parse_tail fs g.method) (sym q) ∙ g.rest) e in
    record {
      fields = fs;
      method = g.method;
      decoded = refl;
      has_method = g.has_method;
      resolved = t.resolved;
      not_empty = g.not_empty;
      bounded = g.bounded;
      no_relative = HasRelative-refused g.method g.no_relative;
      tool = t.tool;
      body = body;
      canonical = t.canonical;
      printed = q;
    }

parse_decoded-IsAccepted :
    (d : Result DecodeError Json) (r : JsonRpcParse)
    → parse_decoded d ≡ ok r
    → r.error ≡ none
    → IsAccepted d r
unfolding parse_decoded
parse_decoded-IsAccepted (ok (obj fs)) r h e = parse_method-IsAccepted fs r h e
parse_decoded-IsAccepted (err (duplicate_key k)) r h e = ground arith
parse_decoded-IsAccepted (err (non_finite k)) r h e = ground arith
parse_decoded-IsAccepted (err invalid) r h e = ground arith
parse_decoded-IsAccepted (ok (arr js)) r h e = ground arith
parse_decoded-IsAccepted (ok _) r h e = ground arith

-- What is known of the text that was scanned, and of the parse.
pub record IsParsed (doc : Document) (r : JsonRpcParse) : Type 0 where
  pub accepted : IsAccepted (loads no_duplicate_keys doc) r
  pub unrepeated : ¬ Repeats doc.value

-- The text of a body that parses with no error has no object, at any depth, with one key twice; it
-- decodes to an object whose `method` is the text that the parser resolves: it is not empty, is at most
-- 256 characters long and has, between its slashes, no segment that is empty, `.` or `..`; the tool is
-- the non-empty text of at most 256 characters that `params.name` names, for tools/call only, and for a
-- tools/call without such a name it is none; and the body to forward is the UTF-8 of the printed object
-- that was decoded.
pub parse_jsonrpc-IsAccepted :
    (scan : List ℕ → Document) (raw : List ℕ) (r : JsonRpcParse)
    → parse_jsonrpc scan raw ≡ ok r
    → r.error ≡ none
    → IsParsed (scan raw) r
unfolding parse_jsonrpc
parse_jsonrpc-IsAccepted scan raw r h e =
    let a = parse_decoded-IsAccepted (loads no_duplicate_keys (scan raw)) r h e in
    record { accepted = a; unrepeated = loads-unrepeated (scan raw) (obj a.fields) a.decoded }
