-- ===== src/JsonRpc.antt =====
-- src/mcp_gateway/app.py, `_parse_jsonrpc`: the strict parse of a request body.
-- `scan` is the scanner of `json.loads`, from the bytes of the body.
pub mod Segments
pub mod Accepted
pub mod Determined
pub mod Surrogates
use mcp_auth_gateway.Prelude.{
  ℕ, Str, Bool, true, false, ◌||◌, Option, none, some, List, [], ◌∷◌, codes, eq_str, is_empty,
  length, ltb, split, if◌then◌else◌, Result, ok, err,
}
use mcp_auth_gateway.Json.{Json, str, arr, obj, Fields, get}
use mcp_auth_gateway.Json.Decode.{
  Document, DecodeError, duplicate_key, non_finite, invalid, loads, no_duplicate_keys,
}
use mcp_auth_gateway.Json.Print.{dumps, encode}

abbrev pub max_identifier_len : ℕ
max_identifier_len = 256

-- The pairs of `error` and `error_code`, by their messages.
pub data RpcError : Type 0 where
  duplicate_json_key nonstandard_constant : Str → RpcError
  invalid_json batch_not_supported not_object missing_method : RpcError
  method_too_long bad_segment tool_too_long : RpcError

unfoldable pub error_code : RpcError → Str
error_code (duplicate_json_key _) = codes "duplicate_json_key"
error_code (nonstandard_constant _) = codes "nonstandard_json_constant"
error_code invalid_json = codes "invalid_json"
error_code batch_not_supported = codes "batch_not_supported"
error_code not_object = codes "invalid_jsonrpc"
error_code missing_method = codes "invalid_jsonrpc"
error_code method_too_long = codes "identifier_too_long"
error_code bad_segment = codes "invalid_jsonrpc"
error_code tool_too_long = codes "identifier_too_long"

pub record JsonRpcParse : Type 0 where
  pub method : Option Str
  pub tool_name : Option Str
  pub canonical_body : Option (List ℕ)
  pub error : Option RpcError

-- What leaves the function by an exception that it does not catch.
pub data Unhandled : Type 0 where
  unicode_encode_error : Unhandled

abbrev pub refuse : RpcError → Result Unhandled JsonRpcParse
refuse e = ok (record { method = none; tool_name = none; canonical_body = none; error = some e })

abbrev pub accept : Str → Option Str → List ℕ → Result Unhandled JsonRpcParse
accept method tool body =
    ok (record { method = some method; tool_name = tool; canonical_body = some body; error = none })

abbrev pub text_of : Option Json → Option Str
text_of (some (str s)) = some s
text_of _ = none

-- `seg in ("", ".", "..")`
abbrev pub is_relative : Str → Bool
is_relative seg = is_empty seg || eq_str seg (codes ".") || eq_str seg (codes "..")

unfoldable pub any_relative : List Str → Bool
any_relative [] = false
any_relative (seg ∷ segs) = is_relative seg || any_relative segs

-- `params.get("name") if isinstance(params, dict) else None`, if it is a text
unfoldable pub params_name : Option Json → Option Str
params_name (some (obj ps)) = text_of (get (codes "name") ps)
params_name _ = none

unfoldable pub parse_tool_call : Str → List ℕ → Option Str → Result Unhandled JsonRpcParse
parse_tool_call method body none = accept method none body
parse_tool_call method body (some name) =
    if ltb max_identifier_len (length name)
    then refuse tool_too_long
    else accept method (if is_empty name then none else some name) body

-- from `canonical` on; `none` is the exception of `encode`
unfoldable pub parse_tail : Fields → Str → Option (List ℕ) → Result Unhandled JsonRpcParse
unfolding parse_tool_call params_name
parse_tail fs method none = err unicode_encode_error
parse_tail fs method (some body) =
    if eq_str method (codes "tools/call")
    then parse_tool_call method body (params_name (get (codes "params") fs))
    else accept method none body

unfoldable pub parse_method : Fields → Option Str → Result Unhandled JsonRpcParse
unfolding any_relative parse_tail
parse_method fs none = refuse missing_method
parse_method fs (some method) =
    if is_empty method
    then refuse missing_method
    else if ltb max_identifier_len (length method)
    then refuse method_too_long
    else if any_relative (split b'/' method)
    then refuse bad_segment
    else parse_tail fs method (encode (dumps false (obj fs)))

unfoldable pub parse_decoded : Result DecodeError Json → Result Unhandled JsonRpcParse
unfolding parse_method
parse_decoded (err (duplicate_key k)) = refuse (duplicate_json_key k)
parse_decoded (err (non_finite name)) = refuse (nonstandard_constant name)
parse_decoded (err invalid) = refuse invalid_json
parse_decoded (ok (arr _)) = refuse batch_not_supported
parse_decoded (ok (obj fs)) = parse_method fs (text_of (get (codes "method") fs))
parse_decoded (ok _) = refuse not_object

-- `_parse_jsonrpc`
unfoldable pub parse_jsonrpc : (List ℕ → Document) → List ℕ → Result Unhandled JsonRpcParse
unfolding parse_decoded
parse_jsonrpc scan raw = parse_decoded (loads no_duplicate_keys (scan raw))
