-- ===== src/ToolsList.antt =====
-- src/mcp_gateway/tools_list.py: the filtering of a tools/list response by the tool policy.
-- `scan` is the scanner of `json.loads`, from the bytes of the response.
pub mod Kept
pub mod Shown
pub mod Either
use mcp_auth_gateway.Prelude.{
  ℕ, suc, ◌-◌, Str, Bool, true, false, ◌&&◌, ◌||◌, not, Option, none, some, List, [], ◌∷◌, codes,
  eq_str, is_empty, is_some, length, ltb, if◌then◌else◌, Result, ok, err,
}
use mcp_auth_gateway.Json.{Json, str, arr, obj, Items, nil, cons, Fields, get, put}
use mcp_auth_gateway.Json.Decode.{Document, DecodeError, loads, plain}
use mcp_auth_gateway.Json.Print.{dumps_finite, encode}
use mcp_auth_gateway.ToolPolicy.{ToolPolicy, check}

abbrev pub max_tool_name_len : ℕ
max_tool_name_len = 256

-- `FILTER_FAILED` and `UPSTREAM_ERROR`
pub data FilterError : Type 0 where
  filter_failed upstream_error : FilterError

pub record FilterOutcome : Type 0 where
  pub body : Option (List ℕ)
  pub error_code : Option FilterError
  pub tools_returned : ℕ
  pub tools_filtered : ℕ

-- `FilterOutcome.ok`
abbrev pub is_ok : FilterOutcome → Bool
is_ok o = not (is_some o.error_code)

abbrev failure : FilterError → FilterOutcome
failure e = record { body = none; error_code = some e; tools_returned = 0; tools_filtered = 0 }

-- `_failed`
abbrev pub failed : FilterOutcome
failed = failure filter_failed

-- a text, if the member is there and is one
abbrev text_of : Option Json → Option Str
text_of (some (str s)) = some s
text_of _ = none

-- `doc.get("jsonrpc") == "2.0"`
abbrev is_version_2 : Option Str → Bool
is_version_2 none = false
is_version_2 (some s) = eq_str s (codes "2.0")

abbrev valid_name : Option Str → Option Str
valid_name none = none
valid_name (some s) = if is_empty s || ltb max_tool_name_len (length s) then none else some s

-- the name of an entry, or `none` where the entry cannot be evaluated
unfoldable pub entry_name : Json → Option Str
entry_name (obj fs) = valid_name (text_of (get (codes "name") fs))
entry_name _ = none

abbrev pub keep_entry : Bool → Json → Option Items → Option Items
keep_entry _ entry none = none
keep_entry true entry (some kept) = some (cons entry kept)
keep_entry false entry (some kept) = some kept

-- the loop over the entries; `none` is an early `_failed()`
unfoldable pub keep_tools : ToolPolicy → Option Fields → Items → Option Items
unfolding entry_name
keep_tools p claims nil = some nil
keep_tools p claims (cons entry entries) =
    let rest = keep_tools p claims entries in
    elim (entry_name entry) [
      | none ↦ none
      | some name ↦ keep_entry (check p name claims).allowed entry rest
    ]

-- `len` of an array
unfoldable pub count : Items → ℕ
count nil = 0
count (cons _ js) = suc (count js)

abbrev encoded : Option Str → Option (List ℕ)
encoded none = none
encoded (some s) = encode s

-- the document with its tools replaced
abbrev pub rewritten : Fields → Fields → Items → Json
rewritten fs result kept =
    obj (put (codes "result") (obj (put (codes "tools") (arr kept) result)) fs)

unfoldable pub finish : Items → Items → Option (List ℕ) → FilterOutcome
finish tools kept none = failed
finish tools kept (some body) = record {
  body = some body;
  error_code = none;
  tools_returned = count kept;
  tools_filtered = count tools - count kept;
}

unfoldable pub encode_kept : Fields → Fields → Items → Option Items → FilterOutcome
unfolding finish count
encode_kept fs result tools none = failed
encode_kept fs result tools (some kept) =
    finish tools kept (encoded (dumps_finite true (rewritten fs result kept)))

unfoldable pub filter_tools :
    ToolPolicy → Option Fields → Fields → Fields → Option Json → FilterOutcome
unfolding keep_tools encode_kept
filter_tools p claims fs result (some (arr tools)) =
    encode_kept fs result tools (keep_tools p claims tools)
filter_tools p claims fs result _ = failed

unfoldable pub filter_result : ToolPolicy → Option Fields → Fields → Option Json → FilterOutcome
unfolding filter_tools
filter_result p claims fs (some (obj result)) =
    filter_tools p claims fs result (get (codes "tools") result)
filter_result p claims fs _ = failed

unfoldable pub filter_document :
    ToolPolicy → Option Fields → Result DecodeError Json → FilterOutcome
unfolding filter_result
filter_document p claims (ok (obj fs)) =
    if not (is_version_2 (text_of (get (codes "jsonrpc") fs)))
    then failed
    else if is_some (get (codes "error") fs)
    then failure upstream_error
    else filter_result p claims fs (get (codes "result") fs)
filter_document p claims _ = failed

unfoldable pub filter_tools_list :
    (List ℕ → Document) → List ℕ → ToolPolicy → Option Fields → FilterOutcome
unfolding filter_document
filter_tools_list scan raw p claims = filter_document p claims (loads plain (scan raw))
