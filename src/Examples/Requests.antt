-- ===== src/Examples/Requests.antt =====
-- src/mcp_gateway/app.py and src/mcp_gateway/tools_list.py at concrete requests and responses.
use mcp_auth_gateway.Prelude.{
  ℕ, Str, true, false, ◌≡◌, refl, arith, none, some, List, [], ◌∷◌, codes, sorted, elem, eq_str,
  split, frozenset, lookup, strip, lower, drop_while, strip_right, starts_with, without, Result, ok,
  err, inl,
}
use mcp_auth_gateway.Json.{Json, Items, nil, cons, str, arr, obj, Fields, end, field, get, put}
use mcp_auth_gateway.Json.Decode.{
  Document, Raw, loads, plain, dict, dict_from, decode, repeated, no_duplicate_keys, items_end,
  item, fields_end, pair,
}
use mcp_auth_gateway.Json.Decode.Differential.{first_wins, loads_unambiguous}
use mcp_auth_gateway.Json.Print.{dumps, encode, encode_char, quote, escape, escape_all}
use mcp_auth_gateway.Policy
use mcp_auth_gateway.ToolPolicy.{ToolPolicy}
use mcp_auth_gateway.JsonRpc.{
  JsonRpcParse, unicode_encode_error, any_relative, parse_decoded, parse_method, parse_tail,
  parse_jsonrpc,
}
use mcp_auth_gateway.JsonRpc.Accepted.{IsParsed, parse_jsonrpc-IsAccepted}
use mcp_auth_gateway.JsonRpc.Surrogates.{parse_jsonrpc-surrogate}
use mcp_auth_gateway.ToolsList.{filter_tools_list}
use mcp_auth_gateway.ToolsList.Shown.{Shows, filter-Shows}
use mcp_auth_gateway.Verifier.{TokenError, VerifiedToken}
use mcp_auth_gateway.Audit.{AuditRecord, rejected}
use mcp_auth_gateway.App.Messages.{Settings, Request, Env, header, bearer_token, unauthorized}
use mcp_auth_gateway.App.{
  opened, check_origin, read_body, read_chunks, declares_more, authenticate, authenticate_by,
  verify_with, with_result, resolve_parse, resolve_call, held_scopes, claims_of, check_scopes,
  check_tool, with_token, with_call, Authorized, Call, authorize,
}
use mcp_auth_gateway.App.Admitted.{IsAuthorized, authorize-IsAuthorized}
use mcp_auth_gateway.App.Logged.{IsLogged, authorize-IsLogged}

-- Scanners that read one document from every body.
abbrev pub ping_document : Document
ping_document = record {
  value = Raw.obj (pair (codes "method") (Raw.str (codes "ping")) fields_end);
  extra = false;
}

abbrev pub scan_ping : List ℕ → Document
scan_ping _ = ping_document

abbrev ping : Fields
ping = field (codes "method") (str (codes "ping")) end

abbrev pub ping_parse : JsonRpcParse
ping_parse = record {
  method = some (codes "ping");
  tool_name = none;
  canonical_body = some (codes "{\"method\":\"ping\"}");
  error = none;
}

loads_unambiguous_example :
    (loads plain ping_document ≡ ok (obj ping)) × (loads first_wins ping_document ≡ ok (obj ping))
unfolding loads no_duplicate_keys elem mcp_auth_gateway.Json.put
loads_unambiguous_example = loads_unambiguous ping_document (obj ping) refl

parse_jsonrpc-IsAccepted_example : IsParsed (scan_ping []) ping_parse
unfolding parse_jsonrpc loads no_duplicate_keys elem get mcp_auth_gateway.Json.put eq_str split
    encode dumps
parse_jsonrpc-IsAccepted_example = parse_jsonrpc-IsAccepted scan_ping [] ping_parse refl refl

-- A text with one lone surrogate, as the id of a request.
abbrev lone : Str
lone = 0xd800 ∷ []

abbrev surrogate_id : Fields
surrogate_id = field (codes "method") (str (codes "ping")) (field (codes "id") (str lone) end)

abbrev scan_surrogate : List ℕ → Document
scan_surrogate _ = record {
  value = Raw.obj (
      pair (codes "method") (Raw.str (codes "ping")) (pair (codes "id") (Raw.str lone) fields_end));
  extra = false;
}

parse_jsonrpc-surrogate_example : parse_jsonrpc scan_surrogate [] ≡ err unicode_encode_error
unfolding loads no_duplicate_keys elem eq_str mcp_auth_gateway.Json.put get
    mcp_auth_gateway.JsonRpc.any_relative split
parse_jsonrpc-surrogate_example =
    parse_jsonrpc-surrogate scan_surrogate [] surrogate_id (codes "ping") (codes "id") lone 0xd800
      refl refl refl (omega arith) refl refl (inl refl) refl

-- A response that lists two tools, of which the policy allows one.
abbrev pub search_only : ToolPolicy
search_only = record { allowed_tools = codes "search" ∷ []; claim = codes "groups"; rules = [] }

abbrev raw_tool : Str → Raw
raw_tool name = Raw.obj (pair (codes "name") (Raw.str name) fields_end)

abbrev pub scan_tools : List ℕ → Document
scan_tools _ = record {
  value = Raw.obj (
      pair (codes "jsonrpc") (Raw.str (codes "2.0")) (
        pair (codes "result")
          (Raw.obj (
            pair (codes "tools")
              (Raw.arr
                (item (raw_tool (codes "search")) (item (raw_tool (codes "drop")) items_end)))
              fields_end))
          fields_end));
  extra = false;
}

filter-Shows_example :
    Shows scan_tools [] search_only none (filter_tools_list scan_tools [] search_only none)
unfolding filter_tools_list loads plain get mcp_auth_gateway.Json.put eq_str
    mcp_auth_gateway.ToolPolicy.check elem mcp_auth_gateway.Json.Print.dumps_finite
    mcp_auth_gateway.Json.Print.is_finite encode dumps
filter-Shows_example = filter-Shows search_only none scan_tools [] refl

abbrev pub settings : Settings
settings = record {
  host = codes "127.0.0.1";
  port = 8080;
  issuer = codes "https://idp";
  audience = codes "mcp";
  require_auth = true;
  allowed_origins = [];
  max_request_bytes = 1024;
  max_response_bytes = 0;
  max_tools_list_bytes = 1024;
  public_base_url = none;
}

abbrev pub alice : VerifiedToken
alice = record { subject = codes "alice"; scopes = []; claims = end }

abbrev pub any_token : Str → Result TokenError VerifiedToken
any_token _ = ok alice

abbrev pub env : Env
env = record {
  settings = settings;
  verifier = some any_token;
  policy = Policy.builtin;
  tool_policy = none;
  scan = scan_ping;
}

abbrev pub with_bearer : Request
with_bearer = record {
  headers = (codes "authorization", codes "Bearer t") ∷ [];
  client = none;
  chunks = (1 ∷ 2 ∷ []) ∷ (3 ∷ []) ∷ [];
}

abbrev without_bearer : Request
without_bearer = record { headers = []; client = none; chunks = [] }

abbrev pub ping_call : Call
ping_call = record { method = codes "ping"; tool_name = none; body = codes "{\"method\":\"ping\"}" }

abbrev pub passed : Authorized
passed = record {
  audit =
      with_call ping_call [] (with_token (some alice) (opened settings (codes "id") with_bearer));
  verified = some alice;
  call = ping_call;
}

authorize-IsAuthorized_example : IsAuthorized env with_bearer passed
unfolding authorize check_origin header lookup eq_str read_body authenticate starts_with lower strip
    parse_jsonrpc loads no_duplicate_keys elem get put split encode dumps quote escape escape_all
    read_chunks repeated dict dict_from decode bearer_token drop_while strip_right Policy.check
    Policy.judge Policy.match Policy.builtin without frozenset sorted with_token opened with_call
    held_scopes claims_of check_scopes check_tool any_relative declares_more encode_char
    authenticate_by verify_with with_result resolve_parse resolve_call parse_decoded parse_method
    parse_tail
authorize-IsAuthorized_example = authorize-IsAuthorized env (codes "id") with_bearer passed refl

abbrev missing : AuditRecord
missing = record (opened settings (codes "id") without_bearer) {
  decision = rejected;
  error_code = some (codes "missing_token");
  reason = none;
}

authorize-IsLogged_example :
    IsLogged (codes "id") missing (unauthorized settings (codes "missing bearer token") false)
unfolding authorize mcp_auth_gateway.App.check_origin mcp_auth_gateway.App.Messages.header lookup
    mcp_auth_gateway.App.read_body mcp_auth_gateway.App.authenticate opened
authorize-IsLogged_example =
    authorize-IsLogged env (codes "id") without_bearer missing
      (unauthorized settings (codes "missing bearer token") false) refl
