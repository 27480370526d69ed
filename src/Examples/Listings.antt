-- ===== src/Examples/Listings.antt =====
-- A tools/list reply of src/mcp_gateway/app.py, and a call of a tool that it lists.
use mcp_auth_gateway.Prelude.{ℕ, Str, false, none, some, List, [], ◌∷◌, codes, ◌==◌, if◌then◌else◌}
use mcp_auth_gateway.Json.{Json}
use mcp_auth_gateway.Json.Decode.{Document, Raw, fields_end, pair}
use mcp_auth_gateway.Policy
use mcp_auth_gateway.Policy.{ScopePolicy}
use mcp_auth_gateway.ToolPolicy
use mcp_auth_gateway.ToolsList
use mcp_auth_gateway.App.Messages.{Env, Request}
use mcp_auth_gateway.App.{Call, tools_call}
use mcp_auth_gateway.App.Stream.{ended}
use mcp_auth_gateway.App.Forward.{Headers}
use mcp_auth_gateway.App.Exchange.{read_end, read_chunk, Sent, responded}
use mcp_auth_gateway.App.Handle.{Forwarded}
use mcp_auth_gateway.Examples.Requests.{env, scan_tools, search_only}

-- The bytes 1 and 2 stand for the bodies of the two requests, and 3 for that of the response.
abbrev list_document : Document
list_document = record {
  value = Raw.obj (pair (codes "method") (Raw.str (codes "tools/list")) fields_end);
  extra = false;
}

abbrev call_document : Document
call_document = record {
  value = Raw.obj (
      pair (codes "method") (Raw.str (codes "tools/call")) (
        pair (codes "params") (Raw.obj (pair (codes "name") (Raw.str (codes "search")) fields_end))
          fields_end));
  extra = false;
}

abbrev scan : List ℕ → Document
scan [] = scan_tools []
scan (n ∷ _) = if n == 1 then list_document else if n == 2 then call_document else scan_tools []

-- Every method is open to all, and one tool.
abbrev open_policy : ScopePolicy
open_policy = record { rules = []; default = []; deny_by_default = false }

abbrev tool_env : Env
tool_env = record env { policy = open_policy; tool_policy = some search_only; scan = scan }

abbrev request : ℕ → Request
request n = record {
  headers = (codes "authorization", codes "Bearer t") ∷ [];
  client = none;
  chunks = (n ∷ []) ∷ [];
}

abbrev lists_two : Forwarded → Sent
lists_two _ = responded (record {
  status = 200;
  headers = (codes "content-type", codes "application/json") ∷ [];
  decoded = read_chunk (3 ∷ []) read_end;
  raw = ended;
})

abbrev one_tool : List ℕ
one_tool = codes "{\"jsonrpc\":\"2.0\",\"result\":{\"tools\":[{\"name\":\"search\"}]}}"

abbrev no_store : Headers
no_store = (codes "Cache-Control", codes "no-store") ∷ []

abbrev search_call : Call
search_call = record {
  method = tools_call;
  tool_name = some (codes "search");
  body = codes "{\"method\":\"tools/call\",\"params\":{\"name\":\"search\"}}";
}

abbrev up : Str
up = codes "http://up"
