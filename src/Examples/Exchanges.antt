-- ===== src/Examples/Exchanges.antt =====
-- src/mcp_gateway/app.py at a concrete response of the upstream.
use mcp_auth_gateway.Prelude.{ℕ, none, List, [], ◌∷◌, codes}
use mcp_auth_gateway.ToolPolicy
use mcp_auth_gateway.ToolsList
use mcp_auth_gateway.Audit.{AuditRecord, new_record}
use mcp_auth_gateway.App.Stream.{ended}
use mcp_auth_gateway.App.Forward.{Headers}
use mcp_auth_gateway.App.Exchange.{read_end, read_chunk, Upstream}

abbrev before_exchange : AuditRecord
before_exchange = new_record (codes "id") none

abbrev two_tools : Upstream
two_tools = record {
  status = 200;
  headers = (codes "content-type", codes "application/json; charset=utf-8") ∷ [];
  decoded = read_chunk (1 ∷ []) read_end;
  raw = ended;
}

abbrev one_tool : List ℕ
one_tool = codes "{\"jsonrpc\":\"2.0\",\"result\":{\"tools\":[{\"name\":\"search\"}]}}"

abbrev no_store : Headers
no_store = (codes "Cache-Control", codes "no-store") ∷ []
