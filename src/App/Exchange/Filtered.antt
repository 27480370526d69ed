-- ===== src/App/Exchange/Filtered.antt =====
-- What a filtered tools/list reply holds.
use mcp_auth_gateway.Prelude.{ℕ, ◌≤◌, ◌≡◌, Option, some, List, length}
use mcp_auth_gateway.Json.{Fields}
use mcp_auth_gateway.Json.Decode.{Document}
use mcp_auth_gateway.ToolPolicy.{ToolPolicy}
use mcp_auth_gateway.ToolsList.{filter_tools_list}
use mcp_auth_gateway.ToolsList.Shown.{Shows}
use mcp_auth_gateway.App.Messages.{Settings}

-- A body that was read within the limit, and the filter's result for it.
pub record IsFilteredBody (s : Settings) (scan : List ℕ → Document) (policy : Option ToolPolicy)
    (claims : Option Fields) (body : List ℕ) : Type 0 where
  pub tool_policy : ToolPolicy
  pub raw : List ℕ
  pub given : policy ≡ some tool_policy
  pub within : length raw ≤ s.max_tools_list_bytes
  pub shown : Shows scan raw tool_policy claims (filter_tools_list scan raw tool_policy claims)
  pub same : (filter_tools_list scan raw tool_policy claims).body ≡ some body
