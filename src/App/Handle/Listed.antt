-- ===== src/App/Handle/Listed.antt =====
-- src/mcp_gateway/app.py, `proxy_mcp`: what a caller sees in a tools/list reply, and what it can call.
use mcp_auth_gateway.Json.{Json}
use mcp_auth_gateway.Policy
use mcp_auth_gateway.ToolPolicy
use mcp_auth_gateway.ToolPolicy.{ToolPolicy, ToolDecision}
