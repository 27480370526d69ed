-- ===== src/Lib.antt =====
-- The MCP auth gateway: an HTTP reverse proxy that authenticates and authorizes each request before
-- it reaches an MCP server. Paths are from the root of the repository.
--
-- The parts and their files. A request goes through `authorize` in App (src/mcp_gateway/app.py,
-- `proxy_mcp`): its origin, the size of its body, its token, its JSON-RPC method, the scopes that the
-- method demands and the tool that it calls. App calls the parts below it as the handler does, and
-- App/Messages holds the request, the settings and the error responses. Each refusal is a value with
-- the audit record that is emitted and the response; an exception that nothing catches is `crashed`.
-- App/Forward has the headers that the handler then hands to the HTTP client with the call: a request
-- is forwarded when `client.stream` is called with it, also if that raises. App/Exchange is the rest
-- of the handler, from what the HTTP client makes of that call to the events and the reply: it calls
-- ToolsList for a tools/list response, and App/Stream for any other, which is `body_iter`: what the
-- upstream and the client do while it passes the chunks on is its argument. App/Handle composes these
-- to `proxy_mcp` as a whole, with what the upstream makes of a request as a function.
--   * Start is src/mcp_gateway/__main__.py: `build` makes an application of the settings, the policy
--     files and the verifier, and `main` runs it. Config is src/mcp_gateway/config.py, the settings and
--     their check `validate_runtime`; Verifier/Setup has the guards of `JwksVerifier.__init__`.
--     Start/Application is `create_app` of src/mcp_gateway/app.py but for its handlers, with the lifespan
--     of its HTTP client. Start/Logging is `configure_audit_logging`, with what Python's `logging` then does with an event.
--   * Json is a decoded value; Json/Decode is how `json.loads` builds it with the hooks of
--     src/mcp_gateway/app.py and src/mcp_gateway/tools_list.py; Json/Print is `json.dumps` and UTF-8.
--   * Policy is src/mcp_gateway/policy.py (`_match`, `check`, `builtin`), and Policy/File its
--     `from_file`.
--   * ToolPolicy is src/mcp_gateway/tool_policy.py (`_claim_values`, `check`, `check_many`), and
--     ToolPolicy/File its `from_file`.
--   * ToolsList is src/mcp_gateway/tools_list.py (`filter_tools_list`).
--   * JsonRpc is `_parse_jsonrpc` of src/mcp_gateway/app.py. JsonRpc/Segments and Json/Decode/Repeats
--     say what it refuses, without the code's own tests.
--   * Verifier is `JwksVerifier.verify` of src/mcp_gateway/verifier.py, and Verifier/Scopes its
--     `_parse_scopes`. Verifier/Cache has `_resolve_key` and `ready`, cut where the lock is taken and
--     left; Verifier/Cache/Threads lets any number of threads run these sections in any order, each
--     at any later time, with any answer of a refresh. Verifier/Cache/Threads/Runs has runs of these
--     sections and Verifier/Cache/Threads/Progress how far a thread is from the end of its call. Verifier/Keys has what a refresh fetches and
--     parses (`_fetch_jwks`, `_parse_jwks`). Verifier/Cache/Threads/Store is what the cache promises to
--     those who use it, as steps of a store that holds one key document.
--   * Audit is the record and the level of its event in src/mcp_gateway/audit.py, and Audit/Line the
--     JSON line of an event. App/Endpoints has the health tests and the resource metadata.
--   * Pkce is src/mcp_gateway/pkce.py, for clients; no other part uses it. Pkce/Query is a reader of
--     the query of its URL.
--   * Harness is the scripts of verification/ for a check by hand: Harness/Mint is mint_token.py,
--     Harness/Keys is gen_keys.py, Harness/Servers is jwks_server.py and stub_upstream.py,
--     Harness/Client is e2e_client.py, and Harness/Options the options of their command lines.
--     Harness/Checked and Harness/Found put them before the handler and the key cache.
--   * Prelude has texts, sets as lists, exceptions as results, and `int` and `float` as the settings
--     compare them; Examples runs the theorems at concrete inputs.
--
-- Texts are lists of code points and bodies lists of bytes, both over the native natural numbers. A
-- `frozenset` is a list that is read through `elem`, a `dict` an association list in insertion order.
-- Clock readings are natural numbers that do not go back, where Python has floats. Every loop of the
-- code goes over a list; only `str` and
-- `int.bit_length` of a number n run on fuel, n + 1 and n, which is enough for its digits and its bits.
--
-- Parameters: the scanner of `json.loads` (from bytes to a document in the order of the text), PyJWT
-- with the `str` of a claim, the HTTP client and the network, SHA-256, and the files. A result holds for
-- all of them.
--
-- Not modelled: how pydantic reads the settings from the environment, and the web server and its
-- rendering of responses; in verification/ the two MCP servers, which only hand a tool to a library, the
-- generation of the key, and the sockets. The texts of the reasons and the latency of an audit event are
-- arguments.
pub mod Prelude
pub mod Json
pub mod Policy
pub mod ToolPolicy
pub mod ToolsList
pub mod JsonRpc
pub mod Verifier
pub mod Audit
pub mod App
pub mod Config
pub mod Start
pub mod Harness
pub mod Pkce
pub mod Examples
