-- ===== src/Start/Application.antt =====
-- src/mcp_gateway/app.py: what `create_app` makes before its handlers, and the `lifespan` of the HTTP
-- client. The handlers read the settings, the verifier and the policies as `Env`.
use mcp_auth_gateway.Prelude.{
  ℕ, suc, ◌≡◌, refl, Str, some, List, map, elem, elem-frozenset, frozenset, Result,
}
use mcp_auth_gateway.Json.Decode.{Document}
use mcp_auth_gateway.Verifier.{Jwt}
use mcp_auth_gateway.Verifier.Cache.{KeyError}
use mcp_auth_gateway.Verifier.Setup.{JwksSettings}
use mcp_auth_gateway.App.Messages.{Env, normalize_origin}
use mcp_auth_gateway.App.{origin_allowed}
use mcp_auth_gateway.App.Endpoints.{Timeout, build_timeout}
use mcp_auth_gateway.Start.{Served, create_app}

-- The HTTP client that all requests share: its timeouts, and how often it was closed.
pub record Client : Type 0 where
  pub timeout : Timeout
  pub closed : ℕ

pub record Application : Type 0 where
  pub env : Env
  pub client : Client
  pub allowed_origins : List Str

-- `create_app`
unfoldable pub make_application :
    {K : Type 0}
    → (JwksSettings → Jwt K)
    → (JwksSettings → Str → Result KeyError K)
    → (List ℕ → Document)
    → Served
    → Application
unfolding create_app build_timeout
make_application jwt resolve_key scan app = record {
  env = create_app jwt resolve_key scan app;
  client = record { timeout = build_timeout app.settings; closed = 0 };
  allowed_origins = frozenset (map normalize_origin app.settings.allowed_origins);
}

-- How the server's run ends: it is stopped, or an exception is raised into the generator.
pub data Ending : Type 0 where
  stopped raised : Ending

-- `lifespan` from its `yield` on: the client is closed either way, and an exception goes on
unfoldable pub lifespan : Application → Ending → Application × Ending
lifespan app ending =
    (record app { client = record app.client { closed = suc app.client.closed } }, ending)

-- The set of origins that `create_app` normalizes once decides as the settings do.
pub allowed_origins-same :
    {K : Type 0} (jwt : JwksSettings → Jwt K) (resolve_key : JwksSettings → Str → Result KeyError K)
    (scan : List ℕ → Document) (app : Served) (origin : Str)
    → elem (normalize_origin origin) (make_application jwt resolve_key scan app).allowed_origins
      ≡ origin_allowed (make_application jwt resolve_key scan app).env.settings (some origin)
unfolding make_application origin_allowed create_app
allowed_origins-same jwt resolve_key scan app origin =
    elem-frozenset (normalize_origin origin) (map normalize_origin app.settings.allowed_origins)

-- The client of an application is closed exactly once, however the server's run ends.
pub client_closed_once :
    {K : Type 0} (jwt : JwksSettings → Jwt K) (resolve_key : JwksSettings → Str → Result KeyError K)
    (scan : List ℕ → Document) (app : Served) (ending : Ending)
    → (lifespan (make_application jwt resolve_key scan app) ending).0.client.closed ≡ 1
unfolding lifespan make_application
client_closed_once jwt resolve_key scan app ending = refl
