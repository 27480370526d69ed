-- ===== src/Examples/Gateways.antt =====
-- src/mcp_gateway/config.py, __main__.py and the handler of app.py at concrete settings and requests.
use mcp_auth_gateway.Prelude.{
  ℕ, Str, Bool, true, false, ◌≡◌, ◌↔◌, refl, ap, arith, Option, none, some, [], ◌∷◌, codes,
  is_empty, eq_str, elem, lookup, lower, strip, strip_right, drop_while, starts_with, split, sorted,
  without, frozenset, Result, ok,
}
use mcp_auth_gateway.Prelude.Int.{pos, finite}
use mcp_auth_gateway.Json.{Json, str, Fields, end, field, get, put}
use mcp_auth_gateway.Json.Decode.{loads, no_duplicate_keys, repeated, dict, dict_from, decode}
use mcp_auth_gateway.Json.Print.{dumps, encode, encode_char, quote, escape, escape_all}
use mcp_auth_gateway.Policy
use mathlib.Core.Path.{subst}
use mcp_auth_gateway.Json.Print.Kinds.{IsStandard, AllMembers}
use mcp_auth_gateway.JsonRpc.Determined.{ok_of}
use mcp_auth_gateway.JsonRpc.{any_relative, parse_decoded, parse_method, parse_tail, parse_jsonrpc}
use mcp_auth_gateway.Verifier.{
  Jwt, VerifiedToken, all_header_chars, subject_ok, verify, algorithms_ok,
}
use mcp_auth_gateway.Verifier.Scopes.{claimed_tokens, validate, all_valid, parse_scopes}
use mcp_auth_gateway.Verifier.Cache.{KeyError}
use mcp_auth_gateway.Verifier.Setup.{JwksSettings, construct}
use mcp_auth_gateway.Config.{
  HttpUrl, Settings, symmetric_ones, algorithm_problems, jwks_problems, endpoint_problems,
  file_problems, number_problems, timeout_problem, timeout_problems, origin_problems,
  base_url_problems, problems, raise_problems, validate_runtime,
}
use mcp_auth_gateway.Config.Runnable.{IsRunnable, validate_runtime_iff}
use mcp_auth_gateway.App.Messages.{header, bearer_token}
use mcp_auth_gateway.App.{
  opened, check_origin, read_body, read_chunks, declares_more, authenticate, authenticate_by,
  verify_with, with_result, resolve_parse, resolve_call, held_scopes, claims_of, check_scopes,
  check_tool, with_token, with_call, Authorized, authorize,
}
use mcp_auth_gateway.App.Exchange.{Sent, raised}
use mcp_auth_gateway.App.Handle.{Forwarded, finish, proxy_mcp, forwarded_request}
use mcp_auth_gateway.App.Messages.{Request}
use mcp_auth_gateway.App.Handle.Identified.{IsIdentified, forwarded-IsIdentified}
use mcp_auth_gateway.App.Handle.Mediated.{IsMediated, proxy_mcp-mediates_iff}
use mcp_auth_gateway.App.Handle.Determined.{authorize_body_determines}
use mcp_auth_gateway.App.Handle.Trail.{IsTrail, proxy_mcp-IsTrail}
use mcp_auth_gateway.Start.{
  Served, jwks_settings, create_app, build, scope_policy_of, tool_policy_of, construct_verifier,
  verifier_of,
}
use mcp_auth_gateway.Start.Built.{IsServed, build_served_iff}
use mcp_auth_gateway.Start.Requests.{HasCaller, built-HasCaller}
use mcp_auth_gateway.Examples.Requests.{
  env, ping_document, scan_ping, with_bearer, ping_call, passed,
}

abbrev key_endpoint : HttpUrl
key_endpoint = record {
  scheme = codes "https";
  host = some (codes "idp");
  text = codes "https://idp/jwks";
}

abbrev upstream : HttpUrl
upstream = record {
  scheme = codes "http";
  host = some (codes "localhost");
  text = codes "http://localhost:9000/mcp";
}

abbrev gateway : Settings
gateway = record {
  host = codes "127.0.0.1";
  port = pos 8080;
  upstream_url = upstream;
  issuer = codes "https://idp";
  audience = codes "mcp";
  jwks_url = some key_endpoint;
  allow_insecure_jwks = false;
  allowed_algorithms = codes "RS256" ∷ [];
  leeway_seconds = pos 30;
  jwks_cache_ttl = pos 300;
  jwks_min_refresh_interval = finite (pos 10) 0;
  scope_policy_file = none;
  tool_policy_file = none;
  allowed_origins = [];
  require_auth = true;
  upstream_timeout = finite (pos 30) 0;
  connect_timeout = none;
  read_timeout = none;
  write_timeout = none;
  pool_timeout = none;
  max_request_bytes = pos 1024;
  max_response_bytes = pos 0;
  max_tools_list_bytes = pos 1024;
  public_base_url = none;
}

abbrev no_file : Str → Bool
no_file _ = false

abbrev no_json : Str → Option Json
no_json _ = none

validate_runtime_iff_example :
    (validate_runtime no_file gateway ≡ ok tt) ↔ IsRunnable no_file gateway
validate_runtime_iff_example = validate_runtime_iff no_file gateway

printed : (u : HttpUrl) → some key_endpoint ≡ some u → is_empty u.text ≡ false
printed u e = ground arith

abbrev app : Served
app = record {
  settings = gateway;
  verifier = some (jwks_settings gateway);
  policy = Policy.builtin;
  tool_policy = none;
}

build_served_iff_example :
    (build no_file no_json gateway ≡ ok app) ↔ IsServed no_file no_json gateway app
build_served_iff_example = build_served_iff gateway printed no_file no_json app

-- A library that takes every token for Alice's.
abbrev alice_claims : Fields
alice_claims = field (codes "sub") (str (codes "alice")) end

abbrev token_header : Fields
token_header =
    field (codes "alg") (str (codes "RS256")) (field (codes "kid") (str (codes "k1")) end)

abbrev claim_text : Json → Str
claim_text (str s) = s
claim_text _ = []

abbrev library : JwksSettings → Jwt ℕ
library _ = record {
  get_unverified_header = λ _. some token_header;
  decode = λ _ _. some alice_claims;
  text = claim_text;
}

abbrev one_key : JwksSettings → Str → Result KeyError ℕ
one_key _ _ = ok 7

abbrev alice : VerifiedToken
alice = record { subject = codes "alice"; scopes = []; claims = alice_claims }

abbrev admitted : Authorized
admitted = record {
  audit = with_call ping_call [] (
      with_token (some alice)
        (opened (create_app library one_key scan_ping app).settings (codes "id") with_bearer));
  verified = some alice;
  call = ping_call;
}

built : build no_file no_json gateway ≡ ok app
unfolding build validate_runtime problems symmetric_ones algorithm_problems jwks_problems
    endpoint_problems file_problems number_problems timeout_problem timeout_problems origin_problems
    base_url_problems raise_problems scope_policy_of tool_policy_of construct_verifier verifier_of
    construct algorithms_ok strip drop_while strip_right eq_str starts_with
built = refl

let_through :
    authorize (create_app library one_key scan_ping app) (codes "id") with_bearer ≡ ok admitted
unfolding create_app verify subject_ok all_header_chars parse_scopes claimed_tokens validate
    all_valid authorize check_origin header lookup eq_str read_body authenticate starts_with lower
    strip parse_jsonrpc loads no_duplicate_keys elem get put split encode dumps quote escape
    escape_all read_chunks repeated dict dict_from decode bearer_token drop_while strip_right
    Policy.check Policy.judge Policy.match Policy.builtin without frozenset sorted with_token opened
    with_call held_scopes claims_of check_scopes check_tool any_relative declares_more encode_char
    authenticate_by verify_with with_result resolve_parse resolve_call parse_decoded parse_method
    parse_tail
let_through = refl

built-HasCaller_example : HasCaller library one_key scan_ping gateway with_bearer admitted
built-HasCaller_example =
    built-HasCaller library one_key scan_ping no_file no_json gateway app (codes "id") with_bearer
      admitted printed refl built let_through

-- An upstream that breaks off.
abbrev broken_upstream : Forwarded → Sent
broken_upstream _ = raised

sent_on :
    (proxy_mcp
      (create_app library one_key scan_ping app)
      (codes "http://up")
      broken_upstream
      (codes "id")
      with_bearer).forwarded
    ≡ some (forwarded_request (codes "http://up") with_bearer admitted)
unfolding proxy_mcp finish
sent_on =
    ap
      (λ x.
        (finish (create_app library one_key scan_ping app) (codes "http://up") broken_upstream
          with_bearer x).forwarded)
      let_through

forwarded-IsIdentified_example :
    IsIdentified
      (library (jwks_settings gateway))
      gateway.allowed_algorithms
      (one_key (jwks_settings gateway))
      (codes "id")
      with_bearer
      (forwarded_request (codes "http://up") with_bearer admitted).headers
unfolding create_app
forwarded-IsIdentified_example =
    forwarded-IsIdentified (library (jwks_settings gateway)) gateway.allowed_algorithms
      (one_key (jwks_settings gateway)) (create_app library one_key scan_ping app)
      (codes "http://up") broken_upstream (codes "id") with_bearer
      (forwarded_request (codes "http://up") with_bearer admitted) refl refl sent_on

proxy_mcp-mediates_iff_example :
    ((proxy_mcp env (codes "http://up") broken_upstream (codes "id") with_bearer).forwarded
      ≡ some (forwarded_request (codes "http://up") with_bearer passed))
    ↔ IsMediated env
        (codes "http://up")
        (codes "id")
        with_bearer
        (forwarded_request (codes "http://up") with_bearer passed)
proxy_mcp-mediates_iff_example =
    proxy_mcp-mediates_iff env (codes "http://up") broken_upstream (codes "id") with_bearer
      (forwarded_request (codes "http://up") with_bearer passed)

proxy_mcp-IsTrail_example :
    IsTrail
      (codes "id")
      (proxy_mcp env (codes "http://up") broken_upstream (codes "id") with_bearer).events
      (proxy_mcp env (codes "http://up") broken_upstream (codes "id") with_bearer).reply
proxy_mcp-IsTrail_example =
    proxy_mcp-IsTrail env (codes "http://up") broken_upstream (codes "id") with_bearer

-- The same request with other white space, say.
abbrev respaced : Request
respaced = record with_bearer { chunks = (1 ∷ 32 ∷ 2 ∷ 3 ∷ []) ∷ [] }

abbrev passed_again : Authorized
passed_again = record {
  audit =
      with_call ping_call []
        (with_token passed.verified (opened env.settings (codes "id2") respaced));
  verified = passed.verified;
  call = ping_call;
}

both_pass :
    (authorize env (codes "id") with_bearer ≡ ok passed)
    × (authorize env (codes "id2") respaced ≡ ok passed_again)
unfolding create_app verify subject_ok all_header_chars parse_scopes claimed_tokens validate
    all_valid authorize check_origin header lookup eq_str read_body authenticate starts_with lower
    strip parse_jsonrpc loads no_duplicate_keys elem get put split encode dumps quote escape
    escape_all read_chunks repeated dict dict_from decode bearer_token drop_while strip_right
    Policy.check Policy.judge Policy.match Policy.builtin without frozenset sorted with_token opened
    with_call held_scopes claims_of check_scopes check_tool any_relative declares_more encode_char
    authenticate_by verify_with with_result resolve_parse resolve_call parse_decoded parse_method
    parse_tail
both_pass = (refl, refl)

ping-IsStandard : (j : Json) → loads no_duplicate_keys ping_document ≡ ok j → IsStandard j
unfolding loads no_duplicate_keys dict dict_from decode repeated put elem eq_str IsStandard
    AllMembers
ping-IsStandard j e = subst IsStandard (ok_of e) (tt, tt)

authorize_body_determines_example : ping_call ≡ ping_call
authorize_body_determines_example =
    authorize_body_determines env (codes "id") (codes "id2") with_bearer respaced passed
      passed_again ping-IsStandard ping-IsStandard both_pass.0 both_pass.1 refl
