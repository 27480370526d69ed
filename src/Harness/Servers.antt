-- ===== src/Harness/Servers.antt =====
-- verification/jwks_server.py, `do_GET`, and verification/stub_upstream.py, `do_POST`. A response is
-- its status, its headers and what is written after them.
use mcp_auth_gateway.Prelude.{
  ℕ, Str, Option, none, some, List, [], ◌∷◌, codes, decimal, digits_value, eq_str, length,
  if◌then◌else◌,
}

pub record Response : Type 0 where
  pub status : ℕ
  pub headers : List (Str × Str)
  pub body : List ℕ

abbrev pub json_response : List ℕ → Response
json_response body = record {
  status = 200;
  headers =
      (codes "Content-Type", codes "application/json")
      ∷ (codes "Content-Length", decimal (length body))
      ∷ [];
  body = body;
}

abbrev pub jwks_path : Str
jwks_path = codes "/.well-known/jwks.json"

-- `Handler.do_GET` of the key server, for the bytes of its file
unfoldable pub do_get : List ℕ → Str → Response
do_get payload path =
    if eq_str path jwks_path
    then json_response payload
    else record { status = 404; headers = []; body = [] }

-- `body` of the stub
abbrev pub reached : List ℕ
reached = codes "{\"jsonrpc\": \"2.0\", \"result\": {\"upstream\": \"reached\"}, \"id\": 1}"

-- `Handler.do_POST` of the stub, for a `Content-Length` as HTTP has it: digits, or none. `none` is
-- the exception of `int`.
unfoldable pub do_post : Option Str → Option Response
do_post none = some (json_response reached)
do_post (some content_length) = elim (digits_value content_length) [
  | none ↦ none
  | some n ↦ some (json_response reached)
]
