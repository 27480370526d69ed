-- ===== src/App/Forward.antt =====
-- src/mcp_gateway/app.py, "3. Reverse-proxy": the headers of the request to the upstream.
pub mod Trusted
use mcp_auth_gateway.Prelude.{
  Str, Bool, true, false, Option, none, some, List, [], ◌∷◌, codes, eq_str, elem, lower, join,
  sorted, if◌then◌else◌,
}
use mcp_auth_gateway.Verifier.{VerifiedToken}

-- `_FORWARDED_REQUEST_HEADERS`
abbrev pub forwarded_request_headers : List Str
forwarded_request_headers =
    codes "accept"
    ∷ codes "accept-language"
    ∷ codes "content-type"
    ∷ codes "mcp-protocol-version"
    ∷ codes "mcp-session-id"
    ∷ codes "last-event-id"
    ∷ codes "traceparent"
    ∷ codes "tracestate"
    ∷ []

abbrev pub Headers : Type 0
Headers = List (Str × Str)

-- `d[k] = v`
unfoldable pub set_item : Str → Str → Headers → Headers
set_item k v [] = (k, v) ∷ []
set_item k v ((j, w) ∷ d) = if eq_str k j then (j, v) ∷ d else (j, w) ∷ set_item k v d

-- the dictionary comprehension over `request.headers.items()`
unfoldable pub kept_headers : Headers → Headers → Headers
unfolding set_item
kept_headers d [] = d
kept_headers d ((k, v) ∷ items) =
    kept_headers (if elem (lower k) forwarded_request_headers then set_item k v d else d) items

abbrev pub request_id_header : Str
request_id_header = codes "X-Request-Id"

abbrev pub sub_header : Str
sub_header = codes "X-Forwarded-Sub"

abbrev pub scopes_header : Str
scopes_header = codes "X-Forwarded-Scopes"

-- `" ".join(sorted(verified.scopes))`
abbrev pub joined_scopes : VerifiedToken → Str
joined_scopes v = join (codes " ") (sorted v.scopes)

unfoldable pub with_identity : Option VerifiedToken → Headers → Headers
unfolding set_item
with_identity none d = d
with_identity (some v) d =
    set_item scopes_header (joined_scopes v) (set_item sub_header v.subject d)

-- `fwd_headers`
unfoldable pub forwarded_headers : Str → Option VerifiedToken → Headers → Headers
unfolding kept_headers with_identity
forwarded_headers request_id verified items =
    with_identity verified (set_item request_id_header request_id (kept_headers [] items))
