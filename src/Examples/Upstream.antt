-- ===== src/Examples/Upstream.antt =====
-- src/mcp_gateway/app.py at concrete exchanges with the upstream.
use mcp_auth_gateway.Prelude.{◌≡◌, ◌↔◌, refl, arith, some, [], ◌∷◌, codes, inl, elem, eq_str, lower}
use mcp_auth_gateway.Json.{end}
use mcp_auth_gateway.Audit.{completed}
use mcp_auth_gateway.Verifier.{VerifiedToken}
use mcp_auth_gateway.App.Stream.{Arriving, ended, chunk, body_iter}
use mcp_auth_gateway.App.Stream.Capped.{
  IsCapped, IsWhole, body_iter-IsCapped, body_iter_completed_iff,
}
use mcp_auth_gateway.App.Forward.{Headers, forwarded_headers}
use mcp_auth_gateway.App.Forward.Trusted.{Origin, forwarded_headers-Origin}

-- Two chunks, of which the second is beyond a cap of 4.
abbrev two_chunks : Arriving
two_chunks = chunk (1 ∷ 2 ∷ 3 ∷ []) (chunk (4 ∷ 5 ∷ []) ended)

body_iter-IsCapped_example : IsCapped 4 0 (body_iter 4 0 two_chunks)
body_iter-IsCapped_example = body_iter-IsCapped 4 two_chunks (omega arith)

body_iter_completed_iff_example :
    ((body_iter 4 0 two_chunks).result ≡ completed)
    ↔ IsWhole 4 0 two_chunks (body_iter 4 0 two_chunks)
body_iter_completed_iff_example = body_iter_completed_iff 4 two_chunks

-- A client that forges its subject.
abbrev bob : VerifiedToken
bob = record { subject = codes "bob"; scopes = codes "mcp:read" ∷ []; claims = end }

abbrev forged : Headers
forged = (codes "accept", codes "*/*") ∷ (codes "x-forwarded-sub", codes "root") ∷ []

forwarded_headers-Origin_example :
    Origin (codes "id") (some bob) forged (codes "accept") (codes "*/*")
unfolding forwarded_headers elem eq_str lower
forwarded_headers-Origin_example =
    forwarded_headers-Origin (codes "id") (some bob) forged (codes "accept") (codes "*/*")
      (inl refl)
