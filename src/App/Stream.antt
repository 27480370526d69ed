-- ===== src/App/Stream.antt =====
-- src/mcp_gateway/app.py, `body_iter`: the stream of an upstream response to the client.
pub mod Capped
use mcp_auth_gateway.Prelude.{
  ℕ, ◌+◌, Str, Bool, true, false, ◌&&◌, Option, none, some, List, [], ◌∷◌, length, ltb,
  if◌then◌else◌,
}
use mcp_auth_gateway.Audit.{
  StreamResult, completed, client_disconnected, truncated_response_too_large, upstream_read_error,
}

-- What `upstream.aiter_raw()` does, with what the client does meanwhile.
pub data Arriving : Type 0 where
  ended : Arriving
  -- an httpx error, by the name of its class
  broken : Str → Arriving
  -- the wait for a chunk is cancelled
  cancelled : Arriving
  -- a chunk after which the client is still there, or at whose `yield` it goes away
  chunk : List ℕ → Arriving → Arriving
  abandoned : List ℕ → Arriving

-- `reason` is what the record's reason is set to, if it is.
pub record Streamed : Type 0 where
  pub yielded : List (List ℕ)
  pub result : StreamResult
  pub sent : ℕ
  pub reason : Option Str

-- `sent` after a chunk: it is counted only under a cap
abbrev pub counted : ℕ → ℕ → List ℕ → ℕ
counted cap sent c = if ltb 0 cap then sent + length c else sent

abbrev pub exceeds : ℕ → ℕ → Bool
exceeds cap sent = ltb 0 cap && ltb cap sent

abbrev pub ends : StreamResult → ℕ → Streamed
ends result sent = record { yielded = []; result = result; sent = sent; reason = none }

abbrev pub after_chunk : List ℕ → Streamed → Streamed
after_chunk c s = record s { yielded = c ∷ s.yielded }

-- `body_iter` from a value of `sent` on
unfoldable pub body_iter : ℕ → ℕ → Arriving → Streamed
body_iter cap sent ended = ends completed sent
body_iter cap sent (broken name) = record {
  yielded = [];
  result = upstream_read_error;
  sent = sent;
  reason = some name;
}
body_iter cap sent cancelled = ends client_disconnected sent
body_iter cap sent (abandoned c) =
    if exceeds cap (counted cap sent c)
    then ends truncated_response_too_large (counted cap sent c)
    else after_chunk c (ends client_disconnected (counted cap sent c))
body_iter cap sent (chunk c rest) =
    let s = body_iter cap (counted cap sent c) rest in
    if exceeds cap (counted cap sent c)
    then ends truncated_response_too_large (counted cap sent c)
    else after_chunk c s
