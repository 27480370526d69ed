-- ===== src/Harness/Client.antt =====
-- verification/e2e_client.py: the headers of `run`, how the gateway reads them, and the session. What the
-- MCP library does in it is an argument.
use mathlib.Core.List.{reverse, reverse-cons, reverse-reverse}
use mcp_auth_gateway.Prelude.{
  ℕ, ◌≡◌, ◌↔◌, refl, arith, Str, Bool, true, false, ◌&&◌, some, List, [], ◌∷◌, ◌++◌, codes,
  drop_while, strip, strip_right, lower, starts_with, is_space,
}
use mcp_auth_gateway.Pkce.Compliant.{all_unreserved}
use mcp_auth_gateway.App.Messages.{bearer_token}

-- `f"Bearer {token}"`
unfoldable pub authorization : Str → Str
authorization token = codes "Bearer " ++ token

all_unreserved-append :
    (s t : Str) → all_unreserved s ≡ true → all_unreserved t ≡ true → all_unreserved (s ++ t) ≡ true
unfolding all_unreserved
all_unreserved-append [] t h k = k
all_unreserved-append (c ∷ s) t h k = ground (arith, all_unreserved-append s t)

all_unreserved-reverse : (s : Str) → all_unreserved s ≡ true → all_unreserved (reverse s) ≡ true
unfolding all_unreserved
all_unreserved-reverse [] h = refl
all_unreserved-reverse (c ∷ s) h = rw (reverse-cons c s) (
    all_unreserved-append (reverse s) (c ∷ []) (all_unreserved-reverse s (ground arith))
      (ground arith))

drop_while-unreserved : (s : Str) → all_unreserved s ≡ true → drop_while is_space s ≡ s
unfolding drop_while all_unreserved
drop_while-unreserved [] h = refl
drop_while-unreserved (c ∷ s) h = ground arith

-- White space is no part of a token, so that stripping leaves it as it is.
strip-unreserved : (s : Str) → all_unreserved s ≡ true → strip s ≡ s
unfolding strip strip_right
strip-unreserved s h =
    let e = drop_while-unreserved (reverse s) (all_unreserved-reverse s h) in
    rw (e, reverse-reverse s) (drop_while-unreserved s h)

pub bearer_token-authorization :
    (token : Str) → all_unreserved token ≡ true → bearer_token (some (authorization token)) ≡ token
unfolding bearer_token authorization starts_with lower
bearer_token-authorization token h = strip-unreserved token h

-- What the MCP library does at a step of the session: it gives what the client prints, or raises, by the
-- text that the client prints for the exception.
pub data SessionStep : Type 0 where
  done : Str → SessionStep
  raises : Str → SessionStep

-- The session: how the connection is made, the three calls, and how it is closed, each as it goes if
-- those before it do.
pub record Session : Type 0 where
  pub connect : SessionStep
  pub initialize : SessionStep
  pub list_tools : SessionStep
  pub call_tool : SessionStep
  pub close : SessionStep

-- The lines that are printed, and the exit status.
pub record Ran : Type 0 where
  pub lines : List Str
  pub status : ℕ

abbrev ok_line : Str → Str → Str
ok_line step text = codes "OK " ++ (step ++ (codes " " ++ text))

abbrev fail_line : Str → Str → Str
fail_line step text = codes "FAIL step=" ++ (step ++ (codes " exc=" ++ text))

abbrev printed : Str → Ran → Ran
printed line ran = record ran { lines = line ∷ ran.lines }

-- the way out of the two contexts, at which `step` is still the last one
abbrev pub finished : SessionStep → Ran
finished (done _) = record { lines = []; status = 0 }
finished (raises text) = record { lines = fail_line (codes "tools/call") text ∷ []; status = 1 }

-- one step, and the rest of the session after it
unfoldable pub go : Str → SessionStep → Ran → Ran
go step (done text) rest = printed (ok_line step text) rest
go step (raises text) rest = record { lines = fail_line step text ∷ []; status = 1 }

-- the connection prints nothing where it is made
unfoldable pub connected : SessionStep → Ran → Ran
connected (done _) rest = rest
connected (raises text) rest = record { lines = fail_line (codes "connect") text ∷ []; status = 1 }

-- `run`
unfoldable pub run : Session → Ran
unfolding go connected
run s = connected s.connect (
    go (codes "initialize") s.initialize (
      go (codes "tools/list") s.list_tools
        (go (codes "tools/call") s.call_tool (finished s.close))))

abbrev is_done : SessionStep → Bool
is_done (done _) = true
is_done (raises _) = false

-- The client exits with status 0 exactly when every step of the session is done.
pub run_zero_iff :
    (s : Session)
    → ((run s).status ≡ 0) ↔ (
        (is_done s.connect
          && (is_done s.initialize
              && (is_done s.list_tools && (is_done s.call_tool && is_done s.close))))
        ≡ true)
unfolding run go connected
run_zero_iff s = ground arith
