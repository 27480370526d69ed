-- ===== src/Start/Logging.antt =====
-- src/mcp_gateway/__main__.py: `configure_audit_logging`, and what Python's `logging` does with an event
-- of the audit logger.
use mcp_auth_gateway.Prelude.{
  ℕ, ◌≡◌, refl, arith, Str, Bool, false, List, [], ◌∷◌, ◌++◌, is_empty, leb, ◌==◌, if◌then◌else◌,
}
use mcp_auth_gateway.Audit.Line.{Level, warning, info}

-- Where a handler writes: the line alone to standard output, or what the operator has set up.
pub data Sink : Type 0 where
  stdout : Sink
  operator : ℕ → Sink
  -- `logging.lastResort`, which writes to standard error
  last_resort : Sink

pub record Handler : Type 0 where
  pub sink : Sink
  pub level : ℕ

-- The audit logger. A level of 0 is `NOTSET`.
pub record Logger : Type 0 where
  pub handlers : List Handler
  pub level : ℕ
  pub propagate : Bool

abbrev pub stdout_handler : Handler
stdout_handler = record { sink = stdout; level = 0 }

-- `logging.INFO` and `logging.WARNING`
abbrev pub number : Level → ℕ
number info = 20
number warning = 30

unfoldable pub configure_audit_logging : Logger → Logger
configure_audit_logging logger = record {
  handlers = if is_empty logger.handlers then stdout_handler ∷ [] else logger.handlers;
  level = if logger.level == 0 then number info else logger.level;
  propagate = false;
}

-- The loggers above the audit logger: all their handlers, and the level that it inherits from them.
pub record Ancestors : Type 0 where
  pub handlers : List Handler
  pub level : ℕ

-- the sinks of the handlers that take an event of a level
unfoldable pub sinks : ℕ → List Handler → List Sink
sinks n [] = []
sinks n (h ∷ hs) = let rest = sinks n hs in if leb h.level n then h.sink ∷ rest else rest

-- `callHandlers`
unfoldable pub call_handlers : ℕ → List Handler → List Sink
unfolding sinks
call_handlers n [] = if leb 30 n then last_resort ∷ [] else []
call_handlers n (h ∷ hs) = sinks n (h ∷ hs)

abbrev effective_level : Logger → Ancestors → ℕ
effective_level logger above = if logger.level == 0 then above.level else logger.level

-- `logger.log`: the sinks that get an event
unfoldable pub log : Ancestors → Logger → Level → List Sink
unfolding call_handlers
log above logger level =
    if leb (effective_level logger above) (number level)
    then call_handlers (number level)
        (logger.handlers ++ (if logger.propagate then above.handlers else []))
    else []

-- What is written for events, in their order.
abbrev to_sinks : Str → List Sink → List (Sink × Str)
to_sinks line [] = []
to_sinks line (s ∷ ss) = (s, line) ∷ to_sinks line ss

unfoldable pub written : Ancestors → Logger → List (Level × Str) → List (Sink × Str)
unfolding log
written above logger [] = []
written above logger ((level, line) ∷ events) =
    to_sinks line (log above logger level) ++ written above logger events

-- each line once, on standard output
abbrev pub on_stdout : List (Level × Str) → List (Sink × Str)
on_stdout [] = []
on_stdout ((level, line) ∷ events) = (stdout, line) ∷ on_stdout events

fresh_sinks :
    (above : Ancestors) (logger : Logger) (level : Level)
    → logger.handlers ≡ []
    → logger.level ≡ 0
    → log above (configure_audit_logging logger) level ≡ stdout ∷ []
unfolding log configure_audit_logging call_handlers sinks
fresh_sinks above logger info h n = rw (h, n) refl
fresh_sinks above logger warning h n = rw (h, n) refl

written-fresh :
    (above : Ancestors) (logger : Logger) (events : List (Level × Str))
    → logger.handlers ≡ []
    → logger.level ≡ 0
    → written above (configure_audit_logging logger) events ≡ on_stdout events
unfolding written
written-fresh above logger [] h n = refl
written-fresh above logger ((level, line) ∷ events) h n =
    rw (fresh_sinks above logger level h n, written-fresh above logger events h n) refl

-- What the set-up does to a logger, whatever the loggers above it and whatever is logged.
pub record IsConfigured (above : Ancestors) (events : List (Level × Str))
    (logger configured : Logger) : Type 0 where
  pub each_once :
      logger.handlers ≡ [] → logger.level ≡ 0 → written above configured events ≡ on_stdout events
  pub handlers_kept : is_empty logger.handlers ≡ false → configured.handlers ≡ logger.handlers
  pub level_kept : (logger.level == 0) ≡ false → configured.level ≡ logger.level
  pub alone : configured.propagate ≡ false
  pub again : configure_audit_logging configured ≡ configured

abbrev handlers_of : List Handler → List Handler
handlers_of hs = if is_empty hs then stdout_handler ∷ [] else hs

handlers_again : (hs : List Handler) → handlers_of (handlers_of hs) ≡ handlers_of hs
handlers_again [] = refl
handlers_again (h ∷ hs) = refl

abbrev level_of : ℕ → ℕ
level_of n = if n == 0 then 20 else n

level_again : (n : ℕ) → level_of (level_of n) ≡ level_of n
level_again n = ground arith

configured_again :
    (logger : Logger)
    → configure_audit_logging (configure_audit_logging logger) ≡ configure_audit_logging logger
unfolding configure_audit_logging
configured_again logger =
    let h = handlers_again logger.handlers in let n = level_again logger.level in rw (h, n) refl

-- On a logger that nobody has set up, `configure_audit_logging` has the effect that every event that is
-- logged is one line on standard output, in the order of the events, whatever the handlers and the
-- levels of the loggers above it: none is dropped, and none is written twice. The handlers and the
-- level that an operator has set are left as they are, no event goes further up, and a second run
-- changes nothing.
pub configure_audit_logging-IsConfigured :
    (above : Ancestors) (events : List (Level × Str)) (logger : Logger)
    → IsConfigured above events logger (configure_audit_logging logger)
unfolding configure_audit_logging
configure_audit_logging-IsConfigured above events logger = record {
  each_once = written-fresh above logger events;
  handlers_kept = λ h. ground arith;
  level_kept = λ h. ground arith;
  alone = refl;
  again = configured_again logger;
}
