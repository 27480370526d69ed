-- ===== src/Harness/Options.antt =====
-- The options of the scripts of verification/: `argparse` with the environment's values as defaults.
use mcp_auth_gateway.Prelude.{Str, Option, none, some, is_empty, if◌then◌else◌}

-- An option of the command line, with the environment's value where it is not given.
abbrev pub argument : Option Str → Option Str → Option Str
argument none default = default
argument (some value) default = some value

-- `not args.issuer` and the like
abbrev pub given : Option Str → Option Str
given none = none
given (some value) = if is_empty value then none else some value

abbrev pub or_else : Str → Option Str → Str
or_else default none = default
or_else default (some value) = value
