-- ===== src/Examples/Policies.antt =====
-- src/mcp_gateway/policy.py and src/mcp_gateway/tool_policy.py at concrete policies, callers and files.
use mcp_auth_gateway.Prelude.{
  Str, true, false, ◌≡◌, ◌↔◌, refl, Option, some, List, [], ◌∷◌, codes, is_empty, ok, elem, Subset,
  frozenset, without, sorted, eq_str,
}
use mcp_auth_gateway.Json.{str, arr, obj, nil, cons, Fields, end, field, get, nonempty_strings}
use mcp_auth_gateway.Policy
use mcp_auth_gateway.Policy.{ScopePolicy, missing_scopes, match, mcp_read, mcp_invoke}
use mcp_auth_gateway.Policy.Match.{Resolves, match_iff}
use mcp_auth_gateway.Policy.Scopes.{Demands, check_allowed_iff}
use mcp_auth_gateway.Policy.File as ScopeFile
use mcp_auth_gateway.Policy.File.Exact.{document, from_file-document}
use mcp_auth_gateway.ToolPolicy
use mcp_auth_gateway.ToolPolicy.{
  ToolPolicy, ToolRule, values_of, claim_values, check_claims, scan_rules, conclude, check_many,
}
use mcp_auth_gateway.ToolPolicy.Entitled.{IsEntitled, check-IsEntitled_iff}
use mcp_auth_gateway.ToolPolicy.File as ToolFile
use mcp_auth_gateway.ToolPolicy.File.Loaded.{IsLoaded, from_file-IsLoaded}

-- A policy with an exact rule under a prefix rule.
abbrev files : ScopePolicy
files = record {
  rules = (codes "files/", mcp_read ∷ []) ∷ (codes "files/write", mcp_read ∷ mcp_invoke ∷ []) ∷ [];
  default = [];
  deny_by_default = true;
}

match_iff_example :
    (match files (codes "files/write/all") ≡ some (mcp_read ∷ []))
    ↔ Resolves files (codes "files/write/all") (some (mcp_read ∷ []))
match_iff_example = match_iff files (codes "files/write/all") (some (mcp_read ∷ []))

check_allowed_iff_example :
    ((Policy.check files (codes "files/write") (mcp_read ∷ [])).allowed ≡ true)
    ↔ ((r : List Str) × Demands files (codes "files/write") r × Subset r (mcp_read ∷ []))
check_allowed_iff_example = check_allowed_iff files (codes "files/write") (mcp_read ∷ [])

-- the document of `files`
from_file-document_example : ScopeFile.from_file (document files) ≡ ok files
unfolding frozenset elem eq_str
from_file-document_example = from_file-document files (refl, (refl, tt)) refl

-- An empty table of rules.
abbrev no_rules : ScopePolicy
no_rules = record { rules = []; default = []; deny_by_default = true }

abbrev no_rules_file : Fields
no_rules_file = field (codes "rules") (obj end) end

-- A tool policy with an unconditional tool and a rule, and the claims of a caller in the group.
abbrev tools : ToolPolicy
tools = record {
  allowed_tools = codes "search" ∷ [];
  claim = codes "groups";
  rules =
      record { name = codes "ops"; any_of = codes "sre" ∷ []; allowed_tools = codes "restart" ∷ [] }
      ∷ [];
}

abbrev sre : Option Fields
sre = some (field (codes "groups") (arr (cons (str (codes "sre")) nil)) end)

check-IsEntitled_iff_example :
    ((ToolPolicy.check tools (codes "restart") sre).allowed ≡ true)
    ↔ ((is_empty (codes "restart") ≡ false) × IsEntitled tools (codes "restart") sre)
check-IsEntitled_iff_example = check-IsEntitled_iff tools (codes "restart") sre

abbrev tools_file : Fields
tools_file = field (codes "allowed_tools") (arr (cons (str (codes "search")) nil)) end

from_file-IsLoaded_example :
    IsLoaded tools_file
      (record { allowed_tools = codes "search" ∷ []; claim = codes "groups"; rules = [] })
unfolding ToolFile.from_file get eq_str nonempty_strings frozenset elem without sorted
from_file-IsLoaded_example =
    from_file-IsLoaded tools_file
      (record { allowed_tools = codes "search" ∷ []; claim = codes "groups"; rules = [] }) refl
