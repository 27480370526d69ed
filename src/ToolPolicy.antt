-- ===== src/ToolPolicy.antt =====
-- src/mcp_gateway/tool_policy.py: which tools a caller may invoke.
-- A `frozenset` is a list read through `elem`; `claims` is `none` where no token was verified.
pub mod Entitled
pub mod File
use mcp_auth_gateway.Prelude.{
  Str, Bool, true, false, Option, none, some, List, [], ◌∷◌, codes, ◌&&◌, if◌then◌else◌, is_empty,
  elem, meets, frozenset, not,
}
use mcp_auth_gateway.Json.{Json, str, arr, Fields, get, nonempty_strings}

-- The text of `ToolDecision.reason`, by its cases.
pub data ToolReason : Type 0 where
  empty_name tool_ok : ToolReason
  not_listed : Str → ToolReason
  claim_absent claim_unusable no_rule_matches : Str → ToolReason
  not_permitted : Str → Str → ToolReason

pub record ToolDecision : Type 0 where
  pub allowed : Bool
  pub tool : Str
  pub reason : ToolReason
  pub matched_rule : Option Str

pub record ToolRule : Type 0 where
  pub name : Str
  pub any_of : List Str
  pub allowed_tools : List Str

pub data ClaimProblem : Type 0 where
  absent unusable : ClaimProblem

-- one claim, once it is looked up
unfoldable pub values_of : Option Json → List Str × Option ClaimProblem
values_of none = ([], some absent)
values_of (some (str s)) = if is_empty s then ([], some unusable) else (s ∷ [], none)
values_of (some (arr js)) = elim (nonempty_strings js) [
  | none ↦ ([], some unusable)
  | some ss ↦ (frozenset ss, none)
]
values_of (some _) = ([], some unusable)

-- `_claim_values`
unfoldable pub claim_values : Option Fields → Str → List Str × Option ClaimProblem
unfolding values_of
claim_values none name = ([], some absent)
claim_values (some claims) name = values_of (get name claims)

pub record ToolPolicy : Type 0 where
  pub allowed_tools : List Str
  pub claim : Str
  pub rules : List ToolRule

unfoldable pub claim_bound : ToolPolicy → Bool
claim_bound p = not (is_empty p.rules)

unfoldable pub builtin : ToolPolicy
builtin = record { allowed_tools = []; claim = codes "groups"; rules = [] }

abbrev pub unconditional : Str
unconditional = codes "[unconditional]"

-- How the loop over the rules ends: with the rule that grants the tool, or with `matched_any`.
pub data RuleScan : Type 0 where
  granted : Str → RuleScan
  exhausted : Bool → RuleScan

unfoldable pub scan_rules : Str → List Str → Bool → List ToolRule → RuleScan
scan_rules tool values matched_any [] = exhausted matched_any
scan_rules tool values matched_any (rule ∷ rules) =
    let rest =
      scan_rules tool values (if meets values rule.any_of then true else matched_any) rules in
    if meets values rule.any_of && elem tool rule.allowed_tools then granted rule.name else rest

abbrev pub deny : Str → ToolReason → ToolDecision
deny tool reason = record { allowed = false; tool = tool; reason = reason; matched_rule = none }

abbrev pub allow : Str → Str → ToolDecision
allow tool rule = record { allowed = true; tool = tool; reason = tool_ok; matched_rule = some rule }

-- the end of `check`, after the loop
unfoldable pub conclude : Str → Str → RuleScan → ToolDecision
conclude tool claim (granted name) = allow tool name
conclude tool claim (exhausted false) = deny tool (no_rule_matches claim)
conclude tool claim (exhausted true) = deny tool (not_permitted tool claim)

-- the part of `check` that consults the claims
unfoldable pub check_claims : ToolPolicy → Str → List Str × Option ClaimProblem → ToolDecision
unfolding conclude
check_claims p tool (values, some absent) = deny tool (claim_absent p.claim)
check_claims p tool (values, some unusable) = deny tool (claim_unusable p.claim)
check_claims p tool (values, none) = conclude tool p.claim (scan_rules tool values false p.rules)

unfoldable pub check : ToolPolicy → Str → Option Fields → ToolDecision
unfolding check_claims
check p tool claims =
    if is_empty tool
    then deny tool empty_name
    else if elem tool p.allowed_tools
    then allow tool unconditional
    else if is_empty p.rules
    then deny tool (not_listed tool)
    else check_claims p tool (claim_values claims p.claim)

unfoldable pub check_many : ToolPolicy → List Str → Option Fields → Bool
check_many p [] claims = true
check_many p (t ∷ ts) claims = (check p t claims).allowed && check_many p ts claims
