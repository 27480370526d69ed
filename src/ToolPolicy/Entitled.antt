-- ===== src/ToolPolicy/Entitled.antt =====
-- What `check` of the tool policy decides, against a description with no order of tests.
use mcp_auth_gateway.Prelude.{
  Str, Bool, true, false, ◌≡◌, ◌↔◌, inl, inr, refl, sym, ◌∙◌, ap, Option, none, some, List, [], ◌∷◌,
  ◌++◌, arith, ◌&&◌, if◌then◌else◌, is_empty, elem, meets, Bool-cases, Member,
}
use mcp_auth_gateway.Json.{Fields}
use mcp_auth_gateway.ToolPolicy.{
  ToolRule, ToolPolicy, ToolDecision, RuleScan, granted, exhausted, ClaimProblem, absent, unusable,
  claim_values, scan_rules, conclude, check_claims, check, check_many,
}

-- A rule grants a tool to the holder of some claim values.
pub record Grants (rule : ToolRule) (tool : Str) (values : List Str) : Type 0 where
  pub matching : meets values rule.any_of ≡ true
  pub listed : elem tool rule.allowed_tools ≡ true

-- A rule of the policy, readable claim values, and the grant.
pub record GrantedByRule (p : ToolPolicy) (tool : Str) (claims : Option Fields) : Type 0 where
  pub rule : ToolRule
  pub values : List Str
  pub is_rule : Member rule p.rules
  pub readable : claim_values claims p.claim ≡ (values, none)
  pub grants : Grants rule tool values

-- What entitles a caller to a tool.
pub data IsEntitled (p : ToolPolicy) (tool : Str) (claims : Option Fields) : Type 0 where
  listed : elem tool p.allowed_tools ≡ true → IsEntitled p tool claims
  by_rule : GrantedByRule p tool claims → IsEntitled p tool claims

-- The loop stops at a rule of the list that grants the tool.
scan_rules-granted :
    (tool : Str) (values : List Str) (m : Bool) (rules : List ToolRule) (name : Str)
    → scan_rules tool values m rules ≡ granted name
    → (rule : ToolRule) × Member rule rules × Grants rule tool values × (rule.name ≡ name)
unfolding scan_rules
scan_rules-granted tool values m [] name h = cc
scan_rules-granted tool values m (rule ∷ rules) name h =
    elim (Bool-cases (meets values rule.any_of && elem tool rule.allowed_tools)) [
      | inl g ↦
          (rule, inl refl, record { matching = ground arith; listed = ground arith }, ground arith)
      | inr g ↦
          let (r, mem, gr, e) =
            scan_rules-granted tool values (if meets values rule.any_of then true else m) rules name
              (ground arith) in
          (r, inr mem, gr, e)
    ]

-- A loop that runs through has passed no rule that grants the tool.
scan_rules-exhausted :
    (tool : Str) (values : List Str) (m b : Bool) (rules : List ToolRule) (rule : ToolRule)
    → scan_rules tool values m rules ≡ exhausted b
    → Member rule rules
    → ¬ Grants rule tool values
unfolding scan_rules
scan_rules-exhausted tool values m b [] rule h mem g = mem
scan_rules-exhausted tool values m b (r ∷ rules) rule h (inl e) g =
    ground (arith, g.matching, g.listed)
scan_rules-exhausted tool values m b (r ∷ rules) rule h (inr mem) g =
    scan_rules-exhausted tool values (if meets values r.any_of then true else m) b rules rule
      (ground arith) mem g

conclude_allowed :
    (tool claim : Str) (s : RuleScan)
    → (conclude tool claim s).allowed ≡ true
    → (name : Str) × (s ≡ granted name) × ((conclude tool claim s).matched_rule ≡ some name)
unfolding conclude
conclude_allowed tool claim (granted name) h = (name, refl, refl)
conclude_allowed tool claim (exhausted false) h = cc
conclude_allowed tool claim (exhausted true) h = cc

-- A caller that the rules let pass has a rule that grants the tool, and the decision names it.
pub record Attributed (p : ToolPolicy) (tool : Str) (claims : Option Fields) (d : ToolDecision)
    : Type 0 where
  pub by : GrantedByRule p tool claims
  pub named : d.matched_rule ≡ some by.rule.name

check_claims_allowed :
    (p : ToolPolicy) (tool : Str) (claims : Option Fields) (c : List Str × Option ClaimProblem)
    → claim_values claims p.claim ≡ c
    → (check_claims p tool c).allowed ≡ true
    → Attributed p tool claims (check_claims p tool c)
unfolding check_claims
check_claims_allowed p tool claims (values, some absent) e h = cc
check_claims_allowed p tool claims (values, some unusable) e h = cc
check_claims_allowed p tool claims (values, none) e h =
    let (name, s, m) = conclude_allowed tool p.claim (scan_rules tool values false p.rules) h in
    let (rule, mem, g, q) = scan_rules-granted tool values false p.rules name s in
    record {
      by = record { rule = rule; values = values; is_rule = mem; readable = e; grants = g };
      named = m ∙ ap some (sym q);
    }

conclude_granted :
    (p : ToolPolicy) (tool : Str) (claims : Option Fields) (g : GrantedByRule p tool claims)
    (s : RuleScan)
    → scan_rules tool g.values false p.rules ≡ s
    → (conclude tool p.claim s).allowed ≡ true
unfolding conclude
conclude_granted p tool claims g (granted name) e = refl
conclude_granted p tool claims g (exhausted b) e =
    absurd (scan_rules-exhausted tool g.values false b p.rules g.rule e g.is_rule g.grants)

check_claims_complete :
    (p : ToolPolicy) (tool : Str) (claims : Option Fields)
    → GrantedByRule p tool claims
    → (check_claims p tool (claim_values claims p.claim)).allowed ≡ true
unfolding check_claims
check_claims_complete p tool claims g =
    rw g.readable (conclude_granted p tool claims g (scan_rules tool g.values false p.rules) refl)

-- The test of the empty rule list adds nothing: with no rules there is no grant.
rules_nonempty :
    (rule : ToolRule) (rules : List ToolRule) → Member rule rules → is_empty rules ≡ false
rules_nonempty rule [] m = absurd m
rules_nonempty rule (r ∷ rules) m = refl

module _ (p : ToolPolicy) (tool : Str) (claims : Option Fields) where
  check_sound :
      (check p tool claims).allowed ≡ true → (is_empty tool ≡ false) × IsEntitled p tool claims
  unfolding check
  check_sound h = elim (Bool-cases (is_empty tool)) [
    | inl e ↦ ground arith
    | inr e ↦ (
      e,
      elim (Bool-cases (elem tool p.allowed_tools)) [
        | inl l ↦ IsEntitled.listed l
        | inr l ↦
            IsEntitled.by_rule
              (check_claims_allowed p tool claims (claim_values claims p.claim) refl
                (ground arith)).by
      ],
    )
  ]

  check_complete :
      is_empty tool ≡ false → IsEntitled p tool claims → (check p tool claims).allowed ≡ true
  unfolding check
  check_complete e (IsEntitled.listed l) = ground arith
  check_complete e (IsEntitled.by_rule g) =
      ground (arith, check_claims_complete p tool claims g, rules_nonempty g.rule p.rules g.is_rule)

  -- A tool is allowed exactly when its name is not empty and the caller is entitled to it: by the
  -- unconditional list, or by a rule that lists it and whose values meet the caller's readable claim.
  pub check-IsEntitled_iff :
      ((check p tool claims).allowed ≡ true) ↔ ((is_empty tool ≡ false) × IsEntitled p tool claims)
  check-IsEntitled_iff = (check_sound, λ (e, h). check_complete e h)

  check_by_claims :
      (check p tool claims).allowed ≡ true
      → elem tool p.allowed_tools ≡ false
      → check p tool claims ≡ check_claims p tool (claim_values claims p.claim)
  unfolding check
  check_by_claims h l = ground arith

  -- A tool that is allowed though it is not in the unconditional list is attributed to a rule of the
  -- policy that grants it, by that rule's name.
  pub check-Attributed :
      (check p tool claims).allowed ≡ true
      → elem tool p.allowed_tools ≡ false
      → Attributed p tool claims (check p tool claims)
  check-Attributed h l = rw (check_by_claims h l) (
      check_claims_allowed p tool claims (claim_values claims p.claim) refl
        (rw (check_by_claims h l) at h))

  conclude_refused :
      (s : RuleScan)
      → (conclude tool p.claim s).allowed ≡ false
      → (conclude tool p.claim s).matched_rule ≡ none
  unfolding conclude
  conclude_refused (granted name) h = cc
  conclude_refused (exhausted false) h = refl
  conclude_refused (exhausted true) h = refl

  check_claims_refused :
      (c : List Str × Option ClaimProblem)
      → (check_claims p tool c).allowed ≡ false
      → (check_claims p tool c).matched_rule ≡ none
  unfolding check_claims
  check_claims_refused (values, some absent) h = refl
  check_claims_refused (values, some unusable) h = refl
  check_claims_refused (values, none) h = conclude_refused (scan_rules tool values false p.rules) h

  -- A call that is refused names no rule.
  check_refused_unnamed :
      (check p tool claims).allowed ≡ false → (check p tool claims).matched_rule ≡ none
  unfolding check
  check_refused_unnamed h = ground (arith, check_claims_refused (claim_values claims p.claim))

-- A list of tools is allowed exactly when each of them is.
check_many_iff :
    (p : ToolPolicy) (tools : List Str) (claims : Option Fields)
    → (check_many p tools claims ≡ true)
      ↔ ((tool : Str) → Member tool tools → (check p tool claims).allowed ≡ true)
unfolding check_many
check_many_iff p [] claims = (λ h t m. absurd m, λ h. refl)
check_many_iff p (t ∷ ts) claims = (
  λ h x m. elim m [
    | inl e ↦ rw e (ground arith)
    | inr later ↦ (check_many_iff p ts claims).0 (ground arith) x later
  ],
  λ h. ground (arith, h t (inl refl), (check_many_iff p ts claims).1 (λ x m. h x (inr m))),
)

Member-append_right : {A : Type 0} (x : A) (xs ys : List A) → Member x ys → Member x (xs ++ ys)
Member-append_right x [] ys m = m
Member-append_right x (y ∷ xs) ys m = inr (Member-append_right x xs ys m)

Member-append_left : {A : Type 0} (x : A) (xs ys : List A) → Member x xs → Member x (xs ++ ys)
Member-append_left x [] ys m = absurd m
Member-append_left x (y ∷ xs) ys (inl e) = inl e
Member-append_left x (y ∷ xs) ys (inr m) = inr (Member-append_left x xs ys m)

-- Rules put before and after those of a policy take no tool from anyone.
pub check_additive :
    (p : ToolPolicy) (before after : List ToolRule) (tool : Str) (claims : Option Fields)
    → (check p tool claims).allowed ≡ true
    → (check (record p { rules = before ++ (p.rules ++ after) }) tool claims).allowed ≡ true
check_additive p before after tool claims h =
    let (e, entitled) = (check-IsEntitled_iff p tool claims).0 h in
    (check-IsEntitled_iff (record p { rules = before ++ (p.rules ++ after) }) tool claims).1
      (e, widen entitled)
  where
    widen :
        IsEntitled p tool claims
        → IsEntitled (record p { rules = before ++ (p.rules ++ after) }) tool claims
    widen (IsEntitled.listed l) = IsEntitled.listed l
    widen (IsEntitled.by_rule g) = IsEntitled.by_rule (record {
      rule = g.rule;
      values = g.values;
      is_rule =
          Member-append_right g.rule before (p.rules ++ after)
            (Member-append_left g.rule p.rules after g.is_rule);
      readable = g.readable;
      grants = g.grants;
    })
