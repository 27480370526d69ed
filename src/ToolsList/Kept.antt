-- ===== src/ToolsList/Kept.antt =====
-- The entries of a tools/list response that the loop keeps.
use mathlib.Core.Path.{subst}
use mcp_auth_gateway.Prelude.{
  ◌≤◌, Str, true, false, ◌≡◌, inl, inr, sym, ◌∙◌, ap, arith, Option, some, Option-cases, Bool-cases,
  Member,
}
use mcp_auth_gateway.Json.{Json, Items, nil, cons, Fields, elements}
use mcp_auth_gateway.ToolPolicy.{ToolPolicy, check}
use mcp_auth_gateway.ToolsList.{entry_name, keep_entry, keep_tools, count}

-- An entry that names a tool which a tools/call of this caller may invoke.
pub record IsCallable (p : ToolPolicy) (claims : Option Fields) (entry : Json) : Type 0 where
  pub name : Str
  pub named : entry_name entry ≡ some name
  pub allowed : (check p name claims).allowed ≡ true

-- The entries kept are those of the list that are callable, and their number is at most the list's.
pub record IsFiltered (p : ToolPolicy) (claims : Option Fields) (tools kept : Items) : Type 0 where
  pub sound :
      (e : Json) → Member e (elements kept) → Member e (elements tools) × IsCallable p claims e
  pub complete :
      (e : Json) → Member e (elements tools) → IsCallable p claims e → Member e (elements kept)
  pub fewer : count kept ≤ count tools

keep_tools-cons :
    (p : ToolPolicy) (claims : Option Fields) (entry : Json) (entries kept : Items)
    → keep_tools p claims (cons entry entries) ≡ some kept
    → (name : Str) × (rest : Items) × (entry_name entry ≡ some name)
      × (keep_tools p claims entries ≡ some rest)
      × (keep_entry (check p name claims).allowed entry (some rest) ≡ some kept)
unfolding keep_tools
keep_tools-cons p claims entry entries kept h = elim (Option-cases (entry_name entry)) [
  | inl n ↦ ground arith
  | inr (name, e) ↦ elim (Option-cases (keep_tools p claims entries)) [
    | inl n ↦ ground arith
    | inr (rest, r) ↦ (name, rest, e, r, ground arith)
  ]
]

IsFiltered-kept :
    (p : ToolPolicy) (claims : Option Fields) (entry : Json) (name : Str) (entries rest : Items)
    → entry_name entry ≡ some name
    → (check p name claims).allowed ≡ true
    → IsFiltered p claims entries rest
    → IsFiltered p claims (cons entry entries) (cons entry rest)
unfolding elements count
IsFiltered-kept p claims entry name entries rest n a h = record {
  sound = λ e m. elim m [
    | inl q ↦ (inl q, record { name = name; named = ap entry_name q ∙ n; allowed = a })
    | inr later ↦ (inr (h.sound e later).0, (h.sound e later).1)
  ];
  complete = λ e m c. elim m [ inl q ↦ inl q | inr later ↦ inr (h.complete e later c) ];
  fewer = omega (arith, h.fewer);
}

IsFiltered-dropped :
    (p : ToolPolicy) (claims : Option Fields) (entry : Json) (name : Str) (entries rest : Items)
    → entry_name entry ≡ some name
    → (check p name claims).allowed ≡ false
    → IsFiltered p claims entries rest
    → IsFiltered p claims (cons entry entries) rest
unfolding elements count
IsFiltered-dropped p claims entry name entries rest n a h = record {
  sound = λ e m. (inr (h.sound e m).0, (h.sound e m).1);
  complete = λ e m c. elim m [
    | inl q ↦ absurd (not_callable (ap entry_name (sym q) ∙ c.named) c.allowed)
    | inr later ↦ h.complete e later c
  ];
  fewer = omega (arith, h.fewer);
}
  where
    not_callable : {m : Str} → entry_name entry ≡ some m → (check p m claims).allowed ≡ true → ⊥
    not_callable {m} e t = let q : name ≡ m = ground (arith) in cc

IsFiltered-nil : (p : ToolPolicy) (claims : Option Fields) → IsFiltered p claims nil nil
unfolding elements count
IsFiltered-nil p claims = record {
  sound = λ e m. absurd m;
  complete = λ e m c. m;
  fewer = omega arith;
}

pub keep_tools-IsFiltered :
    (p : ToolPolicy) (claims : Option Fields) (tools kept : Items)
    → keep_tools p claims tools ≡ some kept
    → IsFiltered p claims tools kept
keep_tools-IsFiltered p claims nil kept h =
    let q : nil ≡ kept = unfold keep_tools in ground arith in
    subst (IsFiltered p claims nil) q (IsFiltered-nil p claims)
keep_tools-IsFiltered p claims (cons entry entries) kept h =
    let (name, rest, n, r, k) = keep_tools-cons p claims entry entries kept h in
    let ih : IsFiltered p claims entries rest = keep_tools-IsFiltered p claims entries rest r in
    elim (Bool-cases (check p name claims).allowed) [
      | inl a ↦
          let q : cons entry rest ≡ kept = ground arith in
          subst (IsFiltered p claims (cons entry entries)) q
            (IsFiltered-kept p claims entry name entries rest n a ih)
      | inr a ↦
          let q : rest ≡ kept = ground arith in
          subst (IsFiltered p claims (cons entry entries)) q
            (IsFiltered-dropped p claims entry name entries rest n a ih)
    ]
