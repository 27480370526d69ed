-- ===== src/Policy/Match.antt =====
-- The resolution of a method to its rule, against a relation that does not mention the loop.
use mcp_auth_gateway.Prelude.{
  ◌≤◌, Str, true, false, ◌≡◌, ◌↔◌, refl, ◌∙◌, Option, none, some, List, [], ◌∷◌, arith,
  if◌then◌else◌, lookup, keys, elem, eq_str, eq_str_iff, eq_str_refl, starts_with, length,
  Bool-cases, Option-cases, ◌⊎◌, inl, inr,
}
use mcp_auth_gateway.Policy.{ScopePolicy, covers, longer, best_prefix, match}

-- `k` is the longest of the prefix rules in `ks` that cover the method.
pub record IsLongest (method k : Str) (ks : List Str) : Type 0 where
  pub listed : elem k ks ≡ true
  pub covering : covers method k ≡ true
  pub longest : (j : Str) → elem j ks ≡ true → covers method j ≡ true → length j ≤ length k

-- The rule that a method has: an exact one, or else the longest prefix, or none at all.
pub data Resolves (p : ScopePolicy) (method : Str) (r : Option (List Str)) : Type 0 where
  exact : (s : List Str) → lookup method p.rules ≡ some s → r ≡ some s → Resolves p method r
  by_prefix :
      (k : Str) (s : List Str)
      → lookup method p.rules ≡ none
      → IsLongest method k (keys p.rules)
      → lookup k p.rules ≡ some s
      → r ≡ some s
      → Resolves p method r
  unmatched :
      lookup method p.rules ≡ none
      → ((j : Str) → elem j (keys p.rules) ≡ true → covers method j ≡ false)
      → r ≡ none
      → Resolves p method r

-- The best rule seen so far is as long as `best` and every covering rule in `ks`.
record Best (method k : Str) (best : Option Str) (ks : List Str) : Type 0 where
  from : (best ≡ some k) ⊎ ((elem k ks ≡ true) × (covers method k ≡ true))
  ge_best : (b : Str) → best ≡ some b → length b ≤ length k
  ge_listed : (j : Str) → elem j ks ≡ true → covers method j ≡ true → length j ≤ length k

abbrev next_best : Str → Str → Option Str → Option Str
next_best method key best = if covers method key then longer key best else best

-- One round of the loop.
Best-step :
    (method k key : Str) (best : Option Str) (ks : List Str)
    → Best method k (next_best method key best) ks
    → Best method k best (key ∷ ks)
unfolding elem
Best-step method k key none ks h = record {
  from = ground (arith, h.from, eq_str_refl k);
  ge_best = λ b e. cc;
  ge_listed = λ j m c. ground (arith, h.ge_best key, h.ge_listed j, eq_str_iff j key);
}
Best-step method k key (some b) ks h = record {
  from = ground (arith, h.from, eq_str_refl k);
  ge_best = λ a e. ground (arith, h.ge_best b, h.ge_best key);
  ge_listed = λ j m c. ground (arith, h.ge_best key, h.ge_best b, h.ge_listed j, eq_str_iff j key);
}

best_prefix-Best :
    (method k : Str) (best : Option Str) (ks : List Str)
    → best_prefix method best ks ≡ some k
    → Best method k best ks
unfolding best_prefix elem
best_prefix-Best method k best [] h = record {
  from = inl h;
  ge_best = λ b e. ground arith;
  ge_listed = λ j m c. cc;
}
best_prefix-Best method k best (key ∷ ks) h =
    Best-step method k key best ks
      (best_prefix-Best method k (if covers method key then longer key best else best) ks h)

-- The loop ends with no rule only if none covers the method.
best_prefix-none :
    (method : Str) (best : Option Str) (ks : List Str)
    → best_prefix method best ks ≡ none
    → (best ≡ none) × ((j : Str) → elem j ks ≡ true → covers method j ≡ false)
unfolding best_prefix elem
best_prefix-none method best [] h = (h, λ j m. cc)
best_prefix-none method none (key ∷ ks) h =
    let (e, rest) =
      best_prefix-none method (if covers method key then longer key none else none) ks h in
    (refl, λ j m. ground (arith, rest j, eq_str_iff j key))
best_prefix-none method (some b) (key ∷ ks) h =
    let (e, rest) =
      best_prefix-none method (if covers method key then longer key (some b) else some b) ks h in
    (ground arith, λ j m. ground arith)

-- What the dictionary holds under a listed key.
lookup-elem :
    {V : Type 0} (k : Str) (d : List (Str × V))
    → elem k (keys d) ≡ true
    → (v : V) × (lookup k d ≡ some v)
unfolding elem lookup
lookup-elem k [] h = cc
lookup-elem k ((j, v) ∷ d) h = elim (Bool-cases (eq_str k j)) [
  | inl e ↦ (v, rw e)
  | inr e ↦ let (w, q) = lookup-elem k d (ground arith) in (w, rw e q)
]

Best-IsLongest : (method k : Str) (ks : List Str) → Best method k none ks → IsLongest method k ks
Best-IsLongest method k ks best =
    let listed : (elem k ks ≡ true) × (covers method k ≡ true) = ground (arith, best.from) in
    record { listed = listed.0; covering = listed.1; longest = best.ge_listed }

match_prefix :
    (p : ScopePolicy) (method k : Str)
    → lookup method p.rules ≡ none
    → best_prefix method none (keys p.rules) ≡ some k
    → match p method ≡ lookup k p.rules
unfolding match
match_prefix p method k e b = ground arith

match_found :
    (p : ScopePolicy) (method k : Str)
    → lookup method p.rules ≡ none
    → best_prefix method none (keys p.rules) ≡ some k
    → Resolves p method (match p method)
match_found p method k e b =
    let longest =
      Best-IsLongest method k (keys p.rules) (best_prefix-Best method k none (keys p.rules) b) in
    let (s, q) = lookup-elem k p.rules longest.listed in
    Resolves.by_prefix k s e longest q (match_prefix p method k e b ∙ q)

-- `_match` finds the rule that the relation describes.
pub match-Resolves : (p : ScopePolicy) (method : Str) → Resolves p method (match p method)
unfolding match
match-Resolves p method = elim (Option-cases (lookup method p.rules)) [
  | inr (s, e) ↦ Resolves.exact s e (ground arith)
  | inl e ↦ elim (Option-cases (best_prefix method none (keys p.rules))) [
    | inl n ↦ Resolves.unmatched e (best_prefix-none method none (keys p.rules) n).1 (ground arith)
    | inr (k, b) ↦ match_found p method k e b
  ]
]

-- Two prefixes of one text that are equally long are equal.
prefix_unique :
    (t j k : Str) → starts_with t j ≡ true → starts_with t k ≡ true → length j ≡ length k → j ≡ k
unfolding starts_with
prefix_unique t [] [] h g e = refl
prefix_unique t [] (b ∷ k) h g e = absurd (omega arith)
prefix_unique t (a ∷ j) [] h g e = absurd (omega arith)
prefix_unique [] (a ∷ j) (b ∷ k) h g e = cc
prefix_unique (c ∷ t) (a ∷ j) (b ∷ k) h g e =
    ground (arith, prefix_unique t j k (ground arith) (ground arith) (omega arith))

IsLongest-unique :
    (method j k : Str) (ks : List Str) → IsLongest method j ks → IsLongest method k ks → j ≡ k
IsLongest-unique method j k ks a b =
    prefix_unique method j k (ground (arith, a.covering)) (ground (arith, b.covering))
      (ground (arith, a.longest k b.listed b.covering, b.longest j a.listed a.covering))

-- The relation allows one result only.
pub Resolves-unique :
    (p : ScopePolicy) (method : Str) (r s : Option (List Str))
    → Resolves p method r
    → Resolves p method s
    → r ≡ s
Resolves-unique p method r s (Resolves.exact a e x) (Resolves.exact b f y) = cc
Resolves-unique p method r s (Resolves.exact a e x) (Resolves.by_prefix k b f l g y) = cc
Resolves-unique p method r s (Resolves.exact a e x) (Resolves.unmatched f g y) = cc
Resolves-unique p method r s (Resolves.by_prefix k b f l g y) (Resolves.exact a e x) = cc
Resolves-unique p method r s (Resolves.unmatched f g y) (Resolves.exact a e x) = cc
Resolves-unique p method r s (Resolves.by_prefix k a e l g x) (Resolves.by_prefix j b f m h y) =
    cc (IsLongest-unique method k j (keys p.rules) l m)
Resolves-unique p method r s (Resolves.by_prefix k a e l g x) (Resolves.unmatched f h y) =
    cc (h k l.listed, l.covering)
Resolves-unique p method r s (Resolves.unmatched f h y) (Resolves.by_prefix k a e l g x) =
    cc (h k l.listed, l.covering)
Resolves-unique p method r s (Resolves.unmatched e g x) (Resolves.unmatched f h y) = cc

-- `_match` returns a result exactly when the relation gives it: the scopes of the rule that is the
-- method itself, or else those of the longest rule ending in a slash that the method starts with,
-- or `None` where no rule covers the method.
pub match_iff :
    (p : ScopePolicy) (method : Str) (r : Option (List Str))
    → (match p method ≡ r) ↔ Resolves p method r
match_iff p method r = (
  λ e. rw e at (match-Resolves p method),
  λ h. Resolves-unique p method (match p method) r (match-Resolves p method) h,
)
