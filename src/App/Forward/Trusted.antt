-- ===== src/App/Forward/Trusted.antt =====
-- Which headers reach the upstream, and who wrote them.
use mathlib.Core.Path.{subst}
use mcp_auth_gateway.Prelude.{
  Str, true, false, ◌≡◌, ◌⊎◌, inl, inr, refl, sym, ap, ◌∙◌, arith, Option, none, some, [], ◌∷◌,
  codes, eq_str, eq_str_iff, elem, lower, if◌then◌else◌, Member, Bool-cases,
}
use mcp_auth_gateway.Verifier.{VerifiedToken}
use mcp_auth_gateway.App.Forward.{
  forwarded_request_headers, Headers, set_item, kept_headers, request_id_header, sub_header,
  scopes_header, joined_scopes, with_identity, forwarded_headers,
}

-- Where a forwarded header comes from.
pub data Origin (request_id : Str) (verified : Option VerifiedToken) (items : Headers) (k v : Str)
    : Type 0 where
  of_request :
      elem (lower k) forwarded_request_headers ≡ true
      → Member (k, v) items
      → Origin request_id verified items k v
  of_gateway : k ≡ request_id_header → v ≡ request_id → Origin request_id verified items k v
  of_subject :
      (t : VerifiedToken)
      → verified ≡ some t
      → k ≡ sub_header
      → v ≡ t.subject
      → Origin request_id verified items k v
  of_scopes :
      (t : VerifiedToken)
      → verified ≡ some t
      → k ≡ scopes_header
      → v ≡ joined_scopes t
      → Origin request_id verified items k v

set_item-same :
    (j w i u : Str) (d : Headers) → eq_str j i ≡ true → set_item j w ((i, u) ∷ d) ≡ (i, w) ∷ d
unfolding set_item
set_item-same j w i u d h = ground arith

set_item-other :
    (j w i u : Str) (d : Headers)
    → eq_str j i ≡ false
    → set_item j w ((i, u) ∷ d) ≡ (i, u) ∷ set_item j w d
unfolding set_item
set_item-other j w i u d h = ground arith

-- What is in a dictionary after an item is set.
set_item-Member :
    (j w : Str) (d : Headers) (k v : Str)
    → Member (k, v) (set_item j w d)
    → ((k ≡ j) × (v ≡ w)) ⊎ Member (k, v) d
unfolding set_item
set_item-Member j w [] k v (inl e) = inl (ap (λ p. p.0) e, ap (λ p. p.1) e)
set_item-Member j w [] k v (inr m) = absurd m
set_item-Member j w ((i, u) ∷ d) k v m = elim (Bool-cases (eq_str j i)) [
  | inl t ↦ elim (subst (Member (k, v)) (set_item-same j w i u d t) m) [
    | inl e ↦ inl (ap (λ p. p.0) e ∙ sym ((eq_str_iff j i).0 t), ap (λ p. p.1) e)
    | inr later ↦ inr (inr later)
  ]
  | inr f ↦ elim (subst (Member (k, v)) (set_item-other j w i u d f) m) [
    | inl e ↦ inr (inl e)
    | inr later ↦ elim (set_item-Member j w d k v later) [ inl q ↦ inl q | inr r ↦ inr (inr r) ]
  ]
]

-- What the comprehension keeps.
kept_headers-Member :
    (d items : Headers) (k v : Str)
    → Member (k, v) (kept_headers d items)
    → Member (k, v) d ⊎ ((elem (lower k) forwarded_request_headers ≡ true) × Member (k, v) items)
unfolding kept_headers
kept_headers-Member d [] k v m = inl m
kept_headers-Member d ((j, w) ∷ items) k v m =
    elim (kept_headers-Member
      (if elem (lower j) forwarded_request_headers then set_item j w d else d) items k v m) [
        | inr (h, later) ↦ inr (h, inr later)
        | inl here ↦ choose_header d items j w k v here
      ]
  where
    choose_header :
        (d items : Headers) (j w k v : Str)
        → Member (k, v) (if elem (lower j) forwarded_request_headers then set_item j w d else d)
        → Member (k, v) d
          ⊎ ((elem (lower k) forwarded_request_headers ≡ true) × Member (k, v) ((j, w) ∷ items))
    choose_header d items j w k v m = elim (Bool-cases (elem (lower j) forwarded_request_headers)) [
      | inr f ↦ inl (rw f at m)
      | inl t ↦ elim (set_item-Member j w d k v (rw t at m)) [
        | inr old ↦ inl old
        | inl (e, q) ↦ inr (rw e t, inl (rw (e, q) refl))
      ]
    ]

identity-Origin :
    (id : Str) (verified o : Option VerifiedToken) (items d : Headers) (k v : Str)
    → verified ≡ o
    → (Member (k, v) d → Origin id verified items k v)
    → Member (k, v) (with_identity o d)
    → Origin id verified items k v
unfolding with_identity
identity-Origin id verified none items d k v q f m = f m
identity-Origin id verified (some t) items d k v q f m =
    elim (set_item-Member scopes_header (joined_scopes t) (set_item sub_header t.subject d) k v m) [
      | inl (e, r) ↦ Origin.of_scopes t q e r
      | inr m' ↦ elim (set_item-Member sub_header t.subject d k v m') [
        | inl (e, r) ↦ Origin.of_subject t q e r
        | inr old ↦ f old
      ]
    ]

-- Every header that the gateway sends to the upstream is a header of the request whose name is on the
-- list, or the gateway's own request id, or the subject or the scopes of the verified token.
pub forwarded_headers-Origin :
    (request_id : Str) (verified : Option VerifiedToken) (items : Headers) (k v : Str)
    → Member (k, v) (forwarded_headers request_id verified items)
    → Origin request_id verified items k v
unfolding forwarded_headers
forwarded_headers-Origin request_id verified items k v m =
    identity-Origin request_id verified verified items
      (set_item request_id_header request_id (kept_headers [] items)) k v refl
      (λ n. elim (set_item-Member request_id_header request_id (kept_headers [] items) k v n) [
        | inl (e, r) ↦ Origin.of_gateway e r
        | inr kept ↦ elim (kept_headers-Member [] items k v kept) [
          | inl none_yet ↦ absurd none_yet
          | inr (h, r) ↦ Origin.of_request h r
        ]
      ])
      m

-- A header that the upstream may read as the caller's subject, in any spelling of its name, holds the
-- subject of the verified token, whatever headers the client sends.
pub forwarded_subject_trusted :
    (request_id : Str) (verified : Option VerifiedToken) (items : Headers) (k v : Str)
    → Member (k, v) (forwarded_headers request_id verified items)
    → lower k ≡ codes "x-forwarded-sub"
    → (t : VerifiedToken) × (verified ≡ some t) × (v ≡ t.subject)
unfolding lower elem eq_str
forwarded_subject_trusted request_id verified items k v m l =
    elim (forwarded_headers-Origin request_id verified items k v m) [
      | Origin.of_request h n ↦ cc (ap (λ x. elem x forwarded_request_headers) l)
      | Origin.of_gateway e r ↦ cc
      | Origin.of_subject t q e r ↦ (t, q, r)
      | Origin.of_scopes t q e r ↦ cc
    ]

-- The same of the caller's scopes.
forwarded_scopes_trusted :
    (request_id : Str) (verified : Option VerifiedToken) (items : Headers) (k v : Str)
    → Member (k, v) (forwarded_headers request_id verified items)
    → lower k ≡ codes "x-forwarded-scopes"
    → (t : VerifiedToken) × (verified ≡ some t) × (v ≡ joined_scopes t)
unfolding lower elem eq_str
forwarded_scopes_trusted request_id verified items k v m l =
    elim (forwarded_headers-Origin request_id verified items k v m) [
      | Origin.of_request h n ↦ cc (ap (λ x. elem x forwarded_request_headers) l)
      | Origin.of_gateway e r ↦ cc
      | Origin.of_subject t q e r ↦ cc
      | Origin.of_scopes t q e r ↦ (t, q, r)
    ]
