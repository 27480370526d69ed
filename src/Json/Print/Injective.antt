-- ===== src/Json/Print/Injective.antt =====
-- What `json.dumps` prints determines the value.
use mathlib.Core.List.{append_assoc}
use mathlib.Core.Path.{subst}
use mcp_auth_gateway.Prelude.{
  Str, true, false, ◌≡◌, ◌≢◌, refl, sym, ap, ◌∙◌, arith, [], ◌∷◌, ◌++◌, codes,
}
use mcp_auth_gateway.Json.{Json, Items, Fields}
use mcp_auth_gateway.Json.Print.{dumps, dump_items, dump_fields, quote}
use mcp_auth_gateway.Json.Print.Chars.{quote-injective, tail_of}
use mcp_auth_gateway.Json.Print.Kinds.{
  IsStandard, AllStandard, AllMembers, first_kind, first_kind-dumps, kind-eq, ends, num-injective,
  num_text-all, kind-not_end, is_null, is_true, is_false, is_str, is_arr, is_obj, is_num,
}

-- What is printed after an element, and after a member.
abbrev more_items : Items → Str
more_items Items.nil = []
more_items (Items.cons j js) = b',' ∷ dump_items false (Items.cons j js)

abbrev more_fields : Fields → Str
more_fields Fields.end = []
more_fields (Fields.field k v fs) = b',' ∷ dump_fields false (Fields.field k v fs)

dump_items-cons :
    (j : Json) (js : Items) (r : Str)
    → dump_items false (Items.cons j js) ++ r ≡ dumps false j ++ (more_items js ++ r)
unfolding dump_items
dump_items-cons j Items.nil r = refl
dump_items-cons j (Items.cons k js) r = append_assoc (dumps false j) _ r

dump_fields-field :
    (k : Str) (v : Json) (fs : Fields) (r : Str)
    → dump_fields false (Fields.field k v fs) ++ r
      ≡ quote false k ++ (b':' ∷ (dumps false v ++ (more_fields fs ++ r)))
unfolding dump_fields
dump_fields-field k v Fields.end r = append_assoc (quote false k) _ r
dump_fields-field k v (Fields.field l w fs) r =
    append_assoc (quote false k) _ r
    ∙ ap (λ x. quote false k ++ (b':' ∷ x)) (append_assoc (dumps false v) _ r)

more_items-ends : (js : Items) (r : Str) → ends (more_items js ++ (b']' ∷ r)) ≡ true
more_items-ends Items.nil r = refl
more_items-ends (Items.cons j js) r = refl

more_fields-ends : (fs : Fields) (r : Str) → ends (more_fields fs ++ (b'}' ∷ r)) ≡ true
more_fields-ends Fields.end r = refl
more_fields-ends (Fields.field k v fs) r = refl

quote-not_end : (k r s : Str) → quote false k ++ r ≢ b'}' ∷ s
unfolding quote
quote-not_end k r s e = ground arith

-- Two arrays that are printed alike, and two objects, are so after an element or a member too.
more_items-eq :
    (js ks : Items) (r s : Str)
    → AllStandard js
    → AllStandard ks
    → dump_items false js ++ (b']' ∷ r) ≡ dump_items false ks ++ (b']' ∷ s)
    → more_items js ++ (b']' ∷ r) ≡ more_items ks ++ (b']' ∷ s)
unfolding dump_items AllStandard
more_items-eq Items.nil Items.nil r s h i e = e
more_items-eq Items.nil (Items.cons k ks) r s h (i, l) e = absurd (
    kind-not_end k
      (sym (ap first_kind (e ∙ dump_items-cons k ks (b']' ∷ s)) ∙ first_kind-dumps k _ i)))
more_items-eq (Items.cons j js) Items.nil r s (h, l) i e = absurd (
    kind-not_end j
      (sym (ap first_kind (sym e ∙ dump_items-cons j js (b']' ∷ r)) ∙ first_kind-dumps j _ h)))
more_items-eq (Items.cons j js) (Items.cons k ks) r s h i e = ap (b',' ∷◌) e

more_fields-eq :
    (fs gs : Fields) (r s : Str)
    → dump_fields false fs ++ (b'}' ∷ r) ≡ dump_fields false gs ++ (b'}' ∷ s)
    → more_fields fs ++ (b'}' ∷ r) ≡ more_fields gs ++ (b'}' ∷ s)
unfolding dump_fields
more_fields-eq Fields.end Fields.end r s e = e
more_fields-eq Fields.end (Fields.field k v gs) r s e =
    absurd (quote-not_end k _ r (sym (e ∙ dump_fields-field k v gs (b'}' ∷ s))))
more_fields-eq (Fields.field k v fs) Fields.end r s e =
    absurd (quote-not_end k _ s (sym (dump_fields-field k v fs (b'}' ∷ r)) ∙ e))
more_fields-eq (Fields.field k v fs) (Fields.field l w gs) r s e = ap (b',' ∷◌) e

mutual
  unfolding dumps dump_items dump_fields IsStandard AllStandard AllMembers

  -- values before ends
  value-injective :
      (j k : Json) (r s : Str)
      → IsStandard j
      → IsStandard k
      → ends r ≡ true
      → ends s ≡ true
      → dumps false j ++ r ≡ dumps false k ++ s
      → (j ≡ k) × (r ≡ s)
  value-injective Json.null k r s h i p q e =
      let g = is_null k (sym (kind-eq Json.null k r s h i e)) in
      let f : codes "null" ++ r ≡ codes "null" ++ s = e ∙ ap (λ x. dumps false x ++ s) g in
      (sym g, tail_of (tail_of (tail_of (tail_of f))))
  value-injective (Json.bool true) k r s h i p q e =
      let g = is_true k (sym (kind-eq (Json.bool true) k r s h i e)) in
      let f : codes "true" ++ r ≡ codes "true" ++ s = e ∙ ap (λ x. dumps false x ++ s) g in
      (sym g, tail_of (tail_of (tail_of (tail_of f))))
  value-injective (Json.bool false) k r s h i p q e =
      let g = is_false k (sym (kind-eq (Json.bool false) k r s h i e)) in
      let f : codes "false" ++ r ≡ codes "false" ++ s = e ∙ ap (λ x. dumps false x ++ s) g in
      (sym g, tail_of (tail_of (tail_of (tail_of (tail_of f)))))
  value-injective (Json.infinite b) k r s h i p q e = cc
  value-injective (Json.num n) k r s h i p q e =
      let (m, g) = is_num k (sym (kind-eq (Json.num n) k r s h i e)) in
      let (a, b) =
        num-injective n m r s (num_text-all n h) (num_text-all m (subst IsStandard g i)) p q
          (e ∙ ap (λ x. dumps false x ++ s) g) in
      (ap Json.num a ∙ sym g, b)
  value-injective (Json.str t) k r s h i p q e =
      let (u, g) = is_str k (sym (kind-eq (Json.str t) k r s h i e)) in
      let (a, b) = quote-injective t u r s (e ∙ ap (λ x. dumps false x ++ s) g) in
      (ap Json.str a ∙ sym g, b)
  value-injective (Json.arr js) k r s h i p q e =
      let (ks, g) = is_arr k (sym (kind-eq (Json.arr js) k r s h i e)) in
      let f = tail_of (e ∙ ap (λ x. dumps false x ++ s) g) in
      let (a, b) = items-injective js ks r s h (subst IsStandard g i) (
        more_items-eq js ks r s h (subst IsStandard g i) (
          sym (append_assoc (dump_items false js) _ r)
          ∙ f
          ∙ append_assoc (dump_items false ks) _ s)) in
      (ap Json.arr a ∙ sym g, b)
  value-injective (Json.obj fs) k r s h i p q e =
      let (gs, g) = is_obj k (sym (kind-eq (Json.obj fs) k r s h i e)) in
      let f = tail_of (e ∙ ap (λ x. dumps false x ++ s) g) in
      let (a, b) = fields-injective fs gs r s h (subst IsStandard g i) (
        more_fields-eq fs gs r s (
          sym (append_assoc (dump_fields false fs) _ r)
          ∙ f
          ∙ append_assoc (dump_fields false gs) _ s)) in
      (ap Json.obj a ∙ sym g, b)

  items-injective :
      (js ks : Items) (r s : Str)
      → AllStandard js
      → AllStandard ks
      → more_items js ++ (b']' ∷ r) ≡ more_items ks ++ (b']' ∷ s)
      → (js ≡ ks) × (r ≡ s)
  items-injective Items.nil Items.nil r s h i e = (refl, tail_of e)
  items-injective Items.nil (Items.cons k ks) r s h i e = ground arith
  items-injective (Items.cons j js) Items.nil r s h i e = ground arith
  items-injective (Items.cons j js) (Items.cons k ks) r s (h, l) (i, m) e =
      let (a, b) =
        value-injective j k (more_items js ++ (b']' ∷ r)) (more_items ks ++ (b']' ∷ s)) h i
          (more_items-ends js r) (more_items-ends ks s)
          (sym (dump_items-cons j js (b']' ∷ r)) ∙ tail_of e ∙ dump_items-cons k ks (b']' ∷ s)) in
      let (c, d) = items-injective js ks r s l m b in (cc, d)

  fields-injective :
      (fs gs : Fields) (r s : Str)
      → AllMembers fs
      → AllMembers gs
      → more_fields fs ++ (b'}' ∷ r) ≡ more_fields gs ++ (b'}' ∷ s)
      → (fs ≡ gs) × (r ≡ s)
  fields-injective Fields.end Fields.end r s h i e = (refl, tail_of e)
  fields-injective Fields.end (Fields.field k v gs) r s h i e = ground arith
  fields-injective (Fields.field k v fs) Fields.end r s h i e = ground arith
  fields-injective (Fields.field k v fs) (Fields.field l w gs) r s (h, t) (i, u) e =
      let (a, b) = quote-injective k l _ _ (
        sym (dump_fields-field k v fs (b'}' ∷ r))
        ∙ tail_of e
        ∙ dump_fields-field l w gs (b'}' ∷ s)) in
      let (c, d) =
        value-injective v w (more_fields fs ++ (b'}' ∷ r)) (more_fields gs ++ (b'}' ∷ s)) h i
          (more_fields-ends fs r) (more_fields-ends gs s) (tail_of b) in
      let (f, g) = fields-injective fs gs r s t u d in (cc, g)

-- Two values without infinities that are printed alike, with the characters beyond ASCII as they are,
-- are the same value.
pub dumps-injective :
    (j k : Json) → IsStandard j → IsStandard k → dumps false j ≡ dumps false k → j ≡ k
dumps-injective j k h i e = (value-injective j k [] [] h i refl refl (ap (λ x. x ++ []) e)).0
