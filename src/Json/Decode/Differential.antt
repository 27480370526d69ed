-- ===== src/Json/Decode/Differential.antt =====
-- The parser-differential guard: a body that the gateway accepts reads alike for every way of
-- resolving a repeated key, since it has none at any depth.
use mcp_auth_gateway.Prelude.{
  Str, false, ◌||◌, ◌≡◌, refl, sym, ◌∙◌, arith, none, List, [], ◌∷◌, elem, eq_str, ok, >>=-eq-ok,
  if◌then◌else◌,
}
use mcp_auth_gateway.Json.{Json, Items, Fields, end, field, put}
use mcp_auth_gateway.Json.Decode.{
  Raw, RawItems, RawFields, Document, PairsHook, decode, decode_items, decode_fields, loads,
  dict_from, repeated, no_duplicate_keys, plain,
}

-- A reader in which the first of two pairs with one key stands.
abbrev pub put_absent : Str → Json → Fields → Fields
put_absent k v end = field k v end
put_absent k v (field j w fs) = field j w (if eq_str k j then fs else put_absent k v fs)

pub first_from : Fields → Fields → Fields
first_from acc end = acc
first_from acc (field k v fs) = first_from (put_absent k v acc) fs

abbrev pub first_wins : PairsHook
first_wins pairs = ok (first_from end pairs)

-- The keys of an object, and the object with another behind it.
abbrev key_list : Fields → List Str
key_list end = []
key_list (field k _ fs) = k ∷ key_list fs

abbrev append : Fields → Fields → Fields
append end gs = gs
append (field k v fs) gs = field k v (append fs gs)

append_end : (fs : Fields) → append fs end ≡ fs
append_end end = refl
append_end (field k v fs) = rw (append_end fs)

append_assoc : (fs gs hs : Fields) → append (append fs gs) hs ≡ append fs (append gs hs)
append_assoc end gs hs = refl
append_assoc (field k v fs) gs hs = rw (append_assoc fs gs hs)

put_new :
    (k : Str) (v : Json) (fs : Fields)
    → elem k (key_list fs) ≡ false
    → put k v fs ≡ append fs (field k v end)
unfolding put elem
put_new k v end h = refl
put_new k v (field j w fs) h = ground (arith, put_new k v fs)

put_absent_new :
    (k : Str) (v : Json) (fs : Fields)
    → elem k (key_list fs) ≡ false
    → put_absent k v fs ≡ append fs (field k v end)
unfolding elem
put_absent_new k v end h = refl
put_absent_new k v (field j w fs) h = ground (arith, put_absent_new k v fs)

-- With keys that are new each time, both readers build the object as it is written.
pub record AllNew (acc fs : Fields) : Type 0 where
  pub by_last : dict_from acc fs ≡ append acc fs
  pub by_first : first_from acc fs ≡ append acc fs

key_list-append :
    (fs : Fields) (k : Str) (v : Json) (x : Str)
    → elem x (key_list (append fs (field k v end))) ≡ (elem x (key_list fs) || eq_str x k)
unfolding elem
key_list-append end k v x = ground arith
key_list-append (field j w fs) k v x = ground (arith, key_list-append fs k v x)

repeated-none :
    (seen : List Str) (acc fs : Fields)
    → ((x : Str) → elem x (key_list acc) ≡ elem x seen)
    → repeated seen fs ≡ none
    → AllNew acc fs
unfolding repeated dict_from first_from elem
repeated-none seen acc end same h = record {
  by_last = sym (append_end acc);
  by_first = sym (append_end acc);
}
repeated-none seen acc (field k v fs) same h =
    let new : elem k (key_list acc) ≡ false = ground (arith, same k) in
    let ih : AllNew (append acc (field k v end)) fs =
      repeated-none (k ∷ seen) (append acc (field k v end)) fs
        (λ x. ground (arith, key_list-append acc k v x, same x)) (ground (arith, same k)) in
    record {
      by_last = rw (put_new k v acc new) (ih.by_last ∙ append_assoc acc (field k v end) fs);
      by_first =
          rw (put_absent_new k v acc new) (ih.by_first ∙ append_assoc acc (field k v end) fs);
    }

-- What the gateway's hook accepts, both readers accept, and all three build one object.
no_duplicate_keys-agree :
    (pairs fs : Fields)
    → no_duplicate_keys pairs ≡ ok fs
    → (plain pairs ≡ ok fs) × (first_wins pairs ≡ ok fs)
unfolding no_duplicate_keys plain
no_duplicate_keys-agree pairs fs h =
    let none_twice : repeated [] pairs ≡ none = ground arith in
    let new : AllNew end pairs = repeated-none [] end pairs (λ x. refl) none_twice in
    (ground arith, ground (arith, new.by_last, new.by_first))

-- `g` accepts all that `h` accepts, with the same result.
abbrev pub Extends : PairsHook → PairsHook → Type 0
Extends g h = (pairs fs : Fields) → h pairs ≡ ok fs → g pairs ≡ ok fs

mutual
  unfolding decode

  decode-Extends :
      (g h : PairsHook) (e : Extends g h) (r : Raw) (j : Json)
      → decode h r ≡ ok j
      → decode g r ≡ ok j
  decode-Extends g h e Raw.null j p = p
  decode-Extends g h e (Raw.bool b) j p = p
  decode-Extends g h e (Raw.num n) j p = p
  decode-Extends g h e (Raw.overflow b) j p = p
  decode-Extends g h e (Raw.constant b) j p = p
  decode-Extends g h e (Raw.str b) j p = p
  decode-Extends g h e Raw.broken j p = p
  decode-Extends g h e (Raw.arr rs) j p =
      let (js, a, q) = >>=-eq-ok (decode_items h rs) _ p in
      rw (decode_items-Extends g h e rs js a) q
  decode-Extends g h e (Raw.obj rs) j p =
      let (pairs, a, q) = >>=-eq-ok (decode_fields h rs) _ p in
      let (fs, b, s) = >>=-eq-ok (h pairs) _ q in
      rw (decode_fields-Extends g h e rs pairs a) (rw (e pairs fs b) s)

  decode_items-Extends :
      (g h : PairsHook) (e : Extends g h) (rs : RawItems) (js : Items)
      → decode_items h rs ≡ ok js
      → decode_items g rs ≡ ok js
  decode_items-Extends g h e RawItems.items_end js p = p
  decode_items-Extends g h e RawItems.items_cut js p = p
  decode_items-Extends g h e (RawItems.item r rs) js p =
      let (k, a, q) = >>=-eq-ok (decode h r) _ p in
      let (ks, b, s) = >>=-eq-ok (decode_items h rs) _ q in
      rw (decode-Extends g h e r k a) (rw (decode_items-Extends g h e rs ks b) s)

  decode_fields-Extends :
      (g h : PairsHook) (e : Extends g h) (rs : RawFields) (fs : Fields)
      → decode_fields h rs ≡ ok fs
      → decode_fields g rs ≡ ok fs
  decode_fields-Extends g h e RawFields.fields_end fs p = p
  decode_fields-Extends g h e RawFields.fields_cut fs p = p
  decode_fields-Extends g h e (RawFields.pair k r rs) fs p =
      let (v, a, q) = >>=-eq-ok (decode h r) _ p in
      let (gs, b, s) = >>=-eq-ok (decode_fields h rs) _ q in
      rw (decode-Extends g h e r v a) (rw (decode_fields-Extends g h e rs gs b) s)

loads-Extends :
    (g h : PairsHook)
    → Extends g h
    → (d : Document) (j : Json) → loads h d ≡ ok j
    → loads g d ≡ ok j
unfolding loads
loads-Extends g h e d j p =
    let (v, a, q) = >>=-eq-ok (decode h d.value) _ p in rw (decode-Extends g h e d.value v a) q

-- A body that the gateway decodes has one meaning: a reader that keeps the last of two pairs with
-- one key, and a reader that keeps the first, both decode the original body to that value too, its
-- nested objects included.
pub loads_unambiguous :
    (d : Document) (j : Json)
    → loads no_duplicate_keys d ≡ ok j
    → (loads plain d ≡ ok j) × (loads first_wins d ≡ ok j)
loads_unambiguous d j h = (
  loads-Extends plain no_duplicate_keys (λ p f q. (no_duplicate_keys-agree p f q).0) d j h,
  loads-Extends first_wins no_duplicate_keys (λ p f q. (no_duplicate_keys-agree p f q).1) d j h,
)
