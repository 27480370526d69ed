-- ===== src/Json/Decode.antt =====
-- How `json.loads` turns what its scanner reads into a value, calling the hooks of
-- src/mcp_gateway/app.py and src/mcp_gateway/tools_list.py on the way. The scanner itself (bytes to
-- `Document`) is the standard library's and is a parameter of what calls this.
pub mod Differential
pub mod Repeats
use mcp_auth_gateway.Prelude.{
  Str, Bool, true, false, Option, none, some, List, [], ◌∷◌, elem, Result, ok, err, ◌>>=◌,
  if◌then◌else◌,
}
use mcp_auth_gateway.Json.{Json, Items, Fields, end, field, put, get}

-- The values in the order of the text. A syntax error stands where the scanner meets it: `broken`
-- for a value, `items_cut` or `fields_cut` inside an
-- array or an object, after the elements before it.
mutual
  pub data Raw : Type 0 where
    null : Raw
    bool : Bool → Raw
    -- a number within the range, by the text that Python prints for it
    num : Str → Raw
    -- a float literal beyond the range, which decodes to an infinity with no call of a hook
    overflow : Bool → Raw
    -- `NaN`, `Infinity` or `-Infinity`
    constant : Str → Raw
    str : Str → Raw
    arr : RawItems → Raw
    obj : RawFields → Raw
    broken : Raw

  pub data RawItems : Type 0 where
    items_end items_cut : RawItems
    item : Raw → RawItems → RawItems

  pub data RawFields : Type 0 where
    fields_end fields_cut : RawFields
    pair : Str → Raw → RawFields → RawFields

-- A scanned document, and whether text is left behind its value.
pub record Document : Type 0 where
  pub value : Raw
  pub extra : Bool

-- `_DuplicateKey`, `_NonFiniteConstant` and any other `ValueError`
pub data DecodeError : Type 0 where
  duplicate_key non_finite : Str → DecodeError
  invalid : DecodeError

-- `object_pairs_hook`, called with the decoded pairs of an object when its end is read
abbrev pub PairsHook : Type 0
PairsHook = Fields → Result DecodeError Fields

-- `dict(pairs)`: a later pair replaces the value of an earlier one with its key
unfoldable pub dict_from : Fields → Fields → Fields
dict_from acc end = acc
dict_from acc (field k v fs) = dict_from (put k v acc) fs

unfoldable pub dict : Fields → Fields
unfolding dict_from
dict pairs = dict_from end pairs

-- the loop of `_no_duplicate_keys`: the first key that is seen twice
unfoldable pub repeated : List Str → Fields → Option Str
repeated seen end = none
repeated seen (field k v fs) =
    let rest = repeated (k ∷ seen) fs in if elem k seen then some k else rest

-- `_no_duplicate_keys`
unfoldable pub no_duplicate_keys : PairsHook
unfolding repeated dict
no_duplicate_keys pairs = elim (repeated [] pairs) [
  | some k ↦ err (duplicate_key k)
  | none ↦ ok (dict pairs)
]

-- `_reject_nonfinite`, of both modules
unfoldable pub reject_nonfinite : Str → Result DecodeError Json
reject_nonfinite value = err (non_finite value)

unfoldable mutual
  unfolding reject_nonfinite

  pub decode : PairsHook → Raw → Result DecodeError Json
  decode hook Raw.null = ok Json.null
  decode hook (Raw.bool b) = ok (Json.bool b)
  decode hook (Raw.num n) = ok (Json.num n)
  decode hook (Raw.overflow negative) = ok (Json.infinite negative)
  decode hook (Raw.constant name) = reject_nonfinite name
  decode hook (Raw.str s) = ok (Json.str s)
  decode hook (Raw.arr rs) = do items ← decode_items hook rs; ok (Json.arr items)
  decode hook (Raw.obj rs) = do
    pairs ← decode_fields hook rs
    fields ← hook pairs
    ok (Json.obj fields)
  decode hook Raw.broken = err invalid

  pub decode_items : PairsHook → RawItems → Result DecodeError Items
  decode_items hook items_end = ok Items.nil
  decode_items hook items_cut = err invalid
  decode_items hook (item r rs) = do
    j ← decode hook r
    js ← decode_items hook rs
    ok (Items.cons j js)

  pub decode_fields : PairsHook → RawFields → Result DecodeError Fields
  decode_fields hook fields_end = ok end
  decode_fields hook fields_cut = err invalid
  decode_fields hook (pair k r rs) = do
    j ← decode hook r
    fs ← decode_fields hook rs
    ok (field k j fs)

-- `json.loads` with `parse_constant=_reject_nonfinite` and the given hook
unfoldable pub loads : PairsHook → Document → Result DecodeError Json
unfolding decode
loads hook d = do j ← decode hook d.value; if d.extra then err invalid else ok j

-- the decoder's own object construction, where no hook is given
unfoldable pub plain : PairsHook
unfolding dict
plain pairs = ok (dict pairs)
