-- ===== src/Json.antt =====
-- What `json.load` and `json.loads` return, as the gateway inspects it with `isinstance`, `get`
-- and `in`. A decoded object has each key once; a key's lookup takes the first.
pub mod Decode
pub mod Print
use mcp_auth_gateway.Prelude.{
  Str, Bool, true, false, Option, none, some, List, [], ◌∷◌, eq_str, if◌then◌else◌, is_empty,
}

mutual
  pub data Json : Type 0 where
    null : Json
    bool : Bool → Json
    -- a finite number, by the text that Python prints for it
    num : Str → Json
    -- the infinity that a float literal beyond the range decodes to, and whether it is negative
    infinite : Bool → Json
    str : Str → Json
    arr : Items → Json
    obj : Fields → Json

  pub data Items : Type 0 where
    nil : Items
    cons : Json → Items → Items

  pub data Fields : Type 0 where
    end : Fields
    field : Str → Json → Fields → Fields

-- The members of an object and the elements of an array as lists.
unfoldable pub members : Fields → List (Str × Json)
members end = []
members (field k v fs) = (k, v) ∷ members fs

unfoldable pub elements : Items → List Json
elements nil = []
elements (cons j js) = j ∷ elements js

unfoldable pub of_elements : List Json → Items
of_elements [] = nil
of_elements (j ∷ js) = cons j (of_elements js)

unfoldable pub of_members : List (Str × Json) → Fields
of_members [] = end
of_members ((k, v) ∷ fs) = field k v (of_members fs)

-- `fs.get(k)`
unfoldable pub get : Str → Fields → Option Json
get k end = none
get k (field j v fs) = if eq_str k j then some v else get k fs

-- `k in fs`
abbrev pub has_key : Str → Fields → Bool
has_key k fs = elim (get k fs) [ none ↦ false | some _ ↦ true ]

-- `fs[k] = v` for a key that is there
unfoldable pub put : Str → Json → Fields → Fields
put k v end = field k v end
put k v (field j w fs) = if eq_str k j then field j v fs else field j w (put k v fs)

-- `all(isinstance(v, str) and v for v in js)`, and the strings themselves if so
unfoldable pub nonempty_strings : Items → Option (List Str)
nonempty_strings nil = some []
nonempty_strings (cons (str s) js) = elim (nonempty_strings js) [
  | none ↦ none
  | some ss ↦ if is_empty s then none else some (s ∷ ss)
]
nonempty_strings (cons _ js) = none

-- `all(isinstance(v, str) for v in js)`, and the strings themselves if so
unfoldable pub strings : Items → Option (List Str)
strings nil = some []
strings (cons (str s) js) = elim (strings js) [ none ↦ none | some ss ↦ some (s ∷ ss) ]
strings (cons _ js) = none
