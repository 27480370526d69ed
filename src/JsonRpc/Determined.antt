-- ===== src/JsonRpc/Determined.antt =====
-- The canonical body determines how the parser reads a request.
use mcp_auth_gateway.Prelude.{ℕ, false, ◌≡◌, sym, ap, ◌∙◌, Option, none, some, List, Result, ok}
use mcp_auth_gateway.Json.{Json, obj}
use mcp_auth_gateway.Json.Decode.{Document, loads, no_duplicate_keys}
use mcp_auth_gateway.Json.Print.{dumps}
use mcp_auth_gateway.Json.Print.Kinds.{IsStandard}
use mcp_auth_gateway.Json.Print.Injective.{dumps-injective}
use mcp_auth_gateway.Json.Print.Bytes.{encode-injective}
use mcp_auth_gateway.JsonRpc.{JsonRpcParse, parse_decoded, parse_jsonrpc}
use mcp_auth_gateway.JsonRpc.Accepted.{IsAccepted, parse_jsonrpc-IsAccepted}

pub ok_of : {E A : Type 0} {a b : A} → ◌≡◌ {A = Result E A} (ok a) (ok b) → a ≡ b
ok_of h = cc

pub some_of : {A : Type 0} {a b : A} → ◌≡◌ {A = Option A} (some a) (some b) → a ≡ b
some_of h = cc

-- A body whose values are standard: it holds no float beyond the range.
abbrev pub IsStandardBody : (List ℕ → Document) → List ℕ → Type 0
IsStandardBody scan raw = (j : Json) → loads no_duplicate_keys (scan raw) ≡ ok j → IsStandard j

module _ (scan : List ℕ → Document) where
  same_fields :
      (raw raw' : List ℕ) (p p' : JsonRpcParse)
      (i : IsAccepted (loads no_duplicate_keys (scan raw)) p)
      (i' : IsAccepted (loads no_duplicate_keys (scan raw')) p')
      → IsStandardBody scan raw
      → IsStandardBody scan raw'
      → p.canonical_body ≡ p'.canonical_body
      → obj i.fields ≡ obj i'.fields
  same_fields raw raw' p p' i i' s s' e =
      let b = some_of (sym i.canonical ∙ e ∙ i'.canonical) in
      let d =
        encode-injective (dumps false (obj i.fields)) (dumps false (obj i'.fields)) i'.body
          (i.printed ∙ ap some b) i'.printed in
      dumps-injective (obj i.fields) (obj i'.fields) (s (obj i.fields) i.decoded)
        (s' (obj i'.fields) i'.decoded) d

  pub parse_jsonrpc-determined :
      (raw raw' : List ℕ) (p p' : JsonRpcParse)
      → parse_jsonrpc scan raw ≡ ok p
      → parse_jsonrpc scan raw' ≡ ok p'
      → p.error ≡ none
      → p'.error ≡ none
      → IsStandardBody scan raw
      → IsStandardBody scan raw'
      → p.canonical_body ≡ p'.canonical_body
      → p ≡ p'
  unfolding parse_jsonrpc
  parse_jsonrpc-determined raw raw' p p' h h' n n' s s' e =
      let i = (parse_jsonrpc-IsAccepted scan raw p h n).accepted in
      let i' = (parse_jsonrpc-IsAccepted scan raw' p' h' n').accepted in
      let f = same_fields raw raw' p p' i i' s s' e in
      ok_of (sym h ∙ ap parse_decoded (i.decoded ∙ ap ok f ∙ sym i'.decoded) ∙ h')
