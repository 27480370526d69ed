-- ===== src/ToolsList/Either.antt =====
-- The two shapes of a filter outcome.

use mcp_auth_gateway.Prelude.{
  ℕ, true, ◌≡◌, refl, arith, Option, none, some, List, codes, is_some, Result, ok, err,
}
use mcp_auth_gateway.Json.{Json, arr, obj, Items, Fields, get}
use mcp_auth_gateway.Json.Decode.{Document, DecodeError, loads, plain}
use mcp_auth_gateway.Json.Print.{dumps_finite}
use mcp_auth_gateway.ToolPolicy.{ToolPolicy}
use mcp_auth_gateway.ToolsList.{
  FilterOutcome, is_ok, keep_tools, rewritten, encoded, finish, encode_kept, filter_tools,
  filter_result, filter_document, filter_tools_list,
}

abbrev pub BodyOrError : FilterOutcome → Type 0
BodyOrError o = is_some o.body ≡ is_ok o

finish-BodyOrError : (tools kept : Items) (b : Option (List ℕ)) → BodyOrError (finish tools kept b)
unfolding finish
finish-BodyOrError tools kept none = refl
finish-BodyOrError tools kept (some b) = refl

encode_kept-BodyOrError :
    (fs result : Fields) (tools : Items) (o : Option Items)
    → BodyOrError (encode_kept fs result tools o)
unfolding encode_kept
encode_kept-BodyOrError fs result tools none = refl
encode_kept-BodyOrError fs result tools (some kept) =
    finish-BodyOrError tools kept (encoded (dumps_finite true (rewritten fs result kept)))

module _ (p : ToolPolicy) (claims : Option Fields) where
  filter_tools-BodyOrError :
      (fs result : Fields) (t : Option Json) → BodyOrError (filter_tools p claims fs result t)
  unfolding filter_tools
  filter_tools-BodyOrError fs result (some (arr tools)) =
      encode_kept-BodyOrError fs result tools (keep_tools p claims tools)
  filter_tools-BodyOrError fs result none = refl
  filter_tools-BodyOrError fs result (some _) = refl

  filter_result-BodyOrError :
      (fs : Fields) (r : Option Json) → BodyOrError (filter_result p claims fs r)
  unfolding filter_result
  filter_result-BodyOrError fs (some (obj result)) =
      filter_tools-BodyOrError fs result (get (codes "tools") result)
  filter_result-BodyOrError fs none = refl
  filter_result-BodyOrError fs (some _) = refl

  filter_document-BodyOrError :
      (d : Result DecodeError Json) → BodyOrError (filter_document p claims d)
  unfolding filter_document
  filter_document-BodyOrError (ok (obj fs)) =
      ground (arith, filter_result-BodyOrError fs (get (codes "result") fs))
  filter_document-BodyOrError (err e) = refl
  filter_document-BodyOrError (ok _) = refl

  -- The filter returns a body or an error code, and never both nor neither.
  filter_body_or_error :
      (scan : List ℕ → Document) (raw : List ℕ)
      → is_some (filter_tools_list scan raw p claims).body
        ≡ is_ok (filter_tools_list scan raw p claims)
  unfolding filter_tools_list
  filter_body_or_error scan raw = filter_document-BodyOrError (loads plain (scan raw))
