-- ===== src/ToolsList/Shown.antt =====
-- What a caller sees of a tools/list response.
use mathlib.Core.Path.{subst}
use mcp_auth_gateway.Prelude.{
  ℕ, ◌+◌, ◌≤◌, true, ◌≡◌, refl, sym, ◌∙◌, ap, arith, Option, none, some, List, codes, Result, ok,
  err,
}
use mcp_auth_gateway.Json.{Json, arr, obj, Items, Fields, get}
use mcp_auth_gateway.Json.Decode.{Document, DecodeError, loads, plain}
use mcp_auth_gateway.Json.Print.{dumps_finite}
use mcp_auth_gateway.ToolPolicy.{ToolPolicy}
use mcp_auth_gateway.ToolsList.{
  FilterOutcome, is_ok, keep_tools, count, rewritten, encoded, finish, encode_kept, filter_tools,
  filter_result, filter_document, filter_tools_list,
}
use mcp_auth_gateway.ToolsList.Kept.{IsFiltered, keep_tools-IsFiltered}

-- What a rewritten body is made of.
pub record Shows (scan : List ℕ → Document) (raw : List ℕ) (p : ToolPolicy) (claims : Option Fields)
    (o : FilterOutcome) : Type 0 where
  pub document : Fields
  pub result : Fields
  pub tools : Items
  pub kept : Items
  pub decoded : loads plain (scan raw) ≡ ok (obj document)
  pub no_error : get (codes "error") document ≡ none
  pub has_result : get (codes "result") document ≡ some (obj result)
  pub has_tools : get (codes "tools") result ≡ some (arr tools)
  pub filtered : IsFiltered p claims tools kept
  pub body : o.body ≡ encoded (dumps_finite true (rewritten document result kept))
  pub returned : o.tools_returned ≡ count kept
  pub all_counted : o.tools_returned + o.tools_filtered ≡ count tools

module _ (p : ToolPolicy) (claims : Option Fields) where
  -- One stage of the function: either it fails, or it goes on to the next.
  finish_ok :
      (tools kept : Items) (b : Option (List ℕ))
      → is_ok (finish tools kept b) ≡ true
      → count kept ≤ count tools
      → ((finish tools kept b).body ≡ b)
        × ((finish tools kept b).tools_returned ≡ count kept)
        × ((finish tools kept b).tools_returned + (finish tools kept b).tools_filtered
            ≡ count tools)
  unfolding finish
  finish_ok tools kept none h l = cc
  finish_ok tools kept (some b) h l = (refl, refl, omega arith)

  record FromTools (fs result : Fields) (t : Option Json) (o : FilterOutcome) : Type 0 where
    tools : Items
    kept : Items
    is_array : t ≡ some (arr tools)
    filtered : IsFiltered p claims tools kept
    body : o.body ≡ encoded (dumps_finite true (rewritten fs result kept))
    returned : o.tools_returned ≡ count kept
    all_counted : o.tools_returned + o.tools_filtered ≡ count tools

  filter_kept :
      (fs result : Fields) (tools : Items) (o : Option Items)
      → keep_tools p claims tools ≡ o
      → is_ok (encode_kept fs result tools o) ≡ true
      → FromTools fs result (some (arr tools)) (encode_kept fs result tools o)
  unfolding encode_kept
  filter_kept fs result tools none e h = cc
  filter_kept fs result tools (some kept) e h =
      let filtered : IsFiltered p claims tools kept = keep_tools-IsFiltered p claims tools kept e in
      let (body, returned, all_counted) =
        finish_ok tools kept (encoded (dumps_finite true (rewritten fs result kept))) h
          filtered.fewer in
      record {
        tools = tools;
        kept = kept;
        is_array = refl;
        filtered = filtered;
        body = body;
        returned = returned;
        all_counted = all_counted;
      }

  filter_tools-FromTools :
      (fs result : Fields) (t : Option Json)
      → is_ok (filter_tools p claims fs result t) ≡ true
      → FromTools fs result t (filter_tools p claims fs result t)
  unfolding filter_tools
  filter_tools-FromTools fs result (some (arr tools)) h =
      filter_kept fs result tools (keep_tools p claims tools) refl h
  filter_tools-FromTools fs result none h = cc
  filter_tools-FromTools fs result (some _) h = cc

  record FromResult (fs : Fields) (r : Option Json) (o : FilterOutcome) : Type 0 where
    result : Fields
    is_object : r ≡ some (obj result)
    tools : FromTools fs result (get (codes "tools") result) o

  filter_result-FromResult :
      (fs : Fields) (r : Option Json)
      → is_ok (filter_result p claims fs r) ≡ true
      → FromResult fs r (filter_result p claims fs r)
  unfolding filter_result
  filter_result-FromResult fs (some (obj result)) h = record {
    result = result;
    is_object = refl;
    tools = filter_tools-FromTools fs result (get (codes "tools") result) h;
  }
  filter_result-FromResult fs none h = cc
  filter_result-FromResult fs (some _) h = cc

  record FromDocument (d : Result DecodeError Json) (o : FilterOutcome) : Type 0 where
    document : Fields
    decoded : d ≡ ok (obj document)
    no_error : get (codes "error") document ≡ none
    result : FromResult document (get (codes "result") document) o

  passed_guards :
      (fs : Fields)
      → is_ok (filter_document p claims (ok (obj fs))) ≡ true
      → (get (codes "error") fs ≡ none)
        × (filter_document p claims (ok (obj fs))
            ≡ filter_result p claims fs (get (codes "result") fs))
  unfolding filter_document
  passed_guards fs h = (ground arith, ground arith)

  filter_document-FromDocument :
      (d : Result DecodeError Json)
      → is_ok (filter_document p claims d) ≡ true
      → FromDocument d (filter_document p claims d)
  unfolding filter_document
  filter_document-FromDocument (ok (obj fs)) h =
      let (no_error, q) = passed_guards fs h in
      record {
        document = fs;
        decoded = refl;
        no_error = no_error;
        result =
            subst (FromResult fs (get (codes "result") fs)) (sym q)
              (filter_result-FromResult fs (get (codes "result") fs) (sym (ap is_ok q) ∙ h));
      }
  filter_document-FromDocument (err e) h = cc
  filter_document-FromDocument (ok _) h = cc

  -- A body that the filter returns is the printed form of the decoded document with its tool list
  -- replaced, where the document has no error member; the list kept holds exactly the entries of the
  -- original list that name a tool which the policy lets this caller call; and the two counters are
  -- the number of entries kept and the number left out.
  pub filter-Shows :
      (scan : List ℕ → Document) (raw : List ℕ)
      → is_ok (filter_tools_list scan raw p claims) ≡ true
      → Shows scan raw p claims (filter_tools_list scan raw p claims)
  unfolding filter_tools_list
  filter-Shows scan raw h =
      let d = filter_document-FromDocument (loads plain (scan raw)) h in
      let t = d.result.tools in
      record {
        document = d.document;
        result = d.result.result;
        tools = t.tools;
        kept = t.kept;
        decoded = d.decoded;
        no_error = d.no_error;
        has_result = d.result.is_object;
        has_tools = t.is_array;
        filtered = t.filtered;
        body = t.body;
        returned = t.returned;
        all_counted = t.all_counted;
      }
