-- ===== src/Audit/Line/Printable.antt =====
-- The lines of the audit log are printable.
use mcp_auth_gateway.Prelude.{
  ℕ, zero, suc, ◌+◌, ◌/◌, ◌%◌, Str, Bool, true, false, ◌≡◌, refl, arith, Option, none, some, List,
  [], ◌∷◌, codes, digits, decimal, le_str, ltb, if◌then◌else◌, Bool-cases, inl, inr,
}
use mcp_auth_gateway.Json.{Json, str, arr, Fields, end, field}
use mcp_auth_gateway.Audit.{Reason, StreamResult, AuditRecord, stream_event}
use mcp_auth_gateway.Audit.Line.{
  texts, count, member, to_dict, insert_key, sort_keys, line, emit, emit_stream_event,
}
use mcp_auth_gateway.Json.Print.Printable.{
  all_printable, append-printable, AllNums, AllItems, AllFields, object-printable,
}

digits-printable : (f n : ℕ) → all_printable (digits f n) ≡ true
unfolding digits all_printable
digits-printable zero n = refl
digits-printable (suc f) n = elim (Bool-cases (ltb n 10)) [
  | inl t ↦ ground arith
  | inr e ↦
      let k =
        append-printable (digits f (n / 10)) ((48 + n % 10) ∷ []) (digits-printable f (n / 10))
          (ground arith) in
      ground arith
]

decimal-printable : (n : ℕ) → all_printable (decimal n) ≡ true
unfolding decimal
decimal-printable n = digits-printable (suc n) n

texts-AllItems : (ss : List Str) → AllItems (texts ss)
unfolding AllItems
texts-AllItems [] = tt
texts-AllItems (s ∷ ss) = (tt, texts-AllItems ss)

-- Members of a dictionary, each with what is known of its value.
module _ (rest : Fields) (h : AllFields rest) where
  text_member : (k : Str) (o : Option Str) → AllFields (member k str o rest)
  unfolding AllFields
  text_member k none = h
  text_member k (some s) = (tt, h)

  count_member : (k : Str) (o : Option ℕ) → AllFields (member k count o rest)
  unfolding AllFields
  count_member k none = h
  count_member k (some n) = (decimal-printable n, h)

  described_member :
      {A : Type 0} (k : Str) (f : A → Str) (o : Option A)
      → AllFields (member k (λ x. str (f x)) o rest)
  unfolding AllFields
  described_member k f none = h
  described_member k f (some a) = (tt, h)

scope_values-AllFields :
    (b : Bool) (ss : List Str)
    → AllFields (if b then field (codes "held_scopes") (arr (texts ss)) end else end)
unfolding AllFields
scope_values-AllFields true ss = (texts-AllItems ss, tt)
scope_values-AllFields false ss = tt

insert_key-AllFields :
    (k : Str) (v : Json) (fs : Fields) → AllNums v → AllFields fs → AllFields (insert_key k v fs)
unfolding insert_key AllFields
insert_key-AllFields k v end h t = (h, tt)
insert_key-AllFields k v (field j w fs) h (i, t) = elim (Bool-cases (le_str k j)) [
  | inl e ↦ rw e (h, (i, t))
  | inr e ↦ rw e (i, insert_key-AllFields k v fs h t)
]

sort_keys-AllFields : (fs : Fields) → AllFields fs → AllFields (sort_keys fs)
unfolding sort_keys AllFields
sort_keys-AllFields end h = tt
sort_keys-AllFields (field k v fs) (h, t) =
    insert_key-AllFields k v (sort_keys fs) h (sort_keys-AllFields fs t)

module _ (describe : Reason → Str) (latency : Str) (printed : all_printable latency ≡ true)
    (debug_on : Bool) where
  to_dict-AllFields : (r : AuditRecord) → AllFields (to_dict describe (some latency) debug_on r)
  unfolding to_dict AllFields
  to_dict-AllFields r =
      let a = scope_values-AllFields debug_on r.scope_values in
      let b = count_member _ a (codes "bytes_streamed") r.bytes_streamed in
      let c = described_member _ b (codes "stream_result") _ r.stream_result in
      let e = count_member _ (printed, c) (codes "upstream_status") r.upstream_status in
      let f =
        described_member _
          (texts-AllItems r.required_scopes, (decimal-printable r.held_scope_count, e))
          (codes "reason") describe r.reason in
      let g = text_member _ f (codes "error_code") r.error_code in
      let i = count_member _ (tt, g) (codes "tools_filtered") r.tools_filtered in
      let j = count_member _ i (codes "tools_returned") r.tools_returned in
      let k = text_member _ j (codes "tool_rule") r.tool_rule in
      let l = text_member _ k (codes "tool_name") r.tool_name in
      let m = text_member _ l (codes "method") r.method in
      let n = text_member _ m (codes "audience") r.audience in
      let o = text_member _ n (codes "issuer") r.issuer in
      let p = text_member _ o (codes "subject") r.subject in
      let q = text_member _ p (codes "source_ip") r.source_ip in
      (tt, text_member _ q (codes "client_request_id") r.client_request_id)

  line-printable : (r : AuditRecord) → all_printable (line describe latency debug_on r) ≡ true
  unfolding line
  line-printable r =
      let fs = to_dict describe (some latency) debug_on r in
      object-printable (sort_keys fs) (sort_keys-AllFields fs (to_dict-AllFields r))

  -- Whatever the client, the token and the upstream give for the texts of a record, what is logged for
  -- it, by `emit` and by `emit_stream_event`, is one line of printable ASCII: no text of a request can
  -- break the line, start another event, or reach a terminal as a control character. The text of the
  -- latency is printable.
  pub emit-printable :
      (r : AuditRecord) (result : StreamResult) (sent : ℕ)
      → (all_printable (emit describe latency debug_on r).1 ≡ true)
        × (all_printable (emit_stream_event describe latency debug_on result sent r).1 ≡ true)
  unfolding emit emit_stream_event
  emit-printable r result sent = (line-printable r, line-printable (stream_event result sent r))
