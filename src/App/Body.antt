-- ===== src/App/Body.antt =====
-- The body that the handler reads is the chunks in their order, within the limit.
use mathlib.Core.List.{append-nil, append_assoc}
use mcp_auth_gateway.Prelude.{
  ℕ, zero, suc, ◌≤◌, ◌⊎◌, false, ◌&&◌, ◌≡◌, refl, ap, ◌∙◌, arith, some, List, [], ◌∷◌, ◌++◌, codes,
  length, ltb, ok, Option-cases, Bool-cases, inl, inr,
}
use mcp_auth_gateway.Audit.{AuditRecord}
use mcp_auth_gateway.App.Messages.{Settings, Request, header, joined}
use mcp_auth_gateway.App.{declares_more, read_chunks, read_body}

-- The chunks are read as they are; the body stays within the limit if it did before them.
read_chunks-joined :
    (limit : ℕ) (body : List ℕ) (chunks : List (List ℕ)) (raw : List ℕ)
    → read_chunks limit body chunks ≡ some raw
    → raw ≡ body ++ joined chunks
unfolding read_chunks joined
read_chunks-joined limit body [] raw h = rw (append-nil body) (ground arith)
read_chunks-joined limit body (c ∷ cs) raw h =
    elim (Bool-cases (ltb 0 limit && ltb limit (length (body ++ c)))) [
      | inl t ↦ ground arith
      | inr f ↦
          read_chunks-joined limit (body ++ c) cs raw (ground arith)
          ∙ append_assoc body c (joined cs)
    ]

within_limit : (limit n : ℕ) → (ltb 0 limit && ltb limit n) ≡ false → (limit ≡ 0) ⊎ (n ≤ limit)
within_limit zero n h = inl refl
within_limit (suc limit) n h = inr (ground arith)

read_chunks-within :
    (limit : ℕ) (body : List ℕ) (chunks : List (List ℕ)) (raw : List ℕ)
    → (limit ≡ 0) ⊎ (length body ≤ limit)
    → read_chunks limit body chunks ≡ some raw
    → (limit ≡ 0) ⊎ (length raw ≤ limit)
unfolding read_chunks
read_chunks-within limit body [] raw l h = ground arith
read_chunks-within limit body (c ∷ cs) raw l h =
    elim (Bool-cases (ltb 0 limit && ltb limit (length (body ++ c)))) [
      | inl t ↦ ground arith
      | inr f ↦
          read_chunks-within limit (body ++ c) cs raw (within_limit limit (length (body ++ c)) f)
            (ground arith)
    ]

-- What the read body is.
pub record IsRead (s : Settings) (r : Request) (raw : List ℕ) : Type 0 where
  pub whole : raw ≡ joined r.chunks
  pub within : (s.max_request_bytes ≡ 0) ⊎ (length raw ≤ s.max_request_bytes)

pub read_body-IsRead :
    (s : Settings) (audit : AuditRecord) (r : Request) (raw : List ℕ)
    → read_body s audit r ≡ ok raw
    → IsRead s r raw
unfolding read_body
read_body-IsRead s audit r raw h =
    elim (Option-cases (read_chunks s.max_request_bytes [] r.chunks)) [
      | inl n ↦ ground arith
      | inr (body, e) ↦
          let q : body ≡ raw = ground arith in
          let e' : read_chunks s.max_request_bytes [] r.chunks ≡ some raw = e ∙ ap some q in
          record {
            whole = read_chunks-joined s.max_request_bytes [] r.chunks raw e';
            within = read_chunks-within s.max_request_bytes [] r.chunks raw (inr (omega arith)) e';
          }
    ]

pub read_body-declared :
    (s : Settings) (audit : AuditRecord) (r : Request) (raw : List ℕ)
    → read_body s audit r ≡ ok raw
    → declares_more s.max_request_bytes (header (codes "content-length") r) ≡ false
unfolding read_body
read_body-declared s audit r raw h =
    elim (Bool-cases (declares_more s.max_request_bytes (header (codes "content-length") r))) [
      | inl t ↦ ground arith
      | inr f ↦ f
    ]

++-length : (xs ys : List ℕ) → length xs ≤ length (xs ++ ys)
++-length [] ys = omega arith
++-length (x ∷ xs) ys = ground (arith, ++-length xs ys)

-- Chunks that stay within the limit are read to their end.
chunks_read :
    (limit : ℕ) (body : List ℕ) (chunks : List (List ℕ))
    → (limit ≡ 0) ⊎ (length (body ++ joined chunks) ≤ limit)
    → read_chunks limit body chunks ≡ some (body ++ joined chunks)
unfolding read_chunks joined
chunks_read limit body [] l = rw (append-nil body) refl
chunks_read limit body (c ∷ cs) l =
    let q = append_assoc body c (joined cs) in
    let n = ++-length (body ++ c) (joined cs) in
    let h = chunks_read limit (body ++ c) cs (ground arith) in ground arith

pub read_body-whole :
    (s : Settings) (audit : AuditRecord) (r : Request)
    → declares_more s.max_request_bytes (header (codes "content-length") r) ≡ false
    → (s.max_request_bytes ≡ 0) ⊎ (length (joined r.chunks) ≤ s.max_request_bytes)
    → read_body s audit r ≡ ok (joined r.chunks)
unfolding read_body
read_body-whole s audit r d l = rw (d, chunks_read s.max_request_bytes [] r.chunks l) refl
