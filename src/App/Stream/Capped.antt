-- ===== src/App/Stream/Capped.antt =====
-- What a client gets of a streamed response, and what the event says of it.
use mcp_auth_gateway.Prelude.{
  ℕ, zero, suc, ◌+◌, ◌≤◌, ◌<◌, ◌⊎◌, inl, inr, ◌≡◌, ◌≢◌, ◌↔◌, refl, ap, ◌∙◌, arith, true, false,
  List, [], ◌∷◌, length, length-append, ltb, Bool-cases,
}
use mcp_auth_gateway.Audit.{
  StreamResult, completed, client_disconnected, truncated_response_too_large, upstream_read_error,
}
use mcp_auth_gateway.App.Messages.{joined}
use mcp_auth_gateway.App.Stream.{
  Arriving, ended, broken, cancelled, chunk, abandoned, Streamed, ends, after_chunk, body_iter,
}

-- A stream under a cap from a count on.
pub record IsCapped (cap sent : ℕ) (s : Streamed) : Type 0 where
  pub within : sent + length (joined s.yielded) ≤ cap
  pub count :
      ((s.result ≡ truncated_response_too_large) × (cap < s.sent))
      ⊎ ((s.result ≢ truncated_response_too_large) × (s.sent ≡ sent + length (joined s.yielded)))

-- One that ends at once without a truncation, or with one.
ends-IsCapped :
    (cap sent : ℕ) (r : StreamResult)
    → sent ≤ cap
    → r ≢ truncated_response_too_large
    → IsCapped cap sent (ends r sent)
unfolding joined
ends-IsCapped cap sent r h n = record { within = omega arith; count = inr (n, omega arith) }

truncated-IsCapped :
    (cap sent count : ℕ)
    → sent ≤ cap
    → cap < count
    → IsCapped cap sent (ends truncated_response_too_large count)
unfolding joined
truncated-IsCapped cap sent count h l = record { within = omega arith; count = inl (refl, l) }

after_chunk-IsCapped :
    (cap sent : ℕ) (c : List ℕ) (s : Streamed)
    → IsCapped cap (sent + length c) s
    → IsCapped cap sent (after_chunk c s)
unfolding joined
after_chunk-IsCapped cap sent c s h = record {
  within = omega (arith, h.within, length-append c (joined s.yielded));
  count = elim h.count [
    | inl (t, l) ↦ inl (t, l)
    | inr (n, e) ↦ inr (n, omega (arith, length-append c (joined s.yielded)))
  ];
}

-- One chunk under a cap.
body_iter-over :
    (cap sent : ℕ) (c : List ℕ) (rest : Arriving)
    → ltb (suc cap) (sent + length c) ≡ true
    → body_iter (suc cap) sent (chunk c rest) ≡ ends truncated_response_too_large (sent + length c)
unfolding body_iter
body_iter-over cap sent c rest h = ground arith

body_iter-on :
    (cap sent : ℕ) (c : List ℕ) (rest : Arriving)
    → ltb (suc cap) (sent + length c) ≡ false
    → body_iter (suc cap) sent (chunk c rest)
      ≡ after_chunk c (body_iter (suc cap) (sent + length c) rest)
unfolding body_iter
body_iter-on cap sent c rest h = ground arith

body_iter-over_last :
    (cap sent : ℕ) (c : List ℕ)
    → ltb (suc cap) (sent + length c) ≡ true
    → body_iter (suc cap) sent (abandoned c) ≡ ends truncated_response_too_large (sent + length c)
unfolding body_iter
body_iter-over_last cap sent c h = ground arith

body_iter-on_last :
    (cap sent : ℕ) (c : List ℕ)
    → ltb (suc cap) (sent + length c) ≡ false
    → body_iter (suc cap) sent (abandoned c)
      ≡ after_chunk c (ends client_disconnected (sent + length c))
unfolding body_iter
body_iter-on_last cap sent c h = ground arith

body_iter-IsCapped_from :
    (cap sent : ℕ) (a : Arriving) → 0 < cap → sent ≤ cap → IsCapped cap sent (body_iter cap sent a)
unfolding body_iter
body_iter-IsCapped_from cap sent ended p h = ends-IsCapped cap sent completed h (λ q. cc)
body_iter-IsCapped_from cap sent (broken name) p h =
    let i = ends-IsCapped cap sent upstream_read_error h (λ q. cc) in
    record { within = i.within; count = i.count }
body_iter-IsCapped_from cap sent cancelled p h =
    ends-IsCapped cap sent client_disconnected h (λ q. cc)
body_iter-IsCapped_from zero sent (abandoned c) p h = omega arith
body_iter-IsCapped_from (suc cap) sent (abandoned c) p h =
    elim (Bool-cases (ltb (suc cap) (sent + length c))) [
      | inl t ↦
          rw (body_iter-over_last cap sent c t)
            (truncated-IsCapped (suc cap) sent (sent + length c) h (ground arith))
      | inr f ↦ rw (body_iter-on_last cap sent c f) (
          after_chunk-IsCapped (suc cap) sent c (ends client_disconnected (sent + length c)) (
            ends-IsCapped (suc cap) (sent + length c) client_disconnected (ground arith) (λ q. cc)))
    ]
body_iter-IsCapped_from zero sent (chunk c rest) p h = omega arith
body_iter-IsCapped_from (suc cap) sent (chunk c rest) p h =
    elim (Bool-cases (ltb (suc cap) (sent + length c))) [
      | inl t ↦
          rw (body_iter-over cap sent c rest t)
            (truncated-IsCapped (suc cap) sent (sent + length c) h (ground arith))
      | inr f ↦ rw (body_iter-on cap sent c rest f) (
          after_chunk-IsCapped (suc cap) sent c (body_iter (suc cap) (sent + length c) rest)
            (body_iter-IsCapped_from (suc cap) (sent + length c) rest p (ground arith)))
    ]

-- Under a cap the client never gets more bytes than the cap, whatever the upstream sends; the number
-- of bytes in the event is the number that were handed over, unless the stream was truncated, when
-- it is more than the cap.
pub body_iter-IsCapped : (cap : ℕ) (a : Arriving) → 0 < cap → IsCapped cap 0 (body_iter cap 0 a)
body_iter-IsCapped cap a p = body_iter-IsCapped_from cap 0 a p (omega arith)

-- an upstream that sends these chunks and ends, to a client that takes them
abbrev pub of_chunks : List (List ℕ) → Arriving
of_chunks [] = ended
of_chunks (c ∷ cs) = chunk c (of_chunks cs)

-- The stream was whole and within the cap, from a count on.
pub record IsWhole (cap sent : ℕ) (a : Arriving) (s : Streamed) : Type 0 where
  pub natural : a ≡ of_chunks s.yielded
  pub fits : (cap ≡ 0) ⊎ (sent + length (joined s.yielded) ≤ cap)

chunk-IsWhole :
    (cap sent : ℕ) (c : List ℕ) (rest : Arriving) (s : Streamed)
    → IsWhole cap (sent + length c) rest s
    → IsWhole cap sent (chunk c rest) (after_chunk c s)
unfolding joined
chunk-IsWhole cap sent c rest s w = record {
  natural = ap (chunk c) w.natural;
  fits = elim w.fits [
    | inl z ↦ inl z
    | inr l ↦ inr (omega (arith, length-append c (joined s.yielded)))
  ];
}

none-IsWhole :
    (cap sent : ℕ) → (cap ≡ 0) ⊎ (sent ≤ cap) → (cap ≡ 0) ⊎ (sent + length (joined []) ≤ cap)
unfolding joined
none-IsWhole cap sent (inl z) = inl z
none-IsWhole cap sent (inr l) = inr (omega arith)

completed-IsWhole :
    (cap sent : ℕ) (a : Arriving)
    → (cap ≡ 0) ⊎ (sent ≤ cap)
    → (body_iter cap sent a).result ≡ completed
    → IsWhole cap sent a (body_iter cap sent a)
unfolding body_iter
completed-IsWhole cap sent ended l h = record { natural = refl; fits = none-IsWhole cap sent l }
completed-IsWhole cap sent (broken name) l h = cc
completed-IsWhole cap sent cancelled l h = cc
completed-IsWhole zero sent (abandoned c) l h = cc
completed-IsWhole (suc cap) sent (abandoned c) l h = ground arith
completed-IsWhole zero sent (chunk c rest) l h =
    let i = completed-IsWhole zero sent rest (inl refl) h in
    record { natural = ap (chunk c) i.natural; fits = inl refl }
completed-IsWhole (suc cap) sent (chunk c rest) l h =
    elim (Bool-cases (ltb (suc cap) (sent + length c))) [
      | inl t ↦ ground (arith, body_iter-over cap sent c rest t)
      | inr f ↦ rw (body_iter-on cap sent c rest f) (
          chunk-IsWhole (suc cap) sent c rest (body_iter (suc cap) (sent + length c) rest) (
            completed-IsWhole (suc cap) (sent + length c) rest (inr (ground arith))
              (rw (body_iter-on cap sent c rest f) at h)))
    ]

whole_completed :
    (cap sent : ℕ) (cs : List (List ℕ))
    → (cap ≡ 0) ⊎ (sent + length (joined cs) ≤ cap)
    → (body_iter cap sent (of_chunks cs)).result ≡ completed
unfolding body_iter joined
whole_completed cap sent [] l = refl
whole_completed zero sent (c ∷ cs) l = whole_completed zero sent cs (inl refl)
whole_completed (suc cap) sent (c ∷ cs) (inl z) = cc
whole_completed (suc cap) sent (c ∷ cs) (inr l) =
    let f : ltb (suc cap) (sent + length c) ≡ false = ground (arith, length-append c (joined cs)) in
    rw (body_iter-on cap sent c (of_chunks cs) f) (
      whole_completed (suc cap) (sent + length c) cs
        (inr (omega (arith, length-append c (joined cs)))))

-- A stream is marked as completed exactly when the upstream sends the chunks that the client got, all
-- of them taken, and then ends, and they fit under the cap, if there is one: no truncation, no read
-- error and no client that goes away is ever marked so.
pub body_iter_completed_iff :
    (cap : ℕ) (a : Arriving)
    → ((body_iter cap 0 a).result ≡ completed) ↔ IsWhole cap 0 a (body_iter cap 0 a)
body_iter_completed_iff cap a = (
  λ h. completed-IsWhole cap 0 a (inr (omega arith)) h,
  λ w.
      ap (λ x. (body_iter cap 0 x).result) w.natural
      ∙ whole_completed cap 0 (body_iter cap 0 a).yielded w.fits,
)
