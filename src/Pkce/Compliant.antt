-- ===== src/Pkce/Compliant.antt =====
-- The PKCE pair is as RFC 7636 wants it.
use mcp_auth_gateway.Prelude.{
  ℕ, suc, ◌+◌, ◌-◌, ◌*◌, ◌/◌, ◌%◌, ◌≤◌, Str, Bool, true, ◌&&◌, ◌≡◌, refl, ap, ◌∙◌, arith, List, [],
  ◌∷◌, length, ltb, ◌==◌, if◌then◌else◌,
}
use mcp_auth_gateway.Pkce.{sextet_char, b64url, generate_pkce, is_unreserved}

unfoldable pub all_unreserved : Str → Bool
all_unreserved [] = true
all_unreserved (c ∷ s) = is_unreserved c && all_unreserved s

-- Bytes.
abbrev pub AllBytes : List ℕ → Type 0
AllBytes [] = Unit
AllBytes (b ∷ bs) = (suc b ≤ 256) × AllBytes bs

abbrev sextet : ℕ → ℕ
sextet c =
    if c == b'-'
    then 62
    else if c == b'_'
    then 63
    else if ltb c b'A'
    then c + 4
    else if ltb c b'a'
    then c - 65
    else c - 71

-- A reader of base64 without padding.
unfoldable pub b64_bytes : Str → List ℕ
b64_bytes (p ∷ q ∷ []) = (sextet p * 4 + sextet q / 16) ∷ []
b64_bytes (p ∷ q ∷ r ∷ []) =
    (sextet p * 4 + sextet q / 16) ∷ (sextet q % 16 * 16 + sextet r / 4) ∷ []
b64_bytes (p ∷ q ∷ r ∷ s ∷ text) =
    (sextet p * 4 + sextet q / 16)
    ∷ (sextet q % 16 * 16 + sextet r / 4)
    ∷ (sextet r % 4 * 64 + sextet s)
    ∷ b64_bytes text
b64_bytes _ = []

sextet-char : (n : ℕ) → suc n ≤ 64 → sextet (sextet_char n) ≡ n
sextet-char n h = ground arith

sextet_char-unreserved : (n : ℕ) → suc n ≤ 64 → is_unreserved (sextet_char n) ≡ true
sextet_char-unreserved n h = ground arith

pub b64url-unreserved : (bytes : List ℕ) → AllBytes bytes → all_unreserved (b64url bytes) ≡ true
unfolding b64url all_unreserved
b64url-unreserved [] h = refl
b64url-unreserved (a ∷ []) (p, h) =
    rw
      (
        sextet_char-unreserved (a / 4) (omega arith),
        sextet_char-unreserved (a % 4 * 16) (omega arith),
      )
      refl
b64url-unreserved (a ∷ b ∷ []) (p, (q, h)) =
    rw
      (
        sextet_char-unreserved (a / 4) (omega arith),
        sextet_char-unreserved (a % 4 * 16 + b / 16) (omega arith),
        sextet_char-unreserved (b % 16 * 4) (omega arith),
      )
      refl
b64url-unreserved (a ∷ b ∷ c ∷ rest) (p, (q, (r, h))) =
    rw
      (
        sextet_char-unreserved (a / 4) (omega arith),
        sextet_char-unreserved (a % 4 * 16 + b / 16) (omega arith),
        sextet_char-unreserved (b % 16 * 4 + c / 64) (omega arith),
        sextet_char-unreserved (c % 64) (omega arith),
      )
      (b64url-unreserved rest h)

-- The bytes can be read back from their base64.
pub b64_bytes-b64url : (bytes : List ℕ) → AllBytes bytes → b64_bytes (b64url bytes) ≡ bytes
unfolding b64url b64_bytes
b64_bytes-b64url [] h = refl
b64_bytes-b64url (a ∷ []) (p, h) =
    let x = sextet-char (a / 4) (omega arith) in
    let y = sextet-char (a % 4 * 16) (omega arith) in rw (x, y) (ap (λ n. n ∷ []) (omega arith))
b64_bytes-b64url (a ∷ b ∷ []) (p, (q, h)) =
    let x = sextet-char (a / 4) (omega arith) in
    let y = sextet-char (a % 4 * 16 + b / 16) (omega arith) in
    let z = sextet-char (b % 16 * 4) (omega arith) in
    let u : a / 4 * 4 + (a % 4 * 16 + b / 16) / 16 ≡ a = omega arith in
    let v : (a % 4 * 16 + b / 16) % 16 * 16 + b % 16 * 4 / 4 ≡ b = omega arith in
    rw (x, y, z, u, v) refl
b64_bytes-b64url (a ∷ b ∷ c ∷ rest) (p, (q, (r, h))) =
    let x = sextet-char (a / 4) (omega arith) in
    let y = sextet-char (a % 4 * 16 + b / 16) (omega arith) in
    let z = sextet-char (b % 16 * 4 + c / 64) (omega arith) in
    let w = sextet-char (c % 64) (omega arith) in
    let u : a / 4 * 4 + (a % 4 * 16 + b / 16) / 16 ≡ a = omega arith in
    let v : (a % 4 * 16 + b / 16) % 16 * 16 + (b % 16 * 4 + c / 64) / 4 ≡ b = omega arith in
    let t : (b % 16 * 4 + c / 64) % 4 * 64 + c % 64 ≡ c = omega arith in
    rw (x, y, z, w, u, v, t, b64_bytes-b64url rest h) refl

-- 4 characters for 3 bytes.
length-b64url : (bytes : List ℕ) → length (b64url bytes) ≡ (length bytes * 4 + 2) / 3
unfolding b64url
length-b64url [] = refl
length-b64url (a ∷ []) = refl
length-b64url (a ∷ b ∷ []) = refl
length-b64url (a ∷ b ∷ c ∷ rest) = omega (arith, length-b64url rest)

-- A text that RFC 7636 allows as a verifier, and which a reader of base64 takes for the bytes.
pub record IsCompliantText (bytes : List ℕ) (text : Str) : Type 0 where
  pub long : 43 ≤ length text
  pub short : length text ≤ 128
  pub unreserved : all_unreserved text ≡ true
  pub readable : b64_bytes text ≡ bytes

compliant :
    (bytes : List ℕ) → AllBytes bytes → length bytes ≡ 32 → IsCompliantText bytes (b64url bytes)
compliant bytes h n =
    let q : length (b64url bytes) ≡ 43 = length-b64url bytes ∙ ap (λ k. (k * 4 + 2) / 3) n in
    record {
      long = omega arith;
      short = omega arith;
      unreserved = b64url-unreserved bytes h;
      readable = b64_bytes-b64url bytes h;
    }

-- For 32 random bytes, and a hash of 32 bytes, the verifier and the challenge have between 43 and 128
-- characters, all unreserved, as RFC 7636 wants it, and nothing of the random bytes or of the hash is
-- lost: both can be read back.
pub generate_pkce-IsCompliant :
    (sha256 : List ℕ → List ℕ) (random : List ℕ)
    → AllBytes random
    → length random ≡ 32
    → AllBytes (sha256 (b64url random))
    → length (sha256 (b64url random)) ≡ 32
    → IsCompliantText random (generate_pkce sha256 random).verifier
      × IsCompliantText
          (sha256 (generate_pkce sha256 random).verifier)
          (generate_pkce sha256 random).challenge
unfolding generate_pkce
generate_pkce-IsCompliant sha256 random h n k m =
    (compliant random h n, compliant (sha256 (b64url random)) k m)
