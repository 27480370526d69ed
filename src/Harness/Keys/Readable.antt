-- ===== src/Harness/Keys/Readable.antt =====
-- verification/gen_keys.py: the numbers in the key document can be read back.
use mcp_auth_gateway.Prelude.{
  ℕ, zero, suc, ◌+◌, ◌*◌, ◌/◌, ◌%◌, ◌≤◌, ◌<◌, ◌≡◌, refl, ap, arith, List, [], ◌∷◌, ◌++◌, length,
  length-append,
}
use mcp_auth_gateway.Pkce.Compliant.{AllBytes, b64_bytes, b64_bytes-b64url}
use mcp_auth_gateway.Harness.Keys.{bits, bit_length, to_bytes, b64url_uint}

-- 256 to a power.
abbrev pub pow256 : ℕ → ℕ
pow256 zero = 1
pow256 (suc k) = 256 * pow256 k

-- The number that bytes stand for, the most significant one first.
unfoldable pub uint : ℕ → List ℕ → ℕ
uint acc [] = acc
uint acc (b ∷ bs) = uint (acc * 256 + b) bs

-- The fuel is enough.
bits_enough : (f g n : ℕ) → n ≤ f → n ≤ g → bits f n ≡ bits g n
unfolding bits
bits_enough zero zero n p q = refl
bits_enough zero (suc g) zero p q = refl
bits_enough (suc f) zero zero p q = refl
bits_enough (suc f) (suc g) zero p q = refl
bits_enough (suc f) (suc g) (suc n) p q =
    ap suc (bits_enough f g (suc n / 2) (omega arith) (omega arith))
bits_enough zero (suc g) (suc n) p q = omega arith
bits_enough (suc f) zero (suc n) p q = omega arith

bit_length_half : (n : ℕ) → bit_length (suc n) ≡ suc (bit_length (suc n / 2))
unfolding bit_length bits
bit_length_half n = ap suc (bits_enough n (suc n / 2) (suc n / 2) (omega arith) (omega arith))

bit_length_zero : bit_length 0 ≡ 0
unfolding bit_length bits
bit_length_zero = refl

half_below : (n m : ℕ) → bit_length n ≤ suc m → bit_length (n / 2) ≤ m
half_below zero m h = omega (arith, bit_length_zero)
half_below (suc n) m h = omega (arith, bit_length_half n)

half_above : (n m : ℕ) → suc m < bit_length n → m < bit_length (n / 2)
half_above zero m h = omega (arith, bit_length_zero)
half_above (suc n) m h = omega (arith, bit_length_half n)

-- A step of eight bits.
byte_below : (n m : ℕ) → bit_length n ≤ 8 + m → bit_length (n / 256) ≤ m
byte_below n m h =
    let a = half_below n (7 + m) (omega arith) in
    let b = half_below (n / 2) (6 + m) (omega arith) in
    let c = half_below (n / 2 / 2) (5 + m) (omega arith) in
    let d = half_below (n / 2 / 2 / 2) (4 + m) (omega arith) in
    let e = half_below (n / 2 / 2 / 2 / 2) (3 + m) (omega arith) in
    let f = half_below (n / 2 / 2 / 2 / 2 / 2) (2 + m) (omega arith) in
    let g = half_below (n / 2 / 2 / 2 / 2 / 2 / 2) (1 + m) (omega arith) in
    let q : n / 2 / 2 / 2 / 2 / 2 / 2 / 2 / 2 ≡ n / 256 = omega arith in
    rw q at (half_below (n / 2 / 2 / 2 / 2 / 2 / 2 / 2) m (omega arith))

byte_above : (n m : ℕ) → 8 + m < bit_length n → m < bit_length (n / 256)
byte_above n m h =
    let a = half_above n (7 + m) (omega arith) in
    let b = half_above (n / 2) (6 + m) (omega arith) in
    let c = half_above (n / 2 / 2) (5 + m) (omega arith) in
    let d = half_above (n / 2 / 2 / 2) (4 + m) (omega arith) in
    let e = half_above (n / 2 / 2 / 2 / 2) (3 + m) (omega arith) in
    let f = half_above (n / 2 / 2 / 2 / 2 / 2) (2 + m) (omega arith) in
    let g = half_above (n / 2 / 2 / 2 / 2 / 2 / 2) (1 + m) (omega arith) in
    let q : n / 2 / 2 / 2 / 2 / 2 / 2 / 2 / 2 ≡ n / 256 = omega arith in
    rw q at (half_above (n / 2 / 2 / 2 / 2 / 2 / 2 / 2) m (omega arith))

-- The bits of a number bound it from both sides.
fits : (k n : ℕ) → bit_length n ≤ 8 * k → n < pow256 k
fits zero zero h = omega arith
fits zero (suc n) h = omega (arith, bit_length_half n)
fits (suc k) n h = let i = fits k (n / 256) (byte_below n (8 * k) (omega arith)) in omega arith

fills : (k n : ℕ) → 8 * k < bit_length n → pow256 k ≤ n
fills zero zero h = omega (arith, bit_length_zero)
fills zero (suc n) h = omega arith
fills (suc k) n h = let i = fills k (n / 256) (byte_above n (8 * k) (omega arith)) in omega arith

AllBytes-append : (bs : List ℕ) (b : ℕ) → AllBytes bs → b < 256 → AllBytes (bs ++ (b ∷ []))
AllBytes-append [] b h l = (l, tt)
AllBytes-append (c ∷ bs) b (p, h) l = (p, AllBytes-append bs b h l)

to_bytes-AllBytes : (k n : ℕ) → AllBytes (to_bytes k n)
unfolding to_bytes
to_bytes-AllBytes zero n = tt
to_bytes-AllBytes (suc k) n =
    AllBytes-append (to_bytes k (n / 256)) (n % 256) (to_bytes-AllBytes k (n / 256)) (omega arith)

length-to_bytes : (k n : ℕ) → length (to_bytes k n) ≡ k
unfolding to_bytes
length-to_bytes zero n = refl
length-to_bytes (suc k) n =
    omega
      (arith, length-append (to_bytes k (n / 256)) ((n % 256) ∷ []), length-to_bytes k (n / 256))

uint-append : (acc : ℕ) (bs : List ℕ) (b : ℕ) → uint acc (bs ++ (b ∷ [])) ≡ uint acc bs * 256 + b
unfolding uint
uint-append acc [] b = refl
uint-append acc (c ∷ bs) b = uint-append (acc * 256 + c) bs b

uint-to_bytes : (k n : ℕ) → n < pow256 k → uint 0 (to_bytes k n) ≡ n
unfolding to_bytes uint
uint-to_bytes zero n h = omega arith
uint-to_bytes (suc k) n h =
    omega (
      arith,
      uint-append 0 (to_bytes k (n / 256)) (n % 256),
      uint-to_bytes k (n / 256) (omega arith),
    )

abbrev octets : ℕ → ℕ
octets n = (bit_length n + 7) / 8

octets_least : (n k : ℕ) → 1 ≤ n → octets n ≡ k → pow256 k ≤ 256 * n
octets_least n zero p q = omega arith
octets_least n (suc k) p q = let i = fills k n (omega arith) in omega arith

b64url_uint_bytes : (n : ℕ) → b64_bytes (b64url_uint n) ≡ to_bytes (octets n) n
unfolding b64url_uint
b64url_uint_bytes n = b64_bytes-b64url (to_bytes (octets n) n) (to_bytes-AllBytes (octets n) n)

-- A number of the key document is read back by a reader of base64 and of big-endian bytes, and a
-- positive one has no zero byte in front, as RFC 7518 wants it.
pub b64url_uint-readable :
    (n : ℕ)
    → (uint 0 (b64_bytes (b64url_uint n)) ≡ n)
      × (1 ≤ n → pow256 (length (b64_bytes (b64url_uint n))) ≤ 256 * n)
b64url_uint-readable n = rw (b64url_uint_bytes n) (
  uint-to_bytes (octets n) n (fits (octets n) n (omega arith)),
  λ p. rw (length-to_bytes (octets n) n) (octets_least n (octets n) p refl),
)
