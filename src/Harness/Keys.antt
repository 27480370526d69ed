-- ===== src/Harness/Keys.antt =====
-- verification/gen_keys.py: `b64url_uint`, and the key document that `main` writes for the public
-- numbers of a key. The generator of the key and the contents of its file are arguments.
pub mod Readable
use mcp_auth_gateway.Prelude.{ℕ, zero, suc, ◌+◌, ◌/◌, ◌%◌, Str, Option, List, [], ◌∷◌, ◌++◌, codes}
use mcp_auth_gateway.Json.{Json, str, obj, arr, nil, cons, end, field}
use mcp_auth_gateway.Pkce.{b64url}
use mcp_auth_gateway.Harness.Options.{or_else}

-- `n.bit_length()`; halving n ends within n rounds
unfoldable pub bits : ℕ → ℕ → ℕ
bits zero n = 0
bits (suc f) zero = 0
bits (suc f) (suc n) = suc (bits f (suc n / 2))

unfoldable pub bit_length : ℕ → ℕ
unfolding bits
bit_length n = bits n n

-- `n.to_bytes(k, "big")` for a number that fits
unfoldable pub to_bytes : ℕ → ℕ → List ℕ
to_bytes zero n = []
to_bytes (suc k) n = to_bytes k (n / 256) ++ ((n % 256) ∷ [])

-- `b64url_uint`
unfoldable pub b64url_uint : ℕ → Str
unfolding to_bytes bit_length b64url
b64url_uint n = b64url (to_bytes ((bit_length n + 7) / 8) n)

-- the public numbers of an RSA key
pub record PublicNumbers : Type 0 where
  pub n : ℕ
  pub e : ℕ

-- `jwks`
unfoldable pub jwks : Str → PublicNumbers → Json
unfolding b64url_uint
jwks kid nums = obj (
    field (codes "keys")
      (arr (
        cons
          (obj (
            field (codes "kty") (str (codes "RSA")) (
              field (codes "use") (str (codes "sig")) (
                field (codes "alg") (str (codes "RS256")) (
                  field (codes "kid") (str kid) (
                    field (codes "n") (str (b64url_uint nums.n))
                      (field (codes "e") (str (b64url_uint nums.e)) end)))))))
          nil))
      end)

-- What `main` writes: the key to one file, and the key document to another. The options are those that
-- are given.
pub record Args : Type 0 where
  pub kid : Option Str
  pub key_out : Option Str
  pub jwks_out : Option Str

pub record Written : Type 0 where
  pub kid : Str
  pub key_path : Str
  pub key_bytes : List ℕ
  pub jwks_path : Str
  pub document : Json

-- `main`, for the key pair that is generated: its public numbers and the bytes of its private part
unfoldable pub main : (Str → Option Str) → PublicNumbers → List ℕ → Args → Written
unfolding jwks
main environ nums private_bytes args =
    let kid = or_else (or_else (codes "local-verify-1") (environ (codes "KID"))) args.kid in
    record {
      kid = kid;
      key_path = or_else (codes "private_key.pem") args.key_out;
      key_bytes = private_bytes;
      jwks_path = or_else (codes "jwks.json") args.jwks_out;
      document = jwks kid nums;
    }
