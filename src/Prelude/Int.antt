-- ===== src/Prelude/Int.antt =====
-- Python's `int` and `float`, as the settings compare them.
use mathlib.Core.Bool.{Bool, true, false}
use Prim.Native.Nat.{ℕ, suc, ◌+◌, ◌≤◌}
use mcp_auth_gateway.Prelude.Tests.{ltb}

-- `negsuc n` is -(n + 1).
pub data ℤ : Type 0 where
  pos : ℕ → ℤ
  negsuc : ℕ → ℤ

abbrev pub pos_part : ℤ → ℕ
pos_part (pos n) = n
pos_part (negsuc n) = 0

abbrev pub neg_part : ℤ → ℕ
neg_part (pos n) = 0
neg_part (negsuc n) = suc n

infix 50 ◌≤ℤ◌ ◌<ℤ◌
abbrev pub ◌≤ℤ◌ : ℤ → ℤ → Type 0
a ≤ℤ b = pos_part a + neg_part b ≤ pos_part b + neg_part a

abbrev pub ◌<ℤ◌ : ℤ → ℤ → Type 0
a <ℤ b = suc (pos_part a + neg_part b) ≤ pos_part b + neg_part a

abbrev pub ltb_ℤ : ℤ → ℤ → Bool
ltb_ℤ a b = ltb (pos_part a + neg_part b) (pos_part b + neg_part a)

-- A double: `finite m k` is m / 2 ^ k, which every finite one is for some m and k.
pub data Float : Type 0 where
  nan : Float
  infinite : (negative : Bool) → Float
  finite : ℤ → ℕ → Float

-- `x < 0` and `x > 0`; a comparison with NaN is false.
abbrev pub is_negative : Float → Bool
is_negative nan = false
is_negative (infinite negative) = negative
is_negative (finite m k) = ltb_ℤ m (pos 0)

abbrev pub is_positive : Float → Bool
is_positive nan = false
is_positive (infinite true) = false
is_positive (infinite false) = true
is_positive (finite m k) = ltb_ℤ (pos 0) m

-- `x <= 0`
abbrev pub is_nonpositive : Float → Bool
is_nonpositive nan = false
is_nonpositive (infinite negative) = negative
is_nonpositive (finite m k) = ltb (pos_part m) (suc (neg_part m))
