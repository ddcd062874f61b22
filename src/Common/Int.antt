-- ===== src/Common/Int.antt =====
-- Signed integers over the native numbers, and the saturating and checked arithmetic of Rust's
-- `i128`, `u64` and `u32`.
use Prim.Native.Nat.{ℕ, suc, ◌+◌, ◌-◌, ◌*◌, ◌^◌, ◌≤◌, min}
use mathlib.Core.Path.{◌≡◌}
use mathlib.Core.Bool.{Bool, false}
use mathlib.Core.Option.{Option, none, some}
use native.Mathlib.Omega.{arith}
use stellar_agent_guard_cont.Common.Tests.{ltb, leb, if◌then◌else◌}

-- `negsuc n` is -(n + 1).
pub data ℤ : Type 0 where
  pos : ℕ → ℤ
  negsuc : ℕ → ℤ

abbrev pub pos_part : ℤ → ℕ
pos_part (pos n) = n
pos_part (negsuc n) = 0

abbrev pub neg_part : ℤ → ℕ
neg_part (pos n) = 0
neg_part (negsuc n) = suc n

-- a - b, as an integer.
abbrev pub sub_ℕ : ℕ → ℕ → ℤ
sub_ℕ a b = if leb b a then pos (a - b) else negsuc (b - a - 1)

infixl 65 ◌+ℤ◌ ◌-ℤ◌
unfoldable pub ◌+ℤ◌ : ℤ → ℤ → ℤ
a +ℤ b = sub_ℕ (pos_part a + pos_part b) (neg_part a + neg_part b)

unfoldable pub ◌-ℤ◌ : ℤ → ℤ → ℤ
a -ℤ b = sub_ℕ (pos_part a + neg_part b) (neg_part a + pos_part b)

abbrev pub ltb_ℤ : ℤ → ℤ → Bool
ltb_ℤ a b = ltb (pos_part a + neg_part b) (pos_part b + neg_part a)

abbrev pub leb_ℤ : ℤ → ℤ → Bool
leb_ℤ a b = leb (pos_part a + neg_part b) (pos_part b + neg_part a)

-- `a > 0`
abbrev pub is_pos : ℤ → Bool
is_pos (pos n) = ltb 0 n
is_pos (negsuc n) = false

abbrev pub i128_max : ℕ
i128_max = 2 ^ 127 - 1

abbrev pub u64_max : ℕ
u64_max = 2 ^ 64 - 1

abbrev pub u32_max : ℕ
u32_max = 2 ^ 32 - 1

-- The integer of an `i128`: -2^127 ≤ z < 2^127.
abbrev pub in_i128 : ℤ → Bool
in_i128 (pos n) = leb n i128_max
in_i128 (negsuc n) = leb n i128_max

-- The nearest `i128`.
unfoldable pub clamp : ℤ → ℤ
clamp (pos n) = pos (min n i128_max)
clamp (negsuc n) = negsuc (min n i128_max)

-- `i128::saturating_add`, `i128::saturating_sub`
unfoldable pub saturating_add : ℤ → ℤ → ℤ
unfolding clamp
saturating_add a b = clamp (a +ℤ b)

unfoldable pub saturating_sub : ℤ → ℤ → ℤ
unfolding clamp
saturating_sub a b = clamp (a -ℤ b)

-- `i128::checked_add`
unfoldable pub checked_add : ℤ → ℤ → Option ℤ
checked_add a b = let s = a +ℤ b in if in_i128 s then some s else none

-- `i128::max(z, 0)`
abbrev pub max_zero : ℤ → ℤ
max_zero z = pos (pos_part z)

-- `saturating_add` of `u64` and of `u32`; `saturating_sub` of both is subtraction that stops at 0
abbrev pub u64_add : ℕ → ℕ → ℕ
u64_add a b = min (a + b) u64_max

abbrev pub u64_mul : ℕ → ℕ → ℕ
u64_mul a b = min (a * b) u64_max

abbrev pub u32_add : ℕ → ℕ → ℕ
u32_add a b = min (a + b) u32_max

-- On numbers from 0 up the saturating operations are those of ℕ, cut off at the top.
pub saturating_add-pos : (a b : ℕ) → saturating_add (pos a) (pos b) ≡ pos (min (a + b) i128_max)
unfolding saturating_add ◌+ℤ◌
saturating_add-pos a b = ground arith

pub saturating_sub-pos :
    (a b : ℕ) → b ≤ a → a ≤ i128_max → saturating_sub (pos a) (pos b) ≡ pos (a - b)
unfolding saturating_sub ◌-ℤ◌
saturating_sub-pos a b h k = ground arith

pub checked_add-pos :
    (a b : ℕ)
    → checked_add (pos a) (pos b) ≡ (if leb (a + b) i128_max then some (pos (a + b)) else none)
unfolding checked_add ◌+ℤ◌
checked_add-pos a b = ground arith
