-- ===== src/Rules/Int64.antt =====
-- Go's int on a 64-bit machine, and floorDiv of internal/rules/expr.go.
use vtt_platform.Prelude.{
  ℕ, suc, ◌+◌, ◌-◌, ◌*◌, ◌/◌, ◌%◌, ◌^◌, ◌<◌, ◌≤◌, Bool, true, false, not, ◌&&◌, nat_eq,
  if◌then◌else◌,
}
use vtt_platform.Prelude.Int.{ℤ, pos, negsuc, pos_part, neg_part, sub_ℕ, ◌-ℤ◌}

-- The number below 2 ^ 64 that is congruent to an integer.
abbrev bits64 : ℤ → ℕ
bits64 (pos n) = n % 2 ^ 64
bits64 (negsuc n) = 2 ^ 64 - 1 - n % 2 ^ 64

unfoldable pub wrap64 : ℤ → ℤ
wrap64 a = sub_ℕ ((bits64 a + 2 ^ 63) % 2 ^ 64) (2 ^ 63)

abbrev pub IsInt64 : ℤ → Type 0
IsInt64 a = (pos_part a < 2 ^ 63) × (neg_part a ≤ 2 ^ 63)

-- The product of two integers.
infixl 70 ◌*ℤ◌
unfoldable pub ◌*ℤ◌ : ℤ → ℤ → ℤ
a *ℤ b =
    sub_ℕ (pos_part a * pos_part b + neg_part a * neg_part b)
      (pos_part a * neg_part b + neg_part a * pos_part b)

-- a / b and a % b: the quotient is rounded toward zero, and the remainder has the sign of a. The
-- least int divided by -1 wraps around to itself.
unfoldable pub quotient : ℤ → ℤ → ℤ
unfolding wrap64
quotient (pos a) (pos b) = pos (a / b)
quotient (pos a) (negsuc b) = sub_ℕ 0 (a / suc b)
quotient (negsuc a) (pos b) = sub_ℕ 0 (suc a / b)
quotient (negsuc a) (negsuc b) = wrap64 (pos (suc a / suc b))

unfoldable pub remainder : ℤ → ℤ → ℤ
remainder (pos a) (pos b) = pos (a % b)
remainder (pos a) (negsuc b) = pos (a % suc b)
remainder (negsuc a) (pos b) = sub_ℕ 0 (suc a % b)
remainder (negsuc a) (negsuc b) = sub_ℕ 0 (suc a % suc b)

abbrev pub is_zero : ℤ → Bool
is_zero (pos n) = nat_eq n 0
is_zero (negsuc n) = false

abbrev pub is_negative : ℤ → Bool
is_negative (pos n) = false
is_negative (negsuc n) = true

abbrev pub xor : Bool → Bool → Bool
xor true b = not b
xor false b = b

unfoldable pub floor_div : ℤ → ℤ → ℤ
unfolding quotient remainder
floor_div a b =
    let q = quotient a b in
    if not (is_zero (remainder a b)) && xor (is_negative a) (is_negative b)
    then wrap64 (q -ℤ pos 1)
    else q
