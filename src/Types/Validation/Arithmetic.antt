-- ===== src/Types/Validation/Arithmetic.antt =====
-- libs/math/fraction.go, and the int64 arithmetic of types/validator_set.go (safeMul) and
-- types/validation.go.
use totally_not_a_fork_of_ce.Prelude.{
  ℕ, suc, ◌*◌, ◌/◌, ◌^◌, ◌-◌, Option, none, some, ◌||◌, ltb, ◌==◌, if◌then◌else◌,
}
use totally_not_a_fork_of_ce.Prelude.Int.{ℤ, pos, negsuc, ◌==ℤ◌}
use totally_not_a_fork_of_ce.Types.ValidatorSet.{max_int64}

pub record Fraction : Type 0 where
  pub numerator : ℕ
  pub denominator : ℕ

-- int64(n) of a uint64.
unfoldable pub to_int64 : ℕ → ℤ
to_int64 n = if ltb n (2 ^ 63) then pos n else negsuc (2 ^ 64 - 1 - n)

abbrev pub negated : ℕ → ℤ
negated n = if n == 0 then pos 0 else negsuc (n - 1)

-- MaxInt64 / absOfB; the absolute value of the least int64 wraps to itself.
unfoldable pub mul_limit : ℤ → ℕ
mul_limit (pos n) = max_int64 / n
mul_limit (negsuc n) = if n == max_int64 then 0 else max_int64 / suc n

unfoldable pub mul_int64 : ℕ → ℤ → ℤ
mul_int64 a (pos n) = pos (a * n)
mul_int64 a (negsuc n) = negated (a * suc n)

-- safeMul at a power: `none` for an overflow.
unfoldable pub safe_mul : ℕ → ℤ → Option ℤ
unfolding mul_limit mul_int64
safe_mul a b =
    if a == 0 || b ==ℤ pos 0
    then some (pos 0)
    else if ltb (mul_limit b) a
    then none
    else some (mul_int64 a b)

-- The division of int64, which truncates.
unfoldable pub div_int64 : ℤ → ℤ → ℤ
div_int64 (pos a) (pos b) = pos (a / b)
div_int64 (pos a) (negsuc b) = negated (a / suc b)
div_int64 (negsuc a) (pos b) = negated (suc a / b)
div_int64 (negsuc a) (negsuc b) = pos (suc a / suc b)
