-- ===== src/Js/Number.antt =====
-- JavaScript numbers. Every finite double is m / 2^k for whole m and k, so the comparisons below are
-- those of the doubles. The two zeros are one value here.
use helio.Prelude.{
  zero, suc, ◌+◌, ◌-◌, ◌/◌, leb, negsuc, if◌then◌else◌, ℕ, ◌*◌, ◌^◌, Bool, true, false, ◌&&◌, ltbℤ,
  lebℤ, ℤ, pos,
}

pub data Number : Type 0 where
  -- `dyadic m k` is m / 2^k.
  dyadic : ℤ → ℕ → Number
  infinity neg_infinity nan : Number

abbrev pub whole : ℕ → Number
whole n = dyadic (pos n) 0

-- -n
abbrev pub negative : ℕ → Number
negative zero = whole 0
negative (suc n) = dyadic (negsuc n) 0

-- `Number.isFinite(x)`
abbrev pub is_finite : Number → Bool
is_finite (dyadic m k) = true
is_finite infinity = false
is_finite neg_infinity = false
is_finite nan = false

-- `x >= n` and `x <= n` for a whole constant n
abbrev pub at_least : Number → ℕ → Bool
at_least (dyadic m k) n = lebℤ (pos (n * 2 ^ k)) m
at_least infinity n = true
at_least neg_infinity n = false
at_least nan n = false

abbrev pub at_most : Number → ℕ → Bool
at_most (dyadic m k) n = lebℤ m (pos (n * 2 ^ k))
at_most infinity n = false
at_most neg_infinity n = true
at_most nan n = false

-- `x < n`
abbrev pub less_than : Number → ℕ → Bool
less_than (dyadic m k) n = ltbℤ m (pos (n * 2 ^ k))
less_than infinity n = false
less_than neg_infinity n = true
less_than nan n = false

-- `x === n`
abbrev pub equals : Number → ℕ → Bool
equals x n = at_least x n && at_most x n

-- `Math.round(x)`: the whole number nearest to x, the larger of two.
unfoldable pub round : Number → Number
round (dyadic (pos m) k) = whole ((2 * m + 2 ^ k) / 2 ^ (k + 1))
round (dyadic (negsuc n) k) =
    if leb (2 * (n + 1)) (2 ^ k)
    then whole 0
    else negative ((2 * (n + 1) - 2 ^ k + (2 ^ (k + 1) - 1)) / 2 ^ (k + 1))
round infinity = infinity
round neg_infinity = neg_infinity
round nan = nan
