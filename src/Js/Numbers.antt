-- ===== src/Js/Numbers.antt =====
-- JavaScript numbers, as far as the program compares them. A finite number is its sign, its whole
-- part and the rest below one in units of 2 ^ -1074, in which every double is a whole multiple.
use beepa.Prelude.{ℕ, ◌-◌, ◌^◌, Bool, true, false, not, ◌&&◌, ◌||◌, leb, ltb, nat_eq}

pub data Number : Type 0 where
  nan : Number
  infinite : Bool → Number
  finite : Bool → ℕ → ℕ → Number

-- The natural number `n` as a value.
abbrev pub whole : ℕ → Number
whole n = finite false n 0

-- `Number.isFinite(x)`.
abbrev pub is_finite : Number → Bool
is_finite (finite negative n f) = true
is_finite _ = false

-- `x >= n` for a literal `n > 0`.
abbrev pub at_least : Number → ℕ → Bool
at_least (finite negative m f) n = not negative && leb n m
at_least (infinite negative) n = not negative
at_least nan n = false

-- `x > 0`.
abbrev pub is_positive : Number → Bool
is_positive (finite negative m f) = not negative && (ltb 0 m || ltb 0 f)
is_positive (infinite negative) = not negative
is_positive nan = false

-- Neither zero (of either sign) nor NaN.
abbrev pub is_nonzero : Number → Bool
is_nonzero (finite negative m f) = ltb 0 m || ltb 0 f
is_nonzero (infinite negative) = true
is_nonzero nan = false

abbrev pub max_safe : ℕ
max_safe = 2 ^ 53 - 1

-- `Number.isSafeInteger(x)`.
abbrev pub is_safe_integer : Number → Bool
is_safe_integer (finite negative m f) = nat_eq f 0 && leb m max_safe
is_safe_integer _ = false
