-- ===== src/Prelude/Float.antt =====
-- The floating-point numbers that the sources calculate with: what they use of them.
use container_platform.Prelude.{ℕ, ◌+◌, ◌≤◌, ◌≡◌, Bool, ltb}

-- `natural` is the number that `float` makes of a natural number.
pub record Float : Type 1 where
  pub Number : Type 0
  pub natural : ℕ → Number
  pub plus : Number → Number → Number
  pub minus : Number → Number → Number
  pub times : Number → Number → Number
  pub over : Number → Number → Number
  pub less : Number → Number → Bool
  pub is_zero : Number → Bool

-- 2 ^ 53, the bound of the whole numbers that a double has all of.
unfoldable pub max_exact : ℕ
max_exact = 9007199254740992

-- Sums and comparisons of whole numbers are exact as far as that.
pub record IsExact (f : Float) : Type 0 where
  pub plus_natural :
      (a b : ℕ) → a + b ≤ max_exact → f.plus (f.natural a) (f.natural b) ≡ f.natural (a + b)
  pub less_natural :
      (a b : ℕ) → a ≤ max_exact → b ≤ max_exact → f.less (f.natural a) (f.natural b) ≡ ltb a b
