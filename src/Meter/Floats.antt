-- ===== src/Meter/Floats.antt =====
-- float64 as far as internal/meter/token.go uses it: the type, its operations, and what IEEE 754
-- gives of them for the counts that occur. math.Ceil followed by int64() is one operation, `ceil`,
-- on values that are not negative.
use unirate.Prelude.{ℕ, ◌+◌, ◌*◌, ◌/◌, ◌≤◌, ◌<◌, ◌≡◌, Bool, false, ltb}

pub record Floats : Type 1 where
  pub F : Type 0
  pub of_ℕ : ℕ → F
  pub add : F → F → F
  pub mul : F → F → F
  pub div : F → F → F
  pub lt : F → F → Bool
  pub le : F → F → Bool
  pub ceil : F → ℕ
  -- the literal 0.4
  pub four_tenths : F
  -- Quarters of small counts are exact, and so are their sums, their order and their ceilings.
  pub ceil_weights :
      (a c o : ℕ)
      → ceil (add (add (div (of_ℕ a) (of_ℕ 4)) (of_ℕ c)) (div (of_ℕ o) (of_ℕ 2)))
        ≡ (a + 4 * c + 2 * o + 3) / 4
  pub lt_weights :
      (a c o : ℕ)
      → lt (add (add (div (of_ℕ a) (of_ℕ 4)) (of_ℕ c)) (div (of_ℕ o) (of_ℕ 2))) (of_ℕ 1)
        ≡ ltb (a + 4 * c + 2 * o) 4
  -- A product with a positive factor rounds monotonically.
  pub ceil_mul_mono :
      (m n : ℕ) (b : F)
      → le b (of_ℕ 0) ≡ false
      → m ≤ n
      → ceil (mul (of_ℕ m) b) ≤ ceil (mul (of_ℕ n) b)
  pub one_pos : le (of_ℕ 1) (of_ℕ 0) ≡ false
  -- What is not below 1 has a ceiling of at least 1.
  pub ceil_pos : (x : F) → lt x (of_ℕ 1) ≡ false → 0 < ceil x
