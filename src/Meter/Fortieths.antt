-- ===== src/Meter/Fortieths.antt =====
-- Numbers counted in fortieths, as an instance of the laws of float64 that internal/meter/token.go
-- relies on: quarters and 0.4 are exact, products and quotients round down.
use native.Mathlib.Nat.{mul-le-mul_right}
use unirate.Prelude.{ℕ, ◌+◌, ◌*◌, ◌/◌, ◌≤◌, ◌<◌, ◌≡◌, false, ltb, leb, refl, arith}
use unirate.Meter.Floats.{Floats}

pub round_up_mono :
    (m n b : ℕ) → m ≤ n → ((40 * m) * b / 40 + 39) / 40 ≤ ((40 * n) * b / 40 + 39) / 40
round_up_mono m n b h = omega (arith, mul-le-mul_right b h)

pub whole_weights :
    (a c o : ℕ)
    → ltb ((40 * a) * 40 / (40 * 4) + 40 * c + (40 * o) * 40 / (40 * 2)) (40 * 1)
      ≡ ltb (a + 4 * c + 2 * o) 4
whole_weights a c o = ground arith

pub round_up_pos : (x : ℕ) → ltb x (40 * 1) ≡ false → 0 < (x + 39) / 40
round_up_pos x h = ground arith

abbrev pub fortieths : Floats
fortieths = record {
  F = ℕ;
  of_ℕ = λ n. 40 * n;
  add = λ x y. x + y;
  mul = λ x y. x * y / 40;
  div = λ x y. x * 40 / y;
  lt = ltb;
  le = leb;
  ceil = λ x. (x + 39) / 40;
  four_tenths = 16;
  ceil_weights = λ a c o. omega arith;
  lt_weights = whole_weights;
  ceil_mul_mono = λ m n b pos_b le. round_up_mono m n b le;
  one_pos = refl;
  ceil_pos = round_up_pos;
}
