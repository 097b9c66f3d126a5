-- ===== src/Obs/Window/Examples.antt =====
-- The windows of internal/obs/window.go at concrete seconds.
use unirate.Prelude.{ℕ, ◌≡◌, List, [], ◌∷◌, arith}
use unirate.Obs.Window.{empty_ring, sum}
use unirate.Obs.Window.Total.{add_all, sum-add_all}
use unirate.Obs.Window.Vectors.{RateVec}
use unirate.Obs.Window.Race.{interleave, fresh, bad_order, interleave-loses}

abbrev events : List (ℕ × ℕ)
events = (100, 2) ∷ (130, 5) ∷ (161, 7) ∷ []

sum-add_all_example : sum (add_all empty_ring events) 161 ≡ 12
sum-add_all_example =
    sum-add_all 161 events (omega arith, (omega arith, (omega arith, omega arith)))

abbrev no_windows : RateVec
no_windows = record { vals = [] }

interleave-loses_example : (interleave 161 7 9 (fresh 101 4) bad_order).count ≡ 7
interleave-loses_example = (interleave-loses 161 101 4 7 9 (λ e. ground arith)).3
