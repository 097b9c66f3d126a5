-- ===== src/Limiter/Breaker/Examples.antt =====
-- The breaker of internal/limiter/breaker.go at concrete instants.
use unirate.Prelude.{ℕ, ◌+◌, ◌*◌, ◌≤◌, ◌<◌, ◌≡◌, ◌↔◌, refl, inl, List, [], ◌∷◌, arith}
use unirate.Limiter.Breaker.{
  Breaker, Call, asks, succeeds, fails, state_closed, state_open, new_breaker, on_failure, run,
}
use unirate.Limiter.Breaker.Laws.{Inv, on_failure_trips}
use unirate.Limiter.Breaker.History.{outage, trips_need_failures, outage_trips}

abbrev cautious : Breaker
cautious = record {
  failures = 1;
  successes = 1;
  window_at = 100;
  open_until = 0;
  state = state_closed;
  threshold = 3;
  ratio = (1, 2);
  window = 50;
  cooldown = 20;
  total_errors = 7;
  total_trips = 4;
}

abbrev tripped : Breaker
tripped = record cautious { state = state_open; open_until = 130 }

cautious-Inv : Inv cautious
cautious-Inv = record {
  threshold_pos = omega arith;
  not_due = inl (omega arith);
  ratio_den = omega arith;
}

on_failure_trips_example :
    ((on_failure cautious 120).state ≡ state_open) ↔ ((3 ≤ 2) × (1 * (2 + 1) ≤ 2 * 2))
on_failure_trips_example = (on_failure_trips cautious 120 refl).0

abbrev calls : List (ℕ × Call)
calls = (5, fails) ∷ (6, succeeds) ∷ (7, asks) ∷ (8, fails) ∷ []

trips_need_failures_example : (run (new_breaker 0) calls).total_errors ≡ 2
trips_need_failures_example = (trips_need_failures 0 calls).0

outage_trips_example : 4 < (run cautious (outage (110 ∷ 120 ∷ []))).total_trips
outage_trips_example =
    outage_trips cautious (110 ∷ 120 ∷ []) cautious-Inv refl (omega arith, (omega arith, tt))
      (omega arith) (omega arith)
