-- ===== src/Limiter/Breaker/Laws.antt =====
-- What each call of the breaker of internal/limiter/breaker.go does.
use unirate.Prelude.{
  ℕ, ◌+◌, ◌-◌, ◌*◌, ◌≤◌, ◌<◌, ◌≡◌, ◌≢◌, ◌↔◌, ◌⊎◌, true, ltb, if◌then◌else◌, arith,
}
use unirate.Limiter.Breaker.{
  Breaker, state_closed, state_open, state_half_open, degraded, on_success, on_failure,
}

-- The breaker is not overdue: the counts of the current window do not call for a trip.
pub record Inv (b : Breaker) : Type 0 where
  pub threshold_pos : 0 < b.threshold
  pub not_due :
      (b.failures < b.threshold) ⊎ (b.failures * b.ratio.1 < b.ratio.0 * (b.failures + b.successes))
  pub ratio_den : 0 < b.ratio.0

pub degraded-Inv : (b : Breaker) (now : ℕ) → Inv b → Inv (degraded b now).0
unfolding degraded
degraded-Inv b now v = ground arith

low_ratio-suc : (r d f s : ℕ) → f * d < r * (f + s) → f * d < r * (f + (s + 1))
low_ratio-suc r d f s h = omega arith

pub on_success-Inv : (b : Breaker) (now : ℕ) → Inv b → Inv (on_success b now)
unfolding on_success
on_success-Inv b now v = ground (arith, low_ratio-suc b.ratio.0 b.ratio.1 b.failures b.successes)

pub on_failure-Inv : (b : Breaker) (now : ℕ) → Inv b → Inv (on_failure b now)
unfolding on_failure
on_failure-Inv b now v = ground arith

-- degraded() answers true exactly outside the closed state; it changes nothing but the state, and
-- that only from open to half-open, exactly when the cooldown is over.
pub degraded_lem :
    (b : Breaker) (now : ℕ)
    → (((degraded b now).1 ≡ true) ↔ (b.state ≢ state_closed))
      × (record (degraded b now).0 { state = b.state } ≡ b)
      × (((degraded b now).0.state ≢ b.state) ↔ ((b.state ≡ state_open) × (b.open_until < now)))
      × (((degraded b now).0.state ≢ b.state) → (degraded b now).0.state ≡ state_half_open)
unfolding degraded
degraded_lem b now = ground arith

-- The counts that a failed call at `now` finds, after rollLocked.
abbrev pub seen_failures : Breaker → ℕ → ℕ
seen_failures b now = if ltb b.window (now - b.window_at) then 0 else b.failures

abbrev pub seen_successes : Breaker → ℕ → ℕ
seen_successes b now = if ltb b.window (now - b.window_at) then 0 else b.successes

-- A failed call opens a closed breaker exactly when the failures of its window, this one included,
-- reach both the threshold and the ratio. It then stays open until `now + cooldown`, and the trip
-- is counted.
pub on_failure_trips :
    (b : Breaker) (now : ℕ)
    → b.state ≡ state_closed
    → let c = on_failure b now in
      let f = seen_failures b now + 1 in
      ((c.state ≡ state_open)
        ↔ ((b.threshold ≤ f) × (b.ratio.0 * (f + seen_successes b now) ≤ f * b.ratio.1)))
      × (c.state ≡ state_open
          → (c.open_until ≡ now + b.cooldown) × (c.total_trips ≡ b.total_trips + 1))
      × (c.state ≢ state_open → (c.state ≡ state_closed) × (c.total_trips ≡ b.total_trips))
unfolding on_failure
on_failure_trips b now h = ground arith

-- Once the cooldown of an open breaker is over, degraded() lets probes through in the half-open
-- state: a probe that succeeds closes the breaker with empty counts, and one that fails opens it
-- again for a whole cooldown, which is not counted as a trip.
half_open_probe :
    (b : Breaker) (now later : ℕ)
    → b.state ≡ state_open
    → b.open_until < now
    → let p = (degraded b now).0 in
      (p.state ≡ state_half_open)
      × ((on_success p later).state ≡ state_closed)
      × ((on_success p later).failures ≡ 0)
      × ((on_success p later).successes ≡ 0)
      × ((on_failure p later).state ≡ state_open)
      × ((on_failure p later).open_until ≡ later + b.cooldown)
      × ((on_failure p later).total_trips ≡ b.total_trips)
unfolding degraded on_success on_failure
half_open_probe b now later h k = ground arith
