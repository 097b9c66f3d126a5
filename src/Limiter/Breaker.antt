-- ===== src/Limiter/Breaker.antt =====
-- internal/limiter/breaker.go. An instant is a number of nanoseconds since Go's zero time, and a call
-- of time.Now() is an argument. `ratio` is a fraction; the float64 quotient of two counts below 2^52
-- is at least 1/2 exactly when the true quotient is. The mutex makes each call one step.
pub mod Laws
pub mod History
mod Examples
use unirate.Prelude.{
  ℕ, suc, ◌+◌, ◌-◌, ◌*◌, ◌≡◌, Bool, true, false, ◌&&◌, ltb, leb, if◌then◌else◌, List, [], ◌∷◌,
}

pub data State : Type 0 where
  state_closed state_open state_half_open : State

pub record Breaker : Type 0 where
  pub failures : ℕ
  pub successes : ℕ
  pub window_at : ℕ
  pub open_until : ℕ
  pub state : State
  pub threshold : ℕ
  pub ratio : ℕ × ℕ
  pub window : ℕ
  pub cooldown : ℕ
  pub total_errors : ℕ
  pub total_trips : ℕ

-- time.Second
abbrev pub second : ℕ
second = 1_000_000_000

pub new_breaker : ℕ → Breaker
new_breaker now = record {
  failures = 0;
  successes = 0;
  window_at = now;
  open_until = 0;
  state = state_closed;
  threshold = 20;
  ratio = (1, 2);
  window = 5 * second;
  cooldown = 2 * second;
  total_errors = 0;
  total_trips = 0;
}

abbrev pub is_closed : State → Bool
is_closed state_closed = true
is_closed state_open = false
is_closed state_half_open = false

-- the `switch` of degraded()
degraded_in : State → Breaker → ℕ → Breaker × Bool
degraded_in state_closed b now = (b, false)
degraded_in state_open b now =
    if ltb b.open_until now then (record b { state = state_half_open }, true) else (b, true)
degraded_in state_half_open b now = (b, true)

unfoldable pub degraded : Breaker → ℕ → Breaker × Bool
unfolding degraded_in
degraded b now = degraded_in b.state b now

roll_locked : Breaker → ℕ → Breaker
roll_locked b now =
    if ltb b.window (now - b.window_at)
    then record b { failures = 0; successes = 0; window_at = now }
    else b

unfoldable pub on_success : Breaker → ℕ → Breaker
unfolding roll_locked
on_success b now =
    if is_closed b.state
    then roll_locked (record b { successes = b.successes + 1 }) now
    else record b { state = state_closed; failures = 0; successes = 0; window_at = now }

-- float64(b.failures)/float64(total) >= b.ratio
abbrev pub ratio_reached : ℕ × ℕ → ℕ → ℕ → Bool
ratio_reached r failures total = leb (r.0 * total) (failures * r.1)

-- The part of onFailure after rollLocked.
count_failure : Breaker → ℕ → Breaker
count_failure b now =
    let c = record b { failures = b.failures + 1 } in
    let total = c.failures + c.successes in
    if leb c.threshold c.failures && (ltb 0 total && ratio_reached c.ratio c.failures total)
    then record c {
      state = state_open;
      open_until = now + c.cooldown;
      total_trips = c.total_trips + 1;
      failures = 0;
      successes = 0;
    }
    else c

on_failure_in : State → Breaker → ℕ → Breaker
unfolding count_failure roll_locked
on_failure_in state_half_open b now = record b { state = state_open; open_until = now + b.cooldown }
on_failure_in state_closed b now = count_failure (roll_locked b now) now
on_failure_in state_open b now = count_failure (roll_locked b now) now

unfoldable pub on_failure : Breaker → ℕ → Breaker
unfolding on_failure_in
on_failure b now = on_failure_in b.state (record b { total_errors = b.total_errors + 1 }) now

pub stats : Breaker → ℕ × ℕ × Bool
stats b = (b.total_errors, b.total_trips, if is_closed b.state then false else true)

-- A call made at an instant, and a history of calls.
pub data Call : Type 0 where
  asks succeeds fails : Call

unfoldable pub step : Breaker → ℕ × Call → Breaker
step b (now, asks) = (degraded b now).0
step b (now, succeeds) = on_success b now
step b (now, fails) = on_failure b now

unfoldable pub run : Breaker → List (ℕ × Call) → Breaker
run b [] = b
run b (c ∷ cs) = run (step b c) cs
