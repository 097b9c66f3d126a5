-- ===== src/Obs/Health.antt =====
-- internal/obs/health.go: what the three probes answer. The bound checks are functions that were
-- called: `none` where none is bound, and else what it gave. JSON is output, so a reply is its code
-- and its status.
use unirate.Prelude.{ℕ, Bool, true, false, ◌||◌, if◌then◌else◌, Option, none, some}
use unirate.Prelude.Int.{ℤ}

-- The error of a ping is `true`.
pub record Health : Type 0 where
  pub ready : Bool
  pub shutdown : Bool
  pub redis_ping : Option Bool
  pub config_state : Option (ℤ × Bool × ℤ)
  pub breaker : Option (ℤ × ℤ × Bool)

pub data Status : Type 0 where
  alive shutting_down not_ready ready_status ok degraded_status : Status

pub new_health : Health
new_health = record {
  ready = false;
  shutdown = false;
  redis_ping = none;
  config_state = none;
  breaker = none;
}

pub mark_ready : Health → Health
mark_ready h = record h { ready = true }

pub mark_shutting_down : Health → Health
mark_shutting_down h = record h { shutdown = true }

pub live_handler : Health → ℕ × Status
live_handler h = (200, alive)

pub ready_handler : Health → ℕ × Status
ready_handler h =
    if h.shutdown
    then (503, shutting_down)
    else if h.ready
    then (200, ready_status)
    else (503, not_ready)

ping_failed : Option Bool → Bool
ping_failed none = false
ping_failed (some failed) = failed

config_degraded : Option (ℤ × Bool × ℤ) → Bool
config_degraded none = false
config_degraded (some (version, degraded, n)) = degraded

breaker_open : Option (ℤ × ℤ × Bool) → Bool
breaker_open none = false
breaker_open (some (errs, trips, open_now)) = open_now

pub health_handler : Health → ℕ × Status
unfolding ping_failed config_degraded breaker_open
health_handler h = (
  200,
  if ping_failed h.redis_ping || (config_degraded h.config_state || breaker_open h.breaker)
      then degraded_status
      else ok,
)
