-- ===== src/Limiter/Check/Laws.antt =====
-- When Check of internal/limiter/limiter.go lets a request in.
use native.Mathlib.Nat.{le-div_iff_mul-le}
use unirate.Prelude.{
  ℕ, suc, ◌*◌, ◌/◌, ◌≤◌, ◌≡◌, ◌≢◌, true, false, leb, ◌==◌ as nat_eq, if◌then◌else◌, Option, none,
  some, List, arith,
}
use unirate.Prelude.Int.{ℤ, pos, pos_part, ◌/ℤ◌}
use unirate.Limiter.Breaker.{Breaker, state_closed, degraded}
use unirate.Limiter.Rule.{Rule}
use unirate.Limiter.Check.{Limiter, local_quota, parse_result}
use unirate.Limiter.Check.Prepare.{Decision}

quota_share : (n i : ℕ) → (n / suc i * suc i ≤ n) × (suc i ≤ n → 1 ≤ n / suc i)
quota_share n i = (omega arith, λ h. (le-div_iff_mul-le (omega arith)).1 (omega arith))

-- The quotas of all instances together stay within the limit, or are one unit each where the limit
-- is below the number of instances; every instance has at least one unit.
local_quota_bounds :
    (l : Limiter) (n i : ℕ)
    → l.instances ≡ suc i
    → let q = pos_part (local_quota l (pos n)) in
      (1 ≤ q) × (q * suc i ≤ (if leb (suc i) n then n else suc i))
unfolding local_quota ◌/ℤ◌
local_quota_bounds l n i e = (ground (arith, quota_share n i), ground (arith, quota_share n i))

-- Why a request is let in.
pub data Admission (d : Decision) (b : Breaker) (keys : ℕ) (ran : Option (List ℤ)) : Type 0 where
  unchecked : keys ≡ 0 → d.degraded ≡ false → Admission d b keys ran
  script_passed :
      (reply : List ℤ)
      → ran ≡ some reply
      → (parse_result reply).0 ≡ true
      → d.degraded ≡ false
      → Admission d b keys ran
  outage : ran ≡ none → b.state ≢ state_closed → d.degraded ≡ true → Admission d b keys ran
