-- ===== src/Limiter/Local/Examples.antt =====
-- The local fallback of internal/limiter/local.go on two keys.
use unirate.Prelude.{ℕ, ◌+◌, ◌≤◌, refl, List, [], ◌∷◌, arith}
use unirate.Prelude.Text.{Bytes, codes, ◌==◌}
use unirate.Prelude.Maps.{lookup}
use unirate.Limiter.Local.{LocalFallback, entry_for}
use unirate.Limiter.Local.Laws.{IsWf}
use unirate.Limiter.Local.Quota.{granted, granted-period_bound, Op, asks_quota, blocks_key}

abbrev key_a : Bytes
key_a = codes "a"

abbrev key_b : Bytes
key_b = codes "b"

abbrev two_keys : LocalFallback
two_keys = record {
  blocks = (key_b, 50) ∷ [];
  quotas = (key_a, record { count = 1; reset_at = 90 }) ∷ [];
  last_gc = 0;
}

two_keys-IsWf : IsWf two_keys
two_keys-IsWf = record { blocks_map = (tt, tt); quotas_map = (tt, tt) }

abbrev ops : List (ℕ × Op)
ops =
    (41, asks_quota key_b 1 80)
    ∷ (42, asks_quota key_a 2 80)
    ∷ (43, blocks_key key_a 60)
    ∷ (44, asks_quota key_a 2 80)
    ∷ []

granted-period_bound_example : 1 + granted two_keys key_a ((40, asks_quota key_a 2 80) ∷ ops) ≤ 2
unfolding ◌==◌ lookup entry_for
granted-period_bound_example =
    granted-period_bound two_keys key_a 2 80 40 ops two_keys-IsWf (omega arith) (omega arith) (
      omega arith,
      omega arith,
      (λ e. cc),
      (
        omega arith,
        omega arith,
        (λ e. refl),
        (omega arith, omega arith, (omega arith, omega arith, (λ e. refl), tt)),
      ),
    )
