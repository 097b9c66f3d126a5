-- ===== src/Config/Snapshot.antt =====
-- internal/config/store.go: what a loaded configuration says of a business. Its name and its
-- metering are left out.
use unirate.Prelude.{
  Bool, not, ◌||◌, if◌then◌else◌, Option, none, some, List, [], ◌++◌, ◌∷◌, All, All-append,
  Bool-cases, inl, inr,
}
use unirate.Prelude.Int.{ℤ}
use unirate.Prelude.Text.{Bytes, codes, ◌==◌}
use unirate.Prelude.Maps.{Map, lookup}
use unirate.Limiter.Rule.{Rule}

pub record BizConfig : Type 0 where
  pub base_url : Bytes
  pub strip_path_prefix : Bool
  pub enabled : Bool
  pub rules : List Rule

-- The time of the load is left out.
pub record Snapshot : Type 0 where
  pub version : ℤ
  pub bizs : Map BizConfig
  pub policy_overrides : Map Bytes

upstream_in : Option BizConfig → Option (Bytes × Bool)
upstream_in none = none
upstream_in (some c) =
    if not c.enabled || c.base_url == [] then none else some (c.base_url, c.strip_path_prefix)

-- Upstream
pub upstream : Map BizConfig → Bytes → Option (Bytes × Bool)
unfolding upstream_in
upstream bizs biz = upstream_in (lookup biz bizs)

rules_in : Option BizConfig → List Rule
rules_in none = []
rules_in (some c) = c.rules

-- Rules: those of every business, and then its own.
pub rules_of : Map BizConfig → Bytes → List Rule
unfolding rules_in
rules_of bizs biz = rules_in (lookup (codes "*") bizs) ++ rules_in (lookup biz bizs)

module _ {ℓ} (P : Rule → Type ℓ) where
  rules_in-All :
      (biz : Bytes) (bizs : Map BizConfig)
      → All (λ (e : Bytes × BizConfig). All P e.1.rules) bizs
      → All P (rules_in (lookup biz bizs))
  unfolding rules_in lookup
  rules_in-All biz [] all = tt
  rules_in-All biz ((at, c) ∷ bizs) all = elim (Bool-cases (at == biz)) [
    | inl here ↦ rw here all.0
    | inr other ↦ rw other (rules_in-All biz bizs all.1)
  ]

  -- What holds of all rules of a configuration holds of those of a business.
  pub rules_of-All :
      (bizs : Map BizConfig) (biz : Bytes)
      → All (λ (e : Bytes × BizConfig). All P e.1.rules) bizs
      → All P (rules_of bizs biz)
  unfolding rules_of
  rules_of-All bizs biz all =
      All-append P (rules_in (lookup (codes "*") bizs)) (rules_in (lookup biz bizs))
        (rules_in-All (codes "*") bizs all) (rules_in-All biz bizs all)
