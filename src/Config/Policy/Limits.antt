-- ===== src/Config/Policy/Limits.antt =====
-- The limits of a resolved policy (internal/config/policy.go).
use unirate.Prelude.{
  ◌≡◌, some_eq, ◌||◌, true, refl, subst, Option, none, some, List, [], ◌∷◌, arith, Option-cases,
  Bool-cases, inl, inr,
}
use unirate.Prelude.Text.{Bytes, trim_space, to_lower, ◌==◌}
use unirate.Prelude.Int.{ℤ, pos, ◌≤ℤ◌, ltb_ℤ, parse_int}
use unirate.Prelude.Maps.{Map, lookup}
use unirate.Config.Policy.{
  Policy, PolicyKey, key_expose_rule_name, key_upstream_timeout, key_token_flush_interval,
  key_max_request_body_mb, key_config_poll_interval, key_log_level, key_instances, key_name,
  policy_keys, default_policy, bounded, level_of, known_level, written, dur_bound, int_bound,
  set_key, override, resolve_keys, resolve_policy, parse_bool,
}

abbrev pub Within : ℤ → ℤ → ℤ → Type 0
Within min max v = (min ≤ℤ v) × (v ≤ℤ max)

-- The limits of docs/decisions/CONFIG-TIERING.md.
pub record IsSafe (p : Policy) : Type 0 where
  pub timeout_within : Within (pos 1_000_000_000) (pos 600_000_000_000) p.upstream_timeout
  pub flush_within : Within (pos 100_000_000) (pos 10_000_000_000) p.token_flush_interval
  pub body_within : Within (pos 1) (pos 256) p.max_request_body_mb
  pub poll_within : Within (pos 5_000_000_000) (pos 300_000_000_000) p.config_poll_interval
  pub level_known : known_level p.log_level ≡ true
  pub instances_within : Within (pos 1) (pos 1024) p.instances

-- What a safe `put` writes is safe.
written-IsSafe {ℓ} :
    {A : Type ℓ} (o : Option A) (put : A → Policy) (q : Policy)
    → ((a : A) → IsSafe (put a))
    → written put o ≡ some q
    → IsSafe q
unfolding written
written-IsSafe none put q safe e = cc
written-IsSafe (some a) put q safe e = subst IsSafe (some_eq (put a) q e) (safe a)

written-bounded :
    (min max : ℤ) (o : Option ℤ) (put : ℤ → Policy) (q : Policy)
    → ((w : ℤ) → Within min max w → IsSafe (put w))
    → written put (bounded min max o) ≡ some q
    → IsSafe q
unfolding written bounded
written-bounded min max none put q safe = λ e. cc
written-bounded min max (some w) put q safe = elim (Bool-cases (ltb_ℤ w min || ltb_ℤ max w)) [
  | inl out ↦ rw out (λ e. cc)
  | inr within ↦ rw within (λ e. subst IsSafe (some_eq (put w) q e) (safe w (ground arith)))
]

written-level_of :
    (l : Bytes) (put : Bytes → Policy) (q : Policy)
    → (known_level l ≡ true → IsSafe (put l))
    → written put (level_of l) ≡ some q
    → IsSafe q
unfolding written level_of
written-level_of l put q safe = elim (Bool-cases (known_level l)) [
  | inl known ↦ rw known (λ e. subst IsSafe (some_eq (put l) q e) (safe known))
  | inr unknown ↦ rw unknown (λ e. cc)
]

pub default_policy-IsSafe : IsSafe default_policy
unfolding default_policy ◌==◌
default_policy-IsSafe = record {
  timeout_within = (omega arith, omega arith);
  flush_within = (omega arith, omega arith);
  body_within = (omega arith, omega arith);
  poll_within = (omega arith, omega arith);
  level_known = refl;
  instances_within = (omega arith, omega arith);
}

module _ (parse_duration : Bytes → Option ℤ) where
  -- Without overrides a policy is its base.
  pub resolve_policy-nil : (p : Policy) → resolve_policy parse_duration (some p) [] ≡ (p, [])
  unfolding resolve_policy resolve_keys override lookup
  resolve_policy-nil p = refl

  set_key-IsSafe :
      (p q : Policy) (k : PolicyKey) (raw : Bytes)
      → IsSafe p
      → set_key parse_duration p k raw ≡ some q
      → IsSafe q
  unfolding set_key dur_bound int_bound
  set_key-IsSafe p q key_expose_rule_name raw v e =
      written-IsSafe (parse_bool raw) (λ b. record p { expose_rule_name = b }) q
        (λ b. record {
          timeout_within = v.timeout_within;
          flush_within = v.flush_within;
          body_within = v.body_within;
          poll_within = v.poll_within;
          level_known = v.level_known;
          instances_within = v.instances_within;
        })
        e
  set_key-IsSafe p q key_log_level raw v e =
      written-level_of (to_lower (trim_space raw)) (λ l. record p { log_level = l }) q
        (λ known. record {
          timeout_within = v.timeout_within;
          flush_within = v.flush_within;
          body_within = v.body_within;
          poll_within = v.poll_within;
          level_known = known;
          instances_within = v.instances_within;
        })
        e
  set_key-IsSafe p q key_upstream_timeout raw v e =
      written-bounded (pos 1_000_000_000) (pos 600_000_000_000) (parse_duration (trim_space raw))
        (λ w. record p { upstream_timeout = w }) q
        (λ w h. record {
          timeout_within = h;
          flush_within = v.flush_within;
          body_within = v.body_within;
          poll_within = v.poll_within;
          level_known = v.level_known;
          instances_within = v.instances_within;
        })
        e
  set_key-IsSafe p q key_token_flush_interval raw v e =
      written-bounded (pos 100_000_000) (pos 10_000_000_000) (parse_duration (trim_space raw))
        (λ w. record p { token_flush_interval = w }) q
        (λ w h. record {
          timeout_within = v.timeout_within;
          flush_within = h;
          body_within = v.body_within;
          poll_within = v.poll_within;
          level_known = v.level_known;
          instances_within = v.instances_within;
        })
        e
  set_key-IsSafe p q key_config_poll_interval raw v e =
      written-bounded (pos 5_000_000_000) (pos 300_000_000_000) (parse_duration (trim_space raw))
        (λ w. record p { config_poll_interval = w }) q
        (λ w h. record {
          timeout_within = v.timeout_within;
          flush_within = v.flush_within;
          body_within = v.body_within;
          poll_within = h;
          level_known = v.level_known;
          instances_within = v.instances_within;
        })
        e
  set_key-IsSafe p q key_max_request_body_mb raw v e =
      written-bounded (pos 1) (pos 256) (parse_int (trim_space raw))
        (λ w. record p { max_request_body_mb = w }) q
        (λ w h. record {
          timeout_within = v.timeout_within;
          flush_within = v.flush_within;
          body_within = h;
          poll_within = v.poll_within;
          level_known = v.level_known;
          instances_within = v.instances_within;
        })
        e
  set_key-IsSafe p q key_instances raw v e =
      written-bounded (pos 1) (pos 1024) (parse_int (trim_space raw))
        (λ w. record p { instances = w }) q
        (λ w h. record {
          timeout_within = v.timeout_within;
          flush_within = v.flush_within;
          body_within = v.body_within;
          poll_within = v.poll_within;
          level_known = v.level_known;
          instances_within = h;
        })
        e

  override-IsSafe :
      (p : Policy) (k : PolicyKey) (o : Option Bytes)
      → IsSafe p
      → IsSafe (override parse_duration p k o).0
  unfolding override
  override-IsSafe p k none v = v
  override-IsSafe p k (some raw) v = elim (Option-cases (set_key parse_duration p k raw)) [
    | inl refused ↦ rw (refused, override) v
    | inr (q, e) ↦ rw (e, override) (set_key-IsSafe p q k raw v e)
  ]

  resolve_keys-IsSafe :
      (p : Policy) (ks : List PolicyKey) (overrides : Map Bytes)
      → IsSafe p
      → IsSafe (resolve_keys parse_duration p ks overrides).0
  unfolding resolve_keys
  resolve_keys-IsSafe p [] overrides v = v
  resolve_keys-IsSafe p (k ∷ ks) overrides v =
      resolve_keys-IsSafe (override parse_duration p k (lookup (key_name k) overrides)).0 ks
        overrides (override-IsSafe p k (lookup (key_name k) overrides) v)

  -- Whatever the overrides say, a policy that is resolved from a base within the limits, or from none,
  -- is within the limits: a value that does not parse or lies outside is not taken over.
  pub resolve_policy-IsSafe :
      (base : Option Policy) (overrides : Map Bytes)
      → ((p : Policy) → base ≡ some p → IsSafe p)
      → IsSafe (resolve_policy parse_duration base overrides).0
  unfolding resolve_policy
  resolve_policy-IsSafe none overrides safe =
      resolve_keys-IsSafe default_policy policy_keys overrides default_policy-IsSafe
  resolve_policy-IsSafe (some base) overrides safe =
      resolve_keys-IsSafe base policy_keys overrides (safe base refl)
