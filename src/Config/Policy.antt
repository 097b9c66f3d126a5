-- ===== src/Config/Policy.antt =====
-- internal/config/policy.go and policy_spec.go: the runtime policy, the limits of its entries, and
-- ResolvePolicy. Durations are int64 nanoseconds. time.ParseDuration is the parameter `parse_duration`;
-- strings are ASCII. A problem is the key and the text that was refused.
pub mod Limits
pub mod Overrides
use unirate.Prelude.{
  Bool, true, false, ◌&&◌, ◌||◌, not, if◌then◌else◌, Option, none, some, List, [], ◌∷◌, ◌++◌,
}
use unirate.Prelude.Text.{Bytes, codes, ◌==◌, trim_space, to_lower}
use unirate.Prelude.Int.{ℤ, pos, ltb_ℤ, parse_int}
use unirate.Prelude.Maps.{Map, lookup}

pub record Policy : Type 0 where
  pub expose_rule_name : Bool
  pub upstream_timeout : ℤ
  pub token_flush_interval : ℤ
  pub max_request_body_mb : ℤ
  pub config_poll_interval : ℤ
  pub log_level : Bytes
  pub instances : ℤ

pub data PolicyKey : Type 0 where
  key_expose_rule_name key_upstream_timeout key_token_flush_interval : PolicyKey
  key_max_request_body_mb key_config_poll_interval key_log_level key_instances : PolicyKey

abbrev pub key_name : PolicyKey → Bytes
key_name key_expose_rule_name = codes "expose_rule_name"
key_name key_upstream_timeout = codes "upstream_timeout"
key_name key_token_flush_interval = codes "token_flush_interval"
key_name key_max_request_body_mb = codes "max_request_body_mb"
key_name key_config_poll_interval = codes "config_poll_interval"
key_name key_log_level = codes "log_level"
key_name key_instances = codes "instances"

abbrev pub policy_keys : List PolicyKey
policy_keys =
    key_expose_rule_name ∷ key_upstream_timeout ∷ key_token_flush_interval ∷ key_max_request_body_mb
    ∷ key_config_poll_interval ∷ key_log_level ∷ key_instances ∷ []

pub default_policy : Policy
default_policy = record {
  expose_rule_name = true;
  upstream_timeout = pos 60_000_000_000;
  token_flush_interval = pos 1_000_000_000;
  max_request_body_mb = pos 32;
  config_poll_interval = pos 15_000_000_000;
  log_level = codes "info";
  instances = pos 1;
}

bounded : ℤ → ℤ → Option ℤ → Option ℤ
bounded min max none = none
bounded min max (some v) = if ltb_ℤ v min || ltb_ℤ max v then none else some v

bool_of : Bytes → Option Bool
bool_of v =
    if v == codes "1" || (v == codes "true" || (v == codes "yes" || v == codes "on"))
    then some true
    else if v == codes "0" || (v == codes "false" || (v == codes "no" || v == codes "off"))
    then some false
    else none

pub parse_bool : Bytes → Option Bool
unfolding bool_of
parse_bool raw = bool_of (to_lower (trim_space raw))

abbrev pub known_level : Bytes → Bool
known_level v =
    v == codes "debug" || (v == codes "info" || (v == codes "warn" || v == codes "error"))

level_of : Bytes → Option Bytes
level_of v = if known_level v then some v else none

-- A value that was parsed is written.
written {ℓ} : {A : Type ℓ} → (A → Policy) → Option A → Option Policy
written put none = none
written put (some v) = some (put v)

module _ (parse_duration : Bytes → Option ℤ) where
  dur_bound : ℤ → ℤ → (ℤ → Policy) → Bytes → Option Policy
  unfolding bounded written
  dur_bound min max put raw = written put (bounded min max (parse_duration (trim_space raw)))

  int_bound : ℤ → ℤ → (ℤ → Policy) → Bytes → Option Policy
  unfolding bounded written
  int_bound min max put raw = written put (bounded min max (parse_int (trim_space raw)))

  -- policySpecs[key].apply; none is an error.
  pub set_key : Policy → PolicyKey → Bytes → Option Policy
  unfolding dur_bound int_bound written
  set_key p key_expose_rule_name raw =
      written (λ v. record p { expose_rule_name = v }) (parse_bool raw)
  set_key p key_upstream_timeout raw =
      dur_bound (pos 1_000_000_000) (pos 600_000_000_000) (λ v. record p { upstream_timeout = v })
        raw
  set_key p key_token_flush_interval raw =
      dur_bound (pos 100_000_000) (pos 10_000_000_000) (λ v. record p { token_flush_interval = v })
        raw
  set_key p key_max_request_body_mb raw =
      int_bound (pos 1) (pos 256) (λ v. record p { max_request_body_mb = v }) raw
  set_key p key_config_poll_interval raw =
      dur_bound (pos 5_000_000_000) (pos 300_000_000_000)
        (λ v. record p { config_poll_interval = v }) raw
  set_key p key_log_level raw =
      written (λ v. record p { log_level = v }) (level_of (to_lower (trim_space raw)))
  set_key p key_instances raw = int_bound (pos 1) (pos 1024) (λ v. record p { instances = v }) raw

  -- One round of the loop, for what the overrides hold under the key.
  override : Policy → PolicyKey → Option Bytes → Policy × List (Bytes × Bytes)
  override p k none = (p, [])
  override p k (some raw) = elim (set_key p k raw) [
    | none ↦ (p, (key_name k, raw) ∷ [])
    | some q ↦ (q, [])
  ]

  resolve_keys : Policy → List PolicyKey → Map Bytes → Policy × List (Bytes × Bytes)
  unfolding override
  resolve_keys p [] overrides = (p, [])
  resolve_keys p (k ∷ ks) overrides =
      let (q, found) = override p k (lookup (key_name k) overrides) in
      let (out, problems) = resolve_keys q ks overrides in (out, found ++ problems)

  -- A nil base is the default policy.
  pub resolve_policy : Option Policy → Map Bytes → Policy × List (Bytes × Bytes)
  unfolding resolve_keys
  resolve_policy none overrides = resolve_keys default_policy policy_keys overrides
  resolve_policy (some base) overrides = resolve_keys base policy_keys overrides
