-- ===== src/Config/Policy/Overrides.antt =====
-- PolicySpecOf and ValidatePolicyOverrides of internal/config/policy_spec.go: which overrides may be written.
-- The text of a refused value is a parameter.
use unirate.Prelude.{◌≡◌, refl, if◌then◌else◌, Option, none, some, List, [], ◌∷◌, ◌++◌, All}
use unirate.Prelude.Text.{Bytes, codes, ◌==◌}
use unirate.Prelude.Int.{ℤ}
use unirate.Prelude.Maps.{Map}
use unirate.Config.Policy.{Policy, PolicyKey, key_name, policy_keys, default_policy, set_key}

named_in : List PolicyKey → Bytes → Option PolicyKey
named_in [] name = none
named_in (k ∷ ks) name = let rest = named_in ks name in if key_name k == name then some k else rest

pub policy_spec_of : Bytes → Option PolicyKey
policy_spec_of name = named_in policy_keys name

join_names : List PolicyKey → Bytes
join_names [] = []
join_names (k ∷ []) = key_name k
join_names (k ∷ j ∷ ks) = key_name k ++ codes ", " ++ join_names (j ∷ ks)

pub unknown_key : Bytes
unknown_key = codes "unknown config key; allowed: " ++ join_names policy_keys

add_problem : Bytes → Option Bytes → List (Bytes × Bytes) → List (Bytes × Bytes)
add_problem name none later = later
add_problem name (some problem) later = (name, problem) ∷ later

add_problem-nil :
    (name : Bytes) (o : Option Bytes) (later : List (Bytes × Bytes))
    → add_problem name o later ≡ []
    → (o ≡ none) × (later ≡ [])
unfolding add_problem
add_problem-nil name none later h = (refl, h)
add_problem-nil name (some problem) later h = cc

module _ (parse_duration : Bytes → Option ℤ) (refusal : PolicyKey → Bytes → Bytes) where
  refused_as : PolicyKey → Bytes → Option Policy → Option Bytes
  refused_as k raw none = some (refusal k raw)
  refused_as k raw (some p) = none

  -- What is wrong with one override.
  problem_of : Bytes → Option PolicyKey → Option Bytes
  problem_of raw none = some unknown_key
  problem_of raw (some k) = refused_as k raw (set_key parse_duration default_policy k raw)

  pub validate_policy_overrides : Map Bytes → List (Bytes × Bytes)
  validate_policy_overrides [] = []
  validate_policy_overrides ((name, raw) ∷ overrides) =
      add_problem name (problem_of raw (policy_spec_of name)) (validate_policy_overrides overrides)

  -- The override has a known name, and its value is taken over.
  abbrev pub IsAcceptable : Bytes × Bytes → Type 0
  IsAcceptable (name, raw) =
      (k : PolicyKey) × (policy_spec_of name ≡ some k)
      × (p : Policy) × (set_key parse_duration default_policy k raw ≡ some p)

  refused_as-none :
      (k : PolicyKey) (raw : Bytes) (o : Option Policy)
      → refused_as k raw o ≡ none
      → (p : Policy) × (o ≡ some p)
  unfolding refused_as
  refused_as-none k raw none h = cc
  refused_as-none k raw (some p) h = (p, refl)

  problem_of-none :
      (name raw : Bytes) (o : Option PolicyKey)
      → policy_spec_of name ≡ o
      → problem_of raw o ≡ none
      → IsAcceptable (name, raw)
  unfolding problem_of
  problem_of-none name raw none e h = cc
  problem_of-none name raw (some k) e h =
      let (p, taken) = refused_as-none k raw (set_key parse_duration default_policy k raw) h in
      (k, e, p, taken)

  -- Without problems every override is acceptable.
  pub validate_policy_overrides-All :
      (overrides : Map Bytes)
      → validate_policy_overrides overrides ≡ []
      → All IsAcceptable overrides
  unfolding validate_policy_overrides
  validate_policy_overrides-All [] h = tt
  validate_policy_overrides-All ((name, raw) ∷ overrides) h =
      let (e, rest) =
        add_problem-nil name (problem_of raw (policy_spec_of name))
          (validate_policy_overrides overrides) h in
      (
        problem_of-none name raw (policy_spec_of name) refl e,
        validate_policy_overrides-All overrides rest,
      )
