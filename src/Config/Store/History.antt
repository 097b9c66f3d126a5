-- ===== src/Config/Store/History.antt =====
-- What holds of the configuration after any steps of internal/config/store.go and policy_store.go.
use unirate.Prelude.{◌≡◌, some_eq, refl, subst, ap, ◌∙◌, Option, none, some, List, [], ◌∷◌, All}
use unirate.Prelude.Text.{Bytes}
use unirate.Prelude.Int.{ℤ}
use unirate.Prelude.Maps.{Map}
use unirate.Config.Policy.{default_policy, resolve_policy}
use unirate.Config.Policy.Limits.{
  IsSafe, resolve_policy-nil, resolve_policy-IsSafe, default_policy-IsSafe,
}
use unirate.Config.Snapshot.{rules_of, rules_of-All}
use unirate.Config.Store.Consistent.{
  IsConsistent, refresh_policy-IsConsistent, after_load-IsConsistent, load_from_db-LoadConsistent,
  bootstrap-IsConsistent, newer-IsConsistent, poll-IsConsistent,
}
use unirate.Config.Load.{Json, load_from_redis}
use unirate.Config.Load.Valid.{IsValidated, load_from_redis-Holds}
use unirate.Config.Store.{
  Store, new_store, Step, sets_base, listens, loads, bootstraps, invalidated, polls,
  base_or_default, set_policy_base, on_policy_change, load_from_db, step, run,
}

module _ (parse_duration : Bytes → Option ℤ) where
  -- A base that is set lies within the limits.
  abbrev pub SafeStep : Step → Type 0
  SafeStep (sets_base (some p)) = IsSafe p
  SafeStep x = Unit

  step-IsConsistent :
      (json : Json) (x : Step) (s : Store)
      → SafeStep x
      → IsConsistent parse_duration s
      → IsConsistent parse_duration (step parse_duration json x s)
  unfolding step set_policy_base base_or_default on_policy_change
  step-IsConsistent json (sets_base none) s safe c =
      refresh_policy-IsConsistent parse_duration s.overrides (record s { base = default_policy })
        (record {
          same_snapshot = c.same_snapshot;
          rules_valid = c.rules_valid;
          base_safe = default_policy-IsSafe;
        })
  step-IsConsistent json (sets_base (some p)) s safe c =
      refresh_policy-IsConsistent parse_duration s.overrides (record s { base = p })
        (record { same_snapshot = c.same_snapshot; rules_valid = c.rules_valid; base_safe = safe })
  step-IsConsistent json (listens fn) s safe c = record {
    resolved = c.resolved;
    same_snapshot = c.same_snapshot;
    rules_valid = c.rules_valid;
    base_safe = c.base_safe;
  }
  step-IsConsistent json (loads a) s safe c =
      after_load-IsConsistent parse_duration s (load_from_db parse_duration json a s)
        (load_from_db-LoadConsistent parse_duration json a s c) c
  step-IsConsistent json (bootstraps a got) s safe c =
      bootstrap-IsConsistent parse_duration json a got s c
  step-IsConsistent json (invalidated got) s safe c =
      newer-IsConsistent parse_duration (load_from_redis json got) s
        (load_from_redis-Holds json got) c
  step-IsConsistent json (polls ver got) s safe c =
      poll-IsConsistent parse_duration json ver got s c

  run-IsConsistent :
      (json : Json) (xs : List Step) (s : Store)
      → All SafeStep xs
      → IsConsistent parse_duration s
      → IsConsistent parse_duration (run parse_duration json xs s)
  unfolding run
  run-IsConsistent json [] s safe c = c
  run-IsConsistent json (x ∷ xs) s safe c =
      run-IsConsistent json xs (step parse_duration json x s) safe.1
        (step-IsConsistent json x s safe.0 c)

  new_store-IsConsistent : IsConsistent parse_duration new_store
  unfolding new_store
  new_store-IsConsistent = record {
    resolved = rw (resolve_policy-nil parse_duration default_policy) refl;
    same_snapshot = refl;
    rules_valid = tt;
    base_safe = default_policy-IsSafe;
  }

  -- Where every base that is set lies within the limits: after whatever loads, messages of the subscription,
  -- rounds of the poll, changes of the base and registrations, and whatever SQL, Redis and the JSON
  -- parser answered, the policy is the one
  -- that the overrides of the served snapshot give, so that rules and policy are of one snapshot; it is
  -- within its limits; and every rule that is served is one that Validate accepted.
  pub run-served :
      (json : Json) (xs : List Step)
      → All SafeStep xs
      → let s = run parse_duration json xs new_store in
        (s.eff ≡ (resolve_policy parse_duration (some s.base) s.cur.policy_overrides).0)
        × IsSafe s.eff
        × ((biz : Bytes) → All IsValidated (rules_of s.cur.bizs biz))
  run-served json xs safe =
      let s = run parse_duration json xs new_store in
      let c = run-IsConsistent json xs new_store safe new_store-IsConsistent in
      let eq : s.eff ≡ (resolve_policy parse_duration (some s.base) s.cur.policy_overrides).0 =
        c.resolved
        ∙ ap (λ (o : Map Bytes). (resolve_policy parse_duration (some s.base) o).0)
            c.same_snapshot in
      (
        eq,
        rw eq (
            resolve_policy-IsSafe parse_duration (some s.base) s.cur.policy_overrides
              (λ p e. subst IsSafe (some_eq s.base p e) c.base_safe)),
        λ biz. rules_of-All IsValidated s.cur.bizs biz c.rules_valid,
      )
