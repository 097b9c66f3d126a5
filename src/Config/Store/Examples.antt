-- ===== src/Config/Store/Examples.antt =====
-- A store that two listeners watch, of which a load changes the policy and a poll finds nothing.
use unirate.Prelude.{◌≡◌, true, false, Option, none, some, List, [], ◌∷◌, map, All}
use unirate.Prelude.Text.{Bytes, codes}
use unirate.Prelude.Int.{ℤ, pos}
use unirate.Config.Policy.{resolve_policy}
use unirate.Config.Policy.Limits.{IsSafe}
use unirate.Config.Snapshot.{rules_of}
use unirate.Config.Load.{answered}
use unirate.Config.Load.Examples.{no_json, two_rows}
use unirate.Config.Load.Valid.{IsValidated}
use unirate.Config.Store.{new_store, LoadAnswers, Step, sets_base, listens, loads, polls, run}
use unirate.Config.Store.History.{run-served}
use unirate.Config.Store.Heard.{AllHeard, run-heard}

abbrev no_durations : Bytes → Option ℤ
no_durations s = none

abbrev three_instances : LoadAnswers
three_instances = record {
  rows = answered (map some two_rows) false;
  override_rows = answered (some (codes "instances", codes "3") ∷ []) false;
  incremented = some (pos 7);
  unix_now = pos 0;
  set_done = true;
}

abbrev some_steps : List Step
some_steps =
    listens 1 ∷ sets_base none ∷ loads (some three_instances) ∷ listens 2 ∷ polls none none ∷ []

run-served_example :
    let s = run no_durations no_json some_steps new_store in
    (s.eff ≡ (resolve_policy no_durations (some s.base) s.cur.policy_overrides).0)
    × IsSafe s.eff
    × ((biz : Bytes) → All IsValidated (rules_of s.cur.bizs biz))
run-served_example = run-served no_durations no_json some_steps (tt, (tt, (tt, (tt, (tt, tt)))))

run-heard_example : AllHeard (run no_durations no_json some_steps new_store)
unfolding new_store
run-heard_example = run-heard no_durations no_json some_steps new_store tt
