-- ===== src/Limiter/Batch/Examples.antt =====
-- Runs of the scripts: a counter of at most two a window, and one slot at most.
use unirate.Prelude.{ℕ, ◌≡◌, ◌≤◌, refl, false, Option, none, some, List, [], ◌∷◌, All, arith, inl}
use unirate.Prelude.Text.{Bytes, codes, ◌==◌}
use unirate.Prelude.Int.{ℤ, pos, ◌+ℤ◌}
use unirate.Prelude.Maps.{lookup, insert, sweep}
use unirate.Limiter.Ledger.{or_zero}
use unirate.Limiter.Check.Prepare.{LuaRule, LuaType, fixed, conc, tkadmit}
use unirate.Limiter.Batch.{
  batch_check, phase_one, phase_two, check_keyed, check_typed, check_fixed, check_conc,
  check_tkadmit, go_on, with_plan, commit, answer, release_conc, now_ms,
}
use unirate.Limiter.Batch.Memory.{Memory, whole_numbers, in_memory_store, in_memory_store-laws}
use unirate.Limiter.Batch.Rejects.{Kept, expired, batch_check-rejected}
use unirate.Limiter.Batch.Charges.{charged, HasRoom, batch_check-charged}
use unirate.Limiter.Batch.Slots.{Fits, holders}
use unirate.Limiter.Batch.Slots.History.{start, later, checks, releases, holders-History}
use unirate.Limiter.Batch.Admits.{LedgerAdmits, batch_check-admits}
use unirate.Limiter.Batch.Repeats.{crowd, slot_rule, Alone, batch_check-crowd}
use unirate.Limiter.Batch.Release.{release_conc-batch_check}

abbrev rule_of : ℕ → LuaType → ℤ → LuaRule ℤ
rule_of k t limit = record {
  k = k;
  t = t;
  limit = limit;
  cost = pos 1;
  expire = pos 61;
  window = pos 0;
  rate = none;
  burst = pos 0;
  ttl = pos 5000;
}

abbrev two_rules : List (LuaRule ℤ)
two_rules = rule_of 1 fixed (pos 2) ∷ rule_of 2 conc (pos 1) ∷ []

abbrev two_keys : List Bytes
two_keys = codes "f" ∷ codes "c" ∷ []

abbrev fresh_store : Memory
fresh_store = record {
  clock = (100, 0);
  at = λ k. record { value = none; bucket = (none, none); members = [] };
  distinct = λ k. tt;
}

abbrev after_first : Memory
after_first =
    (batch_check whole_numbers in_memory_store fresh_store two_keys two_rules (codes "a")).1

first_ok :
    (batch_check whole_numbers in_memory_store fresh_store two_keys two_rules (codes "a")).0
    ≡ some (pos 1 ∷ pos 0 ∷ pos 0 ∷ [])
unfolding batch_check phase_one check_keyed check_typed check_fixed check_conc go_on with_plan
    commit phase_two answer ◌==◌ lookup insert sweep ◌+ℤ◌ now_ms
first_ok = refl

second_refused :
    (batch_check whole_numbers in_memory_store after_first two_keys two_rules (codes "b")).0
    ≡ some (pos 0 ∷ pos 2 ∷ pos 5000 ∷ [])
unfolding batch_check phase_one check_keyed check_typed check_fixed check_conc go_on with_plan
    commit phase_two answer ◌==◌ lookup insert sweep ◌+ℤ◌ now_ms
second_refused = refl

batch_check-rejected_example :
    Kept ℤ two_rules
      (now_ms whole_numbers in_memory_store after_first)
      (after_first.at (codes "f"))
      ((batch_check whole_numbers in_memory_store after_first two_keys two_rules (codes "b")).1.at
        (codes "f"))
batch_check-rejected_example =
    batch_check-rejected whole_numbers in_memory_store in_memory_store-laws after_first two_keys
      two_rules (codes "b") (codes "f") (pos 0 ∷ pos 2 ∷ pos 5000 ∷ []) second_refused (λ e. cc)

batch_check-charged_example :
    (or_zero (after_first.at (codes "f")).value
      ≡ or_zero (fresh_store.at (codes "f")).value +ℤ charged two_keys (codes "f") two_rules)
    × All (HasRoom two_keys (codes "f") (or_zero (fresh_store.at (codes "f")).value)) two_rules
batch_check-charged_example =
    batch_check-charged whole_numbers in_memory_store in_memory_store-laws fresh_store two_keys
      two_rules (codes "a") (codes "f") first_ok

f_is_not_c : ◌≡◌ {A = Option Bytes} (some (codes "f")) (some (codes "c")) → ⊥
f_is_not_c e = ground (arith, e)

two_rules_fit : All (Fits two_keys (codes "c") 1) two_rules
two_rules_fit = (λ e. absurd (f_is_not_c e), (λ e. (refl, omega arith), tt))

holders-History_example :
    holders whole_numbers in_memory_store in_memory_store-laws
      (batch_check whole_numbers in_memory_store
        (release_conc whole_numbers in_memory_store after_first two_keys (codes "a")).1
        two_keys
        two_rules
        (codes "b")).1
      (codes "c")
    ≤ 1
holders-History_example =
    holders-History whole_numbers in_memory_store in_memory_store-laws (codes "c") 1
      (later
        (later (later start (checks two_keys two_rules (codes "a") two_rules_fit))
          (releases two_keys (codes "a")))
        (checks two_keys two_rules (codes "b") two_rules_fit))
      (omega arith)

release_conc-batch_check_example :
    let e = (release_conc whole_numbers in_memory_store after_first two_keys (codes "a")).1 in
    ((m : Bytes) (s : ℤ)
      → lookup m (e.at (codes "c")).members ≡ some s
      → lookup m (fresh_store.at (codes "c")).members ≡ some s)
    × ((m : Bytes) (s : ℤ)
        → lookup m (fresh_store.at (codes "c")).members ≡ some s
        → All
            (λ r. expired (now_ms whole_numbers in_memory_store fresh_store) s r ≡ false)
            two_rules
        → lookup m (e.at (codes "c")).members ≡ some s)
unfolding ◌==◌ lookup
release_conc-batch_check_example =
    release_conc-batch_check whole_numbers in_memory_store in_memory_store-laws fresh_store two_keys
      two_keys two_rules (codes "a") (codes "c") 1 two_rules_fit refl refl

abbrev budget_rule : List (LuaRule ℤ)
budget_rule = rule_of 1 tkadmit (pos 100) ∷ []

budget_ok :
    (batch_check whole_numbers in_memory_store fresh_store two_keys budget_rule (codes "a")).0
    ≡ some (pos 1 ∷ pos 0 ∷ pos 0 ∷ [])
unfolding batch_check phase_one check_keyed check_typed check_tkadmit go_on with_plan commit
    phase_two answer now_ms
budget_ok = refl

batch_check-admits_example :
    All
      (LedgerAdmits whole_numbers in_memory_store in_memory_store-laws two_keys fresh_store)
      budget_rule
batch_check-admits_example =
    batch_check-admits whole_numbers in_memory_store in_memory_store-laws fresh_store two_keys
      budget_rule (codes "a") budget_ok

batch_check-crowd_example :
    let crowded =
      crowd whole_numbers in_memory_store in_memory_store-laws 40 fresh_store
        (pos 2)
        (pos 5000)
        (codes "c")
        (codes "a") in
    let out =
      batch_check whole_numbers in_memory_store crowded
        (codes "c" ∷ [])
        (slot_rule (pos 2) (pos 5000) ∷ [])
        (codes "a") in
    (out.0 ≡ some (pos 1 ∷ pos 0 ∷ pos 0 ∷ [])) × Alone (codes "a") (out.1.at (codes "c")).members
batch_check-crowd_example =
    batch_check-crowd whole_numbers in_memory_store in_memory_store-laws 40 fresh_store (pos 2)
      (pos 5000) (codes "c") (codes "a") (omega arith) (inl refl)
