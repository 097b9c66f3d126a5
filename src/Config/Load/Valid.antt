-- ===== src/Config/Load/Valid.antt =====
-- Only rules that Validate has accepted are loaded (internal/config/store.go).
use unirate.Prelude.{
  ◌≡◌, some_eq, refl, sym, subst, Bool, true, false, Bool-cases, inl, inr, Option, none, some,
  Option-cases, List, [], ◌∷◌, All,
}
use unirate.Prelude.Text.{Bytes, ◌==◌}
use unirate.Prelude.Maps.{Map, insert}
use unirate.Limiter.Rule.{Rule}
use unirate.Limiter.Rule.Validate.{Outcome, accepted, rejected, panicked, validate}
use unirate.Config.Snapshot.{BizConfig, Snapshot}
use unirate.Config.Load.{
  Json, Row, Answer, query_failed, missing_table, answered, Fallible, ok, failed, panics, Loaded,
  skipped, crashed, kept, keep, parsed, load_row, load_rows, load_bizs, valid_rules, cons_valid,
  all_valid, cons_all, cons_biz, valid_bizs, checked_snapshot, load_from_redis,
}

-- The rule as Validate leaves one that it accepts.
abbrev pub IsValidated : Rule → Type 0
IsValidated r = (raw : Rule) × (validate raw ≡ (r, accepted))

abbrev pub BizValid : Bytes × BizConfig → Type 0
BizValid (biz, c) = All IsValidated c.rules

cons_valid-All :
    (raw : Rule) (p : Rule × Outcome) (later : Option (List Rule)) (out : List Rule)
    → validate raw ≡ p
    → ((rs : List Rule) → later ≡ some rs → All IsValidated rs)
    → cons_valid p later ≡ some out
    → All IsValidated out
unfolding cons_valid
cons_valid-All raw (r, panicked) later out e ih h = cc
cons_valid-All raw (r, rejected x) later out e ih h = ih out h
cons_valid-All raw (r, accepted) none out e ih h = cc
cons_valid-All raw (r, accepted) (some rs) out e ih h =
    subst (λ (l : List Rule). All IsValidated l) (some_eq (r ∷ rs) out h) ((raw, e), ih rs refl)

pub valid_rules-All : (rs out : List Rule) → valid_rules rs ≡ some out → All IsValidated out
unfolding valid_rules
valid_rules-All [] out h = subst (λ (l : List Rule). All IsValidated l) (some_eq [] out h) tt
valid_rules-All (r ∷ rs) out h =
    cons_valid-All r (validate r) (valid_rules rs) out refl (λ l e. valid_rules-All rs l e) h

insert-All :
    (biz : Bytes) (c : BizConfig) (bizs : Map BizConfig)
    → BizValid (biz, c)
    → All BizValid bizs
    → All BizValid (insert biz c bizs)
unfolding insert
insert-All biz c [] valid all = (valid, tt)
insert-All biz c ((at, old) ∷ bizs) valid all = elim (Bool-cases (at == biz)) [
  | inl here ↦ rw here (valid, all.1)
  | inr other ↦ rw other (all.0, insert-All biz c bizs valid all.1)
]

-- What is kept of a row.
RowValid : Loaded → Type 0
RowValid skipped = Unit
RowValid crashed = Unit
RowValid (kept c) = All IsValidated c.rules

keep-RowValid :
    (row : Row) (rs : List Rule) (o : Option (List Rule))
    → o ≡ valid_rules rs
    → RowValid (keep row o)
unfolding RowValid keep
keep-RowValid row rs none e = tt
keep-RowValid row rs (some out) e = valid_rules-All rs out (sym e)

keep_empty : (row : Row) → RowValid (keep row (some []))
unfolding RowValid keep
keep_empty row = tt

load_row-RowValid : (json : Json) (row : Row) → RowValid (load_row json row)
unfolding load_row parsed keep
load_row-RowValid json row = elim (Option-cases row.rules_json) [
  | inl null ↦ rw null (keep_empty row)
  | inr (j, text) ↦ rw text (elim (Bool-cases (j == [])) [
    | inl empty ↦ rw empty (keep_empty row)
    | inr written ↦ rw written (elim (Option-cases (json.parse_rules j)) [
      | inl bad ↦ rw bad (unfold RowValid in tt)
      | inr (rs, good) ↦ rw good (keep-RowValid row rs (valid_rules rs) refl)
    ])
  ])
]

-- What is loaded.
abbrev pub Holds : {A : Type 0} → (A → Type 0) → Fallible A → Type 0
Holds P failed = Unit
Holds P panics = Unit
Holds P (ok a) = P a

load_rows-Holds :
    (json : Json) (bizs : Map BizConfig) (rows : List (Option Row)) (broken : Bool)
    → All BizValid bizs
    → Holds (All BizValid) (load_rows json bizs rows broken)
unfolding load_rows RowValid
load_rows-Holds json bizs [] true all = tt
load_rows-Holds json bizs [] false all = all
load_rows-Holds json bizs (none ∷ rows) broken all = tt
load_rows-Holds json bizs (some row ∷ rows) broken all =
    (elim (load_row json row)
        as (λ l.
          RowValid l
          → Holds (All BizValid) (elim l [
            | skipped ↦ load_rows json bizs rows broken
            | crashed ↦ panics
            | kept c ↦ load_rows json (insert row.biz c bizs) rows broken
          ])) [
            | skipped ↦ λ v. load_rows-Holds json bizs rows broken all
            | crashed ↦ λ v. tt
            | kept c ↦ λ v.
                load_rows-Holds json (insert row.biz c bizs) rows broken
                  (insert-All row.biz c bizs v all)
          ])
      (load_row-RowValid json row)

pub load_bizs-Holds : (json : Json) (a : Answer Row) → Holds (All BizValid) (load_bizs json a)
unfolding load_bizs
load_bizs-Holds json query_failed = tt
load_bizs-Holds json missing_table = tt
load_bizs-Holds json (answered rows broken) = load_rows-Holds json [] rows broken tt

cons_biz-Holds :
    (biz : Bytes) (c : BizConfig) (rs : Fallible (List Rule)) (later : Fallible (Map BizConfig))
    → Holds (All IsValidated) rs
    → Holds (All BizValid) later
    → Holds (All BizValid) (cons_biz biz c rs later)
unfolding cons_biz
cons_biz-Holds biz c panics later v all = tt
cons_biz-Holds biz c failed later v all = tt
cons_biz-Holds biz c (ok rs) panics v all = tt
cons_biz-Holds biz c (ok rs) failed v all = tt
cons_biz-Holds biz c (ok rs) (ok bizs) v all = (v, all)

cons_all-Holds :
    (raw : Rule) (p : Rule × Outcome) (later : Fallible (List Rule))
    → validate raw ≡ p
    → Holds (All IsValidated) later
    → Holds (All IsValidated) (cons_all p later)
unfolding cons_all
cons_all-Holds raw (r, panicked) later e v = tt
cons_all-Holds raw (r, rejected x) later e v = tt
cons_all-Holds raw (r, accepted) failed e v = tt
cons_all-Holds raw (r, accepted) panics e v = tt
cons_all-Holds raw (r, accepted) (ok rs) e v = ((raw, e), v)

pub all_valid-Holds : (rs : List Rule) → Holds (All IsValidated) (all_valid rs)
unfolding all_valid
all_valid-Holds [] = tt
all_valid-Holds (r ∷ rs) = cons_all-Holds r (validate r) (all_valid rs) refl (all_valid-Holds rs)

valid_bizs-Holds : (bizs : Map BizConfig) → Holds (All BizValid) (valid_bizs bizs)
unfolding valid_bizs
valid_bizs-Holds [] = tt
valid_bizs-Holds ((biz, c) ∷ bizs) =
    cons_biz-Holds biz c (all_valid c.rules) (valid_bizs bizs) (all_valid-Holds c.rules)
      (valid_bizs-Holds bizs)

abbrev pub SnapshotValid : Snapshot → Type 0
SnapshotValid snap = All BizValid snap.bizs

checked_snapshot-Holds :
    (snap : Snapshot) (bizs : Fallible (Map BizConfig))
    → Holds (All BizValid) bizs
    → Holds SnapshotValid (checked_snapshot snap bizs)
unfolding checked_snapshot
checked_snapshot-Holds snap panics v = tt
checked_snapshot-Holds snap failed v = tt
checked_snapshot-Holds snap (ok bizs) v = v

pub load_from_redis-Holds :
    (json : Json) (got : Option Bytes) → Holds SnapshotValid (load_from_redis json got)
unfolding load_from_redis
load_from_redis-Holds json none = tt
load_from_redis-Holds json (some b) = elim (Option-cases (json.parse_snapshot b)) [
  | inl bad ↦ rw (bad, Holds) tt
  | inr (snap, good) ↦
      rw (good, Holds)
        (checked_snapshot-Holds snap (valid_bizs snap.bizs) (valid_bizs-Holds snap.bizs))
]
