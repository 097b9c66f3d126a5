-- ===== src/Config/Load.antt =====
-- internal/config/store.go and policy_store.go: how rows of the database and the snapshot in Redis are read.
-- What SQL, Redis and encoding/json answer is given. A rule that is a JSON null is taken not to occur.
pub mod Rows
pub mod Valid
pub mod Examples
use unirate.Prelude.{Bool, if◌then◌else◌, Option, none, some, List, [], ◌∷◌}
use unirate.Prelude.Text.{Bytes, ◌==◌}
use unirate.Prelude.Maps.{Map, insert}
use unirate.Limiter.Rule.{Rule}
use unirate.Limiter.Rule.Validate.{Outcome, accepted, rejected, panicked, validate}
use unirate.Config.Snapshot.{BizConfig, Snapshot}

-- What encoding/json makes of texts; none is an error.
pub record Json : Type 0 where
  pub parse_rules : Bytes → Option (List Rule)
  pub parse_snapshot : Bytes → Option Snapshot

-- A row of biz_config; none in place of a column is NULL.
pub record Row : Type 0 where
  pub biz : Bytes
  pub base_url : Bytes
  pub path_strip_prefix : Bool
  pub enabled : Bool
  pub rules_json : Option Bytes

-- What a query answers: an error, or rows, of which the ones that are not scanned are none, and whether
-- the iteration broke off at their end.
pub data Answer (A : Type 0) : Type 0 where
  query_failed missing_table : Answer A
  answered : List (Option A) → Bool → Answer A

-- What a function returns, or that it panics.
pub data Fallible (A : Type 0) : Type 0 where
  ok : A → Fallible A
  failed panics : Fallible A

-- The rules that Validate accepts; none is its panic.
cons_valid : Rule × Outcome → Option (List Rule) → Option (List Rule)
cons_valid (r, panicked) later = none
cons_valid (r, rejected e) later = later
cons_valid (r, accepted) none = none
cons_valid (r, accepted) (some rs) = some (r ∷ rs)

pub valid_rules : List Rule → Option (List Rule)
valid_rules [] = some []
valid_rules (r ∷ rs) = cons_valid (validate r) (valid_rules rs)

-- What a row gives: nothing, if its rules do not parse.
pub data Loaded : Type 0 where
  skipped crashed : Loaded
  kept : BizConfig → Loaded

keep : Row → Option (List Rule) → Loaded
keep row none = crashed
keep row (some rs) = kept (record {
  base_url = row.base_url;
  strip_path_prefix = row.path_strip_prefix;
  enabled = row.enabled;
  rules = rs;
})

parsed : Row → Option (List Rule) → Loaded
parsed row none = skipped
parsed row (some rs) = keep row (valid_rules rs)

pub load_row : Json → Row → Loaded
load_row json row = elim row.rules_json [
  | none ↦ keep row (some [])
  | some j ↦ if j == [] then keep row (some []) else parsed row (json.parse_rules j)
]

-- `for rows.Next()` over the rows of the query, those that are enabled.
pub load_rows : Json → Map BizConfig → List (Option Row) → Bool → Fallible (Map BizConfig)
load_rows json bizs [] broken = if broken then failed else ok bizs
load_rows json bizs (none ∷ rows) broken = failed
load_rows json bizs (some row ∷ rows) broken = elim (load_row json row) [
  | skipped ↦ load_rows json bizs rows broken
  | crashed ↦ panics
  | kept c ↦ load_rows json (insert row.biz c bizs) rows broken
]

pub load_bizs : Json → Answer Row → Fallible (Map BizConfig)
load_bizs json query_failed = failed
load_bizs json missing_table = failed
load_bizs json (answered rows broken) = load_rows json [] rows broken

override_rows : Map Bytes → List (Option (Bytes × Bytes)) → Bool → Fallible (Map Bytes)
override_rows out [] broken = if broken then failed else ok out
override_rows out (none ∷ rows) broken = failed
override_rows out (some (k, v) ∷ rows) broken = override_rows (insert k v out) rows broken

pub load_policy_overrides : Answer (Bytes × Bytes) → Fallible (Map Bytes)
load_policy_overrides query_failed = failed
load_policy_overrides missing_table = ok []
load_policy_overrides (answered rows broken) = override_rows [] rows broken

-- The rules of a snapshot from Redis: all of them are to be valid.
cons_all : Rule × Outcome → Fallible (List Rule) → Fallible (List Rule)
cons_all (r, panicked) later = panics
cons_all (r, rejected e) later = failed
cons_all (r, accepted) (ok rs) = ok (r ∷ rs)
cons_all (r, accepted) failed = failed
cons_all (r, accepted) panics = panics

pub all_valid : List Rule → Fallible (List Rule)
all_valid [] = ok []
all_valid (r ∷ rs) = cons_all (validate r) (all_valid rs)

cons_biz :
    Bytes → BizConfig → Fallible (List Rule) → Fallible (Map BizConfig) → Fallible (Map BizConfig)
cons_biz biz c panics later = panics
cons_biz biz c failed later = failed
cons_biz biz c (ok rs) panics = panics
cons_biz biz c (ok rs) failed = failed
cons_biz biz c (ok rs) (ok bizs) = ok ((biz, record c { rules = rs }) ∷ bizs)

valid_bizs : Map BizConfig → Fallible (Map BizConfig)
valid_bizs [] = ok []
valid_bizs ((biz, c) ∷ bizs) = cons_biz biz c (all_valid c.rules) (valid_bizs bizs)

checked_snapshot : Snapshot → Fallible (Map BizConfig) → Fallible Snapshot
checked_snapshot snap panics = panics
checked_snapshot snap failed = failed
checked_snapshot snap (ok bizs) = ok (record snap { bizs = bizs })

-- loadFromRedis, of what GET answers.
pub load_from_redis : Json → Option Bytes → Fallible Snapshot
load_from_redis json none = failed
load_from_redis json (some b) = elim (json.parse_snapshot b) [
  | none ↦ failed
  | some snap ↦ checked_snapshot snap (valid_bizs snap.bizs)
]
