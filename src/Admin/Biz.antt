-- ===== src/Admin/Biz.antt =====
-- internal/admin/biz.go: the endpoints that write the configuration of a business. The metering is the JSON
-- that it is written as. A rule that is a JSON null is taken not to occur.
pub mod Writes
use unirate.Prelude.{
  ℕ, Bool, true, false, not, ◌&&◌, ◌||◌, if◌then◌else◌, Option, none, some, List, [], ◌∷◌, ◌++◌,
  length, drop, ◌==◌ as nat_eq,
}
use unirate.Prelude.Text.{Bytes, codes, ◌==◌, starts_with}
use unirate.Prelude.Int.{ℤ, pos}
use unirate.Limiter.Rule.{Rule}
use unirate.Config.Snapshot.{Snapshot}
use unirate.Config.Load.{Fallible, ok, failed, panics, all_valid}
use unirate.Config.Store.{Store, load_from_db}
use unirate.Meta.{Request}
use unirate.Admin.{Response, Value, text, number, write_json, error_json}
use unirate.Admin.Server.{Net, Server}
use unirate.Admin.Change.{
  BizRow, Statement, upsert_biz, delete_biz, World, Sent, audit, all_done, transact, aborted,
}
use unirate.Admin.Policy.{Parts, commit_and_load}

pub record BizPayload : Type 0 where
  pub biz : Bytes
  pub base_url : Bytes
  pub strip_path_prefix : Bool
  pub enabled : Option Bool
  pub rules : List Rule
  pub metering : Option Bytes
  pub operator : Bytes

enabled_or_true : Option Bool → Bool
enabled_or_true none = true
enabled_or_true (some b) = b

-- json.Marshal of the rules, as Validate left them.
pub row_of : (List Rule → Bytes) → BizPayload → List Rule → BizRow
row_of marshal p rules = record {
  biz = p.biz;
  base_url = p.base_url;
  path_strip_prefix = p.strip_path_prefix;
  enabled = enabled_or_true p.enabled;
  rules_json = marshal rules;
  metering_json = p.metering;
}

pub biz_saved : BizPayload → Store → Snapshot → Response
biz_saved p s snap = write_json 200 (
    (codes "status", text (codes "ok"))
    ∷ (codes "biz", text p.biz)
    ∷ (codes "config_version", number snap.version)
    ∷ (codes "rules", number (pos (length p.rules)))
    ∷ [])

module _ (h : Parts) (marshal : List Rule → Bytes) where
  -- After the loop that validates the rules.
  pub upsert_valid :
      Sent BizPayload → BizPayload → Fallible (List Rule) → World → Request → World × Response
  upsert_valid env p panics w r = (w, aborted)
  upsert_valid env p failed w r = (w, error_json 400 (codes "invalid rule: " ++ env.rule_error))
  upsert_valid env p (ok rules) w r =
      if p.base_url == [] && not (p.biz == codes "*")
      then (w, error_json 400 (codes "base_url required"))
      else commit_and_load h env (biz_saved p) (
          transact env.sql
            (upsert_biz (row_of marshal p rules)
              ∷ audit h.net r (codes "upsert_biz") p.biz p.operator (marshal rules)
              ∷ [])
            w)

  pub upsert_biz_handler : Sent BizPayload → World → Request → World × Response
  upsert_biz_handler env w r = elim env.payload [
    | none ↦ (w, error_json 400 (codes "invalid json: " ++ env.json_error))
    | some p ↦
        if p.biz == []
        then (w, error_json 400 (codes "biz required"))
        else upsert_valid env p (all_valid p.rules) w r
  ]

-- strings.TrimPrefix(path, "/admin/bizs/")
pub biz_of_path : Bytes → Bytes
biz_of_path path = if starts_with path (codes "/admin/bizs/") then drop 12 path else path

biz_deleted : Bytes → ℤ → Response
biz_deleted biz version = write_json 200 (
    (codes "status", text (codes "deleted"))
    ∷ (codes "biz", text biz)
    ∷ (codes "config_version", number version)
    ∷ [])

-- After the commit; an error of LoadFromDB is dropped.
pub after_delete : Bytes → World → Fallible (Snapshot × Store) → World × Response
after_delete biz w (ok (snap, s)) = (record w { store = s }, biz_deleted biz snap.version)
after_delete biz w failed = (w, biz_deleted biz (pos 0))
after_delete biz w panics = (w, aborted)

module _ (h : Parts) where
  pub delete_committed : {P : Type 0} → Sent P → Bytes → World × Bool → World × Response
  delete_committed env biz (w, false) = (w, error_json 500 env.sql.error)
  delete_committed env biz (w, true) =
      after_delete biz w (load_from_db h.parse_duration h.json env.load w.store)

  pub handle_biz_item : {P : Type 0} → Sent P → World → Request → World × Response
  handle_biz_item env w r =
      let biz = biz_of_path r.path in
      if biz == []
      then (w, error_json 400 (codes "biz required"))
      else if not env.sql.begins || not (env.sql.done 0)
      then (w, error_json 500 env.sql.error)
      else if nat_eq env.sql.rows_affected 0
      then (w, error_json 404 (codes "biz not found"))
      else delete_committed env biz (
          transact env.sql
            (delete_biz biz
              ∷ audit h.net r (codes "delete_biz") biz (r.get (codes "X-Operator")) []
              ∷ [])
            w)
