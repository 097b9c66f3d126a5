-- ===== src/Admin/Handlers.antt =====
-- The handlers of internal/admin/server.go, and the API put together. What only reads is a parameter. A rule
-- that is a JSON null is taken not to occur.
pub mod Changes
mod Examples
use unirate.Prelude.{
  ℕ, suc, Bool, true, false, not, if◌then◌else◌, Option, none, some, List, [], ◌∷◌, ◌++◌, length,
  ◌==◌ as nat_eq,
}
use unirate.Prelude.Text.{Bytes, codes, ◌==◌}
use unirate.Prelude.Int.{ℤ, pos}
use unirate.Limiter.Key.{format_int}
use unirate.Limiter.Rule.{Rule}
use unirate.Limiter.Rule.Validate.{Outcome, RuleError, accepted, rejected, panicked, validate}
use unirate.Config.Snapshot.{Snapshot}
use unirate.Config.Load.{Fallible, ok, failed, panics}
use unirate.Config.Store.{Store, LoadAnswers, load_from_db}
use unirate.Meta.{Request}
use unirate.Admin.{Response, Value, text, number, flag, rows, write_json, error_json}
use unirate.Admin.Server.{Server, Endpoints, HandlerFunc}
use unirate.Admin.Change.{World, Sent, aborted}
use unirate.Admin.Policy.{Parts, PolicyPayload, handle_policy, handle_policy_validate}
use unirate.Admin.Biz.{BizPayload, upsert_biz_handler, handle_biz_item}

-- The rules that Validate refuses, with their places; none is its panic.
refusal_of :
    (RuleError → Bytes)
    → ℕ
    → Rule × Outcome
    → Option (List (List (Bytes × Bytes)))
    → Option (List (List (Bytes × Bytes)))
refusal_of describe i (r, panicked) later = none
refusal_of describe i (r, accepted) later = later
refusal_of describe i (r, rejected e) none = none
refusal_of describe i (r, rejected e) (some problems) = some (
    ((codes "index", format_int (pos i))
      ∷ (codes "name", r.name)
      ∷ (codes "error", describe e)
      ∷ [])
    ∷ problems)

pub refusals : (RuleError → Bytes) → ℕ → List Rule → Option (List (List (Bytes × Bytes)))
refusals describe i [] = some []
refusals describe i (r ∷ rules) =
    refusal_of describe i (validate r) (refusals describe (suc i) rules)

rules_verdict : ℕ → List (List (Bytes × Bytes)) → Response
rules_verdict checked problems =
    let valid = nat_eq (length problems) 0 in
    write_json (if valid then 200 else 400) (
      (codes "valid", flag valid)
      ∷ (codes "checked", number (pos checked))
      ∷ (codes "problems", rows problems)
      ∷ [])

checked : World → ℕ → Option (List (List (Bytes × Bytes))) → World × Response
checked w total none = (w, aborted)
checked w total (some problems) = (w, rules_verdict total problems)

pub handle_validate : (RuleError → Bytes) → Sent (List Rule) → HandlerFunc World
handle_validate describe env w r = elim env.payload [
  | none ↦ (w, error_json 400 env.json_error)
  | some rules ↦ checked w (length rules) (refusals describe 0 rules)
]

pub reloaded : Bytes → World → Fallible (Snapshot × Store) → World × Response
reloaded error w failed = (w, error_json 500 error)
reloaded error w panics = (w, aborted)
reloaded error w (ok (snap, s)) = (
  record w { store = s },
  write_json 200 (
      (codes "status", text (codes "reloaded"))
      ∷ (codes "config_version", number snap.version)
      ∷ (codes "bizs", number (pos (length snap.bizs)))
      ∷ []),
)

pub handle_reload : Parts → Option LoadAnswers → Bytes → HandlerFunc World
handle_reload h load error w r =
    reloaded error w (load_from_db h.parse_duration h.json load w.store)

-- What a request to any endpoint reads from outside.
pub record Outside : Type 0 where
  pub biz_sent : Sent BizPayload
  pub item_sent : Sent Unit
  pub policy_sent : Sent PolicyPayload
  pub rules_sent : Sent (List Rule)
  pub load : Option LoadAnswers
  pub load_error : Bytes
  pub describe : RuleError → Bytes
  pub marshal : List Rule → Bytes

-- The endpoints that only read.
pub record Reads : Type 0 where
  pub list_bizs : World → Request → Response
  pub snapshot : World → Request → Response
  pub audit : World → Request → Response
  pub metrics : World → Request → Response
  pub console : Option (HandlerFunc World)

pub handle_bizs : Parts → Outside → Reads → HandlerFunc World
handle_bizs h env reads w r =
    if r.method == codes "GET"
    then (w, reads.list_bizs w r)
    else upsert_biz_handler h env.marshal env.biz_sent w r

pub admin_endpoints : Parts → Server → Outside → Reads → Endpoints World
admin_endpoints h srv env reads = record {
  handle_bizs = handle_bizs h env reads;
  handle_biz_item = handle_biz_item h env.item_sent;
  handle_reload = handle_reload h env.load env.load_error;
  handle_snapshot = λ w r. (w, reads.snapshot w r);
  handle_audit = λ w r. (w, reads.audit w r);
  handle_validate = handle_validate env.describe env.rules_sent;
  handle_policy = handle_policy h srv env.policy_sent;
  handle_policy_validate = handle_policy_validate h env.policy_sent;
  handle_metrics = λ w r. (w, reads.metrics w r);
  console = reads.console;
}
