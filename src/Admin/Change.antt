-- ===== src/Admin/Change.antt =====
-- internal/admin: transactions with their audit (audit.go, policy_codec.go), and the state that handlers
-- change: the configuration store, and the transactions that were committed, each with its
-- statements. SQL answers from outside whether a statement is done. `aborted` is what a client
-- gets of a handler that panics: no answer.
pub mod Accountable
use unirate.Prelude.{
  ℕ, suc, Bool, true, false, not, ◌&&◌, if◌then◌else◌, Option, none, some, List, [], ◌∷◌, ◌++◌,
  take,
}
use unirate.Prelude.Text.{Bytes, codes, ◌==◌}
use unirate.Prelude.Int.{ℤ}
use unirate.Meta.{Request}
use unirate.Config.Store.{Store, LoadAnswers}
use unirate.Admin.{Response, error_json}
use unirate.Admin.Server.{Net, host_of}

-- A row of biz_config as it is written; none is NULL.
pub record BizRow : Type 0 where
  pub biz : Bytes
  pub base_url : Bytes
  pub path_strip_prefix : Bool
  pub enabled : Bool
  pub rules_json : Bytes
  pub metering_json : Option Bytes

pub record AuditRow : Type 0 where
  pub action : Bytes
  pub biz : Bytes
  pub operator : Bytes
  pub remote_addr : Bytes
  pub detail : Bytes

pub data Statement : Type 0 where
  upsert_config : Bytes → Bytes → Bytes → Statement
  delete_config : Bytes → Statement
  upsert_biz : BizRow → Statement
  delete_biz : Bytes → Statement
  insert_audit : AuditRow → Statement

-- Whether the transaction begins, its n-th statement is done, and the commit; how many rows a deletion
-- affects; and the text of the error.
pub record Sql : Type 0 where
  pub begins : Bool
  pub done : ℕ → Bool
  pub commits : Bool
  pub rows_affected : ℕ
  pub error : Bytes

pub record World : Type 0 where
  pub store : Store
  pub log : List (List Statement)

pub operator_of : Request → Bytes → Bytes
operator_of r explicit =
    if not (explicit == [])
    then explicit
    else if not (r.get (codes "X-Operator") == [])
    then r.get (codes "X-Operator")
    else codes "unknown"

-- The statement of `audit`.
pub audit : Net → Request → Bytes → Bytes → Bytes → Bytes → Statement
audit net r action biz operator detail = insert_audit (record {
  action = action;
  biz = biz;
  operator = operator_of r operator;
  remote_addr = host_of net r.remote_addr;
  detail = take 4000 detail;
})

pub all_done : Sql → ℕ → List Statement → Bool
all_done sql n [] = true
all_done sql n (s ∷ statements) = sql.done n && all_done sql (suc n) statements

-- A transaction of these statements, and whether it was committed.
pub transact : Sql → List Statement → World → World × Bool
transact sql statements w =
    if sql.begins && (all_done sql 0 statements && sql.commits)
    then (record w { log = w.log ++ (statements ∷ []) }, true)
    else (w, false)

abbrev pub aborted : Response
aborted = record { status = 0; headers = []; body = [] }

-- What a handler reads from outside besides the request: its body, as encoding/json reads it; the text of
-- the errors of the parser, of the first rule that is refused and of the load; and the
-- answers of SQL to its transaction and to the load after it.
pub record Sent (Payload : Type 0) : Type 0 where
  pub payload : Option Payload
  pub json_error : Bytes
  pub rule_error : Bytes
  pub sql : Sql
  pub load : Option LoadAnswers
  pub load_error : Bytes
