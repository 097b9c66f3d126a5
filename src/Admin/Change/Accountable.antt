-- ===== src/Admin/Change/Accountable.antt =====
-- What a committed transaction of internal/admin is: changes that were validated, and one record of the audit.
use unirate.Prelude.{
  ◌≡◌, ◌⊎◌, inl, inr, refl, true, false, ◌&&◌, Bool-cases, Option, some, List, [], ◌∷◌, ◌++◌, All,
}
use unirate.Prelude.Text.{Bytes, codes, ◌==◌}
use unirate.Prelude.Int.{ℤ}
use unirate.Meta.{Request}
use unirate.Limiter.Rule.{Rule}
use unirate.Config.Policy.{PolicyKey}
use unirate.Config.Policy.Overrides.{IsAcceptable, policy_spec_of}
use unirate.Config.Load.Valid.{IsValidated}
use unirate.Admin.Server.{Net}
use unirate.Admin.Change.{
  AuditRow, Statement, upsert_config, delete_config, upsert_biz, delete_biz, insert_audit, Sql,
  World, operator_of, audit, transact, all_done,
}

-- The handlers' parameters: how durations are read, a refused value is told, and rules are written.
module _ (parse_duration : Bytes → Option ℤ) (refusal : PolicyKey → Bytes → Bytes)
    (marshal : List Rule → Bytes) where
  -- A written override is one that the store takes over, a deleted one has a known name, a written business
  -- has a name, an address unless it stands for all, and rules as Validate left them; a deleted one has
  -- a name. A record of the audit is no change.
  abbrev pub IsChange : Statement → Type 0
  IsChange (upsert_config k v operator) = IsAcceptable parse_duration refusal (k, v)
  IsChange (delete_config k) = (spec : PolicyKey) × (policy_spec_of k ≡ some spec)
  IsChange (upsert_biz row) =
      ((row.biz == []) ≡ false)
      × ((row.base_url == []) ≡ true → (row.biz == codes "*") ≡ true)
      × ((rules : List Rule) × (row.rules_json ≡ marshal rules) × All IsValidated rules)
  IsChange (delete_biz biz) = (biz == []) ≡ false
  IsChange (insert_audit a) = ⊥

  -- Validated changes, and after them one record that names an operator.
  abbrev pub IsAccountable : List Statement → Type 0
  IsAccountable statements =
      (changes : List Statement) × (a : AuditRow) × (statements ≡ changes ++ (insert_audit a ∷ []))
      × All IsChange changes
      × ((a.operator == []) ≡ false)

  -- At most one transaction was committed, and that is accountable.
  abbrev pub Logged : World → World → Type 0
  Logged w w' =
      (w'.log ≡ w.log)
      ⊎ ((statements : List Statement) × (w'.log ≡ w.log ++ (statements ∷ []))
          × IsAccountable statements)

  operator_of-nonempty : (r : Request) (explicit : Bytes) → (operator_of r explicit == []) ≡ false
  unfolding operator_of ◌==◌
  operator_of-nonempty r explicit = elim (Bool-cases (explicit == [])) [
    | inr given ↦ rw given given
    | inl absent ↦ rw absent (elim (Bool-cases (r.get (codes "X-Operator") == [])) [
      | inr header ↦ rw header header
      | inl none_sent ↦ rw none_sent refl
    ])
  ]

  pub audited :
      (net : Net) (r : Request) (action biz operator detail : Bytes) (changes : List Statement)
      → All IsChange changes
      → IsAccountable (changes ++ (audit net r action biz operator detail ∷ []))
  unfolding audit
  audited net r action biz operator detail changes valid =
      (changes, _, refl, valid, operator_of-nonempty r operator)

  pub transact-Logged :
      (sql : Sql) (statements : List Statement) (w : World)
      → IsAccountable statements
      → Logged w (transact sql statements w).0
  unfolding transact
  transact-Logged sql statements w accountable =
      elim (Bool-cases (sql.begins && (all_done sql 0 statements && sql.commits))) [
        | inl done ↦ rw done (inr (statements, refl, accountable))
        | inr undone ↦ rw undone (inl refl)
      ]
