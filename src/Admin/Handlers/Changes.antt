-- ===== src/Admin/Handlers/Changes.antt =====
-- What a request to the API of internal/admin can change.
use unirate.Prelude.{
  ℕ, length, ◌≡◌, ◌≢◌, ◌⊎◌, inl, inr, refl, ap, Bool-cases, Option, none, some, Option-cases, List,
  [], ◌∷◌, ◌++◌,
}
use unirate.Prelude.Text.{Bytes, codes, ◌==◌}
use unirate.Meta.{Request}
use unirate.Config.Snapshot.{Snapshot}
use unirate.Config.Load.{Fallible, ok, failed, panics}
use unirate.Config.Store.{Store, load_from_db}
use unirate.Admin.Server.{Server, handler, pattern_of, root, extract_token}
use unirate.Admin.Server.Carries.{AllCarry, handler-WithToken}
use unirate.Admin.Change.{Statement, World}
use unirate.Admin.Change.Accountable.{IsAccountable}
use unirate.Admin.Policy.{Parts}
use unirate.Admin.Policy.Writes.{Sound, handle_policy-Logged}
use unirate.Admin.Policy.Checks.{handle_policy_validate-same}
use unirate.Admin.Biz.Writes.{upsert_biz_handler-Logged, handle_biz_item-Logged}
use unirate.Admin.Handlers.{
  Outside, Reads, admin_endpoints, handle_bizs, handle_validate, handle_reload, reloaded, refusals,
  checked,
}

log-reloaded :
    (error : Bytes) (w : World) (o : Fallible (Snapshot × Store))
    → (reloaded error w o).0.log ≡ w.log
unfolding reloaded
log-reloaded error w (ok (snap, s)) = refl
log-reloaded error w failed = refl
log-reloaded error w panics = refl

checked-same :
    (w : World) (total : ℕ) (o : Option (List (List (Bytes × Bytes)))) → (checked w total o).0 ≡ w
unfolding checked
checked-same w total none = refl
checked-same w total (some problems) = refl

handle_validate-same :
    (env : Outside) (w : World) (r : Request)
    → (handle_validate env.describe env.rules_sent w r).0 ≡ w
unfolding handle_validate
handle_validate-same env w r = elim (Option-cases env.rules_sent.payload) [
  | inl bad ↦ rw bad refl
  | inr (rules, read) ↦ rw read (checked-same w (length rules) (refusals env.describe 0 rules))
]

module _ (h : Parts) (srv : Server) (env : Outside) (reads : Reads) where
  handle_bizs-Logged :
      (w : World) (r : Request) → Sound h env.marshal w (handle_bizs h env reads w r).0
  unfolding handle_bizs
  handle_bizs-Logged w r = elim (Bool-cases (r.method == codes "GET")) [
    | inl read ↦ rw read (inl refl)
    | inr write ↦ rw write (upsert_biz_handler-Logged h env.marshal env.biz_sent w r)
  ]

  admin_endpoints-AllCarry :
      AllCarry (Sound h env.marshal) (λ w. inl refl) (admin_endpoints h srv env reads)
  unfolding admin_endpoints handle_reload
  admin_endpoints-AllCarry = record {
    bizs_carries = handle_bizs-Logged;
    biz_item_carries = handle_biz_item-Logged h env.marshal env.item_sent;
    reload_carries = λ w r.
        inl (log-reloaded env.load_error w (load_from_db h.parse_duration h.json env.load w.store));
    snapshot_carries = λ w r. inl refl;
    audit_carries = λ w r. inl refl;
    validate_carries = λ w r. inl (ap (λ (v : World). v.log) (handle_validate-same env w r));
    policy_carries = handle_policy-Logged h env.marshal srv env.policy_sent;
    policy_validate_carries =
        λ w r. inl (ap (λ (v : World). v.log) (handle_policy_validate-same h env.policy_sent w r));
    metrics_carries = λ w r. inl refl;
  }

  -- Whatever a request sends to a registered endpoint of the API, and whatever SQL and the JSON parser
  -- answer, at most one transaction is committed. Then the request had the token, and the transaction
  -- is made of validated changes and one record of the audit, the last statement, which names an
  -- operator: overrides of the policy that are taken over, deletions of known ones, businesses with
  -- a name, an address (unless they stand for all) and rules that Validate accepted, as it left
  -- them, and deletions of businesses.
  pub handler-log :
      (w : World) (r : Request)
      → pattern_of r.path ≢ root
      → let w' = (handler h.net srv (admin_endpoints h srv env reads) w r).0 in
        (w'.log ≡ w.log)
        ⊎ ((h.net.sum256 (extract_token r) ≡ srv.token_hash)
            × (statements : List Statement) × (w'.log ≡ w.log ++ (statements ∷ []))
            × IsAccountable h.parse_duration h.refusal env.marshal statements)
  handler-log w r api =
      elim (handler-WithToken (Sound h env.marshal) (λ w. inl refl) h.net srv
        (admin_endpoints h srv env reads) w r api admin_endpoints-AllCarry) [
          | inl same ↦ inl (ap (λ (v : World). v.log) same)
          | inr (token, logged) ↦ elim logged [
            | inl same ↦ inl same
            | inr (statements, logged, accountable) ↦ inr (token, statements, logged, accountable)
          ]
        ]
