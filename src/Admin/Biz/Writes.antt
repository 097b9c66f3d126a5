-- ===== src/Admin/Biz/Writes.antt =====
-- A change of a business in internal/admin/biz.go is an accountable transaction.
use unirate.Prelude.{
  ◌≡◌, inl, inr, refl, Bool, true, false, not, ◌&&◌, ◌||◌, Bool-cases, ◌==◌ as nat_eq, some,
  Option-cases, List, [], ◌∷◌, All, arith,
}
use unirate.Prelude.Text.{Bytes, codes, ◌==◌}
use unirate.Meta.{Request}
use unirate.Limiter.Rule.{Rule}
use unirate.Config.Snapshot.{Snapshot}
use unirate.Config.Load.{Fallible, ok, failed, panics, all_valid}
use unirate.Config.Load.Valid.{IsValidated, Holds, all_valid-Holds}
use unirate.Config.Store.{Store, load_from_db}
use unirate.Admin.Change.{upsert_biz, delete_biz, World, Sent}
use unirate.Admin.Change.Accountable.{audited, transact-Logged}
use unirate.Admin.Policy.{Parts}
use unirate.Admin.Policy.Writes.{Sound, commit_and_load-Logged}
use unirate.Admin.Biz.{
  BizPayload, row_of, biz_saved, upsert_valid, upsert_biz_handler, after_delete, delete_committed,
  handle_biz_item, biz_of_path,
}

module _ (h : Parts) (marshal : List Rule → Bytes) where
  upsert_valid-Logged :
      (env : Sent BizPayload) (p : BizPayload) (o : Fallible (List Rule)) (w : World) (r : Request)
      → (p.biz == []) ≡ false
      → Holds (All IsValidated) o
      → Sound h marshal w (upsert_valid h marshal env p o w r).0
  unfolding upsert_valid row_of
  upsert_valid-Logged env p panics w r named valid = inl refl
  upsert_valid-Logged env p failed w r named valid = inl refl
  upsert_valid-Logged env p (ok rules) w r named valid =
      elim (Bool-cases (p.base_url == [] && not (p.biz == codes "*"))) [
        | inl bad ↦ rw bad (inl refl)
        | inr fine ↦ rw fine (
            commit_and_load-Logged h marshal env (biz_saved p) w _ (
              transact-Logged h.parse_duration h.refusal marshal env.sql _ w (
                audited h.parse_duration h.refusal marshal h.net r (codes "upsert_biz") p.biz
                  p.operator (marshal rules) (upsert_biz (row_of marshal p rules) ∷ [])
                  ((named, (λ e. ground (arith, fine, e)), (rules, refl, valid)), tt))))
      ]

  pub upsert_biz_handler-Logged :
      (env : Sent BizPayload) (w : World) (r : Request)
      → Sound h marshal w (upsert_biz_handler h marshal env w r).0
  unfolding upsert_biz_handler
  upsert_biz_handler-Logged env w r = elim (Option-cases env.payload) [
    | inl bad ↦ rw bad (inl refl)
    | inr (p, read) ↦ rw read (elim (Bool-cases (p.biz == [])) [
      | inl unnamed ↦ rw unnamed (inl refl)
      | inr named ↦ rw named (
          upsert_valid-Logged (record env { payload = some p }) p (all_valid p.rules) w r named
            (all_valid-Holds p.rules))
    ])
  ]

  log-after_delete :
      (biz : Bytes) (w : World) (o : Fallible (Snapshot × Store))
      → (after_delete biz w o).0.log ≡ w.log
  unfolding after_delete
  log-after_delete biz w (ok (snap, s)) = refl
  log-after_delete biz w failed = refl
  log-after_delete biz w panics = refl

  delete_committed-Logged :
      {P : Type 0} (env : Sent P) (biz : Bytes) (w : World) (t : World × Bool)
      → Sound h marshal w t.0
      → Sound h marshal w (delete_committed h env biz t).0
  unfolding delete_committed
  delete_committed-Logged env biz w (w', false) s = s
  delete_committed-Logged env biz w (w', true) s =
      rw (log-after_delete biz w' (load_from_db h.parse_duration h.json env.load w'.store)) s

  pub handle_biz_item-Logged :
      {P : Type 0} (env : Sent P) (w : World) (r : Request)
      → Sound h marshal w (handle_biz_item h env w r).0
  unfolding handle_biz_item
  handle_biz_item-Logged env w r =
      let biz = biz_of_path r.path in
      elim (Bool-cases (biz == [])) [
        | inl unnamed ↦ rw unnamed (inl refl)
        | inr named ↦ rw named (elim (Bool-cases (not env.sql.begins || not (env.sql.done 0))) [
          | inl broken ↦ rw broken (inl refl)
          | inr sent ↦ rw sent (elim (Bool-cases (nat_eq env.sql.rows_affected 0)) [
            | inl absent ↦ rw absent (inl refl)
            | inr found ↦ rw found (
                delete_committed-Logged env biz w _ (
                  transact-Logged h.parse_duration h.refusal marshal env.sql _ w (
                    audited h.parse_duration h.refusal marshal h.net r (codes "delete_biz") biz
                      (r.get (codes "X-Operator")) [] (delete_biz biz ∷ []) (named, tt))))
          ])
        ])
      ]
