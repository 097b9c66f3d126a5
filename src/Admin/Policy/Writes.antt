-- ===== src/Admin/Policy/Writes.antt =====
-- A change of the policy in internal/admin/policy.go is an accountable transaction.
use unirate.Prelude.{
  ◌≡◌, inl, inr, refl, Bool, true, false, ◌&&◌, Bool-cases, ◌==◌ as nat_eq, Option, none, some,
  Option-cases, List, [], ◌∷◌, map, length, All, All-append,
}
use unirate.Prelude.Text.{Bytes, codes, ◌==◌}
use unirate.Prelude.Maps.{Map}
use unirate.Meta.{Request}
use unirate.Limiter.Rule.{Rule}
use unirate.Config.Policy.{PolicyKey}
use unirate.Config.Policy.Overrides.{
  IsAcceptable, policy_spec_of, validate_policy_overrides, validate_policy_overrides-All,
}
use unirate.Config.Snapshot.{Snapshot}
use unirate.Config.Load.{Fallible, ok, failed, panics}
use unirate.Config.Store.{Store, load_from_db}
use unirate.Admin.{Response}
use unirate.Admin.Server.{Server}
use unirate.Admin.Change.{Statement, upsert_config, delete_config, World, Sent, operator_of}
use unirate.Admin.Change.Accountable.{IsChange, IsAccountable, Logged, audited, transact-Logged}
use unirate.Admin.Policy.{
  Parts, PolicyPayload, decode_policy_values, before, insert_sorted, add_unknown, sorted_entries,
  reset_problems, any, policy_statements, published, commit_and_load, policy_saved, put_payload,
  put_policy, handle_policy,
}

insert_sorted-All :
    (P : Bytes × Bytes → Type 0) (e : Bytes × Bytes) (sorted : List (Bytes × Bytes))
    → P e
    → All P sorted
    → All P (insert_sorted e sorted)
unfolding insert_sorted
insert_sorted-All P e [] p all = (p, tt)
insert_sorted-All P e (f ∷ sorted) p all = elim (Bool-cases (before e.0 f.0)) [
  | inl first ↦ rw first (p, all)
  | inr later ↦ rw later (all.0, insert_sorted-All P e sorted p all.1)
]

sorted_entries-All :
    (P : Bytes × Bytes → Type 0) (vals : Map Bytes) → All P vals → All P (sorted_entries vals)
unfolding sorted_entries
sorted_entries-All P [] all = tt
sorted_entries-All P (e ∷ vals) all =
    insert_sorted-All P e (sorted_entries vals) all.0 (sorted_entries-All P vals all.1)

any-nil : (problems : List (Bytes × Bytes)) → any problems ≡ false → problems ≡ []
unfolding any
any-nil [] h = refl
any-nil (p ∷ problems) h = cc

add_unknown-nil :
    (k : Bytes) (o : Option PolicyKey) (problems : List (Bytes × Bytes))
    → add_unknown k o problems ≡ []
    → ((spec : PolicyKey) × (o ≡ some spec)) × (problems ≡ [])
unfolding add_unknown
add_unknown-nil k none problems e = cc
add_unknown-nil k (some spec) problems e = ((spec, refl), e)

module _ (h : Parts) (marshal : List Rule → Bytes) where
  abbrev pub Sound : World → World → Type 0
  Sound = Logged h.parse_duration h.refusal marshal

  abbrev pub Valid : Statement → Type 0
  Valid = IsChange h.parse_duration h.refusal marshal

  map_upserts-All :
      (operator : Bytes) (entries : List (Bytes × Bytes))
      → All (IsAcceptable h.parse_duration h.refusal) entries
      → All Valid (map (λ (e : Bytes × Bytes). upsert_config e.0 e.1 operator) entries)
  map_upserts-All operator [] all = tt
  map_upserts-All operator ((k, v) ∷ entries) all = (all.0, map_upserts-All operator entries all.1)

  deletes-All :
      (reset : List Bytes)
      → reset_problems reset ≡ []
      → All Valid (map (λ k. delete_config k) reset)
  unfolding reset_problems
  deletes-All [] e = tt
  deletes-All (k ∷ reset) e =
      let (known, rest) = add_unknown-nil k (policy_spec_of k) (reset_problems reset) e in
      (known, deletes-All reset rest)

  policy_statements-IsAccountable :
      (r : Request) (p : PolicyPayload) (vals : Map Bytes)
      → validate_policy_overrides h.parse_duration h.refusal vals ≡ []
      → reset_problems p.reset ≡ []
      → IsAccountable h.parse_duration h.refusal marshal (policy_statements h.net r p vals h.detail)
  unfolding policy_statements
  policy_statements-IsAccountable r p vals fine known =
      let acceptable = validate_policy_overrides-All h.parse_duration h.refusal vals fine in
      let upserts =
        map_upserts-All (operator_of r p.operator) (sorted_entries vals)
          (sorted_entries-All (IsAcceptable h.parse_duration h.refusal) vals acceptable) in
      audited h.parse_duration h.refusal marshal h.net r (codes "update_policy") (codes "_")
        p.operator (h.detail vals p.reset) _
        (All-append Valid _ _ upserts (deletes-All p.reset known))

  -- A load after a commit leaves the log.
  log-published :
      (error : Bytes) (answer : Store → Snapshot → Response) (w : World)
      (o : Fallible (Snapshot × Store))
      → (published h error answer w o).0.log ≡ w.log
  unfolding published
  log-published error answer w (ok (snap, s)) = refl
  log-published error answer w failed = refl
  log-published error answer w panics = refl

  pub commit_and_load-Logged :
      {P : Type 0} (env : Sent P) (answer : Store → Snapshot → Response) (w : World)
      (t : World × Bool)
      → Sound w t.0
      → Sound w (commit_and_load h env answer t).0
  unfolding commit_and_load
  commit_and_load-Logged env answer w (w', false) s = s
  commit_and_load-Logged env answer w (w', true) s =
      rw
        (log-published env.load_error answer w'
          (load_from_db h.parse_duration h.json env.load w'.store))
        s

  put_payload-Logged :
      (srv : Server) (env : Sent PolicyPayload) (p : PolicyPayload) (vals : Map Bytes)
      (decode_problems : List (Bytes × Bytes)) (w : World) (r : Request)
      → Sound w (put_payload h srv env p (vals, decode_problems) w r).0
  unfolding put_payload
  put_payload-Logged srv env p vals decode_problems w r =
      let found = validate_policy_overrides h.parse_duration h.refusal vals in
      elim (Bool-cases (any decode_problems)) [
        | inl bad ↦ rw bad (inl refl)
        | inr fine ↦ rw fine (elim (Bool-cases (any found)) [
          | inl bad ↦ rw bad (inl refl)
          | inr valid ↦ rw valid (elim (Bool-cases (any (reset_problems p.reset))) [
            | inl bad ↦ rw bad (inl refl)
            | inr known ↦ rw known (elim (Bool-cases srv.has_db) [
              | inr absent ↦ rw absent (inl refl)
              | inl present ↦ rw present (
                  commit_and_load-Logged env (policy_saved h) w _ (
                    transact-Logged h.parse_duration h.refusal marshal env.sql
                      (policy_statements h.net r p vals h.detail) w
                      (policy_statements-IsAccountable r p vals (any-nil found valid)
                        (any-nil (reset_problems p.reset) known))))
            ])
          ])
        ])
      ]

  put_policy-Logged :
      (srv : Server) (env : Sent PolicyPayload) (w : World) (r : Request)
      → Sound w (put_policy h srv env w r).0
  unfolding put_policy
  put_policy-Logged srv env w r = elim (Option-cases env.payload) [
    | inl bad ↦ rw bad (inl refl)
    | inr (p, read) ↦
        rw read (elim (Bool-cases (nat_eq (length p.values) 0 && nat_eq (length p.reset) 0)) [
          | inl empty ↦ rw empty (inl refl)
          | inr given ↦ rw given (
              let (vals, problems) = decode_policy_values p.values in
              put_payload-Logged srv (record env { payload = some p }) p vals problems w r)
        ])
  ]

  pub handle_policy-Logged :
      (srv : Server) (env : Sent PolicyPayload) (w : World) (r : Request)
      → Sound w (handle_policy h srv env w r).0
  unfolding handle_policy
  handle_policy-Logged srv env w r = elim (Bool-cases (r.method == codes "GET")) [
    | inl read ↦ rw read (inl refl)
    | inr write ↦ rw write (put_policy-Logged srv env w r)
  ]
