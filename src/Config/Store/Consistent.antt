-- ===== src/Config/Store/Consistent.antt =====
-- The rules and the policy of internal/config/store.go and policy_store.go are those of one snapshot.
use unirate.Prelude.{◌≡◌, refl, Bool, true, false, Bool-cases, inl, inr, Option, none, some, All}
use unirate.Prelude.Text.{Bytes}
use unirate.Prelude.Int.{ℤ, leb_ℤ, ltb_ℤ}
use unirate.Prelude.Maps.{Map}
use unirate.Config.Policy.{resolve_policy}
use unirate.Config.Policy.Limits.{IsSafe}
use unirate.Config.Snapshot.{BizConfig, Snapshot}
use unirate.Config.Store.Same.{same_policy-eq}
use unirate.Config.Load.{
  Json, Fallible, ok, failed, panics, load_bizs, load_policy_overrides, load_from_redis,
}
use unirate.Config.Load.Valid.{
  BizValid, SnapshotValid, Holds, load_bizs-Holds, load_from_redis-Holds,
}
use unirate.Config.Store.{
  Store, LoadAnswers, same_policy, notify, refresh_policy, apply, publish, loaded, with_overrides,
  load_from_db, applied, newer, poll, bootstrap, from_redis, from_sot, after_load,
}

module _ (parse_duration : Bytes → Option ℤ) where
  -- The policy is resolved from the overrides of the snapshot that is served, whose rules are validated.
  pub record IsConsistent (s : Store) : Type 0 where
    pub resolved : s.eff ≡ (resolve_policy parse_duration (some s.base) s.overrides).0
    pub same_snapshot : s.overrides ≡ s.cur.policy_overrides
    pub rules_valid : All BizValid s.cur.bizs
    pub base_safe : IsSafe s.base

  pub record NearlyConsistent (overrides : Map Bytes) (s : Store) : Type 0 where
    pub same_snapshot : overrides ≡ s.cur.policy_overrides
    pub rules_valid : All BizValid s.cur.bizs
    pub base_safe : IsSafe s.base

  pub refresh_policy-IsConsistent :
      (overrides : Map Bytes) (s : Store)
      → NearlyConsistent overrides s
      → IsConsistent (refresh_policy parse_duration overrides s)
  unfolding refresh_policy notify
  refresh_policy-IsConsistent overrides s n =
      let eff = (resolve_policy parse_duration (some s.base) overrides).0 in
      elim (Bool-cases (same_policy s.eff eff)) [
        | inl same ↦ rw same (record {
          resolved = same_policy-eq s.eff eff same;
          same_snapshot = n.same_snapshot;
          rules_valid = n.rules_valid;
          base_safe = n.base_safe;
        })
        | inr changed ↦ rw changed (record {
          resolved = refl;
          same_snapshot = n.same_snapshot;
          rules_valid = n.rules_valid;
          base_safe = n.base_safe;
        })
      ]

  apply-IsConsistent :
      (snap : Snapshot) (s : Store)
      → SnapshotValid snap
      → IsSafe s.base
      → IsConsistent (apply parse_duration snap s)
  unfolding apply
  apply-IsConsistent snap s v safe =
      refresh_policy-IsConsistent snap.policy_overrides (record s { cur = snap })
        (record { same_snapshot = refl; rules_valid = v; base_safe = safe })

  -- What does not touch the configuration keeps it consistent.
  pub degraded-IsConsistent :
      (s : Store) (d : Bool) → IsConsistent s → IsConsistent (record s { degraded = d })
  degraded-IsConsistent s d c = record {
    resolved = c.resolved;
    same_snapshot = c.same_snapshot;
    rules_valid = c.rules_valid;
    base_safe = c.base_safe;
  }

  publish-base : (done : Bool) (snap : Snapshot) (s : Store) → (publish done snap s).base ≡ s.base
  unfolding publish
  publish-base true snap s = refl
  publish-base false snap s = refl

  pub LoadConsistent : Fallible (Snapshot × Store) → Type 0
  LoadConsistent (ok (snap, s)) = IsConsistent s
  LoadConsistent failed = Unit
  LoadConsistent panics = Unit

  with_overrides-LoadConsistent :
      (a : LoadAnswers) (bizs : Map BizConfig) (o : Fallible (Map Bytes)) (s : Store)
      → All BizValid bizs
      → IsConsistent s
      → LoadConsistent (with_overrides parse_duration a bizs o s)
  unfolding with_overrides loaded LoadConsistent
  with_overrides-LoadConsistent a bizs failed s v c = tt
  with_overrides-LoadConsistent a bizs panics s v c = tt
  with_overrides-LoadConsistent a bizs (ok overrides) s v c = degraded-IsConsistent _ false (
      apply-IsConsistent _ (publish a.set_done _ s) v
        (rw (publish-base a.set_done _ s) c.base_safe))

  pub load_from_db-LoadConsistent :
      (json : Json) (a : Option LoadAnswers) (s : Store)
      → IsConsistent s
      → LoadConsistent (load_from_db parse_duration json a s)
  unfolding load_from_db LoadConsistent
  load_from_db-LoadConsistent json none s c = tt
  load_from_db-LoadConsistent json (some a) s c =
      (elim (load_bizs json a.rows)
          as (λ l.
            Holds (All BizValid) l
            → LoadConsistent (elim l [
              | failed ↦ failed
              | panics ↦ panics
              | ok bizs ↦
                  with_overrides parse_duration a bizs (load_policy_overrides a.override_rows) s
            ])) [
              | failed ↦ λ v. tt
              | panics ↦ λ v. tt
              | ok bizs ↦ λ v.
                  with_overrides-LoadConsistent a bizs (load_policy_overrides a.override_rows) s v c
            ])
        (load_bizs-Holds json a.rows)

  pub newer-IsConsistent :
      (o : Fallible Snapshot) (s : Store)
      → Holds SnapshotValid o
      → IsConsistent s
      → IsConsistent (newer parse_duration o s)
  unfolding newer
  newer-IsConsistent failed s v c = c
  newer-IsConsistent panics s v c = c
  newer-IsConsistent (ok snap) s v c = elim (Bool-cases (leb_ℤ s.cur.version snap.version)) [
    | inl is_newer ↦ rw is_newer (apply-IsConsistent snap s v c.base_safe)
    | inr older ↦ rw older c
  ]

  applied-IsConsistent :
      (o : Fallible Snapshot) (s : Store)
      → Holds SnapshotValid o
      → IsConsistent s
      → IsConsistent (applied parse_duration o s)
  unfolding applied
  applied-IsConsistent failed s v c = c
  applied-IsConsistent panics s v c = c
  applied-IsConsistent (ok snap) s v c = apply-IsConsistent snap s v c.base_safe

  pub poll-IsConsistent :
      (json : Json) (ver : Option ℤ) (got : Option Bytes) (s : Store)
      → IsConsistent s
      → IsConsistent (poll parse_duration json ver got s)
  unfolding poll
  poll-IsConsistent json none got s c = degraded-IsConsistent s true c
  poll-IsConsistent json (some ver) got s c = elim (Bool-cases (ltb_ℤ s.cur.version ver)) [
    | inl is_newer ↦ rw is_newer (
        applied-IsConsistent (load_from_redis json got) (record s { degraded = false })
          (load_from_redis-Holds json got) (degraded-IsConsistent s false c))
    | inr older ↦ rw older (degraded-IsConsistent s false c)
  ]

  pub after_load-IsConsistent :
      (s : Store) (o : Fallible (Snapshot × Store))
      → LoadConsistent o
      → IsConsistent s
      → IsConsistent (after_load s o)
  unfolding after_load LoadConsistent
  after_load-IsConsistent s (ok (snap, s')) l c = l
  after_load-IsConsistent s failed l c = c
  after_load-IsConsistent s panics l c = c

  from_redis-IsConsistent :
      (s : Store) (o : Fallible Snapshot)
      → Holds SnapshotValid o
      → IsConsistent s
      → IsConsistent (from_redis parse_duration s o).0
  unfolding from_redis
  from_redis-IsConsistent s (ok snap) v c = apply-IsConsistent snap s v c.base_safe
  from_redis-IsConsistent s failed v c = c
  from_redis-IsConsistent s panics v c = c

  from_sot-IsConsistent :
      (json : Json) (got : Option Bytes) (s : Store) (o : Fallible (Snapshot × Store))
      → LoadConsistent o
      → IsConsistent s
      → IsConsistent (from_sot parse_duration json got s o).0
  unfolding from_sot LoadConsistent
  from_sot-IsConsistent json got s (ok (snap, s')) l c = l
  from_sot-IsConsistent json got s panics l c = c
  from_sot-IsConsistent json got s failed l c =
      from_redis-IsConsistent s (load_from_redis json got) (load_from_redis-Holds json got) c

  pub bootstrap-IsConsistent :
      (json : Json) (a : Option LoadAnswers) (got : Option Bytes) (s : Store)
      → IsConsistent s
      → IsConsistent (bootstrap parse_duration json a got s).0
  unfolding bootstrap
  bootstrap-IsConsistent json a got s c =
      from_sot-IsConsistent json got s (load_from_db parse_duration json a s)
        (load_from_db-LoadConsistent json a s c) c
