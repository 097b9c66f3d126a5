-- ===== src/Config/Store/Heard.antt =====
-- What the listeners of internal/config/policy_store.go have been told.
use unirate.Prelude.{
  ℕ, ◌≡◌, All, subst, ==_iff, refl, sym, Bool, true, false, ◌||◌, Bool-cases, inl, inr,
  if◌then◌else◌, ◌==◌ as nat_eq, Option, none, some, List, [], ◌∷◌, ◌++◌, map, arith,
}
use unirate.Prelude.Text.{Bytes}
use unirate.Prelude.Int.{ℤ, leb_ℤ, ltb_ℤ}
use unirate.Prelude.Maps.{Map}
use unirate.Config.Policy.{Policy, resolve_policy}
use unirate.Config.Snapshot.{BizConfig, Snapshot}
use unirate.Config.Load.{
  Json, Fallible, ok, failed, panics, load_bizs, load_policy_overrides, load_from_redis,
}
use unirate.Config.Store.{
  Store, LoadAnswers, Step, sets_base, listens, loads, bootstraps, invalidated, polls, same_policy,
  notify, refresh_policy, set_policy_base, base_or_default, on_policy_change, apply, publish,
  loaded, with_overrides, load_from_db, applied, newer, poll, from_redis, from_sot, bootstrap,
  after_load, step, run,
}

abbrev has_listener : ℕ → List ℕ → Bool
has_listener l [] = false
has_listener l (j ∷ ls) = nat_eq j l || has_listener l ls

abbrev later_or : Option Policy → Option Policy → Option Policy
later_or none earlier = earlier
later_or (some p) earlier = some p

-- The policy of the last call of a listener.
abbrev pub last_heard : ℕ → List (ℕ × Policy) → Option Policy
last_heard l [] = none
last_heard l ((j, p) ∷ calls) = later_or (last_heard l calls) (if nat_eq j l then some p else none)

later_or_assoc : (a b c : Option Policy) → later_or (later_or a b) c ≡ later_or a (later_or b c)
later_or_assoc none b c = refl
later_or_assoc (some p) b c = refl

later_or-none : (a : Option Policy) → later_or a none ≡ a
later_or-none none = refl
later_or-none (some p) = refl

last_heard-append :
    (l : ℕ) (calls more : List (ℕ × Policy))
    → last_heard l (calls ++ more) ≡ later_or (last_heard l more) (last_heard l calls)
last_heard-append l [] more = sym (later_or-none (last_heard l more))
last_heard-append l ((j, p) ∷ calls) more =
    rw (last_heard-append l calls more) (
      later_or_assoc (last_heard l more) (last_heard l calls) (if nat_eq j l then some p else none))

-- All are called with the policy, and others are not called.
last_heard-map :
    (l : ℕ) (p : Policy) (ls : List ℕ)
    → last_heard l (map (λ j. (j, p)) ls) ≡ (if has_listener l ls then some p else none)
last_heard-map l p [] = refl
last_heard-map l p (j ∷ ls) = rw (last_heard-map l p ls) (elim (Bool-cases (has_listener l ls)) [
  | inl later ↦ rw later (ground arith)
  | inr last ↦ rw last (ground arith)
])

-- Every listener has been called with the policy in effect, last.
abbrev IsInformed : Store → Type 0
IsInformed s = (l : ℕ) → has_listener l s.listeners ≡ true → last_heard l s.heard ≡ some s.eff

-- The same of the list of the listeners.
abbrev pub AllHeard : Store → Type 0
AllHeard s = All (λ l. last_heard l s.heard ≡ some s.eff) s.listeners

All-listener : (P : ℕ → Type 0) (ls : List ℕ) → All P ls → (l : ℕ) → has_listener l ls ≡ true → P l
All-listener P [] all l h = cc
All-listener P (j ∷ ls) all l h = elim (Bool-cases (nat_eq j l)) [
  | inl this ↦ subst P ((==_iff j l).0 this) all.0
  | inr other ↦ All-listener P ls all.1 l (ground (arith, h, other))
]

All-of_listeners :
    (P : ℕ → Type 0) (ls : List ℕ) → ((l : ℕ) → has_listener l ls ≡ true → P l) → All P ls
All-of_listeners P [] f = tt
All-of_listeners P (j ∷ ls) f = (
  f j (rw ((==_iff j j).1 refl) refl),
  All-of_listeners P ls (λ l h. f l (
      rw h
        (elim (Bool-cases (nat_eq j l)) [ inl this ↦ rw this refl | inr other ↦ rw other refl ]))),
)

has_listener-append :
    (fn l : ℕ) (ls : List ℕ) → has_listener l (ls ++ (fn ∷ [])) ≡ (has_listener l ls || nat_eq fn l)
has_listener-append fn l [] = ground arith
has_listener-append fn l (j ∷ ls) = ground (arith, has_listener-append fn l ls)

on_policy_change-IsInformed :
    (fn : ℕ) (s : Store) → IsInformed s → IsInformed (on_policy_change fn s)
unfolding on_policy_change
on_policy_change-IsInformed fn s informed l has =
    let before = has_listener-append fn l s.listeners in
    rw (last_heard-append l s.heard ((fn, s.eff) ∷ [])) (elim (Bool-cases (nat_eq fn l)) [
      | inl this ↦ rw this refl
      | inr other ↦ rw other (informed l (ground (arith, has, before, other)))
    ])

module _ (parse_duration : Bytes → Option ℤ) where
  refresh_policy-IsInformed :
      (overrides : Map Bytes) (s : Store)
      → IsInformed s
      → IsInformed (refresh_policy parse_duration overrides s)
  unfolding refresh_policy notify
  refresh_policy-IsInformed overrides s informed =
      let eff = (resolve_policy parse_duration (some s.base) overrides).0 in
      elim (Bool-cases (same_policy s.eff eff)) [
        | inl same ↦ rw same informed
        | inr changed ↦ rw changed (λ l has.
            rw
              (
                last_heard-append l s.heard (map (λ j. (j, eff)) s.listeners),
                last_heard-map l eff s.listeners,
                has,
              )
              refl)
      ]

  apply-IsInformed :
      (snap : Snapshot) (s : Store) → IsInformed s → IsInformed (apply parse_duration snap s)
  unfolding apply
  apply-IsInformed snap s informed =
      refresh_policy-IsInformed snap.policy_overrides (record s { cur = snap }) informed

  -- After a load, if it gives a store.
  LoadInformed : Fallible (Snapshot × Store) → Type 0
  LoadInformed (ok (snap, s)) = IsInformed s
  LoadInformed failed = Unit
  LoadInformed panics = Unit

  loaded-IsInformed :
      (a : LoadAnswers) (bizs : Map BizConfig) (overrides : Map Bytes) (s : Store)
      → IsInformed s
      → IsInformed (loaded parse_duration a bizs overrides s).1
  unfolding loaded publish
  loaded-IsInformed a bizs overrides s informed = elim (Bool-cases a.set_done) [
    | inl done ↦ apply-IsInformed _ _ (rw done informed)
    | inr undone ↦ apply-IsInformed _ _ (rw undone informed)
  ]

  load_from_db-LoadInformed :
      (json : Json) (a : Option LoadAnswers) (s : Store)
      → IsInformed s
      → LoadInformed (load_from_db parse_duration json a s)
  unfolding load_from_db with_overrides LoadInformed
  load_from_db-LoadInformed json none s informed = tt
  load_from_db-LoadInformed json (some a) s informed =
      elim (load_bizs json a.rows)
        as (λ l. LoadInformed (elim l [
          | failed ↦ failed
          | panics ↦ panics
          | ok bizs ↦ with_overrides parse_duration a bizs (load_policy_overrides a.override_rows) s
        ])) [
          | failed ↦ tt
          | panics ↦ tt
          | ok bizs ↦
              elim (load_policy_overrides a.override_rows)
                as (λ o. LoadInformed (with_overrides parse_duration a bizs o s)) [
                  | failed ↦ tt
                  | panics ↦ tt
                  | ok overrides ↦ loaded-IsInformed a bizs overrides s informed
                ]
        ]

  applied-IsInformed :
      (o : Fallible Snapshot) (s : Store) → IsInformed s → IsInformed (applied parse_duration o s)
  unfolding applied
  applied-IsInformed (ok snap) s informed = apply-IsInformed snap s informed
  applied-IsInformed failed s informed = informed
  applied-IsInformed panics s informed = informed

  newer-IsInformed :
      (o : Fallible Snapshot) (s : Store) → IsInformed s → IsInformed (newer parse_duration o s)
  unfolding newer
  newer-IsInformed (ok snap) s informed = elim (Bool-cases (leb_ℤ s.cur.version snap.version)) [
    | inl is_newer ↦ rw is_newer (apply-IsInformed snap s informed)
    | inr older ↦ rw older informed
  ]
  newer-IsInformed failed s informed = informed
  newer-IsInformed panics s informed = informed

  poll-IsInformed :
      (json : Json) (ver : Option ℤ) (got : Option Bytes) (s : Store)
      → IsInformed s
      → IsInformed (poll parse_duration json ver got s)
  unfolding poll
  poll-IsInformed json none got s informed = informed
  poll-IsInformed json (some ver) got s informed = elim (Bool-cases (ltb_ℤ s.cur.version ver)) [
    | inl is_newer ↦
        rw is_newer
          (applied-IsInformed (load_from_redis json got) (record s { degraded = false }) informed)
    | inr older ↦ rw older informed
  ]

  from_sot-IsInformed :
      (json : Json) (got : Option Bytes) (s : Store) (o : Fallible (Snapshot × Store))
      → LoadInformed o
      → IsInformed s
      → IsInformed (from_sot parse_duration json got s o).0
  unfolding from_sot from_redis LoadInformed
  from_sot-IsInformed json got s (ok (snap, s')) l informed = l
  from_sot-IsInformed json got s panics l informed = informed
  from_sot-IsInformed json got s failed l informed =
      elim (load_from_redis json got) as (λ o. IsInformed (from_redis parse_duration s o).0) [
        | ok snap ↦ apply-IsInformed snap s informed
        | failed ↦ informed
        | panics ↦ informed
      ]

  after_load-IsInformed :
      (s : Store) (o : Fallible (Snapshot × Store))
      → LoadInformed o
      → IsInformed s
      → IsInformed (after_load s o)
  unfolding after_load LoadInformed
  after_load-IsInformed s (ok (snap, s')) l informed = l
  after_load-IsInformed s failed l informed = informed
  after_load-IsInformed s panics l informed = informed

  step-IsInformed :
      (json : Json) (x : Step) (s : Store)
      → IsInformed s
      → IsInformed (step parse_duration json x s)
  unfolding step set_policy_base bootstrap
  step-IsInformed json (sets_base p) s informed =
      refresh_policy-IsInformed s.overrides (record s { base = base_or_default p }) informed
  step-IsInformed json (listens fn) s informed = on_policy_change-IsInformed fn s informed
  step-IsInformed json (loads a) s informed =
      after_load-IsInformed s (load_from_db parse_duration json a s)
        (load_from_db-LoadInformed json a s informed) informed
  step-IsInformed json (bootstraps a got) s informed =
      from_sot-IsInformed json got s (load_from_db parse_duration json a s)
        (load_from_db-LoadInformed json a s informed) informed
  step-IsInformed json (invalidated got) s informed =
      newer-IsInformed (load_from_redis json got) s informed
  step-IsInformed json (polls ver got) s informed = poll-IsInformed json ver got s informed

  run-IsInformed :
      (json : Json) (xs : List Step) (s : Store)
      → IsInformed s
      → IsInformed (run parse_duration json xs s)
  unfolding run
  run-IsInformed json [] s informed = informed
  run-IsInformed json (x ∷ xs) s informed =
      run-IsInformed json xs (step parse_duration json x s) (step-IsInformed json x s informed)

  -- After any steps from a store whose listeners were last called with the policy in effect, the last call
  -- of every listener, the ones that registered on the way included, was with the policy that is then in
  -- effect.
  pub run-heard :
      (json : Json) (xs : List Step) (s : Store)
      → AllHeard s
      → AllHeard (run parse_duration json xs s)
  run-heard json xs s heard =
      let s' = run parse_duration json xs s in
      All-of_listeners (λ l. last_heard l s'.heard ≡ some s'.eff) s'.listeners
        (run-IsInformed json xs s
          (All-listener (λ l. last_heard l s.heard ≡ some s.eff) s.listeners heard))
