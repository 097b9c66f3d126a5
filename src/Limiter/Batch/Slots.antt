-- ===== src/Limiter/Batch/Slots.antt =====
-- The holders of a concurrency key under batch_check.lua and release_conc.lua.
pub mod History
use unirate.Prelude.{
  ℕ, zero, suc, ◌-◌, ◌≤◌, ◌<◌, ◌≡◌, ◌≢◌, ◌⊎◌, Bool, true, false, if◌then◌else◌, Option, none, some,
  List, [], ◌∷◌, ◌++◌, All, refl, arith, Bool-cases, Option-cases, inl, inr, ◌∙◌, ap, sym, ◌+◌,
  length, subst,
}
use unirate.Prelude.Text.{Bytes, ◌==◌, eq_iff, ==_refl}
use unirate.Prelude.Int.{ℤ, pos, pos_part, ◌+ℤ◌, ◌-ℤ◌, ◌≤ℤ◌, leb_ℤ, ltb_ℤ, ◌<ℤ◌}
use unirate.Prelude.Maps.{
  Map, lookup, insert, lookup-insert, length-sweep, length-insert, length-remove, count_of,
}
use unirate.Limiter.Check.Prepare.{LuaRule, LuaType, fixed, sliding, tb, conc, tkadmit}
use unirate.Limiter.Batch.{
  Numbers, Store, Plan, fixed_plan, sliding_plan, tb_plan, conc_plan, noop, Verdict, passes,
  check_keyed, check_typed, check_fixed, check_sliding, check_bucket, check_conc, check_tkadmit,
  now_ms, add_members, commit, phase_one, phase_two, batch_check, release_conc,
}
use unirate.Limiter.Batch.Laws.{View, StoreLaws, out_of_date}
use unirate.Limiter.Batch.Passes.{key_of, AllPass}

-- The rules that use the key are concurrency rules with this limit at most.
abbrev pub Fits : {F : Type 0} → List Bytes → Bytes → ℕ → LuaRule F → Type 0
Fits keys j limit r = key_of keys r ≡ some j → (r.t ≡ conc) × (r.limit ≤ℤ pos limit)

-- A plan that adds no member to the key, and one that adds none but the holder.
abbrev pub Leaves : {F : Type 0} → Bytes → Plan F → Type 0
Leaves j (fixed_plan key cost time_left fresh) = Unit
Leaves j (sliding_plan key cost window) = (key == j) ≡ false
Leaves j (tb_plan key tokens last rate burst) = Unit
Leaves j (conc_plan key deadline ttl) = (key == j) ≡ false
Leaves j noop = Unit

abbrev pub Holds : {F : Type 0} → Bytes → Plan F → Type 0
Holds j (fixed_plan key cost time_left fresh) = Unit
Holds j (sliding_plan key cost window) = (key == j) ≡ false
Holds j (tb_plan key tokens last rate burst) = Unit
Holds j (conc_plan key deadline ttl) = Unit
Holds j noop = Unit

module _ (num : Numbers) (st : Store num.F) (laws : StoreLaws num.F st) where
  open laws use {
    view, zcard_value, view-incrby, view-expire, view-pexpire, view-zadd, view-hset,
    view-zremrangebyscore, view-zrem,
  }

  abbrev pub holders : st.Db → Bytes → ℕ
  holders d j = length (view d j).members

  abbrev held : st.Db → Bytes → Bytes → ℕ
  held d j id = count_of (lookup id (view d j).members)

  holders-sweep :
      (d : st.Db) (key : Bytes) (max : ℤ) (j : Bytes)
      → holders (st.zremrangebyscore d key max) j ≤ holders d j
  holders-sweep d key max j = elim (Bool-cases (key == j)) [
    | inl e ↦ rw (view-zremrangebyscore, e) (length-sweep (out_of_date max) (view d j).members)
    | inr e ↦ rw (view-zremrangebyscore, e) (omega arith)
  ]

  -- The first phase adds no member.
  holders-check_typed :
      (t : LuaType) (d : st.Db) (now : ℤ) (r : LuaRule num.F) (key j : Bytes)
      → holders (check_typed num st t d now r key).0 j ≤ holders d j
  unfolding check_typed
  holders-check_typed fixed d now r key j = omega arith
  holders-check_typed tb d now r key j = omega arith
  holders-check_typed tkadmit d now r key j = omega arith
  holders-check_typed sliding d now r key j = holders-sweep d key (now -ℤ r.window) j
  holders-check_typed conc d now r key j = holders-sweep d key now j

  holders-check_keyed :
      (d : st.Db) (now : ℤ) (r : LuaRule num.F) (o : Option Bytes) (j : Bytes)
      → holders (check_keyed num st d now r o).0 j ≤ holders d j
  unfolding check_keyed
  holders-check_keyed d now r none j = omega arith
  holders-check_keyed d now r (some key) j = holders-check_typed r.t d now r key j

  -- A plan that only holds adds the request itself, once.
  members-add_members :
      (n : ℕ) (d : st.Db) (key : Bytes) (now : ℤ) (id j : Bytes)
      → (key == j) ≡ false
      → (view (add_members num st n d key now id) j).members ≡ (view d j).members
  unfolding add_members
  members-add_members zero d key now id j e = refl
  members-add_members (suc n) d key now id j e =
      rw (view-zadd, e) (members-add_members n d key now id j e)

  commit-Leaves :
      (d : st.Db) (now : ℤ) (id : Bytes) (p : Plan num.F) (j : Bytes)
      → Leaves j p
      → (view (commit num st d now id p) j).members ≡ (view d j).members
  unfolding commit
  commit-Leaves d now id (fixed_plan key cost time_left fresh) j e = elim (Bool-cases fresh) [
    | inl f ↦ elim (Bool-cases (key == j)) [
      | inl e ↦ rw (f, view-expire, view-incrby, e) refl
      | inr e ↦ rw (f, view-expire, view-incrby, e) refl
    ]
    | inr f ↦ elim (Bool-cases (key == j)) [
      | inl e ↦ rw (f, view-incrby, e) refl
      | inr e ↦ rw (f, view-incrby, e) refl
    ]
  ]
  commit-Leaves d now id (sliding_plan key cost window) j e =
      rw view-pexpire (members-add_members (pos_part cost) d key now id j e)
  commit-Leaves d now id (tb_plan key tokens last rate burst) j e = elim (Bool-cases (key == j)) [
    | inl e ↦ rw (view-pexpire, view-hset, e) refl
    | inr e ↦ rw (view-pexpire, view-hset, e) refl
  ]
  commit-Leaves d now id (conc_plan key deadline ttl) j e = rw (view-pexpire, view-zadd, e) refl
  commit-Leaves d now id noop j e = refl

  -- The members are the same, or the request is among them now.
  abbrev pub MayJoin : Map ℤ → Map ℤ → Bytes → Type 0
  MayJoin before after id =
      (after ≡ before) ⊎ ((deadline : ℤ) × (after ≡ insert id deadline before))

  pub commit-Holds :
      (d : st.Db) (now : ℤ) (id : Bytes) (p : Plan num.F) (j : Bytes)
      → Holds j p
      → MayJoin (view d j).members (view (commit num st d now id p) j).members id
  commit-Holds d now id (conc_plan key deadline ttl) j e = elim (Bool-cases (key == j)) [
    | inl same ↦ inr (deadline, (unfold commit in rw (view-pexpire, view-zadd, same) refl))
    | inr other ↦ inl (commit-Leaves d now id (conc_plan key deadline ttl) j other)
  ]
  commit-Holds d now id (fixed_plan key cost time_left fresh) j e =
      inl (commit-Leaves d now id (fixed_plan key cost time_left fresh) j tt)
  commit-Holds d now id (sliding_plan key cost window) j e =
      inl (commit-Leaves d now id (sliding_plan key cost window) j e)
  commit-Holds d now id (tb_plan key tokens last rate burst) j e =
      inl (commit-Leaves d now id (tb_plan key tokens last rate burst) j tt)
  commit-Holds d now id noop j e = inl (commit-Leaves d now id noop j tt)

  MayJoin-size :
      (before after : Map ℤ) (id : Bytes)
      → MayJoin before after id
      → (length after + count_of (lookup id before) ≤ length before + count_of (lookup id after))
        × (count_of (lookup id before) ≤ count_of (lookup id after))
  MayJoin-size before after id (inl e) = rw e (omega arith, omega arith)
  MayJoin-size before after id (inr (deadline, e)) = rw e (
    ground
        (arith, lookup-insert id id deadline before, ==_refl id, length-insert id deadline before),
    ground (arith, lookup-insert id id deadline before, ==_refl id),
  )

  -- Over all plans the request joins at most once.
  phase_two-Holds :
      (ps : List (Plan num.F)) (d : st.Db) (now : ℤ) (id j : Bytes)
      → All (Holds j) ps
      → let d' = phase_two num st d now id ps in
        (holders d' j + held d j id ≤ holders d j + held d' j id) × (held d j id ≤ held d' j id)
  unfolding phase_two
  phase_two-Holds [] d now id j all = (omega arith, omega arith)
  phase_two-Holds (p ∷ ps) d now id j (here, rest) =
      let next = commit num st d now id p in
      let step =
        MayJoin-size (view d j).members (view next j).members id (commit-Holds d now id p j here) in
      omega (arith, step, phase_two-Holds ps next now id j rest)

  phase_two-Leaves :
      (ps : List (Plan num.F)) (d : st.Db) (now : ℤ) (id j : Bytes)
      → All (Leaves j) ps
      → holders (phase_two num st d now id ps) j ≡ holders d j
  unfolding phase_two
  phase_two-Leaves [] d now id j all = refl
  phase_two-Leaves (p ∷ ps) d now id j (here, rest) =
      phase_two-Leaves ps (commit num st d now id p) now id j rest
      ∙ ap (λ (m : Map ℤ). length m) (commit-Leaves d now id p j here)
