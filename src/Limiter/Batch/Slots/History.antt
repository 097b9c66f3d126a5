-- ===== src/Limiter/Batch/Slots/History.antt =====
-- However requests come and go, a concurrency key has no more holders than its limit.
use unirate.Prelude.{
  ℕ, ◌+◌, ◌≤◌, ◌<◌, ◌≡◌, ◌⊎◌, false, Option, none, some, List, [], ◌∷◌, All, arith, Bool-cases, inl,
  inr, ap, subst,
}
use unirate.Prelude.Text.{Bytes, ◌==◌, eq_iff}
use unirate.Prelude.Int.{ℤ, pos, ◌≤ℤ◌}
use unirate.Prelude.Maps.{lookup, length-remove, count_of}
use unirate.Limiter.Check.Prepare.{LuaRule, LuaType, fixed, sliding, tb, conc, tkadmit}
use unirate.Limiter.Batch.{
  Numbers, Store, Plan, fixed_plan, sliding_plan, tb_plan, conc_plan, noop, passes, check_keyed,
  check_typed, check_fixed, check_sliding, check_bucket, check_conc, check_tkadmit, now_ms,
  phase_one, phase_two, batch_check, release_conc,
}
use unirate.Limiter.Batch.Laws.{StoreLaws}
use unirate.Limiter.Batch.Passes.{key_of, AllPass, batch_check_cases}
use unirate.Limiter.Batch.Rejects.{go_on_cases}
use unirate.Limiter.Batch.Slots.{
  Fits, Leaves, Holds, holders, holders-check_keyed, phase_two-Holds, phase_two-Leaves,
}

below_limit : (n : ℕ) (l : ℤ) (limit : ℕ) → pos (n + 1) ≤ℤ l → l ≤ℤ pos limit → n < limit
below_limit n l limit a b = omega arith

count_le : (o : Option ℤ) → count_of o ≤ 1
count_le o = ground arith

module _ (num : Numbers) (st : Store num.F) (laws : StoreLaws num.F st) where
  open laws use {view, zcard_value, view-zrem}

  abbrev pub size : st.Db → Bytes → ℕ
  size d j = holders num st laws d j

  bucket_plan :
      (d : st.Db) (now : ℤ) (r : LuaRule num.F) (key j : Bytes) (o : Option num.F) (p : Plan num.F)
      → check_bucket num st d now r key o ≡ passes p
      → Leaves j p
  unfolding check_bucket
  bucket_plan d now r key j none p e = cc
  bucket_plan d now r key j (some rate) p e = ground arith

  -- What the plan of a passing rule does at a key: of another rule nothing; of a concurrency rule it
  -- holds, and the swept members left room.
  typed_plan :
      (t : LuaType) (d : st.Db) (now : ℤ) (r : LuaRule num.F) (key j : Bytes) (p : Plan num.F)
      → (check_typed num st t d now r key).1 ≡ passes p
      → ((key == j) ≡ false → Leaves j p)
        × (t ≡ conc
            → Holds j p × (pos (size (check_typed num st t d now r key).0 key + 1) ≤ℤ r.limit))
  unfolding check_typed check_fixed check_sliding check_conc check_tkadmit
  typed_plan fixed d now r key j p e = (λ other. ground (arith, other), λ t. cc)
  typed_plan sliding d now r key j p e = (λ other. ground (arith, other), λ t. cc)
  typed_plan tb d now r key j p e = (λ other. bucket_plan d now r key j r.rate p e, λ t. cc)
  typed_plan conc d now r key j p e = (
    λ other. ground (arith, other),
    λ t. (ground arith, ground (arith, zcard_value (st.zremrangebyscore d key now) key)),
  )
  typed_plan tkadmit d now r key j p e = (λ other. ground (arith, other), λ t. cc)

  keyed_plan :
      (d : st.Db) (now : ℤ) (r : LuaRule num.F) (o : Option Bytes) (j : Bytes) (limit : ℕ)
      (p : Plan num.F)
      → (check_keyed num st d now r o).1 ≡ passes p
      → (o ≡ some j → (r.t ≡ conc) × (r.limit ≤ℤ pos limit))
      → Leaves j p ⊎ (Holds j p × (size (check_keyed num st d now r o).0 j < limit))
  unfolding check_keyed
  keyed_plan d now r none j limit p e fits = cc
  keyed_plan d now r (some key) j limit p e fits =
      let (other, same) = typed_plan r.t d now r key j p e in
      elim (Bool-cases (key == j)) [
        | inr differs ↦ inl (other differs)
        | inl equal ↦
            let key_eq = (eq_iff key j).0 equal in
            let (is_conc, within) = fits (ap some key_eq) in
            let (holds, room) = same is_conc in
            inr (
              holds,
              below_limit _ r.limit limit
                  (subst (λ k. pos (size (check_typed num st r.t d now r key).0 k + 1) ≤ℤ r.limit)
                    key_eq room)
                  within,
            )
      ]

  size-AllPass :
      (rs : List (LuaRule num.F)) (ps : List (Plan num.F)) (d d' : st.Db) (now : ℤ)
      (keys : List Bytes) (j : Bytes)
      → AllPass num st d now keys rs d' ps
      → size d' j ≤ size d j
  size-AllPass [] [] d d' now keys j e = omega (arith, ap (λ db. size db j) e)
  size-AllPass [] (p ∷ ps) d d' now keys j e = absurd e
  size-AllPass (r ∷ rs) [] d d' now keys j e = absurd e
  size-AllPass (r ∷ rs) (p ∷ ps) d d' now keys j (passed, later) =
      let key = key_of keys r in
      omega (
        arith,
        holders-check_keyed num st laws d now r key j,
        size-AllPass rs ps (check_keyed num st d now r key).0 d' now keys j later,
      )

  Leaves-Holds : (j : Bytes) (p : Plan num.F) → Leaves j p → Holds j p
  Leaves-Holds j (fixed_plan key cost time_left fresh) h = tt
  Leaves-Holds j (sliding_plan key cost window) h = h
  Leaves-Holds j (tb_plan key tokens last rate burst) h = tt
  Leaves-Holds j (conc_plan key deadline ttl) h = tt
  Leaves-Holds j noop h = tt

  -- Together: no plan adds a member, or each at most the request, and there is room for it.
  pub plans-AllPass :
      (rs : List (LuaRule num.F)) (ps : List (Plan num.F)) (d d' : st.Db) (now : ℤ)
      (keys : List Bytes) (j : Bytes) (limit : ℕ)
      → AllPass num st d now keys rs d' ps
      → All (Fits keys j limit) rs
      → All (Holds j) ps × (All (Leaves j) ps ⊎ (size d' j < limit))
  plans-AllPass [] [] d d' now keys j limit e fits = (tt, inl tt)
  plans-AllPass [] (p ∷ ps) d d' now keys j limit e fits = absurd e
  plans-AllPass (r ∷ rs) [] d d' now keys j limit e fits = absurd e
  plans-AllPass (r ∷ rs) (p ∷ ps) d d' now keys j limit (passed, later) (fit, fits) =
      let next = (check_keyed num st d now r (key_of keys r)).0 in
      let (holds, rest) = plans-AllPass rs ps next d' now keys j limit later fits in
      elim (keyed_plan d now r (key_of keys r) j limit p passed fit) [
        | inr (here, room) ↦
            ((here, holds), inr (omega (arith, room, size-AllPass rs ps next d' now keys j later)))
        | inl leaves ↦ (
          (Leaves-Holds j p leaves, holds),
          elim rest [ inl all ↦ inl (leaves, all) | inr room ↦ inr room ],
        )
      ]

  size-phase_one :
      (rs : List (LuaRule num.F)) (i : ℕ) (d : st.Db) (now : ℤ) (keys : List Bytes) (j : Bytes)
      → size (phase_one num st i d now keys rs).0 j ≤ size d j
  unfolding phase_one
  size-phase_one [] i d now keys j = omega arith
  size-phase_one (r ∷ rs) i d now keys j =
      let key = key_of keys r in
      let (d', verdict) = check_keyed num st d now r key in
      let step = holders-check_keyed num st laws d now r key j in
      go_on_cases num st laws (λ db. size db j ≤ size d j) i d' verdict
        (phase_one num st (i + 1) d' now keys rs) step
        (omega (arith, step, size-phase_one rs (i + 1) d' now keys j))

  -- One run of the script.
  size-batch_check :
      (d : st.Db) (keys : List Bytes) (rs : List (LuaRule num.F)) (id j : Bytes) (limit : ℕ)
      → All (Fits keys j limit) rs
      → size d j ≤ limit
      → size (batch_check num st d keys rs id).1 j ≤ limit
  size-batch_check d keys rs id j limit fits le =
      batch_check_cases num st (λ db. size db j ≤ limit) d keys rs id
        (omega (arith, le, size-phase_one rs 1 d (now_ms num st d) keys j))
        (λ d' ps swept all.
          let (holds, rest) = plans-AllPass rs ps d d' (now_ms num st d) keys j limit all fits in
          elim rest [
            | inl leaves ↦ omega (
              arith,
              le,
              size-AllPass rs ps d d' (now_ms num st d) keys j all,
              phase_two-Leaves num st laws ps d' (now_ms num st d) id j leaves,
            )
            | inr room ↦ omega (
              arith,
              room,
              phase_two-Holds num st laws ps d' (now_ms num st d) id j holds,
              count_le (lookup id (view (phase_two num st d' (now_ms num st d) id ps) j).members),
            )
          ])

  size-zrem : (d : st.Db) (key m j : Bytes) → size (st.zrem d key m).1 j ≤ size d j
  size-zrem d key m j = elim (Bool-cases (key == j)) [
    | inl e ↦ rw (view-zrem, e) (length-remove m (view d j).members)
    | inr e ↦ rw (view-zrem, e) (omega arith)
  ]

  size-release_conc :
      (keys : List Bytes) (d : st.Db) (id j : Bytes)
      → size (release_conc num st d keys id).1 j ≤ size d j
  unfolding release_conc
  size-release_conc [] d id j = omega arith
  size-release_conc (key ∷ keys) d id j =
      omega (arith, size-release_conc keys (st.zrem d key id).1 id j, size-zrem d key id j)

  -- What can happen to the key: the scripts, for any requests whose rules fit, and whatever adds no
  -- holder, such as time that passes and keys that expire.
  pub data Moves (j : Bytes) (limit : ℕ) : st.Db → st.Db → Type 0 where
    checks :
        {d : st.Db} (keys : List Bytes) (rs : List (LuaRule num.F)) (id : Bytes)
        → All (Fits keys j limit) rs
        → Moves j limit d (batch_check num st d keys rs id).1
    releases :
        {d : st.Db} (keys : List Bytes) (id : Bytes)
        → Moves j limit d (release_conc num st d keys id).1
    elsewhere :
        {d d' : st.Db} → holders num st laws d' j ≤ holders num st laws d j → Moves j limit d d'

  pub data History (j : Bytes) (limit : ℕ) (d : st.Db) : st.Db → Type 0 where
    start : History j limit d d
    later : {e f : st.Db} → History j limit d e → Moves j limit e f → History j limit d f

  size-Moves :
      {d e : st.Db} (j : Bytes) (limit : ℕ)
      → Moves j limit d e
      → size d j ≤ limit
      → size e j ≤ limit
  size-Moves {d} j limit (checks keys rs id fits) le = size-batch_check d keys rs id j limit fits le
  size-Moves {d} j limit (releases keys id) le = omega (arith, le, size-release_conc keys d id j)
  size-Moves j limit (elsewhere shrinks) le = omega (arith, shrinks, le)

  -- No interleaving of requests oversells a concurrency limit: from a store in which the key has at most
  -- `limit` holders, after any history of checks, of releases and of steps that add no holder, it has
  -- at most `limit`, where the rules that use the key are concurrency rules with at most this limit.
  pub holders-History :
      (j : Bytes) (limit : ℕ) {d e : st.Db}
      → History j limit d e
      → holders num st laws d j ≤ limit
      → holders num st laws e j ≤ limit
  holders-History j limit start le = le
  holders-History j limit (later past move) le =
      size-Moves j limit move (holders-History j limit past le)
