-- ===== src/Limiter/Batch/Passes.antt =====
-- What it means that every rule passed the first phase of batch_check.lua.
use unirate.Prelude.{ℕ, ◌+◌, ◌-◌, ◌≡◌, Option, some, List, [], ◌∷◌, get_elem?, refl, arith}
use unirate.Prelude.Text.{Bytes}
use unirate.Prelude.Int.{ℤ, pos}
use unirate.Limiter.Check.Prepare.{LuaRule}
use unirate.Limiter.Batch.{
  Numbers, Store, Plan, Verdict, refuses, passes, breaks, Outcome, refused_by, planned, broken,
  now_ms, check_keyed, phase_one, phase_two, go_on, with_plan, answer, batch_check,
}

-- The key of a rule: KEYS[r.k].
abbrev pub key_of : {F : Type 0} → List Bytes → LuaRule F → Option Bytes
key_of keys r = get_elem? keys (r.k - 1)

module _ (num : Numbers) (st : Store num.F) where
  -- The rules pass one after the other, each on the store that the one before has swept, with these
  -- plans, and leave this store.
  abbrev pub AllPass :
      st.Db → ℤ → List Bytes → List (LuaRule num.F) → st.Db → List (Plan num.F) → Type 0
  AllPass d now keys [] d' [] = d' ≡ d
  AllPass d now keys [] d' (p ∷ ps) = ⊥
  AllPass d now keys (r ∷ rs) d' [] = ⊥
  AllPass d now keys (r ∷ rs) d' (p ∷ ps) =
      ((check_keyed num st d now r (key_of keys r)).1 ≡ passes p)
      × AllPass (check_keyed num st d now r (key_of keys r)).0 now keys rs d' ps

  -- What `go_on` needs to answer with plans.
  go_on-planned :
      (i : ℕ) (d : st.Db) (v : Verdict num.F) (rest : st.Db × Outcome num st)
      (ps : List (Plan num.F))
      → (go_on num st i d v rest).1 ≡ planned ps
      → (p : Plan num.F) × (qs : List (Plan num.F)) × (v ≡ passes p)
        × (rest.1 ≡ planned qs)
        × (ps ≡ p ∷ qs)
        × ((go_on num st i d v rest).0 ≡ rest.0)
  unfolding go_on with_plan
  go_on-planned i d (refuses wait) rest ps e = cc
  go_on-planned i d (passes p) (after, refused_by k wait) ps e = cc
  go_on-planned i d (passes p) (after, planned qs) ps e = (p, qs, refl, refl, cc, refl)
  go_on-planned i d (passes p) (after, broken) ps e = cc
  go_on-planned i d breaks rest ps e = cc

  phase_one-planned :
      (rs : List (LuaRule num.F)) (i : ℕ) (d : st.Db) (now : ℤ) (keys : List Bytes)
      (ps : List (Plan num.F))
      → (phase_one num st i d now keys rs).1 ≡ planned ps
      → AllPass d now keys rs (phase_one num st i d now keys rs).0 ps
  unfolding phase_one
  phase_one-planned [] i d now keys [] e = refl
  phase_one-planned [] i d now keys (p ∷ ps) e = cc
  phase_one-planned (r ∷ rs) i d now keys ps e =
      let (d', verdict) = check_keyed num st d now r (key_of keys r) in
      let rest = phase_one num st (i + 1) d' now keys rs in
      let (p, qs, passed, planned_rest, ps_eq, db_eq) = go_on-planned i d' verdict rest ps e in
      rw (ps_eq, db_eq) (passed, phase_one-planned rs (i + 1) d' now keys qs planned_rest)

  -- An ok reply: every rule passed, and the store is the one that the second phase leaves.
  pub batch_check-ok :
      (d : st.Db) (keys : List Bytes) (rs : List (LuaRule num.F)) (id : Bytes)
      → (batch_check num st d keys rs id).0 ≡ some (pos 1 ∷ pos 0 ∷ pos 0 ∷ [])
      → (d' : st.Db) × (ps : List (Plan num.F)) × AllPass d (now_ms num st d) keys rs d' ps
        × ((batch_check num st d keys rs id).1 ≡ phase_two num st d' (now_ms num st d) id ps)
  unfolding batch_check answer
  batch_check-ok d keys rs id =
      from_answer (phase_one num st 1 d (now_ms num st d) keys rs)
        (phase_one-planned rs 1 d (now_ms num st d) keys)
    where
      from_answer :
          (out : st.Db × Outcome num st)
          → ((ps : List (Plan num.F))
              → out.1 ≡ planned ps
              → AllPass d (now_ms num st d) keys rs out.0 ps)
          → (answer num st (now_ms num st d) id out).0 ≡ some (pos 1 ∷ pos 0 ∷ pos 0 ∷ [])
          → (d' : st.Db) × (ps : List (Plan num.F)) × AllPass d (now_ms num st d) keys rs d' ps
            × ((answer num st (now_ms num st d) id out).1
                ≡ phase_two num st d' (now_ms num st d) id ps)
      from_answer (d', refused_by i wait) all e = absurd (ground arith)
      from_answer (d', planned ps) all e = (d', ps, all ps refl, refl)
      from_answer (d', broken) all e = cc

  -- A property of the store after the script, by the way the first phase ended.
  pub batch_check_cases :
      (P : st.Db → Type 0) (d : st.Db) (keys : List Bytes) (rs : List (LuaRule num.F)) (id : Bytes)
      → P (phase_one num st 1 d (now_ms num st d) keys rs).0
      → ((d' : st.Db) (ps : List (Plan num.F))
          → d' ≡ (phase_one num st 1 d (now_ms num st d) keys rs).0
          → AllPass d (now_ms num st d) keys rs d' ps
          → P (phase_two num st d' (now_ms num st d) id ps))
      → P (batch_check num st d keys rs id).1
  unfolding batch_check answer
  batch_check_cases P d keys rs id stays =
      from_answer (phase_one num st 1 d (now_ms num st d) keys rs)
        (phase_one-planned rs 1 d (now_ms num st d) keys) stays
    where
      from_answer :
          (out : st.Db × Outcome num st)
          → ((ps : List (Plan num.F))
              → out.1 ≡ planned ps
              → AllPass d (now_ms num st d) keys rs out.0 ps)
          → P out.0
          → ((d' : st.Db) (ps : List (Plan num.F))
              → d' ≡ out.0
              → AllPass d (now_ms num st d) keys rs d' ps
              → P (phase_two num st d' (now_ms num st d) id ps))
          → P (answer num st (now_ms num st d) id out).1
      from_answer (d', refused_by i wait) all here commits = here
      from_answer (d', planned ps) all here commits = commits d' ps refl (all ps refl)
      from_answer (d', broken) all here commits = here
