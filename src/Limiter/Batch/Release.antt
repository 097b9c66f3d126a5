-- ===== src/Limiter/Batch/Release.antt =====
-- release_conc.lua gives back what batch_check.lua took.
use unirate.Prelude.{
  ℕ, ◌≡◌, Bool, true, false, ◌||◌, if◌then◌else◌, Option, none, some, List, [], ◌∷◌, All, refl,
  arith, Bool-cases, inl, inr, ◌∙◌, sym, ap,
}
use unirate.Prelude.Text.{Bytes, ◌==◌, eq_iff, ==_refl}
use unirate.Prelude.Int.{ℤ}
use unirate.Prelude.Maps.{Map, lookup, lookup-insert, lookup-remove}
use unirate.Limiter.Check.Prepare.{LuaRule}
use unirate.Limiter.Batch.{
  Numbers, Store, Plan, now_ms, commit, phase_one, phase_two, batch_check, release_conc,
}
use unirate.Limiter.Batch.Laws.{StoreLaws}
use unirate.Limiter.Batch.Passes.{batch_check_cases}
use unirate.Limiter.Batch.Rejects.{expired, phase_one-Kept}
use unirate.Limiter.Batch.Slots.{Fits, Holds, commit-Holds, MayJoin}
use unirate.Limiter.Batch.Slots.History.{plans-AllPass}

abbrev pub among : Bytes → List Bytes → Bool
among j [] = false
among j (k ∷ ks) = k == j || among j ks

clash : (s : ℤ) → ◌≡◌ {A = Option ℤ} none (some s) → ⊥
clash s e = cc

module _ (num : Numbers) (st : Store num.F) (laws : StoreLaws num.F st) where
  open laws use {view, view-zrem, zrem_value}

  abbrev score : st.Db → Bytes → Bytes → Option ℤ
  score d j m = lookup m (view d j).members

  -- Other requests keep their slots while one commits.
  MayJoin-other :
      (before after : Map ℤ) (id m : Bytes)
      → (id == m) ≡ false
      → MayJoin num st laws before after id
      → lookup m after ≡ lookup m before
  MayJoin-other before after id m ne (inl e) = ap (lookup m) e
  MayJoin-other before after id m ne (inr (deadline, e)) =
      ap (lookup m) e ∙ lookup-insert id m deadline before ∙ (rw ne refl)

  phase_two-other :
      (ps : List (Plan num.F)) (d : st.Db) (now : ℤ) (id j m : Bytes)
      → (id == m) ≡ false
      → All (Holds j) ps
      → score (phase_two num st d now id ps) j m ≡ score d j m
  unfolding phase_two
  phase_two-other [] d now id j m ne all = refl
  phase_two-other (p ∷ ps) d now id j m ne (here, rest) =
      let next = commit num st d now id p in
      phase_two-other ps next now id j m ne rest
      ∙ MayJoin-other (view d j).members (view next j).members id m ne
          (commit-Holds num st laws d now id p j here)

  score-zrem :
      (d : st.Db) (key id j m : Bytes)
      → score (st.zrem d key id).1 j m
        ≡ (if key == j then (if id == m then none else score d j m) else score d j m)
  score-zrem d key id j m = elim (Bool-cases (key == j)) [
    | inl e ↦ rw (view-zrem, e) (lookup-remove id m (view d j).members)
    | inr e ↦ rw (view-zrem, e) refl
  ]

  -- The slots after a release: the request's own are gone at the keys given, and nothing else is.
  pub score-release_conc :
      (keys : List Bytes) (d : st.Db) (id j m : Bytes)
      → score (release_conc num st d keys id).1 j m
        ≡ (if among j keys then (if id == m then none else score d j m) else score d j m)
  unfolding release_conc
  score-release_conc [] d id j m = refl
  score-release_conc (key ∷ keys) d id j m =
      ground (arith, score-release_conc keys (st.zrem d key id).1 id j m, score-zrem d key id j m)

  -- What a request took, its release gives back: after batch_check.lua, whatever it answers, and then
  -- release_conc.lua with the same request and with keys among which is `j`, the slots of `j` are those
  -- from before, less the ones that have expired for one of the rules, if the request had none there
  -- and the rules that use `j` are concurrency rules.
  pub release_conc-batch_check :
      (d : st.Db) (keys taken : List Bytes) (rs : List (LuaRule num.F)) (id j : Bytes) (limit : ℕ)
      → All (Fits keys j limit) rs
      → among j taken ≡ true
      → score d j id ≡ none
      → let e = (release_conc num st (batch_check num st d keys rs id).1 taken id).1 in
        ((m : Bytes) (s : ℤ) → score e j m ≡ some s → score d j m ≡ some s)
        × ((m : Bytes) (s : ℤ)
            → score d j m ≡ some s
            → All (λ r. expired (now_ms num st d) s r ≡ false) rs
            → score e j m ≡ some s)
  release_conc-batch_check d keys taken rs id j limit fits own fresh =
      let kept = phase_one-Kept num st laws rs 1 d (now_ms num st d) keys j in
      (
        λ m s h. elim (Bool-cases (id == m)) [
          | inl same ↦ absurd (clash s (sym own_gone ∙ ap (score e j) ((eq_iff id m).0 same) ∙ h))
          | inr ne ↦ kept.none_new m s (sym (others_same m ne) ∙ h)
        ],
        λ m s h live. elim (Bool-cases (id == m)) [
          | inl same ↦ absurd (clash s (sym fresh ∙ ap (score d j) ((eq_iff id m).0 same) ∙ h))
          | inr ne ↦ others_same m ne ∙ kept.live_stay m s h live
        ],
      )
    where
      e : st.Db
      e = (release_conc num st (batch_check num st d keys rs id).1 taken id).1

      swept : st.Db
      swept = (phase_one num st 1 d (now_ms num st d) keys rs).0

      own_gone : score e j id ≡ none
      own_gone =
          score-release_conc taken (batch_check num st d keys rs id).1 id j id
          ∙ rw (own, ==_refl id) refl

      others_same : (m : Bytes) → (id == m) ≡ false → score e j m ≡ score swept j m
      others_same m ne =
          score-release_conc taken (batch_check num st d keys rs id).1 id j m
          ∙ rw (own, ne)
              (batch_check_cases num st (λ db. score db j m ≡ score swept j m) d keys rs id refl
                (λ d' ps from all.
                  phase_two-other ps d' (now_ms num st d) id j m ne
                    (plans-AllPass num st laws rs ps d d' (now_ms num st d) keys j limit all fits).0
                  ∙ ap (λ db. score db j m) from))
