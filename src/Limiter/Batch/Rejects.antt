-- ===== src/Limiter/Batch/Rejects.antt =====
-- The first phase of batch_check.lua changes no quota.
use unirate.Prelude.{
  ℕ, ◌+◌, ◌-◌, ◌≡◌, ◌≢◌, Bool, false, Option, none, some, List, [], ◌∷◌, All, get_elem?, refl,
  arith, Bool-cases, inl, inr, ◌∙◌,
}
use unirate.Prelude.Text.{Bytes, ◌==◌}
use unirate.Prelude.Int.{ℤ, pos, ◌-ℤ◌, ltb_ℤ}
use unirate.Prelude.Maps.{lookup, lookup-sweep}
use unirate.Limiter.Check.Prepare.{LuaRule, LuaType, fixed, sliding, tb, conc, tkadmit}
use unirate.Limiter.Batch.{
  Numbers, Store, Verdict, refuses, passes, breaks, Outcome, refused_by, planned, broken, now_ms,
  check_typed, check_keyed, check_conc, with_plan, phase_one, go_on, answer, batch_check,
}
use unirate.Limiter.Batch.Laws.{View, StoreLaws, out_of_date}

-- A score that the sweep of a rule removes.
abbrev swept_by : LuaType → ℤ → ℤ → ℤ → Bool
swept_by sliding window now score = out_of_date (now -ℤ window) score
swept_by conc window now score = out_of_date now score
swept_by fixed window now score = false
swept_by tb window now score = false
swept_by tkadmit window now score = false

abbrev pub expired : {F : Type 0} → ℤ → ℤ → LuaRule F → Bool
expired now score r = swept_by r.t r.window now score

-- The number and the bucket are the same, no member is new, and every member that is still live for
-- all of the rules is there with its score.
pub record Kept (F : Type 0) (rules : List (LuaRule F)) (now : ℤ) (before after : View F)
    : Type 0 where
  pub same_value : after.value ≡ before.value
  pub same_bucket : after.bucket ≡ before.bucket
  pub none_new :
      (m : Bytes) (s : ℤ) → lookup m after.members ≡ some s → lookup m before.members ≡ some s
  pub live_stay :
      (m : Bytes) (s : ℤ)
      → lookup m before.members ≡ some s
      → All (λ r. expired now s r ≡ false) rules
      → lookup m after.members ≡ some s

module _ (num : Numbers) (st : Store num.F) (laws : StoreLaws num.F st) where
  open laws use {view, members_map, view-zremrangebyscore}

  -- A sweep by the rule `r`, at the key `key`.
  sweep-Kept :
      (d : st.Db) (key : Bytes) (max now : ℤ) (r : LuaRule num.F) (rs : List (LuaRule num.F))
      (j : Bytes)
      → ((s : ℤ) → expired now s r ≡ out_of_date max s)
      → Kept num.F (r ∷ rs) now (view d j) (view (st.zremrangebyscore d key max) j)
  sweep-Kept d key max now r rs j same = elim (Bool-cases (key == j)) [
    | inl e ↦
        rw (view-zremrangebyscore, e)
          (record {
            same_value = refl;
            same_bucket = refl;
            none_new = λ m s h.
                ground
                  (arith, lookup-sweep (out_of_date max) m (view d j).members (members_map d j));
            live_stay = λ m s h live. ground (
              arith,
              same s,
              lookup-sweep (out_of_date max) m (view d j).members (members_map d j),
            );
          })
    | inr e ↦
        rw (view-zremrangebyscore, e)
          (record {
            same_value = refl;
            same_bucket = refl;
            none_new = λ m s h. h;
            live_stay = λ m s h live. h;
          })
  ]

  same-Kept :
      (d : st.Db) (rs : List (LuaRule num.F)) (now : ℤ) (j : Bytes)
      → Kept num.F rs now (view d j) (view d j)
  same-Kept d rs now j = record {
    same_value = refl;
    same_bucket = refl;
    none_new = λ m s h. h;
    live_stay = λ m s h live. h;
  }

  check_typed-Kept :
      (t : LuaType) (d : st.Db) (now : ℤ) (r : LuaRule num.F) (rs : List (LuaRule num.F))
      (key j : Bytes)
      → r.t ≡ t
      → Kept num.F (r ∷ rs) now (view d j) (view (check_typed num st t d now r key).0 j)
  unfolding check_typed
  check_typed-Kept fixed d now r rs key j e = same-Kept d (r ∷ rs) now j
  check_typed-Kept tb d now r rs key j e = same-Kept d (r ∷ rs) now j
  check_typed-Kept tkadmit d now r rs key j e = same-Kept d (r ∷ rs) now j
  check_typed-Kept sliding d now r rs key j e =
      sweep-Kept d key (now -ℤ r.window) now r rs j (λ s. rw e refl)
  check_typed-Kept conc d now r rs key j e = sweep-Kept d key now now r rs j (λ s. rw e refl)

  pub check_keyed-Kept :
      (d : st.Db) (now : ℤ) (r : LuaRule num.F) (rs : List (LuaRule num.F)) (key : Option Bytes)
      (j : Bytes)
      → Kept num.F (r ∷ rs) now (view d j) (view (check_keyed num st d now r key).0 j)
  unfolding check_keyed
  check_keyed-Kept d now r rs none j = same-Kept d (r ∷ rs) now j
  check_keyed-Kept d now r rs (some key) j = check_typed-Kept r.t d now r rs key j refl

trans-Kept :
    {F : Type 0} (r : LuaRule F) (rs : List (LuaRule F)) (now : ℤ) (a b c : View F)
    → Kept F (r ∷ rs) now a b
    → Kept F rs now b c
    → Kept F (r ∷ rs) now a c
trans-Kept r rs now a b c ab bc = record {
  same_value = bc.same_value ∙ ab.same_value;
  same_bucket = bc.same_bucket ∙ ab.same_bucket;
  none_new = λ m s h. ab.none_new m s (bc.none_new m s h);
  live_stay = λ m s h (here, rest). bc.live_stay m s (ab.live_stay m s h (here, rest)) rest;
}

same_reply : {a b : List ℤ} → ◌≡◌ {A = Option (List ℤ)} (some a) (some b) → b ≡ a
same_reply e = cc

module _ (num : Numbers) (st : Store num.F) (laws : StoreLaws num.F st) where
  open laws use {view}

  pub go_on_cases :
      (P : st.Db → Type 0) (i : ℕ) (d : st.Db) (v : Verdict num.F) (rest : st.Db × Outcome num st)
      → P d
      → P rest.0
      → P (go_on num st i d v rest).0
  unfolding go_on
  go_on_cases P i d (refuses wait) rest here later = here
  go_on_cases P i d (passes p) (after, out) here later = later
  go_on_cases P i d breaks rest here later = here

  pub phase_one-Kept :
      (rs : List (LuaRule num.F)) (i : ℕ) (d : st.Db) (now : ℤ) (keys : List Bytes) (j : Bytes)
      → Kept num.F rs now (view d j) (view (phase_one num st i d now keys rs).0 j)
  unfolding phase_one
  phase_one-Kept [] i d now keys j = same-Kept num st laws d [] now j
  phase_one-Kept (r ∷ rs) i d now keys j =
      let key = get_elem? keys (r.k - 1) in
      let (d', verdict) = check_keyed num st d now r key in
      let kept = check_keyed-Kept num st laws d now r rs key j in
      go_on_cases (λ db. Kept num.F (r ∷ rs) now (view d j) (view db j)) i d' verdict
        (phase_one num st (i + 1) d' now keys rs) kept
        (trans-Kept r rs now (view d j) (view d' j) _ kept
          (phase_one-Kept rs (i + 1) d' now keys j))

  -- A refusal changes no quota: when the script gives a reply that is not ok, then at every key the number
  -- and the bucket are what they were, no member is new, and every member that is live for all the rules
  -- is still there with its score. A run that ends with an error gives no reply, and nothing is said of it.
  pub batch_check-rejected :
      (d : st.Db) (keys : List Bytes) (rs : List (LuaRule num.F)) (id j : Bytes) (reply : List ℤ)
      → (batch_check num st d keys rs id).0 ≡ some reply
      → reply ≢ pos 1 ∷ pos 0 ∷ pos 0 ∷ []
      → Kept num.F rs (now_ms num st d) (view d j) (view (batch_check num st d keys rs id).1 j)
  unfolding batch_check answer
  batch_check-rejected d keys rs id j reply =
      answer_rejected (phase_one num st 1 d (now_ms num st d) keys rs)
        (phase_one-Kept rs 1 d (now_ms num st d) keys j)
    where
      answer_rejected :
          (out : st.Db × Outcome num st)
          → Kept num.F rs (now_ms num st d) (view d j) (view out.0 j)
          → (answer num st (now_ms num st d) id out).0 ≡ some reply
          → reply ≢ pos 1 ∷ pos 0 ∷ pos 0 ∷ []
          → Kept num.F rs
              (now_ms num st d)
              (view d j)
              (view (answer num st (now_ms num st d) id out).1 j)
      answer_rejected (d', refused_by i wait) kept replied refused = kept
      answer_rejected (d', planned ps) kept replied refused = absurd (refused (same_reply replied))
      answer_rejected (d', broken) kept replied refused = kept

  -- A run for one concurrency rule gives a reply.
  pub batch_check-replies :
      (d : st.Db) (key id : Bytes) (r : LuaRule num.F)
      → r.k ≡ 1
      → r.t ≡ conc
      → (batch_check num st d (key ∷ []) (r ∷ []) id).0 ≢ none
  unfolding batch_check phase_one check_keyed check_typed check_conc go_on with_plan answer
  batch_check-replies d key id r first slots =
      let swept = st.zremrangebyscore d key (now_ms num st d) in
      elim (Bool-cases (ltb_ℤ r.limit (pos (st.zcard swept key + 1)))) [
        | inl full ↦ rw (first, slots, full) (λ e. cc)
        | inr free ↦ rw (first, slots, free) (λ e. cc)
      ]
