-- ===== src/Limiter/Batch/Repeats.antt =====
-- Requests that share a request id. internal/proxy/handler.go takes the id from the header X-Request-Id
-- when the client sends one.
use unirate.Prelude.{
  ℕ, zero, suc, ◌≡◌, ◌⊎◌, inl, inr, Bool, false, some, [], ◌∷◌, refl, arith, length, Bool-cases,
}
use unirate.Prelude.Text.{Bytes, ==_refl}
use unirate.Prelude.Int.{ℤ, pos, ◌+ℤ◌, ◌≤ℤ◌, ltb_ℤ}
use unirate.Prelude.Maps.{Map, insert, sweep}
use unirate.Limiter.Check.Prepare.{LuaRule, conc, plain_rule}
use unirate.Limiter.Batch.{
  Numbers, Store, now_ms, batch_check, phase_one, phase_two, check_keyed, check_typed, check_conc,
  go_on, with_plan, commit, answer, passes, conc_plan,
}
use unirate.Limiter.Batch.Laws.{StoreLaws, out_of_date}

-- A concurrency rule as Check writes it, at the first key.
abbrev pub slot_rule : {F : Type 0} → ℤ → ℤ → LuaRule F
slot_rule {F} limit ttl = record (plain_rule {F = F} conc limit) { k = 1; ttl = ttl }

-- No other holder.
abbrev pub Alone : Bytes → Map ℤ → Type 0
Alone id m = (m ≡ []) ⊎ ((deadline : ℤ) × (m ≡ (id, deadline) ∷ []))

sweep-Alone : (id : Bytes) (drop : ℤ → Bool) (m : Map ℤ) → Alone id m → Alone id (sweep drop m)
unfolding sweep
sweep-Alone id drop m (inl e) = rw e (inl refl)
sweep-Alone id drop m (inr (s, e)) = elim (Bool-cases (drop s)) [
  | inl dropped ↦ rw (e, dropped) (inl refl)
  | inr stays ↦ rw (e, stays) (inr (s, refl))
]

insert-Alone : (id : Bytes) (s : ℤ) (m : Map ℤ) → Alone id m → insert id s m ≡ (id, s) ∷ []
unfolding insert
insert-Alone id s m (inl e) = rw e refl
insert-Alone id s m (inr (t, e)) = rw (e, ==_refl id) refl

length-Alone : (id : Bytes) (m : Map ℤ) → Alone id m → ltb_ℤ (pos 2) (pos (suc (length m))) ≡ false
length-Alone id m (inl e) = rw e refl
length-Alone id m (inr (t, e)) = rw e refl

module _ (num : Numbers) (st : Store num.F) (laws : StoreLaws num.F st) where
  open laws use {view, zcard_value, view-zremrangebyscore, view-zadd, view-pexpire}

  -- The rule passes.
  check_conc-Alone :
      (d : st.Db) (now limit ttl : ℤ) (key id : Bytes)
      → pos 2 ≤ℤ limit
      → Alone id (view d key).members
      → check_conc num st d now (slot_rule limit ttl) key ≡ passes (conc_plan key (now +ℤ ttl) ttl)
  unfolding check_conc
  check_conc-Alone d now limit ttl key id two alone =
      ground (arith, length-Alone id (view d key).members alone, zcard_value d key)

  swept-Alone :
      (d : st.Db) (now : ℤ) (key id : Bytes)
      → Alone id (view d key).members
      → Alone id (view (st.zremrangebyscore d key now) key).members
  swept-Alone d now key id alone =
      rw (view-zremrangebyscore, ==_refl key)
        (sweep-Alone id (out_of_date now) (view d key).members alone)

  run-Alone :
      (d : st.Db) (limit ttl : ℤ) (key id : Bytes)
      → pos 2 ≤ℤ limit
      → Alone id (view d key).members
      → let out = batch_check num st d (key ∷ []) (slot_rule limit ttl ∷ []) id in
        (out.0 ≡ some (pos 1 ∷ pos 0 ∷ pos 0 ∷ [])) × Alone id (view out.1 key).members
  unfolding batch_check phase_one check_keyed check_typed go_on with_plan answer phase_two commit
  run-Alone d limit ttl key id two alone =
      let now = now_ms num st d in
      let swept = swept-Alone d now key id alone in
      rw (check_conc-Alone (st.zremrangebyscore d key now) now limit ttl key id two swept) (
        refl,
        rw (view-pexpire, view-zadd, ==_refl key)
            (inr (
              now +ℤ ttl,
              insert-Alone id (now +ℤ ttl) (view (st.zremrangebyscore d key now) key).members swept,
            )),
      )

  -- `n` requests with one id, none of which is released.
  pub crowd : ℕ → st.Db → ℤ → ℤ → Bytes → Bytes → st.Db
  crowd zero d limit ttl key id = d
  crowd (suc n) d limit ttl key id =
      (batch_check num st (crowd n d limit ttl key id) (key ∷ []) (slot_rule limit ttl ∷ []) id).1

  crowd-Alone :
      (n : ℕ) (d : st.Db) (limit ttl : ℤ) (key id : Bytes)
      → pos 2 ≤ℤ limit
      → Alone id (view d key).members
      → Alone id (view (crowd n d limit ttl key id) key).members
  unfolding crowd
  crowd-Alone zero d limit ttl key id two alone = alone
  crowd-Alone (suc n) d limit ttl key id two alone =
      (run-Alone (crowd n d limit ttl key id) limit ttl key id two
        (crowd-Alone n d limit ttl key id two alone)).1

  -- A concurrency limit of two or more does not hold back requests that share one request id: after any
  -- number of them, none of them released, one more passes, and the key still has no holder but that id,
  -- if it had no other to begin with.
  pub batch_check-crowd :
      (n : ℕ) (d : st.Db) (limit ttl : ℤ) (key id : Bytes)
      → pos 2 ≤ℤ limit
      → Alone id (view d key).members
      → let out =
          batch_check num st
            (crowd n d limit ttl key id)
            (key ∷ [])
            (slot_rule limit ttl ∷ [])
            id in
        (out.0 ≡ some (pos 1 ∷ pos 0 ∷ pos 0 ∷ [])) × Alone id (view out.1 key).members
  batch_check-crowd n d limit ttl key id two alone =
      run-Alone (crowd n d limit ttl key id) limit ttl key id two
        (crowd-Alone n d limit ttl key id two alone)
