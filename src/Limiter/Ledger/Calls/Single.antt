-- ===== src/Limiter/Ledger/Calls/Single.antt =====
-- The ledger keys that one rule of a request writes (internal/limiter/ledger.go).
use unirate.Prelude.{
  ℕ, ◌+◌, ◌≤◌, ◌≡◌, Bool, true, ◌&&◌, if◌then◌else◌, Option, none, some, List, [], ◌∷◌, arith, refl,
  Bool-cases, inl, inr,
}
use unirate.Prelude.Text.{Bytes, ◌==◌, eq_iff}
use unirate.Prelude.Int.{ℤ, pos, pos_part, neg_part, int64, ◌+ℤ◌, ◌-ℤ◌}
use unirate.Limiter.Rule.{Rule}
use unirate.Limiter.Check.Prepare.{Meta}
use unirate.Limiter.Ledger.{Redis, RedisLaws, LedgerOp, reserve, settle, or_zero}
use unirate.Limiter.Ledger.Script.{amount_after}
use unirate.Limiter.Ledger.Calls.{counts_tokens, ledger_key, token_reserve, token_settle}
use unirate.Limiter.Ledger.Calls.Booking.{
  answered, amount_after_all, reserve_for, settle_for, get-token_reserve-token_settle,
}

-- A count of tokens in the ledger, and what the ledger does to it.
amount_after-reserve :
    (v : Option ℤ) (n : ℕ) (ttl : ℤ)
    → neg_part (or_zero v) ≡ 0
    → (neg_part (or_zero (amount_after v (reserve (pos n) ttl))) ≡ 0)
      × (pos_part (or_zero (amount_after v (reserve (pos n) ttl))) ≡ pos_part (or_zero v) + n)
unfolding ◌+ℤ◌
amount_after-reserve none n ttl h = ground arith
amount_after-reserve (some v) n ttl h = ground arith

amount_after-settle :
    (v : Option ℤ) (r a : ℕ) (ttl : ℤ)
    → neg_part (or_zero v) ≡ 0
    → r ≤ pos_part (or_zero v)
    → pos_part (or_zero (amount_after v (settle (pos r) (pos a) ttl))) + r
      ≡ pos_part (or_zero v) + a
unfolding ◌+ℤ◌ ◌-ℤ◌
amount_after-settle none r a ttl h enough = ground arith
amount_after-settle (some v) r a ttl h enough = ground arith

module _ (digest : Bytes → Bytes) (tz : ℤ) (m : Meta) (now : ℕ) (j : Bytes) where
  writes : Rule → Bool
  writes r = counts_tokens r && ledger_key digest tz m now r == j

  -- How many of the rules write the ledger key `j`.
  pub writers : List Rule → ℕ
  unfolding writes
  writers [] = 0
  writers (r ∷ rs) = (if writes r then 1 else 0) + writers rs

  -- The ledger key of the only rule.
  pub writers-ledger_key :
      (r : Rule) → counts_tokens r ≡ true → ledger_key digest tz m now r ≡ j → writers (r ∷ []) ≡ 1
  unfolding writers writes
  writers-ledger_key r counted key =
      ground (arith, counted, key, eq_iff (ledger_key digest tz m now r) j)

  amount_after_all-none :
      (op : Rule → LedgerOp) (rules : List Rule) (v : Option ℤ)
      → writers rules ≡ 0
      → amount_after_all digest tz m now op j v rules ≡ v
  unfolding writers writes amount_after_all
  amount_after_all-none op [] v alone = refl
  amount_after_all-none op (r ∷ rs) v alone = elim (Bool-cases (writes r)) [
    | inl wrote ↦ ground (arith, alone, wrote)
    | inr other ↦ rw other (amount_after_all-none op rs v (ground (arith, alone, other)))
  ]

  -- A key that one rule writes is changed by the operation of this rule.
  amount_after_all-one :
      (rules : List Rule)
      → writers rules ≡ 1
      → (r : Rule) × ((op : Rule → LedgerOp) (v : Option ℤ)
          → amount_after_all digest tz m now op j v rules ≡ amount_after v (op r))
  unfolding writers writes amount_after_all
  amount_after_all-one [] alone = ground arith
  amount_after_all-one (r ∷ rs) alone = elim (Bool-cases (writes r)) [
    | inl wrote ↦ (
      r,
      λ op v.
          rw wrote
            (amount_after_all-none op rs (amount_after v (op r)) (ground (arith, alone, wrote))),
    )
    | inr other ↦
        let (r', same) = amount_after_all-one rs (ground (arith, alone, other)) in
        (r', λ op v. rw other (same op v))
  ]

module _ (r : Redis) (laws : RedisLaws r) (digest : Bytes → Bytes) (tz : ℤ) (m : Meta) (now : ℕ)
    (rules : List Rule) (j : Bytes) (alone : writers digest tz m now j rules ≡ 1) where
  abbrev tokens_in : r.Db → ℤ
  tokens_in d = or_zero (r.get d j)

  -- TokenReserve of a number of tokens.
  pub tokens_in-token_reserve :
      (d : r.Db) (n : ℕ)
      → neg_part (tokens_in d) ≡ 0
      → let d' = (token_reserve (answered r) digest tz d rules m now (pos n)).0 in
        (neg_part (tokens_in d') ≡ 0) × (pos_part (tokens_in d') ≡ pos_part (tokens_in d) + n)
  tokens_in-token_reserve d n sound =
      let (rule, by) = amount_after_all-one digest tz m now j rules alone in
      let after =
        (get-token_reserve-token_settle r laws digest tz m now d rules (pos n) (pos 0) (pos 0)
          j).0 in
      rw (after, by (reserve_for (pos n)) (r.get d j))
        (ground
          (arith, sound, amount_after-reserve (r.get d j) n (int64 (rule.win_sec +ℤ pos 60)) sound))

  -- TokenSettle of no more than is there.
  pub tokens_in-token_settle :
      (d : r.Db) (reserved actual : ℕ)
      → neg_part (tokens_in d) ≡ 0
      → reserved ≤ pos_part (tokens_in d)
      → let d' =
          (token_settle (answered r) digest tz d rules m now (pos reserved) (pos actual)).0 in
        pos_part (tokens_in d') + reserved ≡ pos_part (tokens_in d) + actual
  tokens_in-token_settle d reserved actual sound enough =
      let (rule, by) = amount_after_all-one digest tz m now j rules alone in
      let after =
        (get-token_reserve-token_settle r laws digest tz m now d rules (pos 0) (pos reserved)
          (pos actual) j).1 in
      rw (after, by (settle_for (pos reserved) (pos actual)) (r.get d j))
        (ground (
          arith,
          sound,
          enough,
          amount_after-settle (r.get d j) reserved actual (int64 (rule.win_sec +ℤ pos 60)) sound
              enough,
        ))
