-- ===== src/Limiter/Ledger/Script.antt =====
-- What internal/limiter/scripts/token_ledger.lua does to the amounts.
use unirate.Prelude.{
  sym, ap, not, ◌≡◌, if◌then◌else◌, Option, none, some, Option-cases, Bool-cases, inl, inr, refl,
  arith,
}
use unirate.Prelude.Text.{Bytes, ◌==◌, eq_iff}
use unirate.Prelude.Int.{ℤ, pos, ◌+ℤ◌, ◌-ℤ◌, -ℤ_parts, leb_ℤ, ltb_ℤ}
use unirate.Limiter.Ledger.{
  Redis, RedisLaws, LedgerOp, admit, reserve, settle, run_script, script_reserve, script_settle,
  or_zero,
}

-- The value of a ledger key after an operation, by itself: an amount that is not positive reserves
-- nothing, a key that has expired takes no refund, and nothing goes below 0.
abbrev pub amount_after : Option ℤ → LedgerOp → Option ℤ
amount_after v (admit limit) = v
amount_after v (reserve delta ttl) = if leb_ℤ delta (pos 0) then v else some (or_zero v +ℤ delta)
amount_after none (settle reserved actual ttl) =
    if leb_ℤ actual reserved then none else some (actual -ℤ reserved)
amount_after (some v) (settle reserved actual ttl) =
    let w = v +ℤ (actual -ℤ reserved) in
    if leb_ℤ actual reserved
    then (if leb_ℤ reserved actual then some v else some (if ltb_ℤ w (pos 0) then pos 0 else w))
    else some (if ltb_ℤ w (pos 0) then pos 0 else w)

-- The sign of a difference.
minus_order :
    (a b : ℤ)
    → (leb_ℤ (a -ℤ b) (pos 0) ≡ leb_ℤ a b)
      × (leb_ℤ (pos 0) (a -ℤ b) ≡ leb_ℤ b a)
      × (ltb_ℤ (pos 0) (a -ℤ b) ≡ not (leb_ℤ a b))
minus_order a b =
    (ground (arith, -ℤ_parts a b), ground (arith, -ℤ_parts a b), ground (arith, -ℤ_parts a b))

zero_add_ℤ : (a : ℤ) → pos 0 +ℤ a ≡ a
unfolding ◌+ℤ◌
zero_add_ℤ a = ground arith

module _ (r : Redis) (laws : RedisLaws r) where
  reserve_lem :
      (d : r.Db) (key : Bytes) (delta ttl : ℤ) (j : Bytes)
      → r.get (script_reserve r d key delta ttl).1 j
        ≡ (if key == j then amount_after (r.get d key) (reserve delta ttl) else r.get d j)
  unfolding script_reserve
  reserve_lem d key delta ttl j = ground (
    arith,
    eq_iff key j,
    laws.get-incrby d key delta j,
    laws.get-expire (r.incrby d key delta).1 key ttl j,
  )

  settle_lem :
      (d : r.Db) (key : Bytes) (reserved actual ttl : ℤ) (j : Bytes)
      → r.get (script_settle r d key reserved actual ttl).1 j
        ≡ (if key == j then amount_after (r.get d key) (settle reserved actual ttl) else r.get d j)
  unfolding script_settle
  settle_lem d key reserved actual ttl j = elim (Option-cases (r.get d key)) [
    | inl e ↦ rw e (
        ground (
          arith,
          eq_iff key j,
          minus_order actual reserved,
          zero_add_ℤ (actual -ℤ reserved),
          e,
          laws.exists_eq d key,
          laws.get-incrby d key (actual -ℤ reserved) j,
          laws.get-expire (r.incrby d key (actual -ℤ reserved)).1 key ttl j,
        ))
    | inr (v, e) ↦ rw e (
        ground (
          arith,
          eq_iff key j,
          minus_order actual reserved,
          e,
          laws.exists_eq d key,
          laws.incrby_value d key (actual -ℤ reserved),
          laws.get-incrby d key (actual -ℤ reserved) j,
          laws.get-set_keep_ttl (r.incrby d key (actual -ℤ reserved)).1 key (pos 0) j,
        ))
  ]

  -- Every operation of the script changes its own key as `amount_after` says, and no other key.
  pub get-run_script :
      (d : r.Db) (key : Bytes) (op : LedgerOp) (j : Bytes)
      → r.get (run_script r d key op).1 j
        ≡ (if key == j then amount_after (r.get d key) op else r.get d j)
  unfolding run_script
  get-run_script d key (admit limit) j = elim (Bool-cases (key == j)) [
    | inl e ↦ rw e (ap (r.get d) (sym ((eq_iff key j).0 e)))
    | inr e ↦ rw e refl
  ]
  get-run_script d key (reserve delta ttl) j = reserve_lem d key delta ttl j
  get-run_script d key (settle reserved actual ttl) j = settle_lem d key reserved actual ttl j
