-- ===== src/Limiter/Ledger/Calls/Booking.antt =====
-- What the calls of internal/limiter/ledger.go leave in the ledger when every run of the script
-- succeeds.
use unirate.Prelude.{
  ℕ, ◌≡◌, ◌&&◌, if◌then◌else◌, Option, some, List, [], ◌∷◌, Bool-cases, inl, inr, refl, ap, ◌∙◌,
}
use unirate.Prelude.Text.{Bytes, ◌==◌, eq_iff}
use unirate.Prelude.Int.{ℤ, pos, ◌+ℤ◌, int64, leb_ℤ}
use unirate.Limiter.Rule.{Rule}
use unirate.Limiter.Check.Prepare.{Meta}
use unirate.Limiter.Ledger.{Redis, RedisLaws, LedgerOp, reserve, settle, run_script}
use unirate.Limiter.Ledger.Script.{amount_after, get-run_script}
use unirate.Limiter.Ledger.Calls.{
  counts_tokens, ledger_key, book, book_rule, token_reserve, token_settle,
}

-- The script as a client sees it: the reply as a list of three numbers.
abbrev pub answered : (r : Redis) → r.Db → Bytes → LedgerOp → Option (List ℤ) × r.Db
answered r d key op =
    let ((ok, used, third), d') = run_script r d key op in (some (ok ∷ used ∷ third ∷ []), d')

-- The operation of a rule; the key lives a minute longer than its window.
abbrev pub reserve_for : ℤ → Rule → LedgerOp
reserve_for delta r = reserve delta (int64 (r.win_sec +ℤ pos 60))

abbrev pub settle_for : ℤ → ℤ → Rule → LedgerOp
settle_for reserved actual r = settle reserved actual (int64 (r.win_sec +ℤ pos 60))

module _ (digest : Bytes → Bytes) (tz : ℤ) (m : Meta) (now : ℕ) where
  -- The value of the key `j` after the operations of the rules that write it, one after the other.
  unfoldable pub amount_after_all : (Rule → LedgerOp) → Bytes → Option ℤ → List Rule → Option ℤ
  amount_after_all op j v [] = v
  amount_after_all op j v (r ∷ rs) =
      let writes = counts_tokens r && ledger_key digest tz m now r == j in
      amount_after_all op j (if writes then amount_after v (op r) else v) rs

module _ (r : Redis) (laws : RedisLaws r) (digest : Bytes → Bytes) (tz : ℤ) (m : Meta)
    (now : ℕ) where
  same_key :
      (op : Rule → LedgerOp) (d : r.Db) (rule : Rule) (j : Bytes)
      → (if ledger_key digest tz m now rule == j
          then amount_after (r.get d (ledger_key digest tz m now rule)) (op rule)
          else r.get d j)
        ≡ (if ledger_key digest tz m now rule == j
            then amount_after (r.get d j) (op rule)
            else r.get d j)
  same_key op d rule j = elim (Bool-cases (ledger_key digest tz m now rule == j)) [
    | inl e ↦ rw e (
        ap (λ k. amount_after (r.get d k) (op rule))
          ((eq_iff (ledger_key digest tz m now rule) j).0 e))
    | inr e ↦ rw e refl
  ]

  get-book_rule :
      (op : Rule → LedgerOp) (d : r.Db) (rule : Rule) (j : Bytes)
      → r.get (book_rule (answered r) digest tz m now op d rule) j ≡ (
          if counts_tokens rule && ledger_key digest tz m now rule == j
          then amount_after (r.get d j) (op rule)
          else r.get d j)
  unfolding book_rule
  get-book_rule op d rule j = elim (Bool-cases (counts_tokens rule)) [
    | inl counted ↦ rw counted (
        get-run_script r laws d (ledger_key digest tz m now rule) (op rule) j
        ∙ same_key op d rule j)
    | inr skipped ↦ rw skipped refl
  ]

  get-book :
      (op : Rule → LedgerOp) (d : r.Db) (rules : List Rule) (j : Bytes)
      → r.get (book (answered r) digest tz m now op d rules) j
        ≡ amount_after_all digest tz m now op j (r.get d j) rules
  unfolding book amount_after_all
  get-book op d [] j = refl
  get-book op d (rule ∷ rules) j =
      get-book op (book_rule (answered r) digest tz m now op d rule) rules j
      ∙ ap (λ v. amount_after_all digest tz m now op j v rules) (get-book_rule op d rule j)

  -- TokenReserve and TokenSettle write exactly the ledger keys of the enabled token rules, each as the
  -- script does and in the order of the rules: the amount of every key after them is the one before,
  -- changed by the rules that write that key. Nothing is written for an amount to reserve that is not
  -- positive, nor for a settlement of equal amounts.
  pub get-token_reserve-token_settle :
      (d : r.Db) (rules : List Rule) (delta reserved actual : ℤ) (j : Bytes)
      → (r.get (token_reserve (answered r) digest tz d rules m now delta).0 j ≡ (
          if leb_ℤ delta (pos 0)
          then r.get d j
          else amount_after_all digest tz m now (reserve_for delta) j (r.get d j) rules))
        × (r.get (token_settle (answered r) digest tz d rules m now reserved actual).0 j ≡ (
            if leb_ℤ reserved actual && leb_ℤ actual reserved
            then r.get d j
            else amount_after_all digest tz m now (settle_for reserved actual) j (r.get d j) rules))
  unfolding token_reserve token_settle
  get-token_reserve-token_settle d rules delta reserved actual j = (
    elim (Bool-cases (leb_ℤ delta (pos 0))) [
      | inl e ↦ rw e refl
      | inr e ↦ rw e (get-book (reserve_for delta) d rules j)
    ],
    elim (Bool-cases (leb_ℤ reserved actual && leb_ℤ actual reserved)) [
      | inl e ↦ rw e refl
      | inr e ↦ rw e (get-book (settle_for reserved actual) d rules j)
    ],
  )
