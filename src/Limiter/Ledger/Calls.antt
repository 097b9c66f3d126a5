-- ===== src/Limiter/Ledger/Calls.antt =====
-- internal/limiter/ledger.go: the calls of the ledger script for the rules of a request. One run of the
-- script is a parameter, `exec`, which gives the reply or an error and the key space after it.
pub mod Booking
pub mod Single
pub mod Examples
use unirate.Prelude.{
  ℕ, ◌≡◌, Bool, true, false, ◌&&◌, ◌||◌, if◌then◌else◌, Option, none, some, List, [], ◌∷◌, ◌++◌,
  arith, Bool-cases, inl, inr, refl, ◌/◌, ltb, ◌+◌,
}
use unirate.Prelude.Text.{Bytes, codes, ◌==◌}
use unirate.Prelude.Int.{ℤ, pos, ◌+ℤ◌, ◌*ℤ◌, int64, leb_ℤ, pos_part}
use unirate.Limiter.Breaker.{on_failure}
use unirate.Limiter.Local.{allow_quota}
use unirate.Limiter.Key.{window_boundary, token_ledger_key}
use unirate.Limiter.Rule.{Rule, is_enabled}
use unirate.Limiter.Check.{Limiter, local_quota, parse_result, refused, allow, seconds}
use unirate.Limiter.Check.Prepare.{
  Meta, Decision, dim_values, denied, second_ns, Kind, token_budget, kind_of,
}
use unirate.Limiter.Ledger.{LedgerOp, admit, reserve, settle}

is_token_budget : Kind → Bool
is_token_budget token_budget = true
is_token_budget _ = false

-- The rules that the loops do not skip.
pub counts_tokens : Rule → Bool
unfolding is_token_budget
counts_tokens r = is_enabled r && is_token_budget (kind_of r)

pub ledger_key : (Bytes → Bytes) → ℤ → Meta → ℕ → Rule → Bytes
ledger_key digest tz m now r =
    token_ledger_key digest r.dimensions (dim_values m r.dimensions) r.win_sec
      (window_boundary (pos (now / second_ns)) r.win_sec tz r.natural)

module _ {Db : Type 0} (exec : Db → Bytes → LedgerOp → Option (List ℤ) × Db)
    (digest : Bytes → Bytes) where
  -- One round of the loop of TokenReserve or TokenSettle, whose error is dropped.
  book_rule : ℤ → Meta → ℕ → (Rule → LedgerOp) → Db → Rule → Db
  book_rule tz m now op d r =
      if counts_tokens r then (exec d (ledger_key digest tz m now r) (op r)).1 else d

  book : ℤ → Meta → ℕ → (Rule → LedgerOp) → Db → List Rule → Db
  unfolding book_rule
  book tz m now op d [] = d
  book tz m now op d (r ∷ rs) = book tz m now op (book_rule tz m now op d r) rs

  -- The error that is returned is always nil.
  pub token_reserve : ℤ → Db → List Rule → Meta → ℕ → ℤ → Db × Bool
  unfolding book
  token_reserve tz d rules m now delta =
      if leb_ℤ delta (pos 0)
      then (d, false)
      else (book tz m now (λ r. reserve delta (int64 (r.win_sec +ℤ pos 60))) d rules, false)

  pub token_settle : ℤ → Db → List Rule → Meta → ℕ → ℤ → ℤ → Db × Bool
  unfolding book
  token_settle tz d rules m now reserved actual =
      if leb_ℤ reserved actual && leb_ℤ actual reserved then (d, false) else (
        book tz m now (λ r. settle reserved actual (int64 (r.win_sec +ℤ pos 60))) d rules,
        false,
      )

  -- A rule whose budget is used up. A time to live that is not positive gives the whole window.
  exhausted : Rule → ℤ → Decision
  exhausted r pttl =
      let retry = int64 (pttl *ℤ pos 1_000_000) in
      denied r (if leb_ℤ retry (pos 0) then seconds r.win_sec else retry)

  -- After the script failed: the breaker counts it, and the local quota decides.
  admit_locally : Limiter → Rule → Bytes → ℕ → Limiter × Option Decision
  admit_locally l r key later =
      let (local, granted) =
        allow_quota l.local (key ++ codes "|admit") (pos_part (local_quota l r.limit))
          (pos_part (seconds r.win_sec)) later in
      (
        record l { breaker = on_failure l.breaker later; local = local },
        if granted then none else some (refused r (pos 1_000_000_000)),
      )

  admit_reply : Option (List ℤ) → Limiter → Rule → Bytes → ℕ → Limiter × Option Decision
  unfolding exhausted admit_locally
  admit_reply none l r key later = admit_locally l r key later
  admit_reply (some reply) l r key later =
      (l, if (parse_result reply).0 then none else some (exhausted r (parse_result reply).2))

  admit_rule : Limiter → Db → Meta → ℕ → ℕ → Rule → Limiter × Option Decision × Db
  unfolding admit_reply
  admit_rule l d m now later r =
      let key = ledger_key digest l.tz_offset m now r in
      let (reply, d') = exec d key (admit r.limit) in
      let (l', stopped) = admit_reply reply l r key later in
      if counts_tokens r then (l', stopped, d') else (l, none, d)

  pub token_admit : Limiter → Db → List Rule → Meta → ℕ → ℕ → Limiter × Db × Decision
  unfolding admit_rule
  token_admit l d [] m now later = (l, d, allow)
  token_admit l d (r ∷ rs) m now later =
      let (l', stopped, d') = admit_rule l d m now later r in
      let rest = token_admit l' d' rs m now later in
      elim stopped [ some answer ↦ (l', d', answer) | none ↦ rest ]
