-- ===== src/Limiter/Check/Release/Slots.antt =====
-- What Check of internal/limiter/limiter.go takes, its Release gives back.
use unirate.Prelude.{
  ℕ, ◌≡◌, ◌≢◌, true, false, Option, none, some, List, [], ◌∷◌, All, ◌==◌ as nat_eq,
}
use unirate.Prelude.Text.{Bytes}
use unirate.Prelude.Int.{ℤ, pos}
use unirate.Prelude.Maps.{lookup}
use unirate.Limiter.Rule.{Rule}
use unirate.Limiter.Check.{Limiter}
use unirate.Limiter.Check.Prepare.{LuaRule, Built, stop, built}
use unirate.Limiter.Batch.{Numbers, Store, now_ms, batch_check}
use unirate.Limiter.Batch.Laws.{StoreLaws}
use unirate.Limiter.Batch.Rejects.{expired}
use unirate.Limiter.Batch.Slots.{Fits}
use unirate.Limiter.Batch.Release.{among}
use unirate.Limiter.Check.Release.{Network, replied, not_sent, reply_lost}

abbrev ok_reply : List ℤ
ok_reply = pos 1 ∷ pos 0 ∷ pos 0 ∷ []

no_reply : {A : Type 0} (a : A) → ◌≢◌ {A = Option A} none (some a)
no_reply a e = cc

-- The script did not run, or Check got its reply.
abbrev pub Settled : Network → Option (List ℤ) → Type 0
Settled replied reply = reply ≢ none
Settled not_sent reply = Unit
Settled reply_lost reply = ⊥

module _ (num : Numbers) (st : Store num.F) (laws : StoreLaws num.F st) where
  open laws use {view}

  -- The slots of a key are those from before, less the ones that have expired for one of the rules.
  abbrev pub GivenBack : st.Db → st.Db → Bytes → List (LuaRule num.F) → Type 0
  GivenBack d e j rs =
      ((m : Bytes) (s : ℤ)
        → lookup m (view e j).members ≡ some s
        → lookup m (view d j).members ≡ some s)
      × ((m : Bytes) (s : ℤ)
          → lookup m (view d j).members ≡ some s
          → All (λ r. expired (now_ms num st d) s r ≡ false) rs
          → lookup m (view e j).members ≡ some s)

  -- What is asked of the keys and the script rules that the loop of Check prepared, if it rejected with no
  -- rule: `j` is the key of a concurrency rule, every rule that uses it is a concurrency rule, and the
  -- script does not run or Check gets its reply.
  abbrev pub Holds : Network → st.Db → Bytes → ℕ → Bytes → Built num.F → Type 0
  Holds net d id limit j (stop rejection) = Unit
  Holds net d id limit j (built p lua) =
      All (Fits p.keys j limit) lua
      × (among j p.conc_keys ≡ true)
      × Settled net (batch_check num st d p.keys lua id).0

  abbrev pub sent : Built num.F → List (LuaRule num.F)
  sent (stop rejection) = []
  sent (built p lua) = lua
