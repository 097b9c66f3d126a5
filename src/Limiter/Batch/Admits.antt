-- ===== src/Limiter/Batch/Admits.antt =====
-- The token budget in batch_check.lua and the `admit` of token_ledger.lua.
use unirate.Prelude.{◌≡◌, Option, none, some, List, [], ◌∷◌, All, refl, arith, subst, ◌∙◌}
use unirate.Prelude.Text.{Bytes}
use unirate.Prelude.Int.{ℤ, pos}
use unirate.Limiter.Ledger.{script_admit}
use unirate.Limiter.Check.Prepare.{LuaRule, tkadmit, LuaType, fixed, sliding, tb, conc}
use unirate.Limiter.Batch.{
  Numbers, Store, Plan, passes, check_keyed, check_typed, check_tkadmit, now_ms, batch_check,
}
use unirate.Limiter.Batch.Laws.{StoreLaws}
use unirate.Limiter.Batch.Passes.{key_of, AllPass, batch_check-ok}
use unirate.Limiter.Batch.Rejects.{check_keyed-Kept}

module _ (num : Numbers) (st : Store num.F) (laws : StoreLaws num.F st) where
  open laws use {view, get_value}

  -- The ledger script lets the rule in: it answers 1 at the rule's key.
  abbrev pub LedgerAdmits : List Bytes → st.Db → LuaRule num.F → Type 0
  LedgerAdmits keys d r =
      r.t ≡ tkadmit
      → (key : Bytes) → key_of keys r ≡ some key
      → (script_admit st.base d key r.limit).0 ≡ pos 1

  typed-admits :
      (t : LuaType) (d : st.Db) (r : LuaRule num.F) (now : ℤ) (key : Bytes) (p : Plan num.F)
      → (check_typed num st t d now r key).1 ≡ passes p
      → t ≡ tkadmit
      → (script_admit st.base d key r.limit).0 ≡ pos 1
  unfolding check_typed check_tkadmit script_admit
  typed-admits tkadmit d r now key p e is = ground (arith, e)
  typed-admits fixed d r now key p e is = cc
  typed-admits sliding d r now key p e is = cc
  typed-admits tb d r now key p e is = cc
  typed-admits conc d r now key p e is = cc

  keyed-admits :
      (d : st.Db) (r : LuaRule num.F) (now : ℤ) (o : Option Bytes) (key : Bytes) (p : Plan num.F)
      → (check_keyed num st d now r o).1 ≡ passes p
      → r.t ≡ tkadmit
      → o ≡ some key
      → (script_admit st.base d key r.limit).0 ≡ pos 1
  unfolding check_keyed
  keyed-admits d r now none key p e is same = cc
  keyed-admits d r now (some k) key p e is same =
      subst
        (λ (o : Option Bytes). elim o [
          | none ↦ Unit
          | some j ↦ (script_admit st.base d j r.limit).0 ≡ pos 1
        ])
        same (typed-admits r.t d r now k p e is)

  -- The answer depends on the number at the key only.
  admit-value :
      (d e : st.Db) (key : Bytes) (limit : ℤ)
      → (view d key).value ≡ (view e key).value
      → (script_admit st.base d key limit).0 ≡ pos 1
      → (script_admit st.base e key limit).0 ≡ pos 1
  unfolding script_admit
  admit-value d e key limit same = ground (arith, get_value d key, get_value e key, same)

  AllPass-admits :
      (rs : List (LuaRule num.F)) (ps : List (Plan num.F)) (d d' : st.Db) (now : ℤ)
      (keys : List Bytes)
      → AllPass num st d now keys rs d' ps
      → (e : st.Db) → ((key : Bytes) → (view d key).value ≡ (view e key).value)
      → All (LedgerAdmits keys e) rs
  AllPass-admits [] ps d d' now keys all e same = tt
  AllPass-admits (r ∷ rs) [] d d' now keys all e same = absurd all
  AllPass-admits (r ∷ rs) (p ∷ ps) d d' now keys (passed, later) e same = (
    λ is key at.
        admit-value d e key r.limit (same key)
          (keyed-admits d r now (key_of keys r) key p passed is at),
    AllPass-admits rs ps (check_keyed num st d now r (key_of keys r)).0 d' now keys later e (λ key.
        (check_keyed-Kept num st laws d now r rs (key_of keys r) key).same_value ∙ same key),
  )

  -- The two scripts agree on token budgets: when batch_check.lua answers ok, the `admit` of
  -- token_ledger.lua, run on the store that batch_check.lua began with, lets in every token budget among
  -- the rules.
  pub batch_check-admits :
      (d : st.Db) (keys : List Bytes) (rs : List (LuaRule num.F)) (id : Bytes)
      → (batch_check num st d keys rs id).0 ≡ some (pos 1 ∷ pos 0 ∷ pos 0 ∷ [])
      → All (LedgerAdmits keys d) rs
  batch_check-admits d keys rs id ok =
      let (d', ps, all, last) = batch_check-ok num st d keys rs id ok in
      AllPass-admits rs ps d d' (now_ms num st d) keys all d (λ key. refl)
