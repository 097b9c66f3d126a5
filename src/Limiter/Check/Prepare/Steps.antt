-- ===== src/Limiter/Check/Prepare/Steps.antt =====
-- The lists that the loop of Check in internal/limiter/limiter.go builds grow together.
use unirate.Prelude.{
  ℕ, suc, ◌≡◌, false, List, [], ◌∷◌, length, length-append, arith, Bool-cases, Option-cases, inl,
  inr, refl,
}
use unirate.Prelude.Text.{Bytes}
use unirate.Prelude.Int.{ℤ}
use unirate.Limiter.Local.{LocalFallback, blocked}
use unirate.Limiter.Rule.{Rule, is_enabled}
use unirate.Limiter.Check.Prepare.{
  Meta, Backend, LuaRule, Prep, Built, stop, built, prepare, loop, enter, translate, kind_of,
  empty_prep,
}

abbrev pub InStep : {F : Type 0} → Built F → Type 0
InStep (stop d) = d.allowed ≡ false
InStep (built p lua) = (length p.idx ≡ length p.keys) × (length lua ≡ length p.keys)

module _ {F : Type 0} (be : Backend F) (digest : Bytes → Bytes) where
  enter-InStep :
      (p : Prep) (lua : List (LuaRule F)) (local : LocalFallback) (r : Rule) (now : ℕ)
      → (length p.idx ≡ length p.keys) × (length lua ≡ length p.keys)
      → (kl : Bytes × LuaRule F) → InStep (enter be digest p lua local r (kind_of r) kl now)
  unfolding enter
  enter-InStep p lua local r now (a, b) (key, lr) = elim (Option-cases (blocked local key now)) [
    | inl free ↦
        rw (free, enter)
          (
            omega (arith, a, b, length-append p.idx (r ∷ []), length-append p.keys (key ∷ [])),
            omega (
              arith,
              a,
              b,
              length-append lua (record lr { k = suc (length p.keys) } ∷ []),
              length-append p.keys (key ∷ []),
            ),
          )
    | inr (until, hit) ↦ rw (hit, enter) refl
  ]

  loop-InStep :
      (p : Prep) (lua : List (LuaRule F)) (tz : ℤ) (local : LocalFallback) (rules : List Rule)
      (m : Meta) (now : ℕ)
      → (length p.idx ≡ length p.keys) × (length lua ≡ length p.keys)
      → InStep (loop be digest p lua tz local rules m now)
  unfolding loop
  loop-InStep p lua tz local [] m now sync = sync
  loop-InStep p lua tz local (r ∷ rs) m now sync = elim (Bool-cases (is_enabled r)) [
    | inr off ↦ rw off (loop-InStep p lua tz local rs m now sync)
    | inl on ↦ rw on (
        continued
          (enter be digest p lua local r (kind_of r) (translate be digest (kind_of r) tz r m now)
            now)
          (enter-InStep p lua local r now sync (translate be digest (kind_of r) tz r m now))
          (λ p' lua' sync'. loop-InStep p' lua' tz local rs m now sync'))
  ]
    where
      continued :
          (b : Built F)
          → InStep b
          → ((p' : Prep) (lua' : List (LuaRule F))
              → (length p'.idx ≡ length p'.keys) × (length lua' ≡ length p'.keys)
              → InStep (loop be digest p' lua' tz local rs m now))
          → InStep (elim b [
            | stop d ↦ stop d
            | built p' lua' ↦ loop be digest p' lua' tz local rs m now
          ])
      continued (stop d) s k = s
      continued (built p' lua') s k = k p' lua' s

  -- What the loop of Check hands over: a rejection, or as many rules for the script as keys and as
  -- rules to blame.
  pub prepare-InStep :
      (tz : ℤ) (local : LocalFallback) (rules : List Rule) (m : Meta) (now : ℕ)
      → InStep (prepare be digest tz local rules m now)
  unfolding prepare empty_prep
  prepare-InStep tz local rules m now = loop-InStep empty_prep [] tz local rules m now (refl, refl)
