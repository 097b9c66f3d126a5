-- ===== src/Prelude/Maps.antt =====
-- Go maps with string keys, as association lists: `m[k]`, `m[k] = v` and a sweep that deletes the
-- entries that a test rejects.
use mathlib.Core.Path.{◌≡◌, refl, subst}
use mathlib.Core.Bool.{Bool, false}
use mathlib.Core.Logic.{inl, inr}
use mathlib.Core.Option.{Option, none, some}
use mathlib.Core.List.{List, [], ◌∷◌}
use native.Mathlib.Omega.{arith}
use Prim.Native.Nat.{ℕ, ◌+◌, ◌≤◌}
use unirate.Prelude.Lists.{length}
use unirate.Prelude.Tests.{if◌then◌else◌, Bool-cases}
use unirate.Prelude.Text.{Bytes, ◌==◌, eq_iff}

abbrev pub Map {ℓ} : Type ℓ → Type ℓ
Map V = List (Bytes × V)

module _ {ℓ} {V : Type ℓ} where
  unfoldable pub lookup : Bytes → Map V → Option V
  lookup k [] = none
  lookup k ((j, v) ∷ m) = if j == k then some v else lookup k m

  unfoldable pub insert : Bytes → V → Map V → Map V
  insert key new [] = (key, new) ∷ []
  insert key new ((at, old) ∷ entries) =
      let rest = insert key new entries in
      if at == key then (key, new) ∷ entries else (at, old) ∷ rest

  unfoldable pub remove : Bytes → Map V → Map V
  remove k [] = []
  remove k ((j, w) ∷ m) = let rest = remove k m in if j == k then rest else (j, w) ∷ rest

  -- for k, v := range m { if drop(v) { delete(m, k) } }
  unfoldable pub sweep : (V → Bool) → Map V → Map V
  sweep drop [] = []
  sweep drop ((j, w) ∷ m) = let rest = sweep drop m in if drop w then rest else (j, w) ∷ rest

  -- An insertion is seen at its own key only.
  pub lookup-insert :
      (key other : Bytes) (new : V) (entries : Map V)
      → lookup other (insert key new entries)
        ≡ (if key == other then some new else lookup other entries)
  unfolding lookup insert
  lookup-insert key other new [] = refl
  lookup-insert key other new ((at, old) ∷ entries) =
      let ih = lookup-insert key other new entries in
      ground (arith, ih, eq_iff at key, eq_iff at other, eq_iff key other)

  pub lookup-remove :
      (k j : Bytes) (m : Map V) → lookup j (remove k m) ≡ (if k == j then none else lookup j m)
  unfolding lookup remove
  lookup-remove k j [] = ground arith
  lookup-remove k j ((i, w) ∷ m) =
      ground (arith, lookup-remove k j m, eq_iff i k, eq_iff i j, eq_iff k j)

  -- Keys are distinct, as in a Go map.
  abbrev pub Absent : Bytes → Map V → Type 0
  Absent k [] = Unit
  Absent k ((j, v) ∷ m) = ((j == k) ≡ false) × Absent k m

  abbrev pub IsMap : Map V → Type 0
  IsMap [] = Unit
  IsMap ((j, v) ∷ m) = Absent j m × IsMap m

  lookup-Absent : (k : Bytes) (m : Map V) → Absent k m → lookup k m ≡ none
  unfolding lookup
  lookup-Absent k [] h = refl
  lookup-Absent k ((j, v) ∷ m) h = ground (arith, lookup-Absent k m h.1)

  abbrev pub keep_unless : (V → Bool) → Option V → Option V
  keep_unless drop none = none
  keep_unless drop (some v) = if drop v then none else some v

  -- In a map with distinct keys a sweep hides exactly the entries that it drops.
  pub lookup-sweep :
      (drop : V → Bool) (k : Bytes) (m : Map V)
      → IsMap m
      → lookup k (sweep drop m) ≡ keep_unless drop (lookup k m)
  unfolding lookup sweep
  lookup-sweep drop k [] w = refl
  lookup-sweep drop k ((j, v) ∷ m) w =
      ground (arith, eq_iff j k, lookup-Absent j m w.0, lookup-sweep drop k m w.1)

  pub Absent-insert :
      (k j : Bytes) (v : V) (m : Map V) → (k == j) ≡ false → Absent j m → Absent j (insert k v m)
  unfolding insert
  Absent-insert k j v [] h a = (h, tt)
  Absent-insert k j v ((i, w) ∷ m) h a = ground (arith, Absent-insert k j v m h a.1)

  pub insert-IsMap : (k : Bytes) (v : V) (m : Map V) → IsMap m → IsMap (insert k v m)
  unfolding insert
  insert-IsMap k v [] w = (tt, tt)
  insert-IsMap k v ((i, x) ∷ m) w = elim (Bool-cases (i == k)) [
    | inl e ↦ rw e (subst (λ (j : Bytes). Absent j m) ((eq_iff i k).0 e) w.0, w.1)
    | inr e ↦
        rw e (
          Absent-insert k i v m (ground (arith, eq_iff i k, eq_iff k i)) w.0,
          insert-IsMap k v m w.1,
        )
  ]

  pub Absent-sweep :
      (drop : V → Bool) (j : Bytes) (m : Map V) → Absent j m → Absent j (sweep drop m)
  unfolding sweep
  Absent-sweep drop j [] a = tt
  Absent-sweep drop j ((i, x) ∷ m) a = ground (arith, Absent-sweep drop j m a.1)

  pub Absent-remove : (k j : Bytes) (m : Map V) → Absent j m → Absent j (remove k m)
  unfolding remove
  Absent-remove k j [] a = tt
  Absent-remove k j ((i, x) ∷ m) a = ground (arith, Absent-remove k j m a.1)

  pub remove-IsMap : (k : Bytes) (m : Map V) → IsMap m → IsMap (remove k m)
  unfolding remove
  remove-IsMap k [] w = tt
  remove-IsMap k ((i, x) ∷ m) w = ground (arith, Absent-remove k i m w.0, remove-IsMap k m w.1)

  pub sweep-IsMap : (drop : V → Bool) (m : Map V) → IsMap m → IsMap (sweep drop m)
  unfolding sweep
  sweep-IsMap drop [] w = tt
  sweep-IsMap drop ((i, x) ∷ m) w =
      ground (arith, Absent-sweep drop i m w.0, sweep-IsMap drop m w.1)

  -- Sizes.
  pub length-sweep : (drop : V → Bool) (m : Map V) → length (sweep drop m) ≤ length m
  unfolding sweep
  length-sweep drop [] = omega arith
  length-sweep drop ((i, x) ∷ m) = ground (arith, length-sweep drop m)

  pub length-remove : (k : Bytes) (m : Map V) → length (remove k m) ≤ length m
  unfolding remove
  length-remove k [] = omega arith
  length-remove k ((i, x) ∷ m) = ground (arith, length-remove k m)

  abbrev pub count_of : Option V → ℕ
  count_of none = 0
  count_of (some v) = 1

  pub length-insert :
      (k : Bytes) (v : V) (m : Map V) → length (insert k v m) + count_of (lookup k m) ≡ length m + 1
  unfolding insert lookup
  length-insert k v [] = refl
  length-insert k v ((i, x) ∷ m) = ground (arith, length-insert k v m)
