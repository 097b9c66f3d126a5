-- ===== src/Config/Load/Rows.antt =====
-- What a whole answer of the database gives (LoadFromDB of internal/config/store.go).
use unirate.Prelude.{
  ◌≡◌, ◌≢◌, refl, subst, ◌∙◌, true, false, Bool-cases, inl, inr, if◌then◌else◌, Option, none, some,
  List, [], ◌∷◌, map, All,
}
use unirate.Prelude.Text.{Bytes, ◌==◌, eq_iff}
use unirate.Prelude.Maps.{Map, lookup, insert, lookup-insert}
use unirate.Config.Snapshot.{BizConfig}
use unirate.Config.Load.{
  Json, Row, answered, ok, panics, Loaded, skipped, crashed, kept, load_row, load_rows, load_bizs,
}

-- biz is the primary key of the table.
abbrev pub IsKeyed : List Row → Type 0
IsKeyed [] = Unit
IsKeyed (row ∷ rows) = All (λ other. (other.biz == row.biz) ≡ false) rows × IsKeyed rows

abbrev pub row_named : Bytes → List Row → Option Row
row_named biz [] = none
row_named biz (row ∷ rows) =
    let rest = row_named biz rows in if row.biz == biz then some row else rest

abbrev or_before : Loaded → Option BizConfig → Option BizConfig
or_before skipped before = before
or_before crashed before = before
or_before (kept c) before = some c

abbrev row_or_before : Json → Option Row → Option BizConfig → Option BizConfig
row_or_before json none before = before
row_or_before json (some row) before = or_before (load_row json row) before

-- What is served for a business of which the database has the row, if any.
abbrev pub served : Json → Option Row → Option BizConfig
served json row = row_or_before json row none

row_named-absent :
    (biz : Bytes) (rows : List Row)
    → All (λ other. (other.biz == biz) ≡ false) rows
    → row_named biz rows ≡ none
row_named-absent biz [] all = refl
row_named-absent biz (row ∷ rows) all = rw all.0 (row_named-absent biz rows all.1)

row_named-this :
    (row : Row) (rows : List Row) (biz : Bytes)
    → All (λ other. (other.biz == row.biz) ≡ false) rows
    → (row.biz == biz) ≡ true
    → row_named biz rows ≡ none
row_named-this row rows biz others this = row_named-absent biz rows (
    subst (λ (k : Bytes). All (λ other. (other.biz == k) ≡ false) rows)
      ((eq_iff row.biz biz).0 this) others)

abbrev Loads : Json → Map BizConfig → List Row → Type 0
Loads json before rows =
    (bizs : Map BizConfig) × (load_rows json before (map some rows) false ≡ ok bizs)
    × ((biz : Bytes)
        → lookup biz bizs ≡ row_or_before json (row_named biz rows) (lookup biz before))

-- The row is at its own key, and later rows are at others.
after_insert :
    (json : Json) (row : Row) (c : BizConfig) (rows : List Row) (before : Map BizConfig)
    (biz : Bytes)
    → All (λ other. (other.biz == row.biz) ≡ false) rows
    → load_row json row ≡ kept c
    → row_or_before json (row_named biz rows) (lookup biz (insert row.biz c before))
      ≡ row_or_before json (row_named biz (row ∷ rows)) (lookup biz before)
after_insert json row c rows before biz others loaded = elim (Bool-cases (row.biz == biz)) [
  | inl this ↦
      rw (row_named-this row rows biz others this, lookup-insert row.biz biz c before, this, loaded)
        refl
  | inr other ↦ rw (lookup-insert row.biz biz c before, other) refl
]

skipped_before :
    (json : Json) (row : Row) (rows : List Row) (before : Map BizConfig) (biz : Bytes)
    → All (λ other. (other.biz == row.biz) ≡ false) rows
    → load_row json row ≡ skipped
    → row_or_before json (row_named biz rows) (lookup biz before)
      ≡ row_or_before json (row_named biz (row ∷ rows)) (lookup biz before)
skipped_before json row rows before biz others loaded = elim (Bool-cases (row.biz == biz)) [
  | inl this ↦ rw (row_named-this row rows biz others this, this, loaded) refl
  | inr other ↦ rw other refl
]

load_rows-Loads :
    (json : Json) (before : Map BizConfig) (rows : List Row)
    → IsKeyed rows
    → All (λ row. load_row json row ≢ crashed) rows
    → Loads json before rows
unfolding load_rows
load_rows-Loads json before [] keyed sound = (before, refl, λ biz. refl)
load_rows-Loads json before (row ∷ rows) keyed sound =
    (elim (load_row json row)
        as (λ l.
          load_row json row ≡ l
          → (bizs : Map BizConfig) × ((elim l [
            | skipped ↦ load_rows json before (map some rows) false
            | crashed ↦ panics
            | kept c ↦ load_rows json (insert row.biz c before) (map some rows) false
          ])
              ≡ ok bizs)
            × ((biz : Bytes)
                → lookup biz bizs
                  ≡ row_or_before json (row_named biz (row ∷ rows)) (lookup biz before))) [
                    | crashed ↦ λ e. absurd (sound.0 e)
                    | skipped ↦ λ e.
                        let (bizs, done, same) = load_rows-Loads json before rows keyed.1 sound.1 in
                        (
                          bizs,
                          done,
                          λ biz. same biz ∙ skipped_before json row rows before biz keyed.0 e,
                        )
                    | kept c ↦ λ e.
                        let (bizs, done, same) =
                          load_rows-Loads json (insert row.biz c before) rows keyed.1 sound.1 in
                        (
                          bizs,
                          done,
                          λ biz. same biz ∙ after_insert json row c rows before biz keyed.0 e,
                        )
                  ])
      refl

-- A database whose rows are all read, one for each business, is loaded if no rule makes Validate panic, and
-- each business is served what its own row gives: a row whose rules do not parse takes nothing else with it.
pub load_bizs-rows :
    (json : Json) (rows : List Row)
    → IsKeyed rows
    → All (λ row. load_row json row ≢ crashed) rows
    → (bizs : Map BizConfig) × (load_bizs json (answered (map some rows) false) ≡ ok bizs)
      × ((biz : Bytes) → lookup biz bizs ≡ served json (row_named biz rows))
unfolding load_bizs lookup
load_bizs-rows json rows keyed sound = load_rows-Loads json [] rows keyed sound
