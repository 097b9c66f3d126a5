-- ===== src/Config/Load/Examples.antt =====
-- A database with a row whose rules do not parse (internal/config/store.go).
use unirate.Prelude.{◌≡◌, refl, true, false, Option, none, some, List, [], ◌∷◌, map}
use unirate.Prelude.Text.{Bytes, codes, ◌==◌}
use unirate.Prelude.Maps.{Map, lookup}
use unirate.Config.Snapshot.{BizConfig}
use unirate.Config.Load.{Json, Row, answered, ok, load_row, keep, parsed, load_bizs}
use unirate.Config.Load.Rows.{served, row_named, load_bizs-rows}

abbrev pub no_json : Json
no_json = record { parse_rules = λ s. none; parse_snapshot = λ s. none }

abbrev pub row_of : Bytes → Option Bytes → Row
row_of biz rules = record {
  biz = biz;
  base_url = codes "http://a.example";
  path_strip_prefix = false;
  enabled = true;
  rules_json = rules;
}

abbrev pub two_rows : List Row
two_rows = row_of (codes "pay") none ∷ row_of (codes "bad") (some (codes "{")) ∷ []

load_bizs-rows_example :
    (bizs : Map BizConfig) × (load_bizs no_json (answered (map some two_rows) false) ≡ ok bizs)
    × ((biz : Bytes) → lookup biz bizs ≡ served no_json (row_named biz two_rows))
unfolding ◌==◌ load_row keep parsed
load_bizs-rows_example =
    load_bizs-rows no_json two_rows ((refl, tt), (tt, tt)) ((λ e. cc), ((λ e. cc), tt))
