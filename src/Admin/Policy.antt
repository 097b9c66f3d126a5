-- ===== src/Admin/Policy.antt =====
-- internal/admin/policy.go and policy_codec.go: the endpoints of the runtime policy. A value of the payload is
-- what encoding/json makes of it; a number is given if float64(int64(t)) is t. Maps are taken in the order
-- of their entries. The view of the policy is a parameter, and so are the texts of errors.
pub mod Writes
pub mod Checks
use unirate.Prelude.{
  ℕ, Bool, true, false, not, ◌&&◌, ◌||◌, if◌then◌else◌, Option, none, some, List, [], ◌∷◌, ◌++◌,
  map, length, ltb, ◌==◌ as nat_eq,
}
use unirate.Prelude.Text.{Bytes, codes, ◌==◌}
use unirate.Prelude.Int.{ℤ, pos}
use unirate.Prelude.Maps.{Map, insert}
use unirate.Limiter.Key.{format_int}
use unirate.Config.Policy.{PolicyKey}
use unirate.Config.Policy.Overrides.{policy_spec_of, unknown_key, validate_policy_overrides}
use unirate.Config.Snapshot.{Snapshot}
use unirate.Config.Load.{Json, Fallible, ok, failed, panics}
use unirate.Config.Store.{Store, load_from_db}
use unirate.Meta.{Request}
use unirate.Admin.{Response, Value, text, number, flag, entries, write_json, error_json}
use unirate.Admin.Server.{Net, Server}
use unirate.Admin.Change.{
  Statement, upsert_config, delete_config, World, Sent, operator_of, audit, transact, aborted,
}

pub data JsonValue : Type 0 where
  json_string : Bytes → JsonValue
  json_bool : Bool → JsonValue
  json_number : Option ℤ → JsonValue
  json_null json_other : JsonValue
  json_bad : Bytes → JsonValue

pub record PolicyPayload : Type 0 where
  pub values : Map JsonValue
  pub reset : List Bytes
  pub operator : Bytes

abbrev kinds_wanted : Bytes
kinds_wanted = codes "value must be an integer, a boolean, or a quoted string"

abbrev null_refused : Bytes
null_refused =
    codes "value must not be null; use "
    ++ (34 ∷ codes "reset")
    ++ (34 ∷ codes " to clear an override")

-- One value: the text it stands for, or the problem.
decode_value : JsonValue → Option Bytes × Bytes
decode_value (json_string s) = (some s, [])
decode_value (json_bool b) = (some (if b then codes "true" else codes "false"), [])
decode_value (json_number (some n)) = (some (format_int n), [])
decode_value (json_number none) = (none, kinds_wanted)
decode_value json_null = (none, null_refused)
decode_value json_other = (none, kinds_wanted)
decode_value (json_bad e) = (none, codes "invalid json value: " ++ e)

put_decoded :
    Bytes
    → Option Bytes × Bytes
    → Map Bytes × List (Bytes × Bytes)
    → Map Bytes × List (Bytes × Bytes)
put_decoded k (some s, problem) (out, problems) = ((k, s) ∷ out, problems)
put_decoded k (none, problem) (out, problems) = (out, (k, problem) ∷ problems)

pub decode_policy_values : Map JsonValue → Map Bytes × List (Bytes × Bytes)
decode_policy_values [] = ([], [])
decode_policy_values ((k, v) ∷ values) =
    put_decoded k (decode_value v) (decode_policy_values values)

-- sort.Strings
pub before : Bytes → Bytes → Bool
before [] t = true
before (a ∷ s) [] = false
before (a ∷ s) (b ∷ t) = ltb a b || (nat_eq a b && before s t)

pub insert_sorted : Bytes × Bytes → List (Bytes × Bytes) → List (Bytes × Bytes)
insert_sorted e [] = e ∷ []
insert_sorted e (f ∷ sorted) =
    let rest = insert_sorted e sorted in if before e.0 f.0 then e ∷ f ∷ sorted else f ∷ rest

-- What the map holds under its keys, in the order of sortedKeys.
pub sorted_entries : Map Bytes → List (Bytes × Bytes)
sorted_entries [] = []
sorted_entries (e ∷ vals) = insert_sorted e (sorted_entries vals)

add_unknown : Bytes → Option PolicyKey → List (Bytes × Bytes) → List (Bytes × Bytes)
add_unknown k none problems = (k, unknown_key) ∷ problems
add_unknown k (some spec) problems = problems

pub reset_problems : List Bytes → List (Bytes × Bytes)
reset_problems [] = []
reset_problems (k ∷ reset) = add_unknown k (policy_spec_of k) (reset_problems reset)

pub any : List (Bytes × Bytes) → Bool
any [] = false
any (p ∷ problems) = true

problems_json : Bytes → List (Bytes × Bytes) → Response
problems_json message problems =
    write_json 400 ((codes "error", text message) ∷ (codes "problems", entries problems) ∷ [])

-- The statements of a change of the policy.
pub policy_statements :
    Net → Request → PolicyPayload → Map Bytes → (Map Bytes → List Bytes → Bytes) → List Statement
policy_statements net r p vals detail =
    (map (λ (e : Bytes × Bytes). upsert_config e.0 e.1 (operator_of r p.operator))
        (sorted_entries vals)
      ++ map (λ k. delete_config k) p.reset)
    ++ (audit net r (codes "update_policy") (codes "_") p.operator (detail vals p.reset) ∷ [])

-- What the policy endpoints use: the parsers, the JSON of the audit, and the view.
pub record Parts : Type 0 where
  pub net : Net
  pub json : Json
  pub parse_duration : Bytes → Option ℤ
  pub refusal : PolicyKey → Bytes → Bytes
  pub detail : Map Bytes → List Bytes → Bytes
  pub policy_view : Store → List (Bytes × Value)

module _ (h : Parts) where
  -- The answer after LoadFromDB.
  pub published :
      Bytes → (Store → Snapshot → Response) → World → Fallible (Snapshot × Store) → World × Response
  published error answer w (ok (snap, s)) = (record w { store = s }, answer s snap)
  published error answer w failed = (
    w,
    write_json 202 (
        (codes "status", text (codes "saved_but_publish_failed"))
        ∷ (codes "error", text error)
        ∷ []),
  )
  published error answer w panics = (w, aborted)

  -- A transaction, and the load if it was committed.
  pub commit_and_load :
      {P : Type 0} → Sent P → (Store → Snapshot → Response) → World × Bool → World × Response
  commit_and_load env answer (w, false) = (w, error_json 500 env.sql.error)
  commit_and_load env answer (w, true) =
      published env.load_error answer w (load_from_db h.parse_duration h.json env.load w.store)

  pub policy_saved : Store → Snapshot → Response
  policy_saved s snap = write_json 200 (
      h.policy_view s
      ++ ((codes "status", text (codes "ok")) ∷ (codes "config_version", number snap.version) ∷ []))

  -- The checks of a payload, each an early return.
  pub put_payload :
      Server
      → Sent PolicyPayload
      → PolicyPayload
      → Map Bytes × List (Bytes × Bytes)
      → World
      → Request
      → World × Response
  put_payload srv env p (vals, decode_problems) w r =
      let found = validate_policy_overrides h.parse_duration h.refusal vals in
      if any decode_problems
      then (w, problems_json (codes "invalid config values") decode_problems)
      else if any found
      then (w, problems_json (codes "invalid config values") found)
      else if any (reset_problems p.reset)
      then (w, problems_json (codes "invalid reset keys") (reset_problems p.reset))
      else if not srv.has_db
      then (w, error_json 503 (codes "database not available"))
      else commit_and_load env policy_saved
          (transact env.sql (policy_statements h.net r p vals h.detail) w)

  pub put_policy : Server → Sent PolicyPayload → World → Request → World × Response
  put_policy srv env w r = elim env.payload [
    | none ↦ (w, error_json 400 (codes "invalid json: " ++ env.json_error))
    | some p ↦
        if nat_eq (length p.values) 0 && nat_eq (length p.reset) 0
        then (w, error_json 400 (codes "nothing to do: provide values or reset"))
        else put_payload srv env p (decode_policy_values p.values) w r
  ]

  pub handle_policy : Server → Sent PolicyPayload → World → Request → World × Response
  handle_policy srv env w r =
      if r.method == codes "GET"
      then (w, write_json 200 (h.policy_view w.store))
      else put_policy srv env w r

  verdict : ℕ → List (Bytes × Bytes) → Response
  verdict checked problems = write_json (if any problems then 400 else 200) (
      (codes "valid", flag (not (any problems)))
      ∷ (codes "checked", number (pos checked))
      ∷ (codes "problems", entries problems)
      ∷ [])

  pub handle_policy_validate : Sent PolicyPayload → World → Request → World × Response
  handle_policy_validate env w r = elim env.payload [
    | none ↦ (w, error_json 400 env.json_error)
    | some p ↦
        let (vals, problems) = decode_policy_values p.values in
        (
          w,
          verdict (length p.values)
              (problems ++ validate_policy_overrides h.parse_duration h.refusal vals),
        )
  ]
