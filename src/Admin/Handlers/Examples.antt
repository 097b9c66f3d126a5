-- ===== src/Admin/Handlers/Examples.antt =====
-- A change of the number of instances through the API.
use unirate.Prelude.{
  refl, ◌≡◌, ◌≢◌, ◌⊎◌, true, Option, none, some, List, [], ◌∷◌, ◌++◌, if◌then◌else◌,
}
use unirate.Prelude.Text.{codes, ◌==◌, starts_with}
use unirate.Prelude.Int.{pos}
use unirate.Meta.{Request}
use unirate.Config.Load.Examples.{no_json}
use unirate.Config.Store.{new_store}
use unirate.Admin.{write_json}
use unirate.Admin.Server.{Server, handler, pattern_of, policy, root, extract_token}
use unirate.Admin.Change.{Statement, World, Sent, Sql}
use unirate.Admin.Change.Accountable.{IsAccountable}
use unirate.Admin.Policy.{Parts, PolicyPayload, json_number}
use unirate.Admin.Handlers.{Outside, Reads, admin_endpoints}
use unirate.Admin.Handlers.Changes.{handler-log}

abbrev working_sql : Sql
working_sql = record {
  begins = true;
  done = λ n. true;
  commits = true;
  rows_affected = 1;
  error = [];
}

abbrev sent_with : {P : Type 0} → Option P → Sent P
sent_with payload = record {
  payload = payload;
  json_error = [];
  rule_error = [];
  sql = working_sql;
  load = none;
  load_error = codes "no database";
}

abbrev four_instances : PolicyPayload
four_instances = record {
  values = (codes "instances", json_number (some (pos 4))) ∷ [];
  reset = codes "log_level" ∷ [];
  operator = codes "ops";
}

abbrev outside : Outside
outside = record {
  biz_sent = sent_with none;
  item_sent = sent_with none;
  policy_sent = sent_with (some four_instances);
  rules_sent = sent_with none;
  load = none;
  load_error = [];
  describe = λ e. [];
  marshal = λ rules. [];
}

abbrev reads : Reads
reads = record {
  list_bizs = λ w r. write_json 200 [];
  snapshot = λ w r. write_json 200 [];
  audit = λ w r. write_json 200 [];
  metrics = λ w r. write_json 200 [];
  console = none;
}

abbrev parts : Parts
parts = record {
  net = record {
    sum256 = λ s. s;
    parse_cidr = λ s. none;
    parse_ip = λ s. none;
    split_host_port = λ s. none;
  };
  json = no_json;
  parse_duration = λ s. none;
  refusal = λ k raw. raw;
  detail = λ vals reset. [];
  policy_view = λ s. [];
}

abbrev server : Server
server = record {
  token_hash = codes "secret";
  allow = [];
  has_store = true;
  has_db = true;
  has_metrics = true;
}

abbrev put_request : Request
put_request = record {
  path = codes "/admin/policy";
  method = codes "PUT";
  remote_addr = codes "10.0.0.1:1";
  get = λ h. if h == codes "X-Admin-Token" then codes "secret" else [];
}

abbrev world : World
world = record { store = new_store; log = [] }

put_is_policy : pattern_of put_request.path ≡ policy
unfolding pattern_of ◌==◌ starts_with
put_is_policy = refl

policy_is_api : policy ≢ root
policy_is_api e = cc

put_is_api : pattern_of put_request.path ≢ root
put_is_api = rw put_is_policy policy_is_api

handler-log_example :
    let w' =
      (handler parts.net server (admin_endpoints parts server outside reads) world put_request).0 in
    (w'.log ≡ world.log)
    ⊎ ((parts.net.sum256 (extract_token put_request) ≡ server.token_hash)
        × (statements : List Statement) × (w'.log ≡ world.log ++ (statements ∷ []))
        × IsAccountable parts.parse_duration parts.refusal outside.marshal statements)
handler-log_example = handler-log parts server outside reads world put_request put_is_api
