-- ===== src/Admin/Server.antt =====
-- internal/admin/server.go and ui.go: New, the middleware and the routes. net/http's ServeMux is taken for a
-- path that is clean; SHA-256 and the parsers of net are parameters; headers and texts are ASCII.
-- The handlers of the endpoints are those of an interface.
pub mod Guards
pub mod Carries
pub mod Login
mod Examples
use unirate.Prelude.{
  ℕ, Bool, true, false, not, ◌&&◌, ◌||◌, if◌then◌else◌, ◌==◌ as nat_eq, ltb, Option, none, some,
  List, [], ◌∷◌, ◌++◌, length,
}
use unirate.Prelude.Text.{Bytes, codes, ◌==◌, trim_space, to_lower, starts_with}
use unirate.Upstream.Address.{Ip, Block, any_contains}
use unirate.Upstream.Host.{equal_fold}
use unirate.Admin.{Response, write_json, error_json}
use unirate.Admin.Token.{TokenError, validate_token}
use unirate.Meta.{Request}

pub record Options : Type 0 where
  pub token : Bytes
  pub allow_cidrs : List Bytes

-- What the source calls of net and crypto.
pub record Net : Type 0 where
  pub sum256 : Bytes → Bytes
  pub parse_cidr : Bytes → Option Block
  pub parse_ip : Bytes → Option Ip
  pub split_host_port : Bytes → Option Bytes

-- Whether the store of the policy, the database and the metrics are there.
pub record Server : Type 0 where
  pub token_hash : Bytes
  pub allow : List Block
  pub has_store : Bool
  pub has_db : Bool
  pub has_metrics : Bool

pub data NewError : Type 0 where
  bad_token : TokenError → NewError
  bad_cidr : Bytes → NewError

pub data NewResult : Type 0 where
  refused : NewError → NewResult
  started : Server → NewResult

-- The rest of a list of networks of which one was parsed.
abbrev add_block : Bytes → Option Block → (Option Bytes × List Block) → Option Bytes × List Block
add_block c none later = (some c, [])
add_block c (some n) (error, blocks) = (error, n ∷ blocks)

-- The loop over the networks: the first one that does not parse, or all of them.
pub parse_allow : Net → List Bytes → Option Bytes × List Block
parse_allow net [] = (none, [])
parse_allow net (raw ∷ cidrs) =
    let c = trim_space raw in
    let later = parse_allow net cidrs in
    if c == [] then later else add_block c (net.parse_cidr c) later

with_allow : Net → Options → Bool → Bool → Bool → Option Bytes × List Block → NewResult
with_allow net opt has_store has_db has_metrics (some c, blocks) = refused (bad_cidr c)
with_allow net opt has_store has_db has_metrics (none, blocks) = started (record {
  token_hash = net.sum256 opt.token;
  allow = blocks;
  has_store = has_store;
  has_db = has_db;
  has_metrics = has_metrics;
})

-- `New`; its arguments that are not options are whether each of the parts is there.
pub new_server : Net → Options → Bool → Bool → Bool → NewResult
new_server net opt has_store has_db has_metrics = elim (validate_token opt.token) [
  | some e ↦ refused (bad_token e)
  | none ↦ with_allow net opt has_store has_db has_metrics (parse_allow net opt.allow_cidrs)
]

-- strings.Cut(s, " ")
cut_space : Bytes → Option (Bytes × Bytes)
cut_space [] = none
cut_space (b ∷ s) =
    let rest = cut_space s in
    if nat_eq b 32
    then some ([], s)
    else elim rest [ none ↦ none | some (before, after) ↦ some (b ∷ before, after) ]

bearer : Option (Bytes × Bytes) → Bytes
bearer none = []
bearer (some (scheme, rest)) =
    if not (equal_fold scheme (codes "Bearer")) then [] else trim_space rest

pub extract_token : Request → Bytes
extract_token r =
    let auth = trim_space (r.get (codes "Authorization")) in
    if auth == [] then trim_space (r.get (codes "X-Admin-Token")) else bearer (cut_space auth)

pub host_of : Net → Bytes → Bytes
host_of net remote = elim (net.split_host_port remote) [ none ↦ remote | some host ↦ host ]

pub ip_allowed : Net → List Block → Request → Bool
ip_allowed net allow r = elim (net.parse_ip (host_of net r.remote_addr)) [
  | none ↦ false
  | some ip ↦ any_contains allow ip
]

-- A handler over the state that the handlers change.
abbrev pub HandlerFunc : Type 0 → Type 0
HandlerFunc St = St → Request → St × Response

abbrev pub unauthorized : Response
unauthorized = record (error_json 401 (codes "unauthorized")) {
  headers =
      (codes "WWW-Authenticate", codes "Bearer realm=" ++ (34 ∷ codes "unirate-admin") ++ (34 ∷ []))
      ∷ [];
}

abbrev pub source_not_allowed : Response
source_not_allowed = error_json 403 (codes "source not allowed")

join_comma : List Bytes → Bytes
join_comma [] = []
join_comma (m ∷ []) = m
join_comma (m ∷ n ∷ ms) = m ++ codes ", " ++ join_comma (n ∷ ms)

pub any_method : List Bytes → Bytes → Bool
any_method [] m = false
any_method (allowed ∷ methods) m = m == allowed || any_method methods m

module _ {St : Type 0} where
  pub auth : Net → Server → HandlerFunc St → HandlerFunc St
  auth net srv next st r =
      if ltb 0 (length srv.allow) && not (ip_allowed net srv.allow r)
      then (st, source_not_allowed)
      else if not (net.sum256 (extract_token r) == srv.token_hash)
      then (st, unauthorized)
      else next st r

  pub allow_methods : HandlerFunc St → List Bytes → HandlerFunc St
  allow_methods next methods st r = if any_method methods r.method then next st r else (
    st,
    record (error_json 405 (codes "method not allowed")) {
      headers = (codes "Allow", join_comma methods) ∷ [];
    },
  )

  pub require : Bool → Bytes → HandlerFunc St → HandlerFunc St
  require present message next st r =
      if not present then (st, error_json 503 message) else next st r

  pub require_store : Server → HandlerFunc St → HandlerFunc St
  require_store srv = require srv.has_store (codes "config store not ready")

  pub require_db : Server → HandlerFunc St → HandlerFunc St
  require_db srv = require srv.has_db (codes "database not available")

  pub require_metrics : Server → HandlerFunc St → HandlerFunc St
  require_metrics srv = require srv.has_metrics (codes "metrics registry not available")

-- The handlers, and the console if its assets are there.
pub record Endpoints (St : Type 0) : Type 0 where
  pub handle_bizs : HandlerFunc St
  pub handle_biz_item : HandlerFunc St
  pub handle_reload : HandlerFunc St
  pub handle_snapshot : HandlerFunc St
  pub handle_audit : HandlerFunc St
  pub handle_validate : HandlerFunc St
  pub handle_policy : HandlerFunc St
  pub handle_policy_validate : HandlerFunc St
  pub handle_metrics : HandlerFunc St
  pub console : Option (HandlerFunc St)

pub data Pattern : Type 0 where
  bizs biz_item reload snapshot audit rules_validate policy policy_validate metrics root : Pattern

-- The longest pattern that matches a path.
unfoldable pub pattern_of : Bytes → Pattern
pattern_of path =
    if path == codes "/admin/bizs"
    then bizs
    else if starts_with path (codes "/admin/bizs/")
    then biz_item
    else if path == codes "/admin/reload"
    then reload
    else if path == codes "/admin/snapshot"
    then snapshot
    else if path == codes "/admin/audit"
    then audit
    else if path == codes "/admin/rules/validate"
    then rules_validate
    else if path == codes "/admin/policy"
    then policy
    else if path == codes "/admin/policy/validate"
    then policy_validate
    else if path == codes "/admin/metrics"
    then metrics
    else root

-- A path that the console does not serve.
pub is_admin_path : Bytes → Bool
is_admin_path path = starts_with path (codes "/admin/") || path == codes "/admin"

module _ {St : Type 0} where
  -- mountUI; without the console, the answer of ServeMux where nothing matches.
  pub mount_ui : Option (HandlerFunc St) → HandlerFunc St
  mount_ui none st r = (st, write_json 404 [])
  mount_ui (some ui) st r =
      if is_admin_path r.path
      then (st, error_json 404 (codes "no such admin endpoint"))
      else ui st r

  -- What is registered under a pattern.
  pub registered : Net → Server → Endpoints St → Pattern → HandlerFunc St
  registered net srv h bizs =
      auth net srv (
        allow_methods (require_db srv h.handle_bizs)
          (codes "GET" ∷ codes "POST" ∷ codes "PUT" ∷ []))
  registered net srv h biz_item =
      auth net srv (allow_methods (require_db srv h.handle_biz_item) (codes "DELETE" ∷ []))
  registered net srv h reload =
      auth net srv (allow_methods (require_store srv h.handle_reload) (codes "POST" ∷ []))
  registered net srv h snapshot =
      auth net srv (allow_methods (require_store srv h.handle_snapshot) (codes "GET" ∷ []))
  registered net srv h audit =
      auth net srv (allow_methods (require_db srv h.handle_audit) (codes "GET" ∷ []))
  registered net srv h rules_validate =
      auth net srv (allow_methods h.handle_validate (codes "POST" ∷ []))
  registered net srv h policy =
      auth net srv
        (allow_methods (require_store srv h.handle_policy) (codes "GET" ∷ codes "PUT" ∷ []))
  registered net srv h policy_validate =
      auth net srv (allow_methods h.handle_policy_validate (codes "POST" ∷ []))
  registered net srv h metrics =
      auth net srv
        (allow_methods (require_metrics srv h.handle_metrics) (codes "GET" ∷ codes "HEAD" ∷ []))
  registered net srv h root = mount_ui h.console

  pub handler : Net → Server → Endpoints St → HandlerFunc St
  handler net srv h st r = registered net srv h (pattern_of r.path) st r
