-- ===== src/Admin/Server/Guards.antt =====
-- What the middleware of internal/admin/server.go keeps from a request without the token.
use unirate.Prelude.{
  ◌≡◌, ◌≢◌, ◌⊎◌, inl, inr, refl, false, not, ◌&&◌, ltb, length, Bool-cases, if◌then◌else◌, List,
}
use unirate.Prelude.Text.{◌==◌}
use unirate.Meta.{Request}
use unirate.Upstream.Address.{Block}
use unirate.Admin.{Response, error_json, write_json}
use unirate.Admin.Server.{
  Server, Net, Endpoints, HandlerFunc, Pattern, bizs, biz_item, reload, snapshot, audit,
  rules_validate, policy, policy_validate, metrics, root, auth, registered, handler, pattern_of,
  extract_token, ip_allowed, unauthorized, source_not_allowed,
}

-- Everything but the console is behind `auth`.
registered-auth :
    {St : Type 0} (net : Net) (srv : Server) (h : Endpoints St) (p : Pattern)
    → p ≢ root
    → (next : HandlerFunc St) × (registered net srv h p ≡ auth net srv next)
unfolding registered
registered-auth net srv h bizs api = (_, refl)
registered-auth net srv h biz_item api = (_, refl)
registered-auth net srv h reload api = (_, refl)
registered-auth net srv h snapshot api = (_, refl)
registered-auth net srv h audit api = (_, refl)
registered-auth net srv h rules_validate api = (_, refl)
registered-auth net srv h policy api = (_, refl)
registered-auth net srv h policy_validate api = (_, refl)
registered-auth net srv h metrics api = (_, refl)
registered-auth net srv h root api = absurd (api refl)

-- The answer to a request without the token.
abbrev pub refusal : Net → List Block → Request → Response
refusal net allow r =
    if ltb 0 (length allow) && not (ip_allowed net allow r)
    then source_not_allowed
    else unauthorized

pub auth_refuses :
    {St : Type 0} (net : Net) (srv : Server) (next : HandlerFunc St) (st : St) (r : Request)
    → (net.sum256 (extract_token r) == srv.token_hash) ≡ false
    → auth net srv next st r ≡ (st, refusal net srv.allow r)
unfolding auth
auth_refuses net srv next st r wrong =
    elim (Bool-cases (ltb 0 (length srv.allow) && not (ip_allowed net srv.allow r))) [
      | inl outside ↦ rw outside refl
      | inr inside ↦ rw (inside, wrong) refl
    ]

status-refusal :
    (net : Net) (allow : List Block) (r : Request)
    → ((refusal net allow r).status ≡ 401) ⊎ ((refusal net allow r).status ≡ 403)
unfolding error_json write_json
status-refusal net allow r =
    elim (Bool-cases (ltb 0 (length allow) && not (ip_allowed net allow r))) [
      | inl outside ↦ rw outside (inr refl)
      | inr inside ↦ rw inside (inl refl)
    ]

handler_refuses :
    {St : Type 0} (net : Net) (srv : Server) (h : Endpoints St) (st : St) (r : Request)
    → pattern_of r.path ≢ root
    → (net.sum256 (extract_token r) == srv.token_hash) ≡ false
    → handler net srv h st r ≡ (st, refusal net srv.allow r)
unfolding handler
handler_refuses net srv h st r api wrong =
    let (next, e) = registered-auth net srv h (pattern_of r.path) api in
    rw e (auth_refuses net srv next st r wrong)

-- A request to a registered endpoint whose token does not have the hash of the server's changes nothing,
-- and its answer, 401 or 403, tells nothing of the server but the networks it allows: two servers that
-- allow the same ones answer alike, whatever their tokens, the parts that are there, their handlers
-- and their states are.
pub handler-refusal :
    {St St' : Type 0} (net : Net) (srv srv' : Server) (h : Endpoints St) (h' : Endpoints St')
    (st : St) (st' : St') (r : Request)
    → pattern_of r.path ≢ root
    → srv.allow ≡ srv'.allow
    → (net.sum256 (extract_token r) == srv.token_hash) ≡ false
    → (net.sum256 (extract_token r) == srv'.token_hash) ≡ false
    → (a : Response) × (handler net srv h st r ≡ (st, a))
      × (handler net srv' h' st' r ≡ (st', a))
      × ((a.status ≡ 401) ⊎ (a.status ≡ 403))
handler-refusal net srv srv' h h' st st' r api same wrong wrong' = (
  refusal net srv.allow r,
  handler_refuses net srv h st r api wrong,
  rw same (handler_refuses net srv' h' st' r api wrong'),
  status-refusal net srv.allow r,
)
