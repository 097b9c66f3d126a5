-- ===== src/Admin/Server/Carries.antt =====
-- What the handlers behind the middleware of internal/admin/server.go do to their state, the API does for
-- requests with the token only.
use unirate.Prelude.{
  ◌≡◌, ◌≢◌, ◌⊎◌, inl, inr, refl, Bool, true, false, not, ◌&&◌, ltb, length, Bool-cases, List,
}
use unirate.Prelude.Text.{Bytes, ◌==◌, eq_iff}
use unirate.Meta.{Request}
use unirate.Admin.Server.{
  Server, Net, Endpoints, HandlerFunc, Pattern, bizs, biz_item, reload, snapshot, audit,
  rules_validate, policy, policy_validate, metrics, root, any_method, auth, allow_methods, require,
  require_db, require_store, require_metrics, registered, handler, pattern_of, extract_token,
  ip_allowed,
}

-- The state before and after a call are in a relation that each state has to itself.
module _ {St : Type 0} (R : St → St → Type 0) (same : (st : St) → R st st) where
  abbrev pub Carries : HandlerFunc St → Type 0
  Carries f = (st : St) (r : Request) → R st (f st r).0

  pub record AllCarry (h : Endpoints St) : Type 0 where
    pub bizs_carries : Carries h.handle_bizs
    pub biz_item_carries : Carries h.handle_biz_item
    pub reload_carries : Carries h.handle_reload
    pub snapshot_carries : Carries h.handle_snapshot
    pub audit_carries : Carries h.handle_audit
    pub validate_carries : Carries h.handle_validate
    pub policy_carries : Carries h.handle_policy
    pub policy_validate_carries : Carries h.handle_policy_validate
    pub metrics_carries : Carries h.handle_metrics

  require-Carries :
      (present : Bool) (message : Bytes) (next : HandlerFunc St)
      → Carries next
      → Carries (require present message next)
  unfolding require
  require-Carries false message next c st r = same st
  require-Carries true message next c st r = c st r

  allow_methods-Carries :
      (next : HandlerFunc St) (methods : List Bytes)
      → Carries next
      → Carries (allow_methods next methods)
  unfolding allow_methods
  allow_methods-Carries next methods c st r = elim (Bool-cases (any_method methods r.method)) [
    | inl allowed ↦ rw allowed (c st r)
    | inr other ↦ rw other (same st)
  ]

  -- The state is the same, or the token was right.
  abbrev pub WithToken : Net → Server → Request → St → St → Type 0
  WithToken net srv r st st' =
      (st' ≡ st) ⊎ ((net.sum256 (extract_token r) ≡ srv.token_hash) × R st st')

  auth-WithToken :
      (net : Net) (srv : Server) (next : HandlerFunc St) (st : St) (r : Request)
      → Carries next
      → WithToken net srv r st (auth net srv next st r).0
  unfolding auth
  auth-WithToken net srv next st r c =
      elim (Bool-cases (ltb 0 (length srv.allow) && not (ip_allowed net srv.allow r))) [
        | inl outside ↦ rw outside (inl refl)
        | inr inside ↦
            rw inside (elim (Bool-cases (net.sum256 (extract_token r) == srv.token_hash)) [
              | inr wrong ↦ rw wrong (inl refl)
              | inl right ↦
                  rw right
                    (inr ((eq_iff (net.sum256 (extract_token r)) srv.token_hash).0 right, c st r))
            ])
      ]

  registered-WithToken :
      (net : Net) (srv : Server) (h : Endpoints St) (p : Pattern) (st : St) (r : Request)
      → p ≢ root
      → AllCarry h
      → WithToken net srv r st (registered net srv h p st r).0
  unfolding registered require_db require_store require_metrics
  registered-WithToken net srv h bizs st r api c =
      auth-WithToken net srv _ st r
        (allow_methods-Carries _ _ (require-Carries _ _ h.handle_bizs c.bizs_carries))
  registered-WithToken net srv h biz_item st r api c =
      auth-WithToken net srv _ st r
        (allow_methods-Carries _ _ (require-Carries _ _ h.handle_biz_item c.biz_item_carries))
  registered-WithToken net srv h reload st r api c =
      auth-WithToken net srv _ st r
        (allow_methods-Carries _ _ (require-Carries _ _ h.handle_reload c.reload_carries))
  registered-WithToken net srv h snapshot st r api c =
      auth-WithToken net srv _ st r
        (allow_methods-Carries _ _ (require-Carries _ _ h.handle_snapshot c.snapshot_carries))
  registered-WithToken net srv h audit st r api c =
      auth-WithToken net srv _ st r
        (allow_methods-Carries _ _ (require-Carries _ _ h.handle_audit c.audit_carries))
  registered-WithToken net srv h rules_validate st r api c =
      auth-WithToken net srv _ st r (allow_methods-Carries h.handle_validate _ c.validate_carries)
  registered-WithToken net srv h policy st r api c =
      auth-WithToken net srv _ st r
        (allow_methods-Carries _ _ (require-Carries _ _ h.handle_policy c.policy_carries))
  registered-WithToken net srv h policy_validate st r api c =
      auth-WithToken net srv _ st r
        (allow_methods-Carries h.handle_policy_validate _ c.policy_validate_carries)
  registered-WithToken net srv h metrics st r api c =
      auth-WithToken net srv _ st r
        (allow_methods-Carries _ _ (require-Carries _ _ h.handle_metrics c.metrics_carries))
  registered-WithToken net srv h root st r api c = absurd (api refl)

  -- A request to a registered endpoint leaves the state, or it has the token, and the states before and
  -- after it are in the relation.
  pub handler-WithToken :
      (net : Net) (srv : Server) (h : Endpoints St) (st : St) (r : Request)
      → pattern_of r.path ≢ root
      → AllCarry h
      → WithToken net srv r st (handler net srv h st r).0
  unfolding handler
  handler-WithToken net srv h st r api c =
      registered-WithToken net srv h (pattern_of r.path) st r api c
