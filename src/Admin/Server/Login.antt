-- ===== src/Admin/Server/Login.antt =====
-- Which tokens open the API that New of internal/admin/server.go starts.
use unirate.Prelude.{
  ◌≡◌, ◌≢◌, ◌⊎◌, inl, inr, refl, sym, ap, ◌∙◌, subst, Bool, true, false, not, ◌&&◌, ltb, length,
  Bool-cases, Option, none, some, Option-cases, List, [], ◌∷◌, ◌++◌, arith,
}
use unirate.Prelude.Text.{Bytes, codes, ◌==◌, eq_iff, trim_left, trim_space, to_lower}
use unirate.Prelude.Trim.{trim_space-trim_space, trim_space-append, bare}
use unirate.Upstream.Address.{Block}
use unirate.Upstream.Host.{equal_fold}
use unirate.Meta.{Request}
use unirate.Admin.Token.{validate_token, IsStrong, validate_token-IsStrong}
use unirate.Admin.Server.{
  Server, Net, Options, NewResult, started, parse_allow, with_allow, new_server, HandlerFunc, auth,
  extract_token, ip_allowed, bearer, cut_space,
}
use unirate.Admin.Server.Guards.{auth_refuses, refusal}

started_eq : (s t : Server) → ◌≡◌ {A = NewResult} (started s) (started t) → s ≡ t
started_eq s t e = cc

with_allow-started :
    (net : Net) (opt : Options) (has_store has_db has_metrics : Bool)
    (o : Option Bytes × List Block) (srv : Server)
    → with_allow net opt has_store has_db has_metrics o ≡ started srv
    → srv.token_hash ≡ net.sum256 opt.token
unfolding with_allow
with_allow-started net opt has_store has_db has_metrics (some c, blocks) srv e = cc
with_allow-started net opt has_store has_db has_metrics (none, blocks) srv e =
    let same : ◌≡◌ {A = Server} _ srv = started_eq _ srv e in
    sym (ap (λ (s : Server). s.token_hash) same)

new_server-started :
    (net : Net) (opt : Options) (has_store has_db has_metrics : Bool) (srv : Server)
    → new_server net opt has_store has_db has_metrics ≡ started srv
    → (validate_token opt.token ≡ none) × (srv.token_hash ≡ net.sum256 opt.token)
unfolding new_server
new_server-started net opt has_store has_db has_metrics srv =
    elim (Option-cases (validate_token opt.token)) [
      | inr (problem, e) ↦ rw e (λ h. cc)
      | inl ok ↦
          rw (ok, new_server)
            (λ h. (refl, with_allow-started net opt has_store has_db has_metrics _ srv h))
    ]

validate_token-nil : (tok : Bytes) → validate_token tok ≡ none → tok ≢ []
unfolding trim_space trim_left
validate_token-nil [] ok e =
    let strong = (validate_token-IsStrong []).0 ok in let long = strong.long in omega (arith, long)
validate_token-nil (b ∷ tok) ok e = cc

extract_token-bearer :
    (r : Request) (tok : Bytes)
    → r.get (codes "Authorization") ≡ codes "Bearer " ++ tok
    → tok ≢ []
    → trim_space tok ≡ tok
    → extract_token r ≡ tok
unfolding extract_token bearer cut_space equal_fold to_lower ◌==◌ bare
extract_token-bearer r tok sent some_text trimmed =
    rw (sent, trim_space-append (codes "Bearer ") tok (λ e. cc) refl some_text trimmed) trimmed

-- The token that the API was started with opens it, if it has no white space around it: a request that
-- sends it after `Bearer`, from an allowed network if there are any, reaches the handler.
pub auth-new_server :
    {St : Type 0} (net : Net) (opt : Options) (has_store has_db has_metrics : Bool) (srv : Server)
    (next : HandlerFunc St) (st : St) (r : Request)
    → new_server net opt has_store has_db has_metrics ≡ started srv
    → trim_space opt.token ≡ opt.token
    → r.get (codes "Authorization") ≡ codes "Bearer " ++ opt.token
    → (srv.allow ≡ []) ⊎ (ip_allowed net srv.allow r ≡ true)
    → auth net srv next st r ≡ next st r
unfolding auth
auth-new_server net opt has_store has_db has_metrics srv next st r is_new trimmed sent source =
    let (ok, hash) = new_server-started net opt has_store has_db has_metrics srv is_new in
    let token = extract_token-bearer r opt.token sent (validate_token-nil opt.token ok) trimmed in
    let inside : (ltb 0 (length srv.allow) && not (ip_allowed net srv.allow r)) ≡ false =
      elim source [ inl none_set ↦ rw none_set refl | inr allowed ↦ ground (arith, allowed) ] in
    rw (inside, token, hash, (eq_iff (net.sum256 opt.token) (net.sum256 opt.token)).1 refl) refl

trim_space-bearer : (o : Option (Bytes × Bytes)) → trim_space (bearer o) ≡ bearer o
unfolding bearer trim_space
trim_space-bearer none = refl
trim_space-bearer (some (scheme, rest)) = elim (Bool-cases (equal_fold scheme (codes "Bearer"))) [
  | inl known ↦ rw known (trim_space-trim_space rest)
  | inr other ↦ rw other refl
]

trim_space-extract_token : (r : Request) → trim_space (extract_token r) ≡ extract_token r
unfolding extract_token
trim_space-extract_token r =
    let auth = trim_space (r.get (codes "Authorization")) in
    elim (Bool-cases (auth == [])) [
      | inl absent ↦ rw absent (trim_space-trim_space (r.get (codes "X-Admin-Token")))
      | inr present ↦ rw present (trim_space-bearer (cut_space auth))
    ]

padded-refuses :
    {St : Type 0} (net : Net) (opt : Options) (has_store has_db has_metrics : Bool) (srv : Server)
    (next : HandlerFunc St) (st : St) (r : Request)
    → new_server net opt has_store has_db has_metrics ≡ started srv
    → trim_space opt.token ≢ opt.token
    → (net.sum256 (extract_token r) ≡ net.sum256 opt.token → extract_token r ≡ opt.token)
    → auth net srv next st r ≡ (st, refusal net srv.allow r)
padded-refuses net opt has_store has_db has_metrics srv next st r is_new padded no_collision =
    let (ok, hash) = new_server-started net opt has_store has_db has_metrics srv is_new in
    auth_refuses net srv next st r
      (elim (Bool-cases (net.sum256 (extract_token r) == srv.token_hash)) [
        | inr different ↦ different
        | inl equal ↦
            let same : extract_token r ≡ opt.token =
              no_collision
                ((eq_iff (net.sum256 (extract_token r)) srv.token_hash).0 equal ∙ hash) in
            absurd
              (padded (subst (λ (t : Bytes). trim_space t ≡ t) same (trim_space-extract_token r)))
      ])

with_allow-starts :
    (net : Net) (opt : Options) (has_store has_db has_metrics : Bool)
    (o : Option Bytes × List Block)
    → o.0 ≡ none
    → (srv : Server) × (with_allow net opt has_store has_db has_metrics o ≡ started srv)
unfolding with_allow
with_allow-starts net opt has_store has_db has_metrics (some c, blocks) e = cc
with_allow-starts net opt has_store has_db has_metrics (none, blocks) e = (_, refl)

new_server-starts :
    (net : Net) (opt : Options) (has_store has_db has_metrics : Bool)
    → IsStrong (trim_space opt.token)
    → (parse_allow net opt.allow_cidrs).0 ≡ none
    → (srv : Server) × (new_server net opt has_store has_db has_metrics ≡ started srv)
unfolding new_server
new_server-starts net opt has_store has_db has_metrics strong parsed =
    rw ((validate_token-IsStrong opt.token).1 strong, new_server)
      (with_allow-starts net opt has_store has_db has_metrics (parse_allow net opt.allow_cidrs)
        parsed)

-- A token that has white space around it and is strong without it is accepted by New, if the networks
-- of the options parse, and with the server that it starts no request is let in: the answer is the refusal
-- and nothing is called, where the token that the request sends has not the hash of the configured one
-- without being it.
pub auth-untrimmed :
    {St : Type 0} (net : Net) (opt : Options) (has_store has_db has_metrics : Bool)
    (next : HandlerFunc St) (st : St) (r : Request)
    → IsStrong (trim_space opt.token)
    → (parse_allow net opt.allow_cidrs).0 ≡ none
    → trim_space opt.token ≢ opt.token
    → (net.sum256 (extract_token r) ≡ net.sum256 opt.token → extract_token r ≡ opt.token)
    → (srv : Server) × (new_server net opt has_store has_db has_metrics ≡ started srv)
      × (auth net srv next st r ≡ (st, refusal net srv.allow r))
auth-untrimmed net opt has_store has_db has_metrics next st r strong parsed padded no_collision =
    let (srv, is_new) = new_server-starts net opt has_store has_db has_metrics strong parsed in
    (
      srv,
      is_new,
      padded-refuses net opt has_store has_db has_metrics srv next st r is_new padded no_collision,
    )
