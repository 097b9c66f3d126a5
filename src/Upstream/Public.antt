-- ===== src/Upstream/Public.antt =====
-- Where internal/upstream/resolver.go lets a client send a request.
use unirate.Prelude.{
  ◌≡◌, ◌≢◌, ◌⊎◌, inl, inr, Bool, true, false, not, ◌&&◌, ◌||◌, if◌then◌else◌, Option, none, some,
  List, [], ◌∷◌, ◌++◌, All, refl, arith, Bool-cases, sym, ap,
}
use unirate.Prelude.Text.{Bytes, codes, has_byte, trim_space}
use unirate.Prelude.Maps.{lookup}
use unirate.Upstream.Address.{Ip, is_private_ip, IsPublic, is_private_ip-IsPublic}
use unirate.Upstream.Host.{equal_fold, match_allowlist}
use unirate.Upstream.{
  any_private, private_addresses, private_name, is_private_host, Net, Url, SecurityPolicy, Resolver,
  Target, header, env, resolves, configured, Reason, malformed_url, env_suffix, trim_right_slash,
  scheme_allowed, validate, check_url, check_host, unless, validated, from_cache, override_or_env,
  resolve_from, cached, read_env, resolve, is_empty,
}

any_private-IsPublic : (ips : List Ip) → any_private ips ≡ false → All IsPublic ips
unfolding any_private
any_private-IsPublic [] e = tt
any_private-IsPublic (ip ∷ ips) e =
    (is_private_ip-IsPublic ip (ground (arith, e)), any_private-IsPublic ips (ground (arith, e)))

module _ (net : Net) where
  -- A host outside of the private networks: an address that is public, or a name with a dot, not
  -- localhost, that the name service knows, with public addresses only.
  abbrev pub PublicName : Bytes → Type 0
  PublicName host =
      (equal_fold host (codes "localhost") ≡ false)
      × (has_byte b'.' host ≡ true)
      × (ips : List Ip) × (net.lookup_ip host ≡ some ips)
      × (ips ≢ [])
      × All IsPublic ips

  abbrev pub PublicHost : Bytes → Type 0
  PublicHost host =
      ((ip : Ip) × (net.parse_ip host ≡ some ip) × IsPublic ip)
      ⊎ ((net.parse_ip host ≡ none) × PublicName host)

  addresses-IsPublic :
      (o : Option (List Ip))
      → private_addresses net o ≡ false
      → (ips : List Ip) × (o ≡ some ips) × (ips ≢ []) × All IsPublic ips
  unfolding private_addresses
  addresses-IsPublic none e = cc
  addresses-IsPublic (some []) e = cc
  addresses-IsPublic (some (ip ∷ ips)) e =
      (ip ∷ ips, refl, (λ h. cc), any_private-IsPublic (ip ∷ ips) e)

  name_tests :
      (local dot private : Bool)
      → (if local || not dot then true else private) ≡ false
      → (local ≡ false) × (dot ≡ true) × (private ≡ false)
  name_tests local dot private e = ground (arith, e)

  name-PublicName : (host : Bytes) → private_name net host ≡ false → PublicName host
  unfolding private_name
  name-PublicName host e =
      let (named, dotted, public) = name_tests _ _ _ e in
      let (ips, found, some_ip, all) = addresses-IsPublic (net.lookup_ip host) public in
      (named, dotted, ips, found, some_ip, all)

  host-PublicHost : (host : Bytes) → is_private_host net host ≡ false → PublicHost host
  unfolding is_private_host
  host-PublicHost host e = from (net.parse_ip host) refl e
    where
      from :
          (o : Option Ip)
          → net.parse_ip host ≡ o
          → elim o [ some ip ↦ is_private_ip ip | none ↦ private_name net host ] ≡ false
          → PublicHost host
      from none eq e = inr (eq, name-PublicName host e)
      from (some ip) eq e = inl (ip, eq, is_private_ip-IsPublic ip e)

  -- What a header's URL must satisfy.
  abbrev pub Admissible : SecurityPolicy → Url → Type 0
  Admissible p u =
      (u.host ≢ [])
      × (scheme_allowed u.scheme p.allowed_schemes ≡ true)
      × ((match_allowlist u.hostname p.host_allowlist ≡ true)
          ⊎ ((p.host_allowlist ≡ []) × PublicHost u.hostname))

  is_empty-eq : {A : Type 0} (xs : List A) → is_empty xs ≡ true → xs ≡ []
  unfolding is_empty
  is_empty-eq [] e = refl
  is_empty-eq (x ∷ xs) e = cc

  not_empty : {A : Type 0} (xs : List A) → is_empty xs ≡ false → xs ≢ []
  unfolding is_empty
  not_empty [] e = cc
  not_empty (x ∷ xs) e = λ h. cc

  host-Admissible :
      (p : SecurityPolicy) (host : Bytes)
      → check_host net p true host ≡ none
      → (match_allowlist host p.host_allowlist ≡ true) ⊎ ((p.host_allowlist ≡ []) × PublicHost host)
  unfolding check_host
  host-Admissible p host e = elim (Bool-cases (is_empty p.host_allowlist)) [
    | inl empty ↦
        inr (is_empty-eq p.host_allowlist empty, host-PublicHost host (ground (arith, e, empty)))
    | inr listed ↦ inl (ground (arith, e, listed))
  ]

  url-Admissible : (p : SecurityPolicy) (u : Url) → check_url net p true u ≡ none → Admissible p u
  unfolding check_url
  url-Admissible p u e = (
    not_empty u.host (ground (arith, e)),
    ground (arith, e),
    host-Admissible p u.hostname (ground (arith, e)),
  )

  validate-Admissible :
      (p : SecurityPolicy) (raw : Bytes)
      → validate net p raw true ≡ none
      → (u : Url) × (net.parse_url raw ≡ some u) × Admissible p u
  unfolding validate
  validate-Admissible p raw e = from (net.parse_url raw) refl e
    where
      from :
          (o : Option Url)
          → net.parse_url raw ≡ o
          → elim o [ none ↦ some malformed_url | some u ↦ check_url net p true u ] ≡ none
          → (u : Url) × (net.parse_url raw ≡ some u) × Admissible p u
      from none eq e = cc
      from (some u) eq e = (u, eq, url-Admissible p u e)

  unless-resolves :
      (o : Option Reason) (t0 t : Target) → unless net o t0 ≡ resolves t → (o ≡ none) × (t0 ≡ t)
  unfolding unless
  unless-resolves none t0 t e = (refl, cc)
  unless-resolves (some reason) t0 t e = absurd (ground (arith, e))

  -- The environment gives no target that says it came from the header.
  validated-source :
      (r : Resolver) (biz v : Bytes) (o : Option Reason) (t : Target)
      → (validated net r biz v o).0 ≡ resolves t
      → t.source ≡ env
  unfolding validated
  validated-source r biz v none t e = ground (arith, e)
  validated-source r biz v (some reason) t e = absurd (ground (arith, e))

  from_cache-source :
      (r : Resolver) (biz : Bytes) (o : Option Bytes) (t : Target)
      → (from_cache net r biz o).0 ≡ resolves t
      → t.source ≡ env
  unfolding from_cache cached read_env
  from_cache-source r biz (some v) t e = ground (arith, e)
  from_cache-source r biz none t e =
      let val = trim_space (net.getenv (r.env_prefix ++ env_suffix biz)) in
      ground (
        arith,
        e,
        validated-source r biz (trim_right_slash val) (validate net r.policy val false) t,
      )

  not_header : (t : Target) → t.source ≡ header → t.source ≡ env → ⊥
  not_header t a b = ground (arith, a, b)

  -- What a target from the header stands on.
  abbrev pub FromHeader : Resolver → Bytes → Bytes → Target → Type 0
  FromHeader r biz sent t =
      (r.policy.allow_header_override ≡ true)
      × (configured r.src biz ≡ none)
      × (t.base_url ≡ trim_right_slash sent)
      × ((u : Url) × (net.parse_url sent ≡ some u) × Admissible r.policy u)

  override-header :
      (r : Resolver) (biz sent : Bytes) (t : Target)
      → configured r.src biz ≡ none
      → (override_or_env net r biz sent).0 ≡ resolves t
      → t.source ≡ header
      → FromHeader r biz sent t
  unfolding override_or_env
  override-header r biz sent t unset e is =
      elim (Bool-cases (r.policy.allow_header_override && not (is_empty sent))) [
        | inl used ↦
            let chosen : Target = record {
              base_url = trim_right_slash sent;
              strip_path_prefix = false;
              source = header;
            } in
            let (ok, same) =
              unless-resolves (validate net r.policy sent true) chosen t
                (ground (arith, e, used)) in
            (
              ground (arith, used),
              unset,
              sym (ap (λ (t : Target). t.base_url) same),
              validate-Admissible r.policy sent ok,
            )
        | inr unused ↦ absurd (
            not_header t is
              (from_cache-source r biz (lookup biz r.env_cache) t (ground (arith, e, unused))))
      ]

  from-header :
      (o : Option (Bytes × Bool)) (r : Resolver) (biz sent : Bytes) (t : Target)
      → configured r.src biz ≡ o
      → (resolve_from net o r biz sent).0 ≡ resolves t
      → t.source ≡ header
      → FromHeader r biz sent t
  unfolding resolve_from
  from-header none r biz sent t unset e is = override-header r biz sent t unset e is
  from-header (some (base, strip)) r biz sent t set e is =
      let (ok, same) = unless-resolves (validate net r.policy base false) _ t e in
      absurd (ground (arith, same, is))

  -- A target that a client chose with the header: the header is allowed, the configuration has no
  -- upstream for the business, the target is the header's URL less the slashes at its end, and
  -- that URL has a host and an allowed scheme, and, with a list of hosts, a host of that list; without
  -- one, a host outside of the private and reserved networks, whatever the policy says of those.
  pub resolve-FromHeader :
      (r : Resolver) (biz sent : Bytes) (t : Target)
      → (resolve net r biz sent).0 ≡ resolves t
      → t.source ≡ header
      → FromHeader r biz sent t
  unfolding resolve
  resolve-FromHeader r biz sent t e is = from-header (configured r.src biz) r biz sent t refl e is
