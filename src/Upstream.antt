-- ===== src/Upstream.antt =====
-- internal/upstream/resolver.go: where a request goes. The URL parser, the name service and the
-- environment are parameters; in one call of Validate a name resolves the same each time. Letters are those
-- of ASCII. The map of cached variables is one map:
-- the loads and stores of other requests are other steps.
pub mod Address
pub mod Host
pub mod Public
pub mod Cached
mod Examples
use unirate.Prelude.{
  ℕ, ◌-◌, ◌*◌, ◌+◌, ◌/◌, ◌^◌, Bool, true, false, not, ◌&&◌, ◌||◌, ◌==◌ as nat_eq, if◌then◌else◌,
  Option, none, some, List, [], ◌∷◌, ◌++◌, map, leb,
}
use unirate.Prelude.Text.{Bytes, codes, ◌==◌, to_lower, trim_space, has_byte, split_last}
use unirate.Upstream.Address.{Ip, is_private_ip}
use unirate.Upstream.Host.{equal_fold, match_allowlist}
use unirate.Prelude.Maps.{Map, lookup, insert}

any_private : List Ip → Bool
unfolding is_private_ip
any_private [] = false
any_private (ip ∷ ips) = is_private_ip ip || any_private ips

pub record Url : Type 0 where
  pub scheme : Bytes
  pub host : Bytes
  pub hostname : Bytes

-- url.Parse, net.ParseIP, net.LookupIP and os.Getenv. Nothing stands for an error.
pub record Net : Type 0 where
  pub parse_url : Bytes → Option Url
  pub parse_ip : Bytes → Option Ip
  pub lookup_ip : Bytes → Option (List Ip)
  pub getenv : Bytes → Bytes

pub record SecurityPolicy : Type 0 where
  pub allow_header_override : Bool
  pub allowed_schemes : List Bytes
  pub host_allowlist : List Bytes
  pub allow_private_network : Bool

pub default_policy : SecurityPolicy
default_policy = record {
  allow_header_override = false;
  allowed_schemes = codes "http" ∷ codes "https" ∷ [];
  host_allowlist = [];
  allow_private_network = true;
}

-- The messages of ErrUpstreamBlocked.
pub data Reason : Type 0 where
  malformed_url missing_host scheme_not_allowed not_in_allowlist header_private private_network :
      Reason

pub data Failure : Type 0 where
  no_upstream : Failure
  upstream_blocked : Reason → Failure

pub data Source : Type 0 where
  config header env : Source

pub record Target : Type 0 where
  pub base_url : Bytes
  pub strip_path_prefix : Bool
  pub source : Source

pub data Resolved : Type 0 where
  resolves : Target → Resolved
  fails : Failure → Resolved

scheme_listed : Bytes → List Bytes → Bool
unfolding equal_fold
scheme_listed s [] = false
scheme_listed s (t ∷ ts) = equal_fold s t || scheme_listed s ts

pub scheme_allowed : Bytes → List Bytes → Bool
unfolding scheme_listed
scheme_allowed s [] = scheme_listed s (codes "http" ∷ codes "https" ∷ [])
scheme_allowed s (t ∷ ts) = scheme_listed s (t ∷ ts)

-- strings.TrimRight(s, "/")
pub trim_right_slash : Bytes → Bytes
trim_right_slash [] = []
trim_right_slash (c ∷ s) = elim (trim_right_slash s) [
  | [] ↦ if nat_eq c b'/' then [] else c ∷ []
  | (d ∷ t) ↦ c ∷ d ∷ t
]

-- strings.ToUpper(strings.ReplaceAll(biz, "-", "_"))
pub env_suffix : Bytes → Bytes
env_suffix =
    map (λ c. if nat_eq c b'-' then b'_' else if leb b'a' c && leb c b'z' then c - 32 else c)

pub is_empty : {A : Type 0} → List A → Bool
is_empty [] = true
is_empty (x ∷ xs) = false

module _ (net : Net) where
  private_addresses : Option (List Ip) → Bool
  unfolding any_private
  private_addresses none = true
  private_addresses (some []) = true
  private_addresses (some (ip ∷ ips)) = any_private (ip ∷ ips)

  private_name : Bytes → Bool
  unfolding private_addresses equal_fold
  private_name host =
      if equal_fold host (codes "localhost") || not (has_byte b'.' host)
      then true
      else private_addresses (net.lookup_ip host)

  pub is_private_host : Bytes → Bool
  unfolding private_name is_private_ip
  is_private_host host = elim (net.parse_ip host) [
    | some ip ↦ is_private_ip ip
    | none ↦ private_name host
  ]

  -- Nothing where the host passes.
  check_host : SecurityPolicy → Bool → Bytes → Option Reason
  unfolding is_private_host is_empty match_allowlist
  check_host p from_header host =
      if not (is_empty p.host_allowlist)
      then (if match_allowlist host p.host_allowlist then none else some not_in_allowlist)
      else if from_header && is_private_host host
      then some header_private
      else if not p.allow_private_network && is_private_host host
      then some private_network
      else none

  check_url : SecurityPolicy → Bool → Url → Option Reason
  unfolding check_host scheme_allowed is_empty
  check_url p from_header u =
      if is_empty u.host
      then some missing_host
      else if not (scheme_allowed u.scheme p.allowed_schemes)
      then some scheme_not_allowed
      else check_host p from_header u.hostname

  pub validate : SecurityPolicy → Bytes → Bool → Option Reason
  unfolding check_url
  validate p raw from_header = elim (net.parse_url raw) [
    | none ↦ some malformed_url
    | some u ↦ check_url p from_header u
  ]

-- The interface `ConfigSource`: the base URL and whether the prefix is stripped.
abbrev pub ConfigSource : Type 0
ConfigSource = Bytes → Option (Bytes × Bool)

pub record Resolver : Type 0 where
  pub policy : SecurityPolicy
  pub header_name : Bytes
  pub env_prefix : Bytes
  pub src : Option ConfigSource
  pub env_cache : Map Bytes

pub new_resolver : Option ConfigSource → SecurityPolicy → Bytes → Bytes → Resolver
unfolding is_empty
new_resolver src policy header_name env_prefix = record {
  policy = policy;
  header_name = if is_empty header_name then codes "X-Upstream-Base-URL" else header_name;
  env_prefix = if is_empty env_prefix then codes "BIZ_" else env_prefix;
  src = src;
  env_cache = [];
}

-- What the configuration has for a business, if that is not empty.
pub configured : Option ConfigSource → Bytes → Option (Bytes × Bool)
unfolding is_empty
configured none biz = none
configured (some src) biz = elim (src biz) [
  | none ↦ none
  | some (base, strip) ↦ if is_empty base then none else some (base, strip)
]

module _ (net : Net) where
  store : Resolver → Bytes → Bytes → Resolver
  store r biz v = record r { env_cache = insert biz v r.env_cache }

  -- The target, or the failure of its validation.
  unless : Option Reason → Target → Resolved
  unless none t = resolves t
  unless (some reason) t = fails (upstream_blocked reason)

  cached : Bytes → Resolved
  unfolding is_empty
  cached v =
      if is_empty v
      then fails no_upstream
      else resolves (record { base_url = v; strip_path_prefix = false; source = env })

  -- The variable of a business that is not in the cache.
  validated : Resolver → Bytes → Bytes → Option Reason → Resolved × Resolver
  unfolding store
  validated r biz trimmed (some reason) = (fails (upstream_blocked reason), store r biz [])
  validated r biz trimmed none = (
    resolves (record { base_url = trimmed; strip_path_prefix = false; source = env }),
    store r biz trimmed,
  )

  read_env : Resolver → Bytes → Bytes → Resolved × Resolver
  unfolding store validated validate is_empty trim_right_slash
  read_env r biz val =
      if is_empty val
      then (fails no_upstream, store r biz [])
      else validated r biz (trim_right_slash val) (validate net r.policy val false)

  from_cache : Resolver → Bytes → Option Bytes → Resolved × Resolver
  unfolding cached read_env env_suffix
  from_cache r biz (some v) = (cached v, r)
  from_cache r biz none = read_env r biz (trim_space (net.getenv (r.env_prefix ++ env_suffix biz)))

  -- The second and the third level.
  override_or_env : Resolver → Bytes → Bytes → Resolved × Resolver
  unfolding unless validate from_cache trim_right_slash is_empty
  override_or_env r biz header_val =
      if r.policy.allow_header_override && not (is_empty header_val)
      then (
        unless (validate net r.policy header_val true) (record {
          base_url = trim_right_slash header_val;
          strip_path_prefix = false;
          source = header;
        }),
        r,
      )
      else from_cache r biz (lookup biz r.env_cache)

  resolve_from : Option (Bytes × Bool) → Resolver → Bytes → Bytes → Resolved × Resolver
  unfolding unless validate override_or_env trim_right_slash
  resolve_from (some (base, strip)) r biz header_val = (
    unless (validate net r.policy base false)
        (record { base_url = trim_right_slash base; strip_path_prefix = strip; source = config }),
    r,
  )
  resolve_from none r biz header_val = override_or_env r biz header_val

  pub resolve : Resolver → Bytes → Bytes → Resolved × Resolver
  unfolding configured resolve_from
  resolve r biz header_val = resolve_from (configured r.src biz) r biz header_val
