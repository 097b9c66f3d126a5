-- ===== src/Upstream/Examples.antt =====
-- A resolver without configuration, and a name service that knows one name.
use unirate.Prelude.{◌≡◌, refl, true, false, if◌then◌else◌, none, some, [], ◌∷◌}
use unirate.Prelude.Text.{Bytes, codes, ◌==◌, to_lower, has_byte, trim_space}
use unirate.Prelude.Maps.{lookup}
use unirate.Upstream.Address.{v4, dotted_quad, is_private_ip, any_contains, contains}
use unirate.Upstream.Host.{equal_fold}
use unirate.Upstream.{
  Net, Resolver, Target, header, resolves, fails, upstream_blocked, private_network, resolve,
  resolve_from, override_or_env, from_cache, read_env, validated, validate, check_url, check_host,
  unless, configured, is_private_host, private_name, private_addresses, any_private, is_private_ip,
  scheme_allowed, scheme_listed, trim_right_slash, is_empty,
}
use unirate.Upstream.Public.{FromHeader, resolve-FromHeader}
use unirate.Upstream.Cached.{recalled, remembered, resolve-resolve}

abbrev one_name : Bytes
one_name = codes "a.example"

abbrev small_net : Net
small_net = record {
  parse_url = λ raw. some (record { scheme = codes "https"; host = raw; hostname = raw });
  parse_ip = λ host. none;
  lookup_ip = λ host. if host == one_name then some (v4 (dotted_quad 93 184 216 34) ∷ []) else none;
  getenv = λ name. one_name;
}

abbrev open_resolver : Resolver
open_resolver = record {
  policy = record {
    allow_header_override = true;
    allowed_schemes = codes "https" ∷ [];
    host_allowlist = [];
    allow_private_network = false;
  };
  header_name = codes "X-Upstream-Base-URL";
  env_prefix = codes "BIZ_";
  src = none;
  env_cache = [];
}

abbrev chosen : Target
chosen = record { base_url = one_name; strip_path_prefix = false; source = header }

header_chosen : (resolve small_net open_resolver (codes "pay") one_name).0 ≡ resolves chosen
unfolding resolve resolve_from override_or_env validate check_url check_host unless configured
    is_private_host private_name private_addresses any_private is_private_ip any_contains contains
    equal_fold scheme_allowed scheme_listed trim_right_slash is_empty ◌==◌ to_lower has_byte
header_chosen = refl

resolve-FromHeader_example : FromHeader small_net open_resolver (codes "pay") one_name chosen
resolve-FromHeader_example =
    resolve-FromHeader small_net open_resolver (codes "pay") one_name chosen header_chosen refl

-- The name service is down.
abbrev down_net : Net
down_net = record small_net { lookup_ip = λ host. none }

first_blocked :
    (resolve down_net open_resolver (codes "pay") []).0 ≡ fails (upstream_blocked private_network)
unfolding resolve resolve_from override_or_env from_cache read_env validated validate check_url
    check_host configured is_private_host private_name private_addresses equal_fold scheme_allowed
    scheme_listed is_empty ◌==◌ to_lower has_byte lookup trim_space
first_blocked = refl

resolve-resolve_example :
    let (first, r) = resolve down_net open_resolver (codes "pay") [] in
    resolve small_net r (codes "pay") [] ≡ (recalled (remembered first), r)
unfolding lookup configured is_empty
resolve-resolve_example =
    resolve-resolve down_net small_net open_resolver (codes "pay") [] [] refl (refl, refl)
      (refl, refl)
