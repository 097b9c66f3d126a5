-- ===== src/Upstream/Cached.antt =====
-- What internal/upstream/resolver.go remembers of the environment.
use unirate.Prelude.{
  ◌≡◌, false, not, ◌&&◌, if◌then◌else◌, Option, none, some, [], ◌++◌, refl, Bool-cases, inl, inr,
  ap, ◌∙◌,
}
use unirate.Prelude.Text.{Bytes, ==_refl, trim_space}
use unirate.Prelude.Maps.{lookup, insert, lookup-insert}
use unirate.Upstream.{
  Net, Resolver, Resolved, resolves, fails, no_upstream, Reason, configured, validate, validated,
  from_cache, override_or_env, resolve_from, cached, read_env, resolve, is_empty, env_suffix,
  trim_right_slash, store, env,
}

-- The request reaches the third level.
abbrev pub AsksEnv : Resolver → Bytes → Bytes → Type 0
AsksEnv r biz sent =
    (configured r.src biz ≡ none)
    × ((r.policy.allow_header_override && not (is_empty sent)) ≡ false)

-- A variable that is read is remembered: as it is, or as the empty text after a failure.
pub remembered : Resolved → Bytes
remembered (resolves t) = t.base_url
remembered (fails f) = []

module _ (net : Net) where
  asks_env :
      (r : Resolver) (biz sent : Bytes)
      → AsksEnv r biz sent
      → resolve net r biz sent ≡ from_cache net r biz (lookup biz r.env_cache)
  unfolding resolve resolve_from override_or_env
  asks_env r biz sent (unset, unused) = rw (unset, unused) refl

  validated-remembers :
      (r : Resolver) (biz v : Bytes) (o : Option Reason)
      → (validated net r biz v o).1
        ≡ record r { env_cache = insert biz (remembered (validated net r biz v o).0) r.env_cache }
  unfolding validated store remembered
  validated-remembers r biz v none = refl
  validated-remembers r biz v (some reason) = refl

  read_env-remembers :
      (r : Resolver) (biz val : Bytes)
      → (read_env net r biz val).1
        ≡ record r { env_cache = insert biz (remembered (read_env net r biz val).0) r.env_cache }
  unfolding read_env store remembered
  read_env-remembers r biz val = elim (Bool-cases (is_empty val)) [
    | inl e ↦ rw e refl
    | inr e ↦
        rw e (validated-remembers r biz (trim_right_slash val) (validate net r.policy val false))
  ]

  from_cache-remembers :
      (r : Resolver) (biz : Bytes)
      → from_cache net r biz none ≡ (
        (from_cache net r biz none).0,
        record r { env_cache = insert biz (remembered (from_cache net r biz none).0) r.env_cache },
      )
  unfolding from_cache
  from_cache-remembers r biz =
      ap (λ (s : Resolver). ((from_cache net r biz none).0, s))
        (read_env-remembers r biz (trim_space (net.getenv (r.env_prefix ++ env_suffix biz))))

-- The answer for a remembered text.
abbrev pub recalled : Bytes → Resolved
recalled v =
    if is_empty v
    then fails no_upstream
    else resolves (record { base_url = v; strip_path_prefix = false; source = env })

known : (net : Net) (r : Resolver) (biz v : Bytes) → from_cache net r biz (some v) ≡ (recalled v, r)
unfolding from_cache cached
known net r biz v = refl

-- The environment is read once for a business: when a request has asked for its variable, a later
-- request that reaches this level is answered from the cache, whatever the environment, the name service
-- and the parser say by then: with the URL found, or with `no_upstream` after a failure of any kind. It
-- leaves the resolver as it was.
pub resolve-resolve :
    (net after : Net) (r : Resolver) (biz sent sent' : Bytes)
    → lookup biz r.env_cache ≡ none
    → AsksEnv r biz sent
    → AsksEnv r biz sent'
    → let (first, r') = resolve net r biz sent in
      resolve after r' biz sent' ≡ (recalled (remembered first), r')
resolve-resolve net after r biz sent sent' new asks asks' =
    let out = from_cache net r biz none in
    let r' : Resolver = record r { env_cache = insert biz (remembered out.0) r.env_cache } in
    rw (asks_env net r biz sent asks, new, from_cache-remembers net r biz)
      (asks_env after r' biz sent' asks'
        ∙ ap (from_cache after r' biz)
            (lookup-insert biz biz (remembered out.0) r.env_cache ∙ (rw (==_refl biz) refl))
        ∙ known after r' biz (remembered out.0))
