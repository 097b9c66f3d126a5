-- ===== src/Config/Store/Same.antt =====
-- The comparison of two policies in internal/config/policy_store.go.
use unirate.Prelude.{◌≡◌, refl, sym, Bool, true, false, arith}
use unirate.Prelude.Text.{eq_iff}
use unirate.Prelude.Int.{ℤ, eq_of_parts}
use unirate.Config.Policy.{Policy}
use unirate.Config.Store.{eq_ℤ, eq_bool, same_policy}

eq_ℤ-eq : (a b : ℤ) → eq_ℤ a b ≡ true → a ≡ b
unfolding eq_ℤ
eq_ℤ-eq a b h = eq_of_parts a b (ground (arith, h))

eq_bool-eq : (a b : Bool) → eq_bool a b ≡ true → a ≡ b
unfolding eq_bool
eq_bool-eq true b h = sym h
eq_bool-eq false true h = cc
eq_bool-eq false false h = refl

pub same_policy-eq : (p q : Policy) → same_policy p q ≡ true → p ≡ q
unfolding same_policy
same_policy-eq p q h =
    let e0 : p.expose_rule_name ≡ q.expose_rule_name =
      eq_bool-eq p.expose_rule_name q.expose_rule_name (ground (arith, h)) in
    let e1 : p.upstream_timeout ≡ q.upstream_timeout =
      eq_ℤ-eq p.upstream_timeout q.upstream_timeout (ground (arith, h)) in
    let e2 : p.token_flush_interval ≡ q.token_flush_interval =
      eq_ℤ-eq p.token_flush_interval q.token_flush_interval (ground (arith, h)) in
    let e3 : p.max_request_body_mb ≡ q.max_request_body_mb =
      eq_ℤ-eq p.max_request_body_mb q.max_request_body_mb (ground (arith, h)) in
    let e4 : p.config_poll_interval ≡ q.config_poll_interval =
      eq_ℤ-eq p.config_poll_interval q.config_poll_interval (ground (arith, h)) in
    let e5 : p.log_level ≡ q.log_level = (eq_iff p.log_level q.log_level).0 (ground (arith, h)) in
    let e6 : p.instances ≡ q.instances = eq_ℤ-eq p.instances q.instances (ground (arith, h)) in
    λ i. record {
      expose_rule_name = e0 i;
      upstream_timeout = e1 i;
      token_flush_interval = e2 i;
      max_request_body_mb = e3 i;
      config_poll_interval = e4 i;
      log_level = e5 i;
      instances = e6 i;
    }
