-- ===== src/Proxy/Handler.antt =====
-- internal/proxy/handler.go: the way of a request up to its forwarding, and its rejections. The limiter
-- is an interface of Check and Release, and so is the forwarding. What the handler writes to the client
-- and to the metrics is a list of events; the values of the histograms are left out. `quote` is the
-- quotation of %q.
pub mod Forward
pub mod Counts
pub mod Settled
pub mod Limiting
mod Examples
use unirate.Prelude.{
  ℕ, ◌+◌, ◌/◌, Bool, true, false, not, ◌&&◌, ◌||◌, ◌==◌ as nat_eq, if◌then◌else◌, Option, none,
  some, List, [], ◌∷◌, ◌++◌,
}
use unirate.Prelude.Text.{Bytes, codes, ◌==◌}
use unirate.Prelude.Int.{ℤ, pos, negsuc, pos_part, ◌*ℤ◌, int64, leb_ℤ}
use unirate.Prelude.Maps.{Map}
use unirate.Config.Policy.{Policy}
use unirate.Config.Snapshot.{BizConfig, rules_of}
use unirate.Limiter.Rule.{Rule, is_enabled}
use unirate.Limiter.Key.{hash_token, format_int}
use unirate.Limiter.Check.{ConcHold}
use unirate.Limiter.Check.Prepare.{Decision, Meta}
use unirate.Meta.{Config, Request, RequestMeta, default_config, extract}
use unirate.Meta as meta
use unirate.Upstream.{
  Resolver, Target, Resolved, resolves, fails, Failure, no_upstream, upstream_blocked, resolve,
}
use unirate.Upstream as upstream

-- Durations are int64 nanoseconds.
pub record Options : Type 0 where
  pub meta_config : Config
  pub upstream_timeout : ℤ
  pub sse_idle_timeout : ℤ
  pub token_flush_every : ℤ
  pub max_request_body : ℤ
  pub instances : ℤ
  pub expose_rule_name : Bool

pub default_options : Options
default_options = record {
  meta_config = default_config;
  upstream_timeout = pos 60_000_000_000;
  sse_idle_timeout = pos 300_000_000_000;
  token_flush_every = pos 1_000_000_000;
  max_request_body = pos 33_554_432;
  instances = pos 0;
  expose_rule_name = true;
}

pub apply_policy : Options → Option Policy → Options
apply_policy opt none = opt
apply_policy opt (some p) = record opt {
  upstream_timeout = p.upstream_timeout;
  token_flush_every = p.token_flush_interval;
  max_request_body = int64 (p.max_request_body_mb *ℤ pos 1_048_576);
  expose_rule_name = p.expose_rule_name;
  instances = p.instances;
}

-- What the handler does to the response and to the metrics.
pub data Event : Type 0 where
  header_set : Bytes → Bytes → Event
  status_written : ℕ → Event
  error_body : Bytes → Bytes → Bytes → Event
  req_total : Bytes → Bytes → ℕ → Event
  latency : Bytes → Bytes → Event
  rpm : Bytes → Event
  rejected : Bytes → Bytes → Bytes → Event
  degraded : Bytes → Bytes → Event
  upstream_err : Bytes → Bytes → Event
  redis_errors : Bytes → Event
  conc_in_flight : ℤ → Bytes → Event
  sse_streams : ℤ → Bytes → Event
  sse_frames : ℕ → Bytes → Event
  upstream_lat ttft stream_duration : Bytes → Event

-- The limiter as the handler uses it; the Boolean says whether an error came back.
pub record Gate : Type 1 where
  pub St : Type 0
  pub check : St → List Rule → Meta → St × Decision × Option ConcHold × Bool
  pub release : St → ConcHold → St × Bool

pub record World (St : Type 0) : Type 0 where
  pub lim : St
  pub res : Resolver
  pub told : List Event

-- One request: what the client sent, the id that newRequestID would give, and the clock where a
-- rejection reads it.
pub record Incoming : Type 0 where
  pub request : Request
  pub new_id : Bytes
  pub later : ℕ

pub write_error : ℕ → Bytes → Bytes → Bytes → List Event
write_error status code msg req_id =
    header_set (codes "Content-Type") (codes "application/json; charset=utf-8")
    ∷ status_written status
    ∷ error_body code msg req_id
    ∷ []

pub observe : Bytes → Bytes → ℕ → List Event
observe biz decision status = req_total biz decision status ∷ latency biz decision ∷ rpm biz ∷ []

-- Seconds() is taken for exact, which it is up to 97 days.
pub retry_seconds : ℤ → ℕ
retry_seconds retry =
    let secs = pos_part retry / 1_000_000_000 in
    if not (leb_ℤ retry (pos 0)) && nat_eq secs 0 then 1 else secs

reject_message : (Bytes → Bytes) → Bool → Decision → Bytes
reject_message quote false d = codes "rate limit exceeded"
reject_message quote true d =
    codes "rate limit exceeded: rule "
    ++ quote d.rule_name
    ++ codes " on dimension "
    ++ quote d.dimension

pub reject : (Bytes → Bytes) → Options → Decision → Bytes → Bytes → ℕ → List Event
unfolding retry_seconds reject_message write_error observe
reject quote opt d biz req_id later =
    (header_set (codes "Retry-After") (format_int (pos (retry_seconds d.retry_after)))
      ∷ header_set (codes "X-RateLimit-Reset")
          (format_int (pos ((later + pos_part d.retry_after) / 1_000_000_000)))
      ∷ [])
    ++ (if opt.expose_rule_name then header_set (codes "X-RateLimit-Rule") d.rule_name ∷ [] else [])
    ++ (if d.degraded
        then header_set (codes "X-RateLimit-Degraded") (codes "1")
          ∷ degraded biz (codes "reject")
          ∷ []
        else [])
    ++ write_error 429 (codes "rate_limited") (reject_message quote opt.expose_rule_name d) req_id
    ++ (rejected biz d.rule_name d.dimension ∷ [])
    ++ observe biz (codes "reject") 429

failure_answer : Failure → ℕ × Bytes
failure_answer no_upstream = (502, codes "no_upstream")
failure_answer (upstream_blocked reason) = (403, codes "upstream_blocked")

pub unresolved : Failure → Bytes → Bytes → Bytes → List Event
unfolding failure_answer write_error
unresolved f text biz req_id =
    let (code, kind) = failure_answer f in
    write_error code kind text req_id ++ (req_total biz kind code ∷ upstream_err biz kind ∷ [])

request_id : Request → Bytes → Bytes
request_id r new_id =
    if r.get (codes "X-Request-Id") == [] then new_id else r.get (codes "X-Request-Id")

-- What is outside of the handler, and the forwarding of a request that was let in. `error_text` is the
-- text of a failure.
pub record Parts (g : Gate) : Type 1 where
  pub meta_net : meta.Net
  pub upstream_net : upstream.Net
  pub digest : Bytes → Bytes
  pub quote : Bytes → Bytes
  pub error_text : Failure → Bytes
  pub bizs : Map BizConfig
  pub forward :
      World g.St → Options → Meta → RequestMeta → Target → List Rule → Incoming → World g.St

module _ (g : Gate) (h : Parts g) where
  tell : World g.St → List Event → World g.St
  tell w es = record w { told = w.told ++ es }

  -- The deferred function.
  give_back : Bytes → Option ConcHold → World g.St → World g.St
  unfolding tell
  give_back biz none w = w
  give_back biz (some hold) w =
      let (lim, failed) = g.release w.lim hold in
      tell (record w { lim = lim })
        ((if failed then redis_errors (codes "release") ∷ [] else [])
          ++ (conc_in_flight (negsuc 0) biz ∷ []))

  taken : Bytes → Option ConcHold → List Event
  taken biz none = []
  taken biz (some hold) = conc_in_flight (pos 1) biz ∷ []

  -- A request that was let in.
  passed :
      Options
      → Meta
      → RequestMeta
      → Target
      → List Rule
      → Incoming
      → Decision
      → Option ConcHold
      → World g.St
      → World g.St
  unfolding give_back tell taken
  passed opt m rm target rules sent d hold w =
      let before =
        tell w (
          taken rm.biz hold ++ (if d.degraded then degraded rm.biz (codes "allow") ∷ [] else [])) in
      give_back rm.biz hold (h.forward before opt m rm target rules sent)

  judged : Options → Meta → RequestMeta → Target → Incoming → World g.St → World g.St
  unfolding tell passed reject
  judged opt m rm target sent w =
      let rules = rules_of h.bizs rm.biz in
      let (lim, d, hold, failed) = g.check w.lim rules m in
      let checked =
        tell (record w { lim = lim }) (if failed then redis_errors (codes "check") ∷ [] else []) in
      if not d.allowed
      then tell checked (reject h.quote opt d rm.biz m.request_id sent.later)
      else passed opt m rm target rules sent d hold checked

  -- After the resolver has answered.
  resolved : Options → Meta → RequestMeta → Incoming → World g.St → Resolved → World g.St
  unfolding tell unresolved judged
  resolved opt m rm sent w (fails f) = tell w (unresolved f (h.error_text f) rm.biz m.request_id)
  resolved opt m rm sent w (resolves target) = judged opt m rm target sent w

  described : RequestMeta → Bytes → Meta
  described rm req_id = record {
    biz = rm.biz;
    path = rm.path;
    token_hash = hash_token h.digest rm.raw_token;
    ip = rm.ip;
    method = rm.method;
    request_id = req_id;
  }

  extracted : Options → Bytes → Incoming → World g.St → Option RequestMeta → World g.St
  unfolding tell write_error resolved described
  extracted opt req_id sent w none = tell w (
      write_error 400 (codes "invalid_path") (codes "URL must be /{biz}/{upstream_path}") req_id
      ++ (req_total (codes "_") (codes "bad_request") 400 ∷ []))
  extracted opt req_id sent w (some rm) =
      let (answer, res) =
        resolve h.upstream_net w.res rm.biz (sent.request.get w.res.header_name) in
      resolved opt (described rm req_id) rm sent (record w { res = res }) answer

  pub serve_http : Options → World g.St → Incoming → World g.St
  unfolding request_id tell extracted
  serve_http opt w sent =
      let req_id = request_id sent.request sent.new_id in
      extracted opt req_id sent (tell w (header_set (codes "X-Request-Id") req_id ∷ []))
        (extract h.meta_net opt.meta_config sent.request)
