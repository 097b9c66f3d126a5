-- ===== src/Proxy/Handler/Examples.antt =====
-- A request through the whole handler, over the limiter with a store in memory.
use unirate.Prelude.{false, true, none, some, [], ◌∷◌}
use unirate.Prelude.Text.{codes}
use unirate.Prelude.Int.{pos}
use unirate.Prelude.Maps.{Map}
use unirate.Config.Snapshot.{BizConfig, upstream}
use unirate.Limiter.Breaker.{new_breaker}
use unirate.Limiter.Rule.{Rule, concurrency, request, fixed_window, dim_global}
use unirate.Limiter.Check.{Limiter}
use unirate.Limiter.Batch.Memory.{Memory, whole_numbers, in_memory_store}
use unirate.Upstream.{new_resolver, default_policy}
use unirate.Proxy.Handler.{Gate, World, Parts, Incoming, default_options, serve_http}
use unirate.Limiter.Check.Release.{replied}
use unirate.Proxy.Handler.Limiting.{limiter_gate}
use unirate.Proxy.Handler.Settled.{Settles}
use unirate.Proxy.Handler.Forward.{Upstreams, answered, forward}
use unirate.Proxy.Handler.Forward.Whole.{serve_http-forward}

abbrev the_gate : Gate
the_gate = limiter_gate whole_numbers in_memory_store replied (λ v. v) 7_000_000_000 7_000_000_050

abbrev slots_rule : Rule
slots_rule = record {
  id = 1;
  name = codes "slots";
  type = concurrency;
  metric = request;
  dimensions = dim_global ∷ [];
  window = [];
  limit = pos 0;
  algorithm = fixed_window;
  burst = pos 0;
  watermark = pos 80;
  max_conc = pos 3;
  timeout_sec = pos 30;
  enabled = none;
  win_sec = pos 0;
  natural = false;
}

abbrev known : Map BizConfig
known =
    (
      codes "pay",
      record {
        base_url = codes "http://pay:8080";
        strip_path_prefix = true;
        enabled = true;
        rules = slots_rule ∷ [];
      },
    )
    ∷ []

abbrev answers_200 : Parts the_gate
answers_200 = record {
  meta_net = record { parse_ip = λ s. some s; host_of = λ s. some s };
  upstream_net = record {
    parse_url = λ raw. some (record { scheme = codes "http"; host = raw; hostname = raw });
    parse_ip = λ host. none;
    lookup_ip = λ host. none;
    getenv = λ name. codes "http://pay:8080";
  };
  digest = λ v. v;
  quote = λ s. s;
  error_text = λ f. [];
  bizs = known;
  forward = λ w opt m rm t rules sent. w;
}

abbrev idle : World (Limiter × Memory)
idle = record {
  lim = (
    record {
      tz_offset = pos 0;
      instances = 1;
      local = record { blocks = []; quotas = []; last_gc = 0 };
      breaker = new_breaker 0;
    },
    record {
      clock = (100, 0);
      at = λ k. record { value = none; bucket = (none, none); members = [] };
      distinct = λ k. tt;
    },
  );
  res = new_resolver (some (upstream known)) default_policy [] [];
  told = [];
}

abbrev to_pay : Incoming
to_pay = record {
  request = record {
    path = codes "/pay/v1";
    method = codes "GET";
    remote_addr = codes "10.0.0.1";
    get = λ h. [];
  };
  new_id = codes "r1";
  later = 7_000_000_100;
}

-- An upstream that answers every request with JSON, and a ledger that keeps no account.
abbrev json_upstream : Upstreams (Limiter × Memory)
json_upstream = record {
  round_trip =
      λ url sent. answered (record { status = 200; content_type = codes "application/json" });
  raw_query = λ sent. [];
  metering_on = λ biz. true;
  copy_stream = λ l rules m sent. (l, record { bytes = 0; frames = 0; err = none; ttft = 0 });
  meter_json = λ l rules m sent. l;
}

serve_http-forward_example : Settles idle (
    serve_http the_gate
      (record answers_200 { forward = forward json_upstream })
      default_options
      idle
      to_pay)
serve_http-forward_example =
    serve_http-forward the_gate json_upstream answers_200 default_options idle to_pay
