-- ===== src/Proxy/Handler/Forward.antt =====
-- forward of internal/proxy/handler.go: what becomes of a request that was let in. The upstream's answer is
-- a parameter. The accounts that go with a body are an interface: of a stream, which Proxy/Stream and
-- Proxy/Sink are about, and of a JSON body. The headers that are copied, and the id that is set again after
-- them, are left out.
pub mod Whole
use unirate.Prelude.{
  ℕ, Bool, true, false, not, ◌&&◌, ◌||◌, ltb, if◌then◌else◌, Option, none, some, List, [], ◌∷◌,
  ◌++◌,
}
use unirate.Prelude.Text.{Bytes, codes, ◌==◌}
use unirate.Prelude.Int.{ℤ, pos, negsuc}
use unirate.Limiter.Rule.{Rule}
use unirate.Limiter.Check.Prepare.{Meta}
use unirate.Limiter.Ledger.Calls.{counts_tokens}
use unirate.Meta.{RequestMeta, extract_biz}
use unirate.Prelude.Text.{contains}
use unirate.Upstream.{Target}
use unirate.Proxy.Stream.{is_sse, SseCopyResult}
use unirate.Proxy.Handler.{
  Options, Event, header_set, status_written, req_total, upstream_err, upstream_lat, ttft,
  stream_duration, sse_streams, sse_frames, Gate, World, Incoming, write_error, observe,
}

-- The stripped path is what ExtractBiz leaves of it.
path_for : Bool → Option (Bytes × Bytes) → Bytes → Bytes
path_for true (some (biz, rest)) path = rest
path_for true none path = path
path_for false split path = path

pub upstream_url : Target → Bytes → Bytes → Bytes
unfolding path_for
upstream_url t path query =
    t.base_url
    ++ path_for t.strip_path_prefix (extract_biz path) path
    ++ (if query == [] then [] else b'?' ∷ query)

-- hasTokenMetric
pub has_token_metric : List Rule → Bool
has_token_metric [] = false
has_token_metric (r ∷ rs) = counts_tokens r || has_token_metric rs

pub record Response : Type 0 where
  pub status : ℕ
  pub content_type : Bytes

-- What comes of the call of the upstream: a URL that is no URL, the deadline, a client that is gone,
-- another error with its text, or a response.
pub data Answer : Type 0 where
  bad_url : Bytes → Answer
  timed_out : Bytes → Answer
  client_closed : Answer
  broken : Bytes → Answer
  answered : Response → Answer

pub record Upstreams (St : Type 0) : Type 0 where
  pub round_trip : Bytes → Incoming → Answer
  pub raw_query : Incoming → Bytes
  pub metering_on : Bytes → Bool
  pub copy_stream : St → List Rule → Meta → Incoming → St × SseCopyResult
  pub meter_json : St → List Rule → Meta → Incoming → St

failed_upstream : Bytes → ℕ → Bytes → Bytes → Bytes → List Event
failed_upstream biz status kind text id =
    write_error status kind text id ++ (upstream_err biz kind ∷ req_total biz kind status ∷ [])

-- What a stream leaves in the metrics. A stream without a data line has no time to the first one.
stream_events : Bytes → SseCopyResult → List Event
stream_events biz res =
    (sse_streams (pos 1) biz ∷ sse_streams (negsuc 0) biz ∷ [])
    ++ (if ltb 0 res.ttft then ttft biz ∷ [] else [])
    ++ (stream_duration biz ∷ [])
    ++ (if ltb 0 res.frames then sse_frames res.frames biz ∷ [] else [])

sse_headers : List Event
sse_headers =
    header_set (codes "Cache-Control") (codes "no-cache, no-transform")
    ∷ header_set (codes "X-Accel-Buffering") (codes "no")
    ∷ []

module _ {St : Type 0} (u : Upstreams St) where
  abbrev note : World St → List Event → World St
  note w es = record w { told = w.told ++ es }

  -- A response, of a stream, of JSON that is metered, or of anything else.
  relay : World St → Meta → RequestMeta → List Rule → Incoming → Response → World St
  unfolding stream_events sse_headers observe
  relay w m rm rules sent r =
      let (st, res) = u.copy_stream w.lim rules m sent in
      let plain = status_written r.status ∷ observe rm.biz (codes "pass") r.status in
      if is_sse r.content_type
      then note (record w { lim = st })
          (sse_headers
            ++ (status_written r.status ∷ [])
            ++ stream_events rm.biz res
            ++ observe rm.biz (codes "stream") r.status)
      else if has_token_metric rules
          && (u.metering_on rm.biz && contains r.content_type (codes "json"))
      then note (record w { lim = u.meter_json w.lim rules m sent }) plain
      else note w plain

  settle_answer : World St → Meta → RequestMeta → List Rule → Incoming → Answer → World St
  unfolding relay failed_upstream write_error
  settle_answer w m rm rules sent (bad_url text) = note w (
      write_error 502 (codes "bad_upstream_url") text m.request_id
      ++ (upstream_err rm.biz (codes "bad_url") ∷ []))
  settle_answer w m rm rules sent (timed_out text) = note w (
      upstream_lat rm.biz ∷ failed_upstream rm.biz 504 (codes "upstream_timeout") text m.request_id)
  settle_answer w m rm rules sent client_closed =
      note w (upstream_lat rm.biz ∷ req_total rm.biz (codes "client_closed") 499 ∷ [])
  settle_answer w m rm rules sent (broken text) =
      note w (
        upstream_lat rm.biz ∷ failed_upstream rm.biz 502 (codes "upstream_error") text m.request_id)
  settle_answer w m rm rules sent (answered r) =
      relay (note w (upstream_lat rm.biz ∷ [])) m rm rules sent r

  pub forward : World St → Options → Meta → RequestMeta → Target → List Rule → Incoming → World St
  unfolding settle_answer
  forward w opt m rm target rules sent =
      settle_answer w m rm rules sent
        (u.round_trip (upstream_url target rm.path (u.raw_query sent)) sent)
