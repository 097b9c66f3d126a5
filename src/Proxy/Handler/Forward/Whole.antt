-- ===== src/Proxy/Handler/Forward/Whole.antt =====
-- ServeHTTP of internal/proxy/handler.go together with its forwarding.
use unirate.Prelude.{
  ℕ, Bool, true, false, ◌&&◌, ltb, if◌then◌else◌, List, [], ◌∷◌, ◌++◌, refl, arith, Bool-cases, inl,
  inr,
}
use unirate.Prelude.Text.{Bytes, codes}
use unirate.Prelude.Int.{pos, ◌+ℤ◌}
use unirate.Limiter.Rule.{Rule}
use unirate.Limiter.Check.Prepare.{Meta}
use unirate.Prelude.Text.{contains}
use unirate.Meta.{RequestMeta}
use unirate.Upstream.{Target}
use unirate.Proxy.Stream.{is_sse, SseCopyResult}
use unirate.Proxy.Handler.{
  Options, Event, status_written, req_total, upstream_err, upstream_lat, Gate, World, Incoming,
  Parts, write_error, observe, serve_http,
}
use unirate.Proxy.Handler.Counts.{
  gauge, statuses, change, writes, Adds, Moves, Moves-append, trans-Moves,
}
use unirate.Proxy.Handler.Settled.{Settles, serve_http-Settles}
use unirate.Proxy.Handler.Forward.{
  Upstreams, Response, Answer, bad_url, timed_out, client_closed, broken, answered, failed_upstream,
  stream_events, sse_headers, has_token_metric, note, relay, settle_answer, forward, upstream_url,
}

plain-Adds :
    (biz : Bytes) (status : ℕ) → Adds 1 (status_written status ∷ observe biz (codes "pass") status)
unfolding gauge statuses change writes observe ◌+ℤ◌
plain-Adds biz status = (refl, refl)

stream-Adds :
    (biz : Bytes) (status : ℕ) (res : SseCopyResult)
    → Adds 1 (
        sse_headers
        ++ (status_written status ∷ [])
        ++ stream_events biz res
        ++ observe biz (codes "stream") status)
unfolding gauge statuses change writes observe sse_headers stream_events ◌+ℤ◌
stream-Adds biz status res = elim (Bool-cases (ltb 0 res.ttft)) [
  | inl e ↦ elim (Bool-cases (ltb 0 res.frames)) [
    | inl f ↦ rw (e, f) (refl, refl)
    | inr f ↦ rw (e, f) (refl, refl)
  ]
  | inr e ↦ elim (Bool-cases (ltb 0 res.frames)) [
    | inl f ↦ rw (e, f) (refl, refl)
    | inr f ↦ rw (e, f) (refl, refl)
  ]
]

choose-Settles :
    {S : Type 0} (b : Bool) (w x y : World S)
    → Settles w x
    → Settles w y
    → Settles w (if b then x else y)
choose-Settles true w x y first second = first
choose-Settles false w x y first second = second

told-Moves : (told es : List Event) → Adds 1 es → Moves (pos 0) 1 told (told ++ es)
told-Moves told es (quiet, wrote) = Moves-append told es (pos 0) 1 quiet (omega (arith, wrote))

-- After the time of the upstream's answer was noted.
lat-Moves :
    (told es : List Event) (biz : Bytes)
    → Moves (pos 0) 1 (told ++ (upstream_lat biz ∷ [])) es
    → Moves (pos 0) 1 told es
unfolding gauge statuses change writes ◌+ℤ◌
lat-Moves told es biz later =
    trans-Moves told (told ++ (upstream_lat biz ∷ [])) es (pos 0) (pos 0) 0 1
      (Moves-append told (upstream_lat biz ∷ []) (pos 0) 0 refl (omega arith)) later

failed-Adds :
    (biz : Bytes) (status : ℕ) (kind text id : Bytes)
    → Adds 1 (upstream_lat biz ∷ failed_upstream biz status kind text id)
unfolding gauge statuses change writes failed_upstream write_error ◌+ℤ◌
failed-Adds biz status kind text id = (refl, refl)

bad_url-Adds :
    (biz text id : Bytes)
    → Adds 1 (
        write_error 502 (codes "bad_upstream_url") text id
        ++ (upstream_err biz (codes "bad_url") ∷ []))
unfolding gauge statuses change writes write_error ◌+ℤ◌
bad_url-Adds biz text id = (refl, refl)

closed-Moves :
    (told : List Event) (biz : Bytes)
    → Moves
        (pos 0)
        1
        told
        (told ++ (upstream_lat biz ∷ req_total biz (codes "client_closed") 499 ∷ []))
unfolding gauge statuses change writes ◌+ℤ◌
closed-Moves told biz = Moves-append told _ (pos 0) 1 refl (omega arith)

module _ {St : Type 0} (u : Upstreams St) where
  relay-Settles :
      (w : World St) (m : Meta) (rm : RequestMeta) (rules : List Rule) (sent : Incoming)
      (r : Response)
      → Settles w (relay u w m rm rules sent r)
  unfolding relay
  relay-Settles w m rm rules sent r =
      let (st, res) = u.copy_stream w.lim rules m sent in
      choose-Settles (is_sse r.content_type) w _ _
        (told-Moves w.told _ (stream-Adds rm.biz r.status res))
        (choose-Settles
          (has_token_metric rules
            && (u.metering_on rm.biz && contains r.content_type (codes "json")))
          w _ _ (told-Moves w.told _ (plain-Adds rm.biz r.status))
          (told-Moves w.told _ (plain-Adds rm.biz r.status)))

  answer-Settles :
      (w : World St) (m : Meta) (rm : RequestMeta) (rules : List Rule) (sent : Incoming)
      (a : Answer)
      → Settles w (settle_answer u w m rm rules sent a)
  unfolding settle_answer
  answer-Settles w m rm rules sent (bad_url text) =
      told-Moves w.told _ (bad_url-Adds rm.biz text m.request_id)
  answer-Settles w m rm rules sent (timed_out text) =
      told-Moves w.told _ (failed-Adds rm.biz 504 (codes "upstream_timeout") text m.request_id)
  answer-Settles w m rm rules sent client_closed = closed-Moves w.told rm.biz
  answer-Settles w m rm rules sent (broken text) =
      told-Moves w.told _ (failed-Adds rm.biz 502 (codes "upstream_error") text m.request_id)
  answer-Settles w m rm rules sent (answered r) =
      lat-Moves w.told _ rm.biz
        (relay-Settles (note u w (upstream_lat rm.biz ∷ [])) m rm rules sent r)

  -- The forwarding leaves the gauge and writes one status at most.
  pub forward-Settles :
      (w : World St) (opt : Options) (m : Meta) (rm : RequestMeta) (t : Target) (rules : List Rule)
      (sent : Incoming)
      → Settles w (forward u w opt m rm t rules sent)
  unfolding forward
  forward-Settles w opt m rm t rules sent =
      answer-Settles w m rm rules sent
        (u.round_trip (upstream_url t rm.path (u.raw_query sent)) sent)

-- Every request is settled when ServeHTTP returns, whatever came of it: a bad path, no upstream, a
-- refusal, or the forwarding, with a hold or without one, whatever the upstream answered. The gauge of
-- requests in flight is what it was, and one status was written at most.
pub serve_http-forward :
    (g : Gate) (u : Upstreams g.St) (h : Parts g) (opt : Options) (w : World g.St) (sent : Incoming)
    → Settles w (serve_http g (record h { forward = forward u }) opt w sent)
serve_http-forward g u h opt w sent =
    serve_http-Settles g (record h { forward = forward u }) (forward-Settles u) opt w sent
