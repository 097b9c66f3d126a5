-- ===== src/Proxy/Handler/Settled.antt =====
-- How ServeHTTP of internal/proxy/handler.go leaves the count of requests in flight and the response.
use unirate.Prelude.{
  ℕ, ◌≤◌, Bool, true, false, not, if◌then◌else◌, Option, none, some, List, [], ◌∷◌, ◌++◌, arith,
}
use unirate.Prelude.Text.{Bytes, codes}
use unirate.Prelude.Int.{pos, negsuc, ◌+ℤ◌}
use unirate.Limiter.Rule.{Rule}
use unirate.Limiter.Check.{ConcHold}
use unirate.Limiter.Check.Prepare.{Decision, Meta}
use unirate.Meta.{RequestMeta, extract}
use unirate.Upstream.{Target, Resolved, resolves, fails, resolve}
use unirate.Config.Snapshot.{rules_of}
use unirate.Proxy.Handler.{
  Options, Event, header_set, degraded, redis_errors, conc_in_flight, Gate, World, Incoming, Parts,
  reject, unresolved, request_id, tell, give_back, taken, passed, judged, resolved, described,
  extracted, serve_http,
}
use unirate.Proxy.Handler.Counts.{
  Adds, Moves, reject-Adds, unresolved-Adds, trans-Moves, Moves-append, degraded_note-Adds,
  redis_note-Adds, taken-gauge, given-gauge, header_set-Adds, invalid_path-Adds,
}

-- The gauge is the same, and one status more was written at most.
abbrev pub Settles : {S : Type 0} → World S → World S → Type 0
Settles w w' = Moves (pos 0) 1 w.told w'.told

if-Settles :
    {S : Type 0} (b : Bool) (w x y : World S)
    → Settles w x
    → Settles w y
    → Settles w (if not b then x else y)
if-Settles true w x y first second = second
if-Settles false w x y first second = first

module _ (g : Gate) (h : Parts g) where
  tell-Settles :
      (w : World g.St) (es : List Event) (n : ℕ) → n ≤ 1 → Adds n es → Settles w (tell g h w es)
  unfolding tell
  tell-Settles w es n le (quiet, wrote) =
      Moves-append w.told es (pos 0) 1 quiet (omega (arith, wrote, le))

  -- What the forwarding promises.
  abbrev pub ForwardSettles : Type 0
  ForwardSettles =
      (w : World g.St) (opt : Options) (m : Meta) (rm : RequestMeta) (t : Target)
      (rules : List Rule) (sent : Incoming)
      → Settles w (h.forward w opt m rm t rules sent)

  module _ (law : ForwardSettles) where
    passed-Settles :
        (opt : Options) (m : Meta) (rm : RequestMeta) (t : Target) (rules : List Rule)
        (sent : Incoming) (d : Decision) (hold : Option ConcHold) (w : World g.St)
        → Settles w (passed g h opt m rm t rules sent d hold w)
    unfolding passed give_back tell taken ◌+ℤ◌
    passed-Settles opt m rm t rules sent d none w =
        let (quiet, wrote) = degraded_note-Adds d.degraded rm.biz in
        trans-Moves w.told _ _ (pos 0) (pos 0) 0 1
          (Moves-append w.told _ (pos 0) 0 quiet (omega (arith, wrote)))
          (law _ opt m rm t rules sent)
    passed-Settles opt m rm t rules sent d (some hold) w =
        let (up, wrote) = taken-gauge d.degraded rm.biz in
        let before = tell g h w (
          (conc_in_flight (pos 1) rm.biz ∷ [])
          ++ (if d.degraded then degraded rm.biz (codes "allow") ∷ [] else [])) in
        let after = h.forward before opt m rm t rules sent in
        let (down, wrote') = given-gauge (g.release after.lim hold).1 rm.biz in
        trans-Moves w.told after.told _ (pos 1) (negsuc 0) 1 0
          (trans-Moves w.told before.told after.told (pos 1) (pos 0) 0 1
            (Moves-append w.told _ (pos 1) 0 up (omega (arith, wrote)))
            (law before opt m rm t rules sent))
          (Moves-append after.told _ (negsuc 0) 0 down (omega (arith, wrote')))

    judged-Settles :
        (opt : Options) (m : Meta) (rm : RequestMeta) (t : Target) (sent : Incoming)
        (w : World g.St)
        → Settles w (judged g h opt m rm t sent w)
    unfolding judged tell ◌+ℤ◌
    judged-Settles opt m rm t sent w =
        let (lim, d, hold, failed) = g.check w.lim (rules_of h.bizs rm.biz) m in
        let noted = if failed then redis_errors (codes "check") ∷ [] else [] in
        let (quiet, wrote) = redis_note-Adds failed (codes "check") in
        let checked = tell g h (record w { lim = lim }) noted in
        let first = Moves-append w.told noted (pos 0) 0 quiet (omega (arith, wrote)) in
        if-Settles d.allowed w
          (tell g h checked (reject h.quote opt d rm.biz m.request_id sent.later))
          (passed g h opt m rm t (rules_of h.bizs rm.biz) sent d hold checked)
          (trans-Moves w.told checked.told _ (pos 0) (pos 0) 0 1 first (
            tell-Settles checked (reject h.quote opt d rm.biz m.request_id sent.later) 1
              (omega arith) (reject-Adds h.quote opt d rm.biz m.request_id sent.later)))
          (trans-Moves w.told checked.told _ (pos 0) (pos 0) 0 1 first
            (passed-Settles opt m rm t (rules_of h.bizs rm.biz) sent d hold checked))

    resolved-Settles :
        (opt : Options) (m : Meta) (rm : RequestMeta) (sent : Incoming) (w : World g.St)
        (r : Resolved)
        → Settles w (resolved g h opt m rm sent w r)
    unfolding resolved
    resolved-Settles opt m rm sent w (resolves t) = judged-Settles opt m rm t sent w
    resolved-Settles opt m rm sent w (fails f) =
        tell-Settles w (unresolved f (h.error_text f) rm.biz m.request_id) 1 (omega arith)
          (unresolved-Adds f (h.error_text f) rm.biz m.request_id)

    extracted-Settles :
        (opt : Options) (id : Bytes) (sent : Incoming) (w : World g.St) (o : Option RequestMeta)
        → Settles w (extracted g h opt id sent w o)
    unfolding extracted
    extracted-Settles opt id sent w none = tell-Settles w _ 1 (omega arith) (invalid_path-Adds id)
    extracted-Settles opt id sent w (some rm) =
        let (answer, res) =
          resolve h.upstream_net w.res rm.biz (sent.request.get w.res.header_name) in
        resolved-Settles opt (described g h rm id) rm sent (record w { res = res }) answer

    -- Every request is settled when ServeHTTP returns, whatever came of it, a bad path, no upstream, a
    -- refusal, or the forwarding with a hold or without one: the gauge of requests in flight is what it
    -- was, and one status was written at most, if the forwarding itself leaves the gauge and writes one
    -- status at most.
    pub serve_http-Settles :
        (opt : Options) (w : World g.St) (sent : Incoming) → Settles w (serve_http g h opt w sent)
    unfolding serve_http tell ◌+ℤ◌
    serve_http-Settles opt w sent =
        let id = request_id sent.request sent.new_id in
        let named = tell g h w (header_set (codes "X-Request-Id") id ∷ []) in
        trans-Moves w.told named.told _ (pos 0) (pos 0) 0 1
          (Moves-append w.told _ (pos 0) 0 (header_set-Adds id).0
            (omega (arith, (header_set-Adds id).1)))
          (extracted-Settles opt id sent named (extract h.meta_net opt.meta_config sent.request))
