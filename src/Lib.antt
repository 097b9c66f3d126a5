-- ===== src/Lib.antt =====
-- Unirate is an HTTP gateway in Go that limits the rate, the concurrency and the token budget of
-- requests to upstream services; the shared counts are in Redis, behind Lua scripts. A request is
-- checked by internal/limiter, forwarded by internal/proxy, and metered by internal/meter; the windows
-- of internal/obs count what happened.
--
-- Prelude holds the shared helpers: Boolean tests on the native numbers (Tests), lists (Lists), Go
-- strings as lists of bytes (Text) and how they are trimmed (Trim), int64 as integers with `int64` for
-- the wrap-around (Int), and Go maps as association lists with distinct keys (Maps).
--
-- Limiter models internal/limiter:
--   Breaker     breaker.go: degraded, onSuccess, onFailure, rollLocked
--   Local       local.go: blocked, block, allowQuota, gcLocked
--   Rule        rule.go: ParseWindow, IsEnabled; Rule/Validate is Validate, and Validate/Again
--               Validate of what it accepted
--   Key         key.go: WindowBoundary, RateKey and the other keys, safeVal, HashToken
--   Check       limiter.go: Check from the reply of the script on, degrade, localQuota, parseResult;
--               Check/Prepare is the loop of Check, dimValues and the translation to script rules;
--               Check/Release is Release, over the batch scripts
--   Ledger      scripts/token_ledger.lua over a record of Redis commands; Ledger/Calls is ledger.go
--   Batch       scripts/batch_check.lua and release_conc.lua over a larger record of Redis commands, whose
--               documented behaviour is Batch/Laws; Batch/Memory is a store in memory that has it.
--               Rejects, Charges, Admits, Slots, Release and Repeats are about the runs of the scripts
-- Meter models internal/meter/token.go: Estimate is EstimateTokens, Counter the counter of a stream,
-- Usage the readers of what an upstream reports. Floats is float64 as an interface with laws, which
-- Fortieths satisfies with whole numbers.
-- Obs/Window models internal/obs/window.go: the ring of 60 seconds, its sum (Total), the vector of
-- labelled windows (Vectors) and two goroutines in one bucket (Race).
-- Obs/Health models the probes of internal/obs/health.go.
-- Proxy/Handler models ServeHTTP and the rejections of internal/proxy/handler.go over interfaces of the
-- limiter and of the forwarding: Limiting fills the first with Check and Release, Forward the second with
-- forward, over interfaces of the upstream and of the accounts of a body. Settled and Forward/Whole are
-- about every way through it, by the events that Counts counts.
-- Proxy/Sink models sseSink of internal/proxy/handler.go over an interface of TokenReserve and
-- TokenSettle; Sink/Redis fills it with those of Limiter/Ledger, for a key that one rule writes.
-- Proxy/Json models forwardJSONWithMetering of internal/proxy/handler.go over the same ledger.
-- Proxy/Stream models copySSE of internal/proxy/stream.go over the list of what the body's reads give.
-- Meta models internal/meta/extract.go: Biz is the business in a path, ClientIp the client's address.
-- Upstream models internal/upstream/resolver.go: Address is the private networks, Host the list of hosts,
-- Public is about targets that a client chooses, Cached about what is remembered of the environment.
-- Config/Policy models ResolvePolicy of internal/config/policy.go with the limits of policy_spec.go,
-- Policy/Overrides ValidatePolicyOverrides, Config/Snapshot what a loaded configuration of store.go says of a
-- business. Config/Load is the reading of rows and of the snapshot in Redis, of which Rows and Valid say
-- what is loaded; Config/Store models the store of store.go and policy_store.go: a load, a message, a round
-- of the poll and a registration are steps (`step`, `run`), whose histories are in History and Heard.
-- Admin models internal/admin: Token is ValidateToken; Server is New, the middleware and the routes over an
-- interface of handlers (Endpoints), of which Guards, Carries and Login are theorems; Change is a
-- transaction with its audit, as the list of its statements; Policy and Biz are the handlers that write, and
-- Handlers fills the interface.
--
-- State is passed explicitly: an operation takes the state and gives the new one with its result. An
-- instant that the code reads from the clock is an argument. A method under a mutex is one step, and a
-- history is a list of steps. What the code panics on is a value of its own (Validate/Outcome).
-- Recursion is structural; the one fuel is the 20 digits of a formatted number, which an int64 fits.
--
-- Parameters stand for code outside the repository: SHA-256, encoding/json,
-- time.ParseDuration, net.ParseIP, url.Parse, the name service, float64, Redis commands.
-- Check reaches the batch script through `Backend`, as a function that gives a reply or an error; Check/Release
-- tells a script that did not run from one whose reply was lost (Network).
-- The laws of Redis are those of commands that succeed, with positive times to live. A run that ends with
-- WRONGTYPE, as where a fixed and a sliding window share a key, is outside of them.
--
-- SQL, Redis and JSON answer the store and the admin API from outside: an operation has the answers as
-- arguments, and a theorem is about all of them.
--
-- Not modelled: the copied headers of internal/proxy; the environment of internal/config;
-- internal/store, internal/adminui and the commands, which are input and output or wiring; what the
-- admin API only shows; the text output of internal/obs.
pub mod Prelude
pub mod Limiter
pub mod Meter
pub mod Obs
pub mod Proxy
pub mod Admin
pub mod Config
pub mod Meta
pub mod Upstream
