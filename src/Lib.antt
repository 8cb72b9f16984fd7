-- ===== src/Lib.antt =====
-- zerohttp: router, middlewares and stores of the HTTP library.
--
-- The program is a chain of middlewares around a handler of net/http. Each middleware is built by a
-- function New from its configuration, looks at a request, and either calls the handler that it wraps
-- or answers itself. Most of them ask first whether their path lists apply (internal/mwutil). Some
-- keep state between requests: circuits by key, counters and windows by key, events of a stream.
--
-- Text models the strings of Go as lists of byte codes, with the functions of the package strings that
-- the source calls; letters change case in ASCII alone. Map is an association list with one entry for
-- a key. Http has the header fields by their canonical names, a request, and the Outcome of a
-- middleware: pass (the wrapped handler is called), write, problem (a problem detail is rendered) and
-- redirect, each with the response's header fields at that moment.
--
-- Paths: internal/mwutil/util.go (PathMatches, ShouldProcessMiddleware, ValidatePathConfig).
-- Circuit: middleware/circuitbreaker/circuit_breaker.go. Circuit is the struct circuit; is_open
--   and record_result are its methods; serve_start and serve_finish are the handler before and
--   after the call of the wrapped one. Trip has the counting of failures, Recovery the half-open
--   state, Table the circuits by key.
-- Limit: middleware/ratelimit/store.go, the windows of MemoryStore (check_fixed_window,
--   check_sliding_window) and evictOldest. Evict, Fixed and Sliding have the theorems on each,
--   Mixed those on calls for many keys. Handler: middleware/ratelimit/rate_limit.go, the handler
--   over any store; Served has it over the sliding window.
-- Cors: middleware/cors/cors.go, the handler (handle) with the preflight (answer_preflight).
-- Slash: middleware/trailingslash/trailing_slash.go, the handler.
-- Host: middleware/host/host.go, the handler and isValidHost.
-- Content: middleware/contenttype, middleware/contentencoding and middleware/contentcharset,
--   each with its handler: Kind, Encoding and Charset.
-- Media: middleware/mediatype/media_type.go, its matching of patterns and its handler. Wildcard
--   has the stars, Negotiation the choice of a type.
-- Sse: sse/hub.go (Hub) and the MemoryReplayer of sse/replayer.go (Replay).
-- Router: router.go. Router has the route table and the scopes of groups; Build runs the calls
--   that build a router, as programs in which a group holds a program; Pattern is matchPattern
--   and findMatchingRoute, Allow the value of Allow, CatchAll the handler of unmatched requests,
--   Errors HandlerFunc.ServeHTTP with handleHandlerError and the writer of HEAD.
-- Cache: middleware/cache. Store is the MemoryStore of store.go with its heap, its maps and its
--   list; Store/Recency is the list by recency that Store/Refines and Store/History compare it
--   with. Recording is the recorder of cache.go with the buffer of
--   internal/rwutil/response_buffer.go; Cache itself has the handler of cache.go with Matches of
--   middleware/etag/etag.go.
-- Proxy: middleware/reverseproxy/reverse_proxy.go, the choice of a backend. Rotation has the
--   round robin, Connections the counts of connections over all orders of requests.
-- Pagination: pagination/pagination.go.
-- Idempotency: middleware/idempotency. The MemoryStore of store.go, and the handler of
--   idempotency.go as the steps of requests that run at the same time: Step is one of them,
--   Reachable all orders; Exclusion has the locks, Bounded the number of entries.
-- Hmac: middleware/hmacauth/hmac_auth.go: Parsing has the parsers and the handler; authenticate
--   is its checks from the parsed authorization on, build_canonical_request what is signed.
--   Decision says which requests pass, Unsigned what the signature leaves out.
--
-- A configuration is the one after internal/config has merged it with the defaults. Counters of the
-- metrics are events in a list. A section guarded by one lock is one function; what runs between two
-- of them is another step, so an interleaving is a sequence of steps (Idempotency, Proxy.Connections);
-- but a check of the rate limiter and a broadcast are one step each. Times and durations are natural
-- numbers of one unit; the integers of Go are unbounded here but for the counter of the round robin
-- and the numbers of Pagination, which have 64 bits, and a counter that may become negative is an
-- integer.
--
-- Loops over lists are structural recursion. A client that follows redirects (Slash.Laws) has a number
-- of steps to do so: a redirect that takes a slash off shortens the path by a byte, and a redirect that
-- adds one is the last. The digits of a number (Limit.Handler) have the number and one as their fuel.
--
-- Not modelled: the server (listeners and goroutines), how ServeMux chooses among routes, static files,
-- binding and validation (reflection), rendering, metrics, logging, the cryptography of the
-- authentication middlewares, compression, and the proxying of the reverse proxy. The token bucket of
-- the rate limiter computes with floating point and is left out.
pub mod Prelude
pub mod Text
pub mod Map
pub mod Paths
pub mod Http
pub mod Circuit
pub mod Limit
pub mod Cors
pub mod Slash
pub mod Host
pub mod Content
pub mod Media
pub mod Sse
pub mod Router
pub mod Cache
pub mod Proxy
pub mod Pagination
pub mod Idempotency
pub mod Hmac
