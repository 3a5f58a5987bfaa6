-- ===== src/Lib.antt =====
-- MCPBouncer puts OAuth 2.1 in front of MCP servers. It has two programs. The plugin (plugin/), a
-- middleware of the reverse proxy Traefik, lets a request through to the backend only with a token that
-- the sidecar has issued, and sends the paths of OAuth to the sidecar. The sidecar
-- (sidecar/cmd/bouncer), an authorization server, registers clients, sends users to an upstream OpenID
-- provider, and issues codes, access tokens and refresh tokens, which it keeps in SQLite.
--
-- How the files follow the code:
--   Store, Store/*      sidecar/internal/store/repos.go, sqlite.go, janitor.go: each table is a list of
--                       rows with a primary key (Table), each method of Store one function (Keys,
--                       Clients, Grants), the loop's `tick` is `janitor_tick`
--   Keys, Keys/Jwks     sidecar/internal/keys: Ensure, rotate, ActiveKey; the JWK set
--   Crypto              sidecar/internal/crypto/aesgcm.go: NewCipherWithStore, Encrypt, Decrypt
--   Config              sidecar/internal/config/context.go
--   Tokens              sidecar/internal/tokens/issuer.go
--   Oidc                sidecar/internal/oidc/upstream.go
--   As/*                sidecar/internal/as: As/Token, As/Token/Refresh and As/Token/Endpoint are
--                       token.go, Register is dcr.go, WellKnown is wellknown.go and jwks.go, and
--                       Revoke, Authorize, Callback, Introspect and Userinfo are the files of those
--                       names; Clients is the block that several handlers repeat
--   RateLimit           sidecar/internal/httpx/ratelimit.go: the limiter's buckets
--   Audit               sidecar/internal/audit/audit.go
--   Sidecar             sidecar/cmd/bouncer/main.go: the routes, and a run on the database alone
--   Process             sidecar/cmd/bouncer/main.go, with Limiter.Middleware of ratelimit.go: the whole
--                       process, which is the routes behind the limiter, the audit middleware and the
--                       request log, with every background loop, and the shutdown
--   Environment         sidecar/cmd/bouncer/main.go: the settings, and what is built from them;
--                       sidecar/internal/logx/level.go
--   Plugin/*            plugin: Routing is routing.go, Jwt is jwt_verify.go, JwksCache is
--                       jwks_cache.go, and Setup, Claims, Middleware and Responses are mcpbouncer.go
--   Trust               the two programs together
--   Prelude, Json, Platform, Action, Http
--                       shared helpers; JSON values; what the programs call and do not contain; how a
--                       handler reads, writes and returns early; requests and responses
--   Tests/*             runs of the code on concrete inputs
-- The other modules hold the proofs and are named for what they prove.
--
-- A handler is an `Action`: a function of the process's state, the `World`, that gives the new state
-- and either a value or the response with which the handler has returned early. The World has the
-- database, the cache of providers and the number of calls so far of what lies outside. The record
-- Platform stands for that outside: the clock, the random source, SQLite's failures, hashes, encodings,
-- JSON, PEM, signatures, AES-GCM, URLs and HTTP. Its functions are parameters; those that may answer
-- differently from time to time take the number of the call, so a theorem about every Platform is about
-- every sequence of answers and failures. A theorem that relies on more of them says so among its
-- hypotheses. A statement of SQL that fails writes nothing, and its failures are arbitrary. Handlers run
-- one after the other here; what they share is the database, which each statement changes at once.
--
-- Times are nanoseconds since 1970 as natural numbers, and columns hold seconds as in the code. The
-- zero time is 0. A Go map is a list of pairs of which the first counts, and where the code ranges over
-- a map one order is chosen. A number of JSON is kept as the int64 that the code reads of it; the sums of
-- the plugin's time checks, and the products that make a duration of a setting, wrap around at 64 bits.
-- A header has one value. Every loop is structural recursion on a list or a text, so no fuel is needed.
-- Error texts are kept where a response shows them.
--
-- The audit log's channel is a list with a capacity, and the worker's write of one event is one step of
-- the process, as is a tick of the rotation, of the cleanup and of the limiter's collector. A run is any
-- sequence of such steps and of requests.
--
-- Not modelled: metrics, whose counters nothing in the sidecar calls, and log output; the transport of
-- the reverse proxies; the listeners, their time limits and the signals; the opening of the SQLite file
-- and the migration of its columns; the JSON text of a response; net/http's cleaning of paths;
-- statusRecorder, which passes every call on: the status that is logged is the response's. A duration of
-- the sidecar's settings that an overflow has made negative is not followed into the code that uses it.
pub mod Prelude
pub mod Json
pub mod Platform
pub mod Audit
pub mod Action
pub mod Store
pub mod Keys
pub mod Crypto
pub mod Http
pub mod Config
pub mod Tokens
pub mod Oidc
pub mod As
pub mod RateLimit
pub mod Plugin
pub mod Trust
pub mod Sidecar
pub mod Process
pub mod Environment
pub mod Tests
