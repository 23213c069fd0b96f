-- ===== src/Lib.antt =====
-- A verification library for the backend of JSM, a job-application tracker, in Go.
--
-- A request passes the CSRF middleware, then the root mux: four public endpoints, and behind
-- SessionRequired the protected ones. A handler decodes the body, asks the rate limiter where it
-- guards a credential, and calls a service; the services keep users and applications in MongoDB and
-- sessions in Redis. The parts, with paths in backend/internal:
--
--   Common      Shared names, Boolean tests, lists, and byte strings with their lemmas.
--   Number      Go's int as ℤ, strconv.Itoa and Atoi.
--   Text        unicode/utf8 and strings as the code uses them: TrimSpace, EscapeString, runes.
--   Metrics     common/metrics/def.go: the errors, errors.Is and errors.As.
--   Domain      domain: documents and requests, as records with the Go fields' names.
--   Http        common/jsmHttp, and what the code uses of requests, headers and cookies.
--   RateLimit   rate-limiter: limiter.go here, memory.go in RateLimit.Memory, redis.go in
--               RateLimit.Redis, clientip.go in RateLimit.ClientIp, middleware.go in RateLimit.Guard.
--               RateLimit.Store is the interface between the limiter and its counters.
--               RateLimit.Redis.Script is the script that redis.go runs.
--   Csrf        authentication/csrf.go: signCSRF, MintCSRFToken, VerifyCSRFToken.
--   Session     authentication/session.go and middleware.go, store/redis/session_store.go.
--               Session.Manager is NewSessionManager of common/redisWrap/client.go, and
--               Session.Stored.IsHashStore what Redis documents of the session store's commands.
--   Password    authentication/password.go, and enforcePasswordComplexity of service/auth.go.
--   Mongo       common/mongoWrap and store/mongo. Mongo.Collection is the driver's collection, a
--               parameter, and Mongo.IsCollection what its documentation says of it; a write that
--               returns an error may have been made.
--               Mongo.Startup is EnsureIndexes of client.go and the migrations that it runs.
--   Sanitise    clean, cleanList and validateJobLink of service/application.go.
--   Accounts    service/auth.go and user.go.
--   Applications  The rest of service/application.go.
--   Handlers    http/handlers, and http/routers.go in Handlers.Routes, with the rules by which
--               net/http's ServeMux cleans a path, redirects and matches. What a redirect points
--               to is left out.
--   Config      config/config.go, and localOnly of backend/cmd/api/main.go.
--   Server      NewServices, NewStore and NewRouter: the parts above as one server. Server.History is
--               a sequence of requests to it, with time between them in which keys run out.
--   Middleware  http/middleware: recovery and request logging, over handlers that may panic.
--   Logging     common/logbuilder.
--   Mailer      common/mailer, which the server does not call yet.
--   Run         run of backend/cmd/api/main.go: what is opened, used and closed, in order.
--   Examples    Sample parameters and the theorems at concrete inputs.
--
-- A function keeps its Go name in snake_case. State is passed explicitly: an operation on a store
-- takes its state and returns the new one, and a middleware is a function between handlers. A Go
-- (value, error) pair is a Result, a lone error an Option. Strings are lists of bytes. Durations and
-- instants are nanoseconds on ℕ, the instants since Go's zero time; they do not overflow in the
-- centuries that the code runs in. Where a product of input can exceed an int64, its wrap-around is
-- written out: ListApplications' skip, and the sessions' time to live, which may be negative.
-- Printing a number takes fuel, one more than the number, which has no more digits than that;
-- trimming a text takes its length, and no white space is left to trim then. All other loops are
-- structural recursion.
--
-- What lies outside the repository is a parameter: SHA-256, HMAC, bcrypt, random bytes, UUIDs,
-- ObjectIDs, the clock, package unicode's tables, net/netip, net/url, net/mail, encoding/json, the
-- MongoDB collection and the driver's calls on indexes, the Redis commands, and logrus's levels. A
-- section or a record holds them. The handlers of Server do not panic; Middleware is about any
-- handler. Of log lines only those of Middleware and Logging are modelled. Not modelled: the
-- Ping of store/mongo/health.go and the options of the connections, timeouts and cancellation,
-- BurnPasswordComparison, which has no result, and the frontend and the browser extension.
pub mod Common
pub mod Number
pub mod Metrics
pub mod Domain
pub mod Http
pub mod Mongo
pub mod Csrf
pub mod Password
pub mod Session
pub mod Accounts
pub mod Applications
pub mod Handlers
pub mod Server
pub mod Run
pub mod Middleware
pub mod Logging
pub mod Mailer
pub mod Config
pub mod RateLimit
pub mod Text
pub mod Sanitise
pub mod Examples
