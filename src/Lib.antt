-- ===== src/Lib.antt =====
-- Gobox: a model of the Go library gobox, in the parts that decide who gets in, what is retried,
-- what a query asks for, what is served and what is written to databases, logs and files.
--
-- The parts, and how they work together:
--
-- - Retry (retry/retry.go): `Do` as `do_retry`, a loop over the attempts left, with the answers of the
--   function, of the context and of the callbacks as an explicit world; `backoff` as `backoff`, on
--   int64 durations.
-- - Claims (oidcauth/types.go, oidcauth/oidc.go): the claims and the tests of roles, scopes and party.
-- - Session (oidcauth/session.go, oidcauth/session_manager.go): a session, its ceiling
--   (`computeExpiresAt`), its end (`isExpired`) and its renewal. Session.Manager has the operations of
--   SessionManager over `Services`: the store, the issuer, the identifiers and the wall clock, which
--   read and change one world. Session.Contract states what the documentation of SessionStore promises
--   of them, and Session.Memory is a store in memory that keeps it. Resolve is `resolve`, its stages
--   `resolve_got`, `resolve_loaded` and `after_revalidate`; refresh is `refresh`, which hands
--   `locked_refresh` to the store's WithLock. Session.Cleanup is the loop of oidcauth/cleanup.go.
-- - MemoryCache (oidcauth/cache.go): the cache of claims that can be attached to the verifier.
-- - Introspection (oidcauth/introspection.go): the introspector with its cache of positive answers and
--   its events. The round trip, which calls share by singleflight, is the answer that a call is given.
-- - Verifier (oidcauth/oidc.go, oidcauth/helper.go): `New` as `new_oidc` and `Verify` as `verify`, over
--   the interface `Cache`, which MemoryCache fills, and the introspector.
-- - Middleware (httpserver/middlewares): a request is its method, cookies and headers; a middleware
--   lets it go on or answers it. Tokens and Roles are authorization.go, Csrf is csrf.go, Cors is
--   cors.go, Limits is rate_limit.go.
-- - Login (httpserver/middlewares/oidcauth.go): the signed state of a login (`encodeState` as
--   `encode_state`, `decodeState` as `decode_state`) and `sanitizeReturnTo`. Login.Handlers has the
--   handlers `Callback`, `Refresh` (`refresh_session`) and `Logout` over the session manager; a reply is
--   its status, its address or error code, and the cookies that it sets. Login.Flow is oidcauth/flow.go,
--   and Login.Start has `NewAuth`, `Login` and `Me`.
-- - Respond (httpserver/respond/error_resolver.go): the registered errors, `AddEntries` as `add_entries`,
--   `Resolve` as `resolve_err`; Respond.Sending is respond.go. An error that is a target has an identity
--   besides what it wraps.
-- - Pagination (pagination/paginator.go, filter.go, gorm_scope.go, helper.go): pages with 64-bit
--   integers, the builders, and the rendering of filters and sorts as SQL text with its arguments.
-- - Config (config/viper.go): the loader. A channel is its number in a store of all channels made, since
--   a client keeps one that is no subscriber any more; a panic is `none`. Config.Loading has `Load`,
--   `LoadWithValidation` and `Reload` over viper and the file system, Config.History the critical
--   sections of calls, file events, the timer and reloads as actions in any order.
-- - Fcm (fcm/*.go): `newSendRequest`, `truncateBytes` on bytes of UTF-8, the answers of response.go
--   (Fcm.Answers), and `New` and `Send` (Fcm.Client).
-- - HttpClient (httpclient/client.go): a request, `WithRetry` over Retry with the captured variables as
--   part of the world, and `DecompressResponse`. Retry.Rounds and HttpClient.Retrying.Runs follow the
--   attempts one after the other.
-- - TokenManager (oauth2/token_manager.go): the tokens by scope; `getAccessToken` is `get_access_token`,
--   which uses HttpClient to decode an answer.
-- - HealthCheck (healthcheck/check.go): the registered databases and `probeDB`; HealthCheck.Probing has
--   the goroutines of a report as steps that write in any order.
-- - Progress (cli/progress.go): the pool of terminal lines; Progress.Workers has the workers that share
--   it as a step relation, Progress.Lifecycle the render loop with Start and Stop, Progress.Lines what
--   `render` writes.
-- - Secure (secure/aesgcm.go): `Encrypt` and `Decrypt` over an AEAD cipher.
-- - HttpServer (httpserver/gin.go, httpserver/download_file.go): `NewGin` as `new_gin`, an engine and how
--   it is served, over the interface `Gin` of the router; HttpServer.Payload has the bodies that handlers
--   read, HttpServer.Unknown the answer to unknown routes, and HttpServer.Download `DownloadFile`. A
--   pointer that may be nil is an option.
-- - Database: Database.Gorm is database/gorm/gorm.go, with `New` as `new_gorm`; Database.Sql is
--   database/sql/sql.go; Database.Migrations is database/migrate/migrator.go over one world, which is the
--   database, the files and the context.
-- - Logger (logger/formatter.go, helper.go, zerolog.go): the parts of a line on the console, as bytes of
--   UTF-8; Logger.Tree has the tree of an error, as code points, and Logger.Levels the threshold and the
--   records of requests.
-- - Spreadsheet (spreadsheet/excelize.go): `Write` as `write_spreadsheet`, in both formats.
-- - Host (cli/print.go): the lines of `PrintHeader` with what they read of the host.
-- - Base: texts as lists of code points, maps as association lists, errors as the sentinels that they
--   wrap, and 64-bit integers as wrapped integers.
--
-- Times are nanoseconds since Go's zero time, as natural numbers, so that 0 is the time for which
-- IsZero holds; each operation takes the time that it reads as an argument. A float64 of a claim or of a
-- token response is a whole number of microseconds; the lifetime that a token response reports for a
-- refresh token is turned into nanoseconds without the wrap at 2^63 (292 years). A mutex makes an operation one step, so locks do
-- not appear. The recursion is structural everywhere: no definition runs on fuel.
--
-- Libraries are parameters: the store and the issuer (Services), the SHA-256 digest, the local check of
-- a signed token, the parsing of addresses, the token bucket of the rate limiter, the comparison and the
-- printing of values of type any, viper and the file system (Viper), JSON, keys and the network (Parsers,
-- Keys, Transport, Net), the decoders (Codecs), the databases (Pinger, Orm, Sql, Env), gin (Gin), servers
-- (Serving), excelize (Excel), media types (Media), colors and regular expressions (Printing, Styles),
-- zerolog (Zero), go-oidc (Login.Flow.Oidc), the host (System) and the runtime. What is relied on of them
-- is named as a hypothesis where it is used. A goroutine that the code starts without waiting
-- for it, as a callback of the loader, is recorded as started.
--
-- Not modelled: the type Logger, which hands its arguments to zerolog, the package logger/zerolog, which
-- repeats logger, the banner and the printing by characters of cli/print.go, telemetry and Temporal, which
-- are calls of libraries.
pub mod Base
pub mod Retry
pub mod Claims
pub mod Session
pub mod MemoryCache
pub mod Introspection
pub mod Verifier
pub mod Middleware
pub mod Pagination
pub mod Respond
pub mod Login
pub mod Progress
pub mod Config
pub mod Fcm
pub mod HttpClient
pub mod TokenManager
pub mod HealthCheck
pub mod Secure
pub mod HttpServer
pub mod Database
pub mod Logger
pub mod Spreadsheet
pub mod Host
