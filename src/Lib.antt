-- ===== src/Lib.antt =====
-- A model of wildman-service, a server that resolves the metadata of audio tracks, with theorems on
-- what makes it correct.
--
-- The program. A browser application lets one administrator set the server up, log in and manage client
-- installations (internal/app/auth, internal/app/client). Customers have accounts with a subscription
-- and a monthly quota, and let devices in (internal/app/account). An installation shows its token,
-- sends observations of tracks and asks for resolutions (internal/app/resolution). The worker claims a
-- request, scores the recordings of the catalog, asks the providers if there is none, merges what they
-- found, and saves ranked candidates (internal/app/worker, internal/app/provider,
-- internal/domain/catalog); the client reports what became of them. The stores of
-- internal/infra/database keep everything in SQL tables.
--
-- The files, and the code that each of them models:
--   Base              lists, texts, equality, integers, and operations that may fail
--   Time, Unicode     instants in nanoseconds; the tables of the package unicode, a parameter
--   Base64            encoding/base64, which tokens and password hashes use
--   Schema            internal/infra/database/dialect.go and database.go: placeholders and migrations
--   Database          the tables, and insertAuditEvent of internal/infra/database/client_store.go
--   Limiter           internal/httpserver/auth_security.go and client_rate_limit.go
--   Client            internal/domain/client; Token: token.go; Store: internal/infra/database/client_store.go;
--                     Service: internal/app/client/service.go
--   Auth              internal/domain/auth; Password, Username, Service: internal/app/auth;
--                     Store: internal/infra/database/auth_store.go
--   Account           internal/domain/account; Support, Service: internal/app/account/service.go;
--                     Store, Devices, Quota: internal/infra/database/account_store.go
--   Catalog           internal/domain/catalog, a module for each of its files; EditDistance and Scoring
--                     are scoring.go, CrossSource is cross_source.go; Rows, Store:
--                     internal/infra/database/catalog_store.go and its tables
--   Resolution        Tables, Store: internal/infra/database/resolution_store.go, observation_store.go,
--                     candidate_store.go, review_store.go, worker_store.go; Ranking, Service:
--                     internal/app/resolution/service.go; Listing: what a client reads; Lifecycle:
--                     the states of a request
--   Provider          internal/app/provider; Sources: source_recorder.go and
--                     internal/infra/database/source_observation_store.go; Cache: cache.go, metrics.go
--   Operations        internal/app/operations/service.go and internal/infra/database/operations_store.go
--   Http              internal/httpserver; Guards: what is read off a request; Cors: cors.go; Middleware:
--                     client_auth.go; Resolutions: resolutions.go; Operators: clients.go, operations.go;
--                     Sessions: auth.go; Accounts: accounts.go
--   Worker            internal/app/worker/service.go; Query: the candidates; Run: RunOnce
--
-- How it is modelled. A Go method on a store or a service is a function from the database to its result
-- and the new database (`Exec`); an error is a value, and a transaction that is not committed changes
-- nothing. Whether a call of the database fails is decided by a schedule (`Faults`) that the theorems
-- are stated for, whatever it is. The clock, random bytes and ids are arguments. A critical section under
-- a mutex is one step, and a run is a sequence of steps in any order. Loops are structural recursion,
-- so nothing needs fuel. Integers are natural numbers, or ℤ where the source may have a negative one;
-- the difference of two durations wraps around at 64 bits as in Go.
--
-- Parameters. Argon2 and SHA-256 are arbitrary functions, and so are the order of times and names that
-- SQL compares as text, the validity of JSON, the tables of Unicode, url.Parse and mime.ParseMediaType and
-- the operations of float64. The worker's repository of the catalog and the providers are what their calls
-- answer. A handler has what the decoder made of the body of its request.
--
-- Not modelled: the decoding of JSON, the routes and the log of the HTTP server; the adapters of the three
-- providers; read-only listings of accounts and clients, and statistics; start-up and
-- configuration; the command-line tools; the browser application.
pub mod Base
pub mod Time
pub mod Schema
pub mod Limiter
pub mod Base64
pub mod Client
pub mod Unicode
pub mod Auth
pub mod Account
pub mod Catalog
pub mod Database
pub mod Resolution
pub mod Provider
pub mod Operations
pub mod Http
pub mod Worker
