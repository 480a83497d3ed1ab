-- ===== src/Lib.antt =====
-- A verification library for go-performance-starter, a web application in Go: server-rendered pages
-- with HTMX behind a chain of middlewares, accounts at Supabase (GoTrue) with anonymous guests, a
-- PostgreSQL database with row-level security, and performance budgets.
--
-- How the parts interact. A request passes the middlewares of internal/middleware: RealIP settles the
-- address that RateLimiter counts; CSRF checks unsafe requests; GuestSession signs visitors in, and
-- AuthMiddleware or OptionalAuth validate the session and put an identity into the context, from which
-- UserLoader or OptionalUserLoader find or make the row of the users table; the handlers of
-- internal/handler read it. MetricsGuard stands before /metrics. internal/jobs removes guests that have
-- expired, through the admin calls of internal/auth. internal/performance records the durations of the
-- requests, and checks budgets. internal/config validates at boot what the others rely on. The
-- repositories run each query under the identity in the request's context, and the flashcards show
-- what another identity sees of a user's rows. The scripts check the repository's own files.
--
-- The files and the code:
--   Prelude      shared names, lists with positions, sorting, texts (code points), Go maps; Search and
--                Pattern: package strings and package regexp as the scripts use them
--   Http         net/http as the middlewares use it: requests with cookies, form, headers and context,
--                responses, handlers; internal/webutil; view.IsHTMXRequest, view.SetHXRedirect
--   Writers      the http.ResponseWriter under a wrapper, and the calls a handler makes on it
--   Performance  internal/performance: Latency (LatencyRecorder), Observer, Budgets
--   Middleware   RateLimit (ratelimit.go), RealIp (realip.go), Sessions (guest_session.go,
--                auth_middleware.go, OptionalAuth, auth.TokenClaims), Users (user_loader.go,
--                OptionalUserLoader), Csrf (csrf.go), MetricsGuard (metrics_guard.go),
--                Metrics (metrics.go)
--   Auth         internal/auth: Anon (anon.go), Anon.Upgrade (upgrade.go, recover.go)
--   Jobs         internal/jobs: Reaper (reaper.go)
--   Postgres     internal/repository/postgres: Scope (scope.go), Repos (user.go, flashcard.go, quiz.go,
--                organization.go, organization_member.go), ReaperRepo (reaper.go)
--   Config       internal/config/config.go
--   Server       internal/server/server.go: Caching (cacheControlWrapper, errorUncachedWriter)
--   Handler      internal/handler: Quiz (quiz_handlers.go), Upgrade (upgrade_handlers.go), Recover
--                (auth_handlers.go, recover_handlers.go), Patterns (patterns_handlers.go),
--                Flashcards (flashcard_handlers.go, flashcard_isolation.go)
--   Scripts      scripts/adrcheck: AdrLog (adrlog.go), AdrCheck (main.go);
--                scripts/checkversions: CheckVersions (main.go)
-- Each component is a module with its state and operations; below it stand the modules that prove
-- something of it, named for what they prove, and Tests with runs on concrete inputs.
--
-- How it is modelled. A handler is a function from a world, a request and a response to a world and a
-- response. The world is a type parameter: the state of the auth server, the database and the random
-- source. What is not code of this repository is a record of functions: TokenBucket
-- (golang.org/x/time/rate), NetPackage (package net), UrlPackage (net/url), AuthServer (gotrue-go and
-- the decoders of a token), Transport (the HTTP client), Json (its encoder and decoders), Pool (pgx),
-- UserQueries, MemberQueries and their like (the code that sqlc generates), Accounts (the calls of
-- gotrue-go), Parsers (go/scanner, go/parser and the JSON of the ledger). What a statement relies
-- on is a named record of laws: RateLimit.Refusal.IsDocumented, Users.Rows.IsTable,
-- Reaper.Keeping.IsAccounts, Csrf.Guard.GivesBytes, Repos.Users.IsSql, Repos.Primary.IsMemberships,
-- ReaperRepo.Transactions.SeesAll, Flashcards.Isolation.IsReadOnly, Patterns.Scroll.IsLink; Tests
-- has an instance of each.
-- UserRepository, FlashcardRepository and ReaperStore are interfaces of the program itself; the
-- repositories of Postgres fill them. Mutexes make each locked section one step: the model's sequences
-- of operations are the orders in which the steps happen. A user row that is made between the check
-- and the deletion of the reaper's orphan pass is outside of the model.
--
-- Bounds. Times and durations are numbers of nanoseconds; sizes are natural numbers. formatBytes runs
-- on fuel that is enough for every int64, as its theorem says. The walk over the pages of the admin
-- listing is bounded by the 100 pages of the code. The float64 arithmetic of the percentile rank and
-- of Retry-After is written on scaled integers, with the range in which it is exact beside it.
--
-- Not modelled: logging, the texts of errors, HTML, generated code (templ, sqlc), SQL, the wiring in
-- cmd/api, the routes of internal/server, the goroutine of each ticker (a ticker only repeats the
-- modelled step), the handlers of profile, dashboard, first run, health, search engines and
-- static pages, the handlers of the pattern showcase that only render, the scripts
-- checkgenerated, agentsmd and adrguard, and of adrcheck the checks that parse Alpine attributes, the
-- index of the records or the output of git (checkCSPSafeAlpine, checkADRIndexComplete,
-- checkGovernedLayer).
pub mod Prelude
pub mod Http
pub mod Writers
pub mod Performance
pub mod Middleware
pub mod Auth
pub mod Jobs
pub mod Config
pub mod Server
pub mod Handler
pub mod Postgres
pub mod Scripts
