-- ===== src/Lib.antt =====
-- LifyGo's web application, apps/web: the pages of the dashboard, the client of the API that they
-- share, and the middleware in front of them; and of its server, apps/api, who may call it, the jobs,
-- their scheduler, the API keys, the one-time passwords and the listing of the logs.
--
-- The parts and how they interact. A page is a React component: its hooks hold its state, its
-- controls call handlers, and a handler waits for calls of the API, which go through `useApi`
-- (apps/web/src/lib/use-api.ts) to `apiFetch` (lib/api.ts) under the paths of lib/endpoints.ts. The
-- middleware (apps/web/src/proxy.ts) decides for each request of a page whether the visitor is let
-- in, redirected or shown another page. The server reads a request in a handler
-- (apps/api/internal/handler), which calls a service (internal/service), which checks the input
-- (internal/model) and queries the database (internal/repository).
--
-- The files.
--   Prelude and its children: Boolean tests, lists, texts with truthiness, `||`, `trim` and
--     `length` of JavaScript, numbers as `Number(s)` reads them, and decimal numerals
--     (Prelude/Decimal) as `String(n)` writes and `strconv.Atoi` of Go reads them.
--   Html: the element tree that a page renders, and the handler calls that a user can cause on it.
--   Http: lib/api.ts and lib/use-api.ts, `apiFetch` as `api_fetch` and `call`; Http/Endpoints:
--     lib/endpoints.ts; Http/Calls: their theorems.
--   Locale: what `Date` does with a text, which depends on the place.
--   Features: features/*/*.types.ts, as far as the pages use them.
--   Page: a page as a system. A step is a gesture on the rendered tree, or a call of the API that
--     settles, in any order and with any outcome. Page/InFlight: two rules about the calls in flight.
--   JobsPage, SendPage, SmtpPage, KeysPage: the pages below apps/web/src/app/dashboard, jobs, send,
--     smtp and api-keys. The parent file has the state, one field for each `useState`, `start` for
--     the handlers up to their first `await`, and `finish` for what follows an `await`; View has the
--     rendered tree; the other children have the theorems, Examples their instances.
--   Overview: app/dashboard/page.tsx; its effect, which carries a number for its own `cancelled`
--     flag, the sorted activities (Overview/Activities), the progress of the setup (Overview/Setup).
--   Carousel: components/dashboard/overview/DashboardCarousel.tsx, with its own step relation.
--   Typewriter: components/useful/typewriter.tsx; texts as their UTF-16 code units.
--   Auth: the local forms of app/sign-in and app/sign-up (Auth/SignIn, Auth/SignUp), with what they
--     share in the parent; Auth/Laws: both as systems, and their theorems.
--   Proxy: proxy.ts under both providers.
--   Session: components/auth-provider-local.tsx, with the browser's cookie; Session/SignOut: what a
--     sign-out leaves, as the middleware sees it.
--   Dashboard: app/dashboard/layout.tsx and components/dashboard/nav-items.ts, dashboard-header.tsx
--     and user-menu.tsx, the frame of the dashboard's pages.
--   Site: components/layout-wrapper.tsx and components/layout/navbar.tsx and footer.tsx, around the
--     pages of the public site; Site/Menu: the visitor's steps.
--   Landing: components/useful/EmailDeliverySimulator.tsx (Landing/Simulator) and
--     components/sections/CarouselPage.tsx (Landing/ServiceCarousel).
--   Query: query strings, as `URLSearchParams` writes plain values and `url.ParseQuery` of Go reads
--     any text; an escaped byte that is no printable ASCII character is read as the replacement
--     character.
--   Services: features/*/*.service.ts, the calls with an API key.
--   Server: apps/api/internal. Server/Jobs: model/job.go, service/job.go and the queries of
--     repository/job.go, with the handlers in Handlers; Errors: what they refuse; Limit: the limit of
--     active jobs; Executions: the history of a job; Private: the jobs of all users in one table;
--     Form: from the form of the jobs page to the stored row. Server/Logs: `Logs` of
--     handler/email.go, `ListLogs` of service/email.go and the queries of repository/email_log.go;
--     its RoundTrip starts at `list_logs` of Services. Server/Access: internal/middleware,
--     clerk_auth.go (Pages: a call of `useApi` that it answers) and ratelimit.go (Rate). Server/Otp:
--     `SendOTP` and `VerifyOTP` of service/email.go, the count of service/usage.go and what Redis
--     holds (internal/redis/redis.go); Codes: one code; Daily: any sequence of calls; Guess:
--     what a check leaves; Limit: the refused call; Race: the commands of two checks. Server/Scheduler: service/scheduler.go with
--     `ListActiveDue` and `UpdateStatus` of repository/job.go, as events of any number of servers on
--     one table; Once: how often a job is executed; Outcome: what becomes of it; Due: `isCronDue`.
--     Server/Keys: service/api_key.go, repository/api_key.go and the hash of pkg/crypto; Life: one
--     key; Service: the requests; Hashes: the table of hashes next to one of keys.
--
-- Conventions. Setters that React batches are one update. A handler sees the state of the latest
-- render when it starts; what it reads of that state behind an `await` is kept with the call in
-- flight. A union of text literals is a data type, and `null` an `Option`. Class names are kept only
-- where they depend on the state. The content of every tab is kept in the tree, so a page may allow
-- more gestures in the model than it shows at once. A reply of the API has the type that the caller
-- names. Parameters are `Date`, `fetch`, `toUpperCase`, the session's token, the route matcher of
-- Clerk, and, in `World`, the server's clock, what other clients of Redis do between two of its commands, its parsers of dates and of cron expressions, its
-- configuration, its checks of keys and tokens, its mailers, and the failures of the database and of
-- Redis. A table of the database is a list of rows.
--
-- No definition runs on fuel: every function recurs on the structure of its argument, the digits of
-- a number on the proof that its tenth is smaller, and runs of a page are derivations of any length.
--
-- Not modelled: styling, the Clerk components, the other landing pages, the primitive components below
-- apps/web/src/components/ui, which are a copy of shadcn/ui, the rest of apps/api (accounts,
-- sending of e-mails, EventBridge, the connection pool), and apps/worker.
pub mod Prelude
pub mod Html
pub mod Http
pub mod Locale
pub mod Features
pub mod Page
pub mod JobsPage
pub mod SendPage
pub mod SmtpPage
pub mod KeysPage
pub mod Overview
pub mod Carousel
pub mod Typewriter
pub mod Auth
pub mod Proxy
pub mod Query
pub mod Services
pub mod Server
pub mod Site
pub mod Session
pub mod Dashboard
pub mod Landing
