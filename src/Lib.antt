-- ===== src/Lib.antt =====
-- ai.it-dab.com: the gateway's backend (backend/), a Go service that lets third parties talk to a
-- language model under a credential of their own, and keeps their conversations.
--
-- The parts, and how they interact. A request to POST /v1/gateway/chat passes the two-key
-- authentication (backend/internal/gateway/auth.go), which looks a credential up in the credential
-- store (backend/internal/apikey). The chat handler (gateway/chat.go) validates it, resolves the
-- conversation and assembles the context through the core (backend/internal/gatewaycore), asks the
-- upstream model (backend/internal/vllm), answers with JSON or relays an SSE stream
-- (gateway/stream.go), stores the exchange through the core in the conversation store
-- (backend/internal/conversation), and ends with an audit row (backend/internal/usage) and a log line.
-- Credentials are made and revoked by the admin's handlers (backend/internal/admin/keys.go). The
-- schema is kept by the migration runner (backend/internal/db/migrate). An admin signs in with a
-- password (admin/login.go, internal/auth, internal/user) for a session token (internal/token) in a
-- cookie, which the guard of the admin routes checks (admin/middleware.go); the first account is made
-- by the command createsuperuser. Every request passes the base chain of internal/httpserver: the
-- request log (internal/log), CORS, and the recovery of panics. The configuration comes from the
-- environment (internal/config).
--
-- Which file models which part:
--   Prelude            shared helpers; Prelude/Actions.antt has the methods that may fail
--   Conversation       backend/internal/conversation/conversation.go: the methods of Repository
--   GatewayCore        backend/internal/gatewaycore/gatewaycore.go: Service, over the interface ConvRepo,
--                      whose laws (GatewayCore/Repo.antt) GatewayCore/Postgres.antt shows of Conversation
--   ApiKey             backend/internal/apikey: apikey.go, and credential.go in ApiKey/Credential.antt
--   Usage              backend/internal/usage/usage.go: the record, and the repository in
--                      Usage/Repository.antt
--   Vllm               backend/internal/vllm/client.go: the types, and the client in Vllm/Client.antt
--   Gateway            backend/internal/gateway: Respond (respond.go), Auth (auth.go), Chat (prepareTurn),
--                      Complete (completeChat), Stream (stream.go), Serve (ChatHandler.Chat)
--   Admin              backend/internal/admin: Keys (keys.go), Login (login.go), Guard (middleware.go)
--   Token, Auth        backend/internal/token/token.go, backend/internal/auth/password.go
--   User               backend/internal/user/user.go
--   CreateSuperuser    backend/cmd/createsuperuser/main.go
--   Config             backend/internal/config/config.go
--   Log                backend/internal/log: parseLevel (log.go), and of middleware.go the recorder
--                      (Log/Recorder.antt) and the middleware
--   HttpServer         backend/internal/httpserver: router.go, recover.go and server.go, and health.go
--                      in HttpServer/Health.antt
--   Migrate            backend/internal/db/migrate/migrate.go: Up, Down, GetStatus, CurrentVersion,
--                      Load in Migrate/Files.antt, Create in Migrate/Create.antt, the scripts' text in
--                      Migrate/Scripts.antt
--   MigrateCommand     backend/cmd/migrate/main.go
--   Pool               backend/internal/db/pool.go
--   App                backend/internal/app/app.go: the gateway's route of BuildHandler
--   Server             backend/cmd/server/main.go
--   RateLimit          backend/internal/ratelimit/ratelimit.go
--   Cors               backend/internal/httpserver/cors.go
--   Tests              concrete inputs
--
-- State. A store is a value with the rows of its tables, the clock, the number of uuids drawn, and a
-- script that says of each coming statement whether the driver reports a failure; a method is a
-- function from that state to its result and the state after it, also where it fails. A handler
-- works on a World: the repository's state, what was written to the response, the upstream requests,
-- the audit rows and the log lines. Concurrent requests are not modelled: each method runs alone.
--
-- Parameters, for code that is not in the repository: the uuids that Postgres draws and its reading
-- of a uuid (uuid, parse_uuid), SHA-256, base64url and the random source, the JSON decoders (a
-- decoded body, unmarshal_chunk), the upstream's answers, the token bucket (new_limiter, allow_at), what a migration's SQL does (exec),
-- the case folding of citext (fold), bcrypt (Bcrypt) and the JWT library (Jwt) with their laws (IsBcrypt,
-- IsJwt), url.Parse, time.ParseDuration, mail.ParseAddress, strings.ToLower, and what net/http's mux runs.
--
-- Loops are structural recursion over the list or the number they range over, so no fuel is needed.
--
-- Decimal printing is recursion on Acc.
--
-- Not modelled: the redaction of the configuration, the set-up of slog, JSON encoding, and the
-- frontend.
pub mod Prelude
pub mod Conversation
pub mod GatewayCore
pub mod ApiKey
pub mod Usage
pub mod Vllm
pub mod Gateway
pub mod Admin
pub mod Migrate
pub mod RateLimit
pub mod Cors
pub mod User
pub mod Config
pub mod Log
pub mod HttpServer
pub mod CreateSuperuser
pub mod Server
pub mod App
pub mod MigrateCommand
pub mod Pool
pub mod Auth
pub mod Token
pub mod Tests
