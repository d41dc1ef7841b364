-- ===== src/Lib.antt =====
-- A model of wc-fixture, the back end of a football world cup: five Go services around one aggregate.
--
-- The parts that are modelled, and how they work together:
-- - `fixture-core` keeps the tournament. Its aggregate `Fixture` (contexts/fixture-core/internal/domain/
--   fixture) holds the twelve groups, the knockout rounds and the events that are not yet published.
--   `RegisterMatchResult` completes a match, recalculates the standings of its group, generates the
--   bracket when the last group is complete, and advances the winners of knockout matches. The command
--   handlers (contexts/fixture-core/internal/application/commands) validate, load, call the aggregate,
--   save and publish.
-- - `result-ingestion` (contexts/result-ingestion) validates results, drops duplicates by an idempotency
--   key, and publishes an event from which the consumer of fixture-core
--   (contexts/fixture-core/internal/infrastructure/nats/result_consumer.go) builds its command.
-- - fixture-core answers queries over HTTP (contexts/fixture-core/internal/application/queries and
--   infrastructure/http): a handler parses the request, asks the aggregate or a read model, and answers
--   with a DTO. Its PostgreSQL repositories keep the aggregate under optimistic locking and list matches
--   by filter and page.
-- - `notification` (contexts/notification) consumes the events that fixture-core publishes and calls the
--   webhooks of the subscribers of the tournament that want the kind of the event.
-- - `team-registry` and `venue-geo` (contexts/team-registry, contexts/venue-geo) answer queries on teams,
--   confederations, venues and the distances between venues.
--
-- Files:
-- - Base: numbers, lists, texts; Base/Int is Go's `int`; Base/Cursor is a pointer into a slice; Base/Order
--   has strict weak orders and the contract of a stable sort.
-- - Core/Errors, Slot, Match, Result, Standing, Group, Thirds, Events: the files errors.go, match_slot.go,
--   match.go, standing.go, group.go, best_thirds.go and events.go, one function for each Go function.
-- - Core/Fixture: fixture.go. Fixture.antt has the state and the searches, Bracket
--   `generateKnockoutBracket`, Advance `advanceKnockoutBracket`, Register `RegisterMatchResult`, Schedule
--   `UpdateMatchSchedule`. The other files below it are proofs: Outcome and Reschedule on the paths of the
--   two commands, Contents and Announced on their events, Repeat on a result that comes twice, Progress
--   on the end of the group stage, Pointer and Shape on the rounds, Kept, Invariant, Stranded and Runs on
--   what every run keeps, Qualified on the bracket.
-- - Shared/AppErrors, Pagination, Http: shared/pkg/apperrors, shared/pkg/httputil and the recovery from
--   panics of shared/pkg/middleware.
-- - Queries/Dtos and Handlers: the DTOs and the query handlers of fixture-core. Http/Requests and
--   Handlers: its routes and handlers; Laws is proofs.
-- - Postgres/Where and Matches: match_repository.go, the WHERE clause and the pages; Pages is proofs.
--   Postgres/Tables and Save: `Save` of fixture_repository.go and event_store.go; Atomic, Stored and Written are
--   proofs. Postgres/Snapshot: `loadTournamentSnapshot`, and proofs.
-- - Publish: event_publisher.go of fixture-core and shared/pkg/events/subjects.go.
-- - Notify/Domain, Dispatcher, Store: notifications and subscribers, the webhook dispatcher with the
--   consumer's handlers, the repository in memory; Deliveries and Silence are proofs.
-- - Team/Domain and Queries: team-registry; Found is proofs. Venue/Geo, Distance, Queries, Http: venue-geo;
--   Matrix is proofs.
-- - App/Ports, Results, Handlers, Setup: the ports, commands and handlers; Penalties, Setup/Build and
--   Setup/Unique are proofs, Setup/Venues a check that no handler calls. App/System serves lists of
--   commands on one store.
-- - Ingest/Result, Handler, Consumer: result-ingestion and the consumer; Idempotence and Pipeline are
--   proofs.
-- - Examples: concrete data, and the theorems applied to it.
--
-- How code becomes definitions:
-- - An `int` is a natural number read modulo 2 ^ 64 in two's complement; every addition, comparison and
--   test of a sign is that of 64-bit Go. A `uuid.UUID` is a number with `uuid.Nil` as 0, a `time.Time` its
--   distance in nanoseconds from the zero time.
-- - A Go method that mutates is a function from the state to the state and the error; `none` is `nil`. A
--   pointer into a slice is a cursor: the elements before it, the element, those after it. A Go map is
--   the list of its writes, the latest first. A panic is `none` of the whole answer; that of
--   `appendEvent` is `or_panic` in Core/Fixture, which the handlers apply to what a command returns.
-- - Loops are structural recursion on the slices, so there is no fuel.
-- - A transaction works on a copy of the tables. The answer to its commit may be lost, and then the
--   server has committed or not. A TIMESTAMPTZ column keeps of a time what the server's record says.
-- - A message of an error is the `fmt.Sprintf` call that renders it, not its text.
-- - A command reads the clock once. `uuid.New` is a function from the number of the call to an id.
--
-- Code of other packages is a parameter: `sort.SliceStable` with its documented contract, the printing
-- and parsing of ids and times, what `encoding/json` makes of a message and which payloads it refuses, the answer of the HTTP client to
-- a webhook, the operations of float64, the scan of a row by pgx, the publish call of JetStream. The
-- handlers take persistence and broker as the interfaces of
-- contexts/fixture-core/internal/domain/ports, here as functions on any state of the world. A table is a
-- list of rows, and a SQL statement of the source is the function on lists that SQL documents for it. An
-- event type is one of the seven constants, so the error of the publisher for another text is left out.
--
-- Not modelled: the functions of the PostgreSQL repositories that load groups, matches, standings,
-- teams and venues, the HTTP handler of result-ingestion, the connections to NATS and the loops around a
-- message, the router library, logging and tracing, and the start-up code.
pub mod Base
pub mod Core
pub mod Shared
pub mod App
pub mod Ingest
pub mod Queries
pub mod Postgres
pub mod Http
pub mod Notify
pub mod Publish
pub mod Venue
pub mod Team
mod Examples
