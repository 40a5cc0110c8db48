-- ===== src/Lib.antt =====
-- Model of rocket-toolkit, a set of TypeScript packages for services: processes with event-sourced
-- state (packages/process-manager), messaging (packages/message-bus), filters on database queries
-- (packages/knex-filters), and support for logging, tenants, tracing and hosting. The packages do
-- not call one another, but for the mixins of packages/pino-multitenancy.
--
-- Prelude.antt holds the names that every module shares. The files of each package:
--
-- packages/process-manager, in ProcessManager:
--   Result.antt is src/result.ts, Mediator.antt is src/mediator.ts.
--   Effect.antt is src/effects.ts. An effect is the tree of the synchronous chunks of its promise
--     over a world that all effects share; between two chunks any other effect may run. Effect.Run
--     executes one effect alone, Effect.Pool steps any number of them in any order, and
--     Effect.Parallel is `all` and `race`, where a schedule says which effect takes the next chunk.
--   Algebra/State.antt and Algebra/Process.antt are src/process-algebra.ts. A process state is a
--     well-founded tree, so a process that may wait for ever more events is left out. `Do` takes a
--     generator as the tree of what it yields: each position is resumed once.
--   EventStore.antt is src/event-store/types.ts. EventStore/Memory.antt is
--     src/event-store/inmemory.ts: a map is a function to an option, and the lock of a stream is
--     whether its promise is there. The re-check of a lock and its taking are one chunk. The source
--     returns the live array of events, which its callers read in the same chunk.
--   Runtime.antt is src/process-runtime.ts, over any event store. `handleEvent` retries on every
--     conflict; the model counts the attempts, and past the last one the effect never settles, as
--     the source's loop does that meets a conflict each time. A call alone meets no conflict in its
--     first attempt, but for one that its own effect throws. `{} as TState` is the parameter
--     `empty_state`.
--   EventStore/Sql.antt is src/event-store/db.ts and the ConnectionManager of
--     src/infra/db-connection.ts, the factory stands in EventStore.antt. The table is the list of its
--     rows, and the queries are functions on it; texts are compared exactly, whatever the collation
--     of the server. Sql/Index.antt states what the unique index of the comment in db.ts means, and
--     Sql/Optimistic.antt is about two appends at one version.
--   CustomEffects.antt is src/custom-effects.ts.
--
-- packages/message-bus, in MessageBus:
--   Envelope.antt is src/envelope.ts and src/topicRegistry.ts, SerDes.antt is src/serDes.ts,
--   Bus.antt is `publish` and `subscribe` of src/messageBus.ts, Request.antt is its
--   `sendCommandAndReceiveEvent`, with what its closures share as a record in the world.
--   Connection.antt is `connect` and `disconnect` of src/transport/*/index.ts, Subscriptions.antt
--   the subscription options, Utf8.antt the byte coding of rusi on UTF-16 units.
--   Nats.antt, Jetstream.antt and Rusi.antt are the rest of src/transport/nats/index.ts,
--   src/transport/jetstream/index.ts and src/transport/rusi/index.ts; Jetstream/Consume.antt is the
--   consumer loop with its semaphore, as steps that the event loop takes in any order. Timeout.antt is
--   src/timeout.ts, with the `unsubscribe` of nats streaming that calls it.
--   Emitters.antt is what the subscriptions of rusi and nats streaming pass on to the client library.
--   The client libraries, JSON and `humps` are parameters.
--
-- packages/knex-filters, in KnexFilters: Names.antt and QueryBuilder.antt are src/queryBuilder.ts,
--   Register.antt is src/filters.ts, Schema.antt is src/dbSchema. A hook changes the state of a
--   builder; knex is a runner and a transaction function. A name is its UTF-16 units.
-- packages/pino-mssqlserver, in PinoMssqlserver: Queue.antt is src/batchQueueProcessor.ts, where what
--   interleaves is whole batches; Transport.antt is `insertLogs` of src/dbTransport.ts, Database.antt
--   the rest of it, ConnectionString.antt is src/utils.ts. A flush alone takes a number of turns, for
--   which the length of the queue is enough.
-- packages/apollo-logger, in ApolloLogger: ApolloLogger.antt is src/utils.ts, Plugin.antt is
--   src/plugin.ts.
-- packages/pino-apollo/src/plugin.ts, in PinoApollo: the name of an operation, and Plugin.antt.
-- packages/multitenancy-core, packages/correlation, packages/pino-correlation and
--   packages/pino-multitenancy, in Multitenancy: Environment.antt is `_loadFromEnv`; the maps of tenants that it makes are arguments of what
--   reads them. Scopes.antt is the two storages.
-- packages/opentracing, packages/opentelemetry-instrumentation-ws, packages/pino-opentracing and
--   packages/pino-opentelemetry (both in Logs.antt), in Tracing. What is done to a
--   span is the list of the calls on it. Websocket.antt and its child modules are
--   src/instrumentation.ts of the second: a method under a patch is what it does in a context, and
--   Websocket/Patching.antt says which methods are patched.
-- packages/graceful-shutdown and packages/key-per-file-configuration, in Hosting.
-- packages/metrics, in Metrics: the samples that its instruments are given, and the diagnostics server.
--
-- Not modelled: the meters and the exporter that packages/metrics configures and the debounce of the
-- maps of tenants, which are the libraries', and the attributes of an upgrade request. Console output
-- is left out everywhere. The tests stand in ProcessManager/Tests and Tests.
pub mod Prelude
pub mod ApolloLogger
pub mod Hosting
pub mod KnexFilters
pub mod MessageBus
pub mod Metrics
pub mod Multitenancy
pub mod PinoApollo
pub mod PinoMssqlserver
pub mod ProcessManager
pub mod Tests
pub mod Tracing
