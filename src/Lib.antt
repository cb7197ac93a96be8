-- ===== src/Lib.antt =====
-- api_wallet: a NestJS service that keeps wallets in PostgreSQL, announces every change through an
-- outbox to RabbitMQ, and answers repeated requests from stored responses. This library models its
-- commands and reads, its idempotency keys, its cache, its outbox publisher and its event consumer, and
-- the service that these make together.
--
-- The parts, and the files that model them:
-- * WalletService (src/modules/wallet/wallet.service.ts): `Wallet` has normalizeAmount,
--   orderWalletIds, createEvent, lockWallet, enqueueOutbox, deposit and withdraw; `Wallet/Transfer`
--   has transfer, and its child `Compensation` compensateTransfer; `Wallet/Idle` is about a compensation
--   that finds nothing. `Wallet/Effects` has exceptions and transactions, `Wallet/Actions` statements
--   outside of one. `Wallet/Books` says what it is for a database to agree with a ledger: balances,
--   event log and transfers together.
-- * WalletController (src/modules/wallet/wallet.controller.ts): `Controller` has the three POST
--   handlers, resolveIdempotencyKey and the stored response; a handler runs a command of
--   WalletService between `begin` and `finalize` of IdempotencyService.
-- * IdempotencyService (src/modules/wallet/idempotency.service.ts) and the expiry of keys
--   (src/modules/wallet/idempotency-cleanup.service.ts): `Idempotency`.
-- * OutboxPublisherService (src/modules/wallet/outbox-publisher.service.ts): `OutboxPublisher` has
--   publishPending, publishMessage and calculateBackoff. It reads the outbox that WalletService
--   writes.
-- * WalletEventsConsumerService (src/modules/messaging/wallet-events-consumer.service.ts), RmqConsumer
--   (src/modules/messaging/rmq.consumer.ts) and the acknowledgement
--   (src/modules/messaging/rabbitmq.strategy.ts): `Consumer`. A message comes from the outbox.
--   `Consumer/Tally` counts a list of deliveries, and `Consumer/Stream` takes them one by one.
-- * RedisCacheService (src/modules/cache/redis-cache.service.ts): `Cache`, over a store that is a
--   parameter. getBalance reads through it, and getHistory reads the log: `Queries`, with the query of
--   a history (src/modules/wallet/dto/history.query.ts).
-- * The settings (src/config, and those that the cleanup and the publisher read): `Config` has the
--   numbers that are checked, its child `Connections` PostgreSQL and Redis, and `App` the calls that
--   put the two programs together (src/main.ts, src/main-listener.ts).
-- * The health check (src/modules/health) and the ping of RedisCacheService: `Health`.
-- * The timers of the two background services: `Runtime` has the intervals of Node.js,
--   `OutboxPublisher/Timer` and `Idempotency/Timer` how the services start and stop theirs.
-- * The service as a whole: `System` has a step relation on databases, whose steps are a request, a
--   cycle of the publisher, a delivery, a cleanup and the passing of time, and the databases that it
--   reaches from an empty one.
-- * The rows (src/modules/wallet/entities, src/modules/messaging/entities): `Entities`; the tables
--   and what each statement does to them: `Tables`.
--
-- Code of others is a parameter: `Platform` holds decimal.js, TypeORM with PostgreSQL and the
-- generated keys, `IsDocumented` what their documentation says of them; `Hashing` holds JSON and
-- SHA-256, `Broker` the RabbitMQ client, `CacheManager` and `IsStore` the store behind the cache,
-- `Paging` and `IsPaging` the page that PostgreSQL cuts out of the rows, and `Script` the numbers and
-- strings of JavaScript in the settings. A statement is carried out whole or throws, and a thrown
-- error may come from any statement. `Sample` is a platform that behaves as documented, on which the
-- model runs (`Tests`).
--
-- `System/Postings` is the abstract specification of the requests, over a ledger alone;
-- `Consumer/Tally` that of the analytics, over a list of deliveries.
--
-- Numbers: an amount is a number of ten-thousandths, and numeric(20,4) holds those below 10 ^ 20
-- (`max_units`), which is also where decimal.js starts to round. Loops are structural recursion on
-- lists, and nothing takes fuel; `cycles` counts the cycles of the publisher. The clock
-- of the database stands for that of the server too. Requests and deliveries run one after another:
-- what the locks of PostgreSQL keep apart is not interleaved, nor are two calls of `begin`, which
-- take no lock; only two cycles of the publisher are (`OutboxPublisher/Overlap`).
--
-- Not modelled: the validation of request bodies by class-validator, of which only the finite amount
-- (`IsValid`) and the bounds of the history query are stated; the decorators that wire the modules;
-- the OpenAPI document that the library generates; logging, tests and the load test.
pub mod Prelude
pub mod Entities
pub mod Tables
pub mod Platform
pub mod Config
pub mod Runtime
pub mod Wallet
pub mod Idempotency
pub mod Controller
pub mod OutboxPublisher
pub mod Consumer
pub mod Cache
pub mod Health
pub mod Queries
pub mod System
mod Sample
mod Tests
