-- ===== src/Lib.antt =====
-- HarvestLedger: a gateway over HTTP that sends messages through RabbitMQ to the microservices
-- auth, farms, tracing and notifications. A farmer's farms, crops, activities and harvests are kept
-- by the farms service in PostgreSQL; a new crop, activity or harvest puts an event into an outbox
-- table in the same transaction, a relay publishes it, and consumers take it with retries and a
-- dead-letter queue.
--
-- Base holds the shared names, lists, tests and association lists.
--
-- Http models what NestJS carries between the parts: exceptions and replies.
--   Http.Filters: libs/common/src/filters/rpc-exception.filter.ts (`rpc_catch`) and
--     http-exception.filter.ts (`http_catch`), and the label of
--     libs/common/src/metrics/http-metrics.interceptor.ts (`error_label`).
--   Http.Guards: libs/common/src/guards/auth.guard.ts (`can_activate`) and roles.guard.ts
--     (`roles_can_activate`). The reply to `verify-jwt` is a parameter.
--
-- Effect: what a handler is, an action that reads and changes a state and returns a value or throws.
--
-- Rmq: libs/common/src/interceptors/rmq-reliability.interceptor.ts (`intercept`), as the list of the
--   calls on the channel. Rmq.Delivery follows an event over its deliveries, with the queues that
--   libs/common/src/rmq/retry-topology.ts declares (`retry_topology`).
--
-- Outbox: libs/common/src/outbox/outbox.service.ts (`enqueue`).
--   Outbox.Relay: libs/common/src/outbox/base-outbox-relay.service.ts (`drain`, `drain_once`). The
--     clients' `emit`, the COMMIT and the row locks of other replicas are parameters.
--
-- Store: a table behind a TypeORM repository and a bucket of S3, as records of operations with the
--   behaviour that they document (`IsTable`); Store.Memory is a table in memory that has it.
--
-- Auth: apps/auth/src, with libs/common/src/entities/user.entity.ts. bcrypt, JWT and random values are
--   parameters; the keys of Redis carry the times when they expire.
--   Auth.World: the state and the steps that the methods share.
--   Auth.Users: `register`, `validate_user`, `update_user_info` and `get_user` of auth.service.ts.
--   Auth.Sessions: `login`, `refresh_token` and `verify_jwt`. Auth.Passwords: `forgot_password` and
--     `reset_password`. Auth.Images: `upload_user_image` and `get_user_image`.
--   Auth.Controller: the message handlers (`handle`), and rules for what all of them keep; `served` is the
--     state after a list of requests.
--   Auth.Seed: db/user.seed.ts (`run`).
--   Auth.Relay: the targets of outbox/auth-outbox-relay.service.ts (`auth_targets`).
--
-- Farms: apps/farms/src, with the entities and request bodies of libs/common/src.
--   Farms.World: the state, the handlers' effects, transactions, and
--     libs/common/src/services/s3.service.ts (`upload_file`, `get_file`).
--   Farms.Schema: writes to the tables with the unique and foreign keys.
--   Farms.Ownership: ownership/ownership.service.ts.
--   Farms.FarmsService, Farms.Crops, Farms.Activities, Farms.Harvests: the services of these names, one
--     function for each method.
--   Farms.Controller: the message handlers (`handle`), each of which calls the service with the id of
--     the user that the gateway took from the token.
--
-- Tracing: apps/tracing/src/tracing.service.ts (`claim`, `save_event`, `record_event`, `get_history`)
--   and tracing.controller.ts (`deliver_event`), on the keys of
--   libs/common/src/services/redis.service.ts with the times when they expire. MongoDB's query is a
--   parameter. Tracing.Steps has the claim and the save of `recordEvent` as separate steps of
--   deliveries that interleave (`step`).
--
-- UserProjection: apps/farms/src/user-projection (`handle_user`). TypeORM's upsert is a parameter.
--
-- Report: apps/farms/src/report/report.service.ts (`generate_admin_report`, `generate_farmer_report`),
--   with JSON as parameters.
--
-- Gateway: apps/gateway/src/controllers. The pipes of NestJS are parameters (`Pipes`).
--   Gateway.Farms: the routes of farms, crops, activities and harvests (`send`, `serve`).
--   Gateway.Auth: the routes to auth and tracing (`serve_open`, `serve_own`, `serve_history`).
--   Gateway.Tokens: the guard with auth's `verify-jwt` behind it.
--   Gateway.Csv: the rows of report.controller.ts (`farmer_csv`, `admin_csv`).
--   Gateway.Reports: its routes (`serve_admin_report`, `serve_farmer_report`).
--
-- Numbers of ids, counters and times are natural numbers; a column of SQL type integer is `ℤ`. Nothing
-- runs on fuel: the loops recurse on lists. Not modelled: the mails of notifications, the validators
-- of the request bodies, the expiry of keys of the report's cache, and start-up and configuration.
--
-- Where the model is simpler than the systems below the program: in a body of an update a field is
-- missing or has a value, so an explicit null is not expressed; an update with an empty body
-- succeeds, which TypeORM refuses; the reply to a deletion keeps the id of the row, which TypeORM
-- takes off; a rollback takes back the sequence of the outbox too, where PostgreSQL leaves a gap; and
-- the validity of a JWT is in milliseconds, where its `exp` has whole seconds.
pub mod Base
pub mod Http
pub mod Effect
pub mod Rmq
pub mod Outbox
pub mod Store
pub mod Auth
pub mod Farms
pub mod Tracing
pub mod UserProjection
pub mod Report
pub mod Gateway
