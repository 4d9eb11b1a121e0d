-- ===== src/Lib.antt =====
-- FreshFlow: a shop with delivery, as a handful of Go services over PostgreSQL, Redis and Kafka.
--
-- The parts and how they interact. The order service (services/order-service) takes a checkout: it reads
-- the cart of the cart service (services/cart-service), reserves the stock with the catalog service
-- (services/catalog-service), and stores the order with an event in its outbox. The delivery service
-- (services/delivery-service) assigns a courier on that event, follows the positions that couriers report,
-- and sends events of its own, which move the status of the order; a worker of the same service asks a model
-- for the time that a delivery will take. The courier simulator (services/courier-simulator) reports the
-- positions. The notification worker and the analytics worker read the events, the gateway
-- (services/api-gateway) is the way in, and cmd/dlq-replay puts back what the consumers gave up on. The
-- packages under pkg/platform give the services their envelopes, their outbox, their ids, their environment
-- and the retries of their Kafka consumers.
--
-- Which file models which part:
-- - Prelude: results and transactions (a function from the tables to a result and new tables), tables as
--   lists of rows, Boolean tests and sorting.
-- - Platform/Events, Platform/Outbox: pkg/platform/events/envelope.go and pkg/platform/outbox/outbox.go
--   (New, the schema check and Insert); Platform/Outbox/Relay is publishBatch. Platform/Http: the error
--   value and the answers of pkg/platform/httpx/httpx.go. Platform/Bytes: texts as bytes. Platform/Id:
--   pkg/platform/id/id.go (IsUUID, NewUUID). Platform/Envconfig: pkg/platform/envconfig/envconfig.go.
--   Platform/Kafka: pkg/platform/kafkax/retry.go (Process, retryDelay, sanitizeError, DecodeDeadLetter);
--   Platform/Kafka/Bounds and Platform/Kafka/Ends are about its loops, Platform/Kafka/Replay about what it writes.
-- - Catalog: services/catalog-service/internal/catalog/store.go. Catalog/Scan and Catalog/Reserve are
--   Store.Reserve, Catalog/Release is Store.Release, Catalog/Browse is ListProducts; Catalog/Stock,
--   Catalog/Pricing and Catalog/Invariant hold the lemmas on quantities and prices and the well-formedness
--   of the tables;
--   Catalog/Stock/Restore is about the stock that a release gives back, Catalog/Stock/Scanned about the
--   products found.
--   Catalog/Handler is handler.go, with validateReserve.
-- - Order: services/order-service/internal/order. Order/Create is Service.Create with
--   prepareIdempotency and persistOrder, Order/Cancel is Service.Get and Service.Cancel, Order/Consume is
--   EventConsumer.handle, Order/Status is canCancel and validTransition, Order/Trace reads the status
--   history of an order as a path. Order/Clients and Order/Carts are client.go, over the handlers of the
--   other two services; Order/Ledger is the interface that the order service relies on in an inventory, which
--   Order/Clients/Books fills for the catalog; Order/Clients/Direct is about a network that works.
--   Order/Handler is handler.go, Order/Handler/Stream its stream.
-- - Cart: services/cart-service/internal/cart/store.go (Get, SetItem, DeleteItem, getCart) and handler.go.
-- - Delivery: services/delivery-service/internal/delivery. Delivery/Consume is Consumer.handle with
--   assign, cancel, updateLocation and applyPhase (Delivery/Consume/Bodies is about their bodies);
--   Delivery/Operate is action, delay and complete of the handler. Delivery/Couriers, Delivery/Active and
--   Delivery/Invariant count couriers and deliveries.
--   Delivery/Times is eta.go: the prediction worker. Delivery/Views is what the handler shows: the delivery of
--   an order and its stream, the assignments and the couriers.
-- - Simulator: services/courier-simulator/internal/simulator/simulator.go. Simulator/Phases says what a
--   report does to a status, Simulator/Reported ties that to applyPhase, Simulator/Stuck is about a run of reports,
--   and Simulator/Assigned reads the assignments of the delivery service.
-- - Workers: services/notification-worker/internal/notification/consumer.go and cmd/dlq-replay/main.go.
-- - Gateway: services/api-gateway/internal/httpapi/server.go and internal/config/config.go.
--   Gateway/Paths writes out which paths it passes on.
-- - Analytics: services/analytics-worker/internal/analytics (projector.go, consumer.go, store.go).
--
-- How state and operations correspond. The tables of a service, and the keys of Redis that it writes, are
-- one record; a handler is a function from that record to its answer and the new record. A transaction that
-- fails gives the tables back as they were, as the deferred ROLLBACK does. What the environment decides is
-- an argument: for each external call whether it fails (`broken`), the clock, the UUIDs drawn, and whether
-- Redis answers. A UUID is a number, since every table keeps it in a uuid column; times are numbers of a
-- fixed unit. Two calls that PostgreSQL makes wait for each other, by a row lock or an advisory lock, run
-- one after the other. The order service stands over any inventory (the record `Inventory`) and any cart
-- answer; requestHash is a parameter, and so are JSON, Base64, float64, the parsers of the standard library
-- and the service of the model, the cleaning of paths by http.ServeMux and the Director of the reverse
-- proxy. JSON replaces the bytes of a text that are not UTF-8; where that matters, what it makes of a text is
-- a parameter too. An id is text in a handler until it is checked, and the number that the text encodes after
-- that, but for the user of a cart, whose text is the key in Redis. Reserve orders its items by the texts of
-- their products, and applyPhase compares the texts of two couriers; the model compares the numbers, which is
-- the same for ids in one spelling, as PostgreSQL writes them.
--
-- Bounds and fuel. A total of a reservation is an int64 and wraps at 2^64; other amounts are unbounded.
-- The loop that writes a dead letter has no bound in the code: it runs on fuel, one unit for a call, and
-- ends as soon as one call is written or its wait is broken off. All other loops are structural.
--
-- The polls of a stream and of the replay are a list, which ends where the process or its time does.
--
-- Not modelled: the poll loops of the consumers and of the relay, the tickers, the proxying of the gateway and
-- the checks of its dependencies, the reading queries of ClickHouse, the middleware of the HTTP servers,
-- telemetry, health and process start: they are I/O around the operations above, with no state of the
-- program. The service of the model is Python. The log lines, metrics and texts of errors are left out.
pub mod Prelude
pub mod Platform
pub mod Cart
pub mod Catalog
pub mod Delivery
pub mod Order
pub mod Workers
pub mod Simulator
pub mod Gateway
pub mod Analytics
