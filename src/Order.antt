-- ===== src/Order.antt =====
-- The order service (services/order-service/internal/order): checkout, cancellation, and the events
-- of the delivery service.
pub mod Model
pub mod Create
pub mod Status
pub mod Cancel
pub mod Consume
pub mod Trace
pub mod Emit
pub mod Ledger
pub mod Clients
pub mod Carts
pub mod Handler
pub mod Tests
