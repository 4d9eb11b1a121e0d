-- ===== src/Delivery.antt =====
-- The delivery service (services/delivery-service/internal/delivery): couriers, the deliveries that they
-- are assigned to, and the operations that an operator can apply.
pub mod Model
pub mod Events
pub mod Consume
pub mod Operate
pub mod Views
pub mod Times
pub mod Couriers
pub mod Active
pub mod Invariant
pub mod Tests
