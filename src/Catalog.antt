-- ===== src/Catalog.antt =====
-- The catalog service (services/catalog-service/internal/catalog): products, reservations of stock,
-- and the checks of its HTTP handlers.
pub mod Model
pub mod Scan
pub mod Reserve
pub mod Release
pub mod Browse
pub mod Handler
pub mod Stock
pub mod Invariant
pub mod Pricing
pub mod Tests
