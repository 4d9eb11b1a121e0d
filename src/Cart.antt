-- ===== src/Cart.antt =====
-- The cart service (services/cart-service/internal/cart): one cart for a user, with a version that every
-- change raises, and its copy in Redis.
pub mod Model
pub mod Store
pub mod Handler
pub mod Laws
pub mod Tests
