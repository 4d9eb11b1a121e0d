-- ===== src/Order/Status.antt =====
-- The life of an order: `canCancel` (services/order-service/internal/order/service.go) and
-- `validTransition` (services/order-service/internal/order/consumer.go).
use freshflow.Prelude.{ℕ, Bool, true, false, ◌||◌, ◌==◌, ◌≡◌, arith}
use freshflow.Order.Model.{Status, created, confirmed, assembling, delivering, delivered, cancelled}

abbrev rank : Status → ℕ
rank created = 0
rank confirmed = 1
rank assembling = 2
rank delivering = 3
rank delivered = 4
rank cancelled = 5

abbrev pub status_eq : Status → Status → Bool
status_eq a b = rank a == rank b

pub status_eq→eq : (a b : Status) → status_eq a b ≡ true → a ≡ b
status_eq→eq a b h = ground arith

-- `canCancel`
unfoldable pub can_cancel : Status → Bool
can_cancel s = status_eq s created || status_eq s confirmed

-- `validTransition`: the map of maps, where a missing key reads as false.
unfoldable pub valid_transition : Status → Status → Bool
valid_transition created confirmed = true
valid_transition confirmed assembling = true
valid_transition confirmed delivered = true
valid_transition assembling delivering = true
valid_transition assembling delivered = true
valid_transition delivering delivered = true
valid_transition _ _ = false
