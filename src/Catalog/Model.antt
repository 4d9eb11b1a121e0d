-- ===== src/Catalog/Model.antt =====
-- The data of the catalog service (services/catalog-service/internal/catalog/model.go) and its
-- tables (db/postgres/migrations). Quantities and prices are never negative in the tables.
use freshflow.Prelude.{ℕ, String, Bool, true, false, Option, List, ◌==◌}
use freshflow.Platform.Events.{Stamp}
use freshflow.Platform.Outbox.{Row}

-- A row of catalog.products.
pub record Product : Type 0 where
  pub id : ℕ
  pub sku : String
  pub name : String
  pub description : String
  pub price_minor : ℕ
  pub currency : String
  pub available_quantity : ℕ
  pub active : Bool

pub record ReservationItem : Type 0 where
  pub product_id : ℕ
  pub quantity : ℕ

pub record ReserveRequest : Type 0 where
  pub checkout_attempt_id : ℕ
  pub items : List ReservationItem
  pub ttl_seconds : ℕ

pub record ReservedItem : Type 0 where
  pub product_id : ℕ
  pub product_name : String
  pub quantity : ℕ
  pub unit_price_minor : ℕ
  pub currency : String

pub record Shortage : Type 0 where
  pub product_id : ℕ
  pub requested : ℕ
  pub available : ℕ

-- The values that the CHECK of catalog.inventory_reservations allows.
pub data Status : Type 0 where
  active failed released consumed : Status

abbrev pub is_active : Status → Bool
is_active active = true
is_active failed = false
is_active released = false
is_active consumed = false

abbrev pub is_failed : Status → Bool
is_failed failed = true
is_failed active = false
is_failed released = false
is_failed consumed = false

pub record ReservationResponse : Type 0 where
  pub reservation_id : ℕ
  pub status : Status
  pub items : List ReservedItem
  pub shortages : List Shortage
  pub total_amount_minor : ℕ
  pub currency : String
  pub expires_at : Option ℕ

-- A row of catalog.inventory_reservations, with its rows of catalog.inventory_reservation_items,
-- which a foreign key ties to it. `response` is the JSON column.
pub record Reservation : Type 0 where
  pub id : ℕ
  pub checkout_attempt_id : ℕ
  pub status : Status
  pub response : ReservationResponse
  pub expires_at : Option ℕ
  pub items : List ReservationItem

pub data Payload : Type 0 where
  reservation_failed : ℕ → ℕ → List Shortage → Payload
  reserved : ℕ → ℕ → List ReservationItem → Option ℕ → Payload

-- The database, and the keys of Redis: the cached product list, and the reservations with an
-- expiry key.
pub record Catalog : Type 0 where
  pub products : List Product
  pub reservations : List Reservation
  pub outbox : List (Row Payload)
  pub products_cache : Option (List Product)
  pub expiry_keys : List (ℕ × ℕ)

-- `not_found` is pgx.ErrNoRows; every other error is answered alike.
pub data StoreError : Type 0 where
  not_found failed : StoreError

-- The calls of the store that can fail for reasons outside the program.
pub data Call : Type 0 where
  begin query_products lock_attempt find_existing decode_existing : Call
  lock_product decrement insert_item : ℕ → Call
  encode_response insert_reservation insert_event : Call
  read_status restore mark_released commit : Call

abbrev pub product_is : ℕ → Product → Bool
product_is k p = p.id == k

abbrev pub held_is : ℕ → ReservationItem → Bool
held_is k i = i.product_id == k

abbrev pub reservation_is : ℕ → Reservation → Bool
reservation_is k r = r.id == k

abbrev pub attempt_is : ℕ → Reservation → Bool
attempt_is k r = r.checkout_attempt_id == k

-- What a call meets: the external calls that fail, the UUID of the reservation if one can be drawn,
-- the surroundings of its event, the clock, and whether Redis answers.
pub record Env : Type 0 where
  pub broken : Call → Bool
  pub uuid : Option ℕ
  pub stamp : Stamp
  pub now : ℕ
  pub redis_down : Bool
