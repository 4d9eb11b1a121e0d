-- ===== src/Order/Model.antt =====
-- The data of the order service (services/order-service/internal/order/model.go), its tables
-- (db/postgres/migrations) and the services that it calls (client.go). A coordinate is only copied,
-- and is kept as the bit pattern of the float64.
use freshflow.Prelude.{ℕ, String, Bool, Option, List, ◌==◌, Result}
use freshflow.Platform.Events.{Stamp}
use freshflow.Platform.Outbox.{Row}
use freshflow.Platform.Text.{str_eq}

pub record CheckoutRequest : Type 0 where
  pub user_id : ℕ
  pub cart_version : ℕ

pub record CartItem : Type 0 where
  pub product_id : ℕ
  pub quantity : ℕ

pub record Cart : Type 0 where
  pub user_id : ℕ
  pub version : ℕ
  pub items : List CartItem

pub record ReserveRequest : Type 0 where
  pub checkout_attempt_id : ℕ
  pub items : List CartItem
  pub ttl_seconds : ℕ

pub record ReservedItem : Type 0 where
  pub product_id : ℕ
  pub product_name : String
  pub quantity : ℕ
  pub unit_price_minor : ℕ
  pub currency : String

pub record Reservation : Type 0 where
  pub reservation_id : ℕ
  pub status : String
  pub items : List ReservedItem
  pub total_amount_minor : ℕ
  pub currency : String

-- The values that the CHECK of orders.orders allows.
pub data Status : Type 0 where
  created confirmed assembling delivering delivered cancelled : Status

pub Status-discrete : Discrete Status
Status-discrete = hlevel

-- An order, with its rows of orders.order_items, which a foreign key ties to it.
pub record Order : Type 0 where
  pub id : ℕ
  pub user_id : ℕ
  pub reservation_id : ℕ
  pub cart_version : ℕ
  pub status : Status
  pub items : List ReservedItem
  pub total_amount_minor : ℕ
  pub currency : String
  pub delivery_latitude : ℕ
  pub delivery_longitude : ℕ
  pub created_at : ℕ

pub record User : Type 0 where
  pub id : ℕ
  pub delivery_latitude : ℕ
  pub delivery_longitude : ℕ

pub data KeyState : Type 0 where
  processing completed : KeyState

-- A row of orders.idempotency_keys. `response` is `none` while the column is NULL, or where it does
-- not decode to an order.
pub record KeyRow : Type 0 where
  pub key : String
  pub request_hash : String
  pub checkout_attempt_id : ℕ
  pub state : KeyState
  pub response : Option Order

-- A row of orders.order_status_history.
pub record Change : Type 0 where
  pub order_id : ℕ
  pub previous_status : Status
  pub new_status : Status
  pub changed_at : ℕ

pub data Payload : Type 0 where
  order_created : Order → Payload
  order_confirmed : ℕ → ℕ → Payload
  order_cancelled : ℕ → Status → ℕ → Payload
  status_changed : ℕ → Status → Status → ℕ → Payload

-- The schema orders of the database.
pub record Orders : Type 0 where
  pub users : List User
  pub orders : List Order
  pub history : List Change
  pub keys : List KeyRow
  pub processed : List ℕ
  pub outbox : List (Row Payload)

-- What a call of another service answers when it fails: a status with a code, or no answer.
pub data UpstreamError : Type 0 where
  upstream : ℕ → String → UpstreamError
  unreachable : UpstreamError

-- The interface `Inventory` over the state of the service that implements it.
pub record Inventory (I : Type 0) : Type 0 where
  pub reserve : ReserveRequest → I → Result UpstreamError Reservation × I
  pub release : ℕ → I → Result UpstreamError (Unit {0}) × I

-- The database of this service and the state of the inventory that it calls.
pub record World (I : Type 0) : Type 0 where
  pub db : Orders
  pub inventory : I

-- The calls that can fail for reasons outside the program.
pub data Call : Type 0 where
  acquire lock_key find_key insert_key read_user begin insert_order : Call
  insert_item : ℕ → Call
  insert_event encode_response complete_key commit : Call
  read_order update_order insert_history insert_changed read_back mark_processed : Call

abbrev pub key_is : String → KeyRow → Bool
key_is k r = str_eq r.key k

abbrev pub order_is : ℕ → Order → Bool
order_is k o = o.id == k

abbrev pub user_is : ℕ → User → Bool
user_is k u = u.id == k

-- What a call meets: the external calls that fail, the UUIDs that can be drawn, the surroundings of
-- its events, and the clock.
pub record Env : Type 0 where
  pub broken : Call → Bool
  pub attempt_uuid : Option ℕ
  pub order_uuid : Option ℕ
  pub stamp : Stamp
  pub changed_stamp : Stamp
  pub now : ℕ
