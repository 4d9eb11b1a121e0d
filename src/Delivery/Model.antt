-- ===== src/Delivery/Model.antt =====
-- The data of the delivery service (services/delivery-service/internal/delivery/model.go) and its tables
-- (db/postgres/migrations). Times are whole seconds; a coordinate, a heading and a speed are only
-- copied, and are kept as the bit patterns of their float64.
use freshflow.Prelude.{ℕ, String, Bool, true, false, Option, List, ◌==◌}
use freshflow.Prelude.Int.{ℤ}
use freshflow.Platform.Events.{Stamp}
use freshflow.Platform.Outbox.{Row}

-- The values that the CHECK of delivery.couriers allows.
pub data CourierStatus : Type 0 where
  available assigned offline : CourierStatus

pub record Courier : Type 0 where
  pub id : ℕ
  pub name : String
  pub status : CourierStatus
  pub latitude : ℕ
  pub longitude : ℕ
  pub location_sequence : ℕ
  pub last_seen_at : ℕ

-- The values that the CHECK of delivery.deliveries allows.
pub data Status : Type 0 where
  assigned assembling delivering completed cancelled : Status

abbrev pub status_name : Status → String
status_name Status.assigned = "assigned"
status_name assembling = "assembling"
status_name delivering = "delivering"
status_name completed = "completed"
status_name cancelled = "cancelled"

-- `status == "completed" || status == "cancelled"`
abbrev pub is_terminal : Status → Bool
is_terminal Status.assigned = false
is_terminal assembling = false
is_terminal delivering = false
is_terminal completed = true
is_terminal cancelled = true

abbrev pub is_available : CourierStatus → Bool
is_available available = true
is_available CourierStatus.assigned = false
is_available offline = false

pub record Delivery : Type 0 where
  pub id : ℕ
  pub order_id : ℕ
  pub courier_id : ℕ
  pub status : Status
  pub pickup_latitude : ℕ
  pub pickup_longitude : ℕ
  pub destination_latitude : ℕ
  pub destination_longitude : ℕ
  pub correlation_id : String
  pub trace_id : String
  pub origin_span_id : String
  pub item_count : ℕ
  pub assigned_at : ℕ
  pub started_at : Option ℕ
  pub completed_at : Option ℕ
  pub predicted_eta_seconds : Option ℕ
  pub eta_model_version : Option String
  pub eta_updated_at : Option ℕ
  pub simulation_delay_seconds : ℕ

-- A row of delivery.eta_predictions.
pub record Prediction : Type 0 where
  pub delivery_id : ℕ
  pub stage : String
  pub model_version : String
  pub predicted_eta_seconds : ℕ
  pub predicted_at : ℕ
  pub actual_eta_seconds : Option ℕ
  pub completed_at : Option ℕ

-- The payload of order.created. A count below zero acts as zero does.
pub record OrderCreated : Type 0 where
  pub order_id : ℕ
  pub delivery_latitude : ℕ
  pub delivery_longitude : ℕ
  pub item_count : ℕ

-- The payload of courier.location_updated. A sequence number below zero acts as zero does: it is
-- never later than that of the courier. `delivery_id` is `none` for the empty text.
pub record CourierLocation : Type 0 where
  pub courier_id : ℕ
  pub delivery_id : Option ℕ
  pub latitude : ℕ
  pub longitude : ℕ
  pub heading_degrees : ℕ
  pub speed_mps : ℕ
  pub recorded_at : ℕ
  pub sequence : ℕ
  pub phase : String

-- How a completed delivery compares with what was predicted for it.
pub record Outcome : Type 0 where
  pub predicted_eta_seconds : ℕ
  pub eta_model_version : String
  pub on_time : Bool

pub data Payload : Type 0 where
  delivery_assigned : ℕ → ℕ → ℕ → ℕ → Payload
  delivery_cancelled : ℕ → ℕ → ℕ → ℕ → Payload
  status_changed : ℕ → ℕ → ℕ → String → ℕ → Payload
  delivery_completed : ℕ → ℕ → ℕ → ℕ → ℕ → ℤ → Option Outcome → Payload
  operator_completed : ℕ → ℕ → ℕ → ℕ → ℕ → ℤ → Payload
  delay_injected : ℕ → ℕ → ℕ → ℕ → Payload

-- The schema delivery of the database, and the positions of the couriers in Redis.
pub record Logistics : Type 0 where
  pub couriers : List Courier
  pub deliveries : List Delivery
  pub predictions : List Prediction
  pub processed : List ℕ
  pub outbox : List (Row Payload)
  pub positions : List (ℕ × ℕ × ℕ)

-- The calls that can fail for reasons outside the program.
pub data Call : Type 0 where
  begin mark_processed find_delivery : Call
  read_courier : ℕ → Call
  update_courier update_delivery insert_delivery insert_event : Call
  update_location update_predictions read_prediction commit read_back : Call

abbrev pub courier_is : ℕ → Courier → Bool
courier_is k c = c.id == k

abbrev pub delivery_is : ℕ → Delivery → Bool
delivery_is k d = d.id == k

abbrev pub order_is : ℕ → Delivery → Bool
order_is k d = d.order_id == k

-- What a call meets: the external calls that fail, the couriers that GEOSEARCH finds, nearest first,
-- the UUID of a delivery if one can be drawn, the surroundings of its event, the clock, the place where
-- orders are picked up, and whether Redis answers.
pub record Env : Type 0 where
  pub broken : Call → Bool
  pub candidates : Option (List ℕ)
  pub uuid : Option ℕ
  pub stamp : Stamp
  pub now : ℕ
  pub pickup_latitude : ℕ
  pub pickup_longitude : ℕ
  pub redis_down : Bool
