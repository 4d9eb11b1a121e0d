-- ===== src/Delivery/Events.antt =====
-- What the operations of the delivery service share: their events, and the UPDATEs of a delivery and of
-- its courier (services/delivery-service/internal/delivery/consumer.go, handler.go).
use freshflow.Prelude.{
  ℕ, String, Bool, ◌-◌, suc, some, ltb, if◌then◌else◌, ◌==◌, update_where, Tx, gets, modify,
  or_fail, ◌>>=◌,
}
use freshflow.Prelude.Int.{ℤ, pos, negsuc}
use freshflow.Platform.Events.{Stamp, new_event}
use freshflow.Platform.Outbox
use freshflow.Delivery.Model.{
  CourierStatus, Courier, Status, Delivery, Prediction, Payload, Logistics, courier_is, delivery_is,
}

-- `events.New` and `outbox.Insert` of one event of an order.
unfoldable pub emit : Stamp → Bool → String → ℕ → Payload → Tx Logistics (Unit {0}) (Unit {0})
emit stamp broken event_type order_id payload = do
  envelope ← or_fail (new_event stamp event_type "delivery-service" order_id payload) tt
  db ← gets (λ db. db)
  rows ←
      or_fail
        (Outbox.insert broken "delivery" "freshflow.delivery.events.v1" order_id envelope db.outbox)
        tt
  modify (λ db. record db { outbox = rows })

abbrev pub with_courier_status : CourierStatus → Courier → Courier
with_courier_status s c = record c { status = s }

abbrev pub mark_courier : ℕ → CourierStatus → Logistics → Logistics
mark_courier id s db = record db {
  couriers = update_where (courier_is id) (with_courier_status s) db.couriers;
}

abbrev pub update_delivery_row : ℕ → (Delivery → Delivery) → Logistics → Logistics
update_delivery_row id f db = record db {
  deliveries = update_where (delivery_is id) f db.deliveries;
}

abbrev pub set_status : Status → Delivery → Delivery
set_status s d = record d { status = s }

abbrev pub set_completed : ℕ → Delivery → Delivery
set_completed now d = record d { status = Status.completed; completed_at = some now }

-- The seconds from one time to another, below zero where the clock went back.
abbrev pub seconds_between : ℕ → ℕ → ℤ
seconds_between start end = if ltb end start then negsuc (start - suc end) else pos (end - start)

-- GREATEST(0, …) of the seconds since the prediction: the subtraction stops at zero.
abbrev pub close_prediction : ℕ → Prediction → Prediction
close_prediction now p = record p {
  actual_eta_seconds = some (now - p.predicted_at);
  completed_at = some now;
}

abbrev pub close_predictions : ℕ → ℕ → Logistics → Logistics
close_predictions id now db = record db {
  predictions = update_where (λ p. p.delivery_id == id) (close_prediction now) db.predictions;
}
