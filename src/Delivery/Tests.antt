-- ===== src/Delivery/Tests.antt =====
-- The delivery service on concrete data (services/delivery-service/internal/delivery).
use freshflow.Prelude.{◌≡◌, refl, Bool, true, false, none, some, [], ◌∷◌, ok, arith}
use freshflow.Platform.Events.{new_event}
use freshflow.Platform.Outbox.{insert}
use freshflow.Delivery.Model.{Courier, available, Delivery, Status, Logistics, Call, commit, Env}
use freshflow.Delivery.Events.{emit}
use freshflow.Delivery.Consume.{Incoming, once, pick_courier, insert_row, assign_delivery, handle}
use freshflow.Delivery.Consume.Valid.{handle-IsValid}
use freshflow.Delivery.Consume.Once.{delivery_once}
use freshflow.Delivery.Invariant.{IsValid}
use freshflow.Delivery.Operate.{action}
use freshflow.Delivery.Operate.Laws.{action-IsValid}

abbrev env_of : (Call → Bool) → Env
env_of broken = record {
  broken = broken;
  candidates = some (8 ∷ 7 ∷ []);
  uuid = some 31;
  stamp = record { correlation = ""; span = none; uuid = some 910; encodes = true; now = 60 };
  now = 60;
  pickup_latitude = 1;
  pickup_longitude = 2;
  redis_down = false;
}

abbrev calm : Env
calm = env_of (λ _. false)

abbrev commit_fails : Call → Bool
commit_fails commit = true
commit_fails _ = false

abbrev stormy : Env
stormy = env_of commit_fails

abbrev north : Courier
north = record {
  id = 7;
  name = "North";
  status = available;
  latitude = 0;
  longitude = 0;
  location_sequence = 4;
  last_seen_at = 0;
}

abbrev idle : Logistics
idle = record {
  couriers = north ∷ [];
  deliveries = [];
  predictions = [];
  processed = [];
  outbox = [];
  positions = [];
}

abbrev created : Incoming
created = record {
  event_id = 500;
  event_type = "order.created";
  correlation_id = "c-1";
  trace_id = "";
  span_id = "";
  aggregate_id = 21;
  order =
      some
        (record { order_id = 21; delivery_latitude = 3; delivery_longitude = 4; item_count = 0 });
  location = none;
}

idle-IsValid : IsValid idle
idle-IsValid = record { distinct = tt; tally = λ k. ground arith }

abbrev at_work : Logistics
at_work = (handle calm (some created) idle).1

takes_order : (handle calm (some created) idle).0 ≡ ok tt
unfolding handle once pick_courier insert_row assign_delivery emit new_event insert
takes_order = refl

at_work-IsValid : IsValid at_work
at_work-IsValid = handle-IsValid calm (some created) idle idle-IsValid

abbrev over : Delivery
over = record {
  id = 31;
  order_id = 21;
  courier_id = 7;
  status = Status.completed;
  pickup_latitude = 1;
  pickup_longitude = 2;
  destination_latitude = 3;
  destination_longitude = 4;
  correlation_id = "c-1";
  trace_id = "";
  origin_span_id = "";
  item_count = 1;
  assigned_at = 60;
  started_at = some 70;
  completed_at = some 90;
  predicted_eta_seconds = none;
  eta_model_version = none;
  eta_updated_at = none;
  simulation_delay_seconds = 0;
}

abbrev closed : Logistics
closed = record idle { deliveries = over ∷ [] }

handle-IsValid_example : IsValid (handle calm (some created) idle).1
handle-IsValid_example = handle-IsValid calm (some created) idle idle-IsValid

delivery_once_example :
    (handle stormy (some created) (handle calm (some created) idle).1).1
    ≡ (handle calm (some created) idle).1
delivery_once_example = delivery_once calm stormy created idle takes_order

action-IsValid_example : IsValid (action calm (some 31) "complete" at_work).1
action-IsValid_example = action-IsValid calm (some 31) "complete" at_work at_work-IsValid
