-- ===== src/Delivery/Consume.antt =====
-- `Consumer.handle` and its cases (services/delivery-service/internal/delivery/consumer.go): an order
-- is assigned to a courier, a cancellation frees the courier, and the positions that the couriers
-- report carry the delivery through its phases.
pub mod Bodies
pub mod Valid
pub mod Once
use mathlib.Core.Option
use freshflow.Prelude.{
  ℕ, ◌+◌, String, Bool, true, false, not, ◌&&◌, ◌||◌, Option, none, some, List, [], ◌∷◌, ◌++◌, ◌==◌,
  ltb, leb, if◌then◌else◌, find, exists, update_where, Result, ok, err, Tx, pure, gets, modify,
  fail_if, or_fail, ◌>>=◌, ◌>>◌, transact,
}
use freshflow.Platform.Text.{str_eq}
use freshflow.Delivery.Model.{
  Courier, Status, assembling, delivering, completed, cancelled, Delivery, Prediction, OrderCreated,
  CourierLocation, Outcome, delivery_assigned, delivery_cancelled, status_changed,
  delivery_completed, Logistics, Call, begin, mark_processed, find_delivery, read_courier,
  update_courier, update_delivery, insert_delivery, insert_event, update_location,
  update_predictions, read_prediction, commit, courier_is, delivery_is, order_is, Env,
  CourierStatus, available, is_available, is_terminal, status_name,
}
use freshflow.Delivery.Events.{
  emit, mark_courier, update_delivery_row, set_status, set_completed, seconds_between,
  close_predictions,
}

-- What the consumer reads of a record: the envelope, and the payload as either of the two that it
-- decodes, `none` where that fails.
pub record Incoming : Type 0 where
  pub event_id : ℕ
  pub event_type : String
  pub correlation_id : String
  pub trace_id : String
  pub span_id : String
  pub aggregate_id : ℕ
  pub order : Option OrderCreated
  pub location : Option CourierLocation

-- `markProcessed`, and the COMMIT at once where the event has been seen: the rest runs on a new event.
unfoldable pub once :
    Env → Incoming → Tx Logistics (Unit {0}) (Unit {0}) → Tx Logistics (Unit {0}) (Unit {0})
once env event rest db =
    if env.broken mark_processed
    then err tt
    else if exists (λ e. e == event.event_id) db.processed
    then fail_if (env.broken commit) tt db
    else (rest >> fail_if (env.broken commit) tt)
        (record db { processed = db.processed ++ event.event_id ∷ [] })

-- `validDeliveryTransition`: the map from a status to the next, where a missing key reads as "".
unfoldable pub next_status : Status → String
next_status Status.assigned = "assembling"
next_status assembling = "delivering"
next_status delivering = "completed"
next_status completed = ""
next_status cancelled = ""

abbrev pub valid_delivery_transition : Status → String → Bool
valid_delivery_transition current target = str_eq (next_status current) target

-- `cancel`, after the event has been marked.
unfoldable pub cancel_delivery : Env → Incoming → Tx Logistics (Unit {0}) (Unit {0})
cancel_delivery env event db =
    if env.broken find_delivery
    then err tt
    else elim (find (order_is event.aggregate_id) db.deliveries) [
      | none ↦ ok (tt, db)
      | some d ↦
          if is_terminal d.status
          then ok (tt, db)
          else (do
            fail_if (env.broken update_delivery) tt
            modify (update_delivery_row d.id (set_status cancelled))
            fail_if (env.broken update_courier) tt
            modify (mark_courier d.courier_id available)
            emit (record env.stamp { correlation = event.correlation_id }) (env.broken insert_event)
                "delivery.cancelled" event.aggregate_id
                (delivery_cancelled d.id event.aggregate_id d.courier_id env.now))
              db
    ]

-- The first candidate that is available. A candidate with no row is passed over.
unfoldable pub pick_courier : (Call → Bool) → List Courier → List ℕ → Option ℕ
pick_courier broken couriers [] = none
pick_courier broken couriers (k ∷ ks) =
    let rest = pick_courier broken couriers ks in
    if broken (read_courier k) then none else elim (find (courier_is k) couriers) [
      | none ↦ rest
      | some c ↦ if is_available c.status then some k else rest
    ]

abbrev pub delivery_of : Env → Incoming → OrderCreated → ℕ → ℕ → Delivery
delivery_of env event order id courier_id = record {
  id = id;
  order_id = order.order_id;
  courier_id = courier_id;
  status = Status.assigned;
  pickup_latitude = env.pickup_latitude;
  pickup_longitude = env.pickup_longitude;
  destination_latitude = order.delivery_latitude;
  destination_longitude = order.delivery_longitude;
  correlation_id = event.correlation_id;
  trace_id = event.trace_id;
  origin_span_id = event.span_id;
  item_count = if ltb order.item_count 1 then 1 else order.item_count;
  assigned_at = env.now;
  started_at = none;
  completed_at = none;
  predicted_eta_seconds = none;
  eta_model_version = none;
  eta_updated_at = none;
  simulation_delay_seconds = 0;
}

-- The INSERT. The table has unique ids and one delivery for an order.
unfoldable pub insert_row : Env → Delivery → Tx Logistics (Unit {0}) (Unit {0})
insert_row env d = do
  db ← gets (λ db. db)
  fail_if
      (env.broken insert_delivery
        || exists (delivery_is d.id) db.deliveries
        || exists (order_is d.order_id) db.deliveries)
      tt
  modify (λ db. record db { deliveries = db.deliveries ++ d ∷ [] })

-- `assign`, after the event has been marked.
unfoldable pub assign_delivery :
    Env → List ℕ → Incoming → OrderCreated → Tx Logistics (Unit {0}) (Unit {0})
assign_delivery env candidates event order = do
  db ← gets (λ db. db)
  courier_id ← or_fail (pick_courier env.broken db.couriers candidates) tt
  id ← or_fail env.uuid tt
  fail_if (env.broken update_courier) tt
  modify (mark_courier courier_id CourierStatus.assigned)
  insert_row env (delivery_of env event order id courier_id)
  emit (record env.stamp { correlation = event.correlation_id }) (env.broken insert_event)
      "delivery.assigned" order.order_id (delivery_assigned id order.order_id courier_id env.now)

-- `assign`: the couriers are looked for before the transaction.
assign : Env → Incoming → OrderCreated → Logistics → Result (Unit {0}) (Unit {0}) × Logistics
assign env event order db = elim env.candidates [
  | none ↦ (err tt, db)
  | some [] ↦ (err tt, db)
  | some (k ∷ ks) ↦
      if env.broken begin
      then (err tt, db)
      else transact (once env event (assign_delivery env (k ∷ ks) event order)) db
]

-- COALESCE keeps the first start.
abbrev pub set_started : ℕ → Delivery → Delivery
set_started now d = record d {
  status = delivering;
  started_at = elim d.started_at [ none ↦ some now | some t ↦ some t ];
}

-- The `switch` on the target status. Any other text updates nothing.
unfoldable pub write_phase : Env → Delivery → CourierLocation → Tx Logistics (Unit {0}) (Unit {0})
write_phase env d location =
    if str_eq location.phase "assembling"
    then (do
      fail_if (env.broken update_delivery) tt
      modify (update_delivery_row d.id (set_status assembling)))
    else if str_eq location.phase "delivering"
    then (do
      fail_if (env.broken update_delivery) tt
      modify (update_delivery_row d.id (set_started location.recorded_at)))
    else if str_eq location.phase "completed"
    then (do
      fail_if (env.broken update_delivery) tt
      modify (update_delivery_row d.id (set_completed location.recorded_at))
      fail_if (env.broken update_courier) tt
      modify (mark_courier d.courier_id available))
    else pure tt

abbrev pub outcome_of : ℕ → Delivery → Prediction → Outcome
outcome_of now d p = record {
  predicted_eta_seconds = p.predicted_eta_seconds;
  eta_model_version = p.model_version;
  on_time = leb now (d.assigned_at + p.predicted_eta_seconds);
}

abbrev pub is_confirmed_for : ℕ → Prediction → Bool
is_confirmed_for id p = p.delivery_id == id && str_eq p.stage "confirmed"

-- The event of a change of phase.
unfoldable pub report_phase : Env → Delivery → CourierLocation → Tx Logistics (Unit {0}) (Unit {0})
report_phase env d location =
    if str_eq location.phase "completed"
    then (do
      fail_if (env.broken update_predictions) tt
      modify (close_predictions d.id location.recorded_at)
      fail_if (env.broken read_prediction) tt
      db ← gets (λ db. db)
      emit (record env.stamp { correlation = d.correlation_id }) (env.broken insert_event)
          "delivery.completed" d.order_id
          (delivery_completed d.id d.order_id d.courier_id d.assigned_at location.recorded_at
            (seconds_between d.assigned_at location.recorded_at)
            (Option.map (outcome_of location.recorded_at d)
              (find (is_confirmed_for d.id) db.predictions))))
    else emit (record env.stamp { correlation = d.correlation_id }) (env.broken insert_event)
        "delivery.status_changed" d.order_id
        (status_changed d.id d.order_id d.courier_id location.phase location.recorded_at)

-- `applyPhase`. The two couriers, whose texts it compares, are compared as numbers: the same for ids in one
-- spelling.
unfoldable pub apply_phase : Env → CourierLocation → ℕ → Tx Logistics (Unit {0}) (Unit {0})
unfolding report_phase
apply_phase env location delivery_id db =
    if env.broken find_delivery
    then err tt
    else elim (find (delivery_is delivery_id) db.deliveries) [
      | none ↦ ok (tt, db)
      | some d ↦
          if not (d.courier_id == location.courier_id)
          then err tt
          else if str_eq location.phase "available" || str_eq location.phase (status_name d.status)
          then ok (tt, db)
          else if not (valid_delivery_transition d.status location.phase)
          then err tt
          else (write_phase env d location >> report_phase env d location) db
    ]

-- The row that the UPDATE of a position meets: a courier that has reported nothing later.
abbrev pub is_newer : CourierLocation → Courier → Bool
is_newer location c = courier_is location.courier_id c && ltb c.location_sequence location.sequence

abbrev pub place : CourierLocation → Courier → Courier
place location c = record c {
  latitude = location.latitude;
  longitude = location.longitude;
  location_sequence = location.sequence;
  last_seen_at = location.recorded_at;
}

abbrev pub place_courier : CourierLocation → Logistics → Logistics
place_courier location db = record db {
  couriers = update_where (is_newer location) (place location) db.couriers;
}

unfoldable pub phase_of : Env → CourierLocation → Tx Logistics (Unit {0}) (Unit {0})
unfolding apply_phase
phase_of env location = elim location.delivery_id [
  | none ↦ pure tt
  | some id ↦ apply_phase env location id
]

-- The transaction of `updateLocation`, after the event has been marked.
unfoldable pub locate : Env → CourierLocation → Tx Logistics (Unit {0}) (Unit {0})
unfolding phase_of
locate env location db =
    if env.broken update_location
    then err tt
    else if exists (is_newer location) db.couriers
    then phase_of env location (place_courier location db)
    else ok (tt, db)

-- GEOADD, which replaces the position of a courier; a failure is passed over.
abbrev geo_add : Env → CourierLocation → Logistics → Logistics
geo_add env location db = if env.redis_down then db else record db {
  positions = (location.courier_id, location.latitude, location.longitude) ∷ db.positions;
}

-- `updateLocation`: the position goes to Redis when a row has been updated and committed.
update_location_of :
    Env → Incoming → CourierLocation → Logistics → Result (Unit {0}) (Unit {0}) × Logistics
update_location_of env event location db =
    if env.broken begin
    then (err tt, db)
    else (let (answer, db') = transact (once env event (locate env location)) db in
        elim answer [
          | err _ ↦ (err tt, db')
          | ok _ ↦
              if exists (λ e. e == event.event_id) db.processed
                || not (exists (is_newer location) db.couriers)
              then (ok tt, db')
              else (ok tt, geo_add env location db')
        ])

-- `handle` of a record whose envelope decodes to `event`, or does not decode.
unfoldable pub handle : Env → Option Incoming → Logistics → Result (Unit {0}) (Unit {0}) × Logistics
unfolding assign update_location_of
handle env none db = (err tt, db)
handle env (some event) db =
    if str_eq event.event_type "order.created"
    then elim event.order [ none ↦ (err tt, db) | some order ↦ assign env event order db ]
    else if str_eq event.event_type "order.cancelled"
    then (if env.broken begin
        then (err tt, db)
        else transact (once env event (cancel_delivery env event)) db)
    else if str_eq event.event_type "courier.location_updated"
    then elim event.location [
      | none ↦ (err tt, db)
      | some location ↦ update_location_of env event location db
    ]
    else (ok tt, db)
