-- ===== src/Order/Consume.antt =====
-- `EventConsumer.handle` (services/order-service/internal/order/consumer.go): the events of the delivery
-- service move the status of an order, each event at most once.
pub mod Laws
pub mod Handled
use freshflow.Prelude.{
  ℕ, String, true, ◌||◌, not, Option, none, some, [], ◌∷◌, ◌++◌, ◌==◌, if◌then◌else◌, find, exists,
  Result, ok, err, Tx, pure, modify, fail_if, ◌>>◌, transact,
}
use freshflow.Platform.Text.{str_eq}
use freshflow.Order.Model.{
  Status, confirmed, assembling, delivering, delivered, cancelled, Order, order_confirmed,
  status_changed, Orders, begin, mark_processed, read_order, update_order, insert_history,
  insert_event, insert_changed, commit, order_is, Env,
}
use freshflow.Order.Status.{status_eq, valid_transition}
use freshflow.Order.Cancel.{move, log_change, emit}

-- What the consumer reads of a record: the envelope, and the `status` of the payload, which is `none`
-- where the payload does not decode.
pub record Incoming : Type 0 where
  pub event_id : ℕ
  pub event_type : String
  pub aggregate_id : ℕ
  pub payload_status : Option String

-- What an event asks for.
pub data Target : Type 0 where
  ignored : Target
  refused : Target
  target : Status → Target

abbrev status_target : Option String → Target
status_target none = refused
status_target (some s) =
    if str_eq s "assembling"
    then target assembling
    else if str_eq s "delivering"
    then target delivering
    else refused

-- The `switch` on the event type. An event with no target status is an error.
unfoldable pub target_of : Incoming → Target
target_of event =
    if str_eq event.event_type "delivery.assigned"
    then target confirmed
    else if str_eq event.event_type "delivery.status_changed"
    then status_target event.payload_status
    else if str_eq event.event_type "delivery.completed"
    then target delivered
    else ignored

-- The event of a confirmation, which only an assignment brings.
announce : Env → Incoming → Tx Orders (Unit {0}) (Unit {0})
announce env event =
    if str_eq event.event_type "delivery.assigned"
    then emit env.stamp (env.broken insert_event) "order.confirmed" event.aggregate_id
        (order_confirmed event.aggregate_id env.now)
    else pure tt

-- From the status that is read to the COMMIT. An order that is there already or cancelled stays.
pub advance : Env → Incoming → Status → Order → Tx Orders (Unit {0}) (Unit {0})
unfolding announce
advance env event new o =
    if status_eq o.status new || status_eq o.status cancelled
    then pure tt
    else if not (valid_transition o.status new)
    then fail_if true tt
    else (do
      fail_if (env.broken update_order) tt
      modify (move event.aggregate_id new)
      fail_if (env.broken insert_history) tt
      modify (log_change event.aggregate_id o.status new env.now)
      announce env event
      emit env.changed_stamp (env.broken insert_changed) "order.status_changed" event.aggregate_id
          (status_changed event.aggregate_id o.status new env.now))

-- The transaction: INSERT … ON CONFLICT DO NOTHING into processed_events comes first.
consume_tx : Env → Incoming → Status → Tx Orders (Unit {0}) (Unit {0})
unfolding advance
consume_tx env event new db =
    if env.broken mark_processed
    then err tt
    else if exists (λ e. e == event.event_id) db.processed
    then fail_if (env.broken commit) tt db
    else if env.broken read_order
    then err tt
    else elim (find (order_is event.aggregate_id) db.orders) [
      | none ↦ err tt
      | some o ↦
          (advance env event new o >> fail_if (env.broken commit) tt)
            (record db { processed = db.processed ++ event.event_id ∷ [] })
    ]

-- `handle` of a record whose envelope decodes to `event`, or does not decode.
unfoldable pub handle : Env → Option Incoming → Orders → Result (Unit {0}) (Unit {0}) × Orders
unfolding consume_tx
handle env none db = (err tt, db)
handle env (some event) db = elim (target_of event) [
  | ignored ↦ (ok tt, db)
  | refused ↦ (err tt, db)
  | target new ↦ if env.broken begin then (err tt, db) else transact (consume_tx env event new) db
]
