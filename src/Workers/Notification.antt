-- ===== src/Workers/Notification.antt =====
-- `Consumer.handle` of the notification worker
-- (services/notification-worker/internal/notification/consumer.go) and its tables (db/postgres/migrations).
-- What PostgreSQL takes for a uuid is a parameter.
pub mod Laws
use freshflow.Prelude.{
  ℕ, String, Bool, true, false, ◌||◌, ◌==◌, Option, none, some, List, [], ◌∷◌, ◌++◌, if◌then◌else◌,
  exists, Result, ok, err, Tx, transact, pure, fail_if, or_fail, gets, modify, ◌>>=◌, ◌>>◌,
}
use freshflow.Platform.Text.{str_eq}

-- What is read of the envelope.
pub record Incoming : Type 0 where
  pub event_id : String
  pub event_type : String
  pub aggregate_id : String
  pub correlation_id : String

-- A row of notifications.notification_log.
pub record Notice : Type 0 where
  pub event_id : ℕ
  pub order_id : ℕ
  pub event_type : String
  pub message : String
  pub correlation_id : String

-- The schema notifications of the database.
pub record Notices : Type 0 where
  pub processed : List ℕ
  pub log : List Notice

-- The calls that can fail for reasons outside the program.
pub data Call : Type 0 where
  begin mark_processed insert_notice commit : Call

-- What a call meets: the calls that fail, and the reading of a uuid.
pub record Env : Type 0 where
  pub broken : Call → Bool
  pub uuid_in : String → Option ℕ

-- `messageFor`
unfoldable pub message_for : String → Option String
message_for event_type =
    if str_eq event_type "order.created"
    then some "Заказ создан и ожидает подтверждения"
    else if str_eq event_type "order.confirmed"
    then some "Заказ подтверждён"
    else if str_eq event_type "order.status_changed"
    then some "Статус заказа изменился"
    else none

abbrev pub notice_of : Incoming → String → ℕ → ℕ → Notice
notice_of event message event_id order_id = record {
  event_id = event_id;
  order_id = order_id;
  event_type = event.event_type;
  message = message;
  correlation_id = event.correlation_id;
}

-- The INSERT of the notice. The log has unique events.
unfoldable pub record_notice : Env → Incoming → String → ℕ → Tx Notices (Unit {0}) Bool
record_notice env event message event_id = do
  order_id ← or_fail (env.uuid_in event.aggregate_id) tt
  db ← gets (λ db. db)
  fail_if (env.broken insert_notice || exists (λ n. n.event_id == event_id) db.log) tt
  modify (λ db. record db { log = db.log ++ notice_of event message event_id order_id ∷ [] })
  fail_if (env.broken commit) tt
  pure true

-- The transaction: INSERT … ON CONFLICT DO NOTHING into processed_events comes first.
unfoldable pub handle_tx : Env → Incoming → String → Tx Notices (Unit {0}) Bool
unfolding record_notice
handle_tx env event message db = elim (env.uuid_in event.event_id) [
  | none ↦ err tt
  | some event_id ↦
      if env.broken mark_processed
      then err tt
      else if exists (λ e. e == event_id) db.processed
      then (if env.broken commit then err tt else ok (false, db))
      else record_notice env event message event_id
          (record db { processed = db.processed ++ event_id ∷ [] })
]

-- `handle` of a record whose envelope decodes to `event`, or does not decode; it answers whether a
-- notice was recorded.
unfoldable pub handle : Env → Option Incoming → Notices → Result (Unit {0}) Bool × Notices
unfolding message_for handle_tx
handle env none db = (err tt, db)
handle env (some event) db =
    if str_eq event.event_id "" || str_eq event.aggregate_id "" || str_eq event.event_type ""
    then (err tt, db)
    else elim (message_for event.event_type) [
      | none ↦ (ok false, db)
      | some message ↦
          if env.broken begin then (err tt, db) else transact (handle_tx env event message) db
    ]
