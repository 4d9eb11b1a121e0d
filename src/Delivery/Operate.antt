-- ===== src/Delivery/Operate.antt =====
-- The operations of an operator (services/delivery-service/internal/delivery/handler.go): `delay`,
-- `complete`, and how `action` answers.
pub mod Laws
use mathlib.Core.Option
use freshflow.Prelude.{
  ℕ, ◌+◌, String, true, false, Option, none, some, ltb, if◌then◌else◌, find, Result, ok, err, Tx,
  modify, fail_if, ◌>>=◌, ◌>>◌, transact,
}
use freshflow.Platform.Text.{str_eq}
use freshflow.Platform.Http.{ApiError, error, internal_error}
use freshflow.Delivery.Model.{
  Delivery, Logistics, Env, available, begin, find_delivery, update_courier, update_delivery,
  insert_event, update_predictions, commit, read_back, delivery_is, is_terminal, delay_injected,
  operator_completed,
}
use freshflow.Delivery.Events.{
  emit, mark_courier, update_delivery_row, set_completed, seconds_between, close_predictions,
}

-- The errors of an operation: pgx.ErrNoRows, errTerminalDelivery, and any other.
pub data OperationError : Type 0 where
  no_rows terminal broken_off : OperationError

-- LEAST(600, …) of the delay, and the prediction moved by as much.
abbrev pub add_delay : ℕ → Delivery → Delivery
add_delay now d = record d {
  simulation_delay_seconds =
      if ltb 600 (d.simulation_delay_seconds + 10) then 600 else d.simulation_delay_seconds + 10;
  predicted_eta_seconds = Option.map (λ s. s + 10) d.predicted_eta_seconds;
  eta_updated_at = some now;
}

-- The reading of the row, which both operations begin with.
unfoldable pub with_live :
    Env
    → ℕ
    → (Delivery → Tx Logistics OperationError (Unit {0}))
    → Tx Logistics OperationError (Unit {0})
with_live env id body db =
    if env.broken find_delivery
    then err broken_off
    else elim (find (delivery_is id) db.deliveries) [
      | none ↦ err no_rows
      | some d ↦ if is_terminal d.status then err terminal else body d db
    ]

-- A step of the delivery service's shared code, with its error told apart from the other two.
abbrev pub lift : {A : Type 0} → Tx Logistics (Unit {0}) A → Tx Logistics OperationError A
lift m db = elim (m db) [ err _ ↦ err broken_off | ok r ↦ ok r ]

unfoldable pub delay_body : Env → ℕ → Delivery → Tx Logistics OperationError (Unit {0})
delay_body env id d = do
  fail_if (env.broken update_delivery) broken_off
  modify (update_delivery_row id (add_delay env.now))
  lift (
      emit env.stamp (env.broken insert_event) "delivery.delay_injected" d.order_id
        (delay_injected id d.order_id 10 env.now))
  fail_if (env.broken commit) broken_off

unfoldable pub complete_body : Env → ℕ → Delivery → Tx Logistics OperationError (Unit {0})
complete_body env id d = do
  fail_if (env.broken update_delivery) broken_off
  modify (update_delivery_row id (set_completed env.now))
  fail_if (env.broken update_courier) broken_off
  modify (mark_courier d.courier_id available)
  fail_if (env.broken update_predictions) broken_off
  modify (close_predictions id env.now)
  lift (
      emit (record env.stamp { correlation = d.correlation_id }) (env.broken insert_event)
        "delivery.completed" d.order_id
        (operator_completed id d.order_id d.courier_id d.assigned_at env.now
          (seconds_between d.assigned_at env.now)))
  fail_if (env.broken commit) broken_off

-- `delay`
unfoldable pub delay : Env → ℕ → Logistics → Result OperationError (Unit {0}) × Logistics
unfolding with_live delay_body
delay env id db =
    if env.broken begin
    then (err broken_off, db)
    else transact (with_live env id (delay_body env id)) db

-- `complete`
unfoldable pub complete : Env → ℕ → Logistics → Result OperationError (Unit {0}) × Logistics
unfolding with_live complete_body
complete env id db =
    if env.broken begin
    then (err broken_off, db)
    else transact (with_live env id (complete_body env id)) db

abbrev pub operation_error : OperationError → ApiError
operation_error no_rows = error 404 "delivery_not_found"
operation_error terminal = error 409 "delivery_not_actionable"
operation_error broken_off = internal_error

abbrev answer_of :
    Env → ℕ → Result OperationError (Unit {0}) × Logistics → Result ApiError Delivery × Logistics
answer_of env id (err e, db) = (err (operation_error e), db)
answer_of env id (ok _, db) = if env.broken read_back then (err internal_error, db) else (
  elim (find (delivery_is id) db.deliveries) [ none ↦ err internal_error | some d ↦ ok d ],
  db,
)

-- `action` of a request that decodes: `id` is `none` for a path that is no UUID. The answer reads the
-- delivery back.
unfoldable pub action : Env → Option ℕ → String → Logistics → Result ApiError Delivery × Logistics
unfolding delay complete
action env none name db = (err (error 400 "invalid_delivery_id"), db)
action env (some id) name db =
    if str_eq name "delay"
    then answer_of env id (delay env id db)
    else if str_eq name "complete"
    then answer_of env id (complete env id db)
    else (err (error 400 "invalid_operation_action"), db)
