-- ===== src/Order/Consume/Laws.antt =====
-- The promises of `EventConsumer.handle` (services/order-service/internal/order/consumer.go).
use mathlib.Core.Path.{subst}
use freshflow.Prelude.{
  ℕ, ◌≡◌, sym, ◌∙◌, true, false, List, [], ◌∷◌, ◌++◌, update_where, arith, Bool-cases, Result-cases,
  inl, inr, Result, ok, ◌⊎◌,
}
use freshflow.Platform.Text.{str_eq}
use freshflow.Platform.Outbox.{Row}
use freshflow.Order.Model.{
  Status, cancelled, Order, Payload, order_confirmed, status_changed, Orders, Env, order_is,
  insert_event, insert_changed,
}
use freshflow.Order.Status.{status_eq, status_eq→eq, valid_transition}
use freshflow.Order.Cancel.{set_status, move, log_change}
use freshflow.Order.Consume.{Incoming, announce, advance}
use freshflow.Order.Emit.{Appends, emit-Emits}

-- A confirmation is announced before the change of status, if the event is an assignment.
pub data Announces (event : Incoming) : List (Row Payload) → List (Row Payload) → Type 0 where
  silent :
      {rows : List (Row Payload)}
      → str_eq event.event_type "delivery.assigned" ≡ false
      → Announces event rows rows
  announced :
      {rows rows' : List (Row Payload)} (now : ℕ)
      → str_eq event.event_type "delivery.assigned" ≡ true
      → Appends "order.confirmed" event.aggregate_id
          (order_confirmed event.aggregate_id now)
          rows
          rows'
      → Announces event rows rows'

-- The event moved its order: by a valid transition, logged, with its events in the outbox.
pub record Moves (now : ℕ) (event : Incoming) (new : Status) (o : Order) (db db' : Orders)
    : Type 0 where
  pub valid : valid_transition o.status new ≡ true
  pub orders : db'.orders ≡ update_where (order_is event.aggregate_id) (set_status new) db.orders
  pub history :
      db'.history
      ≡ db.history
        ++ record {
          order_id = event.aggregate_id;
          previous_status = o.status;
          new_status = new;
          changed_at = now;
        }
          ∷ []
  pub keys : db'.keys ≡ db.keys
  pub processed : db'.processed ≡ db.processed
  pub between : List (Row Payload)
  pub announces : Announces event db.outbox between
  pub reports :
      Appends "order.status_changed" event.aggregate_id
        (status_changed event.aggregate_id o.status new now)
        between
        db'.outbox

ok-state :
    (db db' : Orders)
    → Path (Result (Unit {0}) (Unit {0} × Orders)) (ok (tt, db)) (ok (tt, db'))
    → db ≡ db'
ok-state db db' e = cc

announce-Announces :
    (env : Env) (event : Incoming) (db db' : Orders)
    → announce env event db ≡ ok (tt, db')
    → (db'.orders ≡ db.orders)
      × (db'.history ≡ db.history)
      × (db'.keys ≡ db.keys)
      × (db'.processed ≡ db.processed)
      × Announces event db.outbox db'.outbox
unfolding announce
announce-Announces env event db db' e =
    elim (Bool-cases (str_eq event.event_type "delivery.assigned")) [
      | inr other ↦
          let same : db ≡ db' = ground arith in
          (
            ground arith,
            ground arith,
            ground arith,
            ground arith,
            subst (λ (x : Orders). Announces event db.outbox x.outbox) same (silent other),
          )
      | inl assigned ↦
          let em =
            emit-Emits env.stamp (env.broken insert_event) "order.confirmed" event.aggregate_id
              (order_confirmed event.aggregate_id env.now) db db' (rw assigned at e) in
          (em.orders, em.history, em.keys, em.processed, announced env.now assigned em.appends)
    ]

pub advance-cases :
    (env : Env) (event : Incoming) (new : Status) (o : Order) (db db' : Orders)
    → advance env event new o db ≡ ok (tt, db')
    → (((o.status ≡ new) ⊎ (o.status ≡ cancelled)) × (db' ≡ db)) ⊎ Moves env.now event new o db db'
unfolding advance
advance-cases env event new o db db' e = elim (Bool-cases (status_eq o.status new)) [
  | inl there ↦ inl (inl (status_eq→eq o.status new there), sym (ok-state db db' (rw there at e)))
  | inr apart ↦ elim (Bool-cases (status_eq o.status cancelled)) [
    | inl over ↦
        inl (
          inr (status_eq→eq o.status cancelled over),
          sym (ok-state db db' (rw (apart, over) at e)),
        )
    | inr live ↦ elim (Bool-cases (valid_transition o.status new)) [
      | inr invalid ↦ absurd (cc (rw (apart, live, invalid) at e))
      | inl valid ↦
          let mid =
            log_change event.aggregate_id o.status new env.now (move event.aggregate_id new db) in
          let rest = rw (apart, live, valid) at e in
          elim (Result-cases (announce env event mid)) [
            | inl (x, failed) ↦ absurd (ground arith)
            | inr ((_, between), told) ↦
                let said = announce-Announces env event mid between told in
                let em =
                  emit-Emits env.changed_stamp (env.broken insert_changed) "order.status_changed"
                    event.aggregate_id (status_changed event.aggregate_id o.status new env.now)
                    between db' (ground arith) in
                inr (record {
                  valid = valid;
                  orders = em.orders ∙ said.0;
                  history = em.history ∙ said.1;
                  keys = em.keys ∙ said.2;
                  processed = em.processed ∙ said.3;
                  between = between.outbox;
                  announces = said.4;
                  reports = em.appends;
                })
          ]
    ]
  ]
]
