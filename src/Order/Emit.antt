-- ===== src/Order/Emit.antt =====
-- What one event of an order adds to the outbox (pkg/platform/outbox/outbox.go, `Insert`, as the order
-- service calls it).
use freshflow.Prelude.{
  ℕ, ◌≡◌, ◌∙◌, String, Bool, List, [], ◌∷◌, ◌++◌, arith, Option-cases, inl, inr, ok,
}
use freshflow.Platform.Events.{Stamp, Envelope, Describes, new_event, new_event-Describes}
use freshflow.Platform.Outbox
use freshflow.Platform.Outbox.{Row, row_of, insert_appends}
use freshflow.Order.Model.{Payload, Orders}
use freshflow.Order.Cancel.{emit}

-- `rows'` is `rows` with one row at the end, for an event of this type and payload.
pub record Appends (event_type : String) (id : ℕ) (payload : Payload)
    (rows rows' : List (Row Payload)) : Type 0 where
  pub event : Envelope Payload
  pub describes : Describes event_type id payload event
  pub appended : rows' ≡ rows ++ row_of "freshflow.order.events.v1" id event ∷ []

pub record Emits (event_type : String) (id : ℕ) (payload : Payload) (db db' : Orders) : Type 0 where
  pub appends : Appends event_type id payload db.outbox db'.outbox
  pub users : db'.users ≡ db.users
  pub orders : db'.orders ≡ db.orders
  pub history : db'.history ≡ db.history
  pub keys : db'.keys ≡ db.keys
  pub processed : db'.processed ≡ db.processed

pub emit-Emits :
    (stamp : Stamp) (broken : Bool) (event_type : String) (id : ℕ) (payload : Payload)
    (db db' : Orders)
    → emit stamp broken event_type id payload db ≡ ok (tt, db')
    → Emits event_type id payload db db'
unfolding emit
emit-Emits stamp broken event_type id payload db db' e =
    elim (Option-cases (new_event stamp event_type "order-service" id payload)) [
      | inl unmade ↦ absurd (ground arith)
      | inr (event, made) ↦
          elim (Option-cases
            (Outbox.insert broken "orders" "freshflow.order.events.v1" id event db.outbox)) [
              | inl refused ↦ absurd (ground arith)
              | inr (rows, inserted) ↦ record {
                appends = record {
                  event = event;
                  describes =
                      new_event-Describes stamp event_type "order-service" id payload event made;
                  appended =
                      (let q : db'.outbox ≡ rows = ground arith in q)
                      ∙ insert_appends broken "orders" "freshflow.order.events.v1" id event
                          db.outbox rows inserted;
                };
                users = ground arith;
                orders = ground arith;
                history = ground arith;
                keys = ground arith;
                processed = ground arith;
              }
            ]
    ]
