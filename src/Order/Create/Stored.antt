-- ===== src/Order/Create/Stored.antt =====
-- What the transaction of `persistOrder` writes (services/order-service/internal/order/service.go).
use mathlib.Core.Path.{subst}
use freshflow.Prelude.{
  ℕ, ◌≡◌, ◌∙◌, sym, String, some, [], ◌∷◌, ◌++◌, update_where, arith, Option-cases, Result-cases,
  inl, inr, ok, err,
}
use freshflow.Platform.Events.{Envelope, Describes, new_event, new_event-Describes}
use freshflow.Platform.Outbox
use freshflow.Platform.Outbox.{row_of, insert_appends}
use freshflow.Order.Model.{
  CheckoutRequest, Reservation, User, Order, Orders, Payload, order_created, Env, insert_event,
  key_is,
}
use freshflow.Order.Create.{complete, order_of, persist_tx, persist_order}

pub record Persists (key : String) (order : Order) (db db' : Orders) : Type 0 where
  pub users : db'.users ≡ db.users
  pub orders : db'.orders ≡ db.orders ++ order ∷ []
  pub history : db'.history ≡ db.history
  pub keys : db'.keys ≡ update_where (key_is key) (complete order) db.keys
  pub processed : db'.processed ≡ db.processed
  pub event : Envelope Payload
  pub describes : Describes "order.created" order.id (order_created order) event
  pub outbox : db'.outbox ≡ db.outbox ++ row_of "freshflow.order.events.v1" order.id event ∷ []

persist_tx-Persists :
    (env : Env) (key : String) (order answer : Order) (db db' : Orders)
    → persist_tx env key order db ≡ ok (answer, db')
    → (answer ≡ order) × Persists key order db db'
unfolding persist_tx
persist_tx-Persists env key order answer db db' e =
    elim (Option-cases
      (new_event env.stamp "order.created" "order-service" order.id (order_created order))) [
        | inl unmade ↦ absurd (ground arith)
        | inr (event, made) ↦
            elim (Option-cases (
              Outbox.insert (env.broken insert_event) "orders" "freshflow.order.events.v1" order.id
                event db.outbox)) [
                  | inl refused ↦ absurd (ground arith)
                  | inr (rows, inserted) ↦ (
                    ground arith,
                    record {
                      users = ground arith;
                      orders = ground arith;
                      history = ground arith;
                      keys = ground arith;
                      processed = ground arith;
                      event = event;
                      describes =
                          new_event-Describes env.stamp "order.created" "order-service" order.id
                            (order_created order) event made;
                      outbox =
                          (let q : db'.outbox ≡ rows = ground arith in q)
                          ∙ insert_appends (env.broken insert_event) "orders"
                              "freshflow.order.events.v1" order.id event db.outbox rows inserted;
                    },
                  )
                ]
      ]

-- The order that `persistOrder` stored for a reservation.
pub record Persisted (env : Env) (key : String) (request : CheckoutRequest)
    (reservation : Reservation) (user : User) (order : Order) (db db' : Orders) : Type 0 where
  pub id : ℕ
  pub drawn : env.order_uuid ≡ some id
  pub shape : order ≡ order_of id request reservation user env.now
  pub writes : Persists key order db db'

module _ (env : Env) (key : String) (request : CheckoutRequest) (reservation : Reservation)
    (user : User) where
  pub persist_order-Persisted :
      (order : Order) (db db' : Orders)
      → persist_order env key request reservation user db ≡ (ok order, db')
      → Persisted env key request reservation user order db db'
  unfolding persist_order
  persist_order-Persisted order db db' e = elim (Option-cases env.order_uuid) [
    | inl undrawn ↦ absurd (ground arith)
    | inr (id, drawn) ↦
        let made = order_of id request reservation user env.now in
        elim (Result-cases (persist_tx env key made db)) [
          | inl (x, refused) ↦ absurd (ground arith)
          | inr ((answer, last), stored) ↦
              let (same, writes) = persist_tx-Persists env key made answer db last stored in
              let answered : answer ≡ order = ground arith in
              let ended : last ≡ db' = ground arith in
              let is_made : made ≡ order = sym same ∙ answered in
              record {
                id = id;
                drawn = drawn;
                shape = sym is_made;
                writes =
                    subst (λ o. Persists key o db db') is_made
                      (subst (Persists key made db) ended writes);
              }
        ]
  ]

  -- A transaction that fails leaves every table as it was.
  pub persist_order_error :
      (db db' : Orders)
      → persist_order env key request reservation user db ≡ (err tt, db')
      → db' ≡ db
  unfolding persist_order
  persist_order_error db db' e = ground arith
