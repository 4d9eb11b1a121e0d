-- ===== src/Delivery/Consume/Valid.antt =====
-- The consumer of the delivery service keeps couriers and deliveries in step
-- (services/delivery-service/internal/delivery/consumer.go).
use mathlib.Core.Path.{subst}
use freshflow.Prelude.{
  ◌≡◌, Option, none, some, [], ◌∷◌, ◌++◌, ◌==◌, exists, arith, Bool-cases, Option-cases,
  Result-cases, inl, inr, Tx, transact, List-cases,
}
use freshflow.Platform.Text.{str_eq}
use freshflow.Delivery.Model.{OrderCreated, CourierLocation, Logistics, Env, begin}
use freshflow.Delivery.Consume.{
  Incoming, once, cancel_delivery, assign_delivery, assign, locate, handle, update_location_of,
}
use freshflow.Delivery.Invariant.{IsValid}
use freshflow.Delivery.Consume.Bodies.{
  KeepsValid, IsValid-same, SameRows, cancel_delivery-KeepsValid, assign_delivery-KeepsValid,
  locate-KeepsValid,
}

-- A body that runs once keeps what it keeps alone.
once-KeepsValid :
    (env : Env) (event : Incoming) (m : Tx Logistics (Unit {0}) (Unit {0}))
    → KeepsValid m
    → KeepsValid (once env event m)
unfolding once
once-KeepsValid env event m keep db db' e h =
    elim (Bool-cases (exists (λ x. x == event.event_id) db.processed)) [
      | inl seen ↦ (let same : db ≡ db' = ground arith in subst IsValid same h)
      | inr new ↦
          let marked : Logistics = record db { processed = db.processed ++ event.event_id ∷ [] } in
          elim (Result-cases (m marked)) [
            | inl (x, failed) ↦ absurd (ground arith)
            | inr ((_, last), went) ↦
                (let same : last ≡ db' = ground arith in
                  subst IsValid same (keep marked last went h))
          ]
    ]

-- A transaction whose body keeps the tables valid keeps them, whatever it answers.
transact-IsValid :
    (m : Tx Logistics (Unit {0}) (Unit {0})) (db : Logistics)
    → KeepsValid m
    → IsValid db
    → IsValid (transact m db).1
transact-IsValid m db keep h = elim (Result-cases (m db)) [
  | inl (x, failed) ↦ rw (transact, failed) h
  | inr ((_, last), went) ↦ rw (transact, went) (keep db last went h)
]

assign-IsValid :
    (env : Env) (event : Incoming) (order : OrderCreated) (db : Logistics)
    → IsValid db
    → IsValid (assign env event order db).1
unfolding assign
assign-IsValid env event order db h = elim (Option-cases env.candidates) [
  | inl down ↦ rw down h
  | inr (ks, found) ↦ elim (List-cases ks) [
    | inl nobody ↦ rw (found, nobody) h
    | inr (k, rest, some_one) ↦ elim (Bool-cases (env.broken begin)) [
      | inl failed ↦ rw (found, some_one, failed) h
      | inr begins ↦
          let m = once env event (assign_delivery env (k ∷ rest) event order) in
          let same : assign env event order db ≡ transact m db = ground arith in
          rw same (
            transact-IsValid m db
              (once-KeepsValid env event (assign_delivery env (k ∷ rest) event order)
                (assign_delivery-KeepsValid env (k ∷ rest) event order))
              h)
    ]
  ]
]

update_location_of-IsValid :
    (env : Env) (event : Incoming) (location : CourierLocation) (db : Logistics)
    → IsValid db
    → IsValid (update_location_of env event location db).1
unfolding update_location_of
update_location_of-IsValid env event location db h =
    let m = once env event (locate env location) in
    let after =
      transact-IsValid m db
        (once-KeepsValid env event (locate env location) (locate-KeepsValid env location)) h in
    elim (Bool-cases (env.broken begin)) [
      | inl failed ↦ rw failed h
      | inr begins ↦
          let rows : SameRows (transact m db).1 (update_location_of env event location db).1 =
            record { couriers = ground arith; deliveries = ground arith } in
          IsValid-same (transact m db).1 (update_location_of env event location db).1 rows after
    ]

-- Whatever record the consumer handles and however that ends, a courier stays marked as assigned
-- exactly while one delivery of theirs is live, and no courier has two live deliveries.
pub handle-IsValid :
    (env : Env) (record_value : Option Incoming) (db : Logistics)
    → IsValid db
    → IsValid (handle env record_value db).1
unfolding handle
handle-IsValid env none db h = h
handle-IsValid env (some event) db h = elim (Bool-cases (str_eq event.event_type "order.created")) [
  | inl creates ↦ rw creates (elim (Option-cases event.order) [
    | inl garbled ↦ rw garbled h
    | inr (order, decoded) ↦ rw decoded (assign-IsValid env event order db h)
  ])
  | inr x ↦ rw x (elim (Bool-cases (str_eq event.event_type "order.cancelled")) [
    | inl cancels ↦ rw cancels (elim (Bool-cases (env.broken begin)) [
      | inl failed ↦ rw failed h
      | inr begins ↦ rw begins (
          transact-IsValid (once env event (cancel_delivery env event)) db
            (once-KeepsValid env event (cancel_delivery env event)
              (cancel_delivery-KeepsValid env event))
            h)
    ])
    | inr y ↦ rw y (elim (Bool-cases (str_eq event.event_type "courier.location_updated")) [
      | inl moves ↦ rw moves (elim (Option-cases event.location) [
        | inl garbled ↦ rw garbled h
        | inr (location, decoded) ↦ rw decoded (update_location_of-IsValid env event location db h)
      ])
      | inr z ↦ rw z h
    ])
  ])
]
