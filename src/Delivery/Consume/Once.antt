-- ===== src/Delivery/Consume/Once.antt =====
-- The consumer of the delivery service takes an event at most once
-- (services/delivery-service/internal/delivery/consumer.go).
use freshflow.Prelude.{
  ℕ, ◌≡◌, refl, ap, sym, ◌∙◌, String, Bool, true, not, ◌||◌, Option, none, some, List, [], ◌∷◌,
  ◌++◌, ◌==◌, ==_refl, find, exists, exists-append, arith, Bool-cases, Option-cases, Result-cases,
  List-cases, inl, inr, ok, err, Tx, transact, ◌⊎◌,
}
use freshflow.Platform.Text.{str_eq}
use freshflow.Platform.Events.{Stamp}
use freshflow.Delivery.Model.{
  Payload, OrderCreated, CourierLocation, Delivery, Logistics, Env, begin, delivery_is,
}
use freshflow.Delivery.Events.{emit}
use freshflow.Delivery.Consume.{
  Incoming, once, cancel_delivery, assign_delivery, assign, insert_row, write_phase, report_phase,
  apply_phase, phase_of, locate, update_location_of, place_courier, handle,
}

-- A record that is answered with an error leaves the tables and the positions as they were, so that it
-- can be delivered again.
pub delivery_error_unchanged :
    (env : Env) (record_value : Option Incoming) (db : Logistics)
    → (handle env record_value db).0 ≡ err tt
    → (handle env record_value db).1 ≡ db
unfolding handle assign update_location_of
delivery_error_unchanged env none db e = refl
delivery_error_unchanged env (some event) db e = ground arith

abbrev pub is_processed : Incoming → Logistics → Bool
is_processed event db = exists (λ e. e == event.event_id) db.processed

-- The event types that the consumer passes over.
abbrev pub is_ignored : Incoming → Bool
is_ignored event = not (
    str_eq event.event_type "order.created"
    || str_eq event.event_type "order.cancelled"
    || str_eq event.event_type "courier.location_updated")

abbrev KeepsProcessed : Tx Logistics (Unit {0}) (Unit {0}) → Type 0
KeepsProcessed m = (db db' : Logistics) → m db ≡ ok (tt, db') → db'.processed ≡ db.processed

emit-KeepsProcessed :
    (stamp : Stamp) (broken : Bool) (event_type : String) (id : ℕ) (payload : Payload)
    → KeepsProcessed (emit stamp broken event_type id payload)
unfolding emit
emit-KeepsProcessed stamp broken event_type id payload db db' e = ground arith

cancel_delivery-KeepsProcessed :
    (env : Env) (event : Incoming) → KeepsProcessed (cancel_delivery env event)
unfolding cancel_delivery emit
cancel_delivery-KeepsProcessed env event db db' e = ground arith

assign_delivery-KeepsProcessed :
    (env : Env) (candidates : List ℕ) (event : Incoming) (order : OrderCreated)
    → KeepsProcessed (assign_delivery env candidates event order)
unfolding assign_delivery insert_row emit
assign_delivery-KeepsProcessed env candidates event order db db' e = ground arith

write_phase-KeepsProcessed :
    (env : Env) (d : Delivery) (location : CourierLocation)
    → KeepsProcessed (write_phase env d location)
unfolding write_phase
write_phase-KeepsProcessed env d location db db' e = ground arith

report_phase-KeepsProcessed :
    (env : Env) (d : Delivery) (location : CourierLocation)
    → KeepsProcessed (report_phase env d location)
unfolding report_phase emit
report_phase-KeepsProcessed env d location db db' e = ground arith

apply_phase-KeepsProcessed :
    (env : Env) (location : CourierLocation) (id : ℕ) → KeepsProcessed (apply_phase env location id)
unfolding apply_phase
apply_phase-KeepsProcessed env location id db db' e =
    elim (Option-cases (find (delivery_is id) db.deliveries)) [
      | inl absent ↦ ground arith
      | inr (d, found) ↦ elim (Result-cases (write_phase env d location db)) [
        | inl (x, failed) ↦ ground arith
        | inr ((_, mid), wrote) ↦ ground (
          arith,
          write_phase-KeepsProcessed env d location db mid wrote,
          report_phase-KeepsProcessed env d location mid db',
        )
      ]
    ]

locate-KeepsProcessed :
    (env : Env) (location : CourierLocation) → KeepsProcessed (locate env location)
unfolding locate phase_of
locate-KeepsProcessed env location db db' e = elim (Option-cases location.delivery_id) [
  | inl free ↦ ground arith
  | inr (id, bound) ↦
      ground (arith, apply_phase-KeepsProcessed env location id (place_courier location db) db')
]

once_marks :
    (env : Env) (event : Incoming) (m : Tx Logistics (Unit {0}) (Unit {0})) (db db' : Logistics)
    → KeepsProcessed m
    → once env event m db ≡ ok (tt, db')
    → is_processed event db' ≡ true
unfolding once
once_marks env event m db db' keep e = elim (Bool-cases (is_processed event db)) [
  | inl seen ↦ (let same : db ≡ db' = ground arith in rw (← same) seen)
  | inr new ↦
      let marked : Logistics = record db { processed = db.processed ++ event.event_id ∷ [] } in
      elim (Result-cases (m marked)) [
        | inl (x, failed) ↦ absurd (ground arith)
        | inr ((_, last), went) ↦
            let same : last ≡ db' = ground arith in
            rw (← same, keep marked last went)
              (exists-append (λ x. x == event.event_id) db.processed (event.event_id ∷ [])
                ∙ ground (arith, ==_refl event.event_id))
      ]
]

transact_marks :
    (env : Env) (event : Incoming) (m : Tx Logistics (Unit {0}) (Unit {0})) (db : Logistics)
    → KeepsProcessed m
    → (transact (once env event m) db).0 ≡ ok tt
    → is_processed event (transact (once env event m) db).1 ≡ true
transact_marks env event m db keep e = elim (Result-cases (once env event m db)) [
  | inl (x, failed) ↦ absurd (ground arith)
  | inr ((_, last), went) ↦ rw (transact, went) (once_marks env event m db last keep went)
]

assign_marks :
    (env : Env) (event : Incoming) (order : OrderCreated) (db : Logistics)
    → (assign env event order db).0 ≡ ok tt
    → is_processed event (assign env event order db).1 ≡ true
unfolding assign
assign_marks env event order db e = elim (Option-cases env.candidates) [
  | inl down ↦ absurd (ground arith)
  | inr (ks, found) ↦ elim (List-cases ks) [
    | inl nobody ↦ absurd (ground arith)
    | inr (k, rest, some_one) ↦ elim (Bool-cases (env.broken begin)) [
      | inl failed ↦ absurd (ground arith)
      | inr begins ↦
          let m = assign_delivery env (k ∷ rest) event order in
          let same : assign env event order db ≡ transact (once env event m) db = ground arith in
          rw same (
            transact_marks env event m db
              (assign_delivery-KeepsProcessed env (k ∷ rest) event order)
              (ap (λ x. x.0) (sym same) ∙ e))
    ]
  ]
]

locate_marks :
    (env : Env) (event : Incoming) (location : CourierLocation) (db : Logistics)
    → (update_location_of env event location db).0 ≡ ok tt
    → is_processed event (update_location_of env event location db).1 ≡ true
unfolding update_location_of
locate_marks env event location db e =
    let m = locate env location in
    let went : (transact (once env event m) db).0 ≡ ok tt = ground arith in
    let rows : (update_location_of env event location db).1.processed
        ≡ (transact (once env event m) db).1.processed =
      ground arith in
    rw rows (transact_marks env event m db (locate-KeepsProcessed env location) went)

handle_marks :
    (env : Env) (event : Incoming) (db : Logistics)
    → (handle env (some event) db).0 ≡ ok tt
    → (is_ignored event ≡ true) ⊎ (is_processed event (handle env (some event) db).1 ≡ true)
unfolding handle
handle_marks env event db e = elim (Bool-cases (str_eq event.event_type "order.created")) [
  | inl creates ↦ elim (Option-cases event.order) [
    | inl garbled ↦ absurd (ground arith)
    | inr (order, decoded) ↦
        let same : handle env (some event) db ≡ assign env event order db = ground arith in
        inr (rw same (assign_marks env event order db (ap (λ x. x.0) (sym same) ∙ e)))
  ]
  | inr uncreated ↦ elim (Bool-cases (str_eq event.event_type "order.cancelled")) [
    | inl cancels ↦ elim (Bool-cases (env.broken begin)) [
      | inl failed ↦ absurd (ground arith)
      | inr begins ↦
          let m = cancel_delivery env event in
          let same : handle env (some event) db ≡ transact (once env event m) db = ground arith in
          inr (
            rw same (
              transact_marks env event m db (cancel_delivery-KeepsProcessed env event)
                (ap (λ x. x.0) (sym same) ∙ e)))
    ]
    | inr uncancelled ↦ elim (Bool-cases (str_eq event.event_type "courier.location_updated")) [
      | inl moves ↦ elim (Option-cases event.location) [
        | inl garbled ↦ absurd (ground arith)
        | inr (location, decoded) ↦
            let same : handle env (some event) db ≡ update_location_of env event location db =
              ground arith in
            inr (rw same (locate_marks env event location db (ap (λ x. x.0) (sym same) ∙ e)))
      ]
      | inr unmoved ↦ inl (ground arith)
    ]
  ]
]

once_seen :
    (env : Env) (event : Incoming) (m : Tx Logistics (Unit {0}) (Unit {0})) (db : Logistics)
    → is_processed event db ≡ true
    → (transact (once env event m) db).1 ≡ db
unfolding once
once_seen env event m db seen = ground arith

handle_seen :
    (env : Env) (event : Incoming) (db : Logistics)
    → (is_ignored event ≡ true) ⊎ (is_processed event db ≡ true)
    → (handle env (some event) db).1 ≡ db
unfolding handle assign update_location_of once
handle_seen env event db (inl over) = ground arith
handle_seen env event db (inr seen) = ground arith

-- Once an event has been handled, its second delivery changes nothing, whatever it meets: neither the
-- tables nor the positions.
pub delivery_once :
    (env env' : Env) (event : Incoming) (db : Logistics)
    → (handle env (some event) db).0 ≡ ok tt
    → (handle env' (some event) (handle env (some event) db).1).1 ≡ (handle env (some event) db).1
delivery_once env env' event db e =
    handle_seen env' event (handle env (some event) db).1 (handle_marks env event db e)
