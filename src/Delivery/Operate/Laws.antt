-- ===== src/Delivery/Operate/Laws.antt =====
-- The promises of the operator's operations (services/delivery-service/internal/delivery/handler.go).
use freshflow.Prelude.{
  ℕ, ◌≡◌, refl, String, true, false, ◌||◌, Option, none, some, find, arith, Bool-cases,
  Option-cases, Result-cases, inl, inr, ok, err, Tx, transact,
}
use freshflow.Platform.Text.{str_eq}
use freshflow.Platform.Http.{error}
use freshflow.Delivery.Model.{
  available, Delivery, Logistics, Env, begin, find_delivery, delivery_is, is_terminal,
}
use freshflow.Delivery.Events.{emit, mark_courier, update_delivery_row, set_completed}
use freshflow.Delivery.Operate.{
  OperationError, add_delay, with_live, delay_body, complete_body, delay, complete, action,
}
use freshflow.Delivery.Active.{Keeps}
use freshflow.Delivery.Invariant.{IsValid, Tallies-keep, Tallies-finish}
use freshflow.Delivery.Consume.Bodies.{SameRows, IsValid-same}

abbrev KeepsValid : ℕ → (Delivery → Tx Logistics OperationError (Unit {0})) → Type 0
KeepsValid id m =
    (d : Delivery) (db db' : Logistics)
    → find (delivery_is id) db.deliveries ≡ some d
    → is_terminal d.status ≡ false
    → m d db ≡ ok (tt, db')
    → IsValid db
    → IsValid db'

delay_body-KeepsValid : (env : Env) (id : ℕ) → KeepsValid id (delay_body env id)
unfolding delay_body Keeps emit
delay_body-KeepsValid env id d db db' found live e h =
    let mid = update_delivery_row id (add_delay env.now) db in
    let rows : SameRows mid db' = record { couriers = ground arith; deliveries = ground arith } in
    IsValid-same mid db' rows (
      Tallies-keep db.couriers db.deliveries id (add_delay env.now) d found (λ q. (refl, refl)) refl
        h)

complete_body-KeepsValid : (env : Env) (id : ℕ) → KeepsValid id (complete_body env id)
unfolding complete_body Keeps emit
complete_body-KeepsValid env id d db db' found live e h =
    let mid =
      mark_courier d.courier_id available (update_delivery_row id (set_completed env.now) db) in
    let rows : SameRows mid db' = record { couriers = ground arith; deliveries = ground arith } in
    IsValid-same mid db' rows (
      Tallies-finish db.couriers db.deliveries id (set_completed env.now) d found
        (λ q. (refl, refl)) live refl h)

with_live-IsValid :
    (env : Env) (id : ℕ) (m : Delivery → Tx Logistics OperationError (Unit {0})) (db : Logistics)
    → KeepsValid id m
    → IsValid db
    → IsValid (transact (with_live env id m) db).1
unfolding with_live
with_live-IsValid env id m db keep h = elim (Result-cases (with_live env id m db)) [
  | inl (x, failed) ↦ rw (transact, failed) h
  | inr ((_, last), went) ↦ elim (Option-cases (find (delivery_is id) db.deliveries)) [
    | inl absent ↦ absurd (ground arith)
    | inr (d, found) ↦ elim (Bool-cases (is_terminal d.status)) [
      | inl over ↦ absurd (ground arith)
      | inr live ↦ rw (transact, went) (keep d db last found live (ground arith) h)
    ]
  ]
]

-- An operation of the operator, whatever it meets and answers, leaves a courier marked as assigned
-- exactly while one delivery of theirs is live.
pub action-IsValid :
    (env : Env) (id : Option ℕ) (name : String) (db : Logistics)
    → IsValid db
    → IsValid (action env id name db).1
unfolding action delay complete
action-IsValid env none name db h = h
action-IsValid env (some id) name db h = elim (Bool-cases (env.broken begin)) [
  | inl down ↦
      IsValid-same db (action env (some id) name db).1
        (record { couriers = ground arith; deliveries = ground arith }) h
  | inr begins ↦ elim (Bool-cases (str_eq name "delay")) [
    | inl delays ↦
        IsValid-same (transact (with_live env id (delay_body env id)) db).1
          (action env (some id) name db).1
          (record { couriers = ground arith; deliveries = ground arith })
          (with_live-IsValid env id (delay_body env id) db (delay_body-KeepsValid env id) h)
    | inr moves_on ↦ elim (Bool-cases (str_eq name "complete")) [
      | inl completes ↦
          IsValid-same (transact (with_live env id (complete_body env id)) db).1
            (action env (some id) name db).1
            (record { couriers = ground arith; deliveries = ground arith })
            (with_live-IsValid env id (complete_body env id) db (complete_body-KeepsValid env id) h)
      | inr neither ↦
          IsValid-same db (action env (some id) name db).1
            (record { couriers = ground arith; deliveries = ground arith }) h
    ]
  ]
]

-- A delivery that is completed or cancelled is not operated on: where its row is read, both operations
-- are answered with a conflict and change nothing.
pub action_terminal :
    (env : Env) (id : ℕ) (name : String) (d : Delivery) (db : Logistics)
    → env.broken begin ≡ false
    → env.broken find_delivery ≡ false
    → find (delivery_is id) db.deliveries ≡ some d
    → is_terminal d.status ≡ true
    → (str_eq name "delay" || str_eq name "complete") ≡ true
    → action env (some id) name db ≡ (err (error 409 "delivery_not_actionable"), db)
unfolding action delay complete with_live
action_terminal env id name d db begins reads found over known = ground arith
