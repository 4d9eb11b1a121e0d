-- ===== src/Delivery/Consume/Bodies.antt =====
-- The bodies of the transactions of the delivery consumer keep couriers and deliveries in step
-- (services/delivery-service/internal/delivery/consumer.go).
use mathlib.Core.Path.{subst}
use freshflow.Prelude.{
  ℕ, ◌≡◌, refl, sym, String, Bool, true, false, ◌||◌, some, List, [], ◌∷◌, ◌++◌, find, exists,
  arith, Bool-cases, Option-cases, Result-cases, inl, inr, ok, Tx,
}
use freshflow.Platform.Text.{str_eq, str_eq_iff}
use freshflow.Platform.Events.{Stamp}
use freshflow.Delivery.Model.{
  CourierStatus, available, is_available, Courier, Status, Delivery, OrderCreated, CourierLocation,
  Payload, Logistics, Call, Env, courier_is, delivery_is, order_is, is_terminal, status_name,
  completed, assembling, delivering, cancelled, insert_event, delivery_cancelled, delivery_assigned,
}
use freshflow.Delivery.Events.{emit, mark_courier, update_delivery_row, set_status, set_completed}
use freshflow.Delivery.Consume.{
  Incoming, cancel_delivery, pick_courier, delivery_of, insert_row, assign_delivery, write_phase,
  apply_phase, is_newer, place_courier, set_started, locate, phase_of, next_status,
  valid_delivery_transition, report_phase,
}
use freshflow.Delivery.Active.{Keeps, find-own}
use freshflow.Delivery.Invariant.{
  IsValid, Tallies-assign, Tallies-keep, Tallies-finish, Tallies-place,
}

-- A transaction that leaves the rest of the tables.
pub record SameRows (db db' : Logistics) : Type 0 where
  pub couriers : db'.couriers ≡ db.couriers
  pub deliveries : db'.deliveries ≡ db.deliveries

pub emit-SameRows :
    (stamp : Stamp) (broken : Bool) (event_type : String) (id : ℕ) (payload : Payload)
    (db db' : Logistics)
    → emit stamp broken event_type id payload db ≡ ok (tt, db')
    → SameRows db db'
unfolding emit
emit-SameRows stamp broken event_type id payload db db' e = record {
  couriers = ground arith;
  deliveries = ground arith;
}

pub IsValid-same : (db db' : Logistics) → SameRows db db' → IsValid db → IsValid db'
IsValid-same db db' same h = rw (same.couriers, same.deliveries) h

-- A transaction body that keeps the tables valid, where it goes through.
abbrev pub KeepsValid : Tx Logistics (Unit {0}) (Unit {0}) → Type 0
KeepsValid m = (db db' : Logistics) → m db ≡ ok (tt, db') → IsValid db → IsValid db'

pub cancel_delivery-KeepsValid :
    (env : Env) (event : Incoming) → KeepsValid (cancel_delivery env event)
unfolding cancel_delivery Keeps
cancel_delivery-KeepsValid env event db db' e h =
    elim (Option-cases (find (order_is event.aggregate_id) db.deliveries)) [
      | inl absent ↦ (let same : db ≡ db' = ground arith in subst IsValid same h)
      | inr (d, found) ↦ elim (Bool-cases (is_terminal d.status)) [
        | inl over ↦ (let same : db ≡ db' = ground arith in subst IsValid same h)
        | inr live ↦
            let mid =
              mark_courier d.courier_id available
                (update_delivery_row d.id (set_status cancelled) db) in
            IsValid-same mid db'
              (emit-SameRows (record env.stamp { correlation = event.correlation_id })
                (env.broken insert_event) "delivery.cancelled" event.aggregate_id
                (delivery_cancelled d.id event.aggregate_id d.courier_id env.now) mid db'
                (ground arith))
              (Tallies-finish db.couriers db.deliveries d.id (set_status cancelled) d
                (find-own (order_is event.aggregate_id) db.deliveries d h.distinct found)
                (λ q. (refl, refl)) live refl h)
      ]
    ]

pub pick_courier_lem :
    (broken : Call → Bool) (cs : List Courier) (ks : List ℕ) (k : ℕ)
    → pick_courier broken cs ks ≡ some k
    → (c : Courier) × (find (courier_is k) cs ≡ some c) × (is_available c.status ≡ true)
unfolding pick_courier
pick_courier_lem broken cs [] k e = absurd (ground arith)
pick_courier_lem broken cs (j ∷ ks) k e = elim (Option-cases (find (courier_is j) cs)) [
  | inl absent ↦ pick_courier_lem broken cs ks k (ground arith)
  | inr (c, found) ↦ elim (Bool-cases (is_available c.status)) [
    | inr taken ↦ pick_courier_lem broken cs ks k (ground arith)
    | inl idle ↦
        let is : j ≡ k = ground arith in
        (c, subst (λ i. find (courier_is i) cs ≡ some c) is found, idle)
  ]
]

pub assign_delivery-KeepsValid :
    (env : Env) (candidates : List ℕ) (event : Incoming) (order : OrderCreated)
    → KeepsValid (assign_delivery env candidates event order)
unfolding assign_delivery insert_row
assign_delivery-KeepsValid env candidates event order db db' e h =
    elim (Option-cases (pick_courier env.broken db.couriers candidates)) [
      | inl unpicked ↦ absurd (ground arith)
      | inr (k, picked) ↦ elim (Option-cases env.uuid) [
        | inl undrawn ↦ absurd (ground arith)
        | inr (id, drawn) ↦ elim (Bool-cases (exists (delivery_is id) db.deliveries)) [
          | inl taken ↦ absurd (ground arith)
          | inr fresh ↦
              let (c, found, idle) = pick_courier_lem env.broken db.couriers candidates k picked in
              let d = delivery_of env event order id k in
              let marked = mark_courier k CourierStatus.assigned db in
              let mid : Logistics = record marked { deliveries = db.deliveries ++ d ∷ [] } in
              IsValid-same mid db'
                (emit-SameRows (record env.stamp { correlation = event.correlation_id })
                  (env.broken insert_event) "delivery.assigned" order.order_id
                  (delivery_assigned id order.order_id k env.now) mid db' (ground arith))
                (Tallies-assign db.couriers db.deliveries c d found idle fresh refl h)
        ]
      ]
    ]

not_blank :
    (phase target : String)
    → str_eq "" target ≡ false
    → str_eq "" phase ≡ true
    → str_eq phase target ≡ true
    → ⊥
not_blank phase target blank empty hits =
    let p : "" ≡ phase = (str_eq_iff "" phase).0 empty in
    cc (subst (λ x. str_eq x target ≡ true) (sym p) hits, blank)

-- A phase that a status can move to, and that is not blank, leaves from a live status.
live_before :
    (s : Status) (phase target : String)
    → str_eq "" target ≡ false
    → valid_delivery_transition s phase ≡ true
    → str_eq phase target ≡ true
    → is_terminal s ≡ false
unfolding next_status
live_before Status.assigned phase target blank valid hits = refl
live_before assembling phase target blank valid hits = refl
live_before delivering phase target blank valid hits = refl
live_before completed phase target blank valid hits =
    absurd (not_blank phase target blank valid hits)
live_before cancelled phase target blank valid hits =
    absurd (not_blank phase target blank valid hits)

write_phase-KeepsValid :
    (env : Env) (d : Delivery) (location : CourierLocation) (db db' : Logistics)
    → find (delivery_is d.id) db.deliveries ≡ some d
    → valid_delivery_transition d.status location.phase ≡ true
    → write_phase env d location db ≡ ok (tt, db')
    → IsValid db
    → IsValid db'
unfolding write_phase Keeps
write_phase-KeepsValid env d location db db' found valid e h =
    elim (Bool-cases (str_eq location.phase "assembling")) [
      | inl to_assembling ↦
          let live = live_before d.status location.phase "assembling" refl valid to_assembling in
          let same : update_delivery_row d.id (set_status assembling) db ≡ db' = ground arith in
          subst IsValid same (
            Tallies-keep db.couriers db.deliveries d.id (set_status assembling) d found
              (λ q. (refl, refl)) (sym live) h)
      | inr not_assembling ↦ elim (Bool-cases (str_eq location.phase "delivering")) [
        | inl to_delivering ↦
            let live = live_before d.status location.phase "delivering" refl valid to_delivering in
            let same : update_delivery_row d.id (set_started location.recorded_at) db ≡ db' =
              ground arith in
            subst IsValid same (
              Tallies-keep db.couriers db.deliveries d.id (set_started location.recorded_at) d found
                (λ q. (refl, refl)) (sym live) h)
        | inr not_delivering ↦ elim (Bool-cases (str_eq location.phase "completed")) [
          | inl to_completed ↦
              let live = live_before d.status location.phase "completed" refl valid to_completed in
              let same : mark_courier d.courier_id available
                    (update_delivery_row d.id (set_completed location.recorded_at) db)
                  ≡ db' =
                ground arith in
              subst IsValid same (
                Tallies-finish db.couriers db.deliveries d.id (set_completed location.recorded_at) d
                  found (λ q. (refl, refl)) live refl h)
          | inr not_completed ↦ (let same : db ≡ db' = ground arith in subst IsValid same h)
        ]
      ]
    ]

pub report_phase-SameRows :
    (env : Env) (d : Delivery) (location : CourierLocation) (db db' : Logistics)
    → report_phase env d location db ≡ ok (tt, db')
    → SameRows db db'
unfolding report_phase emit
report_phase-SameRows env d location db db' e = record {
  couriers = ground arith;
  deliveries = ground arith;
}

pub apply_phase-KeepsValid :
    (env : Env) (location : CourierLocation) (id : ℕ) → KeepsValid (apply_phase env location id)
unfolding apply_phase
apply_phase-KeepsValid env location id db db' e h =
    elim (Option-cases (find (delivery_is id) db.deliveries)) [
      | inl absent ↦ (let same : db ≡ db' = ground arith in subst IsValid same h)
      | inr (d, found) ↦
          elim (Bool-cases
            (str_eq location.phase "available" || str_eq location.phase (status_name d.status))) [
              | inl stays ↦ (let same : db ≡ db' = ground arith in subst IsValid same h)
              | inr goes ↦ elim (Bool-cases (valid_delivery_transition d.status location.phase)) [
                | inr invalid ↦ absurd (ground arith)
                | inl valid ↦ elim (Result-cases (write_phase env d location db)) [
                  | inl (x, failed) ↦ absurd (ground arith)
                  | inr ((_, mid), wrote) ↦
                      IsValid-same mid db'
                        (report_phase-SameRows env d location mid db' (ground arith))
                        (write_phase-KeepsValid env d location db mid
                          (find-own (delivery_is id) db.deliveries d h.distinct found) valid wrote
                          h)
                ]
              ]
            ]
    ]

pub locate-KeepsValid : (env : Env) (location : CourierLocation) → KeepsValid (locate env location)
unfolding locate phase_of
locate-KeepsValid env location db db' e h =
    elim (Bool-cases (exists (is_newer location) db.couriers)) [
      | inr stale ↦ (let same : db ≡ db' = ground arith in subst IsValid same h)
      | inl newer ↦
          let placed = place_courier location db in
          let ok_placed : IsValid placed = Tallies-place db.couriers db.deliveries location h in
          elim (Option-cases location.delivery_id) [
            | inl free ↦ (let same : placed ≡ db' = ground arith in subst IsValid same ok_placed)
            | inr (id, bound) ↦
                apply_phase-KeepsValid env location id placed db' (ground arith) ok_placed
          ]
    ]
