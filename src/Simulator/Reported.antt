-- ===== src/Simulator/Reported.antt =====
-- A report of the simulator as the delivery service takes it
-- (services/delivery-service/internal/delivery/consumer.go).
use freshflow.Prelude.{
  ℕ, ◌≡◌, refl, ap, ◌∙◌, sym, String, true, false, ◌==◌, some, List, [], ◌∷◌, if◌then◌else◌, find,
  update_where, ok, Result-cases, Bool-cases, inl, inr, arith,
}
use mathlib.Core.Path.{subst}
use freshflow.Prelude.Int.{ℤ, pos, ltb_ℤ}
use freshflow.Platform.Text.{str_eq, str_eq_iff}
use freshflow.Delivery.Model.{
  Status, assigned, assembling, delivering, completed, cancelled, status_name, Delivery,
  CourierLocation, Logistics, Env, delivery_is,
}
use freshflow.Delivery.Events.{set_status, set_completed}
use freshflow.Delivery.Consume.{
  next_status, valid_delivery_transition, set_started, write_phase, report_phase, apply_phase,
}
use freshflow.Delivery.Consume.Bodies.{report_phase-SameRows}
use freshflow.Simulator.{phase_at}
use freshflow.Simulator.Phases.{named, reported}

find-update_where :
    (k : ℕ) (f : Delivery → Delivery) (ds : List Delivery) (d : Delivery)
    → ((c : Delivery) → (f c).id ≡ c.id)
    → find (delivery_is k) ds ≡ some d
    → find (delivery_is k) (update_where (delivery_is k) f ds) ≡ some (f d)
find-update_where k f [] d keeps found = absurd (ground arith)
find-update_where k f (c ∷ ds) d keeps found = elim (Bool-cases (c.id == k)) [
  | inl here ↦ ground (arith, keeps c, here)
  | inr there ↦ ground (arith, there, find-update_where k f ds d keeps)
]

-- The delivery has the status that the report asks for.
abbrev pub HasStatus : ℕ → Status → Logistics → Type 0
HasStatus id s db = (d : Delivery) × (find (delivery_is id) db.deliveries ≡ some d) × (d.status ≡ s)

write_phase-reported :
    (env : Env) (d : Delivery) (location : CourierLocation) (t : ℤ) (db mid : Logistics)
    → find (delivery_is d.id) db.deliveries ≡ some d
    → location.phase ≡ phase_at t
    → valid_delivery_transition d.status location.phase ≡ true
    → write_phase env d location db ≡ ok (tt, mid)
    → HasStatus d.id (reported d.status t) mid
unfolding write_phase reported
write_phase-reported env d location t db mid found is valid e =
    let kept : reported d.status t ≡ named (phase_at t) =
      (let v : valid_delivery_transition d.status (phase_at t) ≡ true = rw (← is) valid in
        rw v refl) in
    elim (Bool-cases (ltb_ℤ t (pos 3000))) [
      | inl early ↦
          let p : phase_at t ≡ "assembling" = rw early refl in
          let a : str_eq location.phase "assembling" ≡ true = rw (is, p) refl in
          let w : mid.deliveries
              ≡ update_where (delivery_is d.id) (set_status assembling) db.deliveries =
            ground arith in
          (
            set_status assembling d,
            rw w (find-update_where d.id (set_status assembling) db.deliveries d (λ c. refl) found),
            sym (kept ∙ rw p refl),
          )
      | inr on ↦ elim (Bool-cases (ltb_ℤ t (pos 15000))) [
        | inl way ↦
            let p : phase_at t ≡ "delivering" = rw (on, way) refl in
            let a : str_eq location.phase "assembling" ≡ false = rw (is, p) refl in
            let b : str_eq location.phase "delivering" ≡ true = rw (is, p) refl in
            let w : mid.deliveries
                ≡ update_where (delivery_is d.id) (set_started location.recorded_at) db.deliveries =
              ground arith in
            (
              set_started location.recorded_at d,
              rw w (
                  find-update_where d.id (set_started location.recorded_at) db.deliveries d
                    (λ c. refl) found),
              sym (kept ∙ rw p refl),
            )
        | inr late ↦
            let p : phase_at t ≡ "completed" = rw (on, late) refl in
            let a : str_eq location.phase "assembling" ≡ false = rw (is, p) refl in
            let b : str_eq location.phase "delivering" ≡ false = rw (is, p) refl in
            let c : str_eq location.phase "completed" ≡ true = rw (is, p) refl in
            let w : mid.deliveries
                ≡ update_where (delivery_is d.id) (set_completed location.recorded_at)
                    db.deliveries =
              ground arith in
            (
              set_completed location.recorded_at d,
              rw w (
                  find-update_where d.id (set_completed location.recorded_at) db.deliveries d
                    (λ c. refl) found),
              sym (kept ∙ rw p refl),
            )
      ]
    ]

-- No status is the next one of itself.
steady :
    (s : Status)
    → (if valid_delivery_transition s (status_name s) then named (status_name s) else s) ≡ s
unfolding next_status
steady assigned = refl
steady assembling = refl
steady delivering = refl
steady completed = refl
steady cancelled = refl

-- A phase that the delivery is in already changes nothing.
reported_same : (s : Status) (t : ℤ) → str_eq (phase_at t) (status_name s) ≡ true → reported s t ≡ s
unfolding reported
reported_same s t same =
    let q : phase_at t ≡ status_name s = (str_eq_iff (phase_at t) (status_name s)).0 same in
    let f : String → Status = λ p. if valid_delivery_transition s p then named p else s in
    ap f q ∙ steady s

not_available : (t : ℤ) → str_eq (phase_at t) "available" ≡ false
not_available t = elim (Bool-cases (ltb_ℤ t (pos 3000))) [
  | inl early ↦ rw early refl
  | inr on ↦ elim (Bool-cases (ltb_ℤ t (pos 15000))) [
    | inl way ↦ rw (on, way) refl
    | inr late ↦ rw (on, late) refl
  ]
]

-- A report that the delivery service takes leaves the delivery with the status that `reported` gives: the
-- next one, if the phase asks for it, and otherwise the one that it had.
pub apply_phase-reported :
    (env : Env) (location : CourierLocation) (d : Delivery) (t : ℤ) (db db' : Logistics)
    → find (delivery_is d.id) db.deliveries ≡ some d
    → location.phase ≡ phase_at t
    → apply_phase env location d.id db ≡ ok (tt, db')
    → HasStatus d.id (reported d.status t) db'
unfolding apply_phase
apply_phase-reported env location d t db db' found is e =
    let away : str_eq location.phase "available" ≡ false = rw is (not_available t) in
    elim (Bool-cases (str_eq location.phase (status_name d.status))) [
      | inl same ↦
          let unchanged : db ≡ db' = ground arith in
          let same' : str_eq (phase_at t) (status_name d.status) ≡ true = rw (← is) same in
          subst (HasStatus d.id (reported d.status t)) unchanged
            (d, found, sym (reported_same d.status t same'))
      | inr other ↦ elim (Bool-cases (valid_delivery_transition d.status location.phase)) [
        | inr refused ↦ absurd (ground arith)
        | inl valid ↦ elim (Result-cases (write_phase env d location db)) [
          | inl (x, failed) ↦ absurd (ground arith)
          | inr ((_, mid), wrote) ↦
              let told : report_phase env d location mid ≡ ok (tt, db') = ground arith in
              let kept = (report_phase-SameRows env d location mid db' told).deliveries in
              let (d', there, status) =
                write_phase-reported env d location t db mid found is valid wrote in
              (d', rw kept there, status)
        ]
      ]
    ]
