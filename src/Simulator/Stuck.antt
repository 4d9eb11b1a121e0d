-- ===== src/Simulator/Stuck.antt =====
-- A courier who does not report in the middle phase
-- (services/courier-simulator/internal/simulator/simulator.go,
-- services/delivery-service/internal/delivery/consumer.go).
use mathlib.Core.Path.{subst}
use freshflow.Prelude.{
  ℕ, ◌≡◌, sym, some, List, [], ◌∷◌, ok, All, find, transact, arith, Result-cases, inl, inr,
}
use freshflow.Prelude.Int.{ℤ}
use freshflow.Delivery.Model.{Delivery, CourierLocation, Logistics, Env, delivery_is}
use freshflow.Delivery.Consume.{apply_phase}
use freshflow.Simulator.{phase_at}
use freshflow.Simulator.Phases.{IsAside, IsWaiting, reported, reported_aside}
use freshflow.Simulator.Reported.{HasStatus, apply_phase-reported}

-- A report as the delivery service meets it: the position, and which calls fail.
pub record Report : Type 0 where
  pub env : Env
  pub location : CourierLocation

-- The tables after these reports on a delivery, one transaction each: one that fails leaves them.
unfoldable pub take_reports : ℕ → List Report → Logistics → Logistics
take_reports id [] db = db
take_reports id (r ∷ rs) db = take_reports id rs (transact (apply_phase r.env r.location id) db).1

-- The phase of the report is the one of a time outside the middle phase.
abbrev pub IsReportAside : Report → Type 0
IsReportAside r = (t : ℤ) × (r.location.phase ≡ phase_at t) × IsAside t

-- The delivery is there, and new or being assembled.
abbrev pub Waits : ℕ → Logistics → Type 0
Waits id db = (d : Delivery) × (find (delivery_is id) db.deliveries ≡ some d) × IsWaiting d.status

find_id :
    (id : ℕ) (ds : List Delivery) (d : Delivery) → find (delivery_is id) ds ≡ some d → d.id ≡ id
find_id id [] d e = absurd (ground arith)
find_id id (q ∷ ds) d e = ground (arith, find_id id ds d)

report-Waits :
    (id : ℕ) (r : Report) (db : Logistics)
    → IsReportAside r
    → Waits id db
    → Waits id (transact (apply_phase r.env r.location id) db).1
report-Waits id r db (t, is, aside) (d, found, waiting) =
    elim (Result-cases (apply_phase r.env r.location id db)) [
      | inl (x, failed) ↦ rw (transact, failed) (d, found, waiting)
      | inr ((_, after), went) ↦
          let own : d.id ≡ id = find_id id db.deliveries d found in
          let (d', there, status) : HasStatus id (reported d.status t) after =
            subst (λ k. HasStatus k (reported d.status t) after) own
              (apply_phase-reported r.env r.location d t db after
                (subst (λ k. find (delivery_is k) db.deliveries ≡ some d) (sym own) found) is
                (subst (λ k. apply_phase r.env r.location k db ≡ ok (tt, after)) (sym own) went)) in
          rw (transact, went)
            (d', there, subst IsWaiting (sym status) (reported_aside d.status t aside waiting))
    ]

-- Reports outside the middle phase do not bring a delivery on its way: however many of them `applyPhase`
-- meets, one transaction each, in whatever order and whichever calls fail, a delivery that was new or being
-- assembled still is. The actions of the operator are not reports.
pub reports_stuck :
    (id : ℕ) (rs : List Report) (db : Logistics)
    → All IsReportAside rs
    → Waits id db
    → Waits id (take_reports id rs db)
unfolding take_reports
reports_stuck id [] db h waits = waits
reports_stuck id (r ∷ rs) db h waits =
    reports_stuck id rs (transact (apply_phase r.env r.location id) db).1 h.1
      (report-Waits id r db h.0 waits)
