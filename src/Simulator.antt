-- ===== src/Simulator.antt =====
-- The courier simulator (services/courier-simulator/internal/simulator/simulator.go): once a second it reports
-- where each courier is, and in which phase a delivery of theirs is by the time since it was assigned.
-- Times are in milliseconds; the arithmetic of float64 is a parameter, and a sequence number stays below 2^63.
pub mod Sequence
pub mod Phases
pub mod Reported
pub mod Stuck
pub mod Assigned
pub mod Tests
use freshflow.Prelude.{
  ℕ, suc, ◌+◌, ◌*◌, String, Bool, true, false, ◌==◌, Option, none, some, List, [], ◌∷◌, ◌++◌,
  if◌then◌else◌,
}
use freshflow.Prelude.Int.{ℤ, pos, ltb_ℤ}
use freshflow.Delivery.Events.{seconds_between}

pub record Courier : Type 0 where
  pub id : ℕ
  pub latitude : ℕ
  pub longitude : ℕ

-- What the delivery service lists of a live delivery.
pub record Assignment : Type 0 where
  pub id : ℕ
  pub courier_id : ℕ
  pub pickup_latitude : ℕ
  pub pickup_longitude : ℕ
  pub destination_latitude : ℕ
  pub destination_longitude : ℕ
  pub assigned_at : ℕ
  pub simulation_delay_seconds : ℕ
  pub correlation_id : String

pub record Location : Type 0 where
  pub courier_id : ℕ
  pub delivery_id : Option ℕ
  pub latitude : ℕ
  pub longitude : ℕ
  pub heading_degrees : ℕ
  pub speed_mps : ℕ
  pub recorded_at : ℕ
  pub sequence : ℕ
  pub phase : String
  pub correlation_id : String

-- The float64 arithmetic: the circle of an idle courier, by the time and the index, the point that is
-- reached on the way by the time since it began, and the constants.
pub record Floats : Type 0 where
  pub idle_latitude : ℕ → ℕ → ℕ → ℕ
  pub idle_longitude : ℕ → ℕ → ℕ → ℕ
  pub idle_heading : ℕ → ℕ → ℕ
  pub on_the_way : ℕ → ℕ → ℤ → ℕ
  pub zero : ℕ
  pub idle_speed : ℕ
  pub heading : ℕ
  pub speed : ℕ

-- `elapsed`: the time since the assignment, less the delay that was injected.
abbrev pub elapsed : Assignment → ℕ → ℤ
elapsed a now = seconds_between (a.assigned_at + a.simulation_delay_seconds * 1000) now

-- The phase by the time since the assignment.
abbrev pub phase_at : ℤ → String
phase_at t =
    if ltb_ℤ t (pos 3000)
    then "assembling"
    else if ltb_ℤ t (pos 15000)
    then "delivering"
    else "completed"

abbrev located : Floats → Assignment → ℤ → Location → Location
located f a t l =
    if ltb_ℤ t (pos 3000)
    then record l { latitude = a.pickup_latitude; longitude = a.pickup_longitude }
    else if ltb_ℤ t (pos 15000)
    then record l {
      latitude = f.on_the_way a.pickup_latitude a.destination_latitude t;
      longitude = f.on_the_way a.pickup_longitude a.destination_longitude t;
      heading_degrees = f.heading;
      speed_mps = f.speed;
    }
    else record l { latitude = a.destination_latitude; longitude = a.destination_longitude }

-- `simulatedLocation`
unfoldable pub simulated_location : Floats → Courier → Option Assignment → ℕ → ℕ → Location
simulated_location f base none now index = record {
  courier_id = base.id;
  delivery_id = none;
  latitude = f.idle_latitude base.latitude now index;
  longitude = f.idle_longitude base.longitude now index;
  heading_degrees = f.idle_heading now index;
  speed_mps = f.idle_speed;
  recorded_at = now;
  sequence = 0;
  phase = "available";
  correlation_id = "";
}
simulated_location f base (some a) now index = located f a (elapsed a now) (record {
  courier_id = base.id;
  delivery_id = some a.id;
  latitude = base.latitude;
  longitude = base.longitude;
  heading_degrees = f.zero;
  speed_mps = f.zero;
  recorded_at = now;
  sequence = 0;
  phase = phase_at (elapsed a now);
  correlation_id = a.correlation_id;
})

-- The map by courier, where a later assignment replaces an earlier one.
unfoldable pub assignment_of : ℕ → List Assignment → Option Assignment
assignment_of id [] = none
assignment_of id (a ∷ rest) = elim (assignment_of id rest) [
  | some b ↦ some b
  | none ↦ if a.courier_id == id then some a else none
]

-- The number that was given last, what was published, and what Redis was told.
pub record Runner : Type 0 where
  pub sequence : ℕ
  pub published : List Location
  pub positions : List (ℕ × ℕ × ℕ)
  pub states : List (ℕ × Location)

-- What a tick meets: the answer of the delivery service, the calls that fail for a courier, and the clock.
pub record Env : Type 0 where
  pub assignments : Option (List Assignment)
  pub publish_fails : ℕ → Bool
  pub geo_fails : ℕ → Bool
  pub set_fails : ℕ → Bool
  pub now : ℕ

abbrev pub fetched : Env → List Assignment
fetched env = elim env.assignments [ none ↦ [] | some found ↦ found ]

abbrev geo_add : Env → Location → Runner → Runner
geo_add env l r =
    if env.geo_fails l.courier_id
    then r
    else record r { positions = (l.courier_id, l.latitude, l.longitude) ∷ r.positions }

abbrev set_state : Env → Location → Runner → Runner
set_state env l r =
    if env.set_fails l.courier_id then r else record r { states = (l.courier_id, l) ∷ r.states }

abbrev pub add_published : Location → Runner → Runner
add_published l r = record r { published = r.published ++ l ∷ [] }

-- One turn of the loop over the couriers: the number is used up also where nothing is published.
unfoldable pub report : Floats → Env → Courier → ℕ → Runner → Runner
unfolding simulated_location assignment_of
report f env base index r =
    let numbered = record r { sequence = suc r.sequence } in
    let l = record (simulated_location f base (assignment_of base.id (fetched env)) env.now index) {
      sequence = suc r.sequence;
    } in
    if env.publish_fails base.id
    then numbered
    else set_state env l (geo_add env l (add_published l numbered))

-- The loop over the couriers, from this index on.
unfoldable pub report_from : Floats → Env → List Courier → ℕ → Runner → Runner
unfolding report
report_from f env [] index r = r
report_from f env (c ∷ cs) index r = report_from f env cs (suc index) (report f env c index r)

-- `tick`
unfoldable pub tick : Floats → List Courier → Env → Runner → Runner
unfolding report_from
tick f couriers env r = report_from f env couriers 0 r
