-- ===== src/Simulator/Tests.antt =====
-- The simulator on concrete data (services/courier-simulator/internal/simulator/simulator.go).
use freshflow.Prelude.{
  map, arith, ◌≡◌, refl, true, false, none, some, [], ◌∷◌, List, ok, err, find, inr,
}
use freshflow.Prelude.Int.{pos}
use freshflow.Platform.Events.{new_event}
use freshflow.Platform.Outbox.{insert}
use freshflow.Delivery.Model
use freshflow.Delivery.Model.{
  Delivery, Logistics, CourierLocation, Status, assembling, delivering, completed, delivery_is,
}
use freshflow.Delivery.Invariant.{IsValid}
use freshflow.Delivery.Views.{view_of, assignments}
use freshflow.Delivery.Consume.{next_status, write_phase, report_phase, apply_phase}
use freshflow.Delivery.Events.{emit}
use freshflow.Simulator.{assignment_of, Courier, Floats, Runner, Env, tick}
use freshflow.Simulator.Sequence.{IsNumbered, tick-IsNumbered}
use freshflow.Simulator.Phases.{reported}
use freshflow.Simulator.Stuck.{Report, Waits, take_reports, reports_stuck}
use freshflow.Simulator.Assigned.{assignment_read, assignment_of-assignments}
use freshflow.Simulator.Reported.{apply_phase-reported}

abbrev floats : Floats
floats = record {
  idle_latitude = λ base now index. base;
  idle_longitude = λ base now index. base;
  idle_heading = λ now index. 0;
  on_the_way = λ start end t. start;
  zero = 0;
  idle_speed = 1;
  heading = 45;
  speed = 8;
}

abbrev couriers : List Courier
couriers =
    record { id = 7; latitude = 1; longitude = 2 }
    ∷ record { id = 8; latitude = 3; longitude = 4 }
    ∷ []

abbrev runner : Runner
runner = record { sequence = 1000; published = []; positions = []; states = [] }

abbrev surroundings : Env
surroundings = record {
  assignments = none;
  publish_fails = λ _. false;
  geo_fails = λ _. false;
  set_fails = λ _. false;
  now = 60000;
}

tick-IsNumbered_example : IsNumbered (tick floats couriers surroundings runner)
tick-IsNumbered_example =
    tick-IsNumbered floats couriers surroundings runner (record { increasing = tt; given = tt })

abbrev delivery : Delivery
delivery = record {
  id = 31;
  order_id = 21;
  courier_id = 7;
  status = assembling;
  pickup_latitude = 1;
  pickup_longitude = 2;
  destination_latitude = 3;
  destination_longitude = 4;
  correlation_id = "c-1";
  trace_id = "";
  origin_span_id = "";
  item_count = 1;
  assigned_at = 60;
  started_at = none;
  completed_at = none;
  predicted_eta_seconds = none;
  eta_model_version = none;
  eta_updated_at = none;
  simulation_delay_seconds = 0;
}

abbrev tables : Logistics
tables = record {
  couriers = [];
  deliveries = delivery ∷ [];
  predictions = [];
  processed = [];
  outbox = [];
  positions = [];
}

abbrev calm : Model.Env
calm = record {
  broken = λ _. false;
  candidates = none;
  uuid = none;
  stamp = record { correlation = "c-1"; span = none; uuid = some 900; encodes = true; now = 64 };
  now = 64;
  pickup_latitude = 1;
  pickup_longitude = 2;
  redis_down = false;
}

abbrev location : CourierLocation
location = record {
  courier_id = 7;
  delivery_id = some 31;
  latitude = 1;
  longitude = 2;
  heading_degrees = 45;
  speed_mps = 8;
  recorded_at = 64;
  sequence = 1001;
  phase = "delivering";
}

after : Logistics
unfolding apply_phase
after = elim (apply_phase calm location 31 tables) [ ok (_, db) ↦ db | err _ ↦ tables ]

taken : apply_phase calm location 31 tables ≡ ok (tt, after)
unfolding after next_status write_phase report_phase emit new_event insert
taken = refl

apply_phase-reported_example :
    (d : Delivery) × (find (delivery_is 31) after.deliveries ≡ some d)
    × (d.status ≡ reported assembling (pos 4000))
apply_phase-reported_example =
    apply_phase-reported calm location delivery (pos 4000) tables after refl refl taken

-- The delivery is being assembled; the report is one of its end.
abbrev last_report : Report
last_report = record { env = calm; location = record location { phase = "completed" } }

reports_stuck_example : Waits 31 (take_reports 31 (last_report ∷ last_report ∷ []) tables)
reports_stuck_example =
    reports_stuck 31 (last_report ∷ last_report ∷ []) tables
      ((pos 20000, refl, refl), ((pos 15000, refl, refl), tt)) (delivery, refl, inr refl)

abbrev ann : Model.Courier
ann = record {
  id = 7;
  name = "Ann";
  status = Model.CourierStatus.assigned;
  latitude = 1;
  longitude = 2;
  location_sequence = 0;
  last_seen_at = 50;
}

-- Ann has a delivery that is over, and one that she carries.
abbrev at_work : Logistics
at_work = record tables {
  couriers = ann ∷ [];
  deliveries = record delivery { id = 30; order_id = 20; status = completed } ∷ delivery ∷ [];
}

at_work-IsValid : IsValid at_work
at_work-IsValid = record { distinct = (refl, (refl, tt)); tally = λ k. ground arith }

assignment_of-assignments_example :
    assignment_of 7 (map assignment_read (assignments at_work))
    ≡ some (assignment_read (view_of delivery ann))
assignment_of-assignments_example =
    assignment_of-assignments at_work 7 delivery ann at_work-IsValid refl refl
