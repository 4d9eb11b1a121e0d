-- ===== src/Delivery/Times/Tests.antt =====
-- The prediction worker on concrete data (services/delivery-service/internal/delivery/eta.go).
use freshflow.Prelude.{◌≡◌, ◌+◌, refl, true, false, none, some, [], ◌∷◌, All}
use freshflow.Prelude.Int.{pos}
use freshflow.Delivery.Model
use freshflow.Delivery.Model.{Delivery, Logistics, assembling}
use freshflow.Delivery.Times.{
  Env, Features, stage_of, is_predicted, missing, active_count, available_count, predict_missing,
}
use freshflow.Delivery.Times.Saves.{Works}
use freshflow.Delivery.Times.Answered.{IsAnswered, predict_missing_answers}
use freshflow.Delivery.Times.Once.{IsOnce, predict_missing-IsOnce}

abbrev delivery : Delivery
delivery = record {
  id = 31;
  order_id = 21;
  courier_id = 7;
  status = assembling;
  pickup_latitude = 1;
  pickup_longitude = 2;
  destination_latitude = 3;
  destination_longitude = 4;
  correlation_id = "c-1";
  trace_id = "";
  origin_span_id = "";
  item_count = 1;
  assigned_at = 60;
  started_at = none;
  completed_at = none;
  predicted_eta_seconds = none;
  eta_model_version = none;
  eta_updated_at = none;
  simulation_delay_seconds = 0;
}

-- The delivery has a prediction for the stage before this one.
abbrev tables : Logistics
tables = record {
  couriers =
      record {
        id = 7;
        name = "Ann";
        status = Model.CourierStatus.assigned;
        latitude = 1;
        longitude = 2;
        location_sequence = 0;
        last_seen_at = 50;
      }
      ∷ [];
  deliveries = delivery ∷ [];
  predictions =
      record {
        delivery_id = 31;
        stage = "confirmed";
        model_version = "v1";
        predicted_eta_seconds = 900;
        predicted_at = 61;
        actual_eta_seconds = none;
        completed_at = none;
      }
      ∷ [];
  processed = [];
  outbox = [];
  positions = [];
}

abbrev env : Env
env = record {
  broken = λ _. false;
  now = 70;
  service = λ (f : Features). some (record {
    status = 200;
    body =
        some (record { predicted_eta_seconds = pos 600; model_version = "v1"; computed_at = none });
  });
  haversine_km = λ a b c d. 1;
  add_km = λ a b. a + b;
  load_of = λ n. n;
}

works : Works env
works c = refl

predict_missing_answers_example :
    All
      (λ job.
        IsAnswered env (active_count tables) (available_count tables) job
        → is_predicted (predict_missing env tables).1 job.delivery.id (stage_of job.delivery.status)
          ≡ true)
      (missing tables)
predict_missing_answers_example = predict_missing_answers env tables works

predict_missing-IsOnce_example : IsOnce (predict_missing env tables).1.predictions
predict_missing-IsOnce_example = predict_missing-IsOnce env tables (refl, tt)
