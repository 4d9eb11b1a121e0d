-- ===== src/Analytics/Tests.antt =====
-- The projection on concrete data (services/analytics-worker/internal/analytics/projector.go).
use freshflow.Prelude.{ℕ, String, true, false, Option, none, some, [], if◌then◌else◌}
use freshflow.Platform.Text.{str_eq}
use freshflow.Analytics.{Envelope, Payload, Facts, handle}
use freshflow.Analytics.Laws.{Projects, handle-Projects}

abbrev parse : String → Option ℕ
parse text = if str_eq text "" then none else some 21

abbrev payload : Payload
payload = record {
  order_id = "o-1";
  delivery_id = "d-1";
  courier_id = "c-1";
  status = "";
  previous_status = "";
  new_status = "";
  currency = "";
  total_amount_minor = 0;
  latitude = none;
  longitude = none;
  predicted_eta_seconds = some 600;
  actual_eta_seconds = some 500;
  items = [];
}

abbrev completed : Envelope
completed = record {
  event_id = "e-1";
  event_type = "delivery.completed";
  aggregate_id = "o-1";
  correlation_id = "c-1";
  trace_id = "";
  occurred_at = some 50;
  payload = some payload;
}

abbrev empty : Facts
empty = record { deliveries = []; orders = [] }

-- The INSERT of the order's fact fails.
handle-Projects_example :
    Projects parse 60 completed empty
      (handle parse 60 false true (some completed) empty).0
      (handle parse 60 false true (some completed) empty).1
handle-Projects_example = handle-Projects parse 60 false true completed empty
