-- ===== src/Delivery/Views/Tests.antt =====
-- The stream of a delivery on concrete data
-- (services/delivery-service/internal/delivery/handler.go).
use freshflow.Prelude.{ℕ, ◌≡◌, refl, false, none, List, [], ◌∷◌, map}
use freshflow.Platform.Text.{codes}
use freshflow.Platform.Id.{is_uuid, uuid_value}
use freshflow.Delivery.Model
use freshflow.Delivery.Model.{Status, assembling, cancelled, Delivery, Logistics}
use freshflow.Delivery.Views.{Poll, delivery_by_order, stream_by_order}
use freshflow.Delivery.Views.Streamed.{frame_of, until_over, stream_by_order-until_over}

abbrev order_id : List ℕ
order_id = codes "00000000-0000-4000-8000-000000000001"

abbrev delivery_in : Status → Delivery
delivery_in s = record {
  id = 31;
  order_id = uuid_value order_id;
  courier_id = 7;
  status = s;
  pickup_latitude = 1;
  pickup_longitude = 2;
  destination_latitude = 3;
  destination_longitude = 4;
  correlation_id = "c-1";
  trace_id = "";
  origin_span_id = "";
  item_count = 1;
  assigned_at = 60;
  started_at = none;
  completed_at = none;
  predicted_eta_seconds = none;
  eta_model_version = none;
  eta_updated_at = none;
  simulation_delay_seconds = 0;
}

abbrev tables : List Delivery → Logistics
tables ds = record {
  couriers =
      record {
        id = 7;
        name = "Ann";
        status = Model.CourierStatus.assigned;
        latitude = 1;
        longitude = 2;
        location_sequence = 0;
        last_seen_at = 50;
      }
      ∷ [];
  deliveries = ds;
  predictions = [];
  processed = [];
  outbox = [];
  positions = [];
}

abbrev poll : List Delivery → Poll
poll ds = record {
  db = tables ds;
  read_fails = false;
  encode_fails = false;
  flush_fails = false;
  client_gone = false;
}

-- Nothing yet, on the way, cancelled, and a turn that is not taken.
abbrev turns : List Poll
turns =
    poll []
    ∷ poll (delivery_in assembling ∷ [])
    ∷ poll (delivery_in cancelled ∷ [])
    ∷ poll (delivery_in cancelled ∷ [])
    ∷ []

stream_by_order-until_over_example :
    stream_by_order order_id turns
    ≡ map frame_of (until_over (map (λ p. delivery_by_order (uuid_value order_id) p.db) turns))
unfolding is_uuid
stream_by_order-until_over_example = stream_by_order-until_over order_id turns refl (
  (refl, refl, refl, refl),
  ((refl, refl, refl, refl), ((refl, refl, refl, refl), ((refl, refl, refl, refl), tt))),
)
