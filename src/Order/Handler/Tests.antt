-- ===== src/Order/Handler/Tests.antt =====
-- The handlers of the order service on concrete data
-- (services/order-service/internal/order/handler.go).
use freshflow.Prelude.{ℕ, ◌≡◌, refl, false, none, List, [], ◌∷◌, map}
use freshflow.Prelude.Sort.{sort_by}
use freshflow.Platform.Text.{codes}
use freshflow.Platform.Id.{is_uuid, uuid_value}
use freshflow.Order.Model.{Status, confirmed, delivered, Order, Orders}
use freshflow.Order.Cancel.{get}
use freshflow.Order.Handler.Stream.{
  Poll, stream, statuses, up_to_final, changes, Reads, done, next, stream-changes,
}

abbrev id : List ℕ
id = codes "00000000-0000-4000-8000-000000000001"

abbrev order_in : Status → Order
order_in s = record {
  id = uuid_value id;
  user_id = 5;
  reservation_id = 70;
  cart_version = 3;
  status = s;
  items = [];
  total_amount_minor = 500;
  currency = "RUB";
  delivery_latitude = 1;
  delivery_longitude = 2;
  created_at = 50;
}

abbrev tables : Status → Orders
tables s = record {
  users = [];
  orders = order_in s ∷ [];
  history = [];
  keys = [];
  processed = [];
  outbox = [];
}

abbrev poll : Status → Poll
poll s = record {
  db = tables s;
  read_fails = false;
  encode_fails = false;
  flush_fails = false;
  client_gone = false;
}

abbrev polled : List Poll
polled = poll confirmed ∷ poll confirmed ∷ poll delivered ∷ poll delivered ∷ []

abbrev orders : List Order
orders = order_in confirmed ∷ order_in confirmed ∷ order_in delivered ∷ order_in delivered ∷ []

reads : Reads (uuid_value id) polled orders
unfolding get uuid_value sort_by
reads = next refl refl refl refl refl (
    next refl refl refl refl refl
      (next refl refl refl refl refl (next refl refl refl refl refl done)))

sent : changes none (up_to_final (map (λ o. o.status) orders)) ≡ confirmed ∷ delivered ∷ []
unfolding changes up_to_final
sent = refl

stream-changes_example :
    statuses (stream id polled) ≡ changes none (up_to_final (map (λ o. o.status) orders))
unfolding is_uuid
stream-changes_example = stream-changes id polled orders refl reads
