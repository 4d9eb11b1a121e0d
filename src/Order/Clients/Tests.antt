-- ===== src/Order/Clients/Tests.antt =====
-- The client of the catalog service on concrete data
-- (services/order-service/internal/order/client.go).
use freshflow.Prelude.{ℕ, ◌≡◌, refl, arith, true, false, none, some, List, [], ◌∷◌}
use freshflow.Platform.Text.{codes}
use freshflow.Platform.Id.{is_uuid, uuid_value}
use freshflow.Catalog.Model.{Product, Catalog}
use freshflow.Order.Model.{ReserveRequest}
use freshflow.Catalog.Reserve.{reserve}
use freshflow.Order.Clients.{Wire, Link, client_reserve, client_release}
use freshflow.Catalog.Release.{release}
use freshflow.Order.Clients.Direct.{
  IsFit, answer_read, store_request, release_read, client_reserve-reserve, client_release-release,
}

abbrev working : Wire
working = record { arrives = true; returns = true; decodes = true }

-- The number that the text of the id of the milk stands for.
abbrev milk_id : ℕ
milk_id = 302240678275694148452353

abbrev milk_text : ℕ → List ℕ
milk_text k = codes "00000000-0000-4000-8000-000000000001"

abbrev link : Link
link = record {
  reserve_wire = working;
  release_wire = working;
  reserve_env = record {
    broken = λ _. false;
    uuid = some 70;
    stamp = record { correlation = "c-1"; span = none; uuid = some 900; encodes = true; now = 50 };
    now = 50;
    redis_down = false;
  };
  release_env = record {
    broken = λ _. false;
    uuid = some 71;
    stamp = record { correlation = "c-1"; span = none; uuid = some 901; encodes = true; now = 50 };
    now = 50;
    redis_down = false;
  };
  text_of = milk_text;
}

abbrev milk : Product
milk = record {
  id = milk_id;
  sku = "milk";
  name = "Milk";
  description = "";
  price_minor = 250;
  currency = "RUB";
  available_quantity = 5;
  active = true;
}

abbrev shop : Catalog
shop = record {
  products = milk ∷ [];
  reservations = [];
  outbox = [];
  products_cache = none;
  expiry_keys = [];
}

-- Two units of milk, held for ten minutes.
abbrev milk_request : ReserveRequest
milk_request = record {
  checkout_attempt_id = milk_id;
  items = record { product_id = milk_id; quantity = 2 } ∷ [];
  ttl_seconds = 600;
}

milk_request-IsFit : IsFit milk_text milk_request
unfolding is_uuid uuid_value
milk_request-IsFit = record {
  attempt = (refl, refl);
  items = (((refl, refl), omega arith, omega arith), tt);
  distinct = (refl, tt);
  some_items = omega arith;
  few_items = omega arith;
  least_ttl = omega arith;
  most_ttl = omega arith;
}

client_reserve-reserve_example : client_reserve link milk_request shop ≡ (
  answer_read (reserve link.reserve_env (store_request milk_request) shop).0,
  (reserve link.reserve_env (store_request milk_request) shop).1,
)
client_reserve-reserve_example =
    client_reserve-reserve link milk_request shop
      (record { arrives = refl; returns = refl; decodes = refl }) milk_request-IsFit

client_release-release_example : client_release link milk_id shop ≡ (
  release_read (release link.release_env milk_id shop).0,
  (release link.release_env milk_id shop).1,
)
unfolding is_uuid uuid_value
client_release-release_example =
    client_release-release link milk_id shop
      (record { arrives = refl; returns = refl; decodes = refl }) (refl, refl)
