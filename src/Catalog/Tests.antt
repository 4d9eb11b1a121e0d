-- ===== src/Catalog/Tests.antt =====
-- The store of the catalog on concrete data (services/catalog-service/internal/catalog/store.go).
use freshflow.Prelude.{
  List, ℕ, ◌≡◌, ◌+◌, refl, Bool, true, false, none, some, [], ◌∷◌, find, ok, ◌⊎◌,
}
use freshflow.Platform.Events.{Stamp}
use freshflow.Catalog.Model.{
  Product, ReservationItem, ReserveRequest, Reservation, ReservationResponse, Catalog, Call, Env,
  StoreError, commit, attempt_is, reservation_is,
}
use freshflow.Catalog.Model
use freshflow.Catalog.Stock.{stock, held_in}
use freshflow.Catalog.Invariant.{IsValid, conserved}
use freshflow.Platform.Events.{new_event}
use freshflow.Platform.Outbox.{insert}
use freshflow.Catalog.Scan.{scan_items, sort_items, decrement_all, insert_items}
use freshflow.Catalog.Reserve.{reserve}
use freshflow.Catalog.Reserve.Conserves.{reserve-conserves, reserve-IsValid}
use freshflow.Catalog.Reserve.Answer.{
  Granted, Refused, CanReplay, reserve_all_or_nothing, reserve_again,
}
use freshflow.Catalog.Browse.{active_products, list_products, list_products-reserve}
use freshflow.Catalog.Release.{release}
use freshflow.Catalog.Release.Conserves.{release-conserves}
use freshflow.Catalog.Release.Again.{release_restores, released_reservation_replays}

abbrev stamp : Stamp
stamp = record { correlation = "c-1"; span = none; uuid = some 900; encodes = true; now = 50 }

abbrev calm : Env
calm = record { broken = λ _. false; uuid = some 70; stamp = stamp; now = 50; redis_down = false }

abbrev commit_fails : Call → Bool
commit_fails commit = true
commit_fails _ = false

abbrev stormy : Env
stormy = record {
  broken = commit_fails;
  uuid = some 70;
  stamp = stamp;
  now = 50;
  redis_down = false;
}

abbrev milk : Product
milk = record {
  id = 1;
  sku = "milk";
  name = "Milk";
  description = "";
  price_minor = 250;
  currency = "RUB";
  available_quantity = 5;
  active = true;
}

abbrev bread : Product
bread = record {
  id = 2;
  sku = "bread";
  name = "Bread";
  description = "";
  price_minor = 100;
  currency = "RUB";
  available_quantity = 3;
  active = true;
}

abbrev shop : Catalog
shop = record {
  products = milk ∷ bread ∷ [];
  reservations = [];
  outbox = [];
  products_cache = none;
  expiry_keys = [];
}

abbrev request : ReserveRequest
request = record {
  checkout_attempt_id = 11;
  items = record { product_id = 2; quantity = 3 } ∷ record { product_id = 1; quantity = 2 } ∷ [];
  ttl_seconds = 900;
}

abbrev other_request : ReserveRequest
other_request = record {
  checkout_attempt_id = 11;
  items = record { product_id = 1; quantity = 4 } ∷ [];
  ttl_seconds = 60;
}

abbrev response : ReservationResponse
response = record {
  reservation_id = 70;
  status = Model.active;
  items =
      record {
        product_id = 1;
        product_name = "Milk";
        quantity = 2;
        unit_price_minor = 250;
        currency = "RUB";
      }
      ∷ record {
        product_id = 2;
        product_name = "Bread";
        quantity = 3;
        unit_price_minor = 100;
        currency = "RUB";
      }
      ∷ [];
  shortages = [];
  total_amount_minor = 800;
  currency = "RUB";
  expires_at = some 950;
}

answers : (reserve calm request shop).0 ≡ ok response
unfolding reserve scan_items sort_items decrement_all insert_items new_event insert
answers = refl

calm-CanReplay : CanReplay calm
calm-CanReplay = record { begins = refl; locks = refl; finds = refl; decodes = refl }

shop-IsValid : IsValid shop
shop-IsValid = record { distinct = tt; sound = tt }

-- The shop after the reservation.
abbrev busy : Catalog
busy = (reserve calm request shop).1

busy-IsValid : IsValid busy
busy-IsValid = reserve-IsValid calm request shop shop-IsValid

abbrev row : Reservation
row = record {
  id = 70;
  checkout_attempt_id = 11;
  status = Model.active;
  response = response;
  expires_at = some 950;
  items = record { product_id = 1; quantity = 2 } ∷ record { product_id = 2; quantity = 3 } ∷ [];
}

row_found : find (reservation_is 70) busy.reservations ≡ some row
unfolding reserve scan_items sort_items decrement_all insert_items new_event insert
row_found = refl

releases : (release calm 70 busy).0 ≡ ok tt
unfolding reserve release scan_items sort_items decrement_all insert_items new_event insert
releases = refl

reserve-conserves_example : conserved 1 (reserve calm request shop).1 ≡ conserved 1 shop
reserve-conserves_example = reserve-conserves calm request shop 1

reserve_all_or_nothing_example : Granted request response shop busy ⊎ Refused response shop busy
reserve_all_or_nothing_example = reserve_all_or_nothing calm request response shop refl answers

reserve_again_example : reserve calm other_request busy ≡ (ok response, busy)
reserve_again_example =
    reserve_again calm calm request other_request response shop answers refl calm-CanReplay

release-conserves_example : conserved 2 (release calm 70 busy).1 ≡ conserved 2 busy
release-conserves_example = release-conserves calm 70 busy 2 busy-IsValid

release_restores_example :
    stock 2 (release calm 70 busy).1.products ≡ stock 2 busy.products + held_in 2 row.items
release_restores_example = release_restores calm 70 busy row busy-IsValid row_found refl releases 2

released_reservation_replays_example :
    (reserve calm other_request (release calm 70 busy).1 ≡ (ok response, (release calm 70 busy).1))
    × ((k : ℕ) → stock k (release calm 70 busy).1.products ≡ stock k shop.products)
released_reservation_replays_example =
    released_reservation_replays calm calm calm request other_request response shop shop-IsValid
      refl answers refl releases refl calm-CanReplay

abbrev as_stored : List Product → List Product
as_stored products = products

abbrev fewer : Product → ℕ → Product
fewer p n = record p { available_quantity = n }

list_products-reserve_example :
    fewer milk 3 ∷ fewer bread 0 ∷ [] ≡ as_stored (active_products busy.products)
unfolding reserve scan_items sort_items decrement_all insert_items new_event insert list_products
    active_products
list_products-reserve_example =
    list_products-reserve as_stored calm calm request response (fewer milk 3 ∷ fewer bread 0 ∷ [])
      shop refl refl answers refl
