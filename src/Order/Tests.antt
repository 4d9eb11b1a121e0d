-- ===== src/Order/Tests.antt =====
-- Checkout, cancellation and the consumer of the order service on concrete data
-- (services/order-service/internal/order).
use freshflow.Prelude.{
  ℕ, zero, suc, String, ◌≡◌, ◌≢◌, ◌==◌, refl, Bool, true, false, if◌then◌else◌, none, some, [], ◌∷◌,
  Result, ok, err, ◌⊎◌,
}
use freshflow.Platform.Text.{str_eq_iff}
use freshflow.Platform.Events.{new_event}
use freshflow.Platform.Outbox.{insert}
use freshflow.Order.Model.{
  CheckoutRequest, CartItem, Cart, ReserveRequest, ReservedItem, Reservation, Order, User, Orders,
  UpstreamError, upstream, unreachable, Inventory, World, Call, commit, Env, created, delivering,
}
use freshflow.Order.Model
use freshflow.Order.Status.{valid_transition}
use freshflow.Order.Create.{create}
use freshflow.Order.Create.Laws.{CanReplay, Replays, Creates, create-cases, create_again}
use freshflow.Order.Create.Traced.{create-IsTraced}
use freshflow.Order.Cancel.{cancel, emit}
use freshflow.Order.Cancel.Laws.{Stores, cancel-cases}
use freshflow.Order.Consume.{Incoming, target_of, handle}
use freshflow.Order.Consume.Handled.{Handles, handle-Handles, handle_once, handle-IsTraced}
use freshflow.Order.Trace.{IsTraced, follow_empty}

abbrev env_of : (Call → Bool) → Env
env_of broken = record {
  broken = broken;
  attempt_uuid = some 11;
  order_uuid = some 21;
  stamp = record { correlation = "c-1"; span = none; uuid = some 900; encodes = true; now = 50 };
  changed_stamp = record {
    correlation = "c-1";
    span = none;
    uuid = some 901;
    encodes = true;
    now = 50;
  };
  now = 50;
}

abbrev calm : Env
calm = env_of (λ _. false)

abbrev commit_fails : Call → Bool
commit_fails commit = true
commit_fails _ = false

abbrev stormy : Env
stormy = env_of commit_fails

-- The calls of a later event, which draw other ids.
abbrev later : Env
later = record calm {
  stamp = record { correlation = "c-2"; span = none; uuid = some 902; encodes = true; now = 60 };
  changed_stamp = record {
    correlation = "c-2";
    span = none;
    uuid = some 903;
    encodes = true;
    now = 60;
  };
  now = 60;
}

abbrev milk : ReservedItem
milk = record {
  product_id = 1;
  product_name = "Milk";
  quantity = 2;
  unit_price_minor = 250;
  currency = "RUB";
}

abbrev reservation : Reservation
reservation = record {
  reservation_id = 70;
  status = "active";
  items = milk ∷ [];
  total_amount_minor = 500;
  currency = "RUB";
}

-- An inventory that counts the reservations that are held.
abbrev grants : ReserveRequest → ℕ → Result UpstreamError Reservation × ℕ
grants request held = (ok reservation, suc held)

abbrev frees : ℕ → ℕ → Result UpstreamError (Unit {0}) × ℕ
frees id zero = (err (upstream 404 "reservation_not_found"), zero)
frees id (suc held) = (ok tt, held)

abbrev inventory : Inventory ℕ
inventory = record { reserve = grants; release = frees }

abbrev hash : CheckoutRequest → String
hash request = if request.cart_version == 3 then "h-3" else "h-other"

abbrev request : CheckoutRequest
request = record { user_id = 5; cart_version = 3 }

abbrev other_request : CheckoutRequest
other_request = record { user_id = 5; cart_version = 4 }

abbrev carts : Result UpstreamError Cart
carts =
    ok (record { user_id = 5; version = 3; items = record { product_id = 1; quantity = 2 } ∷ [] })

abbrev empty_world : World ℕ
empty_world = record {
  db = record {
    users = record { id = 5; delivery_latitude = 1; delivery_longitude = 2 } ∷ [];
    orders = [];
    history = [];
    keys = [];
    processed = [];
    outbox = [];
  };
  inventory = 0;
}

abbrev order : Order
order = record {
  id = 21;
  user_id = 5;
  reservation_id = 70;
  cart_version = 3;
  status = Model.created;
  items = milk ∷ [];
  total_amount_minor = 500;
  currency = "RUB";
  delivery_latitude = 1;
  delivery_longitude = 2;
  created_at = 50;
}

abbrev stored : World ℕ
stored = (create inventory hash 900 calm carts "key-1" request empty_world).1

answers : (create inventory hash 900 calm carts "key-1" request empty_world).0 ≡ ok (order, false)
unfolding create new_event insert
answers = refl

calm-CanReplay : CanReplay calm
calm-CanReplay = record { acquires = refl; locks = refl; finds = refl }

hashes_differ : hash request ≢ hash other_request
hashes_differ e = cc ((str_eq_iff "h-3" "h-other").1 e)

empty-IsTraced : IsTraced empty_world.db
empty-IsTraced k = follow_empty k created

stored-IsTraced : IsTraced stored.db
stored-IsTraced =
    create-IsTraced inventory hash 900 calm carts "key-1" request empty_world empty-IsTraced

create-cases_example :
    Replays inventory hash 900 "key-1" request order false empty_world stored
    ⊎ Creates inventory hash 900 calm carts "key-1" request order false empty_world stored
create-cases_example =
    create-cases inventory hash 900 calm carts "key-1" request empty_world order false answers

create_again_example :
    create inventory hash 900 calm (err unreachable) "key-1" request stored
    ≡ (ok (order, true), stored)
create_again_example =
    create_again inventory hash 900 calm calm carts (err unreachable) "key-1" request empty_world
      order false answers calm-CanReplay

abbrev spoilt : World ℕ
spoilt = (create inventory hash 900 stormy carts "key-1" request empty_world).1

cancel-cases_example :
    ((cancel inventory later 21 stored).1.db ≡ stored.db)
    ⊎ Stores inventory later 21 stored (cancel inventory later 21 stored).1
cancel-cases_example = cancel-cases inventory later 21 stored

abbrev under_way : World ℕ
under_way = record stored {
  db = record stored.db { orders = record order { status = delivering } ∷ [] };
}

abbrev assigned : Incoming
assigned = record {
  event_id = 300;
  event_type = "delivery.assigned";
  aggregate_id = 21;
  payload_status = none;
}

consumes : (handle later (some assigned) stored.db).0 ≡ ok tt
unfolding handle create new_event insert target_of valid_transition emit
consumes = refl

handle-Handles_example :
    Handles later.now assigned stored.db (handle later (some assigned) stored.db).1
handle-Handles_example = handle-Handles later assigned stored.db consumes

handle_once_example :
    (handle calm (some assigned) (handle later (some assigned) stored.db).1).1
    ≡ (handle later (some assigned) stored.db).1
handle_once_example = handle_once later calm assigned stored.db consumes

handle-IsTraced_example : IsTraced (handle later (some assigned) stored.db).1
handle-IsTraced_example = handle-IsTraced later (some assigned) stored.db stored-IsTraced
