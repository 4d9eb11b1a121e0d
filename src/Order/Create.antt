-- ===== src/Order/Create.antt =====
-- `Service.Create` (services/order-service/internal/order/service.go): the idempotency key, the
-- checkout against the cart and the inventory, and the transaction that stores the order. The
-- advisory lock on the key makes the calls with one key run one after the other.
pub mod Stored
pub mod Outcome
pub mod Laws
pub mod Errors
pub mod Traced
use freshflow.Prelude.{
  ℕ, leb, ◌^◌, String, Bool, true, false, ◌||◌, not, Option, none, some, List, [], ◌∷◌, ◌++◌, ◌==◌,
  if◌then◌else◌, find, exists, update_where, Result, ok, err, Tx, pure, gets, modify, fail_if,
  or_fail, ◌>>=◌, ◌>>◌, transact,
}
use freshflow.Platform.Text.{str_eq}
use freshflow.Platform.Http.{ApiError, error, internal_error}
use freshflow.Platform.Events.{new_event}
use freshflow.Platform.Outbox
use freshflow.Order.Model.{
  CheckoutRequest, Cart, ReservedItem, Reservation, Status, Order, User, processing, completed,
  KeyRow, order_created, Orders, UpstreamError, upstream, unreachable, Inventory, World, Call,
  acquire, lock_key, find_key, insert_key, read_user, begin, insert_order, insert_item,
  insert_event, encode_response, complete_key, commit, key_is, order_is, user_is, Env,
}

-- What the idempotency key says: the order that it stands for, or the checkout attempt to make.
pub data Prepared : Type 0 where
  existing : Order → Prepared
  attempt : ℕ → Prepared

abbrev pub replay : Option Order → Result ApiError Prepared
replay none = err internal_error
replay (some order) = ok (existing order)

abbrev pub prepare_known : String → KeyRow → Result ApiError Prepared
prepare_known hash r =
    if not (str_eq r.request_hash hash)
    then err (error 409 "idempotency_key_reused")
    else elim r.state [
      | completed ↦ replay r.response
      | processing ↦ ok (attempt r.checkout_attempt_id)
    ]

abbrev pub new_key : String → String → ℕ → KeyRow
new_key key hash uuid = record {
  key = key;
  request_hash = hash;
  checkout_attempt_id = uuid;
  state = processing;
  response = none;
}

-- `prepareIdempotency`. Its INSERT stands outside any transaction, and stays.
unfoldable pub prepare_idempotency :
    Env → String → String → Orders → Result ApiError Prepared × Orders
prepare_idempotency env key hash db =
    if env.broken find_key then (err internal_error, db) else elim (find (key_is key) db.keys) [
      | some r ↦ (prepare_known hash r, db)
      | none ↦ elim env.attempt_uuid [
        | none ↦ (err internal_error, db)
        | some uuid ↦
            if env.broken insert_key
            then (err internal_error, db)
            else (ok (attempt uuid), record db { keys = db.keys ++ new_key key hash uuid ∷ [] })
      ]
    ]

-- The loop of INSERTs into order_items: the primary key and the CHECK refuse a product that the
-- order has, and a quantity of zero.
items_refused : (Call → Bool) → List ReservedItem → List ℕ → Bool
items_refused broken [] seen = false
items_refused broken (i ∷ is) seen =
    broken (insert_item i.product_id)
    || exists (λ j. j == i.product_id) seen
    || i.quantity == 0
    || items_refused broken is (i.product_id ∷ seen)

abbrev pub order_of : ℕ → CheckoutRequest → Reservation → User → ℕ → Order
order_of id request reservation user now = record {
  id = id;
  user_id = request.user_id;
  reservation_id = reservation.reservation_id;
  cart_version = request.cart_version;
  status = Status.created;
  items = reservation.items;
  total_amount_minor = reservation.total_amount_minor;
  currency = reservation.currency;
  delivery_latitude = user.delivery_latitude;
  delivery_longitude = user.delivery_longitude;
  created_at = now;
}

abbrev pub complete : Order → KeyRow → KeyRow
complete order r = record r { state = completed; response = some order }

-- The transaction of `persistOrder`. The table has unique ids, unique reservations, a foreign key to the
-- users, and totals that are not negative as an int64.
pub persist_tx : Env → String → Order → Tx Orders (Unit {0}) Order
unfolding items_refused
persist_tx env key order = do
  db ← gets (λ db. db)
  fail_if
      (env.broken insert_order
        || exists (order_is order.id) db.orders
        || exists (λ o. o.reservation_id == order.reservation_id) db.orders
        || not (exists (user_is order.user_id) db.users)
        || leb (2 ^ 63) order.total_amount_minor)
      tt
  fail_if (items_refused env.broken order.items []) tt
  modify (λ db. record db { orders = db.orders ++ order ∷ [] })
  envelope ←
      or_fail (new_event env.stamp "order.created" "order-service" order.id (order_created order))
        tt
  rows ←
      or_fail
        (Outbox.insert (env.broken insert_event) "orders" "freshflow.order.events.v1" order.id
          envelope db.outbox)
        tt
  modify (λ db. record db { outbox = rows })
  fail_if (env.broken encode_response) tt
  fail_if (env.broken complete_key) tt
  modify (λ db. record db { keys = update_where (key_is key) (complete order) db.keys })
  fail_if (env.broken commit) tt
  pure order

-- `persistOrder`
pub persist_order :
    Env → String → CheckoutRequest → Reservation → User → Orders → Result (Unit {0}) Order × Orders
unfolding persist_tx
persist_order env key request reservation user db = elim env.order_uuid [
  | none ↦ (err tt, db)
  | some id ↦
      if env.broken begin
      then (err tt, db)
      else transact (persist_tx env key (order_of id request reservation user env.now)) db
]

-- How a failed reservation is answered.
pub reserve_error : UpstreamError → ApiError
reserve_error (upstream _ code) =
    if str_eq code "inventory_insufficient"
    then error 409 "inventory_insufficient"
    else error 503 "catalog_unavailable"
reserve_error unreachable = error 503 "catalog_unavailable"

module _ {I : Type 0} (inventory : Inventory I) (hash : CheckoutRequest → String) (ttl : ℕ) where
  -- From the reservation on: a failed transaction gives the reservation back.
  pub settle :
      Env
      → String
      → CheckoutRequest
      → User
      → Reservation
      → World I
      → Result ApiError (Order × Bool) × World I
  unfolding persist_order
  settle env key request user reservation w =
      let (stored, db) = persist_order env key request reservation user w.db in
      elim stored [
        | ok order ↦ (ok (order, false), record w { db = db })
        | err _ ↦ (
          err internal_error,
          record {
            db = db;
            inventory = (inventory.release reservation.reservation_id w.inventory).1;
          },
        )
      ]

  -- The checkout of an attempt, against the answer of the cart service.
  pub checkout :
      Env
      → Result UpstreamError Cart
      → String
      → CheckoutRequest
      → ℕ
      → World I
      → Result ApiError (Order × Bool) × World I
  unfolding settle reserve_error
  checkout env carts key request attempt_id w =
      if env.broken read_user
      then (err internal_error, w)
      else elim (find (user_is request.user_id) w.db.users) [
        | none ↦ (err (error 404 "user_not_found"), w)
        | some user ↦ elim carts [
          | err _ ↦ (err (error 503 "cart_unavailable"), w)
          | ok cart ↦
              if not (cart.version == request.cart_version)
              then (err (error 409 "cart_version_mismatch"), w)
              else elim cart.items [
                | [] ↦ (err (error 409 "cart_empty"), w)
                | _ ∷ _ ↦
                    let (answer, stock) =
                      inventory.reserve
                        (record {
                          checkout_attempt_id = attempt_id;
                          items = cart.items;
                          ttl_seconds = ttl;
                        })
                        w.inventory in
                    elim answer [
                      | err e ↦ (err (reserve_error e), record w { inventory = stock })
                      | ok reservation ↦
                          settle env key request user reservation (record w { inventory = stock })
                    ]
              ]
        ]
      ]

  -- `Create`: the order, and whether it is the replay of an earlier call.
  unfoldable pub create :
      Env
      → Result UpstreamError Cart
      → String
      → CheckoutRequest
      → World I
      → Result ApiError (Order × Bool) × World I
  unfolding prepare_idempotency checkout
  create env carts key request w =
      if env.broken acquire || env.broken lock_key
      then (err internal_error, w)
      else (let (prepared, db) = prepare_idempotency env key (hash request) w.db in
          elim prepared [
            | err e ↦ (err e, record w { db = db })
            | ok p ↦ elim p [
              | existing order ↦ (ok (order, true), record w { db = db })
              | attempt id ↦ checkout env carts key request id (record w { db = db })
            ]
          ])
