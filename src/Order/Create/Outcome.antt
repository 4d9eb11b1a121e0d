-- ===== src/Order/Create/Outcome.antt =====
-- What `Service.Create` did when it answered with an order
-- (services/order-service/internal/order/service.go).
use mathlib.Core.Path.{subst}
use freshflow.Prelude.{
  ℕ, ◌≡◌, refl, ap, ◌∙◌, String, Bool, true, false, some, List, [], ◌∷◌, ◌++◌, find,
  find-append_none, update_where, arith, Bool-cases, Option-cases, Result-cases, List-cases, inl,
  inr, Result, ok,
}
use freshflow.Platform.Text.{str_eq, str_eq_refl}
use freshflow.Order.Model.{
  CheckoutRequest, ReserveRequest, Cart, Reservation, User, Order, Orders, KeyRow, completed,
  UpstreamError, Inventory, World, Env, key_is, user_is,
}
use freshflow.Order.Create.{
  existing, attempt, new_key, prepare_idempotency, complete, persist_order, settle, checkout,
}
use freshflow.Order.Create.Stored.{Persists, Persisted, persist_order-Persisted}

-- The key stands for a stored order, under this hash.
pub record IsDone (key hash : String) (order : Order) (db : Orders) : Type 0 where
  pub row : KeyRow
  pub found : find (key_is key) db.keys ≡ some row
  pub matches : str_eq row.request_hash hash ≡ true
  pub done : row.state ≡ completed
  pub answer : row.response ≡ some order

-- The key stands for a checkout attempt, under this hash.
pub record IsOpen (key hash : String) (id : ℕ) (db : Orders) : Type 0 where
  pub row : KeyRow
  pub found : find (key_is key) db.keys ≡ some row
  pub matches : str_eq row.request_hash hash ≡ true
  pub its_attempt : row.checkout_attempt_id ≡ id

-- Only the keys may differ.
pub record SameOrders (db db' : Orders) : Type 0 where
  pub users : db'.users ≡ db.users
  pub orders : db'.orders ≡ db.orders
  pub history : db'.history ≡ db.history
  pub processed : db'.processed ≡ db.processed
  pub outbox : db'.outbox ≡ db.outbox

pub same_orders : (db db' : Orders) → db' ≡ db → SameOrders db db'
same_orders db db' e = record {
  users = rw e;
  orders = rw e;
  history = rw e;
  processed = rw e;
  outbox = rw e;
}

pub prepare-SameOrders :
    (env : Env) (key hash : String) (db : Orders)
    → SameOrders db (prepare_idempotency env key hash db).1
unfolding prepare_idempotency
prepare-SameOrders env key hash db = record {
  users = ground arith;
  orders = ground arith;
  history = ground arith;
  processed = ground arith;
  outbox = ground arith;
}

pub prepare_existing :
    (env : Env) (key hash : String) (order : Order) (db db' : Orders)
    → prepare_idempotency env key hash db ≡ (ok (existing order), db')
    → (db' ≡ db) × IsDone key hash order db
unfolding prepare_idempotency
prepare_existing env key hash order db db' e = elim (Option-cases (find (key_is key) db.keys)) [
  | inl absent ↦ absurd (ground arith)
  | inr (r, found) ↦ (
    ground arith,
    record {
      row = r;
      found = found;
      matches = ground arith;
      done = ground arith;
      answer = ground arith;
    },
  )
]

pub prepare_attempt :
    (env : Env) (key hash : String) (id : ℕ) (db db' : Orders)
    → prepare_idempotency env key hash db ≡ (ok (attempt id), db')
    → IsOpen key hash id db'
unfolding prepare_idempotency
prepare_attempt env key hash id db db' e = elim (Option-cases (find (key_is key) db.keys)) [
  | inr (r, found) ↦
      let same : db' ≡ db = ground arith in
      record { row = r; found = rw same found; matches = ground arith; its_attempt = ground arith }
  | inl absent ↦ elim (Option-cases env.attempt_uuid) [
    | inl undrawn ↦ absurd (ground arith)
    | inr (uuid, drawn) ↦
        let row = new_key key hash uuid in
        let added : db'.keys ≡ db.keys ++ row ∷ [] = ground arith in
        record {
          row = row;
          found =
              rw added
                (find-append_none (key_is key) db.keys (row ∷ []) absent ∙ rw (str_eq_refl key));
          matches = str_eq_refl hash;
          its_attempt = ground arith;
        }
  ]
]

find-complete :
    (key : String) (order : Order) (keys : List KeyRow) (r : KeyRow)
    → find (key_is key) keys ≡ some r
    → find (key_is key) (update_where (key_is key) (complete order) keys) ≡ some (complete order r)
find-complete key order [] r e = cc
find-complete key order (q ∷ keys) r e = elim (Bool-cases (key_is key q)) [
  | inl same ↦
      rw (same, same) (let here : q ≡ r = ground arith in ap (λ x. some (complete order x)) here)
  | inr other ↦ rw (other, other) (find-complete key order keys r (ground arith))
]

-- Storing the order closes the key.
pub Persists-IsDone :
    (key hash : String) (id : ℕ) (order : Order) (db db' : Orders)
    → IsOpen key hash id db
    → Persists key order db db'
    → IsDone key hash order db'
Persists-IsDone key hash id order db db' o p = record {
  row = complete order o.row;
  found = rw p.keys (find-complete key order db.keys o.row o.found);
  matches = o.matches;
  done = refl;
  answer = refl;
}

module _ {I : Type 0} (inventory : Inventory I) (hash : CheckoutRequest → String) (ttl : ℕ) where
  settle_ok :
      (env : Env) (key : String) (request : CheckoutRequest) (user : User)
      (reservation : Reservation) (w w' : World I) (order : Order) (replayed : Bool)
      → settle inventory hash ttl env key request user reservation w ≡ (ok (order, replayed), w')
      → (replayed ≡ false)
        × (w'.inventory ≡ w.inventory)
        × Persisted env key request reservation user order w.db w'.db
  unfolding settle
  settle_ok env key request user reservation w w' order replayed e =
      elim (Result-cases (persist_order env key request reservation user w.db).0) [
        | inl (x, refused) ↦ absurd (ground arith)
        | inr (made, stored) ↦
            let db = (persist_order env key request reservation user w.db).1 in
            let same : made ≡ order = ground arith in
            let ended : db ≡ w'.db = ground arith in
            (
              ground arith,
              ground arith,
              subst (λ o. Persisted env key request reservation user o w.db w'.db) same
                  (subst (Persisted env key request reservation user made w.db) ended (
                    persist_order-Persisted env key request reservation user made w.db db
                      (ground arith))),
            )
      ]

  -- A checkout that went through: the cart was the one that the request names and not empty, its
  -- items were reserved for the attempt, and the order was stored.
  pub record ChecksOut (env : Env) (carts : Result UpstreamError Cart) (key : String)
      (request : CheckoutRequest) (id : ℕ) (order : Order) (w w' : World I) : Type 0 where
    pub user : User
    pub known : find (user_is request.user_id) w.db.users ≡ some user
    pub cart : Cart
    pub fetched : carts ≡ ok cart
    pub current : cart.version ≡ request.cart_version
    pub nonempty : (cart.items ≡ []) → ⊥
    pub reservation : Reservation
    pub reserved :
        inventory.reserve
          (record { checkout_attempt_id = id; items = cart.items; ttl_seconds = ttl })
          w.inventory
        ≡ (ok reservation, w'.inventory)
    pub persisted : Persisted env key request reservation user order w.db w'.db

  pub checkout_ok :
      (env : Env) (carts : Result UpstreamError Cart) (key : String) (request : CheckoutRequest)
      (id : ℕ) (order : Order) (replayed : Bool) (w w' : World I)
      → checkout inventory hash ttl env carts key request id w ≡ (ok (order, replayed), w')
      → (replayed ≡ false) × ChecksOut env carts key request id order w w'
  unfolding checkout
  checkout_ok env carts key request id order replayed w w' e =
      elim (Option-cases (find (user_is request.user_id) w.db.users)) [
        | inl unknown ↦ absurd (ground arith)
        | inr (user, known) ↦ elim (Result-cases carts) [
          | inl (x, failed) ↦ absurd (ground arith)
          | inr (cart, fetched) ↦ elim (List-cases cart.items) [
            | inl empty ↦ absurd (ground arith)
            | inr (item, items, full) ↦
                let ask : ReserveRequest = record {
                  checkout_attempt_id = id;
                  items = cart.items;
                  ttl_seconds = ttl;
                } in
                elim (Result-cases (inventory.reserve ask w.inventory).0) [
                  | inl (x, refused) ↦ absurd (ground arith)
                  | inr (reservation, reserved) ↦
                      let stock = (inventory.reserve ask w.inventory).1 in
                      let (first, kept, stored) =
                        settle_ok env key request user reservation (record w { inventory = stock })
                          w' order replayed (ground arith) in
                      (
                        first,
                        record {
                          user = user;
                          known = known;
                          cart = cart;
                          fetched = fetched;
                          current = ground arith;
                          nonempty = λ nil. cc (nil, full);
                          reservation = reservation;
                          reserved = ground arith;
                          persisted = stored;
                        },
                      )
                ]
          ]
        ]
      ]
