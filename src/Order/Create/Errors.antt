-- ===== src/Order/Create/Errors.antt =====
-- What a failed call of `Service.Create` leaves behind
-- (services/order-service/internal/order/service.go).
use mathlib.Core.Path.{subst}
use freshflow.Prelude.{
  ℕ, ◌≡◌, ap, ◌∙◌, sym, String, false, ◌==◌, ◌||◌, find, arith, Bool-cases, Option-cases,
  Result-cases, List-cases, inl, inr, Result, ok, err, ◌⊎◌,
}
use freshflow.Platform.Http.{ApiError}
use freshflow.Order.Model.{
  CheckoutRequest, ReserveRequest, Cart, Reservation, User, Orders, UpstreamError, Inventory, World,
  Env, user_is, acquire, lock_key, read_user,
}
use freshflow.Order.Create.{
  Prepared, existing, attempt, prepare_idempotency, persist_order, settle, checkout, create,
}
use freshflow.Order.Create.Stored.{persist_order_error}
use freshflow.Order.Create.Outcome.{
  IsOpen, SameOrders, same_orders, prepare-SameOrders, prepare_attempt,
}

module _ {I : Type 0} (inventory : Inventory I) (hash : CheckoutRequest → String) (ttl : ℕ) where
  -- How a call that failed left the inventory: as it was; as a call to reserve left it that ended with an
  -- error, which can have made the reservation; or as the call to release the reservation left it, whose answer
  -- is passed over.
  pub data Leaves (attempt_id : ℕ) (carts : Result UpstreamError Cart) (i i' : I) : Type 0 where
    alone : i' ≡ i → Leaves attempt_id carts i i'
    not_reserved :
        (cart : Cart)
        → carts ≡ ok cart
        → (x : UpstreamError)
        → inventory.reserve
            (record { checkout_attempt_id = attempt_id; items = cart.items; ttl_seconds = ttl })
            i
          ≡ (err x, i')
        → Leaves attempt_id carts i i'
    release_called :
        (cart : Cart)
        → carts ≡ ok cart
        → (r : Reservation) (mid : I)
        → inventory.reserve
            (record { checkout_attempt_id = attempt_id; items = cart.items; ttl_seconds = ttl })
            i
          ≡ (ok r, mid)
        → i' ≡ (inventory.release r.reservation_id mid).1
        → Leaves attempt_id carts i i'

  settle_error :
      (env : Env) (key : String) (request : CheckoutRequest) (user : User) (r : Reservation)
      (w : World I) (x : ApiError)
      → (settle inventory hash ttl env key request user r w).0 ≡ err x
      → ((settle inventory hash ttl env key request user r w).1.db ≡ w.db)
        × ((settle inventory hash ttl env key request user r w).1.inventory
            ≡ (inventory.release r.reservation_id w.inventory).1)
  unfolding settle
  settle_error env key request user r w x e =
      elim (Result-cases (persist_order env key request r user w.db).0) [
        | inr (order, stored) ↦ absurd (ground arith)
        | inl (_, failed) ↦ (
          (let q : (settle inventory hash ttl env key request user r w).1.db
                    ≡ (persist_order env key request r user w.db).1 =
                  ground arith in
                q)
              ∙ persist_order_error env key request r user w.db
                  (persist_order env key request r user w.db).1 (ground arith),
          ground arith,
        )
      ]

  checkout_error :
      (env : Env) (carts : Result UpstreamError Cart) (key : String) (request : CheckoutRequest)
      (id : ℕ) (w : World I) (x : ApiError)
      → (checkout inventory hash ttl env carts key request id w).0 ≡ err x
      → ((checkout inventory hash ttl env carts key request id w).1.db ≡ w.db)
        × Leaves id carts w.inventory
            (checkout inventory hash ttl env carts key request id w).1.inventory
  unfolding checkout
  checkout_error env carts key request id w x e =
      elim (Option-cases (find (user_is request.user_id) w.db.users)) [
        | inl unknown ↦ (ground arith, alone (ground arith))
        | inr (user, known) ↦ elim (Result-cases carts) [
          | inl (y, failed) ↦ (ground arith, alone (ground arith))
          | inr (cart, fetched) ↦ elim (List-cases cart.items) [
            | inl empty ↦ (ground arith, alone (ground arith))
            | inr (item, items, full) ↦ elim (Bool-cases (env.broken read_user)) [
              | inl broken ↦ (ground arith, alone (ground arith))
              | inr reads ↦ elim (Bool-cases (cart.version == request.cart_version)) [
                | inr stale ↦ (ground arith, alone (ground arith))
                | inl current ↦
                    let ask : ReserveRequest = record {
                      checkout_attempt_id = id;
                      items = cart.items;
                      ttl_seconds = ttl;
                    } in
                    let mid = (inventory.reserve ask w.inventory).1 in
                    elim (Result-cases (inventory.reserve ask w.inventory).0) [
                      | inl (y, refuses) ↦
                          (ground arith, not_reserved cart fetched y (ground arith))
                      | inr (r, reserves) ↦
                          let left =
                            settle_error env key request user r (record w { inventory = mid }) x
                              (ground arith) in
                          (
                            ground (arith, left),
                            release_called cart fetched r mid (ground arith) (ground (arith, left)),
                          )
                    ]
              ]
            ]
          ]
        ]
      ]

  pub create_error :
      (env : Env) (carts : Result UpstreamError Cart) (key : String) (request : CheckoutRequest)
      (w : World I) (x : ApiError)
      → (create inventory hash ttl env carts key request w).0 ≡ err x
      → let w' = (create inventory hash ttl env carts key request w).1 in
        SameOrders w.db w'.db
        × ((w'.inventory ≡ w.inventory)
            ⊎ ((id : ℕ) × IsOpen key (hash request) id w'.db
                × Leaves id carts w.inventory w'.inventory))
  unfolding create
  create_error env carts key request w x e =
      elim (Bool-cases (env.broken acquire || env.broken lock_key)) [
        | inl down ↦ (same_orders w.db w'.db (ground arith), inl (ground arith))
        | inr up ↦ elim (Result-cases (prepare_idempotency env key (hash request) w.db).0) [
          | inl (y, failed) ↦ (
            subst (SameOrders w.db) (let q : db ≡ w'.db = ground arith in q) same,
            inl (ground arith),
          )
          | inr (p, prepared) ↦ go p prepared (ground arith)
        ]
      ]
    where
      w' : World I
      w' = (create inventory hash ttl env carts key request w).1

      db : Orders
      db = (prepare_idempotency env key (hash request) w.db).1

      same : SameOrders w.db db
      same = prepare-SameOrders env key (hash request) w.db

      go :
          (p : Prepared)
          → (prepare_idempotency env key (hash request) w.db).0 ≡ ok p
          → (env.broken acquire || env.broken lock_key) ≡ false
          → SameOrders w.db w'.db
            × ((w'.inventory ≡ w.inventory)
                ⊎ ((id : ℕ) × IsOpen key (hash request) id w'.db
                    × Leaves id carts w.inventory w'.inventory))
      go (existing o) prepared up = absurd (ground arith)
      go (attempt id) prepared up =
          let before : World I = record w { db = db } in
          let (kept, left) = checkout_error env carts key request id before x (ground arith) in
          let after : w' ≡ (checkout inventory hash ttl env carts key request id before).1 =
            ground arith in
          let db_after : db ≡ w'.db = sym (ap (λ (v : World I). v.db) after ∙ kept) in
          (
            subst (SameOrders w.db) db_after same,
            inr (
              id,
              subst (IsOpen key (hash request) id) db_after
                  (prepare_attempt env key (hash request) id w.db db (ground arith)),
              subst (λ (v : World I). Leaves id carts w.inventory v.inventory) (sym after) left,
            ),
          )
