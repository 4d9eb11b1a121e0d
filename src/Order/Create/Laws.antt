-- ===== src/Order/Create/Laws.antt =====
-- The promises of `Service.Create` (services/order-service/internal/order/service.go): what an order
-- came from, what a repeated key answers, and what a failure leaves behind.
use mathlib.Core.Path.{subst}
use freshflow.Prelude.{
  ℕ, ◌≡◌, sym, String, Bool, true, false, arith, ◌≢◌, Bool-cases, Result-cases, inl, inr, Result,
  ok, err, ◌⊎◌,
}
use freshflow.Platform.Text.{str_eq, str_eq_iff}
use freshflow.Platform.Http.{ApiError, error}
use freshflow.Order.Model.{
  CheckoutRequest, Cart, Order, Orders, UpstreamError, Inventory, World, Env, acquire, lock_key,
  find_key,
}
use freshflow.Order.Create.{Prepared, existing, attempt, prepare_idempotency, create}
use freshflow.Order.Create.Outcome.{
  IsDone, IsOpen, SameOrders, prepare-SameOrders, prepare_existing, prepare_attempt,
  Persists-IsDone, ChecksOut, checkout_ok,
}

-- The calls before the key is read go through.
pub record CanReplay (env : Env) : Type 0 where
  pub acquires : env.broken acquire ≡ false
  pub locks : env.broken lock_key ≡ false
  pub finds : env.broken find_key ≡ false

prepare_done :
    (env : Env) (key hash : String) (order : Order) (db : Orders)
    → env.broken find_key ≡ false
    → IsDone key hash order db
    → prepare_idempotency env key hash db ≡ (ok (existing order), db)
unfolding prepare_idempotency
prepare_done env key hash order db calm d =
    let f = d.found in
    let m = d.matches in let s = d.done in let a = d.answer in rw calm (rw f (rw m (rw s (rw a))))

prepare_reused :
    (env : Env) (key hash hash' : String) (order : Order) (db : Orders)
    → env.broken find_key ≡ false
    → IsDone key hash order db
    → str_eq hash hash' ≡ false
    → prepare_idempotency env key hash' db ≡ (err (error 409 "idempotency_key_reused"), db)
unfolding prepare_idempotency
prepare_reused env key hash hash' order db calm d differs =
    let f = d.found in
    let same : d.row.request_hash ≡ hash = (str_eq_iff d.row.request_hash hash).0 d.matches in
    rw calm (rw f (rw (same, differs)))

module _ {I : Type 0} (inventory : Inventory I) (hash : CheckoutRequest → String) (ttl : ℕ) where
  -- A replay: the key was closed before, and nothing changed.
  pub record Replays (key : String) (request : CheckoutRequest) (order : Order) (replayed : Bool)
      (w w' : World I) : Type 0 where
    pub flag : replayed ≡ true
    pub done : IsDone key (hash request) order w.db
    pub unchanged : w' ≡ w

  -- A new order, for the checkout attempt that the key stands for.
  pub record Creates (env : Env) (carts : Result UpstreamError Cart) (key : String)
      (request : CheckoutRequest) (order : Order) (replayed : Bool) (w w' : World I) : Type 0 where
    pub flag : replayed ≡ false
    pub prepared : Orders
    pub same : SameOrders w.db prepared
    pub attempt_id : ℕ
    pub open_key : IsOpen key (hash request) attempt_id prepared
    pub checks_out :
        ChecksOut inventory hash ttl env carts key request attempt_id order
          (record w { db = prepared })
          w'

  -- When `Create` answers with an order, it is the stored order of the key and nothing has changed,
  -- or it is a new one: made from the user's current, non-empty cart, whose items the inventory
  -- reserved for the attempt of the key, and stored with its event, its key closed.
  pub create-cases :
      (env : Env) (carts : Result UpstreamError Cart) (key : String) (request : CheckoutRequest)
      (w : World I) (order : Order) (replayed : Bool)
      → (create inventory hash ttl env carts key request w).0 ≡ ok (order, replayed)
      → Replays key request order replayed w (create inventory hash ttl env carts key request w).1
        ⊎ Creates env carts key request order replayed w
            (create inventory hash ttl env carts key request w).1
  unfolding create
  create-cases env carts key request w order replayed e =
      let db = (prepare_idempotency env key (hash request) w.db).1 in
      elim (Result-cases (prepare_idempotency env key (hash request) w.db).0) [
        | inl (x, refused) ↦ absurd (ground arith)
        | inr (p, prepared) ↦ go p prepared
      ]
    where
      go :
          (p : Prepared)
          → (prepare_idempotency env key (hash request) w.db).0 ≡ ok p
          → Replays key request order replayed w
              (create inventory hash ttl env carts key request w).1
            ⊎ Creates env carts key request order replayed w
                (create inventory hash ttl env carts key request w).1
      go (existing o) prepared =
          let db = (prepare_idempotency env key (hash request) w.db).1 in
          let (same, done) = prepare_existing env key (hash request) o w.db db (ground arith) in
          let is : o ≡ order = ground arith in
          inl (record {
            flag = ground arith;
            done = subst (λ x. IsDone key (hash request) x w.db) is done;
            unchanged = ground arith;
          })
      go (attempt id) prepared =
          let db = (prepare_idempotency env key (hash request) w.db).1 in
          let w' = (create inventory hash ttl env carts key request w).1 in
          let (first, out) =
            checkout_ok inventory hash ttl env carts key request id order replayed
              (record w { db = db }) w' (ground arith) in
          inr (record {
            flag = first;
            prepared = db;
            same = prepare-SameOrders env key (hash request) w.db;
            attempt_id = id;
            open_key = prepare_attempt env key (hash request) id w.db db (ground arith);
            checks_out = out;
          })

  -- After an answer with an order the key stands for that order.
  pub create-IsDone :
      (env : Env) (carts : Result UpstreamError Cart) (key : String) (request : CheckoutRequest)
      (w : World I) (order : Order) (replayed : Bool)
      → (create inventory hash ttl env carts key request w).0 ≡ ok (order, replayed)
      → IsDone key (hash request) order (create inventory hash ttl env carts key request w).1.db
  create-IsDone env carts key request w order replayed e =
      elim (create-cases env carts key request w order replayed e) [
        | inl r ↦
            subst (λ (x : World I). IsDone key (hash request) order x.db) (sym r.unchanged) r.done
        | inr c ↦
            Persists-IsDone key (hash request) c.attempt_id order c.prepared
              (create inventory hash ttl env carts key request w).1.db c.open_key
              c.checks_out.persisted.writes
      ]

  create_existing :
      (env : Env) (carts : Result UpstreamError Cart) (key : String) (request : CheckoutRequest)
      (w : World I) (order : Order)
      → CanReplay env
      → prepare_idempotency env key (hash request) w.db ≡ (ok (existing order), w.db)
      → create inventory hash ttl env carts key request w ≡ (ok (order, true), w)
  unfolding create
  create_existing env carts key request w order can p = ground arith

  create_refused :
      (env : Env) (carts : Result UpstreamError Cart) (key : String) (request : CheckoutRequest)
      (w : World I) (e : ApiError)
      → CanReplay env
      → prepare_idempotency env key (hash request) w.db ≡ (err e, w.db)
      → create inventory hash ttl env carts key request w ≡ (err e, w)
  unfolding create
  create_refused env carts key request w e can p = ground arith

  -- A checkout that is sent again with its key answers the same order, marked as a replay, and
  -- changes nothing: neither the orders nor the inventory, whatever the cart holds by then.
  pub create_again :
      (env env' : Env) (carts carts' : Result UpstreamError Cart) (key : String)
      (request : CheckoutRequest) (w : World I) (order : Order) (replayed : Bool)
      → (create inventory hash ttl env carts key request w).0 ≡ ok (order, replayed)
      → CanReplay env'
      → let w' = (create inventory hash ttl env carts key request w).1 in
        create inventory hash ttl env' carts' key request w' ≡ (ok (order, true), w')
  create_again env env' carts carts' key request w order replayed e can =
      let w' = (create inventory hash ttl env carts key request w).1 in
      let done = create-IsDone env carts key request w order replayed e in
      create_existing env' carts' key request w' order can
        (prepare_done env' key (hash request) order w'.db can.finds done)

  -- A key that has answered with an order refuses a request with another hash, and nothing changes.
  pub create_reused_key :
      (env env' : Env) (carts carts' : Result UpstreamError Cart) (key : String)
      (request request' : CheckoutRequest) (w : World I) (order : Order) (replayed : Bool)
      → (create inventory hash ttl env carts key request w).0 ≡ ok (order, replayed)
      → CanReplay env'
      → hash request ≢ hash request'
      → let w' = (create inventory hash ttl env carts key request w).1 in
        create inventory hash ttl env' carts' key request' w'
        ≡ (err (error 409 "idempotency_key_reused"), w')
  create_reused_key env env' carts carts' key request request' w order replayed e can differs =
      let w' = (create inventory hash ttl env carts key request w).1 in
      let done = create-IsDone env carts key request w order replayed e in
      let no_match : str_eq (hash request) (hash request') ≡ false =
        elim (Bool-cases (str_eq (hash request) (hash request'))) [
          | inl same ↦ absurd (differs ((str_eq_iff (hash request) (hash request')).0 same))
          | inr other ↦ other
        ] in
      create_refused env' carts' key request' w' (error 409 "idempotency_key_reused") can
        (prepare_reused env' key (hash request) (hash request') order w'.db can.finds done no_match)
