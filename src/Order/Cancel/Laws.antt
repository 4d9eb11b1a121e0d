-- ===== src/Order/Cancel/Laws.antt =====
-- The promises of `Service.Cancel` (services/order-service/internal/order/service.go).
use freshflow.Prelude.{
  ℕ, ◌≡◌, ◌∙◌, true, false, ◌||◌, some, List, [], ◌∷◌, ◌++◌, find, update_where, arith, Bool-cases,
  Option-cases, Result-cases, inl, inr, ok, err, ◌⊎◌,
}
use freshflow.Platform.Http.{error}
use freshflow.Platform.Outbox.{Row}
use freshflow.Order.Model.{
  cancelled, Order, Payload, order_cancelled, status_changed, Orders, Inventory, World, begin,
  read_order, insert_event, insert_changed, order_is, Env,
}
use freshflow.Order.Status.{status_eq, can_cancel}
use freshflow.Order.Cancel.{set_status, move, log_change, emit, cancel_tx, cancel_found, cancel}
use freshflow.Order.Emit.{Appends, emit-Emits}
use freshflow.Order.Trace.{cancel-allowed, IsTraced, move-IsTraced}

-- The order was cancelled: its status, one row of the history, and its two events.
pub record Cancels (now : ℕ) (id : ℕ) (o : Order) (db db' : Orders) : Type 0 where
  pub orders : db'.orders ≡ update_where (order_is id) (set_status cancelled) db.orders
  pub history :
      db'.history
      ≡ db.history
        ++ record {
          order_id = id;
          previous_status = o.status;
          new_status = cancelled;
          changed_at = now;
        }
          ∷ []
  pub keys : db'.keys ≡ db.keys
  pub processed : db'.processed ≡ db.processed
  pub between : List (Row Payload)
  pub announces : Appends "order.cancelled" id (order_cancelled id o.status now) db.outbox between
  pub reports :
      Appends "order.status_changed" id
        (status_changed id o.status cancelled now)
        between
        db'.outbox

cancel_tx-Cancels :
    (env : Env) (id : ℕ) (o : Order) (db db' : Orders)
    → cancel_tx env id o.status db ≡ ok (tt, db')
    → Cancels env.now id o db db'
unfolding cancel_tx
cancel_tx-Cancels env id o db db' e =
    let mid = log_change id o.status cancelled env.now (move id cancelled db) in
    elim (Result-cases (
      emit env.stamp (env.broken insert_event) "order.cancelled" id
        (order_cancelled id o.status env.now) mid)) [
          | inl (x, failed) ↦ absurd (ground arith)
          | inr ((_, between), told) ↦
              let said =
                emit-Emits env.stamp (env.broken insert_event) "order.cancelled" id
                  (order_cancelled id o.status env.now) mid between told in
              elim (Result-cases (
                emit env.changed_stamp (env.broken insert_changed) "order.status_changed" id
                  (status_changed id o.status cancelled env.now) between)) [
                    | inl (x, failed) ↦ absurd (ground arith)
                    | inr ((_, last), logged) ↦
                        let same : last ≡ db' = ground arith in
                        let em =
                          emit-Emits env.changed_stamp (env.broken insert_changed)
                            "order.status_changed" id (status_changed id o.status cancelled env.now)
                            between last logged in
                        record {
                          orders = rw (← same) (em.orders ∙ said.orders);
                          history = rw (← same) (em.history ∙ said.history);
                          keys = rw (← same) (em.keys ∙ said.keys);
                          processed = rw (← same) (em.processed ∙ said.processed);
                          between = between.outbox;
                          announces = said.appends;
                          reports = rw (← same) em.appends;
                        }
                  ]
        ]

module _ {I : Type 0} (inventory : Inventory I) where
  -- A cancellation that was stored: the order could be cancelled, and the inventory had released its
  -- reservation before.
  pub record Stores (env : Env) (id : ℕ) (w w' : World I) : Type 0 where
    pub row : Order
    pub found : find (order_is id) w.db.orders ≡ some row
    pub cancellable : can_cancel row.status ≡ true
    pub released : (inventory.release row.reservation_id w.inventory).0 ≡ ok tt
    pub stock : w'.inventory ≡ (inventory.release row.reservation_id w.inventory).1
    pub cancels : Cancels env.now id row w.db w'.db

  found-cases :
      (env : Env) (id : ℕ) (o : Order) (w : World I)
      → find (order_is id) w.db.orders ≡ some o
      → ((cancel_found inventory env id o w).1.db ≡ w.db)
        ⊎ Stores env id w (cancel_found inventory env id o w).1
  unfolding cancel_found
  found-cases env id o w found = elim (Bool-cases (status_eq o.status cancelled)) [
    | inl over ↦ inl (ground arith)
    | inr live ↦ elim (Bool-cases (can_cancel o.status)) [
      | inr late ↦ inl (ground arith)
      | inl can ↦ elim (Result-cases (inventory.release o.reservation_id w.inventory).0) [
        | inl (x, failed) ↦ inl (ground arith)
        | inr (_, released) ↦ elim (Result-cases (cancel_tx env id o.status w.db)) [
          | inl (x, failed) ↦ inl (ground arith)
          | inr ((_, db), went) ↦ inr (record {
            row = o;
            found = found;
            cancellable = can;
            released = released;
            stock = ground arith;
            cancels =
                (let same : (cancel_found inventory env id o w).1.db ≡ db = ground arith in
                  rw same (cancel_tx-Cancels env id o w.db db went));
          })
        ]
      ]
    ]
  ]

  -- Whatever `Cancel` meets and answers, the tables are as they were, or hold the whole cancellation
  -- of an order whose reservation the inventory has released.
  pub cancel-cases :
      (env : Env) (id : ℕ) (w : World I)
      → ((cancel inventory env id w).1.db ≡ w.db) ⊎ Stores env id w (cancel inventory env id w).1
  unfolding cancel
  cancel-cases env id w = elim (Bool-cases (env.broken begin || env.broken read_order)) [
    | inl down ↦ inl (ground arith)
    | inr up ↦ elim (Option-cases (find (order_is id) w.db.orders)) [
      | inl absent ↦ inl (ground arith)
      | inr (o, found) ↦ rw (up, found) (found-cases env id o w found)
    ]
  ]

  -- `Cancel` keeps the histories of the orders paths of allowed steps.
  pub cancel-IsTraced :
      (env : Env) (id : ℕ) (w : World I) → IsTraced w.db → IsTraced (cancel inventory env id w).1.db
  cancel-IsTraced env id w h = elim (cancel-cases env id w) [
    | inl same ↦ rw same h
    | inr done ↦
        move-IsTraced id env.now cancelled done.row w.db (cancel inventory env id w).1.db done.found
          (cancel-allowed done.row.status done.cancellable) done.cancels.orders done.cancels.history
          h
  ]

  -- An order that is under way or delivered is not cancelled: the answer is a conflict, and neither
  -- the tables nor the inventory are touched.
  pub cancel_late :
      (env : Env) (id : ℕ) (o : Order) (w : World I)
      → env.broken begin ≡ false
      → env.broken read_order ≡ false
      → find (order_is id) w.db.orders ≡ some o
      → can_cancel o.status ≡ false
      → status_eq o.status cancelled ≡ false
      → cancel inventory env id w ≡ (err (error 409 "order_not_cancellable"), w)
  unfolding cancel cancel_found
  cancel_late env id o w up reads found late live = rw (up, reads, found, live, late)
