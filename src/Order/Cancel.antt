-- ===== src/Order/Cancel.antt =====
-- `Service.Get` and `Service.Cancel` (services/order-service/internal/order/service.go): the saga that
-- releases the reservation while the order's row is locked, and then stores the cancellation with
-- its two events.
pub mod Laws
use freshflow.Prelude.{
  ℕ, String, Bool, ◌||◌, not, Option, none, some, map, [], ◌∷◌, ◌++◌, if◌then◌else◌, find,
  update_where, Result, ok, err, Tx, gets, modify, fail_if, or_fail, ◌>>=◌, ◌>>◌,
}
use freshflow.Prelude.Sort.{sort_by}
use freshflow.Platform.Http.{ApiError, error, internal_error}
use freshflow.Platform.Events.{Stamp, new_event}
use freshflow.Platform.Outbox
use freshflow.Order.Model.{
  ReservedItem, Status, cancelled, Order, Payload, order_cancelled, status_changed, Orders,
  Inventory, World, begin, read_order, update_order, insert_history, insert_event, insert_changed,
  commit, read_back, order_is, Env,
}
use freshflow.Order.Status.{status_eq, can_cancel}

-- One item of `Get`: it takes the currency of the order.
abbrev with_currency : String → ReservedItem → ReservedItem
with_currency c i = record i { currency = c }

-- The order as `Get` reads it back: the items by product.
abbrev pub read_view : Order → Order
read_view o = record o {
  items = map (with_currency o.currency) (sort_by (λ i. i.product_id) o.items);
}

-- `Get`; `none` is pgx.ErrNoRows.
unfoldable pub get : ℕ → Orders → Option Order
get id db = elim (find (order_is id) db.orders) [ none ↦ none | some o ↦ some (read_view o) ]

-- UPDATE of the status.
abbrev pub set_status : Status → Order → Order
set_status s o = record o { status = s }

abbrev pub move : ℕ → Status → Orders → Orders
move id s db = record db { orders = update_where (order_is id) (set_status s) db.orders }

abbrev pub log_change : ℕ → Status → Status → ℕ → Orders → Orders
log_change id previous new now db = record db {
  history =
      db.history
      ++ record { order_id = id; previous_status = previous; new_status = new; changed_at = now }
        ∷ [];
}

-- `events.New` and `outbox.Insert` of one event of an order.
unfoldable pub emit : Stamp → Bool → String → ℕ → Payload → Tx Orders (Unit {0}) (Unit {0})
emit stamp broken event_type id payload = do
  envelope ← or_fail (new_event stamp event_type "order-service" id payload) tt
  db ← gets (λ db. db)
  rows ←
      or_fail (Outbox.insert broken "orders" "freshflow.order.events.v1" id envelope db.outbox) tt
  modify (λ db. record db { outbox = rows })

-- From the UPDATE to the COMMIT.
pub cancel_tx : Env → ℕ → Status → Tx Orders (Unit {0}) (Unit {0})
unfolding emit
cancel_tx env id current = do
  fail_if (env.broken update_order) tt
  modify (move id cancelled)
  fail_if (env.broken insert_history) tt
  modify (log_change id current cancelled env.now)
  emit env.stamp (env.broken insert_event) "order.cancelled" id (order_cancelled id current env.now)
  emit env.changed_stamp (env.broken insert_changed) "order.status_changed" id
      (status_changed id current cancelled env.now)
  fail_if (env.broken commit) tt

-- The order as it is read after the commit.
abbrev pub answer : Env → ℕ → Orders → Result ApiError Order
answer env id db =
    if env.broken read_back
    then err internal_error
    else elim (get id db) [ none ↦ err internal_error | some o ↦ ok o ]

module _ {I : Type 0} (inventory : Inventory I) where
  unfoldable pub cancel_found : Env → ℕ → Order → World I → Result ApiError Order × World I
  unfolding cancel_tx
  cancel_found env id o w =
      if status_eq o.status cancelled
      then (if env.broken commit then err internal_error else answer env id w.db, w)
      else if not (can_cancel o.status)
      then (err (error 409 "order_not_cancellable"), w)
      else (let (released, stock) = inventory.release o.reservation_id w.inventory in
          elim released [
            | err _ ↦ (err (error 503 "inventory_release_failed"), record w { inventory = stock })
            | ok _ ↦ elim (cancel_tx env id o.status w.db) [
              | err _ ↦ (err internal_error, record w { inventory = stock })
              | ok (_, db) ↦ (answer env id db, record { db = db; inventory = stock })
            ]
          ])

  -- `Cancel`
  unfoldable pub cancel : Env → ℕ → World I → Result ApiError Order × World I
  unfolding cancel_found
  cancel env id w =
      if env.broken begin || env.broken read_order
      then (err internal_error, w)
      else elim (find (order_is id) w.db.orders) [
        | none ↦ (err (error 404 "order_not_found"), w)
        | some o ↦ cancel_found env id o w
      ]
