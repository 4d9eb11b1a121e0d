-- ===== src/Order/Consume/Handled.antt =====
-- What a call of `EventConsumer.handle` did, by its answer
-- (services/order-service/internal/order/consumer.go).
use mathlib.Core.Path.{subst}
use freshflow.Prelude.{
  ℕ, ◌≡◌, refl, sym, ◌∙◌, Bool, true, ◌==◌, ==_refl, Option, none, some, [], ◌∷◌, ◌++◌, find,
  exists, exists-append, arith, Bool-cases, Option-cases, Result-cases, inl, inr, ok, err, ◌⊎◌,
}
use freshflow.Order.Model.{Status, cancelled, Order, Orders, Env, order_is}
use freshflow.Order.Status.{valid_transition}
use freshflow.Order.Consume.{
  Incoming, Target, ignored, refused, target, target_of, advance, consume_tx, handle,
}
use freshflow.Order.Consume.Laws.{Moves, advance-cases}
use freshflow.Order.Trace.{
  valid-allowed, IsTraced, move-IsTraced, status_of, status_of-move, status_of-find,
}

abbrev pub is_processed : Incoming → Orders → Bool
is_processed event db = exists (λ e. e == event.event_id) db.processed

abbrev pub marked : Incoming → Orders → Orders
marked event db = record db { processed = db.processed ++ event.event_id ∷ [] }

-- An event that was taken: passed over; marked only, since its order is there already or cancelled;
-- or marked with the move of its order.
pub data Handles (now : ℕ) (event : Incoming) (db db' : Orders) : Type 0 where
  passed :
      (target_of event ≡ ignored) ⊎ (is_processed event db ≡ true)
      → db' ≡ db
      → Handles now event db db'
  settled :
      (new : Status) (o : Order)
      → target_of event ≡ target new
      → find (order_is event.aggregate_id) db.orders ≡ some o
      → (o.status ≡ new) ⊎ (o.status ≡ cancelled)
      → db' ≡ marked event db
      → Handles now event db db'
  moved :
      (new : Status) (o : Order)
      → target_of event ≡ target new
      → find (order_is event.aggregate_id) db.orders ≡ some o
      → Moves now event new o (marked event db) db'
      → Handles now event db db'

consume_tx-Handles :
    (env : Env) (event : Incoming) (new : Status) (db db' : Orders)
    → target_of event ≡ target new
    → consume_tx env event new db ≡ ok (tt, db')
    → Handles env.now event db db'
unfolding consume_tx
consume_tx-Handles env event new db db' aim e = elim (Bool-cases (is_processed event db)) [
  | inl seen ↦ passed (inr seen) (ground arith)
  | inr unseen ↦ elim (Option-cases (find (order_is event.aggregate_id) db.orders)) [
    | inl absent ↦ absurd (ground arith)
    | inr (o, found) ↦ elim (Result-cases (advance env event new o (marked event db))) [
      | inl (x, failed) ↦ absurd (ground arith)
      | inr ((_, last), went) ↦
          let same : last ≡ db' = ground arith in
          elim (advance-cases env event new o (marked event db) last went) [
            | inl (why, stays) ↦ settled new o aim found why (sym same ∙ stays)
            | inr m ↦
                moved new o aim found (subst (Moves env.now event new o (marked event db)) same m)
          ]
    ]
  ]
]

-- An event that is taken was passed over, or marked as processed with its order as it was, because the
-- order is there already or cancelled, or marked with the move of its order: by a valid transition,
-- logged in the history, and with its events in the outbox.
pub handle-Handles :
    (env : Env) (event : Incoming) (db : Orders)
    → (handle env (some event) db).0 ≡ ok tt
    → Handles env.now event db (handle env (some event) db).1
unfolding handle
handle-Handles env event db e = go (target_of event) refl
  where
    go :
        (t : Target) → target_of event ≡ t → Handles env.now event db (handle env (some event) db).1
    go ignored aim = passed (inl aim) (ground arith)
    go refused aim = absurd (ground arith)
    go (target new) aim = elim (Result-cases (consume_tx env event new db)) [
      | inl (x, failed) ↦ absurd (ground arith)
      | inr ((_, last), went) ↦
          let same : last ≡ (handle env (some event) db).1 = ground arith in
          subst (Handles env.now event db) same (consume_tx-Handles env event new db last aim went)
    ]

-- A record that is answered with an error leaves the tables as they were, so that it can be
-- delivered again.
pub handle_error_unchanged :
    (env : Env) (record_value : Option Incoming) (db : Orders)
    → (handle env record_value db).0 ≡ err tt
    → (handle env record_value db).1 ≡ db
unfolding handle
handle_error_unchanged env none db e = refl
handle_error_unchanged env (some event) db e = ground arith

is_processed-marked : (event : Incoming) (db : Orders) → is_processed event (marked event db) ≡ true
is_processed-marked event db =
    exists-append (λ e. e == event.event_id) db.processed (event.event_id ∷ [])
    ∙ ground (arith, ==_refl event.event_id)

processed_after :
    (now : ℕ) (event : Incoming) (db db' : Orders)
    → Handles now event db db'
    → (target_of event ≡ ignored) ⊎ (is_processed event db' ≡ true)
processed_after now event db db' (passed why same) = rw same why
processed_after now event db db' (settled new o aim found why same) =
    inr (rw same (is_processed-marked event db))
processed_after now event db db' (moved new o aim found m) =
    inr (rw m.processed (is_processed-marked event db))

handle_seen :
    (env : Env) (event : Incoming) (db : Orders)
    → (target_of event ≡ ignored) ⊎ (is_processed event db ≡ true)
    → (handle env (some event) db).1 ≡ db
unfolding handle consume_tx
handle_seen env event db (inl aim) = ground arith
handle_seen env event db (inr seen) = ground arith

-- Once an event has been handled, its second delivery changes nothing, whatever it meets.
pub handle_once :
    (env env' : Env) (event : Incoming) (db : Orders)
    → (handle env (some event) db).0 ≡ ok tt
    → (handle env' (some event) (handle env (some event) db).1).1 ≡ (handle env (some event) db).1
handle_once env env' event db e = handle_seen env' event (handle env (some event) db).1 (
    processed_after env.now event db (handle env (some event) db).1 (handle-Handles env event db e))

Handles-IsTraced :
    (now : ℕ) (event : Incoming) (db db' : Orders)
    → Handles now event db db'
    → IsTraced db
    → IsTraced db'
Handles-IsTraced now event db db' (passed why same) h = rw same h
Handles-IsTraced now event db db' (settled new o aim found why same) h = rw same h
Handles-IsTraced now event db db' (moved new o aim found m) h =
    move-IsTraced event.aggregate_id now new o (marked event db) db' found
      (valid-allowed o.status new m.valid) m.orders m.history h

-- Every record keeps the histories of the orders paths of allowed steps.
pub handle-IsTraced :
    (env : Env) (record_value : Option Incoming) (db : Orders)
    → IsTraced db
    → IsTraced (handle env record_value db).1
handle-IsTraced env none db h = rw (handle_error_unchanged env none db (unfold handle in refl)) h
handle-IsTraced env (some event) db h = elim (Result-cases (handle env (some event) db).0) [
  | inl (_, failed) ↦ rw (handle_error_unchanged env (some event) db failed) h
  | inr (_, done) ↦
      Handles-IsTraced env.now event db (handle env (some event) db).1
        (handle-Handles env event db done) h
]

-- A record moves the status of an order by a valid transition or not at all.
pub handle_steps :
    (env : Env) (record_value : Option Incoming) (db : Orders) (k : ℕ)
    → let db' = (handle env record_value db).1 in
      (status_of k db'.orders ≡ status_of k db.orders)
      ⊎ (valid_transition (status_of k db.orders) (status_of k db'.orders) ≡ true)
handle_steps env none db k = inl (rw (handle_error_unchanged env none db (unfold handle in refl)))
handle_steps env (some event) db k = elim (Result-cases (handle env (some event) db).0) [
  | inl (_, failed) ↦ inl (rw (handle_error_unchanged env (some event) db failed))
  | inr (_, done) ↦ go (handle-Handles env event db done)
]
  where
    go :
        Handles env.now event db (handle env (some event) db).1
        → (status_of k (handle env (some event) db).1.orders ≡ status_of k db.orders)
          ⊎ (valid_transition
                (status_of k db.orders)
                (status_of k (handle env (some event) db).1.orders)
              ≡ true)
    go (passed why same) = inl (rw same)
    go (settled new o aim found why same) = inl (rw same)
    go (moved new o aim found m) = elim (Bool-cases (event.aggregate_id == k)) [
      | inr other ↦
          inl (rw m.orders (status_of-move k event.aggregate_id new db.orders o found ∙ rw other))
      | inl here ↦
          let id : event.aggregate_id ≡ k = ground arith in
          let before : status_of k db.orders ≡ o.status =
            subst (λ x. status_of x db.orders ≡ o.status) id
              (status_of-find event.aggregate_id db.orders o found) in
          let after : status_of k (handle env (some event) db).1.orders ≡ new =
            rw (m.orders) (status_of-move k event.aggregate_id new db.orders o found ∙ rw here) in
          inr (rw (before, after) m.valid)
    ]
