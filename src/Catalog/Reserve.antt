-- ===== src/Catalog/Reserve.antt =====
-- `Store.Reserve` (services/catalog-service/internal/catalog/store.go): the whole transaction, and the
-- keys that it sets in Redis after the commit.
pub mod Inversion
pub mod Conserves
pub mod Answer
use freshflow.Prelude.{
  ℕ, ◌+◌, String, Bool, true, false, ◌||◌, none, some, [], ◌∷◌, ◌++◌, if◌then◌else◌, find, exists,
  Result, ok, err, Tx, pure, gets, modify, fail_if, or_fail, ◌>>=◌, ◌>>◌,
}
use freshflow.Platform.Events.{new_event}
use freshflow.Platform.Outbox
use freshflow.Catalog.Model.{
  ReserveRequest, Status, active, ReservationResponse, Payload, reservation_failed, reserved,
  Catalog, StoreError, begin, lock_attempt, find_existing, decode_existing, encode_response,
  insert_reservation, insert_event, commit, reservation_is, attempt_is, Env,
}
use freshflow.Catalog.Scan.{sort_items, Scan, no_scan, scan_items, decrement_all, insert_items}

abbrev pub failed_response : ℕ → Scan → ReservationResponse
failed_response uuid scan = record {
  reservation_id = uuid;
  status = Status.failed;
  items = [];
  shortages = scan.shortages;
  total_amount_minor = 0;
  currency = "";
  expires_at = none;
}

abbrev pub active_response : ℕ → ℕ → Scan → ReservationResponse
active_response uuid expires scan = record {
  reservation_id = uuid;
  status = active;
  items = scan.reserved;
  shortages = [];
  total_amount_minor = scan.total;
  currency = scan.currency;
  expires_at = some expires;
}

abbrev pub has_shortage : Scan → Bool
has_shortage scan = elim scan.shortages [ [] ↦ false | _ ∷ _ ↦ true ]

abbrev event_type_of : Status → String
event_type_of active = "inventory.reserved"
event_type_of _ = "inventory.reservation_failed"

abbrev payload_of : ReserveRequest → ReservationResponse → Status → Payload
payload_of request response active =
    reserved response.reservation_id request.checkout_attempt_id request.items response.expires_at
payload_of request response _ =
    reservation_failed request.checkout_attempt_id response.reservation_id response.shortages

-- INSERT of the reservation, whose id and checkout attempt are unique, and of its items.
store_reservation : Env → ReserveRequest → ReservationResponse → Tx Catalog StoreError (Unit {0})
store_reservation env request response = do
  fail_if (env.broken encode_response) StoreError.failed
  s ← gets (λ s. s)
  fail_if
      (env.broken insert_reservation
        || exists
            (λ r.
              reservation_is response.reservation_id r || attempt_is request.checkout_attempt_id r)
            s.reservations)
      StoreError.failed
  held ← or_fail (insert_items env.broken response.items []) StoreError.failed
  modify (λ s. record s {
    reservations =
        s.reservations
        ++ record {
          id = response.reservation_id;
          checkout_attempt_id = request.checkout_attempt_id;
          status = response.status;
          response = response;
          expires_at = response.expires_at;
          items = held;
        }
          ∷ [];
  })

publish_event : Env → ReserveRequest → ReservationResponse → Tx Catalog StoreError (Unit {0})
publish_event env request response = do
  envelope ←
      or_fail
        (new_event env.stamp (event_type_of response.status) "catalog-service"
          response.reservation_id (payload_of request response response.status))
        StoreError.failed
  s ← gets (λ s. s)
  rows ←
      or_fail
        (Outbox.insert (env.broken insert_event) "catalog" "freshflow.inventory.events.v1"
          response.reservation_id envelope s.outbox)
        StoreError.failed
  modify (λ s. record s { outbox = rows })

-- From the encoding of the response to the row of the outbox.
save : Env → ReserveRequest → ReservationResponse → Tx Catalog StoreError ReservationResponse
unfolding store_reservation publish_event
save env request response = do
  store_reservation env request response
  publish_event env request response
  pure response

-- The transaction once the loop is through: without a shortage the stock is taken first.
conclude : Env → ReserveRequest → ℕ → Scan → Tx Catalog StoreError ReservationResponse
unfolding save
conclude env request uuid scan s =
    if has_shortage scan
    then save env request (failed_response uuid scan) s
    else elim (decrement_all env.broken scan.reserved s.products) [
      | none ↦ err StoreError.failed
      | some products ↦
          save env request (active_response uuid (env.now + request.ttl_seconds) scan)
            (record s { products = products })
    ]

-- The reservation of an attempt that has none.
pub reserve_new : Env → ReserveRequest → Tx Catalog StoreError ReservationResponse
unfolding conclude
reserve_new env request s =
    elim (scan_items env.broken s.products (sort_items request.items) no_scan) [
      | err e ↦ err e
      | ok scan ↦ elim env.uuid [
        | none ↦ err StoreError.failed
        | some uuid ↦ conclude env request uuid scan s
      ]
    ]

abbrev pub cache_after : Env → ReservationResponse → ReserveRequest → Catalog → Catalog
cache_after env response request s = if env.redis_down then s else record s {
  products_cache = none;
  expiry_keys = elim response.expires_at [
    | none ↦ s.expiry_keys
    | some _ ↦ (response.reservation_id, request.checkout_attempt_id) ∷ s.expiry_keys
  ];
}

-- `Reserve`. An attempt that has a reservation gets its stored response, and nothing is written.
unfoldable pub reserve :
    Env → ReserveRequest → Catalog → Result StoreError ReservationResponse × Catalog
unfolding reserve_new
reserve env request s =
    if env.broken begin || env.broken lock_attempt || env.broken find_existing
    then (err StoreError.failed, s)
    else elim (find (attempt_is request.checkout_attempt_id) s.reservations) [
      | some r ↦ (if env.broken decode_existing then err StoreError.failed else ok r.response, s)
      | none ↦ elim (reserve_new env request s) [
        | err e ↦ (err e, s)
        | ok (response, s') ↦
            if env.broken commit
            then (err StoreError.failed, s)
            else (ok response, cache_after env response request s')
      ]
    ]
