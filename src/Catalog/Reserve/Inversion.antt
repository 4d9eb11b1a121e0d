-- ===== src/Catalog/Reserve/Inversion.antt =====
-- What a successful call of `Store.Reserve` has done (services/catalog-service/internal/catalog/store.go).
use mathlib.Core.Path.{subst}
use freshflow.Prelude.{
  ℕ, ◌+◌, ◌≡◌, ap, ◌⊎◌, ◌∙◌, sym, Bool, false, some, List, [], ◌∷◌, ◌++◌, if◌then◌else◌, find,
  exists, arith, Bool-cases, Option-cases, Result-cases, inl, inr, ◌||◌, ok, err,
}
use freshflow.Catalog.Model.{
  ReservationItem, ReserveRequest, ReservationResponse, Reservation, Catalog, StoreError, Env,
  reservation_is, attempt_is,
}
use freshflow.Catalog.Scan.{Scan, scan_items, sort_items, no_scan, decrement_all, insert_items}
use freshflow.Catalog.Reserve.{
  failed_response, active_response, has_shortage, store_reservation, publish_event, save, conclude,
  reserve_new, reserve, cache_after,
}

-- The row that a response is stored in.
abbrev pub stored_row : ReserveRequest → ReservationResponse → List ReservationItem → Reservation
stored_row request response held = record {
  id = response.reservation_id;
  checkout_attempt_id = request.checkout_attempt_id;
  status = response.status;
  response = response;
  expires_at = response.expires_at;
  items = held;
}

abbrev pub is_taken : ReserveRequest → ReservationResponse → List Reservation → Bool
is_taken request response rs =
    exists
      (λ r. reservation_is response.reservation_id r || attempt_is request.checkout_attempt_id r) rs

pub record Stores (env : Env) (request : ReserveRequest) (response : ReservationResponse)
    (s s' : Catalog) : Type 0 where
  pub held : List ReservationItem
  pub inserted : insert_items env.broken response.items [] ≡ some held
  pub fresh : is_taken request response s.reservations ≡ false
  pub kept : s'.products ≡ s.products
  pub row : s'.reservations ≡ s.reservations ++ stored_row request response held ∷ []

store_reservation-Stores :
    (env : Env) (request : ReserveRequest) (response : ReservationResponse) (s s' : Catalog)
    → store_reservation env request response s ≡ ok (tt, s')
    → Stores env request response s s'
unfolding store_reservation
store_reservation-Stores env request response s s' e =
    elim (Option-cases (insert_items env.broken response.items [])) [
      | inl refused ↦ absurd (ground arith)
      | inr (held, inserted) ↦ record {
        held = held;
        inserted = inserted;
        fresh = ground arith;
        kept = ground arith;
        row = ground arith;
      }
    ]

publish_event_keeps :
    (env : Env) (request : ReserveRequest) (response : ReservationResponse) (s s' : Catalog)
    → publish_event env request response s ≡ ok (tt, s')
    → (s'.products ≡ s.products) × (s'.reservations ≡ s.reservations)
unfolding publish_event
publish_event_keeps env request response s s' e = ground arith

save-Stores :
    (env : Env) (request : ReserveRequest) (response answer : ReservationResponse) (s s' : Catalog)
    → save env request response s ≡ ok (answer, s')
    → (answer ≡ response) × Stores env request response s s'
unfolding save
save-Stores env request response answer s s' e =
    elim (Result-cases (store_reservation env request response s)) [
      | inl (x, refused) ↦ absurd (ground arith)
      | inr ((_, mid), stored) ↦ elim (Result-cases (publish_event env request response mid)) [
        | inl (x, refused) ↦ absurd (ground arith)
        | inr ((_, last), published) ↦
            let q : (answer ≡ response) × (last ≡ s') = ground arith in
            let st = store_reservation-Stores env request response s mid stored in
            let keep = publish_event_keeps env request response mid last published in
            (
              q.0,
              record {
                held = st.held;
                inserted = st.inserted;
                fresh = st.fresh;
                kept = ap (λ (c : Catalog). c.products) (sym q.1) ∙ keep.0 ∙ st.kept;
                row = ap (λ (c : Catalog). c.reservations) (sym q.1) ∙ keep.1 ∙ st.row;
              },
            )
      ]
    ]

abbrev pub answer_of : Env → ReserveRequest → ℕ → Scan → ReservationResponse
answer_of env request uuid scan =
    if has_shortage scan
    then failed_response uuid scan
    else active_response uuid (env.now + request.ttl_seconds) scan

-- A call that made a reservation: the loop over the items, the answer, what was taken and the row.
pub record Reserves (env : Env) (request : ReserveRequest) (answer : ReservationResponse)
    (s s' : Catalog) : Type 0 where
  pub scan : Scan
  pub uuid : ℕ
  pub scanned : scan_items env.broken s.products (sort_items request.items) no_scan ≡ ok scan
  pub answered : answer ≡ answer_of env request uuid scan
  pub taken :
      (if has_shortage scan
        then some s.products
        else decrement_all env.broken scan.reserved s.products)
      ≡ some s'.products
  pub held : List ReservationItem
  pub inserted : insert_items env.broken answer.items [] ≡ some held
  pub fresh : is_taken request answer s.reservations ≡ false
  pub row : s'.reservations ≡ s.reservations ++ stored_row request answer held ∷ []

conclude-Reserves :
    (env : Env) (request : ReserveRequest) (answer : ReservationResponse) (uuid : ℕ) (scan : Scan)
    (s s' : Catalog)
    → scan_items env.broken s.products (sort_items request.items) no_scan ≡ ok scan
    → conclude env request uuid scan s ≡ ok (answer, s')
    → Reserves env request answer s s'
unfolding conclude
conclude-Reserves env request answer uuid scan s s' scanned e =
    elim (Bool-cases (has_shortage scan)) [
      | inl short ↦
          let (same, st) =
            save-Stores env request (failed_response uuid scan) answer s s' (rw short at e) in
          record {
            scan = scan;
            uuid = uuid;
            scanned = scanned;
            answered = same ∙ rw short;
            taken = rw (short, st.kept);
            held = st.held;
            inserted = rw same st.inserted;
            fresh = rw same st.fresh;
            row = rw same st.row;
          }
      | inr enough ↦ elim (Option-cases (decrement_all env.broken scan.reserved s.products)) [
        | inl refused ↦ absurd (ground arith)
        | inr (products, took) ↦
            let response = active_response uuid (env.now + request.ttl_seconds) scan in
            let (same, st) =
              save-Stores env request response answer (record s { products = products }) s'
                (ground arith) in
            record {
              scan = scan;
              uuid = uuid;
              scanned = scanned;
              answered = same ∙ rw enough;
              taken = rw (enough, st.kept) took;
              held = st.held;
              inserted = rw same st.inserted;
              fresh = rw same st.fresh;
              row = rw same st.row;
            }
      ]
    ]

reserve_new-Reserves :
    (env : Env) (request : ReserveRequest) (answer : ReservationResponse) (s s' : Catalog)
    → reserve_new env request s ≡ ok (answer, s')
    → Reserves env request answer s s'
unfolding reserve_new
reserve_new-Reserves env request answer s s' e =
    elim (Result-cases (scan_items env.broken s.products (sort_items request.items) no_scan)) [
      | inl (x, refused) ↦ absurd (ground arith)
      | inr (scan, scanned) ↦ elim (Option-cases env.uuid) [
        | inl undrawn ↦ absurd (ground arith)
        | inr (uuid, drawn) ↦
            conclude-Reserves env request answer uuid scan s s' scanned (ground arith)
      ]
    ]

cache_after_keeps :
    (env : Env) (answer : ReservationResponse) (request : ReserveRequest) (s : Catalog)
    → ((cache_after env answer request s).products ≡ s.products)
      × ((cache_after env answer request s).reservations ≡ s.reservations)
cache_after_keeps env answer request s = ground arith

keep_rest :
    (env : Env) (request : ReserveRequest) (answer : ReservationResponse) (s s' t : Catalog)
    → Reserves env request answer s s'
    → t.products ≡ s'.products
    → t.reservations ≡ s'.reservations
    → Reserves env request answer s t
keep_rest env request answer s s' t p same_products same_rows = record {
  scan = p.scan;
  uuid = p.uuid;
  scanned = p.scanned;
  answered = p.answered;
  taken = p.taken ∙ ap some (sym same_products);
  held = p.held;
  inserted = p.inserted;
  fresh = p.fresh;
  row = same_rows ∙ p.row;
}

-- The reservation that the attempt has already.
pub record Replays (request : ReserveRequest) (answer : ReservationResponse) (s s' : Catalog)
    : Type 0 where
  pub row : Reservation
  pub found : find (attempt_is request.checkout_attempt_id) s.reservations ≡ some row
  pub answered : answer ≡ row.response
  pub unchanged : s' ≡ s

-- A call that answers has replayed a stored response or made a reservation.
pub reserve-cases :
    (env : Env) (request : ReserveRequest) (answer : ReservationResponse) (s : Catalog)
    → (reserve env request s).0 ≡ ok answer
    → Replays request answer s (reserve env request s).1
      ⊎ Reserves env request answer s (reserve env request s).1
unfolding reserve
reserve-cases env request answer s e =
    elim (Option-cases (find (attempt_is request.checkout_attempt_id) s.reservations)) [
      | inr (r, found) ↦
          inl (record { row = r; found = found; answered = ground arith; unchanged = ground arith })
      | inl absent ↦ elim (Result-cases (reserve_new env request s)) [
        | inl (x, refused) ↦ absurd (ground arith)
        | inr ((response, s'), made) ↦
            let same : response ≡ answer = ground arith in
            let p = reserve_new-Reserves env request response s s' made in
            let keep = cache_after_keeps env response request s' in
            let after : (reserve env request s).1 ≡ cache_after env response request s' =
              ground arith in
            inr (
              subst (λ a. Reserves env request a s (reserve env request s).1) same
                (keep_rest env request response s s' (reserve env request s).1 p
                  (ap (λ (c : Catalog). c.products) after ∙ keep.0)
                  (ap (λ (c : Catalog). c.reservations) after ∙ keep.1)))
      ]
    ]

-- A call that fails leaves every table as it was.
pub reserve_error_unchanged :
    (env : Env) (request : ReserveRequest) {x : StoreError} (s : Catalog)
    → (reserve env request s).0 ≡ err x
    → (reserve env request s).1 ≡ s
unfolding reserve
reserve_error_unchanged env request s e = ground arith
