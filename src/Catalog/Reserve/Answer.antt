-- ===== src/Catalog/Reserve/Answer.antt =====
-- The answers of `Store.Reserve`, and what a repeated call answers
-- (services/catalog-service/internal/catalog/store.go).
use freshflow.Prelude.{
  ℕ, ◌+◌, ◌%◌, ◌^◌, ◌≡◌, refl, ap, ◌∙◌, sym, true, false, none, some, List, [], ◌∷◌, find, exists,
  find-append, ==_refl, arith, Bool-cases, inl, inr, ok, ◌⊎◌,
}
use freshflow.Catalog.Model.{
  ReserveRequest, ReservationResponse, Reservation, Catalog, Env, Status, active, is_active,
  attempt_is, begin, lock_attempt, find_existing, decode_existing,
}
use freshflow.Catalog.Stock.{held_items, stock, held_in, insert_items-eq}
use freshflow.Catalog.Scan.{Scan, sort_items, no_scan}
use freshflow.Catalog.Pricing.{cost, scan_items_exact}
use freshflow.Catalog.Reserve.{has_shortage, failed_response, active_response, reserve}
use freshflow.Catalog.Reserve.Inversion.{stored_row, is_taken, reserve-cases}
use freshflow.Catalog.Reserve.Conserves.{Reserves-Effect}

-- The request was granted: what the answer lists is what was asked, in the order of the products;
-- the total is the price of it as an int64, and each product lost what the answer holds of it.
pub record Granted (request : ReserveRequest) (answer : ReservationResponse) (s s' : Catalog)
    : Type 0 where
  pub status : answer.status ≡ active
  pub items : held_items answer.items ≡ sort_items request.items
  pub total : answer.total_amount_minor ≡ cost answer.items % 2 ^ 64
  pub taken :
      (k : ℕ) → stock k s'.products + held_in k (held_items answer.items) ≡ stock k s.products

-- The request was refused: some item fell short, and the products are as they were.
pub record Refused (answer : ReservationResponse) (s s' : Catalog) : Type 0 where
  pub status : answer.status ≡ Status.failed
  pub shortages : (answer.shortages ≡ []) → ⊥
  pub items : answer.items ≡ []
  pub untouched : s'.products ≡ s.products

no_shortage : (scan : Scan) → scan.shortages ≡ [] → has_shortage scan ≡ false
no_shortage scan e = rw e

-- `Reserve` is all or nothing: when it answers for a checkout attempt that has no reservation, the
-- request is granted as a whole or refused as a whole.
pub reserve_all_or_nothing :
    (env : Env) (request : ReserveRequest) (answer : ReservationResponse) (s : Catalog)
    → find (attempt_is request.checkout_attempt_id) s.reservations ≡ none
    → (reserve env request s).0 ≡ ok answer
    → Granted request answer s (reserve env request s).1
      ⊎ Refused answer s (reserve env request s).1
reserve_all_or_nothing env request answer s new e = elim (reserve-cases env request answer s e) [
  | inl replayed ↦ absurd (cc (replayed.found, new))
  | inr made ↦
      let s' = (reserve env request s).1 in
      let effect = Reserves-Effect env request answer s s' made in
      elim (Bool-cases (has_shortage made.scan)) [
        | inl short ↦
            let a : answer ≡ failed_response made.uuid made.scan = ground arith in
            inr (record {
              status = rw a;
              shortages = λ nil. cc (no_shortage made.scan (rw a at nil), short);
              items = rw a;
              untouched = ground arith;
            })
        | inr enough ↦
            let a : answer ≡ active_response made.uuid (env.now + request.ttl_seconds) made.scan =
              ground arith in
            let exact =
              scan_items_exact env.broken s.products (sort_items request.items) no_scan made.scan
                made.scanned enough refl in
            let eq = insert_items-eq env.broken answer.items [] made.held made.inserted in
            let live : is_active answer.status ≡ true = rw a in
            inl (record {
              status = rw a;
              items = rw a exact.0;
              total = rw a exact.1;
              taken = λ k. rw (← eq) (ground (arith, effect.balance k));
            })
      ]
]

-- The calls before the stored response is handed out go through.
pub record CanReplay (env : Env) : Type 0 where
  pub begins : env.broken begin ≡ false
  pub locks : env.broken lock_attempt ≡ false
  pub finds : env.broken find_existing ≡ false
  pub decodes : env.broken decode_existing ≡ false

pub replay_lem :
    (env : Env) (request : ReserveRequest) (r : Reservation) (s : Catalog)
    → CanReplay env
    → find (attempt_is request.checkout_attempt_id) s.reservations ≡ some r
    → reserve env request s ≡ (ok r.response, s)
unfolding reserve
replay_lem env request r s can e = ground arith

no_attempt :
    (request : ReserveRequest) (answer : ReservationResponse) (rs : List Reservation)
    → is_taken request answer rs ≡ false
    → exists (attempt_is request.checkout_attempt_id) rs ≡ false
no_attempt request answer [] h = refl
no_attempt request answer (r ∷ rs) h = ground (arith, no_attempt request answer rs)

-- After an answer, the attempt has a row with that answer as its response.
pub answered_row :
    (env : Env) (request : ReserveRequest) (answer : ReservationResponse) (s : Catalog)
    → (reserve env request s).0 ≡ ok answer
    → (r : Reservation) × (find
          (attempt_is request.checkout_attempt_id)
          (reserve env request s).1.reservations
        ≡ some r)
      × (r.response ≡ answer)
answered_row env request answer s e = elim (reserve-cases env request answer s e) [
  | inl replayed ↦ (
    replayed.row,
    ap (λ (c : Catalog). find (attempt_is request.checkout_attempt_id) c.reservations)
          replayed.unchanged
        ∙ replayed.found,
    sym replayed.answered,
  )
  | inr made ↦ (
    stored_row request answer made.held,
    rw made.row (
        find-append (attempt_is request.checkout_attempt_id) s.reservations
          (stored_row request answer made.held ∷ [])
          (no_attempt request answer s.reservations made.fresh)
        ∙ rw (==_refl request.checkout_attempt_id)),
    refl,
  )
]

-- A repeated call for the same checkout attempt gives the first answer again and writes nothing,
-- whatever items and time to live it asks for.
pub reserve_again :
    (env env' : Env) (request request' : ReserveRequest) (answer : ReservationResponse)
    (s : Catalog)
    → (reserve env request s).0 ≡ ok answer
    → request'.checkout_attempt_id ≡ request.checkout_attempt_id
    → CanReplay env'
    → reserve env' request' (reserve env request s).1 ≡ (ok answer, (reserve env request s).1)
reserve_again env env' request request' answer s e same can =
    let (r, found, stored) = answered_row env request answer s e in
    replay_lem env' request' r (reserve env request s).1 can (rw same found) ∙ rw stored
