-- ===== src/Catalog/Reserve/Conserves.antt =====
-- Conservation of the stock and the invariant under `Store.Reserve`
-- (services/catalog-service/internal/catalog/store.go).
use mathlib.Core.Path.{subst}
use freshflow.Prelude.{
  ℕ, ◌+◌, ◌≡◌, refl, ap, ◌∙◌, sym, false, some, List, [], ◌∷◌, ◌++◌, if◌then◌else◌, exists-append,
  arith, Bool-cases, Result-cases, inl, inr, sum_where-append, All-append,
}
use freshflow.Catalog.Model.{
  is_active, ReservationItem, ReserveRequest, ReservationResponse, Reservation, Catalog, Env,
  reservation_is,
}
use freshflow.Catalog.Stock.{
  stock, held, held_in, held_items, product_ids, IsKnown, product_ids-decrement_all,
  stock-decrement_all, insert_items-eq, insert_items-IsUnique,
}
use freshflow.Catalog.Stock.Scanned.{scan_items-IsKnown}
use freshflow.Catalog.Invariant.{HasDistinctIds, IsSound, IsValid, conserved}
use freshflow.Catalog.Scan.{sort_items, no_scan, decrement_all}
use freshflow.Catalog.Reserve.{has_shortage, failed_response, active_response, reserve}
use freshflow.Catalog.Reserve.Inversion.{
  Reserves, stored_row, is_taken, reserve-cases, reserve_error_unchanged,
}

-- What a call that made a reservation did, by its answer: the stock and the items of the row.
pub record Effect (answer : ReservationResponse) (held : List ReservationItem) (s s' : Catalog)
    : Type 0 where
  pub ids : product_ids s'.products ≡ product_ids s.products
  pub known : IsKnown (product_ids s.products) held
  pub balance :
      (k : ℕ)
      → stock k s'.products + (if is_active answer.status then held_in k held else 0)
        ≡ stock k s.products

module _ (env : Env) (request : ReserveRequest) (answer : ReservationResponse)
    (s s' : Catalog) where
  pub Reserves-Effect : (p : Reserves env request answer s s') → Effect answer p.held s s'
  Reserves-Effect p =
      let scan = p.scan in
      let granted =
        scan_items-IsKnown env.broken s.products (sort_items request.items) no_scan scan p.scanned
          tt in
      let eq : p.held ≡ held_items answer.items =
        insert_items-eq env.broken answer.items [] p.held p.inserted in
      elim (Bool-cases (has_shortage scan)) [
        | inl short ↦
            let a : answer ≡ failed_response p.uuid scan = ground arith in
            let q : s'.products ≡ s.products = ground arith in
            let none_held : p.held ≡ [] = eq ∙ rw a in
            record { ids = rw q; known = rw none_held tt; balance = λ k. rw (a, q) (omega arith) }
        | inr enough ↦
            let a : answer ≡ active_response p.uuid (env.now + request.ttl_seconds) scan =
              ground arith in
            let took : decrement_all env.broken scan.reserved s.products ≡ some s'.products =
              ground arith in
            let all_held : p.held ≡ held_items scan.reserved = eq ∙ rw a in
            record {
              ids = product_ids-decrement_all env.broken scan.reserved s.products s'.products took;
              known = rw all_held granted;
              balance = λ k.
                  rw (a, all_held)
                    (stock-decrement_all env.broken k scan.reserved s.products s'.products took
                      granted);
            }
      ]

held-append :
    (k : ℕ) (rs : List Reservation) (r : Reservation)
    → held k (rs ++ r ∷ []) ≡ held k rs + (if is_active r.status then held_in k r.items else 0)
held-append k rs r =
    sum_where-append (λ r. is_active r.status) (λ r. held_in k r.items) rs (r ∷ []) ∙ omega arith

-- Whatever a call of `Reserve` meets and answers, the stock of every product together with what the
-- active reservations hold of it is what it was.
pub reserve-conserves :
    (env : Env) (request : ReserveRequest) (s : Catalog) (k : ℕ)
    → conserved k (reserve env request s).1 ≡ conserved k s
reserve-conserves env request s k = elim (Result-cases (reserve env request s).0) [
  | inl (x, e) ↦ ap (conserved k) (reserve_error_unchanged env request s e)
  | inr (answer, e) ↦ elim (reserve-cases env request answer s e) [
    | inl replayed ↦ ap (conserved k) replayed.unchanged
    | inr made ↦
        let effect = Reserves-Effect env request answer s (reserve env request s).1 made in
        rw made.row (
          omega (
            arith,
            effect.balance k,
            held-append k s.reservations (stored_row request answer made.held),
          ))
  ]
]

distinct-append :
    (request : ReserveRequest) (answer : ReservationResponse) (items : List ReservationItem)
    (rs : List Reservation)
    → is_taken request answer rs ≡ false
    → HasDistinctIds rs
    → HasDistinctIds (rs ++ stored_row request answer items ∷ [])
distinct-append request answer items [] e h = (refl, tt)
distinct-append request answer items (r ∷ rs) e h = (
  exists-append (reservation_is r.id) rs (stored_row request answer items ∷ []) ∙ ground arith,
  distinct-append request answer items rs (ground arith) h.1,
)

-- A call of `Reserve` keeps the tables valid, whatever it meets and answers.
pub reserve-IsValid :
    (env : Env) (request : ReserveRequest) (s : Catalog)
    → IsValid s
    → IsValid (reserve env request s).1
reserve-IsValid env request s h = elim (Result-cases (reserve env request s).0) [
  | inl (x, e) ↦ subst IsValid (sym (reserve_error_unchanged env request s e)) h
  | inr (answer, e) ↦ elim (reserve-cases env request answer s e) [
    | inl replayed ↦ subst IsValid (sym replayed.unchanged) h
    | inr made ↦
        let effect = Reserves-Effect env request answer s (reserve env request s).1 made in
        record {
          distinct =
              rw made.row
                (distinct-append request answer made.held s.reservations made.fresh h.distinct);
          sound =
              rw (made.row, effect.ids)
                (All-append (IsSound (product_ids s.products)) s.reservations
                  (stored_row request answer made.held ∷ []) h.sound
                  (
                    (
                      insert_items-IsUnique env.broken answer.items [] made.held made.inserted tt,
                      effect.known,
                    ),
                    tt,
                  ));
        }
  ]
]
