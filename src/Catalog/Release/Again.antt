-- ===== src/Catalog/Release/Again.antt =====
-- A released reservation: what a second `Store.Release` does, and what `Store.Reserve` answers for its
-- checkout attempt (services/catalog-service/internal/catalog/store.go).
use freshflow.Prelude.{
  ℕ, ◌+◌, ◌≡◌, refl, ap, ◌∙◌, true, false, none, some, List, [], ◌∷◌, find, exists, find-append,
  ==_refl, arith, Bool-cases, Option-cases, inl, inr, ok,
}
use freshflow.Catalog.Model.{
  ReserveRequest, ReservationResponse, Reservation, Catalog, Env, active, is_active, attempt_is,
  reservation_is,
}
use freshflow.Catalog.Stock.{stock, held_in, product_ids}
use freshflow.Catalog.Stock.Restore.{stock-restore_all}
use freshflow.Catalog.Invariant.{IsValid}
use freshflow.Catalog.Reserve.{reserve}
use freshflow.Catalog.Reserve.Inversion.{stored_row, is_taken, reserve-cases}
use freshflow.Catalog.Reserve.Conserves.{Reserves-Effect, reserve-IsValid}
use freshflow.Catalog.Reserve.Answer.{CanReplay, answered_row, replay_lem}
use freshflow.Catalog.Release.{release, release_row, release_found, restore_all}
use freshflow.Catalog.Release.Conserves.{mark, IsSound-find}

find-mark_id :
    (id : ℕ) (rs : List Reservation) (r : Reservation)
    → find (reservation_is id) rs ≡ some r
    → find (reservation_is id) (mark id rs) ≡ some (release_row r)
find-mark_id id [] r e = cc
find-mark_id id (q ∷ rs) r e = elim (Bool-cases (reservation_is id q)) [
  | inl same ↦
      rw (same, same) (let here : q ≡ r = ground arith in ap (λ x. some (release_row x)) here)
  | inr other ↦ rw (other, other) (find-mark_id id rs r (ground arith))
]

-- The row of an attempt keeps its response when a reservation is marked.
find-mark_attempt :
    (a id : ℕ) (rs : List Reservation) (r : Reservation)
    → find (attempt_is a) rs ≡ some r
    → (r' : Reservation) × (find (attempt_is a) (mark id rs) ≡ some r') × (r'.response ≡ r.response)
find-mark_attempt a id [] r e = absurd (cc e)
find-mark_attempt a id (q ∷ rs) r e = elim (Bool-cases (attempt_is a q)) [
  | inl same ↦
      let here : q ≡ r = ground arith in
      elim (Bool-cases (reservation_is id q)) [
        | inl marked ↦ (release_row q, rw (marked, same), ap (λ (x : Reservation). x.response) here)
        | inr other ↦ (q, rw (other, same), ap (λ (x : Reservation). x.response) here)
      ]
  | inr differs ↦
      let (r', found, stored) = find-mark_attempt a id rs r (ground arith) in
      (
        r',
        elim (Bool-cases (reservation_is id q)) [
          | inl marked ↦ rw (marked, differs) found
          | inr other ↦ rw (other, differs) found
        ],
        stored,
      )
]

release_live :
    (env : Env) (id : ℕ) (s : Catalog) (r : Reservation)
    → find (reservation_is id) s.reservations ≡ some r
    → is_active r.status ≡ true
    → (release env id s).0 ≡ ok tt
    → ((release env id s).1.products ≡ restore_all r.items s.products)
      × ((release env id s).1.reservations ≡ mark id s.reservations)
unfolding release release_found
release_live env id s r found live e = (ground arith, ground arith)

-- A release that goes through on an active reservation puts back what it held, of every product.
pub release_restores :
    (env : Env) (id : ℕ) (s : Catalog) (r : Reservation)
    → IsValid s
    → find (reservation_is id) s.reservations ≡ some r
    → is_active r.status ≡ true
    → (release env id s).0 ≡ ok tt
    → (k : ℕ) → stock k (release env id s).1.products ≡ stock k s.products + held_in k r.items
release_restores env id s r h found live e k =
    let gone = release_live env id s r found live e in
    let (unique, known) = IsSound-find (product_ids s.products) id s.reservations r h.sound found in
    rw gone.0 (stock-restore_all k r.items s.products unique known)

-- Once a release has gone through, another one of the same reservation changes nothing, whatever
-- it meets.
pub release_twice :
    (env env' : Env) (id : ℕ) (s : Catalog)
    → (release env id s).0 ≡ ok tt
    → (release env' id (release env id s).1).1 ≡ (release env id s).1
release_twice env env' id s e = elim (Option-cases (find (reservation_is id) s.reservations)) [
  | inl absent ↦ absurd (unfold release in ground arith)
  | inr (r, found) ↦ elim (Bool-cases (is_active r.status)) [
    | inl live ↦
        let gone = release_live env id s r found live e in
        release_over env' id (release env id s).1 (release_row r)
          (rw gone.1 (find-mark_id id s.reservations r found)) refl
    | inr over ↦
        let same : (release env id s).1 ≡ s = unfold release release_found in ground arith in
        rw same (release_over env' id s r found over)
  ]
]
  where
    release_over :
        (env : Env) (id : ℕ) (s : Catalog) (r : Reservation)
        → find (reservation_is id) s.reservations ≡ some r
        → is_active r.status ≡ false
        → (release env id s).1 ≡ s
    release_over env id s r found over = unfold release release_found in ground arith

no_id :
    (request : ReserveRequest) (answer : ReservationResponse) (rs : List Reservation)
    → is_taken request answer rs ≡ false
    → exists (reservation_is answer.reservation_id) rs ≡ false
no_id request answer [] h = refl
no_id request answer (r ∷ rs) h = ground (arith, no_id request answer rs)

-- A reservation that was made and then released answers a repeated checkout attempt as if it were
-- still active, although all its stock is back on the shelf: the stored response is not updated.
pub released_reservation_replays :
    (env env' env'' : Env) (request request' : ReserveRequest) (answer : ReservationResponse)
    (s : Catalog)
    → IsValid s
    → find (attempt_is request.checkout_attempt_id) s.reservations ≡ none
    → (reserve env request s).0 ≡ ok answer
    → answer.status ≡ active
    → (release env' answer.reservation_id (reserve env request s).1).0 ≡ ok tt
    → request'.checkout_attempt_id ≡ request.checkout_attempt_id
    → CanReplay env''
    → let s' = (release env' answer.reservation_id (reserve env request s).1).1 in
      (reserve env'' request' s' ≡ (ok answer, s'))
      × ((k : ℕ) → stock k s'.products ≡ stock k s.products)
released_reservation_replays env env' env'' request request' answer s h new e live gone same can =
    elim (reserve-cases env request answer s e) [
      | inl replayed ↦ absurd (cc (replayed.found, new))
      | inr made ↦
          let s1 = (reserve env request s).1 in
          let row = stored_row request answer made.held in
          let is_live : is_active answer.status ≡ true = rw live in
          let found : find (reservation_is answer.reservation_id) s1.reservations ≡ some row =
            rw made.row (
              find-append (reservation_is answer.reservation_id) s.reservations (row ∷ [])
                (no_id request answer s.reservations made.fresh)
              ∙ rw (==_refl answer.reservation_id)) in
          let freed = release_live env' answer.reservation_id s1 row found is_live gone in
          let (r, at_attempt, stored) = answered_row env request answer s e in
          let (r', still, kept) =
            find-mark_attempt request.checkout_attempt_id answer.reservation_id s1.reservations r
              at_attempt in
          let s2 = (release env' answer.reservation_id s1).1 in
          let effect = Reserves-Effect env request answer s s1 made in
          (
            replay_lem env'' request' r' s2 can (rw (same, freed.1) still) ∙ rw (kept, stored),
            λ k.
                release_restores env' answer.reservation_id s1 row (reserve-IsValid env request s h)
                  found is_live gone k
                ∙ ground (arith, effect.balance k),
          )
    ]
