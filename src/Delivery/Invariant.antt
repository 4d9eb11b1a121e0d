-- ===== src/Delivery/Invariant.antt =====
-- What holds of the couriers and the deliveries between two transactions
-- (services/delivery-service/internal/delivery, db/postgres/migrations).
use freshflow.Prelude.{
  ℕ, ◌≡◌, refl, sym, ◌∙◌, true, false, some, List, [], ◌∷◌, ◌++◌, ◌==◌, ==_refl, find, exists,
  update_where, arith, Bool-cases, inl, inr,
}
use freshflow.Delivery.Model.{
  CourierStatus, available, is_available, Courier, Delivery, Logistics, CourierLocation, courier_is,
  delivery_is, is_terminal,
}
use freshflow.Delivery.Events.{with_courier_status}
use freshflow.Delivery.Consume.{is_newer, place}
use freshflow.Delivery.Couriers.{
  busy, active, engages, HasDistinctIds, busy_most, busy-find_available, busy-update_ne,
  busy-assign, busy-free, busy-update_same,
}
use freshflow.Delivery.Active.{
  Keeps, active-append, active-update, HasDistinctIds-update, HasDistinctIds-append,
}

-- The ids of the deliveries differ, and a courier is marked as assigned exactly when one delivery of
-- theirs is live; no courier ever has two.
pub record Tallies (cs : List Courier) (ds : List Delivery) : Type 0 where
  pub distinct : HasDistinctIds ds
  pub tally : (k : ℕ) → busy k cs ≡ active k ds

abbrev pub IsValid : Logistics → Type 0
IsValid db = Tallies db.couriers db.deliveries

pub Tallies-assign :
    (cs : List Courier) (ds : List Delivery) (c : Courier) (d : Delivery)
    → find (courier_is d.courier_id) cs ≡ some c
    → is_available c.status ≡ true
    → exists (delivery_is d.id) ds ≡ false
    → is_terminal d.status ≡ false
    → Tallies cs ds
    → Tallies
        (update_where (courier_is d.courier_id) (with_courier_status CourierStatus.assigned) cs)
        (ds ++ d ∷ [])
Tallies-assign cs ds c d found idle fresh live h = record {
  distinct = HasDistinctIds-append ds d fresh h.distinct;
  tally = λ k. elim (Bool-cases (d.courier_id == k)) [
    | inr other ↦
        busy-update_ne k d.courier_id CourierStatus.assigned cs other
        ∙ h.tally k
        ∙ sym (active-append k ds (d ∷ []) ∙ rw other (omega arith))
    | inl here ↦
        let k_is : d.courier_id ≡ k = ground arith in
        rw (← k_is) (
          busy-assign d.courier_id cs c found
          ∙ sym (
              active-append d.courier_id ds (d ∷ [])
              ∙ rw (==_refl d.courier_id, live)
                  (omega (
                    arith,
                    h.tally d.courier_id,
                    busy-find_available d.courier_id cs c found idle,
                  ))))
  ];
}

pub Tallies-keep :
    (cs : List Courier) (ds : List Delivery) (id : ℕ) (f : Delivery → Delivery) (d : Delivery)
    → find (delivery_is id) ds ≡ some d
    → Keeps f
    → is_terminal (f d).status ≡ is_terminal d.status
    → Tallies cs ds
    → Tallies cs (update_where (delivery_is id) f ds)
unfolding Keeps
Tallies-keep cs ds id f d found keep same h = record {
  distinct = HasDistinctIds-update id f ds keep h.distinct;
  tally = λ k.
      let moved = active-update k id f ds d h.distinct found in
      let even : engages k (f d) ≡ engages k d = rw ((keep d).1, same) in
      h.tally k ∙ omega (arith, (let m = rw even at moved in m));
}

pub Tallies-finish :
    (cs : List Courier) (ds : List Delivery) (id : ℕ) (f : Delivery → Delivery) (d : Delivery)
    → find (delivery_is id) ds ≡ some d
    → Keeps f
    → is_terminal d.status ≡ false
    → is_terminal (f d).status ≡ true
    → Tallies cs ds
    → Tallies
        (update_where (courier_is d.courier_id) (with_courier_status available) cs)
        (update_where (delivery_is id) f ds)
unfolding Keeps
Tallies-finish cs ds id f d found keep live over h = record {
  distinct = HasDistinctIds-update id f ds keep h.distinct;
  tally = λ k.
      let moved = active-update k id f ds d h.distinct found in
      elim (Bool-cases (d.courier_id == k)) [
        | inr other ↦
            let before : engages k d ≡ false = rw other in
            let after : engages k (f d) ≡ false = rw ((keep d).1, other) in
            busy-update_ne k d.courier_id available cs other
            ∙ h.tally k
            ∙ omega (arith, (let m = rw (before, after) at moved in m))
        | inl here ↦
            let k_is : d.courier_id ≡ k = ground arith in
            let before : engages k d ≡ true = rw (here, live) in
            let after : engages k (f d) ≡ false = rw ((keep d).1, here, over) in
            let freed : busy k
                  (update_where (courier_is d.courier_id) (with_courier_status available) cs)
                ≡ 0 =
              rw k_is (busy-free k cs) in
            rw freed
              (omega (arith, (let m = rw (before, after) at moved in m), h.tally k, busy_most k cs))
      ];
}

-- A position that is stored leaves the counts.
pub Tallies-place :
    (cs : List Courier) (ds : List Delivery) (location : CourierLocation)
    → Tallies cs ds
    → Tallies (update_where (is_newer location) (place location) cs) ds
Tallies-place cs ds location h = record {
  distinct = h.distinct;
  tally = λ k.
      busy-update_same k (is_newer location) (place location) cs (λ c. (refl, refl)) ∙ h.tally k;
}
