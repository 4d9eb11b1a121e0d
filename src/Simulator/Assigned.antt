-- ===== src/Simulator/Assigned.antt =====
-- The simulator reads the assignments of the delivery service
-- (services/delivery-service/internal/delivery/handler.go,
-- services/courier-simulator/internal/simulator/simulator.go).
use freshflow.Prelude.{
  ℕ, ◌+◌, ◌*◌, ◌≡◌, ◌≤◌, refl, sym, ◌∙◌, ap, true, false, ◌==◌, none, some, List, [], ◌∷◌, map,
  find, Bool-cases, Option-cases, inl, inr, arith, if◌then◌else◌, leb,
}
use mathlib.Core.Path.{subst}
use freshflow.Prelude.Sort.{sort_by, insert_by}
use freshflow.Delivery.Model.{Courier, Delivery, Logistics, courier_is, is_terminal}
use freshflow.Delivery.Couriers.{active, engages, busy_most}
use freshflow.Delivery.Invariant.{IsValid}
use freshflow.Delivery.Views.{View, view_of, live_views, assignments}
use freshflow.Simulator.{Assignment, assignment_of}

-- What the simulator decodes of a view.
abbrev pub assignment_read : View → Assignment
assignment_read v = record {
  id = v.delivery.id;
  courier_id = v.delivery.courier_id;
  pickup_latitude = v.delivery.pickup_latitude;
  pickup_longitude = v.delivery.pickup_longitude;
  destination_latitude = v.delivery.destination_latitude;
  destination_longitude = v.delivery.destination_longitude;
  assigned_at = v.delivery.assigned_at * 1000;
  simulation_delay_seconds = v.delivery.simulation_delay_seconds;
  correlation_id = v.delivery.correlation_id;
}

no_live :
    (k : ℕ) (db : Logistics) (ds : List Delivery)
    → active k ds ≡ 0
    → assignment_of k (map assignment_read (live_views db ds)) ≡ none
unfolding assignment_of live_views
no_live k db [] h = refl
no_live k db (d ∷ ds) h =
    let rest = no_live k db ds (ground arith) in
    elim (Bool-cases (is_terminal d.status)) [
      | inl over ↦ rw over rest
      | inr live ↦ elim (Option-cases (find (courier_is d.courier_id) db.couriers)) [
        | inl lost ↦ rw (live, lost) rest
        | inr (c, found) ↦
            let other : (d.courier_id == k) ≡ false = ground arith in
            rw (live, found, rest, other) refl
      ]
    ]

the_live :
    (k : ℕ) (db : Logistics) (ds : List Delivery) (d : Delivery) (c : Courier)
    → active k ds ≤ 1
    → find (engages k) ds ≡ some d
    → find (courier_is d.courier_id) db.couriers ≡ some c
    → assignment_of k (map assignment_read (live_views db ds))
      ≡ some (assignment_read (view_of d c))
unfolding assignment_of live_views
the_live k db [] d c one found there = absurd (ground arith)
the_live k db (e ∷ ds) d c one found there = elim (Bool-cases (engages k e)) [
  | inl here ↦
      let same : e ≡ d = ground arith in
      let alone = no_live k db ds (ground arith) in
      let live : is_terminal e.status ≡ false = ground arith in
      let mine : (e.courier_id == k) ≡ true = ground arith in
      let got : find (courier_is e.courier_id) db.couriers ≡ some c =
        subst (λ x. find (courier_is x.courier_id) db.couriers ≡ some c) (sym same) there in
      rw (live, got, alone, mine) (ap (λ x. some (assignment_read (view_of x c))) same)
  | inr apart ↦
      let rest = the_live k db ds d c (ground arith) (ground arith) there in
      elim (Bool-cases (is_terminal e.status)) [
        | inl over ↦ rw over rest
        | inr live ↦ elim (Option-cases (find (courier_is e.courier_id) db.couriers)) [
          | inl lost ↦ rw (live, lost) rest
          | inr (c', got) ↦ rw (live, got, rest) refl
        ]
      ]
]

module _ (key : Delivery → ℕ) (k : ℕ) where
  active-insert_by :
      (a : Delivery) (bs : List Delivery)
      → active k (insert_by key a bs) ≡ (if engages k a then 1 else 0) + active k bs
  unfolding insert_by
  active-insert_by a [] = refl
  active-insert_by a (b ∷ bs) = elim (Bool-cases (leb (key a) (key b))) [
    | inl before ↦ rw before refl
    | inr behind ↦ rw behind (omega (arith, active-insert_by a bs))
  ]

  active-sort_by : (ds : List Delivery) → active k (sort_by key ds) ≡ active k ds
  unfolding sort_by
  active-sort_by [] = refl
  active-sort_by (d ∷ ds) = omega (arith, active-insert_by d (sort_by key ds), active-sort_by ds)

  find-insert_by_other :
      (a : Delivery) (bs : List Delivery)
      → engages k a ≡ false
      → find (engages k) (insert_by key a bs) ≡ find (engages k) bs
  unfolding insert_by
  find-insert_by_other a [] other = rw other refl
  find-insert_by_other a (b ∷ bs) other = elim (Bool-cases (leb (key a) (key b))) [
    | inl before ↦ rw (before, other) refl
    | inr behind ↦ rw (behind, find-insert_by_other a bs other) refl
  ]

  find-insert_by_this :
      (a : Delivery) (bs : List Delivery)
      → engages k a ≡ true
      → active k bs ≡ 0
      → find (engages k) (insert_by key a bs) ≡ some a
  unfolding insert_by
  find-insert_by_this a [] this none_else = rw this refl
  find-insert_by_this a (b ∷ bs) this none_else = elim (Bool-cases (leb (key a) (key b))) [
    | inl before ↦ rw (before, this) refl
    | inr behind ↦
        let other : engages k b ≡ false = ground arith in
        rw (behind, other) (find-insert_by_this a bs this (ground arith))
  ]

  find-sort_by :
      (ds : List Delivery) (d : Delivery)
      → active k ds ≤ 1
      → find (engages k) ds ≡ some d
      → find (engages k) (sort_by key ds) ≡ some d
  unfolding sort_by
  find-sort_by [] d one found = absurd (ground arith)
  find-sort_by (e ∷ ds) d one found = elim (Bool-cases (engages k e)) [
    | inl this ↦
        let same : e ≡ d = ground arith in
        let rest : active k (sort_by key ds) ≡ 0 = ground (arith, active-sort_by ds) in
        find-insert_by_this e (sort_by key ds) this rest ∙ ap (λ x. some x) same
    | inr other ↦
        find-insert_by_other e (sort_by key ds) other
        ∙ find-sort_by ds d (ground arith) (ground arith)
  ]

-- In well-formed tables the simulator finds for a courier the live delivery that they carry, whichever other
-- deliveries there are and in whatever order they were assigned.
pub assignment_of-assignments :
    (db : Logistics) (k : ℕ) (d : Delivery) (c : Courier)
    → IsValid db
    → find (engages k) db.deliveries ≡ some d
    → find (courier_is d.courier_id) db.couriers ≡ some c
    → assignment_of k (map assignment_read (assignments db)) ≡ some (assignment_read (view_of d c))
unfolding assignments
assignment_of-assignments db k d c h found there =
    let key : Delivery → ℕ = λ d. d.assigned_at in
    let one : active k db.deliveries ≤ 1 = omega (arith, h.tally k, busy_most k db.couriers) in
    the_live k db (sort_by key db.deliveries) d c
      (omega (arith, one, active-sort_by key k db.deliveries))
      (find-sort_by key k db.deliveries d one found) there
