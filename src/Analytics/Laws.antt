-- ===== src/Analytics/Laws.antt =====
-- The promises of the analytics worker (services/analytics-worker/internal/analytics/store.go, consumer.go).
use freshflow.Prelude.{
  ℕ, ◌≤◌, ◌≡◌, refl, String, Bool, true, false, ◌&&◌, Option, none, some, List, [], ◌∷◌, ◌++◌, leb,
  append_nil, Result, ok, err, Result-cases, Option-cases, Bool-cases, inl, inr, ◌⊎◌, arith,
}
use freshflow.Analytics.{
  Envelope, DeliveryFact, OrderFact, Projection, project, Facts, insert, handle, count_if,
  is_completed, is_on_time, is_recent, delivery_slo, add_order,
}

-- The rows of a fact, if there is one.
abbrev pub rows : {A : Type 0} → Option A → List A
rows none = []
rows (some a) = a ∷ []

-- What became of a record that decodes to this envelope.
pub data Projects (parse_uuid : String → Option ℕ) (now : ℕ) (e : Envelope) (db : Facts)
    : Result (Unit {0}) (Unit {0}) → Facts → Type 0 where
  rejected : Projects parse_uuid now e db (err tt) db
  half_written :
      {p : Projection}
      → {f : DeliveryFact} → project parse_uuid now e ≡ ok p
      → p.delivery ≡ some f
      → Projects parse_uuid now e db (err tt) (record db { deliveries = db.deliveries ++ f ∷ [] })
  written :
      {p : Projection}
      → {db' : Facts} → project parse_uuid now e ≡ ok p
      → db'.deliveries ≡ db.deliveries ++ rows p.delivery
      → db'.orders ≡ db.orders ++ rows p.order
      → Projects parse_uuid now e db (ok tt) db'

on_time_completed : (f : OrderFact) → is_on_time f ≡ true → is_completed f ≡ true
on_time_completed f h = ground arith

count_if_le :
    (p q : OrderFact → Bool) (fs : List OrderFact)
    → ((f : OrderFact) → p f ≡ true → q f ≡ true)
    → count_if p fs ≤ count_if q fs
unfolding count_if
count_if_le p q [] h = omega arith
count_if_le p q (f ∷ fs) h =
    let rest = count_if_le p q fs h in
    elim (Bool-cases (p f)) [
      | inl yes_p ↦ rw (yes_p, h f yes_p) (omega (arith, rest))
      | inr no_p ↦ elim (Bool-cases (q f)) [
        | inl yes_q ↦ rw (no_p, yes_q) (omega (arith, rest))
        | inr no_q ↦ rw (no_p, no_q) rest
      ]
    ]

-- The ratio of the deliveries on time is missing exactly where there is no sample, and is otherwise a
-- proper fraction: over the size of a sample that is not empty, and at most one.
pub delivery_slo_lem :
    (now : ℕ) (fs : List OrderFact)
    → (delivery_slo now fs ≡ (none, 0))
      ⊎ ((on_time : ℕ) × (completed : ℕ) × (delivery_slo now fs
            ≡ (some (on_time, completed), completed))
          × (on_time ≤ completed)
          × (1 ≤ completed))
unfolding delivery_slo
delivery_slo_lem now fs =
    let completed = count_if (λ f. is_recent now f && is_completed f) fs in
    let on_time = count_if (λ f. is_recent now f && is_on_time f) fs in
    let le : on_time ≤ completed =
      count_if_le (λ f. is_recent now f && is_on_time f) (λ f. is_recent now f && is_completed f) fs
        (λ f h. ground (arith, on_time_completed f)) in
    elim (Bool-cases (leb completed 0)) [
      | inl zero ↦ inl (rw zero refl)
      | inr some_sample ↦ inr (on_time, completed, rw some_sample refl, le, ground arith)
    ]

add_order_lem :
    (broken : Bool) (o : Option OrderFact) (db : Facts)
    → (add_order broken o db ≡ (err tt, db))
      ⊎ (add_order broken o db ≡ (ok tt, record db { orders = db.orders ++ rows o }))
add_order_lem broken none db = inr (ground (arith, append_nil db.orders))
add_order_lem true (some f) db = inl refl
add_order_lem false (some f) db = inr refl

-- A record that decodes is rejected and leaves the tables as they were, or it is written with every fact of
-- its projection, each to its table; or the fact of the delivery is written and the order's is not, and the
-- record fails, to be handled again.
pub handle-Projects :
    (parse_uuid : String → Option ℕ) (now : ℕ) (delivery_broken order_broken : Bool) (e : Envelope)
    (db : Facts)
    → Projects parse_uuid now e db
        (handle parse_uuid now delivery_broken order_broken (some e) db).0
        (handle parse_uuid now delivery_broken order_broken (some e) db).1
unfolding handle insert
handle-Projects parse_uuid now db_down od_down e db =
    elim (Result-cases (project parse_uuid now e)) [
      | inl (tt, refused) ↦ rw (handle, refused) rejected
      | inr (p, read) ↦ elim (Option-cases p.delivery) [
        | inl no_delivery ↦ elim (add_order_lem od_down p.order db) [
          | inl down ↦ rw (handle, read, no_delivery, down) rejected
          | inr went ↦
              rw (handle, read, no_delivery, went)
                (written read (rw no_delivery (append_nil db.deliveries)) refl)
        ]
        | inr (f, some_delivery) ↦ elim (Bool-cases db_down) [
          | inl down ↦ rw (handle, read, some_delivery, down) rejected
          | inr up ↦
              let mid = record db { deliveries = db.deliveries ++ f ∷ [] } in
              elim (add_order_lem od_down p.order mid) [
                | inl down ↦
                    rw (handle, read, some_delivery, up, down) (half_written read some_delivery)
                | inr went ↦
                    rw (handle, read, some_delivery, up, went)
                      (written read (rw some_delivery refl) refl)
              ]
        ]
      ]
    ]
