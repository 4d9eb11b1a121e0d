-- ===== src/Delivery/Active.antt =====
-- How an UPDATE of a delivery moves the count of the live ones (db/postgres/migrations:
-- delivery.deliveries).
use mathlib.Core.Path.{subst}
use freshflow.Prelude.{
  ℕ, ◌+◌, ◌≡◌, refl, ◌∙◌, Bool, false, some, List, [], ◌∷◌, ◌++◌, if◌then◌else◌, find, exists,
  exists-append, update_where, arith, Bool-cases, inl, inr,
}
use freshflow.Delivery.Model.{Delivery, delivery_is}
use freshflow.Delivery.Couriers.{active, engages, HasDistinctIds}

pub active-append :
    (k : ℕ) (ds es : List Delivery) → active k (ds ++ es) ≡ active k ds + active k es
active-append k [] es = omega arith
active-append k (d ∷ ds) es = omega (arith, active-append k ds es)

-- An UPDATE that keeps the id and the courier of a delivery.
unfoldable pub Keeps : (Delivery → Delivery) → Type 0
Keeps f = (d : Delivery) → ((f d).id ≡ d.id) × ((f d).courier_id ≡ d.courier_id)

absent-update :
    (id : ℕ) (f : Delivery → Delivery) (k : ℕ) (ds : List Delivery)
    → exists (delivery_is id) ds ≡ false
    → active k (update_where (delivery_is id) f ds) ≡ active k ds
absent-update id f k [] h = refl
absent-update id f k (d ∷ ds) h = elim (Bool-cases (delivery_is id d)) [
  | inl here ↦ absurd (ground arith)
  | inr other ↦ rw other (rw (absent-update id f k ds (ground arith)))
]

exists-update :
    (j id : ℕ) (f : Delivery → Delivery) (ds : List Delivery)
    → Keeps f
    → exists (delivery_is j) (update_where (delivery_is id) f ds) ≡ exists (delivery_is j) ds
unfolding Keeps
exists-update j id f [] keep = refl
exists-update j id f (d ∷ ds) keep = elim (Bool-cases (delivery_is id d)) [
  | inl here ↦ rw here (rw ((keep d).0, exists-update j id f ds keep))
  | inr other ↦ rw other (rw (exists-update j id f ds keep))
]

pub HasDistinctIds-update :
    (id : ℕ) (f : Delivery → Delivery) (ds : List Delivery)
    → Keeps f
    → HasDistinctIds ds
    → HasDistinctIds (update_where (delivery_is id) f ds)
unfolding Keeps
HasDistinctIds-update id f [] keep h = tt
HasDistinctIds-update id f (d ∷ ds) keep h = elim (Bool-cases (delivery_is id d)) [
  | inl here ↦ rw here (
    rw ((keep d).0) (exists-update d.id id f ds keep ∙ h.0),
    HasDistinctIds-update id f ds keep h.1,
  )
  | inr other ↦
      rw other (exists-update d.id id f ds keep ∙ h.0, HasDistinctIds-update id f ds keep h.1)
]

pub HasDistinctIds-append :
    (ds : List Delivery) (d : Delivery)
    → exists (delivery_is d.id) ds ≡ false
    → HasDistinctIds ds
    → HasDistinctIds (ds ++ d ∷ [])
HasDistinctIds-append [] d fresh h = (refl, tt)
HasDistinctIds-append (q ∷ ds) d fresh h = (
  exists-append (delivery_is q.id) ds (d ∷ []) ∙ ground arith,
  HasDistinctIds-append ds d (ground arith) h.1,
)

-- What the UPDATE of a row adds and takes away.
pub active-update :
    (k id : ℕ) (f : Delivery → Delivery) (ds : List Delivery) (d : Delivery)
    → HasDistinctIds ds
    → find (delivery_is id) ds ≡ some d
    → active k (update_where (delivery_is id) f ds) + (if engages k d then 1 else 0)
      ≡ active k ds + (if engages k (f d) then 1 else 0)
active-update k id f [] d h e = cc
active-update k id f (q ∷ ds) d h e = elim (Bool-cases (delivery_is id q)) [
  | inl here ↦
      let is : q ≡ d = ground arith in
      let its_id : q.id ≡ id = ground arith in
      let alone =
        absent-update id f k ds (subst (λ j. exists (delivery_is j) ds ≡ false) its_id h.0) in
      rw here (rw (alone, is) (omega arith))
  | inr other ↦ rw other (omega (arith, active-update k id f ds d h.1 (ground arith)))
]

-- A row that is found by its order is the one that its id finds.
pub find-own :
    (p : Delivery → Bool) (ds : List Delivery) (d : Delivery)
    → HasDistinctIds ds
    → find p ds ≡ some d
    → find (delivery_is d.id) ds ≡ some d
find-own p [] d h e = cc
find-own p (q ∷ ds) d h e = elim (Bool-cases (p q)) [
  | inl met ↦ (let is : q ≡ d = ground arith in rw (← is) (ground arith))
  | inr unmet ↦ elim (Bool-cases (delivery_is d.id q)) [
    | inr other ↦ rw other (find-own p ds d h.1 (ground arith))
    | inl same ↦ absurd (clash p ds d q.id h.0 (ground arith) (ground arith))
  ]
]
  where
    clash :
        (p : Delivery → Bool) (ds : List Delivery) (d : Delivery) (j : ℕ)
        → exists (delivery_is j) ds ≡ false
        → find p ds ≡ some d
        → j ≡ d.id
        → ⊥
    clash p [] d j absent found eq = cc
    clash p (q ∷ ds) d j absent found eq = elim (Bool-cases (p q)) [
      | inl met ↦ (let is : q ≡ d = ground arith in ground arith)
      | inr unmet ↦ clash p ds d j (ground arith) (ground arith) eq
    ]
