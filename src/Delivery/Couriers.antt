-- ===== src/Delivery/Couriers.antt =====
-- Couriers at work and live deliveries, counted (db/postgres/migrations: delivery.couriers,
-- delivery.deliveries).
use freshflow.Prelude.{
  ℕ, ◌+◌, ◌≡◌, ◌≤◌, refl, Bool, true, false, not, ◌&&◌, some, List, [], ◌∷◌, ◌==◌, if◌then◌else◌,
  find, exists, update_where, arith, Bool-cases, inl, inr,
}
use freshflow.Delivery.Model.{
  CourierStatus, available, offline, is_available, Courier, Delivery, courier_is, delivery_is,
  is_terminal,
}
use freshflow.Delivery.Events.{with_courier_status}

abbrev pub is_assigned : CourierStatus → Bool
is_assigned available = false
is_assigned CourierStatus.assigned = true
is_assigned offline = false

-- 1 for a courier whose row says that they are assigned.
abbrev pub busy : ℕ → List Courier → ℕ
busy k [] = 0
busy k (c ∷ cs) = if courier_is k c then (if is_assigned c.status then 1 else 0) else busy k cs

-- Whether a delivery keeps the courier at work.
abbrev pub engages : ℕ → Delivery → Bool
engages k d = d.courier_id == k && not (is_terminal d.status)

-- The live deliveries of a courier.
abbrev pub active : ℕ → List Delivery → ℕ
active k [] = 0
active k (d ∷ ds) = (if engages k d then 1 else 0) + active k ds

-- No two deliveries share an id.
abbrev pub HasDistinctIds : List Delivery → Type 0
HasDistinctIds [] = Unit
HasDistinctIds (d ∷ ds) = (exists (delivery_is d.id) ds ≡ false) × HasDistinctIds ds

pub busy_most : (k : ℕ) (cs : List Courier) → busy k cs ≤ 1
busy_most k [] = omega arith
busy_most k (c ∷ cs) = ground (arith, busy_most k cs)

unassigned : (s : CourierStatus) → is_available s ≡ true → is_assigned s ≡ false
unassigned available h = refl
unassigned CourierStatus.assigned h = cc
unassigned offline h = refl

pub busy-find_available :
    (k : ℕ) (cs : List Courier) (c : Courier)
    → find (courier_is k) cs ≡ some c
    → is_available c.status ≡ true
    → busy k cs ≡ 0
busy-find_available k [] c e h = refl
busy-find_available k (q ∷ cs) c e h = elim (Bool-cases (courier_is k q)) [
  | inl same ↦
      let q_is : q ≡ c = ground arith in
      let idle : is_available q.status ≡ true = rw q_is h in rw (same, unassigned q.status idle)
  | inr other ↦ rw other (busy-find_available k cs c (ground arith) h)
]

-- An UPDATE of one courier's status leaves the others.
pub busy-update_ne :
    (k id : ℕ) (s : CourierStatus) (cs : List Courier)
    → (id == k) ≡ false
    → busy k (update_where (courier_is id) (with_courier_status s) cs) ≡ busy k cs
busy-update_ne k id s [] ne = refl
busy-update_ne k id s (c ∷ cs) ne = elim (Bool-cases (courier_is id c)) [
  | inl same ↦ rw same (ground (arith, busy-update_ne k id s cs))
  | inr other ↦ rw other (ground (arith, busy-update_ne k id s cs))
]

pub busy-assign :
    (k : ℕ) (cs : List Courier) (c : Courier)
    → find (courier_is k) cs ≡ some c
    → busy k (update_where (courier_is k) (with_courier_status CourierStatus.assigned) cs) ≡ 1
busy-assign k [] c e = cc
busy-assign k (q ∷ cs) c e = elim (Bool-cases (courier_is k q)) [
  | inl same ↦ rw (same, same) refl
  | inr other ↦ rw (other, other) (busy-assign k cs c (ground arith))
]

pub busy-free :
    (k : ℕ) (cs : List Courier)
    → busy k (update_where (courier_is k) (with_courier_status available) cs) ≡ 0
busy-free k [] = refl
busy-free k (q ∷ cs) = elim (Bool-cases (courier_is k q)) [
  | inl same ↦ rw (same, same) refl
  | inr other ↦ rw (other, other) (busy-free k cs)
]

-- An UPDATE of columns that are neither the id nor the status.
pub busy-update_same :
    (k : ℕ) (p : Courier → Bool) (f : Courier → Courier) (cs : List Courier)
    → ((c : Courier) → ((f c).id ≡ c.id) × ((f c).status ≡ c.status))
    → busy k (update_where p f cs) ≡ busy k cs
busy-update_same k p f [] same = refl
busy-update_same k p f (c ∷ cs) same = elim (Bool-cases (p c)) [
  | inl met ↦ rw met (rw ((same c).0, (same c).1, busy-update_same k p f cs same))
  | inr unmet ↦ rw unmet (rw (busy-update_same k p f cs same))
]
