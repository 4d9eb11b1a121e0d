-- ===== src/Catalog/Stock.antt =====
-- The stock of a product and what the active reservations hold of it, under the loops of the store
-- (services/catalog-service/internal/catalog/store.go).
pub mod Restore
pub mod Scanned
use mathlib.Core.Path.{subst}
use mathlib.Core.List.{append-nil, append_assoc}
use freshflow.Prelude.{
  ℕ, ◌+◌, ◌≡◌, refl, ◌∙◌, Bool, true, false, some, List, [], ◌∷◌, ◌++◌, ◌==◌, if◌then◌else◌, find,
  exists, update_where, sum_where, sum_where-append, All, arith, Bool-cases, Option-cases,
  Result-cases, inl, inr, ltb, ◌&&◌, Result, ok, err,
}
use freshflow.Catalog.Model.{
  Product, ReservationItem, ReservedItem, Reservation, Call, StoreError, is_active, product_is,
  held_is,
}
use freshflow.Catalog.Scan.{
  Scan, take_stock, held_item, short, grant, scan_item, scan_found, decrement_all, insert_items,
  scan_items, sellable,
}
use freshflow.Catalog.Release.{restored, restore_all}

-- What is left on the shelf of a product.
abbrev pub stock : ℕ → List Product → ℕ
stock k [] = 0
stock k (p ∷ ps) = if product_is k p then p.available_quantity else stock k ps

-- How much of a product a list of items holds.
abbrev pub held_in : ℕ → List ReservationItem → ℕ
held_in k items = sum_where (held_is k) (λ i. i.quantity) items

-- How much of a product the active reservations hold.
abbrev pub held : ℕ → List Reservation → ℕ
held k rs = sum_where (λ r. is_active r.status) (λ r. held_in k r.items) rs

abbrev pub product_ids : List Product → List ℕ
product_ids [] = []
product_ids (p ∷ ps) = p.id ∷ product_ids ps

abbrev pub has_id : ℕ → List ℕ → Bool
has_id k ids = exists (λ j. j == k) ids

abbrev pub IsKnown : List ℕ → List ReservationItem → Type 0
IsKnown ids items = All (λ i. has_id i.product_id ids ≡ true) items

-- No product is listed twice.
abbrev pub IsUnique : List ReservationItem → Type 0
IsUnique [] = Unit
IsUnique (i ∷ is) = (exists (held_is i.product_id) is ≡ false) × IsUnique is

abbrev pub held_items : List ReservedItem → List ReservationItem
held_items [] = []
held_items (i ∷ is) = held_item i ∷ held_items is

product_ids-take_stock :
    (j n : ℕ) (ps : List Product)
    → product_ids (update_where (product_is j) (take_stock n) ps) ≡ product_ids ps
product_ids-take_stock j n [] = refl
product_ids-take_stock j n (p ∷ ps) = ground (arith, product_ids-take_stock j n ps)

stock-take_stock_ne :
    (k j n : ℕ) (ps : List Product)
    → (j == k) ≡ false
    → stock k (update_where (product_is j) (take_stock n) ps) ≡ stock k ps
stock-take_stock_ne k j n [] ne = refl
stock-take_stock_ne k j n (p ∷ ps) ne = ground (arith, stock-take_stock_ne k j n ps)

stock-take_stock :
    (k j n : ℕ) (ps : List Product)
    → exists (λ p. product_is j p && ltb p.available_quantity n) ps ≡ false
    → has_id j (product_ids ps) ≡ true
    → stock k (update_where (product_is j) (take_stock n) ps) + (if j == k then n else 0)
      ≡ stock k ps
stock-take_stock k j n [] e h = cc
stock-take_stock k j n (p ∷ ps) e h =
    ground (arith, stock-take_stock k j n ps, stock-take_stock_ne k j n ps)

module _ (broken : Call → Bool) where
  pub product_ids-decrement_all :
      (is : List ReservedItem) (ps ps' : List Product)
      → decrement_all broken is ps ≡ some ps'
      → product_ids ps' ≡ product_ids ps
  unfolding decrement_all
  product_ids-decrement_all [] ps ps' e = ground arith
  product_ids-decrement_all (i ∷ is) ps ps' e = ground (
    arith,
    product_ids-decrement_all is (update_where (product_is i.product_id) (take_stock i.quantity) ps)
        ps',
    product_ids-take_stock i.product_id i.quantity ps,
  )

  -- The UPDATEs take from each product what the reserved items hold of it.
  pub stock-decrement_all :
      (k : ℕ) (is : List ReservedItem) (ps ps' : List Product)
      → decrement_all broken is ps ≡ some ps'
      → IsKnown (product_ids ps) (held_items is)
      → stock k ps' + held_in k (held_items is) ≡ stock k ps
  unfolding decrement_all
  stock-decrement_all k [] ps ps' e h = ground arith
  stock-decrement_all k (i ∷ is) ps ps' e h = ground (
    arith,
    stock-decrement_all k is (update_where (product_is i.product_id) (take_stock i.quantity) ps)
        ps',
    product_ids-take_stock i.product_id i.quantity ps,
    stock-take_stock k i.product_id i.quantity ps,
  )

-- The INSERTs of the items

held_in-append :
    (k : ℕ) (xs ys : List ReservationItem) → held_in k (xs ++ ys) ≡ held_in k xs + held_in k ys
held_in-append k xs ys = sum_where-append (held_is k) (λ i. i.quantity) xs ys

exists-snoc :
    (k : ℕ) (xs : List ReservationItem) (i : ReservationItem)
    → exists (held_is k) xs ≡ false
    → (i.product_id == k) ≡ false
    → exists (held_is k) (xs ++ i ∷ []) ≡ false
exists-snoc k [] i h e = ground arith
exists-snoc k (x ∷ xs) i h e = ground (arith, exists-snoc k xs i)

IsUnique-snoc :
    (xs : List ReservationItem) (i : ReservationItem)
    → IsUnique xs
    → exists (held_is i.product_id) xs ≡ false
    → IsUnique (xs ++ i ∷ [])
IsUnique-snoc [] i h e = (refl, tt)
IsUnique-snoc (x ∷ xs) i h e =
    (exists-snoc x.product_id xs i h.0 (ground arith), IsUnique-snoc xs i h.1 (ground arith))

module _ (broken : Call → Bool) where
  pub insert_items-eq :
      (is : List ReservedItem) (xs out : List ReservationItem)
      → insert_items broken is xs ≡ some out
      → out ≡ xs ++ held_items is
  unfolding insert_items
  insert_items-eq [] xs out e = ground (arith, append-nil xs)
  insert_items-eq (i ∷ is) xs out e = ground (
    arith,
    insert_items-eq is (xs ++ held_item i ∷ []) out,
    append_assoc xs (held_item i ∷ []) (held_items is),
  )

  pub insert_items-IsUnique :
      (is : List ReservedItem) (xs out : List ReservationItem)
      → insert_items broken is xs ≡ some out
      → IsUnique xs
      → IsUnique out
  unfolding insert_items
  insert_items-IsUnique [] xs out e h = ground arith
  insert_items-IsUnique (i ∷ is) xs out e h = ground (
    arith,
    insert_items-IsUnique is (xs ++ held_item i ∷ []) out,
    IsUnique-snoc xs (held_item i) h,
  )
