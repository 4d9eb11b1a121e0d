-- ===== src/Catalog/Stock/Scanned.antt =====
-- The rows that the loop of Store.Reserve over the items finds
-- (services/catalog-service/internal/catalog/store.go).
use mathlib.Core.Path.{subst}
use freshflow.Prelude.{
  ℕ, ◌≡◌, Bool, true, some, List, [], ◌∷◌, ◌++◌, find, arith, Bool-cases, Option-cases,
  Result-cases, inl, inr, ltb, Result, ok, err,
}
use freshflow.Catalog.Model.{Product, ReservationItem, ReservedItem, Call, StoreError}
use freshflow.Catalog.Scan.{Scan, short, grant, scan_item, scan_found, scan_items, sellable}
use freshflow.Catalog.Stock.{product_ids, has_id, IsKnown, held_items}

find_known :
    (k : ℕ) (ps : List Product) (p : Product)
    → find (sellable k) ps ≡ some p
    → has_id p.id (product_ids ps) ≡ true
find_known k [] p e = cc
find_known k (q ∷ ps) p e = ground (arith, find_known k ps p)

IsKnown-held_items-snoc :
    (ids : List ℕ) (is : List ReservedItem) (i : ReservedItem)
    → IsKnown ids (held_items is)
    → has_id i.product_id ids ≡ true
    → IsKnown ids (held_items (is ++ i ∷ []))
IsKnown-held_items-snoc ids [] i h e = (e, tt)
IsKnown-held_items-snoc ids (x ∷ is) i h e = (h.0, IsKnown-held_items-snoc ids is i h.1 e)

module _ (ids : List ℕ) where
  abbrev Known : Scan → Type 0
  Known acc = IsKnown ids (held_items acc.reserved)

  scan_found-IsKnown :
      (i : ReservationItem) (p : Product) (acc acc' : Scan)
      → has_id p.id ids ≡ true
      → scan_found i (some p) acc ≡ ok acc'
      → Known acc
      → Known acc'
  unfolding scan_found
  scan_found-IsKnown i p acc acc' known e h =
      elim (Bool-cases (ltb p.available_quantity i.quantity)) [
        | inl too_few ↦
            subst Known (let q : short i p.available_quantity acc ≡ acc' = ground arith in q) h
        | inr enough ↦
            subst Known (let q : grant i p acc ≡ acc' = ground arith in q)
              (IsKnown-held_items-snoc ids acc.reserved _ h known)
      ]

module _ (broken : Call → Bool) (ps : List Product) where
  scan_item-IsKnown :
      (i : ReservationItem) (acc acc' : Scan)
      → scan_item broken ps i acc ≡ ok acc'
      → IsKnown (product_ids ps) (held_items acc.reserved)
      → IsKnown (product_ids ps) (held_items acc'.reserved)
  unfolding scan_item
  scan_item-IsKnown i acc acc' e h = elim (Option-cases (find (sellable i.product_id) ps)) [
    | inl missing ↦
        subst (Known (product_ids ps))
          (let q : short i 0 acc ≡ acc' = unfold scan_found in ground arith in q) h
    | inr (p, found) ↦
        scan_found-IsKnown (product_ids ps) i p acc acc' (find_known i.product_id ps p found)
          (ground arith) h
  ]

  -- Every item that the loop grants is a product of the table.
  pub scan_items-IsKnown :
      (is : List ReservationItem) (acc acc' : Scan)
      → scan_items broken ps is acc ≡ ok acc'
      → IsKnown (product_ids ps) (held_items acc.reserved)
      → IsKnown (product_ids ps) (held_items acc'.reserved)
  unfolding scan_items
  scan_items-IsKnown [] acc acc' e h =
      subst (Known (product_ids ps)) (let q : acc ≡ acc' = cc in q) h
  scan_items-IsKnown (i ∷ is) acc acc' e h = elim (Result-cases (scan_item broken ps i acc)) [
    | inl (x, failed) ↦
        cc (let q : ◌≡◌ {A = Result StoreError Scan} (err x) (ok acc') = ground arith in q)
    | inr (mid, granted) ↦
        scan_items-IsKnown is mid acc' (ground arith) (scan_item-IsKnown i acc mid granted h)
  ]
