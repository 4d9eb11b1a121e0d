-- ===== src/Catalog/Stock/Restore.antt =====
-- The UPDATE of Store.Release, which gives the items of a reservation back
-- (services/catalog-service/internal/catalog/store.go).
use freshflow.Prelude.{
  ℕ, ◌+◌, ◌≡◌, refl, ◌∙◌, true, false, List, [], ◌∷◌, if◌then◌else◌, find, exists, arith,
  Bool-cases, inl, inr,
}
use freshflow.Catalog.Model.{Product, ReservationItem, held_is}
use freshflow.Catalog.Release.{restored, restore_all}
use freshflow.Catalog.Stock.{stock, held_in, product_ids, has_id, IsKnown, IsUnique}

amount : ℕ → List ReservationItem → ℕ
amount k [] = 0
amount k (i ∷ is) = if held_is k i then i.quantity else amount k is

held_in_absent :
    (k : ℕ) (items : List ReservationItem) → exists (held_is k) items ≡ false → held_in k items ≡ 0
held_in_absent k [] h = refl
held_in_absent k (i ∷ is) h = ground (arith, held_in_absent k is)

amount-eq :
    (k : ℕ) (items : List ReservationItem) → IsUnique items → amount k items ≡ held_in k items
unfolding amount
amount-eq k [] h = refl
amount-eq k (i ∷ is) h = ground (arith, amount-eq k is h.1, held_in_absent k is)

restored_lem :
    (j : ℕ) (items : List ReservationItem) (p : Product)
    → ((restored (find (held_is j) items) p).available_quantity
        ≡ p.available_quantity + amount j items)
      × ((restored (find (held_is j) items) p).id ≡ p.id)
unfolding amount
restored_lem j [] p = ground arith
restored_lem j (i ∷ is) p = ground (arith, restored_lem j is p)

pub product_ids-restore_all :
    (items : List ReservationItem) (ps : List Product)
    → product_ids (restore_all items ps) ≡ product_ids ps
unfolding restore_all
product_ids-restore_all items [] = refl
product_ids-restore_all items (p ∷ ps) =
    ground (arith, product_ids-restore_all items ps, restored_lem p.id items p)

stock-restore_amount :
    (k : ℕ) (items : List ReservationItem) (ps : List Product)
    → has_id k (product_ids ps) ≡ true
    → stock k (restore_all items ps) ≡ stock k ps + amount k items
unfolding restore_all
stock-restore_amount k items [] h = cc
stock-restore_amount k items (p ∷ ps) h =
    ground (arith, stock-restore_amount k items ps, restored_lem p.id items p)

stock_absent : (k : ℕ) (ps : List Product) → has_id k (product_ids ps) ≡ false → stock k ps ≡ 0
stock_absent k [] h = refl
stock_absent k (p ∷ ps) h = ground (arith, stock_absent k ps)

held_in_unknown :
    (k : ℕ) (ids : List ℕ) (items : List ReservationItem)
    → has_id k ids ≡ false
    → IsKnown ids items
    → held_in k items ≡ 0
held_in_unknown k ids [] e h = refl
held_in_unknown k ids (i ∷ is) e h = ground (arith, held_in_unknown k ids is e h.1, h.0)

-- The UPDATE gives every product what the items hold of it.
pub stock-restore_all :
    (k : ℕ) (items : List ReservationItem) (ps : List Product)
    → IsUnique items
    → IsKnown (product_ids ps) items
    → stock k (restore_all items ps) ≡ stock k ps + held_in k items
stock-restore_all k items ps u h = elim (Bool-cases (has_id k (product_ids ps))) [
  | inl known ↦ stock-restore_amount k items ps known ∙ rw (amount-eq k items u)
  | inr unknown ↦ omega (
    arith,
    stock_absent k ps unknown,
    stock_absent k (restore_all items ps) (rw (product_ids-restore_all items ps) unknown),
    held_in_unknown k (product_ids ps) items unknown h,
  )
]
