-- ===== src/Catalog/Scan.antt =====
-- The loops of `Store.Reserve` (services/catalog-service/internal/catalog/store.go): the sorted copy
-- of the items, the check of each against its product, the UPDATEs of the stock and the INSERTs of
-- the reserved items.
use freshflow.Prelude.{
  ℕ, ◌+◌, ◌-◌, ◌*◌, ◌%◌, ◌^◌, String, Bool, ◌&&◌, ◌||◌, not, Option, none, some, List, [], ◌∷◌,
  ◌++◌, ltb, leb, ◌==◌, if◌then◌else◌, find, exists, update_where, Result, ok, err,
}
use freshflow.Platform.Text.{str_eq}
use freshflow.Catalog.Model.{
  Product, ReservationItem, ReservedItem, Shortage, StoreError, Call, lock_product, decrement,
  insert_item, product_is, held_is,
}

-- `sort.Slice` by product.
insert_sorted : ReservationItem → List ReservationItem → List ReservationItem
insert_sorted i [] = i ∷ []
insert_sorted i (j ∷ js) =
    if leb i.product_id j.product_id then i ∷ j ∷ js else j ∷ insert_sorted i js

-- `sort.Slice` by the texts of the products, here by their numbers: the same order for ids in one spelling.
unfoldable pub sort_items : List ReservationItem → List ReservationItem
unfolding insert_sorted
sort_items [] = []
sort_items (i ∷ is) = insert_sorted i (sort_items is)

-- The variables of the loop over the items. An int64 is kept as its bit pattern.
pub record Scan : Type 0 where
  pub reserved : List ReservedItem
  pub shortages : List Shortage
  pub total : ℕ
  pub currency : String

abbrev pub no_scan : Scan
no_scan = record { reserved = []; shortages = []; total = 0; currency = "" }

abbrev pub short : ReservationItem → ℕ → Scan → Scan
short item available acc = record acc {
  shortages =
      acc.shortages
      ++ record { product_id = item.product_id; requested = item.quantity; available = available }
        ∷ [];
}

abbrev pub grant : ReservationItem → Product → Scan → Scan
grant item p acc = record acc {
  currency = p.currency;
  reserved =
      acc.reserved
      ++ record {
        product_id = p.id;
        product_name = p.name;
        quantity = item.quantity;
        unit_price_minor = p.price_minor;
        currency = p.currency;
      }
        ∷ [];
  total = (acc.total + p.price_minor * item.quantity) % 2 ^ 64;
}

-- One round of the loop, on the row that `SELECT … WHERE id = $1 AND active = true` finds.
unfoldable pub scan_found : ReservationItem → Option Product → Scan → Result StoreError Scan
scan_found item none acc = ok (short item 0 acc)
scan_found item (some p) acc =
    if ltb p.available_quantity item.quantity
    then ok (short item p.available_quantity acc)
    else if not (str_eq acc.currency "") && not (str_eq acc.currency p.currency)
    then err StoreError.failed
    else ok (grant item p acc)

abbrev pub sellable : ℕ → Product → Bool
sellable k p = product_is k p && p.active

unfoldable pub scan_item :
    (Call → Bool) → List Product → ReservationItem → Scan → Result StoreError Scan
unfolding scan_found
scan_item broken products item acc =
    if broken (lock_product item.product_id)
    then err StoreError.failed
    else scan_found item (find (sellable item.product_id) products) acc

unfoldable pub scan_items :
    (Call → Bool) → List Product → List ReservationItem → Scan → Result StoreError Scan
unfolding scan_item
scan_items broken products [] acc = ok acc
scan_items broken products (i ∷ is) acc = elim (scan_item broken products i acc) [
  | ok acc' ↦ scan_items broken products is acc'
  | err e ↦ err e
]

abbrev pub take_stock : ℕ → Product → Product
take_stock n p = record p { available_quantity = p.available_quantity - n }

-- The loop of UPDATEs. The CHECK on `available_quantity` refuses a row that would fall below zero.
unfoldable pub decrement_all :
    (Call → Bool) → List ReservedItem → List Product → Option (List Product)
decrement_all broken [] products = some products
decrement_all broken (i ∷ is) products =
    if broken (decrement i.product_id)
      || exists (λ p. product_is i.product_id p && ltb p.available_quantity i.quantity) products
    then none
    else decrement_all broken is
        (update_where (product_is i.product_id) (take_stock i.quantity) products)

abbrev pub held_item : ReservedItem → ReservationItem
held_item i = record { product_id = i.product_id; quantity = i.quantity }

-- The loop of INSERTs into inventory_reservation_items. Its primary key and its CHECK refuse a
-- product that the reservation has, and a quantity of zero.
unfoldable pub insert_items :
    (Call → Bool) → List ReservedItem → List ReservationItem → Option (List ReservationItem)
insert_items broken [] held = some held
insert_items broken (i ∷ is) held =
    if broken (insert_item i.product_id) || exists (held_is i.product_id) held || i.quantity == 0
    then none
    else insert_items broken is (held ++ held_item i ∷ [])
