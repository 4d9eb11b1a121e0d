-- ===== src/Catalog/Release.antt =====
-- `Store.Release` and `Store.ListProducts` (services/catalog-service/internal/catalog/store.go).
pub mod Conserves
pub mod Again
use freshflow.Prelude.{
  ℕ, ◌+◌, ◌||◌, not, Option, none, some, List, [], ◌∷◌, ◌==◌, if◌then◌else◌, find, update_where,
  Result, ok, err,
}
use freshflow.Catalog.Model.{
  Product, ReservationItem, released, is_active, Reservation, Catalog, StoreError, not_found, begin,
  read_status, restore, mark_released, commit, held_is, reservation_is, Env,
}

-- UPDATE of the products FROM the items of the reservation.
abbrev pub restored : Option ReservationItem → Product → Product
restored none p = p
restored (some i) p = record p { available_quantity = p.available_quantity + i.quantity }

unfoldable pub restore_all : List ReservationItem → List Product → List Product
restore_all items [] = []
restore_all items (p ∷ ps) = restored (find (held_is p.id) items) p ∷ restore_all items ps

abbrev pub release_row : Reservation → Reservation
release_row r = record r { status = released }

-- DEL of the product list and of the reservation's expiry key.
unfoldable pub drop_key : ℕ → List (ℕ × ℕ) → List (ℕ × ℕ)
drop_key k [] = []
drop_key k ((j, v) ∷ m) = if j == k then drop_key k m else (j, v) ∷ drop_key k m

abbrev pub forget : Env → ℕ → Catalog → Catalog
forget env id s =
    if env.redis_down
    then s
    else record s { products_cache = none; expiry_keys = drop_key id s.expiry_keys }

release_found : Env → ℕ → Reservation → Catalog → Result StoreError (Unit {0}) × Catalog
unfolding restore_all drop_key
release_found env id r s =
    if not (is_active r.status)
    then (if env.broken commit then err StoreError.failed else ok tt, s)
    else if env.broken restore || env.broken mark_released || env.broken commit
    then (err StoreError.failed, s)
    else (
      ok tt,
      forget env id (record s {
        products = restore_all r.items s.products;
        reservations = update_where (reservation_is id) release_row s.reservations;
      }),
    )

-- `Release`. A reservation that is not active is left alone.
unfoldable pub release : Env → ℕ → Catalog → Result StoreError (Unit {0}) × Catalog
unfolding release_found
release env id s =
    if env.broken begin || env.broken read_status
    then (err StoreError.failed, s)
    else elim (find (reservation_is id) s.reservations) [
      | none ↦ (err not_found, s)
      | some r ↦ release_found env id r s
    ]
