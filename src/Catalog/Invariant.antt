-- ===== src/Catalog/Invariant.antt =====
-- What holds of the tables of the catalog between two transactions
-- (services/catalog-service/internal/catalog/store.go, db/postgres/migrations).
use freshflow.Prelude.{ℕ, ◌+◌, ◌≡◌, false, List, [], ◌∷◌, All, exists}
use freshflow.Catalog.Model.{Reservation, Catalog, reservation_is}
use freshflow.Catalog.Stock.{IsUnique, IsKnown, product_ids, stock, held}

-- No two reservations share an id.
abbrev pub HasDistinctIds : List Reservation → Type 0
HasDistinctIds [] = Unit
HasDistinctIds (r ∷ rs) = (exists (reservation_is r.id) rs ≡ false) × HasDistinctIds rs

-- A reservation lists a product once, and only products of the table.
abbrev pub IsSound : List ℕ → Reservation → Type 0
IsSound ids r = IsUnique r.items × IsKnown ids r.items

pub record IsValid (s : Catalog) : Type 0 where
  pub distinct : HasDistinctIds s.reservations
  pub sound : All (IsSound (product_ids s.products)) s.reservations

-- What a product has on the shelf and in active reservations together.
abbrev pub conserved : ℕ → Catalog → ℕ
conserved k s = stock k s.products + held k s.reservations
