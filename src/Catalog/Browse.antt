-- ===== src/Catalog/Browse.antt =====
-- `Store.ListProducts` (services/catalog-service/internal/catalog/store.go): the list is cached in Redis,
-- and every write drops the cached list.
use freshflow.Prelude.{
  ◌≡◌, false, none, some, List, [], ◌∷◌, if◌then◌else◌, find, Result, ok, err, arith, Result-cases,
  inl, inr,
}
use freshflow.Catalog.Model.{
  Product, Catalog, ReserveRequest, ReservationResponse, StoreError, Env, query_products,
  attempt_is,
}
use freshflow.Catalog.Reserve.{reserve_new, reserve}

-- WHERE active = true
unfoldable pub active_products : List Product → List Product
active_products [] = []
active_products (p ∷ ps) = let rest = active_products ps in if p.active then p ∷ rest else rest

-- `by_name` is the ORDER BY name of the database, in its collation.
module _ (by_name : List Product → List Product) where
  -- `ListProducts`
  unfoldable pub list_products : Env → Catalog → Result StoreError (List Product) × Catalog
  list_products env s = elim (if env.redis_down then none else s.products_cache) [
    | some products ↦ (ok products, s)
    | none ↦ if env.broken query_products then (err StoreError.failed, s) else (
      ok (by_name (active_products s.products)),
      if env.redis_down
          then s
          else record s { products_cache = some (by_name (active_products s.products)) },
    )
  ]

  drops_list :
      (env : Env) (request : ReserveRequest) (answer : ReservationResponse) (s : Catalog)
      → find (attempt_is request.checkout_attempt_id) s.reservations ≡ none
      → env.redis_down ≡ false
      → (reserve env request s).0 ≡ ok answer
      → (reserve env request s).1.products_cache ≡ none
  unfolding reserve
  drops_list env request answer s new up e = elim (Result-cases (reserve_new env request s)) [
    | inl (x, failed) ↦ absurd (ground arith)
    | inr ((response, s'), made) ↦ ground arith
  ]

  -- After a reservation that was made while Redis answers, a list that is answered shows the quantities
  -- of the tables, not those from before.
  pub list_products-reserve :
      (env env' : Env) (request : ReserveRequest) (answer : ReservationResponse)
      (products : List Product) (s : Catalog)
      → find (attempt_is request.checkout_attempt_id) s.reservations ≡ none
      → env.redis_down ≡ false
      → (reserve env request s).0 ≡ ok answer
      → (list_products env' (reserve env request s).1).0 ≡ ok products
      → products ≡ by_name (active_products (reserve env request s).1.products)
  unfolding list_products
  list_products-reserve env env' request answer products s new up e shown =
      let cold = drops_list env request answer s new up e in ground (arith, cold)
