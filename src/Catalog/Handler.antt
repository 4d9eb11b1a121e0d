-- ===== src/Catalog/Handler.antt =====
-- The HTTP handlers of the catalog (services/catalog-service/internal/catalog/handler.go). An id is text
-- until it is checked; the store keeps the number that the text encodes. A body is `none` where
-- DecodeJSON refuses it.
pub mod Accepts
pub mod Keeps
pub mod Tests
use freshflow.Prelude.{
  ℕ, Bool, true, false, not, ◌||◌, ◌==◌, Option, none, some, List, [], ◌∷◌, map, if◌then◌else◌,
  exists, length, ltb, leb, Result, ok, err,
}
use freshflow.Prelude.Int.{ℤ, pos, negsuc, pos_part, ltb_ℤ}
use freshflow.Platform.Bytes.{bytes_eq}
use freshflow.Platform.Id.{is_uuid, uuid_value}
use freshflow.Platform.Http.{ApiError, error, internal_error, Reply, json, no_content, failure}
use freshflow.Catalog.Model.{
  Product, ReservationItem, ReserveRequest, ReservationResponse, Catalog, StoreError, not_found,
  is_failed, Env,
}
use freshflow.Catalog.Reserve.{reserve}
use freshflow.Catalog.Release.{release}
use freshflow.Catalog.Browse.{list_products}

-- The body of a reservation, as it is decoded.
pub record ItemBody : Type 0 where
  pub product_id : List ℕ
  pub quantity : ℤ

pub record ReserveBody : Type 0 where
  pub checkout_attempt_id : List ℕ
  pub items : List ItemBody
  pub ttl_seconds : ℤ

abbrev pub invalid_item : ItemBody → Bool
invalid_item i = not (is_uuid i.product_id) || ltb_ℤ i.quantity (pos 1) || ltb_ℤ (pos 99) i.quantity

-- The loop over the items, with the map of those seen.
unfoldable pub validate_items : List ItemBody → List (List ℕ) → Option ApiError
validate_items [] seen = none
validate_items (i ∷ is) seen =
    let rest = validate_items is (i.product_id ∷ seen) in
    if invalid_item i
    then some (error 400 "invalid_items")
    else if exists (bytes_eq i.product_id) seen
    then some (error 400 "duplicate_product")
    else rest

-- `validateReserve`
unfoldable pub validate_reserve : ReserveBody → Option ApiError
unfolding validate_items
validate_reserve r =
    if not (is_uuid r.checkout_attempt_id)
    then some (error 400 "invalid_checkout_attempt_id")
    else if length r.items == 0 || ltb 100 (length r.items)
    then some (error 400 "invalid_items")
    else if ltb_ℤ r.ttl_seconds (pos 60) || ltb_ℤ (pos 1800) r.ttl_seconds
    then some (error 400 "invalid_reservation_ttl")
    else validate_items r.items []

abbrev pub item_of : ItemBody → ReservationItem
item_of i = record { product_id = uuid_value i.product_id; quantity = pos_part i.quantity }

-- The request as the store takes it.
abbrev pub request_of : ReserveBody → ReserveRequest
request_of r = record {
  checkout_attempt_id = uuid_value r.checkout_attempt_id;
  items = map item_of r.items;
  ttl_seconds = pos_part r.ttl_seconds;
}

abbrev pub reserve_reply : Result StoreError ReservationResponse → Reply ReservationResponse
reserve_reply (err _) = failure internal_error
reserve_reply (ok response) =
    if is_failed response.status
    then failure (error 409 "inventory_insufficient")
    else json 201 response

-- `reserve`
unfoldable pub handle_reserve :
    Env → Option ReserveBody → Catalog → Reply ReservationResponse × Catalog
handle_reserve env none s = (failure (error 400 "invalid_json"), s)
handle_reserve env (some body) s = elim (validate_reserve body) [
  | some e ↦ (failure e, s)
  | none ↦ (reserve_reply (reserve env (request_of body) s).0, (reserve env (request_of body) s).1)
]

abbrev pub release_reply : Result StoreError (Unit {0}) → Reply (Unit {0})
release_reply (err not_found) = failure (error 404 "reservation_not_found")
release_reply (err StoreError.failed) = failure internal_error
release_reply (ok _) = no_content

-- `release`
unfoldable pub handle_release : Env → List ℕ → Catalog → Reply (Unit {0}) × Catalog
handle_release env id s =
    if not (is_uuid id)
    then (failure (error 400 "invalid_reservation_id"), s)
    else (release_reply (release env (uuid_value id) s).0, (release env (uuid_value id) s).1)

abbrev list_reply : Result StoreError (List Product) → Reply (List Product)
list_reply (err _) = failure internal_error
list_reply (ok products) = json 200 products

-- `listProducts`
unfoldable pub handle_list :
    (List Product → List Product) → Env → Catalog → Reply (List Product) × Catalog
handle_list by_name env s =
    (list_reply (list_products by_name env s).0, (list_products by_name env s).1)
