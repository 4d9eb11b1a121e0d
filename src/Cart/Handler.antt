-- ===== src/Cart/Handler.antt =====
-- The HTTP handlers of the cart (services/cart-service/internal/cart/handler.go). An id is text until it is
-- checked; the quantity is `none` where DecodeJSON refuses the body.
use freshflow.Prelude.{ℕ, not, ◌||◌, Option, none, some, List, if◌then◌else◌, Result, ok, err}
use freshflow.Prelude.Int.{ℤ, pos, pos_part, ltb_ℤ}
use freshflow.Platform.Id.{is_uuid, uuid_value}
use freshflow.Platform.Http.{error, internal_error, Reply, json, failure}
use freshflow.Cart.Model.{Cart, Carts, Env}
use freshflow.Cart.Store.{get, set_item, remove_item}

abbrev pub cart_reply : Result (Unit {0}) Cart → Reply Cart
cart_reply (err _) = failure internal_error
cart_reply (ok cart) = json 200 cart

-- `get`
unfoldable pub handle_get : Env → List ℕ → Carts → Reply Cart × Carts
handle_get env user db =
    if not (is_uuid user)
    then (failure (error 400 "invalid_user_id"), db)
    else (let (answer, db') = get env user db in (cart_reply answer, db'))

-- `setItem`
unfoldable pub handle_set_item : Env → List ℕ → List ℕ → Option ℤ → Carts → Reply Cart × Carts
handle_set_item env user product body db =
    if not (is_uuid user) || not (is_uuid product)
    then (failure (error 400 "invalid_identifier"), db)
    else elim body [
      | none ↦ (failure (error 400 "invalid_json"), db)
      | some quantity ↦
          if ltb_ℤ quantity (pos 1) || ltb_ℤ (pos 99) quantity
          then (failure (error 400 "invalid_quantity"), db)
          else (let (answer, db') = set_item env user (uuid_value product) (pos_part quantity) db in
              (cart_reply answer, db'))
    ]

-- `deleteItem`
unfoldable pub handle_delete_item : Env → List ℕ → List ℕ → Carts → Reply Cart × Carts
handle_delete_item env user product db =
    if not (is_uuid user) || not (is_uuid product)
    then (failure (error 400 "invalid_identifier"), db)
    else (let (answer, db') = remove_item env user (uuid_value product) db in
        (cart_reply answer, db'))
