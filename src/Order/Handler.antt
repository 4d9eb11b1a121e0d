-- ===== src/Order/Handler.antt =====
-- The HTTP handlers of the order service (services/order-service/internal/order/handler.go). An id and a
-- header are texts until they are checked, and `text` gives the checked header as the text that the
-- service stores. A body is `none` where DecodeJSON refuses it.
pub mod Stream
pub mod Tests
use freshflow.Prelude.{
  ℕ, String, Bool, true, false, not, ◌||◌, ◌&&◌, ◌==◌, Option, none, some, List, [], ◌∷◌,
  if◌then◌else◌, length, leb, Result, ok, err,
}
use freshflow.Prelude.Int.{ℤ, pos, pos_part, ltb_ℤ}
use freshflow.Platform.Text.{in_range, is_digit}
use freshflow.Platform.Bytes.{trim_space}
use freshflow.Platform.Id.{is_uuid, uuid_value}
use freshflow.Platform.Http.{ApiError, error, internal_error, Reply, json, failure}
use freshflow.Order.Model.{
  CheckoutRequest, Cart, Order, UpstreamError, Inventory, World, Orders, Env, read_order, read_back,
}
use freshflow.Order.Create.{create}
use freshflow.Order.Cancel.{get, cancel}

abbrev is_alnum : ℕ → Bool
is_alnum c = in_range b'A' b'Z' c || in_range b'a' b'z' c || is_digit c

abbrev pub is_key_char : ℕ → Bool
is_key_char c = is_alnum c || c == b'.' || c == b'_' || c == b':' || c == b'-'

unfoldable pub are_key_chars : List ℕ → Bool
are_key_chars [] = true
are_key_chars (c ∷ cs) = is_key_char c && are_key_chars cs

-- The match of `validIdempotencyKey`.
unfoldable pub is_idempotency_key : List ℕ → Bool
unfolding are_key_chars
is_idempotency_key [] = false
is_idempotency_key (c ∷ cs) = is_alnum c && (are_key_chars cs && leb (length cs) 127)

pub record CheckoutBody : Type 0 where
  pub user_id : List ℕ
  pub cart_version : ℤ

abbrev pub checkout_of : CheckoutBody → CheckoutRequest
checkout_of b = record { user_id = uuid_value b.user_id; cart_version = pos_part b.cart_version }

abbrev order_reply : Result ApiError Order → Reply Order
order_reply (err e) = failure e
order_reply (ok o) = json 200 o

-- The answer of `create`: the reply, and whether the header Idempotency-Replayed is set.
abbrev pub created_reply : Result ApiError (Order × Bool) → Reply Order × Bool
created_reply (err e) = (failure e, false)
created_reply (ok (o, replayed)) = (json 201 o, replayed)

module _ {I : Type 0} (inventory : Inventory I) (hash : CheckoutRequest → String) (ttl : ℕ)
    (text : List ℕ → String) where
  -- `create`
  unfoldable pub handle_create :
      Env
      → Result UpstreamError Cart
      → List ℕ
      → Option CheckoutBody
      → World I
      → (Reply Order × Bool) × World I
  unfolding is_idempotency_key
  handle_create env carts header body w =
      if not (is_idempotency_key (trim_space header))
      then ((failure (error 400 "invalid_idempotency_key"), false), w)
      else elim body [
        | none ↦ ((failure (error 400 "invalid_json"), false), w)
        | some b ↦
            if not (is_uuid b.user_id) || ltb_ℤ b.cart_version (pos 1)
            then ((failure (error 400 "invalid_checkout"), false), w)
            else (let (answer, w') =
                  create inventory hash ttl env carts (text (trim_space header)) (checkout_of b)
                    w in
                (created_reply answer, w'))
      ]

module _ {I : Type 0} (inventory : Inventory I) where
  -- `cancel`
  unfoldable pub handle_cancel : Env → List ℕ → World I → Reply Order × World I
  handle_cancel env id w =
      if not (is_uuid id)
      then (failure (error 400 "invalid_order_id"), w)
      else (let (answer, w') = cancel inventory env (uuid_value id) w in (order_reply answer, w'))

-- `get`
unfoldable pub handle_get : Env → List ℕ → Orders → Reply Order
handle_get env id db =
    if not (is_uuid id)
    then failure (error 400 "invalid_order_id")
    else if env.broken read_order
    then failure internal_error
    else elim (get (uuid_value id) db) [
      | none ↦ failure (error 404 "order_not_found")
      | some o ↦ json 200 o
    ]
