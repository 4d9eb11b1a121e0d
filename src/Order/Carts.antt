-- ===== src/Order/Carts.antt =====
-- The client of the order service for the cart (services/order-service/internal/order/client.go), over the
-- handler of that service.
use freshflow.Prelude.{ℕ, not, ◌==◌, List, map, if◌then◌else◌, Result, err}
use freshflow.Platform.Http.{Reply, status_of}
use freshflow.Platform.Id.{uuid_value}
use freshflow.Cart.Model
use freshflow.Cart.Handler.{handle_get}
use freshflow.Order.Model.{CartItem, Cart, UpstreamError, upstream, unreachable}
use freshflow.Order.Clients.{Wire, decoded}

abbrev cart_item_read : Model.Item → CartItem
cart_item_read i = record { product_id = i.product_id; quantity = i.quantity }

abbrev pub cart_read : Model.Cart → Cart
cart_read c = record {
  user_id = uuid_value c.user_id;
  version = c.version;
  items = map cart_item_read c.items;
}

-- `CartClient.Get`, from the answer on.
abbrev pub cart_answer : Wire → Reply Model.Cart → Result UpstreamError Cart
cart_answer wire reply =
    if not wire.returns
    then err unreachable
    else if not (status_of reply == 200)
    then err (upstream (status_of reply) "cart_unavailable")
    else decoded cart_read wire reply

-- `CartClient.Get`
unfoldable pub client_cart :
    Wire → (ℕ → List ℕ) → Model.Env → ℕ → Model.Carts → Result UpstreamError Cart × Model.Carts
client_cart wire text_of env user db =
    if not wire.arrives
    then (err unreachable, db)
    else (let (reply, db') = handle_get env (text_of user) db in (cart_answer wire reply, db'))
