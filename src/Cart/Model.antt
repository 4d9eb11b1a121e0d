-- ===== src/Cart/Model.antt =====
-- The data of the cart service (services/cart-service/internal/cart/model.go) and its tables
-- (db/postgres/migrations).
use freshflow.Prelude.{ℕ, Bool, Option, List, ◌==◌, ◌&&◌}

pub record Item : Type 0 where
  pub product_id : ℕ
  pub quantity : ℕ

-- `user_id` is the text of the request; `updated_at` is `none` for the zero time of a cart that does not
-- exist.
pub record Cart : Type 0 where
  pub user_id : List ℕ
  pub version : ℕ
  pub items : List Item
  pub updated_at : Option ℕ

-- A row of cart.carts.
pub record CartRow : Type 0 where
  pub user_id : ℕ
  pub version : ℕ
  pub updated_at : ℕ

-- A row of cart.cart_items.
pub record ItemRow : Type 0 where
  pub user_id : ℕ
  pub product_id : ℕ
  pub quantity : ℕ

-- The schema cart of the database, and the cached carts in Redis under the texts of the requests, the last
-- written first.
pub record Carts : Type 0 where
  pub carts : List CartRow
  pub items : List ItemRow
  pub cache : List (List ℕ × Option Cart)

-- The calls of the database that can fail for reasons outside the program.
pub data Call : Type 0 where
  begin upsert_cart upsert_item delete_item update_version read_cart read_items commit : Call

-- What a call meets: the calls of the database that fail, the clock, and which calls of Redis fail.
pub record Env : Type 0 where
  pub broken : Call → Bool
  pub now : ℕ
  pub get_down : Bool
  pub set_down : Bool
  pub del_down : Bool

abbrev pub cart_is : ℕ → CartRow → Bool
cart_is user r = r.user_id == user

abbrev pub row_is : ℕ → ℕ → ItemRow → Bool
row_is user product r = r.user_id == user && r.product_id == product

abbrev pub row_of_user : ℕ → ItemRow → Bool
row_of_user user r = r.user_id == user
