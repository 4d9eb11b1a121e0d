-- ===== src/Cart/Store.antt =====
-- `Store.Get`, `SetItem` and `DeleteItem` (services/cart-service/internal/cart/store.go). A transaction
-- reads what it wrote, and the cache is cleared after the COMMIT; a failure of Redis is passed over. The
-- database compares users as UUIDs, whatever their spelling, and Redis compares the texts.
use freshflow.Prelude.{
  ℕ, suc, Bool, not, ◌||◌, ◌&&◌, leb, Option, none, some, List, [], ◌∷◌, ◌++◌, map, if◌then◌else◌,
  find, exists, update_where, Result, ok, err, Tx, gets, modify, fail_if, ◌>>=◌, ◌>>◌, transact,
}
use freshflow.Prelude.Sort.{sort_by}
use freshflow.Platform.Bytes.{bytes_eq}
use freshflow.Platform.Id.{uuid_value}
use freshflow.Cart.Model.{
  Item, Cart, CartRow, ItemRow, Carts, Env, begin, upsert_cart, upsert_item, delete_item,
  update_version, read_cart, read_items, commit, cart_is, row_is, row_of_user,
}

-- The rows that meet the condition.
unfoldable pub where_rows : (ItemRow → Bool) → List ItemRow → List ItemRow
where_rows p [] = []
where_rows p (r ∷ rs) = let rest = where_rows p rs in if p r then r ∷ rest else rest

abbrev item_of : ItemRow → Item
item_of r = record { product_id = r.product_id; quantity = r.quantity }

-- SELECT … WHERE user_id = $1 ORDER BY product_id
unfoldable pub items_of : ℕ → List ItemRow → List Item
unfolding where_rows
items_of user rows = sort_by (λ i. i.product_id) (map item_of (where_rows (row_of_user user) rows))

abbrev pub no_cart : List ℕ → Cart
no_cart user = record { user_id = user; version = 0; items = []; updated_at = none }

-- `getCart` on the tables: a user with no row has the empty cart of version 0.
abbrev pub cart_of : List ℕ → Carts → Cart
cart_of user db = elim (find (cart_is (uuid_value user)) db.carts) [
  | none ↦ no_cart user
  | some r ↦ record {
    user_id = user;
    version = r.version;
    items = items_of (uuid_value user) db.items;
    updated_at = some r.updated_at;
  }
]

-- `getCart`, with the calls that can fail.
abbrev pub get_cart : Env → List ℕ → Carts → Result (Unit {0}) Cart
get_cart env user db =
    if env.broken read_cart
    then err tt
    else if exists (cart_is (uuid_value user)) db.carts
    then (if env.broken read_items then err tt else ok (cart_of user db))
    else ok (cart_of user db)

abbrev pub raise : ℕ → CartRow → CartRow
raise now r = record r { version = suc r.version; updated_at = now }

-- UPDATE of the version.
abbrev pub bump : ℕ → ℕ → Carts → Carts
bump now user db = record db { carts = update_where (cart_is user) (raise now) db.carts }

-- INSERT … ON CONFLICT DO UPDATE of the cart.
abbrev pub put_cart : ℕ → ℕ → Carts → Carts
put_cart now user db = if exists (cart_is user) db.carts then bump now user db else record db {
  carts = db.carts ++ record { user_id = user; version = 1; updated_at = now } ∷ [];
}

abbrev with_quantity : ℕ → ItemRow → ItemRow
with_quantity n r = record r { quantity = n }

-- INSERT … ON CONFLICT DO UPDATE of the item.
abbrev pub put_item : ℕ → ℕ → ℕ → Carts → Carts
put_item user product n db =
    if exists (row_is user product) db.items
    then record db { items = update_where (row_is user product) (with_quantity n) db.items }
    else record db {
      items = db.items ++ record { user_id = user; product_id = product; quantity = n } ∷ [];
    }

-- DELETE of the item.
abbrev pub drop_item : ℕ → ℕ → Carts → Carts
drop_item user product db = record db {
  items = where_rows (λ r. not (row_is user product r)) db.items;
}

-- The CHECK of the quantity.
abbrev pub is_quantity : ℕ → Bool
is_quantity n = leb 1 n && leb n 99

-- From the reading of the cart to the COMMIT.
unfoldable pub read_and_commit : Env → List ℕ → Tx Carts (Unit {0}) Cart
read_and_commit env user db = elim (get_cart env user db) [
  | err _ ↦ err tt
  | ok cart ↦ if env.broken commit then err tt else ok (cart, db)
]

-- The transaction of `SetItem`.
unfoldable pub set_item_tx : Env → List ℕ → ℕ → ℕ → Tx Carts (Unit {0}) Cart
unfolding read_and_commit
set_item_tx env user product n = do
  fail_if (env.broken upsert_cart) tt
  modify (put_cart env.now (uuid_value user))
  fail_if (env.broken upsert_item || not (is_quantity n)) tt
  modify (put_item (uuid_value user) product n)
  read_and_commit env user

-- The transaction of `DeleteItem`: the version is raised only where a row was deleted.
unfoldable pub delete_item_tx : Env → List ℕ → ℕ → Tx Carts (Unit {0}) Cart
unfolding read_and_commit
delete_item_tx env user product = do
  fail_if (env.broken delete_item) tt
  db ← gets (λ db. db)
  modify (drop_item (uuid_value user) product)
  fail_if (exists (row_is (uuid_value user) product) db.items && env.broken update_version) tt
  modify (λ db'.
      if exists (row_is (uuid_value user) product) db.items
      then bump env.now (uuid_value user) db'
      else db')
  read_and_commit env user

-- DEL of the key of the text.
abbrev pub forget : Env → List ℕ → Carts → Carts
forget env user db = if env.del_down then db else record db { cache = (user, none) ∷ db.cache }

-- The entry of a key: the last one written.
unfoldable pub cached : List ℕ → List (List ℕ × Option Cart) → Option Cart
cached user [] = none
cached user ((k, c) ∷ m) = let rest = cached user m in if bytes_eq k user then c else rest

abbrev commit_and_forget :
    Env → List ℕ → Result (Unit {0}) Cart × Carts → Result (Unit {0}) Cart × Carts
commit_and_forget env user (err e, db) = (err e, db)
commit_and_forget env user (ok cart, db) = (ok cart, forget env user db)

-- `SetItem`
unfoldable pub set_item : Env → List ℕ → ℕ → ℕ → Carts → Result (Unit {0}) Cart × Carts
unfolding set_item_tx
set_item env user product n db =
    if env.broken begin
    then (err tt, db)
    else commit_and_forget env user (transact (set_item_tx env user product n) db)

-- `DeleteItem`
unfoldable pub remove_item : Env → List ℕ → ℕ → Carts → Result (Unit {0}) Cart × Carts
unfolding delete_item_tx
remove_item env user product db =
    if env.broken begin
    then (err tt, db)
    else commit_and_forget env user (transact (delete_item_tx env user product) db)

-- `Get`: a cached cart is answered; otherwise the cart that is read is cached.
unfoldable pub get : Env → List ℕ → Carts → Result (Unit {0}) Cart × Carts
unfolding cached
get env user db = elim (if env.get_down then none else cached user db.cache) [
  | some cart ↦ (ok cart, db)
  | none ↦ elim (get_cart env user db) [
    | err e ↦ (err e, db)
    | ok cart ↦
        if env.set_down
        then (ok cart, db)
        else (ok cart, record db { cache = (user, some cart) ∷ db.cache })
  ]
]
