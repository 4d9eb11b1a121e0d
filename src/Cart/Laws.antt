-- ===== src/Cart/Laws.antt =====
-- The promises of the cart store (services/cart-service/internal/cart/store.go).
use freshflow.Prelude.{
  ℕ, suc, ◌+◌, ◌≡◌, refl, ap, sym, ◌∙◌, true, false, ==_refl, none, some, List, [], ◌∷◌, ◌++◌,
  if◌then◌else◌, find, exists, update_where, ok, err, arith, Bool-cases, Option-cases, Result-cases,
  inl, inr,
}
use freshflow.Platform.Bytes.{bytes_eq, bytes_eq_refl}
use freshflow.Platform.Id.{uuid_value}
use freshflow.Cart.Model.{Cart, CartRow, Carts, Env, cart_is}
use freshflow.Cart.Store.{
  cart_of, get_cart, raise, put_cart, put_item, read_and_commit, set_item_tx, forget, cached,
  set_item, get,
}

-- A call that fails leaves the tables and the cache as they were.
pub set_item_error_unchanged :
    (env : Env) (user : List ℕ) (product n : ℕ) (db : Carts)
    → (set_item env user product n db).0 ≡ err tt
    → (set_item env user product n db).1 ≡ db
unfolding set_item
set_item_error_unchanged env user product n db e = ground arith

get_cart-cart_of :
    (env : Env) (user : List ℕ) (db : Carts) (cart : Cart)
    → get_cart env user db ≡ ok cart
    → cart ≡ cart_of user db
get_cart-cart_of env user db cart e = ground arith

-- What a call of `SetItem` or `DeleteItem` that went through did.
pub record Writes (env : Env) (user : List ℕ) (db written : Carts) (cart : Cart) (db' : Carts)
    : Type 0 where
  pub answered : cart ≡ cart_of user written
  pub after : db' ≡ forget env user written

read_and_commit_lem :
    (env : Env) (user : List ℕ) (db db' : Carts) (cart : Cart)
    → read_and_commit env user db ≡ ok (cart, db')
    → (cart ≡ cart_of user db) × (db' ≡ db)
unfolding read_and_commit
read_and_commit_lem env user db db' cart e = elim (Result-cases (get_cart env user db)) [
  | inl (x, failed) ↦ absurd (ground arith)
  | inr (c, went) ↦
      ((let q : cart ≡ c = ground arith in q) ∙ get_cart-cart_of env user db c went, ground arith)
]

pub set_item-Writes :
    (env : Env) (user : List ℕ) (product n : ℕ) (db : Carts) (cart : Cart)
    → (set_item env user product n db).0 ≡ ok cart
    → Writes env user db
        (put_item (uuid_value user) product n (put_cart env.now (uuid_value user) db))
        cart
        (set_item env user product n db).1
unfolding set_item set_item_tx
set_item-Writes env user product n db cart e =
    let written = put_item (uuid_value user) product n (put_cart env.now (uuid_value user) db) in
    elim (Result-cases (read_and_commit env user written)) [
      | inl (x, failed) ↦ absurd (ground arith)
      | inr ((c, last), went) ↦
          let (answered, same) = read_and_commit_lem env user written last c went in
          record { answered = ground arith; after = ground (arith, same) }
    ]

-- The version of the row of a user, 0 without a row.
abbrev version_of : ℕ → List CartRow → ℕ
version_of user [] = 0
version_of user (r ∷ rs) = if cart_is user r then r.version else version_of user rs

version_of-none :
    (user : ℕ) (rs : List CartRow) → find (cart_is user) rs ≡ none → version_of user rs ≡ 0
version_of-none user [] e = refl
version_of-none user (q ∷ rs) e = ground (arith, version_of-none user rs)

version_of-some :
    (user : ℕ) (rs : List CartRow) (r : CartRow)
    → find (cart_is user) rs ≡ some r
    → version_of user rs ≡ r.version
version_of-some user [] r e = cc
version_of-some user (q ∷ rs) r e = ground (arith, version_of-some user rs r)

cart_of_version :
    (user : List ℕ) (db : Carts) → (cart_of user db).version ≡ version_of (uuid_value user) db.carts
cart_of_version user db = elim (Option-cases (find (cart_is (uuid_value user)) db.carts)) [
  | inl absent ↦ rw (cart_of, absent) (sym (version_of-none (uuid_value user) db.carts absent))
  | inr (r, found) ↦ rw (cart_of, found) (sym (version_of-some (uuid_value user) db.carts r found))
]

version_of-raise :
    (now user : ℕ) (rs : List CartRow)
    → exists (cart_is user) rs ≡ true
    → version_of user (update_where (cart_is user) (raise now) rs) ≡ suc (version_of user rs)
version_of-raise now user [] there = cc
version_of-raise now user (q ∷ rs) there = elim (Bool-cases (cart_is user q)) [
  | inl same ↦ rw (same, same) refl
  | inr other ↦ rw (other, other) (version_of-raise now user rs (ground arith))
]

version_of-append :
    (user : ℕ) (rs : List CartRow) (r : CartRow)
    → exists (cart_is user) rs ≡ false
    → cart_is user r ≡ true
    → version_of user (rs ++ r ∷ []) ≡ r.version + version_of user rs
version_of-append user [] r absent own = ground arith
version_of-append user (q ∷ rs) r absent own = ground (arith, version_of-append user rs r)

version_of-absent :
    (user : ℕ) (rs : List CartRow) → exists (cart_is user) rs ≡ false → version_of user rs ≡ 0
version_of-absent user [] e = refl
version_of-absent user (q ∷ rs) e = ground (arith, version_of-absent user rs)

put_cart_version :
    (now user : ℕ) (db : Carts)
    → version_of user (put_cart now user db).carts ≡ suc (version_of user db.carts)
put_cart_version now user db = elim (Bool-cases (exists (cart_is user) db.carts)) [
  | inl there ↦ rw (put_cart, there) (version_of-raise now user db.carts there)
  | inr absent ↦
      rw (put_cart, absent)
        (version_of-append user db.carts (record { user_id = user; version = 1; updated_at = now })
            absent (==_refl user)
          ∙ omega arith)
]

put_item_carts : (user product n : ℕ) (db : Carts) → (put_item user product n db).carts ≡ db.carts
put_item_carts user product n db = ground arith

-- A quantity that is set raises the version of the cart by one, also where the cart is new or the
-- quantity was the same before.
pub set_item_version :
    (env : Env) (user : List ℕ) (product n : ℕ) (db : Carts) (cart : Cart)
    → (set_item env user product n db).0 ≡ ok cart
    → cart.version ≡ suc (cart_of user db).version
set_item_version env user product n db cart e =
    let w = set_item-Writes env user product n db cart e in
    let written = put_item (uuid_value user) product n (put_cart env.now (uuid_value user) db) in
    ap (λ (c : Cart). c.version) w.answered
    ∙ cart_of_version user written
    ∙ ap (version_of (uuid_value user))
        (put_item_carts (uuid_value user) product n (put_cart env.now (uuid_value user) db))
    ∙ put_cart_version env.now (uuid_value user) db
    ∙ ap suc (sym (cart_of_version user db))

cached_forgotten :
    (env : Env) (user : List ℕ) (db : Carts)
    → env.del_down ≡ false
    → cached user (forget env user db).cache ≡ none
unfolding cached
cached_forgotten env user db up = rw up (rw (bytes_eq_refl user) refl)

cart_of-forget :
    (env : Env) (user : List ℕ) (db : Carts) → cart_of user (forget env user db) ≡ cart_of user db
cart_of-forget env user db = elim (Bool-cases env.del_down) [
  | inl down ↦ rw down refl
  | inr up ↦ rw up refl
]

get_uncached :
    (env : Env) (user : List ℕ) (db : Carts) (cart : Cart)
    → cached user db.cache ≡ none
    → (get env user db).0 ≡ ok cart
    → cart ≡ cart_of user db
unfolding get
get_uncached env user db cart cold e = elim (Result-cases (get_cart env user db)) [
  | inl (x, failed) ↦ absurd (ground arith)
  | inr (c, went) ↦ (let q : cart ≡ c = ground arith in q) ∙ get_cart-cart_of env user db c went
]

-- A cart is read as it was written: where Redis has dropped the cached cart, a call of `Get` that
-- answers after a call of `SetItem` with the user in the same spelling gives the cart that `SetItem`
-- answered with.
pub get-set_item :
    (env env' : Env) (user : List ℕ) (product n : ℕ) (db : Carts) (cart cart' : Cart)
    → env.del_down ≡ false
    → (set_item env user product n db).0 ≡ ok cart
    → (get env' user (set_item env user product n db).1).0 ≡ ok cart'
    → cart' ≡ cart
get-set_item env env' user product n db cart cart' up e e' =
    let written = put_item (uuid_value user) product n (put_cart env.now (uuid_value user) db) in
    let w = set_item-Writes env user product n db cart e in
    let cold : cached user (set_item env user product n db).1.cache ≡ none =
      rw w.after (cached_forgotten env user written up) in
    get_uncached env' user (set_item env user product n db).1 cart' cold e'
    ∙ ap (cart_of user) w.after
    ∙ cart_of-forget env user written
    ∙ sym w.answered

put_cart_cache : (now user : ℕ) (db : Carts) → (put_cart now user db).cache ≡ db.cache
put_cart_cache now user db = elim (Bool-cases (exists (cart_is user) db.carts)) [
  | inl there ↦ rw (put_cart, there) refl
  | inr absent ↦ rw (put_cart, absent) refl
]

put_item_cache : (user product n : ℕ) (db : Carts) → (put_item user product n db).cache ≡ db.cache
put_item_cache user product n db = ground arith

cached-forget :
    (env : Env) (user other : List ℕ) (db : Carts)
    → bytes_eq user other ≡ false
    → cached other (forget env user db).cache ≡ cached other db.cache
unfolding cached
cached-forget env user other db apart = elim (Bool-cases env.del_down) [
  | inl down ↦ rw down refl
  | inr up ↦ rw up (rw apart refl)
]

get-cached :
    (env : Env) (user : List ℕ) (db : Carts) (stale : Cart)
    → env.get_down ≡ false
    → cached user db.cache ≡ some stale
    → (get env user db).0 ≡ ok stale
unfolding get
get-cached env user db stale up kept = ground (arith, up, kept)

-- A cart that is cached under one spelling of a user outlives a change of the cart under another: where
-- Redis answers, `Get` with the first spelling still gives the cart that was cached, whichever user it is
-- that the two texts stand for.
pub get-set_item_other :
    (env env' : Env) (user other : List ℕ) (product n : ℕ) (db : Carts) (cart stale : Cart)
    → bytes_eq user other ≡ false
    → env'.get_down ≡ false
    → cached other db.cache ≡ some stale
    → (set_item env user product n db).0 ≡ ok cart
    → (get env' other (set_item env user product n db).1).0 ≡ ok stale
get-set_item_other env env' user other product n db cart stale apart up kept e =
    let row = put_cart env.now (uuid_value user) db in
    let written = put_item (uuid_value user) product n row in
    let w = set_item-Writes env user product n db cart e in
    let there : cached other (set_item env user product n db).1.cache ≡ some stale =
      ap (λ (c : Carts). cached other c.cache) w.after
      ∙ cached-forget env user other written apart
      ∙ ap (cached other) (
          put_item_cache (uuid_value user) product n row
          ∙ put_cart_cache env.now (uuid_value user) db)
      ∙ kept in
    get-cached env' other (set_item env user product n db).1 stale up there
