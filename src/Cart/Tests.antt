-- ===== src/Cart/Tests.antt =====
-- The cart store on concrete data (services/cart-service/internal/cart/store.go).
use freshflow.Prelude.{ℕ, List, ◌≡◌, refl, Bool, true, false, some, [], ◌∷◌, ok}
use freshflow.Prelude.Sort.{sort_by}
use freshflow.Cart.Model.{Cart, Carts, Env, Call, commit}
use freshflow.Platform.Text.{codes}
use freshflow.Platform.Bytes.{bytes_eq}
use freshflow.Platform.Id.{uuid_value}
use freshflow.Cart.Store.{items_of, set_item, get, cached}
use freshflow.Cart.Laws.{get-set_item, get-set_item_other}

-- Two spellings of one user.
abbrev lower : List ℕ
lower = codes "00000000-0000-4000-8000-00000000000a"

abbrev upper : List ℕ
upper = codes "00000000-0000-4000-8000-00000000000A"

-- The number that both stand for.
abbrev user_number : ℕ
user_number = 302240678275694148452362

one_user : (uuid_value lower ≡ user_number) × (uuid_value upper ≡ user_number)
unfolding uuid_value
one_user = (refl, refl)

abbrev calm : Env
calm = record {
  broken = λ _. false;
  now = 50;
  get_down = false;
  set_down = false;
  del_down = false;
}

abbrev commit_fails : Call → Bool
commit_fails commit = true
commit_fails _ = false

abbrev stormy : Env
stormy = record calm { broken = commit_fails }

abbrev old_cart : Cart
old_cart = record {
  user_id = lower;
  version = 3;
  items = record { product_id = 2; quantity = 1 } ∷ [];
  updated_at = some 40;
}

abbrev stored : Carts
stored = record {
  carts = record { user_id = user_number; version = 3; updated_at = 40 } ∷ [];
  items = record { user_id = user_number; product_id = 2; quantity = 1 } ∷ [];
  cache = (lower, some old_cart) ∷ [];
}

abbrev cart : Cart
cart = record {
  user_id = lower;
  version = 4;
  items = record { product_id = 1; quantity = 7 } ∷ record { product_id = 2; quantity = 1 } ∷ [];
  updated_at = some 50;
}

sets : (set_item calm lower 1 7 stored).0 ≡ ok cart
unfolding set_item items_of sort_by uuid_value
sets = refl

gets_cart : (get calm lower (set_item calm lower 1 7 stored).1).0 ≡ ok cart
unfolding get set_item items_of sort_by uuid_value bytes_eq
gets_cart = refl

get-set_item_example : cart ≡ cart
get-set_item_example = get-set_item calm calm lower 1 7 stored cart cart refl sets gets_cart

sets_upper : (set_item calm upper 1 7 stored).0 ≡ ok (record cart { user_id = upper })
unfolding set_item items_of sort_by uuid_value
sets_upper = refl

was_cached : cached lower stored.cache ≡ some old_cart
unfolding cached bytes_eq
was_cached = refl

apart : bytes_eq upper lower ≡ false
unfolding bytes_eq
apart = refl

get-set_item_other_example : (get calm lower (set_item calm upper 1 7 stored).1).0 ≡ ok old_cart
get-set_item_other_example =
    get-set_item_other calm calm upper lower 1 7 stored (record cart { user_id = upper }) old_cart
      apart refl was_cached sets_upper
