-- ===== src/Catalog/Handler/Accepts.antt =====
-- What `validateReserve` accepts (services/catalog-service/internal/catalog/handler.go).
use freshflow.Prelude.{
  ℕ, ◌≤◌, ◌≡◌, ◌↔◌, refl, true, false, none, List, [], ◌∷◌, exists, length, All, arith,
}
use freshflow.Prelude.Int.{pos, ◌≤ℤ◌}
use freshflow.Platform.Bytes.{bytes_eq, bytes_eq_comm}
use freshflow.Platform.Id.{is_uuid}
use freshflow.Catalog.Handler.{
  ItemBody, ReserveBody, invalid_item, validate_items, validate_reserve,
}

abbrev pub IsItem : ItemBody → Type 0
IsItem i = (is_uuid i.product_id ≡ true) × (pos 1 ≤ℤ i.quantity) × (i.quantity ≤ℤ pos 99)

-- No product id stands twice.
abbrev pub HasDistinctProducts : List ItemBody → Type 0
HasDistinctProducts [] = Unit
HasDistinctProducts (i ∷ is) =
    (exists (λ j. bytes_eq i.product_id j.product_id) is ≡ false) × HasDistinctProducts is

pub record IsAcceptable (r : ReserveBody) : Type 0 where
  pub attempt : is_uuid r.checkout_attempt_id ≡ true
  pub some_items : 1 ≤ length r.items
  pub few_items : length r.items ≤ 100
  pub least_ttl : pos 60 ≤ℤ r.ttl_seconds
  pub most_ttl : r.ttl_seconds ≤ℤ pos 1800
  pub items : All IsItem r.items
  pub distinct : HasDistinctProducts r.items

-- None of the items has an id of the list.
abbrev IsApart : List (List ℕ) → List ItemBody → Type 0
IsApart seen is = All (λ i. exists (bytes_eq i.product_id) seen ≡ false) is

IsItem-invalid_item : (i : ItemBody) → invalid_item i ≡ false → IsItem i
IsItem-invalid_item i h = ground arith

invalid_item_not : (i : ItemBody) → IsItem i → invalid_item i ≡ false
invalid_item_not i h = ground arith

IsApart-cons :
    (p : List ℕ) (seen : List (List ℕ)) (is : List ItemBody)
    → IsApart (p ∷ seen) is
    → (exists (λ j. bytes_eq p j.product_id) is ≡ false) × IsApart seen is
IsApart-cons p seen [] h = (refl, tt)
IsApart-cons p seen (i ∷ is) h =
    let rest = IsApart-cons p seen is h.1 in
    (ground (arith, bytes_eq_comm p i.product_id, rest.0, h.0), (ground (arith, h.0), rest.1))

IsApart-add :
    (p : List ℕ) (seen : List (List ℕ)) (is : List ItemBody)
    → exists (λ j. bytes_eq p j.product_id) is ≡ false
    → IsApart seen is
    → IsApart (p ∷ seen) is
IsApart-add p seen [] h k = tt
IsApart-add p seen (i ∷ is) h k =
    (ground (arith, bytes_eq_comm p i.product_id, k.0), IsApart-add p seen is (ground arith) k.1)

validate_items_sound :
    (is : List ItemBody) (seen : List (List ℕ))
    → validate_items is seen ≡ none
    → All IsItem is × HasDistinctProducts is × IsApart seen is
unfolding validate_items
validate_items_sound [] seen e = (tt, tt, tt)
validate_items_sound (i ∷ is) seen e =
    let (items, distinct, apart) = validate_items_sound is (i.product_id ∷ seen) (ground arith) in
    let (fresh, rest) = IsApart-cons i.product_id seen is apart in
    ((IsItem-invalid_item i (ground arith), items), (fresh, distinct), (ground arith, rest))

validate_items_complete :
    (is : List ItemBody) (seen : List (List ℕ))
    → All IsItem is
    → HasDistinctProducts is
    → IsApart seen is
    → validate_items is seen ≡ none
unfolding validate_items
validate_items_complete [] seen items distinct apart = refl
validate_items_complete (i ∷ is) seen items distinct apart =
    rw (invalid_item_not i items.0, apart.0)
      (validate_items_complete is (i.product_id ∷ seen) items.1 distinct.1
        (IsApart-add i.product_id seen is distinct.0 apart.1))

-- A reservation passes the validation exactly when its attempt is a UUID, it has 1 to 100 items, each a
-- UUID with a quantity from 1 to 99 and no id twice, and it lives for 60 to 1800 seconds.
pub validate_reserve_iff : (r : ReserveBody) → (validate_reserve r ≡ none) ↔ IsAcceptable r
unfolding validate_reserve
validate_reserve_iff r = (
  λ e.
      let (items, distinct, _) = validate_items_sound r.items [] (ground arith) in
      record {
        attempt = ground arith;
        some_items = ground arith;
        few_items = ground arith;
        least_ttl = ground arith;
        most_ttl = ground arith;
        items = items;
        distinct = distinct;
      },
  λ h.
      let valid = validate_items_complete r.items [] h.items h.distinct (apart_nil r.items) in
      ground (arith, valid),
)
  where
    apart_nil : (is : List ItemBody) → IsApart [] is
    apart_nil [] = tt
    apart_nil (i ∷ is) = (refl, apart_nil is)
