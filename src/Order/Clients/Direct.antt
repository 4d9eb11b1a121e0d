-- ===== src/Order/Clients/Direct.antt =====
-- Over a network that works, a reservation of the order service is a call of the catalog's store
-- (services/order-service/internal/order/client.go, services/catalog-service/internal/catalog/handler.go,
-- store.go).
use freshflow.Prelude.{
  ℕ, ◌≡◌, ◌≤◌, refl, sym, ap, ◌∙◌, true, false, ◌==◌, some, List, [], ◌∷◌, map, exists, length, All,
  Result, ok, err, Bool-cases, if◌then◌else◌, inl, inr, arith,
}
use freshflow.Platform.Bytes.{bytes_eq, bytes_eq→eq}
use freshflow.Platform.Id.{is_uuid, uuid_value}
use freshflow.Catalog.Model
use freshflow.Catalog.Model.{Catalog, StoreError, is_failed}
use freshflow.Catalog.Reserve.{reserve}
use freshflow.Catalog.Release.{release}
use freshflow.Catalog.Handler.{
  item_of, request_of, handle_reserve, reserve_reply, handle_release, release_reply,
}
use freshflow.Catalog.Handler.Accepts.{
  IsItem, HasDistinctProducts, IsAcceptable, validate_reserve_iff,
}
use freshflow.Order.Model.{CartItem, ReserveRequest, Reservation, UpstreamError, upstream}
use freshflow.Order.Clients.{
  Wire, Link, body_item, body_of, reservation_read, reserve_answer, client_reserve, release_answer,
  client_release,
}

-- The call arrives, and its answer comes back and can be decoded.
pub record Works (wire : Wire) : Type 0 where
  pub arrives : wire.arrives ≡ true
  pub returns : wire.returns ≡ true
  pub decodes : wire.decodes ≡ true

-- The text of an id is one that stands for it.
abbrev pub IsWritten : (ℕ → List ℕ) → ℕ → Type 0
IsWritten text_of k = (is_uuid (text_of k) ≡ true) × (uuid_value (text_of k) ≡ k)

abbrev pub IsOrdered : (ℕ → List ℕ) → CartItem → Type 0
IsOrdered text_of i = IsWritten text_of i.product_id × (1 ≤ i.quantity) × (i.quantity ≤ 99)

-- No product stands twice.
abbrev pub HasDistinctItems : List CartItem → Type 0
HasDistinctItems [] = Unit
HasDistinctItems (i ∷ is) =
    (exists (λ j. j.product_id == i.product_id) is ≡ false) × HasDistinctItems is

-- A request that the catalog takes.
pub record IsFit (text_of : ℕ → List ℕ) (r : ReserveRequest) : Type 0 where
  pub attempt : IsWritten text_of r.checkout_attempt_id
  pub items : All (IsOrdered text_of) r.items
  pub distinct : HasDistinctItems r.items
  pub some_items : 1 ≤ length r.items
  pub few_items : length r.items ≤ 100
  pub least_ttl : 60 ≤ r.ttl_seconds
  pub most_ttl : r.ttl_seconds ≤ 1800

abbrev store_item : CartItem → Model.ReservationItem
store_item i = record { product_id = i.product_id; quantity = i.quantity }

-- The request as the store takes it.
abbrev pub store_request : ReserveRequest → Model.ReserveRequest
store_request r = record {
  checkout_attempt_id = r.checkout_attempt_id;
  items = map store_item r.items;
  ttl_seconds = r.ttl_seconds;
}

-- The answer of the store as the order service sees it.
abbrev pub answer_read :
    Result StoreError Model.ReservationResponse → Result UpstreamError Reservation
answer_read (err _) = err (upstream 500 "catalog_unavailable")
answer_read (ok r) =
    if is_failed r.status
    then err (upstream 409 "inventory_insufficient")
    else ok (reservation_read r)

items-written :
    (text_of : ℕ → List ℕ) (is : List CartItem)
    → All (IsOrdered text_of) is
    → map item_of (map (body_item text_of) is) ≡ map store_item is
items-written text_of [] h = refl
items-written text_of (i ∷ is) h =
    ap
      (λ k.
        record { product_id = k; quantity = i.quantity } ∷ map item_of (map (body_item text_of) is))
      h.0.0.1
    ∙ ap (λ js. store_item i ∷ js) (items-written text_of is h.1)

length-bodies :
    (text_of : ℕ → List ℕ) (is : List CartItem) → length (map (body_item text_of) is) ≡ length is
length-bodies text_of [] = refl
length-bodies text_of (i ∷ is) = omega (arith, length-bodies text_of is)

All-IsItem :
    (text_of : ℕ → List ℕ) (is : List CartItem)
    → All (IsOrdered text_of) is
    → All IsItem (map (body_item text_of) is)
All-IsItem text_of [] h = tt
All-IsItem text_of (i ∷ is) h = ((h.0.0.0, omega arith, omega arith), All-IsItem text_of is h.1)

texts_apart :
    (text_of : ℕ → List ℕ) (k : ℕ) (is : List CartItem)
    → uuid_value (text_of k) ≡ k
    → All (IsOrdered text_of) is
    → exists (λ j. j.product_id == k) is ≡ false
    → exists (λ j. bytes_eq (text_of k) j.product_id) (map (body_item text_of) is) ≡ false
texts_apart text_of k [] own h apart = refl
texts_apart text_of k (i ∷ is) own h apart =
    let rest = texts_apart text_of k is own h.1 (ground arith) in
    elim (Bool-cases (bytes_eq (text_of k) (text_of i.product_id))) [
      | inr other ↦ rw other rest
      | inl same ↦
          let texts = bytes_eq→eq (text_of k) (text_of i.product_id) same in
          let ids : k ≡ i.product_id = sym own ∙ ap uuid_value texts ∙ h.0.0.1 in
          absurd (ground arith)
    ]

HasDistinctProducts-bodies :
    (text_of : ℕ → List ℕ) (is : List CartItem)
    → All (IsOrdered text_of) is
    → HasDistinctItems is
    → HasDistinctProducts (map (body_item text_of) is)
HasDistinctProducts-bodies text_of [] h d = tt
HasDistinctProducts-bodies text_of (i ∷ is) h d = (
  texts_apart text_of i.product_id is h.0.0.1 h.1 d.0,
  HasDistinctProducts-bodies text_of is h.1 d.1,
)

body-IsAcceptable :
    (text_of : ℕ → List ℕ) (r : ReserveRequest) → IsFit text_of r → IsAcceptable (body_of text_of r)
body-IsAcceptable text_of r h = record {
  attempt = h.attempt.0;
  some_items = omega (arith, h.some_items, length-bodies text_of r.items);
  few_items = omega (arith, h.few_items, length-bodies text_of r.items);
  least_ttl = omega (arith, h.least_ttl);
  most_ttl = omega (arith, h.most_ttl);
  items = All-IsItem text_of r.items h.items;
  distinct = HasDistinctProducts-bodies text_of r.items h.items h.distinct;
}

request-written :
    (text_of : ℕ → List ℕ) (r : ReserveRequest)
    → IsFit text_of r
    → request_of (body_of text_of r) ≡ store_request r
request-written text_of r h =
    ap
      (λ k. record {
        checkout_attempt_id = k;
        items = map item_of (map (body_item text_of) r.items);
        ttl_seconds = r.ttl_seconds;
      })
      h.attempt.1
    ∙ ap
        (λ is. record {
          checkout_attempt_id = r.checkout_attempt_id;
          items = is;
          ttl_seconds = r.ttl_seconds;
        })
        (items-written text_of r.items h.items)

reply_read :
    (wire : Wire) (answer : Result StoreError Model.ReservationResponse)
    → Works wire
    → reserve_answer wire (reserve_reply answer) ≡ answer_read answer
reply_read wire (err e) works = rw works.returns refl
reply_read wire (ok r) works = elim (Bool-cases (is_failed r.status)) [
  | inl short ↦ rw (works.returns, short) refl
  | inr fits ↦ rw (works.returns, fits, works.decodes) refl
]

handle_reserve-reserve :
    (link : Link) (request : ReserveRequest) (s : Catalog)
    → IsFit link.text_of request
    → handle_reserve link.reserve_env (some (body_of link.text_of request)) s ≡ (
      reserve_reply (reserve link.reserve_env (store_request request) s).0,
      (reserve link.reserve_env (store_request request) s).1,
    )
unfolding handle_reserve
handle_reserve-reserve link request s fit =
    let valid =
      (validate_reserve_iff (body_of link.text_of request)).1
        (body-IsAcceptable link.text_of request fit) in
    let same = request-written link.text_of request fit in
    rw (handle_reserve, valid)
      (ap (λ r. (reserve_reply (reserve link.reserve_env r s).0, (reserve link.reserve_env r s).1))
        same)

-- Over a network that works, a reservation of a fit request is the call of the catalog's store with that
-- request: the validation lets it pass, the ids come back from their texts, and a shortage, a failure and a
-- success each come back as themselves.
pub client_reserve-reserve :
    (link : Link) (request : ReserveRequest) (s : Catalog)
    → Works link.reserve_wire
    → IsFit link.text_of request
    → client_reserve link request s ≡ (
      answer_read (reserve link.reserve_env (store_request request) s).0,
      (reserve link.reserve_env (store_request request) s).1,
    )
unfolding client_reserve
client_reserve-reserve link request s works fit =
    let handled = handle_reserve-reserve link request s fit in
    let back =
      reply_read link.reserve_wire (reserve link.reserve_env (store_request request) s).0 works in
    rw (works.arrives, handled)
      (ap (λ a. (a, (reserve link.reserve_env (store_request request) s).1)) back)

-- The answer of the store to a release as the order service sees it.
abbrev pub release_read : Result StoreError (Unit {0}) → Result UpstreamError (Unit {0})
release_read (err Model.not_found) = err (upstream 404 "reservation_release_failed")
release_read (err Model.StoreError.failed) = err (upstream 500 "reservation_release_failed")
release_read (ok _) = ok tt

release_reply_read :
    (wire : Wire) (answer : Result StoreError (Unit {0}))
    → Works wire
    → release_answer wire (release_reply answer) ≡ release_read answer
release_reply_read wire (err Model.not_found) works = rw works.returns refl
release_reply_read wire (err Model.StoreError.failed) works = rw works.returns refl
release_reply_read wire (ok _) works = rw works.returns refl

-- Over a network that works, a release of a reservation whose id is written as itself is the call of the
-- catalog's store; a reservation that is not there and a failure come back as two different statuses.
pub client_release-release :
    (link : Link) (id : ℕ) (s : Catalog)
    → Works link.release_wire
    → IsWritten link.text_of id
    → client_release link id s
      ≡ (release_read (release link.release_env id s).0, (release link.release_env id s).1)
unfolding client_release handle_release
client_release-release link id s works written =
    let back = release_reply_read link.release_wire (release link.release_env id s).0 works in
    rw (works.arrives, written.0, written.1) (ap (λ a. (a, (release link.release_env id s).1)) back)
