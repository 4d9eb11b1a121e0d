-- ===== src/Order/Clients.antt =====
-- The client of the order service for the catalog (services/order-service/internal/order/client.go), over
-- the handlers of that service. The text of a
-- UUID that a database or a caller gives is a parameter, as is what the network does to a call.
pub mod Books
pub mod Direct
pub mod Tests
use freshflow.Prelude.{
  ℕ, String, Bool, not, ◌==◌, Option, some, List, map, if◌then◌else◌, Result, ok, err,
}
use freshflow.Prelude.Int.{ℤ, pos}
use freshflow.Platform.Http.{Reply, json, no_content, failure, status_of}
use freshflow.Catalog.Model
use freshflow.Catalog.Handler.{ItemBody, ReserveBody, handle_reserve, handle_release}
use freshflow.Order.Model.{
  CartItem, ReserveRequest, ReservedItem, Reservation, UpstreamError, upstream, unreachable,
  Inventory,
}

-- What happens to a call: whether it arrives, whether its answer comes back, and whether that can be
-- decoded.
pub record Wire : Type 0 where
  pub arrives : Bool
  pub returns : Bool
  pub decodes : Bool

-- What the calls to the catalog meet.
pub record Link : Type 0 where
  pub reserve_wire : Wire
  pub release_wire : Wire
  pub reserve_env : Model.Env
  pub release_env : Model.Env
  pub text_of : ℕ → List ℕ

abbrev pub body_item : (ℕ → List ℕ) → CartItem → ItemBody
body_item text_of i = record { product_id = text_of i.product_id; quantity = pos i.quantity }

abbrev pub body_of : (ℕ → List ℕ) → ReserveRequest → ReserveBody
body_of text_of r = record {
  checkout_attempt_id = text_of r.checkout_attempt_id;
  items = map (body_item text_of) r.items;
  ttl_seconds = pos r.ttl_seconds;
}

abbrev pub status_text : Model.Status → String
status_text Model.active = "active"
status_text Model.Status.failed = "failed"
status_text Model.released = "released"
status_text Model.consumed = "consumed"

abbrev pub item_read : Model.ReservedItem → ReservedItem
item_read i = record {
  product_id = i.product_id;
  product_name = i.product_name;
  quantity = i.quantity;
  unit_price_minor = i.unit_price_minor;
  currency = i.currency;
}

-- The fields of the answer that the client keeps.
abbrev pub reservation_read : Model.ReservationResponse → Reservation
reservation_read r = record {
  reservation_id = r.reservation_id;
  status = status_text r.status;
  items = map item_read r.items;
  total_amount_minor = r.total_amount_minor;
  currency = r.currency;
}

-- The decoding of an answer; no handler gives an error the status of a success.
abbrev pub decoded : {A B : Type 0} → (A → B) → Wire → Reply A → Result UpstreamError B
decoded read wire (json _ value) = if wire.decodes then ok (read value) else err unreachable
decoded read wire no_content = err unreachable
decoded read wire (failure _) = err unreachable

-- `CatalogClient.Reserve`, from the answer on.
abbrev pub reserve_answer :
    Wire → Reply Model.ReservationResponse → Result UpstreamError Reservation
reserve_answer wire reply =
    if not wire.returns
    then err unreachable
    else if status_of reply == 409
    then err (upstream 409 "inventory_insufficient")
    else if not (status_of reply == 201)
    then err (upstream (status_of reply) "catalog_unavailable")
    else decoded reservation_read wire reply

-- `CatalogClient.Reserve`
unfoldable pub client_reserve :
    Link → ReserveRequest → Model.Catalog → Result UpstreamError Reservation × Model.Catalog
client_reserve link request s =
    if not link.reserve_wire.arrives
    then (err unreachable, s)
    else (let (reply, s') =
          handle_reserve link.reserve_env (some (body_of link.text_of request)) s in
        (reserve_answer link.reserve_wire reply, s'))

-- `CatalogClient.Release`, from the answer on.
abbrev pub release_answer : Wire → Reply (Unit {0}) → Result UpstreamError (Unit {0})
release_answer wire reply =
    if not wire.returns
    then err unreachable
    else if not (status_of reply == 204)
    then err (upstream (status_of reply) "reservation_release_failed")
    else ok tt

-- `CatalogClient.Release`
unfoldable pub client_release :
    Link → ℕ → Model.Catalog → Result UpstreamError (Unit {0}) × Model.Catalog
client_release link id s =
    if not link.release_wire.arrives
    then (err unreachable, s)
    else (let (reply, s') = handle_release link.release_env (link.text_of id) s in
        (release_answer link.release_wire reply, s'))

-- The inventory of the order service: the catalog service behind its HTTP interface.
abbrev pub catalog_inventory : Link → Inventory Model.Catalog
catalog_inventory link = record { reserve = client_reserve link; release = client_release link }
