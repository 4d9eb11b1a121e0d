-- ===== src/Delivery/Views.antt =====
-- What the delivery service shows (services/delivery-service/internal/delivery/handler.go): a delivery with
-- its courier, the stream of it, the assignments that the simulator asks for, and the couriers at work.
pub mod Streamed
pub mod Tests
use freshflow.Prelude.{
  ℕ, String, Bool, true, false, not, ◌&&◌, ◌||◌, ◌==◌, Option, none, some, List, [], ◌∷◌, ◌++◌, map,
  if◌then◌else◌, find,
}
use freshflow.Prelude.Sort.{sort_by}
use freshflow.Platform.Id.{is_uuid, uuid_value}
use freshflow.Platform.Http.{ApiError, error, internal_error, Reply, json, failure}
use freshflow.Delivery.Model.{
  CourierStatus, Courier, Status, Delivery, Logistics, courier_is, delivery_is, order_is,
  is_terminal,
}

-- A delivery as it is shown, with what it shows of its courier.
pub record View : Type 0 where
  pub delivery : Delivery
  pub courier_name : String
  pub courier_latitude : ℕ
  pub courier_longitude : ℕ

abbrev pub view_of : Delivery → Courier → View
view_of d c = record {
  delivery = d;
  courier_name = c.name;
  courier_latitude = c.latitude;
  courier_longitude = c.longitude;
}

-- The JOIN with the courier of one row.
abbrev pub joined : Logistics → Option Delivery → Option View
joined db none = none
joined db (some d) = elim (find (courier_is d.courier_id) db.couriers) [
  | none ↦ none
  | some c ↦ some (view_of d c)
]

-- `deliveryByOrder`; `none` is pgx.ErrNoRows.
unfoldable pub delivery_by_order : ℕ → Logistics → Option View
delivery_by_order id db = joined db (find (order_is id) db.deliveries)

-- `deliveryByID`
unfoldable pub delivery_by_id : ℕ → Logistics → Option View
delivery_by_id id db = joined db (find (delivery_is id) db.deliveries)

-- `getByOrder`
unfoldable pub handle_get_by_order : Bool → List ℕ → Logistics → Reply View
unfolding delivery_by_order
handle_get_by_order broken id db =
    if not (is_uuid id)
    then failure (error 400 "invalid_order_id")
    else if broken
    then failure internal_error
    else elim (delivery_by_order (uuid_value id) db) [
      | none ↦ failure (error 404 "delivery_not_found")
      | some v ↦ json 200 v
    ]

-- The rows of the SELECT of `assignments`, in the order of the list.
unfoldable pub live_views : Logistics → List Delivery → List View
live_views db [] = []
live_views db (d ∷ ds) =
    let rest = live_views db ds in
    if is_terminal d.status then rest else elim (find (courier_is d.courier_id) db.couriers) [
      | none ↦ rest
      | some c ↦ view_of d c ∷ rest
    ]

unfoldable pub assignments : Logistics → List View
unfolding live_views
assignments db = live_views db (sort_by (λ d. d.assigned_at) db.deliveries)

-- `assignments` of the handler.
unfoldable pub handle_assignments : Bool → Logistics → Reply (List View)
unfolding assignments
handle_assignments broken db = if broken then failure internal_error else json 200 (assignments db)

-- A courier as an operator sees them, with the live delivery that they carry.
pub record CourierRow : Type 0 where
  pub courier : Courier
  pub active : Option (ℕ × ℕ × Status)

-- The rows of the LEFT JOIN for one courier.
unfoldable pub carried : Courier → List Delivery → List CourierRow
carried c [] = []
carried c (d ∷ ds) =
    let rest = carried c ds in
    if d.courier_id == c.id && not (is_terminal d.status)
    then record { courier = c; active = some (d.id, d.order_id, d.status) } ∷ rest
    else rest

abbrev or_idle : Courier → List CourierRow → List CourierRow
or_idle c [] = record { courier = c; active = none } ∷ []
or_idle c (r ∷ rs) = r ∷ rs

unfoldable pub courier_rows : List Courier → List Delivery → List CourierRow
unfolding carried
courier_rows [] ds = []
courier_rows (c ∷ cs) ds = or_idle c (carried c ds) ++ courier_rows cs ds

-- `couriers` of the handler; the ORDER BY of the names is a parameter.
unfoldable pub handle_couriers :
    (List CourierRow → List CourierRow) → Bool → Logistics → Reply (List CourierRow)
unfolding courier_rows
handle_couriers by_name broken db =
    if broken
    then failure internal_error
    else json 200 (by_name (courier_rows db.couriers db.deliveries))

-- What one turn of the loop of the stream meets.
pub record Poll : Type 0 where
  pub db : Logistics
  pub read_fails : Bool
  pub encode_fails : Bool
  pub flush_fails : Bool
  pub client_gone : Bool

pub data Frame : Type 0 where
  refused : ApiError → Frame
  pending : Frame
  shown : View → Frame

-- The loop; the list ends where the process does.
unfoldable pub polls : ℕ → List Poll → List Frame
unfolding delivery_by_order
polls id [] = []
polls id (p ∷ ps) =
    let rest = polls id ps in
    let after = if p.client_gone then [] else rest in
    if p.read_fails then [] else elim (delivery_by_order id p.db) [
      | none ↦ pending ∷ (if p.flush_fails then [] else after)
      | some v ↦
          if p.encode_fails
          then []
          else shown v ∷ (if p.flush_fails || is_terminal v.delivery.status then [] else after)
    ]

-- `streamByOrder`
unfoldable pub stream_by_order : List ℕ → List Poll → List Frame
unfolding polls
stream_by_order id ps =
    if not (is_uuid id)
    then refused (error 400 "invalid_order_id") ∷ []
    else polls (uuid_value id) ps
