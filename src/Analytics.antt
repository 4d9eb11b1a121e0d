-- ===== src/Analytics.antt =====
-- The projection of events into facts (services/analytics-worker/internal/analytics/projector.go,
-- consumer.go, store.go). The parser of github.com/google/uuid and the decoding of JSON are parameters; a
-- coordinate is the bit pattern of its float64. The tables of ClickHouse are lists of facts.
pub mod Laws
pub mod Tests
use freshflow.Prelude.{
  ℕ, suc, ◌+◌, String, Bool, true, false, not, ◌&&◌, ◌||◌, Option, none, some, List, [], ◌∷◌, ◌++◌,
  ltb, leb, if◌then◌else◌, Result, ok, err,
}
use freshflow.Platform.Text.{str_eq}

pub record Item : Type 0 where
  pub product_id : String
  pub product_name : String
  pub quantity : ℕ

-- `eventPayload`
pub record Payload : Type 0 where
  pub order_id : String
  pub delivery_id : String
  pub courier_id : String
  pub status : String
  pub previous_status : String
  pub new_status : String
  pub currency : String
  pub total_amount_minor : ℕ
  pub latitude : Option ℕ
  pub longitude : Option ℕ
  pub predicted_eta_seconds : Option ℕ
  pub actual_eta_seconds : Option ℕ
  pub items : List Item

-- The envelope; `occurred_at` is `none` for the zero time, and `payload` where it does not decode.
pub record Envelope : Type 0 where
  pub event_id : String
  pub event_type : String
  pub aggregate_id : String
  pub correlation_id : String
  pub trace_id : String
  pub occurred_at : Option ℕ
  pub payload : Option Payload

pub record DeliveryFact : Type 0 where
  pub event_id : ℕ
  pub event_type : String
  pub order_id : Option ℕ
  pub delivery_id : Option ℕ
  pub courier_id : Option ℕ
  pub status : String
  pub latitude : Option ℕ
  pub longitude : Option ℕ
  pub predicted_eta_seconds : Option ℕ
  pub actual_eta_seconds : Option ℕ
  pub occurred_at : ℕ
  pub correlation_id : String
  pub trace_id : String
  pub payload : Payload

pub record OrderFact : Type 0 where
  pub event_id : ℕ
  pub order_id : ℕ
  pub event_type : String
  pub status : String
  pub previous_status : String
  pub total_amount_minor : ℕ
  pub currency : String
  pub products : List (ℕ × String × ℕ)
  pub predicted_eta_seconds : Option ℕ
  pub actual_eta_seconds : Option ℕ
  pub occurred_at : ℕ
  pub correlation_id : String
  pub trace_id : String

pub record Projection : Type 0 where
  pub delivery : Option DeliveryFact
  pub order : Option OrderFact

-- `isOrderEvent`
unfoldable pub is_order_event : String → Bool
is_order_event t =
    str_eq t "order.created" || str_eq t "order.confirmed" || str_eq t "order.status_changed"

-- `isDeliveryEvent`
unfoldable pub is_delivery_event : String → Bool
is_delivery_event t =
    str_eq t "delivery.assigned"
    || str_eq t "delivery.status_changed"
    || str_eq t "delivery.completed"
    || str_eq t "courier.location_updated"

module _ (parse_uuid : String → Option ℕ) (now : ℕ) where
  -- The order that an event is about.
  abbrev pub order_of : Envelope → Payload → Option ℕ
  order_of e p = elim (parse_uuid p.order_id) [
    | some id ↦ some id
    | none ↦ if is_order_event e.event_type then parse_uuid e.aggregate_id else none
  ]

  abbrev pub status_of : Payload → String
  status_of p = if not (str_eq p.new_status "") then p.new_status else p.status

  abbrev pub time_of : Envelope → ℕ
  time_of e = elim e.occurred_at [ none ↦ now | some t ↦ t ]

  -- The loop over the items; an id that is not a UUID ends it.
  unfoldable pub products_of : List Item → Option (List (ℕ × String × ℕ))
  products_of [] = some []
  products_of (i ∷ is) =
      let rest = products_of is in
      elim (parse_uuid i.product_id) [
        | none ↦ none
        | some id ↦ elim rest [
          | none ↦ none
          | some ps ↦ some ((id, i.product_name, i.quantity) ∷ ps)
        ]
      ]

  abbrev pub delivery_fact : ℕ → Envelope → Payload → DeliveryFact
  delivery_fact event_id e p = record {
    event_id = event_id;
    event_type = e.event_type;
    order_id = order_of e p;
    delivery_id = parse_uuid p.delivery_id;
    courier_id = parse_uuid p.courier_id;
    status = status_of p;
    latitude = p.latitude;
    longitude = p.longitude;
    predicted_eta_seconds = p.predicted_eta_seconds;
    actual_eta_seconds = p.actual_eta_seconds;
    occurred_at = time_of e;
    correlation_id = e.correlation_id;
    trace_id = e.trace_id;
    payload = p;
  }

  abbrev pub order_fact : ℕ → ℕ → Envelope → Payload → String → List (ℕ × String × ℕ) → OrderFact
  order_fact event_id order_id e p status products = record {
    event_id = event_id;
    order_id = order_id;
    event_type = e.event_type;
    status = status;
    previous_status = p.previous_status;
    total_amount_minor = p.total_amount_minor;
    currency = p.currency;
    products = products;
    predicted_eta_seconds = p.predicted_eta_seconds;
    actual_eta_seconds = p.actual_eta_seconds;
    occurred_at = time_of e;
    correlation_id = e.correlation_id;
    trace_id = e.trace_id;
  }

  -- The fact of an order: an order that was created brings its products.
  abbrev pub order_part : ℕ → Envelope → Payload → Result (Unit {0}) (Option OrderFact)
  order_part event_id e p = elim (order_of e p) [
    | none ↦ ok none
    | some id ↦
        if not (is_order_event e.event_type || is_delivery_event e.event_type)
        then ok none
        else if str_eq e.event_type "order.created"
        then elim (products_of p.items) [
          | none ↦ err tt
          | some ps ↦ ok (some (order_fact event_id id e p "created" ps))
        ]
        else ok (
            some (
              order_fact event_id id e p
                (if str_eq e.event_type "order.confirmed" then "confirmed" else status_of p) []))
  ]

  abbrev delivery_part : ℕ → Envelope → Payload → Option DeliveryFact
  delivery_part event_id e p =
      if is_delivery_event e.event_type then some (delivery_fact event_id e p) else none

  -- `Project`
  unfoldable pub project : Envelope → Result (Unit {0}) Projection
  unfolding is_order_event is_delivery_event products_of
  project e = elim (parse_uuid e.event_id) [
    | none ↦ err tt
    | some event_id ↦ elim e.payload [
      | none ↦ err tt
      | some p ↦ elim (order_part event_id e p) [
        | err x ↦ err x
        | ok order ↦ ok (record { delivery = delivery_part event_id e p; order = order })
      ]
    ]
  ]

-- The tables, in the order of the INSERTs.
pub record Facts : Type 0 where
  pub deliveries : List DeliveryFact
  pub orders : List OrderFact

abbrev pub add_order : Bool → Option OrderFact → Facts → Result (Unit {0}) (Unit {0}) × Facts
add_order broken none db = (ok tt, db)
add_order broken (some f) db =
    if broken then (err tt, db) else (ok tt, record db { orders = db.orders ++ f ∷ [] })

-- `Insert`: two INSERTs, and no transaction around them.
unfoldable pub insert : Bool → Bool → Projection → Facts → Result (Unit {0}) (Unit {0}) × Facts
insert delivery_broken order_broken p db = elim p.delivery [
  | none ↦ add_order order_broken p.order db
  | some f ↦
      if delivery_broken
      then (err tt, db)
      else add_order order_broken p.order (record db { deliveries = db.deliveries ++ f ∷ [] })
]

-- `handle` of a record whose envelope decodes to `e`, or does not decode. A projection with no fact is not
-- inserted.
unfoldable pub handle :
    (String → Option ℕ)
    → ℕ
    → Bool
    → Bool
    → Option Envelope
    → Facts
    → Result (Unit {0}) (Unit {0}) × Facts
unfolding project insert
handle parse_uuid now delivery_broken order_broken none db = (err tt, db)
handle parse_uuid now delivery_broken order_broken (some e) db = elim (project parse_uuid now e) [
  | err x ↦ (err x, db)
  | ok p ↦ insert delivery_broken order_broken p db
]

-- countIf
unfoldable pub count_if : (OrderFact → Bool) → List OrderFact → ℕ
count_if p [] = 0
count_if p (f ∷ fs) = let rest = count_if p fs in if p f then suc rest else rest

abbrev pub is_completed : OrderFact → Bool
is_completed f = elim f.predicted_eta_seconds [
  | none ↦ false
  | some _ ↦ elim f.actual_eta_seconds [
    | none ↦ false
    | some _ ↦ str_eq f.event_type "delivery.completed"
  ]
]

abbrev pub is_on_time : OrderFact → Bool
is_on_time f = elim f.predicted_eta_seconds [
  | none ↦ false
  | some predicted ↦ elim f.actual_eta_seconds [
    | none ↦ false
    | some actual ↦ str_eq f.event_type "delivery.completed" && leb actual predicted
  ]
]

abbrev pub is_recent : ℕ → OrderFact → Bool
is_recent now f = leb now (f.occurred_at + 86400)

-- `DeliverySLO` over the rows that FINAL leaves: the ratio as a fraction, and the size of the sample.
unfoldable pub delivery_slo : ℕ → List OrderFact → Option (ℕ × ℕ) × ℕ
unfolding count_if
delivery_slo now fs =
    let completed = count_if (λ f. is_recent now f && is_completed f) fs in
    let on_time = count_if (λ f. is_recent now f && is_on_time f) fs in
    if leb completed 0 then (none, 0) else (some (on_time, completed), completed)
