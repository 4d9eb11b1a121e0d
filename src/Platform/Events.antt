-- ===== src/Platform/Events.antt =====
-- The event envelope (pkg/platform/events/envelope.go). A UUID is the number that it encodes, since
-- every store keeps it in a uuid column; times are numbers of a fixed unit.
use freshflow.Prelude.{ℕ, String, Option, none, some, Bool, if◌then◌else◌, ◌≡◌, arith}

pub record Envelope (P : Type 0) : Type 0 where
  pub event_id : ℕ
  pub event_type : String
  pub event_version : ℕ
  pub occurred_at : ℕ
  pub producer : String
  pub correlation_id : String
  pub trace_id : String
  pub span_id : String
  pub aggregate_id : ℕ
  pub payload : P

-- What `New` takes from its surroundings: the correlation and the valid span of the context, the
-- random UUID if one could be drawn, whether the payload encodes, and the clock.
pub record Stamp : Type 0 where
  pub correlation : String
  pub span : Option (String × String)
  pub uuid : Option ℕ
  pub encodes : Bool
  pub now : ℕ

abbrev pub trace_of : Option (String × String) → String
trace_of none = ""
trace_of (some (trace, _)) = trace

abbrev pub span_of : Option (String × String) → String
span_of none = ""
span_of (some (_, span)) = span

-- `events.New`; `none` is its error.
unfoldable pub new_event : {P : Type 0} → Stamp → String → String → ℕ → P → Option (Envelope P)
new_event stamp event_type producer aggregate payload = elim stamp.uuid [
  | none ↦ none
  | some id ↦
      if stamp.encodes
      then some (record {
        event_id = id;
        event_type = event_type;
        event_version = 1;
        occurred_at = stamp.now;
        producer = producer;
        correlation_id = stamp.correlation;
        trace_id = trace_of stamp.span;
        span_id = span_of stamp.span;
        aggregate_id = aggregate;
        payload = payload;
      })
      else none
]

-- An event is what it was made from.
pub record Describes {P : Type 0} (event_type : String) (aggregate : ℕ) (payload : P)
    (e : Envelope P) : Type 0 where
  pub types : e.event_type ≡ event_type
  pub aggregates : e.aggregate_id ≡ aggregate
  pub payloads : e.payload ≡ payload

pub new_event-Describes :
    {P : Type 0} (stamp : Stamp) (event_type producer : String) (aggregate : ℕ) (payload : P)
    (e : Envelope P)
    → new_event stamp event_type producer aggregate payload ≡ some e
    → Describes event_type aggregate payload e
unfolding new_event
new_event-Describes stamp event_type producer aggregate payload e h = record {
  types = ground arith;
  aggregates = ground arith;
  payloads = ground arith;
}
