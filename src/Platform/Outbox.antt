-- ===== src/Platform/Outbox.antt =====
-- The transactional outbox (pkg/platform/outbox/outbox.go): the row, the schema check and `Insert`.
pub mod Relay
use freshflow.Prelude.{
  ℕ, String, Bool, false, ◌&&◌, ◌||◌, Option, none, some, List, [], ◌∷◌, ◌++◌, true, if◌then◌else◌,
  ◌==◌, exists, not, ◌≡◌, arith,
}
use freshflow.Platform.Text.{codes, is_lower, is_digit}
use freshflow.Platform.Events.{Envelope}

-- A row of an outbox table. `published_at` is `none` for NULL, and so is `last_error`.
pub record Row (P : Type 0) : Type 0 where
  pub event_id : ℕ
  pub topic : String
  pub event_key : ℕ
  pub envelope : Envelope P
  pub occurred_at : ℕ
  pub attempts : ℕ
  pub published_at : Option ℕ
  pub last_error : Option String

-- `[a-z0-9_]*$`
schema_tail : List ℕ → Bool
schema_tail [] = true
schema_tail (c ∷ cs) = (is_lower c || is_digit c || c == b'_') && schema_tail cs

-- `^[a-z][a-z0-9_]*$`
schema_bytes : List ℕ → Bool
unfolding schema_tail
schema_bytes [] = false
schema_bytes (c ∷ cs) = is_lower c && schema_tail cs

unfoldable pub valid_schema : String → Bool
unfolding schema_bytes
valid_schema schema = schema_bytes (codes schema)

abbrev pub row_of : {P : Type 0} → String → ℕ → Envelope P → Row P
row_of topic key envelope = record {
  event_id = envelope.event_id;
  topic = topic;
  event_key = key;
  envelope = envelope;
  occurred_at = envelope.occurred_at;
  attempts = 0;
  published_at = none;
  last_error = none;
}

-- `Insert` into the rows of a schema; `none` is its error. `broken` says that the envelope does
-- not encode or that the statement fails, as it does on an event_id that the table has.
unfoldable pub insert :
    {P : Type 0} → Bool → String → String → ℕ → Envelope P → List (Row P) → Option (List (Row P))
unfolding valid_schema
insert broken schema topic key envelope rows =
    if not (valid_schema schema)
    then none
    else if broken || exists (λ r. r.event_id == envelope.event_id) rows
    then none
    else some (rows ++ row_of topic key envelope ∷ [])

-- `Insert` appends one row that is not published.
pub insert_appends :
    {P : Type 0} (broken : Bool) (schema topic : String) (key : ℕ) (envelope : Envelope P)
    (rows rows' : List (Row P))
    → insert broken schema topic key envelope rows ≡ some rows'
    → rows' ≡ rows ++ row_of topic key envelope ∷ []
unfolding insert
insert_appends broken schema topic key envelope rows rows' h = ground arith
