-- ===== src/Platform/Kafka.antt =====
-- Bounded retries and dead letters of the Kafka consumers (pkg/platform/kafkax/retry.go). Texts are lists
-- of bytes, so that a length is a number of bytes. A delay is in milliseconds. An offset of Kafka is
-- never negative, and the sum in `retry_delay` stays inside an int64.
pub mod Bounds
pub mod Ends
pub mod Replay
use mathlib.Core.Option
use freshflow.Prelude.{
  ℕ, zero, suc, ◌+◌, ◌-◌, ◌*◌, ◌%◌, ◌^◌, Bool, true, false, not, ◌&&◌, ◌||◌, Option, none, some,
  List, [], ◌∷◌, ◌++◌, ◌==◌, ltb, leb, if◌then◌else◌, length, take, map, Result, ok, err,
}
use freshflow.Platform.Text.{codes}
use freshflow.Platform.Bytes.{is_blank, has_suffix}

abbrev pub max_attempts : ℕ
max_attempts = 3

abbrev pub max_error_len : ℕ
max_error_len = 512

pub data Outcome : Type 0 where
  processed dead_lettered : Outcome

pub record SourceRecord : Type 0 where
  pub topic : List ℕ
  pub partition : ℕ
  pub offset : ℕ
  pub value : List ℕ

-- `DeadLetter`, with the original value as the text that encodes it.
pub record DeadLetter : Type 0 where
  pub source_topic : List ℕ
  pub source_partition : ℕ
  pub source_offset : ℕ
  pub consumer : List ℕ
  pub attempts : ℕ
  pub failure_reason : List ℕ
  pub failed_at : ℕ
  pub original_value : List ℕ

-- `retryDelay`
unfoldable pub retry_delay : ℕ → ℕ → ℕ
retry_delay attempt offset =
    let capped = if ltb 5 attempt then 5 else attempt in
    200 * 2 ^ (capped - 1) + (offset + capped * 37) % 100

-- `strings.ReplaceAll(…, "\n", " ")`
unfoldable pub one_line : List ℕ → List ℕ
one_line [] = []
one_line (c ∷ cs) = (if c == 10 then 32 else c) ∷ one_line cs

-- `sanitizeError`, where `none` is no error.
unfoldable pub sanitize_error : Option (List ℕ) → List ℕ
unfolding one_line
sanitize_error none = codes "unknown consumer failure"
sanitize_error (some message) =
    if ltb max_error_len (length (one_line message))
    then take max_error_len (one_line message)
    else one_line message

-- `DLQTopic`
abbrev pub dlq_topic : List ℕ → List ℕ
dlq_topic topic = topic ++ codes ".dlq"

-- What the calls of the handler, of the publisher and of `sleep` answer, by their number: the text of
-- an error, whether the dead letter is written, and whether the context ends the wait.
pub record Surroundings : Type 0 where
  pub handler : ℕ → Option (List ℕ)
  pub publishes : ℕ → Bool
  pub interrupts_retry : ℕ → Bool
  pub interrupts_publish : ℕ → Bool
  pub now : ℕ

-- How the loop over the attempts ends: handled, broken off while it waits, or out of attempts with the
-- last error.
pub data Tried : Type 0 where
  handled interrupted : Tried
  exhausted : List ℕ → Tried

-- The loop over the attempts, from `attempt` on, with `left` attempts after it. The second component
-- counts the calls of the handler.
unfoldable pub attempts_from : Surroundings → ℕ → ℕ → Tried × ℕ
attempts_from s attempt zero = elim (s.handler attempt) [
  | none ↦ (handled, 1)
  | some e ↦ (exhausted e, 1)
]
attempts_from s attempt (suc left) =
    let (end, calls) = attempts_from s (suc attempt) left in
    elim (s.handler attempt) [
      | none ↦ (handled, 1)
      | some e ↦ if s.interrupts_retry attempt then (interrupted, 1) else (end, suc calls)
    ]

-- The loop that writes the dead letter, which ends only when it is written or the wait is broken off:
-- `none` is out of fuel, and `some true` is written.
unfoldable pub publish_from : Surroundings → ℕ → ℕ → Option Bool
publish_from s attempt zero = none
publish_from s attempt (suc fuel) =
    let rest = publish_from s (suc attempt) fuel in
    if s.publishes attempt
    then some true
    else if s.interrupts_publish attempt
    then some false
    else rest

abbrev pub dead_letter_of :
    (List ℕ → List ℕ) → Surroundings → List ℕ → SourceRecord → List ℕ → DeadLetter
dead_letter_of encode s service r message = record {
  source_topic = r.topic;
  source_partition = r.partition;
  source_offset = r.offset;
  consumer = service;
  attempts = max_attempts;
  failure_reason = sanitize_error (some message);
  failed_at = s.now;
  original_value = encode r.value;
}

-- `Process`: `none` is out of fuel, `some (err tt)` the error of the context. A dead letter that was
-- written comes with the outcome. `encode` is the Base64 encoding of the standard library.
unfoldable pub process :
    (List ℕ → List ℕ)
    → Surroundings
    → List ℕ
    → SourceRecord
    → ℕ
    → Option (Result (Unit {0}) (Outcome × Option DeadLetter))
unfolding attempts_from publish_from sanitize_error
process encode s service r fuel = elim (attempts_from s 1 2).0 [
  | handled ↦ some (ok (processed, none))
  | interrupted ↦ some (err tt)
  | exhausted message ↦ elim (publish_from s 1 fuel) [
    | none ↦ none
    | some written ↦
        if written
        then some (ok (dead_lettered, some (dead_letter_of encode s service r message)))
        else some (err tt)
  ]
]

-- `DecodeDeadLetter` of a value whose JSON decodes to `d`, or does not: the dead letter and the
-- original bytes. `decode` is the Base64 decoding of the standard library.
unfoldable pub decode_dead_letter :
    (List ℕ → Option (List ℕ)) → Option DeadLetter → Option (DeadLetter × List ℕ)
unfolding is_blank has_suffix
decode_dead_letter decode none = none
decode_dead_letter decode (some d) =
    if is_blank d.source_topic
    then none
    else if has_suffix (codes ".dlq") d.source_topic
    then none
    else Option.map (λ original. (d, original)) (decode d.original_value)
