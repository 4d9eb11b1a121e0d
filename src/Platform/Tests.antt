-- ===== src/Platform/Tests.antt =====
-- Retries and dead letters on concrete data (pkg/platform/kafkax/retry.go), and the relay of the
-- outbox (pkg/platform/outbox/outbox.go).
use freshflow.Prelude.{ℕ, ◌≡◌, refl, true, false, ◌==◌, some, List, [], ◌∷◌}
use freshflow.Prelude.{◌⊎◌, none, ◌*◌, ◌/◌, ◌+◌, ◌<◌, arith, if◌then◌else◌, ok}
use freshflow.Prelude.Sort.{sort_by}
use freshflow.Platform.Outbox.{Row, row_of}
use freshflow.Platform.Outbox.Relay
use freshflow.Platform.Outbox.Relay.{
  pending, batch, send, publish_batch, says_published, is_sent, publish_batch_honest,
}
use freshflow.Platform.Text.{codes}
use freshflow.Platform.Bytes.{is_blank, has_suffix}
use freshflow.Platform.Kafka.{
  SourceRecord, DeadLetter, Surroundings, dead_letter_of, process, decode_dead_letter,
  dead_lettered,
}
use freshflow.Platform.Kafka.Ends.{Explained, process-Explained, process_ends}
use freshflow.Platform.Kafka.Replay.{coerced, process-decode}

abbrev failing : Surroundings
failing = record {
  handler = λ _. some (110 ∷ 255 ∷ []);
  publishes = λ n. n == 2;
  interrupts_retry = λ _. false;
  interrupts_publish = λ _. false;
  now = 50;
}

abbrev bad_record : SourceRecord
bad_record = record { topic = codes "orders"; partition = 0; offset = 12; value = 123 ∷ 125 ∷ [] }

-- An encoding for the test: every byte doubled.
abbrev twice : List ℕ → List ℕ
twice [] = []
twice (b ∷ bs) = 2 * b ∷ twice bs

abbrev halves : List ℕ → List ℕ
halves [] = []
halves (b ∷ bs) = b / 2 ∷ halves bs

halves-twice : (bs : List ℕ) → some (halves (twice bs)) ≡ some bs
halves-twice [] = refl
halves-twice (b ∷ bs) = ground (arith, halves-twice bs)

-- What JSON makes of a text, for the test: the byte 255 is replaced.
abbrev replaced : List ℕ → List ℕ
replaced [] = []
replaced (b ∷ bs) = (if b == 255 then 63 else b) ∷ replaced bs

replaced-twice : (bs : List ℕ) → replaced (twice bs) ≡ twice bs
replaced-twice [] = refl
replaced-twice (b ∷ bs) = ground (arith, replaced-twice bs)

abbrev letter : DeadLetter
letter = dead_letter_of twice failing (codes "order-service") bad_record (110 ∷ 255 ∷ [])

dead_lettered_here :
    process twice failing (codes "order-service") bad_record 2
    ≡ some (ok (dead_lettered, some letter))
unfolding process
dead_lettered_here = refl

process-decode_example :
    (decode_dead_letter (λ bytes. some (halves bytes)) (some (coerced replaced letter))
      ≡ some (coerced replaced letter, bad_record.value))
    × ((coerced replaced letter).source_topic ≡ bad_record.topic)
    × (letter.source_partition ≡ bad_record.partition)
    × (letter.source_offset ≡ bad_record.offset)
    × (letter.attempts ≡ 3)
    × (letter.failed_at ≡ failing.now)
unfolding is_blank has_suffix
process-decode_example =
    process-decode twice (λ bytes. some (halves bytes)) halves-twice replaced replaced-twice
      (coerced replaced) (λ d. some d) (λ d. refl) failing (codes "order-service") bad_record 2
      letter refl refl refl dead_lettered_here

process-Explained_example : Explained twice failing bad_record (dead_lettered, some letter)
process-Explained_example =
    process-Explained twice failing (codes "order-service") bad_record 2
      (dead_lettered, some letter) dead_lettered_here

first_fails :
    (j : ℕ)
    → j < 1
    → (failing.publishes (j + 1) ≡ false) × (failing.interrupts_publish (j + 1) ≡ false)
first_fails j below = ground arith

process_ends_example :
    process twice failing (codes "order-service") bad_record 5
    ≡ some (ok (dead_lettered, some letter))
process_ends_example =
    process_ends twice failing (codes "order-service") bad_record (110 ∷ 255 ∷ []) 1 5
      (record {
        first = refl;
        second = refl;
        third = refl;
        waits_first = refl;
        waits_second = refl;
      })
      (omega arith) first_fails refl

abbrev event_row : Row ℕ
event_row = row_of "freshflow.order.events.v1" 21 (record {
  event_id = 900;
  event_type = "order.created";
  event_version = 1;
  occurred_at = 50;
  producer = "order-service";
  correlation_id = "";
  trace_id = "";
  span_id = "";
  aggregate_id = 21;
  payload = 0;
})

abbrev relay_env : Relay.Env
relay_env = record { broken = λ _. false; locked = λ _. false; produce = λ _. none; now = 60 }

publish_batch_honest_example :
    (says_published 900 (event_row ∷ []) ≡ true)
    ⊎ (is_sent 900 (publish_batch relay_env (event_row ∷ []) []).2 ≡ true)
unfolding publish_batch batch send sort_by pending
publish_batch_honest_example = publish_batch_honest relay_env (event_row ∷ []) [] 900 refl
