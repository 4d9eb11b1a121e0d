-- ===== src/Platform/Kafka/Replay.antt =====
-- A dead letter gives its record back (pkg/platform/kafkax/retry.go).
use freshflow.Prelude.{ℕ, ◌≡◌, refl, ap, ◌∙◌, false, Option, some, List, ok, arith}
use freshflow.Platform.Text.{codes}
use freshflow.Platform.Bytes.{is_blank, has_suffix}
use freshflow.Platform.Kafka.{
  dead_lettered, SourceRecord, DeadLetter, Surroundings, Tried, handled, interrupted, exhausted,
  attempts_from, dead_letter_of, process, decode_dead_letter,
}

-- A dead letter after json.Marshal and json.Unmarshal, where `coerce` is what the two make of a text: one
-- that is valid UTF-8 comes back, and other bytes are replaced.
abbrev pub coerced : (List ℕ → List ℕ) → DeadLetter → DeadLetter
coerced coerce d = record d {
  source_topic = coerce d.source_topic;
  consumer = coerce d.consumer;
  failure_reason = coerce d.failure_reason;
  original_value = coerce d.original_value;
}

process-written :
    (encode : List ℕ → List ℕ) (s : Surroundings) (service : List ℕ) (r : SourceRecord) (fuel : ℕ)
    (d : DeadLetter)
    → process encode s service r fuel ≡ some (ok (dead_lettered, some d))
    → (message : List ℕ) × (dead_letter_of encode s service r message ≡ d)
unfolding process
process-written encode s service r fuel d e = go (attempts_from s 1 2).0 refl
  where
    go :
        (t : Tried)
        → (attempts_from s 1 2).0 ≡ t
        → (message : List ℕ) × (dead_letter_of encode s service r message ≡ d)
    go handled t_is = absurd (ground arith)
    go interrupted t_is = absurd (ground arith)
    go (exhausted message) t_is = (message, ground arith)

-- The letter that `Process` writes, if its JSON comes back as it was.
pub process-letter :
    (encode : List ℕ → List ℕ) (decode : List ℕ → Option (List ℕ))
    → ((bytes : List ℕ) → decode (encode bytes) ≡ some bytes)
    → (s : Surroundings) (service : List ℕ) (r : SourceRecord) (fuel : ℕ) (d : DeadLetter)
    → is_blank r.topic ≡ false
    → has_suffix (codes ".dlq") r.topic ≡ false
    → process encode s service r fuel ≡ some (ok (dead_lettered, some d))
    → (decode_dead_letter decode (some d) ≡ some (d, r.value)) × (d.source_topic ≡ r.topic)
process-letter encode decode undoes s service r fuel d named plain e =
    let is = (process-written encode s service r fuel d e).1 in
    rw (← is) (unfold decode_dead_letter in rw (named, plain, undoes r.value) refl, refl)

module _ (encode : List ℕ → List ℕ) (decode : List ℕ → Option (List ℕ))
    (undoes : (bytes : List ℕ) → decode (encode bytes) ≡ some bytes) (coerce : List ℕ → List ℕ)
    (is_text : (bytes : List ℕ) → coerce (encode bytes) ≡ encode bytes) {Json : Type 0}
    (marshal : DeadLetter → Json) (unmarshal : Json → Option DeadLetter)
    (trip : (d : DeadLetter) → unmarshal (marshal d) ≡ some (coerced coerce d)) where
  -- What `Process` writes to the dead letters is read again, as JSON, with the bytes of the record that
  -- failed and its topic, partition and offset, three attempts and the time of the failure, if the topic is
  -- valid UTF-8 and has a name that is not one of dead letters. The reason and the consumer come back as
  -- JSON leaves them: a reason that is cut inside a character is changed. The Base64 decoding is taken to undo the
  -- encoding, whose text JSON leaves as it is.
  pub process-decode :
      (s : Surroundings) (service : List ℕ) (r : SourceRecord) (fuel : ℕ) (d : DeadLetter)
      → coerce r.topic ≡ r.topic
      → is_blank r.topic ≡ false
      → has_suffix (codes ".dlq") r.topic ≡ false
      → process encode s service r fuel ≡ some (ok (dead_lettered, some d))
      → (decode_dead_letter decode (unmarshal (marshal d)) ≡ some (coerced coerce d, r.value))
        × ((coerced coerce d).source_topic ≡ r.topic)
        × (d.source_partition ≡ r.partition)
        × (d.source_offset ≡ r.offset)
        × (d.attempts ≡ 3)
        × (d.failed_at ≡ s.now)
  process-decode s service r fuel d valid named plain e =
      let is = (process-written encode s service r fuel d e).1 in
      let topic : coerce d.source_topic ≡ r.topic = rw (← is) valid in
      let body : decode (coerce d.original_value) ≡ some r.value =
        rw (← is) (ap decode (is_text r.value) ∙ undoes r.value) in
      let named' : is_blank (coerce d.source_topic) ≡ false = rw topic named in
      let plain' : has_suffix (codes ".dlq") (coerce d.source_topic) ≡ false = rw topic plain in
      (
        unfold decode_dead_letter in rw (trip d) (rw (named', plain', body) refl),
        topic,
        rw (← is) refl,
        rw (← is) refl,
        rw (← is) refl,
        rw (← is) refl,
      )
