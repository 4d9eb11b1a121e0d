-- ===== src/Platform/Kafka/Ends.antt =====
-- When a consumer gives a record up, and that it ends (pkg/platform/kafkax/retry.go, Process).
use mathlib.Core.Path.{subst}
use freshflow.Prelude.{
  ℕ, ◌+◌, ◌<◌, ◌≤◌, ◌≡◌, refl, true, false, ◌||◌, Option, none, some, List, ok, err, length,
  if◌then◌else◌, arith, Option-cases, inl, inr, ◌⊎◌,
}
use freshflow.Platform.Kafka.{
  sanitize_error, Surroundings, SourceRecord, DeadLetter, Outcome, processed, dead_lettered, Tried,
  handled, interrupted, exhausted, attempts_from, publish_from, dead_letter_of, process,
}
use freshflow.Platform.Kafka.Bounds.{
  FailsThrice, attempts_handled, attempts_exhausted, attempts-FailsThrice, publish_ends,
  sanitize_error_bounds,
}

-- What the outcome of a record says of the calls that led to it: a record counts as processed where one of
-- at most three calls of its handler went through, and its dead letter tells of three that failed.
pub data Explained (encode : List ℕ → List ℕ) (s : Surroundings) (r : SourceRecord)
    : Outcome × Option DeadLetter → Type 0 where
  went_through :
      (s.handler 1 ≡ none) ⊎ ((s.handler 2 ≡ none) ⊎ (s.handler 3 ≡ none))
      → Explained encode s r (processed, none)
  gave_up :
      (message : List ℕ) (letter : DeadLetter)
      → FailsThrice s message
      → letter.attempts ≡ 3
      → letter.failure_reason ≡ sanitize_error (some message)
      → length letter.failure_reason ≤ 512
      → letter.original_value ≡ encode r.value
      → Explained encode s r (dead_lettered, some letter)

letter_written :
    (encode : List ℕ → List ℕ) (s : Surroundings) (service : List ℕ) (r : SourceRecord) (fuel : ℕ)
    (message : List ℕ) (answer : Outcome × Option DeadLetter)
    → (attempts_from s 1 2).0 ≡ exhausted message
    → process encode s service r fuel ≡ some (ok answer)
    → (dead_lettered, some (dead_letter_of encode s service r message)) ≡ answer
unfolding process
letter_written encode s service r fuel message answer out e =
    elim (Option-cases (publish_from s 1 fuel)) [
      | inl dry ↦ absurd (ground arith)
      | inr (true, w) ↦ ground arith
      | inr (false, w) ↦ absurd (ground arith)
    ]

-- A record counts as processed only where one of at most three calls of its handler went through, and
-- without a dead letter. A dead letter is written only after three calls of the handler that all failed,
-- with no wait between them broken off; it carries three attempts, the last error as a reason of at most 512 bytes,
-- and the value of the record, encoded.
pub process-Explained :
    (encode : List ℕ → List ℕ) (s : Surroundings) (service : List ℕ) (r : SourceRecord) (fuel : ℕ)
    (answer : Outcome × Option DeadLetter)
    → process encode s service r fuel ≡ some (ok answer)
    → Explained encode s r answer
unfolding process
process-Explained encode s service r fuel answer e = go (attempts_from s 1 2).0 refl
  where
    go : (t : Tried) → (attempts_from s 1 2).0 ≡ t → Explained encode s r answer
    go handled is =
        let q : (processed, none) ≡ answer = ground arith in
        subst (Explained encode s r) q (went_through (attempts_handled s is))
    go interrupted is = absurd (ground arith)
    go (exhausted message) is =
        subst (Explained encode s r) (letter_written encode s service r fuel message answer is e) (
          gave_up message (dead_letter_of encode s service r message)
            (attempts_exhausted s message is) refl refl (sanitize_error_bounds (some message)).0
            refl)

-- A record whose handler fails three times is dealt with at the first call that writes its dead letter, or
-- whose wait is broken off: with more fuel than the `n` calls before that one, `Process` answers with the
-- dead letter if it was written, and otherwise with the error of the context.
pub process_ends :
    (encode : List ℕ → List ℕ) (s : Surroundings) (service : List ℕ) (r : SourceRecord)
    (message : List ℕ) (n fuel : ℕ)
    → FailsThrice s message
    → n < fuel
    → ((j : ℕ) → j < n → (s.publishes (j + 1) ≡ false) × (s.interrupts_publish (j + 1) ≡ false))
    → ((s.publishes (n + 1)) || (s.interrupts_publish (n + 1))) ≡ true
    → process encode s service r fuel
      ≡ some (
          if s.publishes (n + 1)
          then ok (dead_lettered, some (dead_letter_of encode s service r message))
          else err tt)
unfolding process
process_ends encode s service r message n fuel fails short quiet stops =
    let out = attempts-FailsThrice s message fails in
    let wrote = publish_ends s 1 n fuel short quiet stops in ground (arith, out, wrote)
