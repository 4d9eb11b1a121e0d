-- ===== src/Platform/Kafka/Bounds.antt =====
-- The bounds of the retries (pkg/platform/kafkax/retry.go).
use mathlib.Core.Path.{subst}
use freshflow.Prelude.{
  ℕ, zero, suc, ◌+◌, ◌-◌, ◌*◌, ◌%◌, ◌^◌, ◌≤◌, ◌≡◌, true, false, ◌||◌, is_some, ◌==◌, Option, none,
  some, List, [], ◌∷◌, All, length, take, refl, ltb, arith, Bool-cases, Option-cases, inl, inr, ◌⊎◌,
  ◌<◌, ap, ◌∙◌,
}
use freshflow.Platform.Kafka.{
  retry_delay, one_line, sanitize_error, max_error_len, Surroundings, handled, exhausted,
  attempts_from, publish_from,
}

pub length-take : (n : ℕ) (cs : List ℕ) → length (take n cs) ≤ n
length-take zero cs = omega arith
length-take (suc n) [] = omega arith
length-take (suc n) (c ∷ cs) = omega (arith, length-take n cs)

abbrev pub NoLineBreak : ℕ → Type 0
NoLineBreak c = (c == 10) ≡ false

one_line-NoLineBreak : (cs : List ℕ) → All NoLineBreak (one_line cs)
unfolding one_line
one_line-NoLineBreak [] = tt
one_line-NoLineBreak (c ∷ cs) = (ground arith, one_line-NoLineBreak cs)

take-All : (n : ℕ) (cs : List ℕ) → All NoLineBreak cs → All NoLineBreak (take n cs)
take-All zero cs h = tt
take-All (suc n) [] h = tt
take-All (suc n) (c ∷ cs) h = (h.0, take-All n cs h.1)

-- The reason of a dead letter is one line of at most 512 bytes, whatever the error says.
pub sanitize_error_bounds :
    (message : Option (List ℕ))
    → (length (sanitize_error message) ≤ max_error_len) × All NoLineBreak (sanitize_error message)
unfolding sanitize_error
sanitize_error_bounds none = (omega arith, ground arith)
sanitize_error_bounds (some message) =
    elim (Bool-cases (ltb max_error_len (length (one_line message)))) [
      | inl long ↦ rw long (
        length-take max_error_len (one_line message),
        take-All max_error_len (one_line message) (one_line-NoLineBreak message),
      )
      | inr short ↦ rw short (ground arith, one_line-NoLineBreak message)
    ]

capped_bounds :
    (capped jitter : ℕ)
    → 1 ≤ capped
    → capped ≤ 5
    → (200 ≤ 200 * 2 ^ (capped - 1) + jitter % 100) × (200 * 2 ^ (capped - 1) + jitter % 100 ≤ 3299)
capped_bounds zero jitter h k = absurd (omega arith)
capped_bounds (suc zero) jitter h k = (omega arith, omega arith)
capped_bounds (suc (suc zero)) jitter h k = (omega arith, omega arith)
capped_bounds (suc (suc (suc zero))) jitter h k = (omega arith, omega arith)
capped_bounds (suc (suc (suc (suc zero)))) jitter h k = (omega arith, omega arith)
capped_bounds (suc (suc (suc (suc (suc zero))))) jitter h k = (omega arith, omega arith)
capped_bounds (suc (suc (suc (suc (suc (suc n)))))) jitter h k = absurd (omega arith)

-- The wait after an attempt is between 200 ms and 3299 ms, whatever the attempt and the offset.
pub retry_delay_bounds :
    (attempt offset : ℕ)
    → 1 ≤ attempt
    → (200 ≤ retry_delay attempt offset) × (retry_delay attempt offset ≤ 3299)
unfolding retry_delay
retry_delay_bounds attempt offset h = elim (Bool-cases (ltb 5 attempt)) [
  | inl late ↦ rw late (capped_bounds 5 (offset + 5 * 37) (omega arith) (omega arith))
  | inr early ↦ rw early (capped_bounds attempt (offset + attempt * 37) h (ground arith))
]

-- The handler is called at least once, and at most `left` times more.
pub attempts_from_bounds :
    (s : Surroundings) (attempt left : ℕ)
    → (1 ≤ (attempts_from s attempt left).1) × ((attempts_from s attempt left).1 ≤ suc left)
unfolding attempts_from
attempts_from_bounds s attempt zero = ground arith
attempts_from_bounds s attempt (suc left) =
    ground (arith, attempts_from_bounds s (suc attempt) left)

-- The three calls of the handler that fail, the last one with this error, and none of the waits between
-- them is broken off.
pub record FailsThrice (s : Surroundings) (message : List ℕ) : Type 0 where
  pub first : is_some (s.handler 1) ≡ true
  pub second : is_some (s.handler 2) ≡ true
  pub third : s.handler 3 ≡ some message
  pub waits_first : s.interrupts_retry 1 ≡ false
  pub waits_second : s.interrupts_retry 2 ≡ false

pub attempts_handled :
    (s : Surroundings)
    → (attempts_from s 1 2).0 ≡ handled
    → (s.handler 1 ≡ none) ⊎ ((s.handler 2 ≡ none) ⊎ (s.handler 3 ≡ none))
unfolding attempts_from
attempts_handled s e = elim (Option-cases (s.handler 1)) [
  | inl one ↦ inl one
  | inr (a, failed) ↦ elim (Option-cases (s.handler 2)) [
    | inl two ↦ inr (inl two)
    | inr (b, failed') ↦ inr (inr (ground arith))
  ]
]

pub attempts_exhausted :
    (s : Surroundings) (message : List ℕ)
    → (attempts_from s 1 2).0 ≡ exhausted message
    → FailsThrice s message
unfolding attempts_from
attempts_exhausted s message e = record {
  first = ground arith;
  second = ground arith;
  third = ground arith;
  waits_first = ground arith;
  waits_second = ground arith;
}

pub attempts-FailsThrice :
    (s : Surroundings) (message : List ℕ)
    → FailsThrice s message
    → (attempts_from s 1 2).0 ≡ exhausted message
unfolding attempts_from
attempts-FailsThrice s message h =
    ground (arith, h.first, h.second, h.third, h.waits_first, h.waits_second)

-- The loop that writes the dead letter ends at the first call that is written, or whose wait is broken off,
-- and says which of the two it was.
pub publish_ends :
    (s : Surroundings) (attempt n fuel : ℕ)
    → n < fuel
    → ((j : ℕ)
        → j < n
        → (s.publishes (j + attempt) ≡ false) × (s.interrupts_publish (j + attempt) ≡ false))
    → ((s.publishes (n + attempt)) || (s.interrupts_publish (n + attempt))) ≡ true
    → publish_from s attempt fuel ≡ some (s.publishes (n + attempt))
unfolding publish_from
publish_ends s attempt n zero short quiet h = absurd (omega arith)
publish_ends s attempt zero (suc fuel) short quiet h = ground arith
publish_ends s attempt (suc n) (suc fuel) short quiet h =
    let shift : n + suc attempt ≡ suc n + attempt = omega arith in
    let rest =
      publish_ends s (suc attempt) n fuel (omega arith)
        (λ j below.
          let move : j + suc attempt ≡ suc j + attempt = omega arith in
          rw move (quiet (suc j) (omega (arith, below))))
        (rw shift h) in
    let now : (s.publishes attempt ≡ false) × (s.interrupts_publish attempt ≡ false) =
      subst (λ k. (s.publishes k ≡ false) × (s.interrupts_publish k ≡ false))
        (let q : 0 + attempt ≡ attempt = omega arith in q) (quiet 0 (omega arith)) in
    let go : publish_from s attempt (suc fuel) ≡ publish_from s (suc attempt) fuel =
      rw (now.0, now.1) refl in
    go ∙ rest ∙ ap (λ k. some (s.publishes k)) shift
