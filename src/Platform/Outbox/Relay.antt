-- ===== src/Platform/Outbox/Relay.antt =====
-- `Relay.publishBatch` (pkg/platform/outbox/outbox.go): the oldest rows that are not published are sent
-- to Kafka and marked, inside one transaction. What was sent stays sent when the transaction fails. The
-- headers of a message are left out.
use freshflow.Prelude.{
  ℕ, suc, ◌≡◌, refl, sym, ◌∙◌, String, Bool, true, false, ◌&&◌, ◌||◌, ◌==◌, Option, none, some,
  is_some, List, [], ◌∷◌, ◌++◌, if◌then◌else◌, take, exists, exists-append, update_where, arith,
  Bool-cases, Option-cases, inl, inr, ◌⊎◌,
}
use freshflow.Prelude.Sort.{sort_by}
use freshflow.Platform.Outbox.{Row}

-- The calls that can fail for reasons outside the program.
pub data Call : Type 0 where
  begin select commit : Call
  update : ℕ → Call

-- What a batch meets: the calls of the database that fail, the rows that another relay holds, the
-- answer of Kafka on an event, cut to 1000 bytes where it is an error, and the clock.
pub record Env : Type 0 where
  pub broken : Call → Bool
  pub locked : ℕ → Bool
  pub produce : ℕ → Option String
  pub now : ℕ

abbrev pub batch_size : ℕ
batch_size = 50

-- How the loop over the batch ends: all sent and marked, stopped by Kafka, or by the database.
pub data Ending : Type 0 where
  finished stopped broken_off : Ending

abbrev is_finished : Ending → Bool
is_finished finished = true
is_finished stopped = false
is_finished broken_off = false

abbrev is_broken_off : Ending → Bool
is_broken_off finished = false
is_broken_off stopped = false
is_broken_off broken_off = true

abbrev pub is_sent : ℕ → List ℕ → Bool
is_sent k sent = exists (λ j. j == k) sent

module _ {P : Type 0} where
  abbrev pub row_is : ℕ → Row P → Bool
  row_is k r = r.event_id == k

  -- WHERE published_at IS NULL … SKIP LOCKED
  unfoldable pub pending : (ℕ → Bool) → List (Row P) → List (Row P)
  pending locked [] = []
  pending locked (r ∷ rs) =
      let rest = pending locked rs in
      if is_some r.published_at || locked r.event_id then rest else r ∷ rest

  -- ORDER BY occurred_at LIMIT 50
  unfoldable pub batch : (ℕ → Bool) → List (Row P) → List (Row P)
  unfolding pending
  batch locked rows = take batch_size (sort_by (λ r. r.occurred_at) (pending locked rows))

  abbrev pub published : ℕ → Row P → Row P
  published now r = record r {
    published_at = some now;
    attempts = suc r.attempts;
    last_error = none;
  }

  abbrev pub failed : String → Row P → Row P
  failed message r = record r { attempts = suc r.attempts; last_error = some message }

  abbrev pub mark : ℕ → (Row P → Row P) → List (Row P) → List (Row P)
  mark k f rows = update_where (row_is k) f rows

  -- The loop: the rows as the transaction sees them, and the events that Kafka took.
  unfoldable pub send : Env → List (Row P) → List (Row P) → List ℕ → Ending × List (Row P) × List ℕ
  send env [] rows sent = (finished, rows, sent)
  send env (item ∷ items) rows sent =
      let rest =
        send env items (mark item.event_id (published env.now) rows) (sent ++ item.event_id ∷ []) in
      elim (env.produce item.event_id) [
        | some message ↦
            if env.broken (update item.event_id)
            then (broken_off, rows, sent)
            else (stopped, mark item.event_id (failed message) rows, sent)
        | none ↦
            if env.broken (update item.event_id)
            then (broken_off, rows, sent ++ item.event_id ∷ [])
            else rest
      ]

  -- `publishBatch`: whether it succeeded, the rows and the events that Kafka took.
  unfoldable pub publish_batch : Env → List (Row P) → List ℕ → Bool × List (Row P) × List ℕ
  unfolding send
  publish_batch env rows sent =
      if env.broken begin || env.broken select
      then (false, rows, sent)
      else (let (ending, rows', sent') = send env (batch env.locked rows) rows sent in
          if is_broken_off ending || env.broken commit
          then (false, rows, sent')
          else (is_finished ending, rows', sent'))

  -- Whether the table says that an event is published.
  abbrev pub says_published : ℕ → List (Row P) → Bool
  says_published k rows = exists (λ r. row_is k r && is_some r.published_at) rows

  -- No row is said to be published that is not, and was not said to be before.
  abbrev IsHonest : List (Row P) → List (Row P) → List ℕ → Type 0
  IsHonest rows rows' sent' =
      (k : ℕ)
      → says_published k rows' ≡ true
      → (says_published k rows ≡ true) ⊎ (is_sent k sent' ≡ true)

  says_published-mark :
      (k j now : ℕ) (rows : List (Row P))
      → says_published k (mark j (published now) rows) ≡ true
      → (says_published k rows ≡ true) ⊎ ((j == k) ≡ true)
  says_published-mark k j now [] h = cc
  says_published-mark k j now (r ∷ rows) h = elim (Bool-cases (j == k)) [
    | inl same ↦ inr same
    | inr other ↦ elim (Bool-cases (row_is j r)) [
      | inl own ↦ inl (ground (arith, says_published-mark k j now rows))
      | inr foreign ↦ inl (ground (arith, says_published-mark k j now rows))
    ]
  ]

  says_published-failed :
      (k j : ℕ) (message : String) (rows : List (Row P))
      → says_published k (mark j (failed message) rows) ≡ says_published k rows
  says_published-failed k j message [] = refl
  says_published-failed k j message (r ∷ rows) = elim (Bool-cases (row_is j r)) [
    | inl own ↦ rw own (rw (says_published-failed k j message rows))
    | inr foreign ↦ rw foreign (rw (says_published-failed k j message rows))
  ]

  sent_grows :
      (env : Env) (items rows : List (Row P)) (sent : List ℕ) (k : ℕ)
      → is_sent k sent ≡ true
      → is_sent k (send env items rows sent).2 ≡ true
  unfolding send
  sent_grows env [] rows sent k h = h
  sent_grows env (item ∷ items) rows sent k h =
      let more : is_sent k (sent ++ item.event_id ∷ []) ≡ true =
        exists-append (λ j. j == k) sent (item.event_id ∷ []) ∙ rw h refl in
      let rest =
        sent_grows env items (mark item.event_id (published env.now) rows)
          (sent ++ item.event_id ∷ []) k more in
      let all = send env (item ∷ items) rows sent in
      elim (Option-cases (env.produce item.event_id)) [
        | inr (message, refused) ↦ (let q : all.2 ≡ sent = ground arith in rw q h)
        | inl taken ↦ elim (Bool-cases (env.broken (update item.event_id))) [
          | inl down ↦ (let q : all.2 ≡ sent ++ item.event_id ∷ [] = ground arith in rw q more)
          | inr up ↦
              let next =
                send env items (mark item.event_id (published env.now) rows)
                  (sent ++ item.event_id ∷ []) in
              let q : all.2 ≡ next.2 = ground arith in rw q rest
        ]
      ]

  send-IsHonest :
      (env : Env) (items rows : List (Row P)) (sent : List ℕ)
      → IsHonest rows (send env items rows sent).1 (send env items rows sent).2
  unfolding send
  send-IsHonest env [] rows sent k h = inl h
  send-IsHonest env (item ∷ items) rows sent k h =
      let marked = mark item.event_id (published env.now) rows in
      let longer = sent ++ item.event_id ∷ [] in
      let all = send env (item ∷ items) rows sent in
      elim (Option-cases (env.produce item.event_id)) [
        | inr (message, refused) ↦ elim (Bool-cases (env.broken (update item.event_id))) [
          | inl down ↦ (let q : all.1 ≡ rows = ground arith in inl (rw q at h))
          | inr up ↦
              let q : all.1 ≡ mark item.event_id (failed message) rows = ground arith in
              inl (sym (says_published-failed k item.event_id message rows) ∙ (rw q at h))
        ]
        | inl taken ↦ elim (Bool-cases (env.broken (update item.event_id))) [
          | inl down ↦ (let q : all.1 ≡ rows = ground arith in inl (rw q at h))
          | inr up ↦
              let next = send env items marked longer in
              let q : all.1 ≡ next.1 = ground arith in
              let p : all.2 ≡ next.2 = ground arith in
              elim (send-IsHonest env items marked longer k (rw q at h)) [
                | inr gone ↦ inr (rw p gone)
                | inl before ↦ elim (says_published-mark k item.event_id env.now rows before) [
                  | inl old ↦ inl old
                  | inr own ↦ inr (
                      rw p (
                        sent_grows env items marked longer k (
                          exists-append (λ j. j == k) sent (item.event_id ∷ [])
                          ∙ ground (arith, own))))
                ]
              ]
        ]
      ]

  -- A batch never says that an event is published unless Kafka has taken it or the table said so
  -- before, whichever calls fail.
  pub publish_batch_honest :
      (env : Env) (rows : List (Row P)) (sent : List ℕ) (k : ℕ)
      → says_published k (publish_batch env rows sent).1 ≡ true
      → (says_published k rows ≡ true) ⊎ (is_sent k (publish_batch env rows sent).2 ≡ true)
  unfolding publish_batch
  publish_batch_honest env rows sent k h =
      elim (Bool-cases (env.broken begin || env.broken select)) [
        | inl down ↦ inl (rw down at h)
        | inr up ↦
            let out = send env (batch env.locked rows) rows sent in
            elim (Bool-cases (is_broken_off out.0 || env.broken commit)) [
              | inl lost ↦ inl (rw (up, lost) at h)
              | inr kept ↦
                  rw (up, kept)
                    (send-IsHonest env (batch env.locked rows) rows sent k (rw (up, kept) at h))
            ]
      ]
