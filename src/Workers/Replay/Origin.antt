-- ===== src/Workers/Replay/Origin.antt =====
-- Retries and replay together (pkg/platform/kafkax/retry.go, cmd/dlq-replay/main.go): what a consumer gave
-- up on comes back to the topic that it came from.
use freshflow.Prelude.{
  ℕ, ◌≡◌, refl, ap, ◌∙◌, true, false, some, none, List, [], ◌∷◌, ok, take, map, arith,
}
use freshflow.Prelude.Int.{pos_part}
use freshflow.Platform.Text.{codes}
use freshflow.Platform.Bytes.{is_blank, has_suffix}
use freshflow.Platform.Kafka.{dead_lettered, SourceRecord, DeadLetter, Surroundings, process}
use freshflow.Platform.Kafka.Replay.{process-letter}
use freshflow.Workers.Replay.{Config, Letter, Message, Poll, Env, message_of, consume}
use freshflow.Workers.Replay.Laws.{messages, letters, replay_lem}

-- The letter holds what `Process` wrote for the record, which its consumer could not handle.
pub record IsLetterOf (encode : List ℕ → List ℕ) (env : Env) (letter : Letter) (r : SourceRecord)
    : Type 0 where
  pub surroundings : Surroundings
  pub service : List ℕ
  pub fuel : ℕ
  pub letter_body : DeadLetter
  pub named : is_blank r.topic ≡ false
  pub plain : has_suffix (codes ".dlq") r.topic ≡ false
  pub written :
      process encode surroundings service r fuel ≡ some (ok (dead_lettered, some letter_body))
  pub parsed : env.parse letter.value ≡ some letter_body

-- Letter by letter.
pub data AreLettersOf (encode : List ℕ → List ℕ) (env : Env)
    : List Letter → List SourceRecord → Type 0 where
  no_letters : AreLettersOf encode env [] []
  a_letter :
      {letter : Letter}
      → {ls : List Letter} → {r : SourceRecord} → {rs : List SourceRecord}
      → IsLetterOf encode env letter r
      → AreLettersOf encode env ls rs
      → AreLettersOf encode env (letter ∷ ls) (r ∷ rs)

-- Where a record is published again, under some key.
abbrev pub destination : Message → List ℕ × List ℕ
destination m = (m.topic, m.value)

abbrev pub origin : SourceRecord → List ℕ × List ℕ
origin r = (r.topic, r.value)

module _ (encode : List ℕ → List ℕ) (env : Env)
    (undoes : (bytes : List ℕ) → env.decode (encode bytes) ≡ some bytes) where
  message_of-letter :
      (letter : Letter) (r : SourceRecord)
      → IsLetterOf encode env letter r
      → message_of env letter ≡ some (record { topic = r.topic; key = letter.key; value = r.value })
  unfolding message_of
  message_of-letter letter r h =
      let (decoded, topic) =
        process-letter encode env.decode undoes h.surroundings h.service r h.fuel h.letter_body
          h.named h.plain h.written in
      ground (arith, h.parsed, decoded, topic)

  messages-letters :
      (n : ℕ) (ls : List Letter) (rs : List SourceRecord)
      → AreLettersOf encode env ls rs
      → map destination (messages env (take n ls)) ≡ map origin (take n rs)
  unfolding messages
  messages-letters ℕ.zero ls rs h = refl
  messages-letters (ℕ.suc n) _ _ no_letters = refl
  messages-letters (ℕ.suc n) _ _ (a_letter {letter = letter} {ls = ls} {r = r} {rs = rs} h hs) =
      let front : messages env (letter ∷ take n ls)
          ≡ record { topic = r.topic; key = letter.key; value = r.value }
            ∷ messages env (take n ls) =
        ground (arith, message_of-letter letter r h) in
      ap (map destination) front ∙ ap (λ ms. origin r ∷ ms) (messages-letters n ls rs hs)

  -- A replay that ends well over dead letters that `Process` wrote publishes the records that the consumers
  -- gave up on, the first of them up to the limit, in order, each to the topic that it came from and with
  -- the value that it had. The Base64 decoding is taken to undo the encoding.
  pub replay-process :
      (c : Config) (ps : List Poll) (rs : List SourceRecord)
      → c.execute ≡ true
      → AreLettersOf encode env (letters ps) rs
      → (consume env c ps).0 ≡ none
      → map destination (consume env c ps).1.published ≡ map origin (take (pos_part c.limit) rs)
  replay-process c ps rs real from went =
      ap (map destination) (replay_lem env c ps real went).0
      ∙ messages-letters (pos_part c.limit) (letters ps) rs from
