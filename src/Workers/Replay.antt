-- ===== src/Workers/Replay.antt =====
-- The replay of dead letters (cmd/dlq-replay/main.go). The JSON decoding of a dead letter and the Base64
-- decoding of its value are parameters.
pub mod Laws
pub mod Origin
use freshflow.Prelude.{
  ℕ, suc, Bool, true, false, not, ◌&&◌, ◌||◌, Option, none, some, List, [], ◌∷◌, ◌++◌, ltb,
  if◌then◌else◌,
}
use freshflow.Prelude.Int.{ℤ, pos, pos_part, ltb_ℤ}
use freshflow.Platform.Text.{codes}
use freshflow.Platform.Bytes.{bytes_eq, has_suffix}
use freshflow.Platform.Kafka.{DeadLetter, decode_dead_letter}

-- The flags of the command line.
pub record Config : Type 0 where
  pub topic : List ℕ
  pub limit : ℤ
  pub execute : Bool
  pub confirm : List ℕ
  pub timeout : ℤ

pub data Refusal : Type 0 where
  bad_topic bad_limit bad_timeout unconfirmed needless_confirm : Refusal

-- `validate`
unfoldable pub validate : Config → Option Refusal
validate c =
    if not (has_suffix (codes ".dlq") c.topic) || bytes_eq c.topic (codes ".dlq")
    then some bad_topic
    else if ltb_ℤ c.limit (pos 1)
    then some bad_limit
    else if ltb_ℤ c.timeout (pos 1)
    then some bad_timeout
    else if c.execute && not (bytes_eq c.confirm (codes "REPLAY"))
    then some unconfirmed
    else if not c.execute && not (bytes_eq c.confirm [])
    then some needless_confirm
    else none

-- A record of the topic of dead letters, and a record that is published.
pub record Letter : Type 0 where
  pub offset : ℕ
  pub key : List ℕ
  pub value : List ℕ

pub record Message : Type 0 where
  pub topic : List ℕ
  pub key : List ℕ
  pub value : List ℕ

-- What a poll brings: the end of the time, an error, or records.
pub data Poll : Type 0 where
  deadline failed : Poll
  fetched : List Letter → Poll

-- What was done so far.
pub record Progress : Type 0 where
  pub processed : ℕ
  pub published : List Message
  pub committed : List ℕ

-- What a run meets: the calls that fail, by the offset of the record, and the two decodings.
pub record Env : Type 0 where
  pub publish_fails : ℕ → Bool
  pub commit_fails : ℕ → Bool
  pub parse : List ℕ → Option DeadLetter
  pub decode : List ℕ → Option (List ℕ)

pub data Failure : Type 0 where
  poll_failed : Failure
  invalid_letter not_published not_committed : ℕ → Failure

-- The record that a dead letter stands for, under the key of its letter.
unfoldable pub message_of : Env → Letter → Option Message
message_of env r = elim (decode_dead_letter env.decode (env.parse r.value)) [
  | none ↦ none
  | some (d, original) ↦ some (record { topic = d.source_topic; key = r.key; value = original })
]

abbrev pub count : Progress → Progress
count p = record p { processed = suc p.processed }

abbrev pub publish : Message → Progress → Progress
publish m p = record p { published = p.published ++ m ∷ [] }

abbrev pub commit : ℕ → Progress → Progress
commit offset p = record p { committed = p.committed ++ offset ∷ [] }

-- The calls of the closure for the records of one poll.
unfoldable pub each_record : Env → Bool → ℕ → List Letter → Progress → Option Failure × Progress
unfolding message_of
each_record env execute limit [] p = (none, p)
each_record env execute limit (r ∷ rs) p =
    let seen = each_record env execute limit rs (count p) in
    elim (message_of env r) [
      | none ↦ if ltb p.processed limit then (some (invalid_letter r.offset), p) else (none, p)
      | some m ↦
          (let replayed =
              each_record env execute limit rs (count (commit r.offset (publish m p))) in
            if not (ltb p.processed limit)
            then (none, p)
            else if not execute
            then seen
            else if env.publish_fails r.offset
            then (some (not_published r.offset), p)
            else if env.commit_fails r.offset
            then (some (not_committed r.offset), publish m p)
            else replayed)
    ]

-- The loop over the polls.
unfoldable pub consume_from : Env → Bool → ℕ → List Poll → Progress → Option Failure × Progress
unfolding each_record
consume_from env execute limit [] p = (none, p)
consume_from env execute limit (deadline ∷ ps) p = (none, p)
consume_from env execute limit (failed ∷ ps) p =
    if ltb p.processed limit then (some poll_failed, p) else (none, p)
consume_from env execute limit (fetched rs ∷ ps) p =
    let (failure, p') = each_record env execute limit rs p in
    let rest = consume_from env execute limit ps p' in
    if not (ltb p.processed limit)
    then (none, p)
    else elim failure [ none ↦ rest | some f ↦ (some f, p') ]

abbrev pub at_start : Progress
at_start = record { processed = 0; published = []; committed = [] }

-- `consume`; the list of polls ends where the time does.
unfoldable pub consume : Env → Config → List Poll → Option Failure × Progress
unfolding consume_from
consume env c ps = consume_from env c.execute (pos_part c.limit) ps at_start
