-- ===== src/Workers/Tests.antt =====
-- The workers on concrete data (services/notification-worker, cmd/dlq-replay).
use freshflow.Prelude.{ℕ, ◌≡◌, refl, true, false, none, some, List, [], ◌∷◌, map, if◌then◌else◌}
use freshflow.Prelude.Int.{pos}
use freshflow.Platform.Text.{codes, str_eq}
use freshflow.Platform.Bytes.{bytes_eq, is_blank, has_suffix}
use freshflow.Platform.Kafka.{
  DeadLetter, SourceRecord, Surroundings, process, decode_dead_letter, dead_letter_of,
}
use freshflow.Workers.Notification.{Incoming, Notices, handle}
use freshflow.Workers.Notification
use freshflow.Workers.Notification.Laws.{IsConsistent, handle-IsConsistent}
use freshflow.Workers.Replay.{Config, Letter, Poll, fetched, consume, validate}
use freshflow.Workers.Replay
use freshflow.Workers.Replay.Laws.{letters}
use freshflow.Workers.Replay.Origin.{
  IsLetterOf, AreLettersOf, a_letter, no_letters, destination, origin, replay-process,
}

abbrev calm : Notification.Env
calm = record {
  broken = λ _. false;
  uuid_in = λ text. if str_eq text "e-1" then some 1 else some 21;
}

abbrev created : Incoming
created = record {
  event_id = "e-1";
  event_type = "order.created";
  aggregate_id = "o-1";
  correlation_id = "c-1";
}

abbrev silent : Notices
silent = record { processed = []; log = [] }

handle-IsConsistent_example : IsConsistent (handle calm (some created) silent).1
handle-IsConsistent_example =
    handle-IsConsistent calm (some created) silent (record { logged = refl; distinct = tt })

abbrev topic : List ℕ
topic = codes "orders.v1"

abbrev lost : SourceRecord
lost = record { topic = topic; partition = 0; offset = 7; value = codes "{}" }

-- The handler fails each time, and the first call writes the dead letter.
abbrev bad_day : Surroundings
bad_day = record {
  handler = λ _. some (codes "no courier");
  publishes = λ _. true;
  interrupts_retry = λ _. false;
  interrupts_publish = λ _. false;
  now = 50;
}

abbrev service : List ℕ
service = codes "order-service"

abbrev encode : List ℕ → List ℕ
encode bytes = bytes

abbrev dead : DeadLetter
dead = dead_letter_of encode bad_day service lost (codes "no courier")

abbrev letter : Letter
letter = record { offset = 0; key = codes "o-1"; value = codes "dead" }

abbrev desk : Replay.Env
desk = record {
  publish_fails = λ _. false;
  commit_fails = λ _. false;
  parse = λ _. some dead;
  decode = λ bytes. some bytes;
}

abbrev flags : Config
flags = record {
  topic = codes "orders.v1.dlq";
  limit = pos 10;
  execute = true;
  confirm = codes "REPLAY";
  timeout = pos 30;
}

valid_flags : validate flags ≡ none
unfolding validate bytes_eq has_suffix
valid_flags = refl

abbrev polls : List Poll
polls = fetched (letter ∷ []) ∷ []

IsLetterOf-lost : IsLetterOf encode desk letter lost
unfolding process is_blank has_suffix
IsLetterOf-lost = record {
  surroundings = bad_day;
  service = service;
  fuel = 1;
  letter_body = dead;
  named = refl;
  plain = refl;
  written = refl;
  parsed = refl;
}

ends_well : (consume desk flags polls).0 ≡ none
unfolding consume is_blank has_suffix decode_dead_letter
ends_well = refl

AreLettersOf-lost : AreLettersOf encode desk (letters polls) (lost ∷ [])
unfolding letters
AreLettersOf-lost = a_letter IsLetterOf-lost no_letters

replay-process_example :
    map destination (consume desk flags polls).1.published ≡ map origin (lost ∷ [])
replay-process_example =
    replay-process encode desk (λ bytes. refl) flags polls (lost ∷ []) refl AreLettersOf-lost
      ends_well
