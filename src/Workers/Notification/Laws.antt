-- ===== src/Workers/Notification/Laws.antt =====
-- The promises of the notification worker
-- (services/notification-worker/internal/notification/consumer.go).
use freshflow.Prelude.{
  ℕ, ◌≡◌, refl, ap, String, Bool, true, false, ◌==◌, Option, none, some, List, [], ◌∷◌, ◌++◌, map,
  exists, exists-append, Result, ok, err, Result-cases, Option-cases, inl, inr, arith, ◌∙◌,
}
use freshflow.Workers.Notification.{
  Incoming, Notice, Notices, Env, message_for, notice_of, record_notice, handle_tx, handle,
}

abbrev pub event_ids : List Notice → List ℕ
event_ids log = map (λ n. n.event_id) log

-- No event stands twice.
abbrev pub HasDistinctEvents : List ℕ → Type 0
HasDistinctEvents [] = Unit
HasDistinctEvents (k ∷ ks) = (exists (λ e. e == k) ks ≡ false) × HasDistinctEvents ks

-- The processed events are those of the log, each once.
pub record IsConsistent (db : Notices) : Type 0 where
  pub logged : event_ids db.log ≡ db.processed
  pub distinct : HasDistinctEvents db.processed

-- A notice was recorded: for an event that had none, with the message of its type.
pub record Records (env : Env) (event : Incoming) (db db' : Notices) : Type 0 where
  pub message : String
  pub event_id : ℕ
  pub order_id : ℕ
  pub supported : message_for event.event_type ≡ some message
  pub event_read : env.uuid_in event.event_id ≡ some event_id
  pub order_read : env.uuid_in event.aggregate_id ≡ some order_id
  pub fresh : exists (λ e. e == event_id) db.processed ≡ false
  pub processed : db'.processed ≡ db.processed ++ event_id ∷ []
  pub log : db'.log ≡ db.log ++ notice_of event message event_id order_id ∷ []

-- What the worker did with an event: it recorded a notice, or left the tables as they were.
pub data Handles (env : Env) (event : Incoming) (db : Notices)
    : Result (Unit {0}) Bool → Notices → Type 0 where
  failed : Handles env event db (err tt) db
  passed_over : Handles env event db (ok false) db
  recorded : {db' : Notices} → Records env event db db' → Handles env event db (ok true) db'

handle-Records :
    (env : Env) (event : Incoming) (db : Notices)
    → (handle env (some event) db).0 ≡ ok true
    → Records env event db (handle env (some event) db).1
unfolding handle handle_tx record_notice
handle-Records env event db e = elim (Option-cases (message_for event.event_type)) [
  | inl unknown ↦ absurd (ground arith)
  | inr (m, supported) ↦ elim (Option-cases (env.uuid_in event.event_id)) [
    | inl strange ↦ absurd (ground arith)
    | inr (k, read) ↦ elim (Option-cases (env.uuid_in event.aggregate_id)) [
      | inl strange ↦ absurd (ground arith)
      | inr (o, order_read) ↦ record {
        message = m;
        event_id = k;
        order_id = o;
        supported = supported;
        event_read = read;
        order_read = order_read;
        fresh = ground arith;
        processed = ground arith;
        log = ground arith;
      }
    ]
  ]
]

handle_passed_over :
    (env : Env) (event : Incoming) (db : Notices)
    → (handle env (some event) db).0 ≡ ok false
    → (handle env (some event) db).1 ≡ db
unfolding handle handle_tx record_notice
handle_passed_over env event db e = ground arith

handle_failed :
    (env : Env) (event : Incoming) (db : Notices)
    → (handle env (some event) db).0 ≡ err tt
    → (handle env (some event) db).1 ≡ db
unfolding handle handle_tx record_notice
handle_failed env event db e = ground arith

-- The answer for an event says what became of it: a failure and an event that is passed over leave the
-- tables as they were, and an event that is answered as recorded had no notice before and has one now,
-- with the message of its type.
pub handle-Handles :
    (env : Env) (event : Incoming) (db : Notices)
    → Handles env event db (handle env (some event) db).0 (handle env (some event) db).1
handle-Handles env event db = elim (Result-cases (handle env (some event) db).0) [
  | inl (tt, e) ↦ rw (e, handle_failed env event db e) failed
  | inr (answer, e) ↦ answered answer e
]
  where
    answered :
        (answer : Bool)
        → (handle env (some event) db).0 ≡ ok answer
        → Handles env event db (handle env (some event) db).0 (handle env (some event) db).1
    answered false e = rw (e, handle_passed_over env event db e) passed_over
    answered true e = rw e (recorded (handle-Records env event db e))

HasDistinctEvents-append :
    (ks : List ℕ) (k : ℕ)
    → HasDistinctEvents ks
    → exists (λ e. e == k) ks ≡ false
    → HasDistinctEvents (ks ++ k ∷ [])
HasDistinctEvents-append [] k h new = (refl, tt)
HasDistinctEvents-append (j ∷ ks) k h new = (
  ground (arith, exists-append (λ e. e == j) ks (k ∷ [])),
  HasDistinctEvents-append ks k h.1 (ground arith),
)

event_ids-append :
    (log : List Notice) (n : Notice) → event_ids (log ++ n ∷ []) ≡ event_ids log ++ n.event_id ∷ []
event_ids-append [] n = refl
event_ids-append (m ∷ log) n = ap (λ ks. m.event_id ∷ ks) (event_ids-append log n)

-- However often and in whatever order events are delivered, no event gets a second notice, and an event
-- is marked as processed exactly when it has one.
pub handle-IsConsistent :
    (env : Env) (event : Option Incoming) (db : Notices)
    → IsConsistent db
    → IsConsistent (handle env event db).1
handle-IsConsistent env none db h = unfold handle in h
handle-IsConsistent env (some event) db h = kept (handle-Handles env event db)
  where
    kept :
        {answer : Result (Unit {0}) Bool}
        → {db' : Notices} → Handles env event db answer db'
        → IsConsistent db'
    kept failed = h
    kept passed_over = h
    kept (recorded {db' = db'} r) = record {
      logged =
          (let n = notice_of event r.message r.event_id r.order_id in
            rw (r.log, r.processed)
              (event_ids-append db.log n ∙ ap (λ ks. ks ++ r.event_id ∷ []) h.logged));
      distinct =
          rw r.processed (HasDistinctEvents-append db.processed r.event_id h.distinct r.fresh);
    }
