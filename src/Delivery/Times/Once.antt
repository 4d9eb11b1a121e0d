-- ===== src/Delivery/Times/Once.antt =====
-- A delivery has one prediction for a stage (services/delivery-service/internal/delivery/eta.go,
-- db/postgres/migrations).
use freshflow.Prelude.{
  ℕ, ◌≡◌, refl, sym, true, false, ◌||◌, List, [], ◌∷◌, ◌++◌, exists, exists-append, Option-cases,
  Result-cases, Bool-cases, inl, inr, arith,
}
use freshflow.Platform.Text.{str_eq, str_eq_iff}
use freshflow.Delivery.Model.{Prediction, Logistics}
use freshflow.Delivery.Times.{
  Estimate, predict, stage_of, Job, is_prediction, missing, query_missing, count_active,
  count_available, Env, features_of, prediction_of, save, predict_jobs, active_count,
  available_count, predict_missing,
}
use freshflow.Delivery.Times.Saves.{stored, found_is, save-cases}

-- No two predictions are of one delivery and one stage.
abbrev pub IsOnce : List Prediction → Type 0
IsOnce [] = Unit
IsOnce (p ∷ ps) = (exists (is_prediction p.delivery_id p.stage) ps ≡ false) × IsOnce ps

is_prediction_comm :
    (p q : Prediction)
    → is_prediction p.delivery_id p.stage q ≡ true
    → is_prediction q.delivery_id q.stage p ≡ true
is_prediction_comm p q h =
    let ids : q.delivery_id ≡ p.delivery_id = ground arith in
    let stages : q.stage ≡ p.stage = (str_eq_iff q.stage p.stage).0 (ground arith) in
    let back : str_eq p.stage q.stage ≡ true = (str_eq_iff p.stage q.stage).1 (sym stages) in
    ground arith

apart_comm :
    (p q : Prediction)
    → is_prediction p.delivery_id p.stage q ≡ false
    → is_prediction q.delivery_id q.stage p ≡ false
apart_comm p q h = elim (Bool-cases (is_prediction q.delivery_id q.stage p)) [
  | inr apart ↦ apart
  | inl same ↦ absurd (ground (arith, is_prediction_comm q p same))
]

IsOnce-append :
    (ps : List Prediction) (p : Prediction)
    → IsOnce ps
    → exists (is_prediction p.delivery_id p.stage) ps ≡ false
    → IsOnce (ps ++ p ∷ [])
IsOnce-append [] p h new = (refl, tt)
IsOnce-append (q ∷ ps) p h new = (
  ground (
    arith,
    exists-append (is_prediction q.delivery_id q.stage) ps (p ∷ []),
    apart_comm p q (ground arith),
  ),
  IsOnce-append ps p h.1 (ground arith),
)

save-IsOnce :
    (env : Env) (job : Job) (e : Estimate) (db : Logistics)
    → IsOnce db.predictions
    → IsOnce (save env job e db).1.predictions
unfolding stored
save-IsOnce env job e db h = elim (save-cases env job e db) [
  | inl same ↦ rw same h
  | inr (d, found, fresh, new) ↦
      let mine : d.id ≡ job.delivery.id =
        ground (arith, found_is job.delivery.id db.deliveries d found) in
      let p = prediction_of env.now (stage_of job.delivery.status) e d in
      let apart : exists (is_prediction d.id (stage_of job.delivery.status)) db.predictions
          ≡ false =
        rw mine fresh in
      rw new (IsOnce-append db.predictions p h apart)
]

jobs-IsOnce :
    (env : Env) (active available : ℕ) (jobs : List Job) (db : Logistics)
    → IsOnce db.predictions
    → IsOnce (predict_jobs env active available jobs db).1.predictions
unfolding predict_jobs
jobs-IsOnce env active available [] db h = h
jobs-IsOnce env active available (job ∷ jobs) db h =
    elim (Option-cases (predict (env.service (features_of env active available job)))) [
      | inl silent ↦ rw (predict_jobs, silent) (jobs-IsOnce env active available jobs db h)
      | inr (e, told) ↦
          let saved = save-IsOnce env job e db h in
          elim (Result-cases (save env job e db).0) [
            | inl (x, failed) ↦ rw (predict_jobs, told, failed) saved
            | inr (_, went) ↦
                rw (predict_jobs, told, went)
                  (jobs-IsOnce env active available jobs (save env job e db).1 saved)
          ]
    ]

-- A run of the prediction worker, whatever fails and whatever the model answers, never gives a delivery
-- a second prediction for a stage.
pub predict_missing-IsOnce :
    (env : Env) (db : Logistics)
    → IsOnce db.predictions
    → IsOnce (predict_missing env db).1.predictions
unfolding predict_missing
predict_missing-IsOnce env db h = elim (Bool-cases (env.broken query_missing)) [
  | inl down ↦ rw down h
  | inr up ↦ elim (Bool-cases (env.broken count_active || env.broken count_available)) [
    | inl down ↦ rw (up, down) h
    | inr there ↦
        rw (up, there) (jobs-IsOnce env (active_count db) (available_count db) (missing db) db h)
  ]
]
