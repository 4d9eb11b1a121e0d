-- ===== src/Delivery/Times/Answered.antt =====
-- A run of the prediction worker that works stores what the model answers
-- (services/delivery-service/internal/delivery/eta.go).
use freshflow.Prelude.{
  ℕ, ◌≡◌, refl, true, ◌||◌, ==_refl, some, List, [], ◌∷◌, find, exists, All, All-map, All-take,
  Result-cases, Option-cases, Bool-cases, inl, inr, arith, ◌∙◌, sym,
}
use mathlib.Core.Path.{subst}
use freshflow.Prelude.Sort.{sort_by, exists-sort_by}
use freshflow.Delivery.Model.{Delivery, Logistics, delivery_is, courier_is, is_terminal}
use freshflow.Delivery.Times.{
  Estimate, predict, stage_of, Job, is_predicted, jobs_of, missing, query_missing, count_active,
  count_available, Env, features_of, save, predict_jobs, active_count, available_count,
  predict_missing,
}
use freshflow.Delivery.Times.Saves.{
  Works, is_done, IsThere, Grows, grown, Grows-trans, save-Grows, save_done,
}

jobs-Grows :
    (env : Env) (active available : ℕ) (jobs : List Job) (db : Logistics)
    → Grows db (predict_jobs env active available jobs db).1
unfolding predict_jobs
jobs-Grows env active available [] db = grown db
jobs-Grows env active available (job ∷ jobs) db =
    elim (Option-cases (predict (env.service (features_of env active available job)))) [
      | inl silent ↦ rw (predict_jobs, silent) (jobs-Grows env active available jobs db)
      | inr (e, told) ↦
          let after = (save env job e db).1 in
          elim (Result-cases (save env job e db).0) [
            | inl (x, failed) ↦ rw (predict_jobs, told, failed) (save-Grows env job e db)
            | inr (_, went) ↦
                rw (predict_jobs, told, went)
                  (Grows-trans db after (predict_jobs env active available jobs after).1
                    (save-Grows env job e db) (jobs-Grows env active available jobs after))
          ]
    ]

-- The model answers for the job, with an estimate that is accepted.
abbrev pub IsAnswered : Env → ℕ → ℕ → Job → Type 0
IsAnswered env active available job =
    (e : Estimate) × predict (env.service (features_of env active available job)) ≡ some e

abbrev AreThere : Logistics → List Job → Type 0
AreThere db jobs = All (IsThere db) jobs

-- Each job that the model answers for has its prediction in these tables.
abbrev AreDone : Env → ℕ → ℕ → List Job → Logistics → Type 0
AreDone env active available jobs db =
    All (λ job. IsAnswered env active available job → is_done db job ≡ true) jobs

Grows-AreThere :
    (db db' : Logistics) (jobs : List Job) → Grows db db' → AreThere db jobs → AreThere db' jobs
Grows-AreThere db db' [] g h = tt
Grows-AreThere db db' (job ∷ jobs) g h =
    (g.there job.delivery.id ∙ h.0, Grows-AreThere db db' jobs g h.1)

jobs_done :
    (env : Env) (active available : ℕ) (jobs : List Job) (db : Logistics)
    → Works env
    → AreThere db jobs
    → AreDone env active available jobs (predict_jobs env active available jobs db).1
unfolding predict_jobs
jobs_done env active available [] db works there = tt
jobs_done env active available (job ∷ jobs) db works there =
    elim (Option-cases (predict (env.service (features_of env active available job)))) [
      | inl silent ↦
          let same : (predict_jobs env active available jobs db).1
              ≡ (predict_jobs env active available (job ∷ jobs) db).1 =
            rw (predict_jobs, silent) refl in
          subst (AreDone env active available (job ∷ jobs)) same (
            λ (e, told). absurd (ground (arith, told, silent)),
            jobs_done env active available jobs db works there.1,
          )
      | inr (e, told) ↦
          let after = (save env job e db).1 in
          let (went, done) = save_done env job e db works there.0 in
          let same : (predict_jobs env active available jobs after).1
              ≡ (predict_jobs env active available (job ∷ jobs) db).1 =
            rw (predict_jobs, told, went) refl in
          subst (AreDone env active available (job ∷ jobs)) same (
            λ _.
                (jobs-Grows env active available jobs after).predicted job.delivery.id
                  (stage_of job.delivery.status) done,
            jobs_done env active available jobs after works
                (Grows-AreThere db after jobs (save-Grows env job e db) there.1),
          )
    ]

jobs_of-there :
    (db : Logistics) (ds : List Delivery)
    → All (λ job. exists (delivery_is job.delivery.id) ds ≡ true) (jobs_of db ds)
unfolding jobs_of
jobs_of-there db [] = tt
jobs_of-there db (d ∷ ds) =
    let rest =
      All-map (λ job. exists (delivery_is job.delivery.id) ds ≡ true)
        (λ job. exists (delivery_is job.delivery.id) (d ∷ ds) ≡ true) (λ job h. ground (arith, h))
        (jobs_of db ds) (jobs_of-there db ds) in
    elim (Bool-cases (is_terminal d.status || is_predicted db d.id (stage_of d.status))) [
      | inl over ↦ rw over rest
      | inr live ↦ elim (Option-cases (find (courier_is d.courier_id) db.couriers)) [
        | inl lost ↦ rw (live, lost) rest
        | inr (c, found) ↦ rw (live, found) (rw (==_refl d.id) refl, rest)
      ]
    ]

missing-there : (db : Logistics) → AreThere db (missing db)
unfolding missing
missing-there db =
    All-take (IsThere db) 50 (jobs_of db (sort_by (λ d. d.assigned_at) db.deliveries)) (
      All-map
        (λ job.
          exists (delivery_is job.delivery.id) (sort_by (λ d. d.assigned_at) db.deliveries) ≡ true)
        (IsThere db)
        (λ job h.
          sym (exists-sort_by (λ d. d.assigned_at) (delivery_is job.delivery.id) db.deliveries) ∙ h)
        (jobs_of db (sort_by (λ d. d.assigned_at) db.deliveries))
        (jobs_of-there db (sort_by (λ d. d.assigned_at) db.deliveries)))

-- A run in which no call fails does not let a delivery down: each delivery that it found without a
-- prediction for its stage, and that the model answers for, has one afterwards.
pub predict_missing_answers :
    (env : Env) (db : Logistics)
    → Works env
    → All
        (λ job.
          IsAnswered env (active_count db) (available_count db) job
          → is_predicted (predict_missing env db).1 job.delivery.id (stage_of job.delivery.status)
            ≡ true)
        (missing db)
unfolding predict_missing
predict_missing_answers env db works =
    let a = works query_missing in
    let b = works count_active in
    let c = works count_available in
    rw (a, b, c)
      (jobs_done env (active_count db) (available_count db) (missing db) db works
        (missing-there db))
