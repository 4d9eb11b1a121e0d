-- ===== src/Delivery/Times/Saves.antt =====
-- What `save` leaves of the tables (services/delivery-service/internal/delivery/eta.go).
use freshflow.Prelude.{
  ℕ, ◌≡◌, refl, String, Bool, true, false, ◌==◌, none, some, List, [], ◌∷◌, ◌++◌, find, exists,
  exists-append, update_where, ok, Result-cases, Option-cases, Bool-cases, inl, inr, arith, ◌∙◌,
  sym, ◌⊎◌,
}
use mathlib.Core.Path.{subst}
use freshflow.Platform.Text.{str_eq_refl}
use freshflow.Delivery.Model.{Delivery, Logistics, delivery_is}
use freshflow.Delivery.Times.{
  Estimate, stage_of, Job, is_prediction, is_predicted, Call, new_uuid, begin, insert, update,
  commit, Env, prediction_of, set_estimate, store_tx, insert_tx, save_tx, save,
}

-- No call of the run fails.
abbrev pub Works : Env → Type 0
Works env = (c : Call) → env.broken c ≡ false

abbrev pub is_done : Logistics → Job → Bool
is_done db job = is_predicted db job.delivery.id (stage_of job.delivery.status)

abbrev pub IsThere : Logistics → Job → Type 0
IsThere db job = exists (delivery_is job.delivery.id) db.deliveries ≡ true

exists-set_estimate :
    (k id now : ℕ) (e : Estimate) (ds : List Delivery)
    → exists (delivery_is k) (update_where (delivery_is id) (set_estimate now e) ds)
      ≡ exists (delivery_is k) ds
exists-set_estimate k id now e [] = refl
exists-set_estimate k id now e (d ∷ ds) = ground (arith, exists-set_estimate k id now e ds)

-- Predictions and deliveries stay.
pub record Grows (db db' : Logistics) : Type 0 where
  pub predicted :
      (id : ℕ) (stage : String) → is_predicted db id stage ≡ true → is_predicted db' id stage ≡ true
  pub there : (k : ℕ) → exists (delivery_is k) db'.deliveries ≡ exists (delivery_is k) db.deliveries

pub grown : (db : Logistics) → Grows db db
grown db = record { predicted = λ id stage h. h; there = λ k. refl }

pub Grows-trans : (a b c : Logistics) → Grows a b → Grows b c → Grows a c
Grows-trans a b c f g = record {
  predicted = λ id stage h. g.predicted id stage (f.predicted id stage h);
  there = λ k. g.there k ∙ f.there k;
}

unfoldable pub stored : Env → Job → Estimate → Delivery → Logistics → Logistics
stored env job e d db = record db {
  predictions = db.predictions ++ prediction_of env.now (stage_of job.delivery.status) e d ∷ [];
  deliveries = update_where (delivery_is job.delivery.id) (set_estimate env.now e) db.deliveries;
}

stored-Grows :
    (env : Env) (job : Job) (e : Estimate) (d : Delivery) (db : Logistics)
    → Grows db (stored env job e d db)
unfolding stored
stored-Grows env job e d db = record {
  predicted = λ id stage h. ground (
    arith,
    exists-append (is_prediction id stage) db.predictions
        (prediction_of env.now (stage_of job.delivery.status) e d ∷ []),
  );
  there = λ k. exists-set_estimate k job.delivery.id env.now e db.deliveries;
}

-- What `save` leaves: the tables as they were, or with one prediction more.
pub save-cases :
    (env : Env) (job : Job) (e : Estimate) (db : Logistics)
    → ((save env job e db).1 ≡ db)
      ⊎ ((d : Delivery) × (find (delivery_is job.delivery.id) db.deliveries ≡ some d)
          × (is_done db job ≡ false)
          × ((save env job e db).1 ≡ stored env job e d db))
unfolding save save_tx insert_tx store_tx stored
save-cases env job e db = elim (Option-cases (find (delivery_is job.delivery.id) db.deliveries)) [
  | inl absent ↦ inl (ground arith)
  | inr (d, found) ↦ elim (Bool-cases (env.broken (update job.delivery.id))) [
    | inl down ↦ inl (ground arith)
    | inr up ↦ elim (Bool-cases (is_done db job)) [
      | inl done ↦ inl (ground arith)
      | inr new ↦ elim (Result-cases (save env job e db).0) [
        | inl (x, failed) ↦ inl (ground arith)
        | inr (_, went) ↦ inr (d, found, new, ground arith)
      ]
    ]
  ]
]

pub save-Grows :
    (env : Env) (job : Job) (e : Estimate) (db : Logistics) → Grows db (save env job e db).1
save-Grows env job e db = elim (save-cases env job e db) [
  | inl same ↦ subst (Grows db) (sym same) (grown db)
  | inr (d, _, _, new) ↦ subst (Grows db) (sym new) (stored-Grows env job e d db)
]

is_prediction_of :
    (now : ℕ) (job : Job) (e : Estimate) (d : Delivery)
    → (d.id == job.delivery.id) ≡ true
    → is_prediction job.delivery.id
        (stage_of job.delivery.status)
        (prediction_of now (stage_of job.delivery.status) e d)
      ≡ true
is_prediction_of now job e d same = ground (arith, same, str_eq_refl (stage_of job.delivery.status))

pub found_is :
    (k : ℕ) (ds : List Delivery) (d : Delivery)
    → find (delivery_is k) ds ≡ some d
    → (d.id == k) ≡ true
found_is k [] d found = absurd (ground arith)
found_is k (c ∷ ds) d found = elim (Bool-cases (c.id == k)) [
  | inl here ↦ let same : c ≡ d = ground arith in rw (← same) here
  | inr there ↦ found_is k ds d (ground arith)
]

absent_not_there :
    (k : ℕ) (ds : List Delivery)
    → find (delivery_is k) ds ≡ none
    → exists (delivery_is k) ds ≡ true
    → ⊥
absent_not_there k [] absent there = ground arith
absent_not_there k (d ∷ ds) absent there = elim (Bool-cases (d.id == k)) [
  | inl here ↦ ground arith
  | inr apart ↦ absent_not_there k ds (ground arith) (ground arith)
]

-- Where nothing fails, the prediction is there after `save`.
pub save_done :
    (env : Env) (job : Job) (e : Estimate) (db : Logistics)
    → Works env
    → IsThere db job
    → ((save env job e db).0 ≡ ok tt) × (is_done (save env job e db).1 job ≡ true)
unfolding save save_tx insert_tx store_tx
save_done env job e db works there =
    let id = job.delivery.id in
    let a = works (new_uuid id) in
    let b = works (begin id) in
    let c = works (insert id) in
    let u = works (update id) in
    let t = works (commit id) in
    elim (Option-cases (find (delivery_is id) db.deliveries)) [
      | inl absent ↦ absurd (absent_not_there id db.deliveries absent there)
      | inr (d, found) ↦ elim (Bool-cases (is_done db job)) [
        | inl done ↦ (ground arith, ground arith)
        | inr new ↦
            let mine = is_prediction_of env.now job e d (found_is id db.deliveries d found) in
            let added =
              exists-append (is_prediction id (stage_of job.delivery.status)) db.predictions
                (prediction_of env.now (stage_of job.delivery.status) e d ∷ []) in
            (ground arith, ground (arith, mine, added))
      ]
    ]
