-- ===== src/Delivery/Times.antt =====
-- The delivery times that a model predicts (services/delivery-service/internal/delivery/eta.go): a worker
-- that looks for the deliveries with no prediction for their stage, asks the service of the model, and
-- stores its answer. The service is a parameter, and so is the arithmetic of float64.
pub mod Saves
pub mod Once
pub mod Answered
pub mod Tests
use freshflow.Prelude.{
  ℕ, ◌-◌, String, Bool, true, false, not, ◌||◌, ◌&&◌, ◌==◌, Option, none, some, List, [], ◌∷◌, ◌++◌,
  take, leb, if◌then◌else◌, find, exists, Result, ok, err, Tx, modify, fail_if, ◌>>=◌, ◌>>◌,
  transact,
}
use freshflow.Prelude.Int.{ℤ, pos, pos_part, ltb_ℤ}
use freshflow.Prelude.Sort.{sort_by}
use freshflow.Platform.Text.{str_eq}
use freshflow.Delivery.Model.{
  Courier, Status, Delivery, Prediction, Logistics, courier_is, delivery_is, is_terminal,
  is_available, status_name,
}
use freshflow.Delivery.Events.{update_delivery_row}

-- `ETAFeatures`; a distance and a load are the bit patterns of their float64.
pub record Features : Type 0 where
  pub distance_km : ℕ
  pub item_count : ℕ
  pub stage : String
  pub district_load : ℕ
  pub available_couriers : ℕ

-- `ETAPrediction`; `computed_at` is `none` for the zero time.
pub record Estimate : Type 0 where
  pub predicted_eta_seconds : ℤ
  pub model_version : String
  pub computed_at : Option ℕ

-- An answer of the service: its status, and its body if that can be decoded.
pub record Answer : Type 0 where
  pub status : ℕ
  pub body : Option Estimate

abbrev pub is_invalid : Estimate → Bool
is_invalid e = ltb_ℤ e.predicted_eta_seconds (pos 1) || str_eq e.model_version ""

abbrev accept : Estimate → Option Estimate
accept e = if is_invalid e then none else some e

-- `Predict`, with what the service answers.
abbrev pub predict : Option Answer → Option Estimate
predict none = none
predict (some a) =
    if not (a.status == 200) then none else elim a.body [ none ↦ none | some e ↦ accept e ]

-- CASE d.status WHEN 'assigned' THEN 'confirmed' ELSE d.status END
abbrev pub stage_of : Status → String
stage_of Status.assigned = "confirmed"
stage_of s = status_name s

-- A delivery to predict, with the row of its courier.
pub record Job : Type 0 where
  pub delivery : Delivery
  pub courier : Courier

abbrev pub is_prediction : ℕ → String → Prediction → Bool
is_prediction id stage p = p.delivery_id == id && str_eq p.stage stage

abbrev pub is_predicted : Logistics → ℕ → String → Bool
is_predicted db id stage = exists (is_prediction id stage) db.predictions

-- The rows of the SELECT, in the order of the list.
unfoldable pub jobs_of : Logistics → List Delivery → List Job
jobs_of db [] = []
jobs_of db (d ∷ ds) =
    let rest = jobs_of db ds in
    if is_terminal d.status || is_predicted db d.id (stage_of d.status)
    then rest
    else elim (find (courier_is d.courier_id) db.couriers) [
      | none ↦ rest
      | some c ↦ record { delivery = d; courier = c } ∷ rest
    ]

-- The SELECT of `predictMissing`.
unfoldable pub missing : Logistics → List Job
unfolding jobs_of
missing db = take 50 (jobs_of db (sort_by (λ d. d.assigned_at) db.deliveries))

-- SELECT count(*)
unfoldable pub count {ℓ} : {A : Type ℓ} → (A → Bool) → List A → ℕ
count p [] = 0
count p (a ∷ xs) = let rest = count p xs in if p a then ℕ.suc rest else rest

-- The calls that can fail, those of one delivery with its id.
pub data Call : Type 0 where
  query_missing count_active count_available : Call
  new_uuid begin insert update commit : ℕ → Call

-- What a run meets: the calls that fail, the clock, the service of the model, and float64.
pub record Env : Type 0 where
  pub broken : Call → Bool
  pub now : ℕ
  pub service : Features → Option Answer
  pub haversine_km : ℕ → ℕ → ℕ → ℕ → ℕ
  pub add_km : ℕ → ℕ → ℕ
  pub load_of : ℕ → ℕ

abbrev distance_of : Env → Delivery → Courier → ℕ
distance_of env d c =
    if str_eq (stage_of d.status) "delivering"
    then env.haversine_km c.latitude c.longitude d.destination_latitude d.destination_longitude
    else env.add_km (env.haversine_km c.latitude c.longitude d.pickup_latitude d.pickup_longitude) (
        env.haversine_km d.pickup_latitude d.pickup_longitude d.destination_latitude
          d.destination_longitude)

abbrev pub features_of : Env → ℕ → ℕ → Job → Features
features_of env active available job = record {
  distance_km = distance_of env job.delivery job.courier;
  item_count = job.delivery.item_count;
  stage = stage_of job.delivery.status;
  district_load = env.load_of active;
  available_couriers = available;
}

-- The time of the estimate: the clock, where the service gave none.
abbrev pub time_of : ℕ → Estimate → ℕ
time_of now e = elim e.computed_at [ none ↦ now | some t ↦ t ]

-- The SELECT of the INSERT.
abbrev pub prediction_of : ℕ → String → Estimate → Delivery → Prediction
prediction_of now stage e d = record {
  delivery_id = d.id;
  stage = stage;
  model_version = e.model_version;
  predicted_eta_seconds = pos_part e.predicted_eta_seconds;
  predicted_at = time_of now e;
  actual_eta_seconds = elim d.completed_at [ none ↦ none | some t ↦ some (t - time_of now e) ];
  completed_at = d.completed_at;
}

abbrev pub set_estimate : ℕ → Estimate → Delivery → Delivery
set_estimate now e d = record d {
  predicted_eta_seconds = some (pos_part e.predicted_eta_seconds);
  eta_model_version = some e.model_version;
  eta_updated_at = some (time_of now e);
}

-- The prediction is stored, and shown with the delivery.
unfoldable pub store_tx : Env → Job → Estimate → Delivery → Tx Logistics (Unit {0}) (Unit {0})
store_tx env job e d = do
  modify (λ db. record db {
    predictions = db.predictions ++ prediction_of env.now (stage_of job.delivery.status) e d ∷ [];
  })
  fail_if (env.broken (update job.delivery.id)) tt
  modify (update_delivery_row job.delivery.id (set_estimate env.now e))

-- The INSERT of the delivery that is there, or DO NOTHING where the stage has a prediction.
unfoldable pub insert_tx : Env → Job → Estimate → Tx Logistics (Unit {0}) (Unit {0})
unfolding store_tx
insert_tx env job e db = elim (find (delivery_is job.delivery.id) db.deliveries) [
  | none ↦ ok (tt, db)
  | some d ↦
      if is_predicted db job.delivery.id (stage_of job.delivery.status)
      then ok (tt, db)
      else store_tx env job e d db
]

-- The transaction of `save`.
unfoldable pub save_tx : Env → Job → Estimate → Tx Logistics (Unit {0}) (Unit {0})
unfolding insert_tx
save_tx env job e = do
  fail_if (env.broken (insert job.delivery.id)) tt
  insert_tx env job e
  fail_if (env.broken (commit job.delivery.id)) tt

-- `save`
unfoldable pub save : Env → Job → Estimate → Logistics → Result (Unit {0}) (Unit {0}) × Logistics
unfolding save_tx
save env job e db =
    if env.broken (new_uuid job.delivery.id) || env.broken (begin job.delivery.id)
    then (err tt, db)
    else transact (save_tx env job e) db

-- The loop over the jobs: a job that the service does not answer is passed over, and one that is not
-- saved ends the run.
unfoldable pub predict_jobs :
    Env → ℕ → ℕ → List Job → Logistics → Result (Unit {0}) (Unit {0}) × Logistics
unfolding save
predict_jobs env active available [] db = (ok tt, db)
predict_jobs env active available (job ∷ jobs) db =
    elim (predict (env.service (features_of env active available job))) [
      | none ↦ predict_jobs env active available jobs db
      | some e ↦
          (let (saved, db') = save env job e db in
            elim saved [ err x ↦ (err x, db') | ok _ ↦ predict_jobs env active available jobs db' ])
    ]

abbrev pub active_count : Logistics → ℕ
active_count db = count (λ d. not (is_terminal d.status)) db.deliveries

abbrev pub available_count : Logistics → ℕ
available_count db = count (λ c. is_available c.status) db.couriers

-- `predictMissing`
unfoldable pub predict_missing : Env → Logistics → Result (Unit {0}) (Unit {0}) × Logistics
unfolding predict_jobs missing count
predict_missing env db =
    if env.broken query_missing
    then (err tt, db)
    else if env.broken count_active || env.broken count_available
    then (elim (missing db) [ [] ↦ ok tt | _ ∷ _ ↦ err tt ], db)
    else predict_jobs env (active_count db) (available_count db) (missing db) db
