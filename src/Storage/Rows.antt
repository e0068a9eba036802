-- ===== src/Storage/Rows.antt =====
-- crates/pulseon-storage/src/rows.rs: rows of the catalog, and the words that statuses are stored as.
-- `DateTime::from_timestamp_millis` is the parameter `from_timestamp_millis`.
use pulseon.Base.{
  ℕ, ◌≡◌, refl, Option, none, some, Result, ok, err, ok_or, ◌>>=◌, Text, codes, text_eq, ℤ,
  if◌then◌else◌,
}
use pulseon.Model.Run.{Run, RunStatus, running, finished, failed, Timestamp}
use pulseon.Model.Metric.{MetricAggregate}
use pulseon.Engine.Error.{StorageError}

unfoldable pub status_as_str : RunStatus → Text
status_as_str running = codes "running"
status_as_str finished = codes "finished"
status_as_str failed = codes "failed"

unfoldable pub run_status_from_str : Text → Result StorageError RunStatus
unfolding text_eq
run_status_from_str status =
    if text_eq status (codes "running")
    then ok running
    else if text_eq status (codes "finished")
    then ok finished
    else if text_eq status (codes "failed")
    then ok failed
    else err (StorageError.invalid_run_status status)

pub record StoredRun : Type 0 where
  pub run_id : Text
  pub project_id : Text
  pub name : Text
  pub status : Text
  pub created_at_millis : ℤ
  pub started_at_millis : ℤ
  pub finished_at_millis : Option ℤ

pub record StoredMetricAggregate (W : Type 0) : Type 0 where
  pub run_id : Text
  pub metric_key : Text
  pub effective_count : ℕ
  pub last_step : ℤ
  pub last_value_f64 : W
  pub min_value_f64 : W
  pub max_value_f64 : W

unfoldable pub into_metric_aggregate : {W : Type 0} → StoredMetricAggregate W → MetricAggregate W
into_metric_aggregate stored = record {
  run_id = stored.run_id;
  metric_key = stored.metric_key;
  effective_count = stored.effective_count;
  last_step = stored.last_step;
  last_value_f64 = stored.last_value_f64;
  min_value_f64 = stored.min_value_f64;
  max_value_f64 = stored.max_value_f64;
}

module _ (from_timestamp_millis : ℤ → Option Timestamp) where
  unfoldable pub timestamp_from_millis : (field : Text) → ℤ → Result StorageError Timestamp
  timestamp_from_millis field millis =
      ok_or (from_timestamp_millis millis) (StorageError.invalid_timestamp field millis)

  -- The optional time, whose error is the call's: `map` and `transpose`.
  abbrev pub optional_timestamp : (field : Text) → Option ℤ → Result StorageError (Option Timestamp)
  unfolding timestamp_from_millis
  optional_timestamp field none = ok none
  optional_timestamp field (some millis) = timestamp_from_millis field millis >>= λ t. ok (some t)

  unfoldable pub into_run : StoredRun → Result StorageError Run
  unfolding run_status_from_str timestamp_from_millis
  into_run stored = run_status_from_str stored.status >>= λ status.
      timestamp_from_millis (codes "created_at") stored.created_at_millis >>= λ created_at.
      timestamp_from_millis (codes "started_at") stored.started_at_millis >>= λ started_at.
      optional_timestamp (codes "finished_at") stored.finished_at_millis >>= λ finished_at.
      ok (record {
        run_id = stored.run_id;
        project_id = stored.project_id;
        name = stored.name;
        status = status;
        created_at = created_at;
        started_at = started_at;
        finished_at = finished_at;
      })

-- The row that a run is written as, with the times as the given counts of milliseconds.
abbrev pub stored_run : (millis : Timestamp → ℤ) → Run → StoredRun
unfolding status_as_str
stored_run millis run = record {
  run_id = run.run_id;
  project_id = run.project_id;
  name = run.name;
  status = status_as_str run.status;
  created_at_millis = millis run.created_at;
  started_at_millis = millis run.started_at;
  finished_at_millis = elim run.finished_at [ none ↦ none | some t ↦ some (millis t) ];
}

run_status-as_str : (status : RunStatus) → run_status_from_str (status_as_str status) ≡ ok status
unfolding run_status_from_str status_as_str
run_status-as_str running = refl
run_status-as_str finished = refl
run_status-as_str failed = refl

optional_timestamp-millis :
    (from_timestamp_millis : ℤ → Option Timestamp) (millis : Timestamp → ℤ) (field : Text)
    (o : Option Timestamp)
    → ((t : Timestamp) → from_timestamp_millis (millis t) ≡ some t)
    → optional_timestamp from_timestamp_millis field
        (elim o [ none ↦ none | some t ↦ some (millis t) ])
      ≡ ok o
unfolding timestamp_from_millis
optional_timestamp-millis from millis field none h = refl
optional_timestamp-millis from millis field (some t) h = rw (h t) refl

-- When every time is read back from its milliseconds, the row that a run is written as reads back
-- as that run.
pub into_run-stored_run :
    (from_timestamp_millis : ℤ → Option Timestamp) (millis : Timestamp → ℤ) (run : Run)
    → ((t : Timestamp) → from_timestamp_millis (millis t) ≡ some t)
    → into_run from_timestamp_millis (stored_run millis run) ≡ ok run
unfolding into_run timestamp_from_millis stored_run
into_run-stored_run from millis run h =
    rw
      (
        run_status-as_str run.status,
        h run.created_at,
        h run.started_at,
        optional_timestamp-millis from millis (codes "finished_at") run.finished_at h,
      )
      refl
