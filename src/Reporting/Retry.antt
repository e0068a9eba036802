-- ===== src/Reporting/Retry.antt =====
-- `retry_metric_batch_write`, `sanitize_metric_write_error` and the rows of `write_metric_batch`.
pub mod Laws
use pulseon.Base.{
  ℕ, zero, suc, ◌+◌, ◌-◌, ◌*◌, min, Option, none, some, List, [], ◌∷◌, ◌++◌, Text, codes, ℤ, pos,
  ◌+ℤ◌, max_ℤ, Result, ok, err, if◌then◌else◌, ltb, map,
}
use pulseon.Engine.Error.{EngineError, StorageError}
use pulseon.Reporting.Diagnostics.{
  Diagnostics, set_writer_running, set_writer_retrying, set_last_write_error,
}
use pulseon.Reporting.Reporter.{MetricReport}

abbrev pub writer_max_retries : ℕ
writer_max_retries = 5

-- Milliseconds.
abbrev pub writer_initial_retry_backoff : ℕ
writer_initial_retry_backoff = 50

abbrev pub writer_max_retry_backoff : ℕ
writer_max_retry_backoff = 1_000

-- `error.to_string()` for the errors that are passed on is the parameter `display`.
unfoldable pub sanitize_metric_write_error : (EngineError → Text) → EngineError → Text
sanitize_metric_write_error display (EngineError.storage_failure (StorageError.duckdb source)) =
    codes "append metric batch failed"
sanitize_metric_write_error display (EngineError.storage operation name source) =
    codes "metric writer storage operation failed while " ++ operation
sanitize_metric_write_error display error = display error

-- What a run of the retry loop leaves.
pub record Retried : Type 0 where
  pub result : Result EngineError ℤ
  pub diagnostics : Diagnostics
  pub attempts : ℕ
  pub sleeps : List ℕ

-- The loop with `retries` left, at the attempt with this number; `write` is the outcome of each
-- attempt, and a sleep is recorded by its length.
module _ (display : EngineError → Text) (write : ℕ → Result EngineError ℤ) where
  unfoldable pub retry_from : (retries attempt backoff : ℕ) → Diagnostics → List ℕ → Retried
  unfolding sanitize_metric_write_error
  retry_from zero attempt backoff d slept = elim (write attempt) [
    | ok next_millis ↦ record {
      result = ok next_millis;
      diagnostics = set_writer_running d;
      attempts = attempt + 1;
      sleeps = slept;
    }
    | err e ↦ record { result = err e; diagnostics = d; attempts = attempt + 1; sleeps = slept }
  ]
  retry_from (suc retries) attempt backoff d slept = elim (write attempt) [
    | ok next_millis ↦ record {
      result = ok next_millis;
      diagnostics = set_writer_running d;
      attempts = attempt + 1;
      sleeps = slept;
    }
    | err e ↦
        retry_from retries (attempt + 1) (min (backoff * 2) writer_max_retry_backoff)
          (set_writer_retrying (set_last_write_error (sanitize_metric_write_error display e) d))
          (slept ++ backoff ∷ [])
  ]

  unfoldable pub retry_metric_batch_write : Diagnostics → Retried
  unfolding retry_from
  retry_metric_batch_write d = retry_from writer_max_retries 0 writer_initial_retry_backoff d []

pub record MetricWrite (W : Type 0) : Type 0 where
  pub run_id : Text
  pub metric_key : Text
  pub step : ℤ
  pub timestamp_millis : ℤ
  pub value_f64 : W
  pub ingested_at_millis : ℤ

module _ {W : Type 0} where
  -- The loop over the batch: the rows in order, and the next free ingestion time.
  unfoldable pub rows_from : ℤ → List (MetricReport W) → List (MetricWrite W) × ℤ
  rows_from ingested_at [] = ([], ingested_at)
  rows_from ingested_at (report ∷ batch) =
      let (rows, next) = rows_from (ingested_at +ℤ pos 1) batch in
      (
        record {
          run_id = report.run_id;
          metric_key = report.metric_key;
          step = report.step;
          timestamp_millis = report.timestamp_millis;
          value_f64 = report.value_f64;
          ingested_at_millis = ingested_at;
        }
            ∷ rows,
        next,
      )

  -- `append` is the storage's append of the rows to the store that it is called with; it may fail
  -- and have changed the store.
  unfoldable pub write_metric_batch :
      {Store : Type 0}
      → (append : Store → List (MetricWrite W) → Result EngineError (Unit {0}) × Store) → Store
      → List (MetricReport W)
      → (next_ingested_at_millis now : ℤ) → Result EngineError ℤ × Store
  unfolding rows_from
  write_metric_batch append store batch next_ingested_at_millis now =
      let (rows, next) = rows_from (max_ℤ next_ingested_at_millis now) batch in
      let (appended, store') = append store rows in
      elim appended [ ok done ↦ (ok next, store') | err e ↦ (err e, store') ]
