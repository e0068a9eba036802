-- ===== src/Engine/Error.antt =====
-- The errors of crates/pulseon-storage/src/lib.rs and crates/pulseon-core/src/engine/mod.rs.
-- An I/O or DuckDB error, whose type is not the program's own, is the text that it displays.
use pulseon.Base.{ℕ, ℤ, Text, ◌++◌, codes}

pub data StorageError : Type 0 where
  io : (source : Text) → StorageError
  run_already_exists : (run_id : Text) → StorageError
  run_not_found : (run_id : Text) → StorageError
  run_already_active : (run_id : Text) → StorageError
  catalog_not_found : (name : Text) → StorageError
  storage : (operation name source : Text) → StorageError
  storage_duckdb : (operation name source : Text) → StorageError
  empty_source : StorageError
  invalid_identity : StorageError
  query_max_points_too_large : (max_points : ℕ) → StorageError
  lttb_extension_unavailable : (message : Text) → StorageError
  invalid_run_status : (status : Text) → StorageError
  invalid_timestamp : (field : Text) (millis : ℤ) → StorageError
  missing_column : (name : Text) → StorageError
  duplicate_column : (name : Text) → StorageError
  incompatible_column_type : (name expected actual : Text) → StorageError
  incompatible_additive_column : (name : Text) → StorageError
  duckdb : (source : Text) → StorageError

pub data EngineError : Type 0 where
  io : (source : Text) → EngineError
  connection_lock_poisoned : EngineError
  project_already_exists : (project_id : Text) → EngineError
  project_not_found : (project_id : Text) → EngineError
  run_already_exists : (run_id : Text) → EngineError
  run_already_active : (run_id : Text) → EngineError
  run_not_found : (run_id : Text) → EngineError
  duplicate_run_identity : (run_id : Text) → EngineError
  run_closed : (run_id : Text) → EngineError
  invalid_run_transition : (run_id from to : Text) → EngineError
  metric_query_max_points_too_small : (max_points : ℕ) → EngineError
  metric_query_max_points_too_large : (max_points : ℕ) → EngineError
  metric_queue_full : EngineError
  metric_writer_failed : (message : Text) → EngineError
  metric_drain_timeout : EngineError
  metric_flush : (message : Text) → EngineError
  metric_flush_timeout : EngineError
  client_closed : EngineError
  catalog_not_found : (name : Text) → EngineError
  storage : (operation name source : Text) → EngineError
  storage_failure : StorageError → EngineError
  storage_layer : (message : Text) → EngineError
  invalid_run_status : (status : Text) → EngineError
  invalid_timestamp : (field : Text) (millis : ℤ) → EngineError

-- `StorageError::to_string`, for the variants that have no engine variant of their own.
storage_to_string : StorageError → Text
storage_to_string StorageError.empty_source = codes "Parquet source must not be empty"
storage_to_string StorageError.invalid_identity = codes "run id and metric key must not be empty"
storage_to_string (StorageError.missing_column name) =
    codes "metric_points is missing required column `" ++ (name ++ codes "`")
storage_to_string (StorageError.duplicate_column name) =
    codes "metric_points contains duplicate column `" ++ (name ++ codes "`")
storage_to_string (StorageError.incompatible_column_type name expected actual) =
    codes "metric_points column `"
    ++ (name ++ (codes "` must be " ++ (expected ++ (codes ", found " ++ actual))))
storage_to_string (StorageError.incompatible_additive_column name) =
    codes "additive metric_points column `" ++ (name ++ codes "` must be nullable")
storage_to_string (StorageError.duckdb source) = codes "DuckDB storage operation failed: " ++ source
storage_to_string _ = codes ""

-- `impl From<StorageError> for EngineError`, which `?` applies.
unfoldable pub from_storage : StorageError → EngineError
unfolding storage_to_string
from_storage (StorageError.duckdb source) = EngineError.storage_failure (StorageError.duckdb source)
from_storage (StorageError.io source) = EngineError.io source
from_storage (StorageError.run_already_exists run_id) = EngineError.run_already_exists run_id
from_storage (StorageError.run_not_found run_id) = EngineError.run_not_found run_id
from_storage (StorageError.run_already_active run_id) = EngineError.run_already_active run_id
from_storage (StorageError.catalog_not_found name) = EngineError.catalog_not_found name
from_storage (StorageError.storage operation name source) =
    EngineError.storage operation name source
from_storage (StorageError.storage_duckdb operation name source) =
    EngineError.storage_failure (StorageError.storage_duckdb operation name source)
from_storage (StorageError.query_max_points_too_large max_points) =
    EngineError.metric_query_max_points_too_large max_points
from_storage (StorageError.lttb_extension_unavailable message) =
    EngineError.storage_failure (StorageError.lttb_extension_unavailable message)
from_storage (StorageError.invalid_run_status status) = EngineError.invalid_run_status status
from_storage (StorageError.invalid_timestamp field millis) =
    EngineError.invalid_timestamp field millis
from_storage other = EngineError.storage_layer (storage_to_string other)
