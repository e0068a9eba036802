-- ===== src/Storage/Config/Resolve.antt =====
-- `resolve_storage_config` and `resolve_init_config` of crates/pulseon-storage/src/config.rs. The
-- latter reads the file a second time for S3, so there are two reads, which may differ.
use pulseon.Base.{ℕ, ℤ, Option, none, some, Result, ok, ◌>>=◌, ◌>>◌, Text, codes, if◌then◌else◌}
use pulseon.Storage.Sql.{S3ConnectionConfig}
use pulseon.Storage.Backend.{Paths, CatalogBackend, is_s3_data_path}
use pulseon.Storage.Config.{
  Toml, InitConfigError, ReadFailure, validate_metric_queue_capacity, resolve_catalog_backend,
  is_some_and, validate_path_configuration, resolve_path, load_project_config,
}
use pulseon.Storage.Config.Connection.{S3ConnectionOverrides, resolve_s3_connection}

pub record ResolvedStorageConfig (P : Type 0) : Type 0 where
  pub catalog_backend : CatalogBackend
  pub catalog_path : Option P
  pub data_path : Option P

pub record ResolvedInitConfig (P : Type 0) : Type 0 where
  pub catalog_backend : CatalogBackend
  pub catalog_path : Option P
  pub data_path : Option P
  pub metric_queue_capacity : ℕ
  pub s3_connection : Option S3ConnectionConfig

module _ {P Table : Type 0} ⦃paths : Paths P⦄ ⦃toml : Toml Table⦄ (trim : Text → Text)
    (parse : Text → Result Text Table) (read_first read_again : P → Result ReadFailure Text) where
  unfoldable pub resolve_storage_config :
      (root_path : P)
      → (data_path : Option P) → (catalog_backend : Option Text) → (catalog_path : Option P)
      → Result InitConfigError (ResolvedStorageConfig P)
  unfolding load_project_config resolve_path resolve_catalog_backend validate_path_configuration
  resolve_storage_config root_path data_path catalog_backend catalog_path =
      load_project_config read_first parse root_path >>= λ config.
      resolve_path (codes "data_path") (codes "config.toml data_path") root_path data_path config
      >>= λ data_at. resolve_catalog_backend catalog_backend config >>= λ backend.
          resolve_path (codes "catalog_path") (codes "config.toml catalog_path") root_path
            catalog_path config
          >>= λ catalog_at.
              validate_path_configuration data_at catalog_at
              >> ok (record {
                catalog_backend = backend;
                catalog_path = catalog_at;
                data_path = data_at;
              })

  -- The connection, for a data path on S3 only.
  unfoldable pub s3_connection_for :
      (root_path : P)
      → Option P
      → S3ConnectionOverrides
      → Result InitConfigError (Option S3ConnectionConfig)
  unfolding load_project_config resolve_s3_connection
  s3_connection_for root_path data_path overrides =
      if is_some_and is_s3_data_path data_path
      then (load_project_config read_again parse root_path >>= λ config.
          resolve_s3_connection trim config overrides >>= λ connection. ok (some connection))
      else ok none

  unfoldable pub resolve_init_config :
      (root_path : P)
      → (data_path : Option P) → (catalog_backend : Option Text) → (catalog_path : Option P)
      → (metric_queue_capacity : ℤ) → S3ConnectionOverrides
      → Result InitConfigError (ResolvedInitConfig P)
  unfolding resolve_storage_config validate_metric_queue_capacity s3_connection_for
  resolve_init_config root_path data_path catalog_backend catalog_path capacity overrides =
      resolve_storage_config root_path data_path catalog_backend catalog_path >>= λ storage.
      validate_metric_queue_capacity capacity >>= λ metric_queue_capacity.
      s3_connection_for root_path storage.data_path overrides >>= λ s3_connection. ok (record {
        catalog_backend = storage.catalog_backend;
        catalog_path = storage.catalog_path;
        data_path = storage.data_path;
        metric_queue_capacity = metric_queue_capacity;
        s3_connection = s3_connection;
      })
