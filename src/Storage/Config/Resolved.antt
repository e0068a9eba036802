-- ===== src/Storage/Config/Resolved.antt =====
-- What a resolved configuration is known to satisfy.
use pulseon.Base.{
  ℕ, ℤ, pos, negsuc, ◌≡◌, ◌≤◌, inl, inr, refl, Bool, true, false, Option, none, some, Result, ok,
  ◌>>◌, Text, codes, arith, Bool-cases,
}
use pulseon.Storage.Sql.{S3ConnectionConfig}
use pulseon.Storage.Backend.{Paths, is_s3_data_path}
use pulseon.Storage.Config.{
  Toml, ReadFailure, validate_metric_queue_capacity, is_some_and, is_uri_path,
  is_unsupported_data_uri_path, validate_path_configuration, resolve_path, load_project_config,
  resolve_catalog_backend,
}
use pulseon.Storage.Config.Connection.{S3ConnectionOverrides, resolve_s3_connection}
use pulseon.Storage.Config.Resolve.{
  ResolvedInitConfig, ResolvedStorageConfig, resolve_storage_config, s3_connection_for,
  resolve_init_config,
}
use pulseon.Storage.Config.Filled.{
  IsConnection, Ensures, ensured, Result-cases, resolve_s3_connection-IsConnection,
}

module _ (trim : Text → Text) where
  -- A connection exactly for a data path on S3.
  abbrev pub IsFor : Bool → Option S3ConnectionConfig → Type 0
  IsFor on_s3 none = on_s3 ≡ false
  IsFor on_s3 (some c) = (on_s3 ≡ true) × IsConnection trim c

  module _ {P : Type 0} ⦃paths : Paths P⦄ where
    -- The capacity asked for, within the bounds; local paths, or S3 for the data; and the connection.
    abbrev pub IsResolved : ℤ → ResolvedInitConfig P → Type 0
    IsResolved capacity c =
        (capacity ≡ pos c.metric_queue_capacity)
        × (1 ≤ c.metric_queue_capacity)
        × (c.metric_queue_capacity ≤ 1048576)
        × (is_some_and is_unsupported_data_uri_path c.data_path ≡ false)
        × (is_some_and is_uri_path c.catalog_path ≡ false)
        × IsFor (is_some_and is_s3_data_path c.data_path) c.s3_connection

validate_metric_queue_capacity-ok :
    (value : ℤ) {n : ℕ}
    → validate_metric_queue_capacity value ≡ ok n
    → (value ≡ pos n) × (1 ≤ n) × (n ≤ 1048576)
unfolding validate_metric_queue_capacity
validate_metric_queue_capacity-ok (pos k) h = ground (arith, h)
validate_metric_queue_capacity-ok (negsuc k) h = ground (arith, h)

validate_path_configuration-ok :
    {P : Type 0} ⦃paths : Paths P⦄ (data_path catalog_path : Option P)
    → validate_path_configuration data_path catalog_path ≡ ok tt
    → (is_some_and is_unsupported_data_uri_path data_path ≡ false)
      × (is_some_and is_uri_path catalog_path ≡ false)
unfolding validate_path_configuration
validate_path_configuration-ok data_path catalog_path h = ground (arith, h)

module _ {P Table : Type 0} ⦃paths : Paths P⦄ ⦃toml : Toml Table⦄ (trim : Text → Text)
    (parse : Text → Result Text Table) (read_first read_again : P → Result ReadFailure Text) where
  abbrev IsLocal : ResolvedStorageConfig P → Type 0
  IsLocal c =
      (is_some_and is_unsupported_data_uri_path c.data_path ≡ false)
      × (is_some_and is_uri_path c.catalog_path ≡ false)

  checked :
      (data_path catalog_path : Option P) (c : ResolvedStorageConfig P)
      → c.data_path ≡ data_path
      → c.catalog_path ≡ catalog_path
      → Ensures IsLocal (validate_path_configuration data_path catalog_path >> ok c)
  checked data_path catalog_path c hd hc =
      elim (Result-cases (validate_path_configuration data_path catalog_path)) [
        | inl (done, e) ↦ rw (e, hd, hc) (validate_path_configuration-ok data_path catalog_path e)
        | inr (failure, e) ↦ rw e tt
      ]

  resolve_storage_config-IsLocal :
      (root_path : P) (data_path : Option P) (catalog_backend : Option Text)
      (catalog_path : Option P)
      → Ensures IsLocal (
          resolve_storage_config trim parse read_first read_again root_path data_path
            catalog_backend catalog_path)
  unfolding resolve_storage_config
  resolve_storage_config-IsLocal root_path data_path catalog_backend catalog_path =
      elim (Result-cases (load_project_config read_first parse root_path)) [
        | inr (failure, e) ↦ rw e tt
        | inl (config, e0) ↦
            elim (Result-cases (
              resolve_path (codes "data_path") (codes "config.toml data_path") root_path data_path
                config)) [
                  | inr (failure, e) ↦ rw (e0, e) tt
                  | inl (data_at, e1) ↦
                      elim (Result-cases (resolve_catalog_backend catalog_backend config)) [
                        | inr (failure, e) ↦ rw (e0, e1, e) tt
                        | inl (backend, e2) ↦
                            elim (Result-cases (
                              resolve_path (codes "catalog_path") (codes "config.toml catalog_path")
                                root_path catalog_path config)) [
                                  | inr (failure, e) ↦ rw (e0, e1, e2, e) tt
                                  | inl (catalog_at, e3) ↦
                                      rw (e0, e1, e2, e3)
                                        (checked data_at catalog_at
                                          (record {
                                            catalog_backend = backend;
                                            catalog_path = catalog_at;
                                            data_path = data_at;
                                          })
                                          refl refl)
                                ]
                      ]
                ]
      ]

  s3_connection_for-IsFor :
      (root_path : P) (data_path : Option P) (overrides : S3ConnectionOverrides)
      → Ensures
          (IsFor trim (is_some_and is_s3_data_path data_path))
          (s3_connection_for trim parse read_first read_again root_path data_path overrides)
  unfolding s3_connection_for
  s3_connection_for-IsFor root_path data_path overrides =
      elim (Bool-cases (is_some_and is_s3_data_path data_path)) [
        | inr local ↦ rw local refl
        | inl on_s3 ↦ elim (Result-cases (load_project_config read_again parse root_path)) [
          | inr (failure, e) ↦ rw (on_s3, e) tt
          | inl (config, e) ↦ elim (Result-cases (resolve_s3_connection trim config overrides)) [
            | inr (failure, f) ↦ rw (on_s3, e, f) tt
            | inl (connection, f) ↦
                rw (on_s3, e, f)
                  (
                    refl,
                    ensured (IsConnection trim) (resolve_s3_connection trim config overrides)
                        (resolve_s3_connection-IsConnection trim config overrides) f,
                  )
          ]
        ]
      ]

  init-IsResolved :
      (root_path : P) (data_path : Option P) (catalog_backend : Option Text)
      (catalog_path : Option P) (capacity : ℤ) (overrides : S3ConnectionOverrides)
      → Ensures (IsResolved trim capacity) (
          resolve_init_config trim parse read_first read_again root_path data_path catalog_backend
            catalog_path capacity overrides)
  unfolding resolve_init_config
  init-IsResolved root_path data_path catalog_backend catalog_path capacity overrides =
      let read =
        resolve_storage_config trim parse read_first read_again root_path data_path catalog_backend
          catalog_path in
      elim (Result-cases read) [
        | inr (failure, e) ↦ rw e tt
        | inl (storage, e0) ↦ elim (Result-cases (validate_metric_queue_capacity capacity)) [
          | inr (failure, e) ↦ rw (e0, e) tt
          | inl (n, e1) ↦
              let connect =
                s3_connection_for trim parse read_first read_again root_path storage.data_path
                  overrides in
              elim (Result-cases connect) [
                | inr (failure, e) ↦ rw (e0, e1, e) tt
                | inl (connection, e2) ↦
                    let local =
                      ensured IsLocal read
                        (resolve_storage_config-IsLocal root_path data_path catalog_backend
                          catalog_path)
                        e0 in
                    let (same, low, high) = validate_metric_queue_capacity-ok capacity e1 in
                    rw (e0, e1, e2)
                      (
                        same,
                        low,
                        high,
                        local.0,
                        local.1,
                        ensured (IsFor trim (is_some_and is_s3_data_path storage.data_path)) connect
                            (s3_connection_for-IsFor root_path storage.data_path overrides) e2,
                      )
              ]
        ]
      ]

  -- A configuration that resolves has the queue capacity that was asked for, which is between 1 and
  -- 1048576; its catalog path is no URI, and its data path none but one on S3; and it holds an S3
  -- connection exactly when the data path is on S3, whose endpoint, key, secret and, where given,
  -- session token and region are not blank.
  pub resolve_init_config-IsResolved :
      (root_path : P) (data_path : Option P) (catalog_backend : Option Text)
      (catalog_path : Option P) (capacity : ℤ) (overrides : S3ConnectionOverrides)
      {c : ResolvedInitConfig P}
      → resolve_init_config trim parse read_first read_again root_path data_path catalog_backend
          catalog_path capacity overrides
        ≡ ok c
      → IsResolved trim capacity c
  resolve_init_config-IsResolved root_path data_path catalog_backend catalog_path capacity
        overrides =
      ensured (IsResolved trim capacity) _
        (init-IsResolved root_path data_path catalog_backend catalog_path capacity overrides)
