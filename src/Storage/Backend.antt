-- ===== src/Storage/Backend.antt =====
-- Catalog backends of crates/pulseon-storage/src/bootstrap.rs, and the paths of a native store.
use pulseon.Base.{Bool, Option, none, some, [], ◌∷◌, ◌++◌, Text, codes, text_eq, if◌then◌else◌}
use pulseon.Storage.Sql.{string_literal, S3ConnectionConfig}
use pulseon.Storage.Search.{is_s3}

-- What the program asks of `std::path`.
pub record Paths (P : Type 0) : Type 0 where
  pub path_from : Text → P
  pub join_path : P → P → P
  pub is_absolute : P → Bool
  pub to_string_lossy : P → Text

pub data CatalogBackend : Type 0 where
  duckdb sqlite : CatalogBackend

unfoldable pub from_name : Text → Option CatalogBackend
unfolding text_eq
from_name name =
    if text_eq name (codes "duckdb")
    then some duckdb
    else if text_eq name (codes "sqlite")
    then some sqlite
    else none

pub record CatalogAdapter : Type 0 where
  pub default_catalog_filename : Text
  pub ducklake_alias : Text
  pub catalog_application_database : Text
  pub ducklake_path_prefix : Text
  pub attach_type_clause : Option Text

unfoldable pub adapter : CatalogBackend → CatalogAdapter
adapter duckdb = record {
  default_catalog_filename = codes "catalog.ducklake";
  ducklake_alias = codes "dl";
  catalog_application_database = codes "pulseon_catalog";
  ducklake_path_prefix = [];
  attach_type_clause = some (codes "TYPE ducklake");
}
adapter sqlite = record {
  default_catalog_filename = codes "catalog.sqlite";
  ducklake_alias = codes "dl";
  catalog_application_database = codes "pulseon_catalog";
  ducklake_path_prefix = codes "ducklake:sqlite:";
  attach_type_clause = none;
}

-- The end of a line and the 17 blanks before an option.
abbrev pub new_clause : Text
new_clause = 10 ∷ codes "                 "

abbrev pub type_clause : Option Text → Text
type_clause none = []
type_clause (some clause) = codes "                 " ++ (clause ++ (codes "," ++ (10 ∷ [])))

pub record NativeStorageConfig (P : Type 0) : Type 0 where
  pub catalog_backend : CatalogBackend
  pub catalog_path : P
  pub data_path : P
  pub s3_connection : Option S3ConnectionConfig

abbrev pub unwrap_or {ℓ} : {A : Type ℓ} → Option A → A → A
unwrap_or none otherwise = otherwise
unwrap_or (some a) otherwise = a

module _ {P : Type 0} ⦃paths : Paths P⦄ where
  abbrev pub is_s3_data_path : P → Bool
  is_s3_data_path path = is_s3 (paths.to_string_lossy path)

  unfoldable pub attach_ducklake_statement : CatalogAdapter → (catalog_path data_path : P) → Text
  unfolding string_literal
  attach_ducklake_statement a catalog_path data_path =
      let catalog_uri =
        string_literal (a.ducklake_path_prefix ++ paths.to_string_lossy catalog_path) in
      codes "ATTACH "
      ++ (catalog_uri
          ++ (codes " AS "
              ++ (a.ducklake_alias
                  ++ (codes " ("
                      ++ ((10 ∷ [])
                          ++ (type_clause a.attach_type_clause
                              ++ (codes "                 DATA_PATH "
                                  ++ (string_literal (paths.to_string_lossy data_path)
                                      ++ (codes ","
                                          ++ (new_clause
                                              ++ (codes "OVERRIDE_DATA_PATH true,"
                                                  ++ (new_clause
                                                      ++ (codes "METADATA_CATALOG '"
                                                          ++ (a.catalog_application_database
                                                            ++ (codes "'"
                                                            ++ (10
                                                            ∷ codes
                                                            "             );"))))))))))))))))

  -- The paths that are not given lie under `.pulseon` in the root.
  unfoldable pub with_backend_and_s3_config :
      CatalogBackend
      → (root_path : P) → (catalog_path data_path : Option P) → Option S3ConnectionConfig
      → NativeStorageConfig P
  unfolding adapter
  with_backend_and_s3_config backend root_path catalog_path data_path s3_connection =
      let pulseon_path = paths.join_path root_path (paths.path_from (codes ".pulseon")) in
      record {
        catalog_backend = backend;
        catalog_path = unwrap_or catalog_path (
            paths.join_path pulseon_path
              (paths.path_from (adapter backend).default_catalog_filename));
        data_path =
            unwrap_or data_path (paths.join_path pulseon_path (paths.path_from (codes "data")));
        s3_connection = s3_connection;
      }
