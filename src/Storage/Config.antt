-- ===== src/Storage/Config.antt =====
-- crates/pulseon-storage/src/config.rs: what a project is opened with, from the call's arguments and
-- the project's config.toml. The TOML reader, `str::trim` and the file's content are parameters.
pub mod Connection
pub mod Resolve
pub mod Filled
pub mod Resolved
use pulseon.Base.{
  ℕ, ℤ, pos, negsuc, leb_ℤ, Bool, true, false, ◌&&◌, not, Option, none, some, Result, ok, err,
  ok_or, ◌>>=◌, ◌++◌, Text, codes, if◌then◌else◌,
}
use pulseon.Chart.Brush.{map_some}
use pulseon.Storage.Backend.{Paths, CatalogBackend, from_name, unwrap_or}
use pulseon.Storage.Search.{is_uri, is_s3}

-- What the program asks of the `toml` crate: `get` and then `as_str`, `as_bool` or `as_table`. The
-- outer `none` is a missing key, the inner one a value of another kind.
pub record Toml (Table : Type 0) : Type 0 where
  pub get_str : Table → Text → Option (Option Text)
  pub get_bool : Table → Text → Option (Option Bool)
  pub get_table : Table → Text → Option (Option Table)

-- An I/O or TOML error is the text that it displays.
pub data InitConfigError : Type 0 where
  read_config : (source : Text) → InitConfigError
  parse_config : (source : Text) → InitConfigError
  invalid : (message : Text) → InitConfigError

abbrev pub max_metric_queue_capacity : ℕ
max_metric_queue_capacity = 1048576

abbrev pub capacity_error : InitConfigError
capacity_error = invalid (codes "metric_queue_capacity must be between 1 and 1048576")

unfoldable pub validate_metric_queue_capacity : ℤ → Result InitConfigError ℕ
validate_metric_queue_capacity value =
    if leb_ℤ (pos 1) value && leb_ℤ value (pos max_metric_queue_capacity)
    then elim value [ pos n ↦ ok n | negsuc n ↦ err capacity_error ]
    else err capacity_error

-- A failed read of the file: whether it is not there, and the error's text.
abbrev pub ReadFailure : Type 0
ReadFailure = Bool × Text

-- `map`, `transpose` and `flatten` over the configuration.
abbrev pub from_config {ℓ} :
    {Table : Type 0} {A : Type ℓ}
    → Option Table
    → (Table → Result InitConfigError (Option A))
    → Result InitConfigError (Option A)
from_config none f = ok none
from_config (some table) f = f table

-- `Option::is_some_and`.
abbrev pub is_some_and {ℓ} : {A : Type ℓ} → (A → Bool) → Option A → Bool
is_some_and f none = false
is_some_and f (some a) = f a

module _ {Table : Type 0} ⦃toml : Toml Table⦄ where
  unfoldable pub optional_string : (key label : Text) → Table → Result InitConfigError (Option Text)
  optional_string key label config = elim (toml.get_str config key) [
    | none ↦ ok none
    | some none ↦ err (invalid (label ++ codes " must be a string"))
    | some (some text) ↦ ok (some text)
  ]

  unfoldable pub resolve_catalog_backend :
      Option Text → Option Table → Result InitConfigError CatalogBackend
  unfolding optional_string from_name
  resolve_catalog_backend explicit config =
      let configured : Result InitConfigError (Option Text) = elim explicit [
        | some name ↦ ok none
        | none ↦
            from_config config
              (optional_string (codes "catalog_backend") (codes "config.toml catalog_backend"))
      ] in
      configured >>= λ second.
      let name = unwrap_or explicit (unwrap_or second (codes "duckdb")) in
      ok_or (from_name name) (invalid (codes "unsupported catalog_backend: " ++ name))

module _ {P : Type 0} ⦃paths : Paths P⦄ where
  abbrev pub is_uri_path : P → Bool
  is_uri_path path = is_uri (paths.to_string_lossy path)

  abbrev pub is_unsupported_data_uri_path : P → Bool
  is_unsupported_data_uri_path path =
      is_uri (paths.to_string_lossy path) && not (is_s3 (paths.to_string_lossy path))

  unfoldable pub resolve_config_path : (root_path path : P) → P
  resolve_config_path root_path path =
      if paths.is_absolute path
      then path
      else if is_uri_path path
      then path
      else paths.join_path root_path path

  unfoldable pub validate_path_configuration :
      (data_path catalog_path : Option P) → Result InitConfigError (Unit {0})
  validate_path_configuration data_path catalog_path =
      if is_some_and is_unsupported_data_uri_path data_path
      then err (invalid (codes "data_path must be a local filesystem path or s3:// URI"))
      else if is_some_and is_uri_path catalog_path
      then err (invalid (codes "catalog_path must be a local filesystem path"))
      else ok tt

  unfoldable pub load_project_config :
      {Table : Type 0}
      → (read_to_string : P → Result ReadFailure Text) → (parse : Text → Result Text Table)
      → (root_path : P) → Result InitConfigError (Option Table)
  load_project_config read_to_string parse root_path =
      let config_path =
        paths.join_path (paths.join_path root_path (paths.path_from (codes ".pulseon")))
          (paths.path_from (codes "config.toml")) in
      elim (read_to_string config_path) [
        | err (not_found, source) ↦ if not_found then ok none else err (read_config source)
        | ok content ↦ elim (parse content) [
          | ok table ↦ ok (some table)
          | err source ↦ err (parse_config source)
        ]
      ]

  module _ {Table : Type 0} ⦃toml : Toml Table⦄ where
    -- `resolve_data_path` and `resolve_catalog_path`, which differ in the key.
    unfoldable pub resolve_path :
        (key label : Text)
        → (root_path : P) → Option P
        → Option Table
        → Result InitConfigError (Option P)
    unfolding optional_string resolve_config_path
    resolve_path key label root_path (some explicit) config = ok (some explicit)
    resolve_path key label root_path none config =
        from_config config (optional_string key label) >>= λ value.
        ok (map_some (λ text. resolve_config_path root_path (paths.path_from text)) value)
