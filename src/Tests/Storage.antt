-- ===== src/Tests/Storage.antt =====
-- Storage's text and configuration at concrete values.
use pulseon.Base.{
  ◌≡◌, refl, true, false, none, some, Result, ok, err, ◌++◌, any, ◌==◌, Text, codes, pos,
}
use pulseon.Storage.Search.{starts_with, contains}
use pulseon.Storage.Encode.{lock_file_name}
use pulseon.Storage.Encode.Injective.{lock_file_name-inj}
use pulseon.Storage.Sql.{string_literal, S3ConnectionConfig}
use pulseon.Storage.Sql.Quoted.{read_literal, read_literal-string_literal}
use pulseon.Storage.Backend.{Paths, duckdb}
use pulseon.Storage.Config.{Toml, ReadFailure}
use pulseon.Storage.Config.Connection.{S3ConnectionOverrides}
use pulseon.Storage.Config.Resolve.{ResolvedInitConfig, resolve_init_config}
use pulseon.Storage.Config.Resolved.{IsResolved, resolve_init_config-IsResolved}

lock_file_name-inj_example :
    (codes "a/b" ≡ codes "a/b") × (any (λ byte. byte == 47) (lock_file_name (codes "a/b")) ≡ false)
lock_file_name-inj_example = lock_file_name-inj (codes "a/b") (codes "a/b") refl

read_literal-string_literal_example :
    read_literal (string_literal (codes "it's") ++ codes " AS dl")
    ≡ some (codes "it's", codes " AS dl")
read_literal-string_literal_example =
    read_literal-string_literal (codes "it's") (codes " AS dl") refl

instance abbrev text_paths : Paths Text
unfolding starts_with
text_paths = record {
  path_from = λ text. text;
  join_path = λ a b. a ++ (codes "/" ++ b);
  is_absolute = starts_with (codes "/");
  to_string_lossy = λ path. path;
}

instance abbrev no_keys : Toml (Unit {0})
no_keys = record {
  get_str = λ table key. none;
  get_bool = λ table key. none;
  get_table = λ table key. none;
}

abbrev no_file : Text → Result ReadFailure Text
no_file path = err (true, codes "not found")

abbrev empty_table : Text → Result Text (Unit {0})
empty_table content = ok tt

abbrev overrides : S3ConnectionOverrides
overrides = record {
  endpoint = some (codes "host");
  access_key_id = some (codes "key");
  secret_access_key = some (codes "secret");
  session_token = none;
  region = some (codes "eu");
  path_style = some true;
  use_ssl = none;
}

abbrev connection : S3ConnectionConfig
connection = record {
  endpoint = codes "host";
  access_key_id = codes "key";
  secret_access_key = codes "secret";
  session_token = none;
  region = some (codes "eu");
  path_style = some true;
  use_ssl = none;
}

abbrev resolved : ResolvedInitConfig Text
resolved = record {
  catalog_backend = duckdb;
  catalog_path = none;
  data_path = some (codes "s3://bucket");
  metric_queue_capacity = 8;
  s3_connection = some connection;
}

resolve_init_config-IsResolved_example : IsResolved (λ text. text) (pos 8) resolved
unfolding resolve_init_config contains
resolve_init_config-IsResolved_example =
    resolve_init_config-IsResolved (λ text. text) empty_table no_file no_file (codes "/p")
      (some (codes "s3://bucket")) none none (pos 8) overrides refl
