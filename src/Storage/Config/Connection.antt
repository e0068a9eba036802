-- ===== src/Storage/Config/Connection.antt =====
-- The S3 part of crates/pulseon-storage/src/config.rs: explicit settings before the file's.
use pulseon.Base.{Bool, Option, none, some, Result, ok, err, ok_or, ◌>>=◌, [], ◌++◌, Text, codes}
use pulseon.Storage.Sql.{S3ConnectionConfig}
use pulseon.Storage.Config.{Toml, InitConfigError, invalid, from_config, optional_string}

pub record S3ConnectionOverrides : Type 0 where
  pub endpoint : Option Text
  pub access_key_id : Option Text
  pub secret_access_key : Option Text
  pub session_token : Option Text
  pub region : Option Text
  pub path_style : Option Bool
  pub use_ssl : Option Bool

unfoldable pub required_s3_string : Option Text → (name : Text) → Result InitConfigError Text
required_s3_string value name =
    ok_or value (invalid (name ++ codes " is required when data_path is s3://"))

module _ (trim : Text → Text) where
  unfoldable pub validate_s3_string :
      Option Text → (name : Text) → Result InitConfigError (Option Text)
  validate_s3_string none name = ok none
  validate_s3_string (some value) name = elim (trim value) [
    | [] ↦ err (invalid (name ++ codes " must not be empty"))
    | _ ↦ ok (some value)
  ]

  module _ {Table : Type 0} ⦃toml : Toml Table⦄ where
    unfoldable pub s3_table : Option Table → Result InitConfigError (Option Table)
    s3_table none = ok none
    s3_table (some config) = elim (toml.get_table config (codes "s3")) [
      | none ↦ ok none
      | some none ↦ err (invalid (codes "config.toml s3 must be a table"))
      | some (some table) ↦ ok (some table)
    ]

    unfoldable pub optional_s3_string :
        Option Text
        → Option Table
        → (key explicit_name : Text) → Result InitConfigError (Option Text)
    unfolding validate_s3_string optional_string
    optional_s3_string (some explicit) config key explicit_name =
        validate_s3_string (some explicit) explicit_name
    optional_s3_string none config key explicit_name =
        from_config config (optional_string key (codes "config.toml s3." ++ key)) >>= λ value.
        validate_s3_string value explicit_name

    unfoldable pub optional_bool :
        Option Bool → Option Table → (key label : Text) → Result InitConfigError (Option Bool)
    optional_bool (some explicit) config key label = ok (some explicit)
    optional_bool none none key label = ok none
    optional_bool none (some config) key label = elim (toml.get_bool config key) [
      | none ↦ ok none
      | some none ↦ err (invalid (label ++ codes " must be a boolean"))
      | some (some setting) ↦ ok (some setting)
    ]

    -- A setting that must be there, under the key and the name that messages use.
    unfoldable pub required_setting :
        Option Text → Option Table → (key name : Text) → Result InitConfigError Text
    unfolding optional_s3_string required_s3_string
    required_setting explicit s3 key name =
        optional_s3_string explicit s3 key name >>= λ value. required_s3_string value name

    -- `S3ConnectionConfig::new` on the settings, the first one that fails being the result.
    unfoldable pub s3_settings :
        S3ConnectionOverrides → Option Table → Result InitConfigError S3ConnectionConfig
    unfolding optional_s3_string optional_bool required_setting
    s3_settings explicit s3 =
        required_setting explicit.endpoint s3 (codes "endpoint") (codes "s3_endpoint")
        >>= λ endpoint.
            required_setting explicit.access_key_id s3 (codes "access_key_id")
              (codes "s3_access_key_id")
            >>= λ access_key_id.
                required_setting explicit.secret_access_key s3 (codes "secret_access_key")
                  (codes "s3_secret_access_key")
                >>= λ secret_access_key.
                    optional_s3_string explicit.session_token s3 (codes "session_token")
                      (codes "s3_session_token")
                    >>= λ session_token.
                        optional_s3_string explicit.region s3 (codes "region") (codes "s3_region")
                        >>= λ region.
                            optional_bool explicit.path_style s3 (codes "path_style")
                              (codes "config.toml s3.path_style")
                            >>= λ path_style.
                                optional_bool explicit.use_ssl s3 (codes "use_ssl")
                                  (codes "config.toml s3.use_ssl")
                                >>= λ use_ssl. ok (record {
                                  endpoint = endpoint;
                                  access_key_id = access_key_id;
                                  secret_access_key = secret_access_key;
                                  session_token = session_token;
                                  region = region;
                                  path_style = path_style;
                                  use_ssl = use_ssl;
                                })

    unfoldable pub resolve_s3_connection :
        Option Table → S3ConnectionOverrides → Result InitConfigError S3ConnectionConfig
    unfolding s3_table s3_settings
    resolve_s3_connection config explicit = s3_table config >>= s3_settings explicit
