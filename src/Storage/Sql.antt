-- ===== src/Storage/Sql.antt =====
-- crates/pulseon-storage/src/sql.rs, and the statements of bootstrap.rs that quote by it.
pub mod Quoted
use pulseon.Base.{
  ℕ, Bool, true, false, Option, none, some, List, [], ◌∷◌, ◌++◌, Text, codes, ◌==◌, if◌then◌else◌,
}

-- `value.replace('\'', "''")`.
unfoldable pub double_quotes : Text → Text
double_quotes [] = []
double_quotes (c ∷ value) = (if c == 39 then 39 ∷ 39 ∷ [] else c ∷ []) ++ double_quotes value

unfoldable pub string_literal : Text → Text
unfolding double_quotes
string_literal value = 39 ∷ (double_quotes value ++ (39 ∷ []))

abbrev pub sql_boolean_literal : Bool → Text
sql_boolean_literal true = codes "true"
sql_boolean_literal false = codes "false"

pub record S3ConnectionConfig : Type 0 where
  pub endpoint : Text
  pub access_key_id : Text
  pub secret_access_key : Text
  pub session_token : Option Text
  pub region : Option Text
  pub path_style : Option Bool
  pub use_ssl : Option Bool

-- `slice::join`.
unfoldable pub join_with : (separator : Text) → List Text → Text
join_with separator [] = []
join_with separator (only ∷ []) = only
join_with separator (first ∷ second ∷ rest) =
    first ++ (separator ++ join_with separator (second ∷ rest))

-- An option that is pushed where it is given.
abbrev pub pushed {ℓ} : {A : Type ℓ} → (A → Text) → Option A → List Text
pushed f none = []
pushed f (some a) = f a ∷ []

abbrev pub url_style : Bool → Text
url_style true = codes "path"
url_style false = codes "vhost"

unfoldable pub secret_options : S3ConnectionConfig → List Text
unfolding string_literal
secret_options config =
    (codes "TYPE s3"
      ∷ (codes "KEY_ID " ++ string_literal config.access_key_id)
      ∷ (codes "SECRET " ++ string_literal config.secret_access_key)
      ∷ (codes "ENDPOINT " ++ string_literal config.endpoint)
      ∷ [])
    ++ (pushed (λ token. codes "SESSION_TOKEN " ++ string_literal token) config.session_token
        ++ (pushed (λ region. codes "REGION " ++ string_literal region) config.region
            ++ (pushed (λ path_style. codes "URL_STYLE " ++ string_literal (url_style path_style))
                  config.path_style
                ++ pushed (λ use_ssl. codes "USE_SSL " ++ sql_boolean_literal use_ssl)
                    config.use_ssl)))

-- The end of a line and the 13 blanks before an option.
abbrev pub new_option : Text
new_option = 10 ∷ codes "             "

unfoldable pub create_s3_secret_statement : S3ConnectionConfig → Text
unfolding secret_options join_with
create_s3_secret_statement config =
    codes "CREATE OR REPLACE SECRET pulseon_s3 ("
    ++ (new_option
        ++ (join_with (codes "," ++ new_option) (secret_options config)
            ++ (10 ∷ codes "         );")))
