-- ===== src/Storage/Config/Filled.antt =====
-- The settings of a resolved S3 connection are not blank.
use pulseon.Base.{
  ℕ, ◌≡◌, ◌≢◌, ◌⊎◌, inl, inr, refl, sym, ◌∙◌, Bool, Option, none, some, Result, ok, err, ◌>>=◌, [],
  ◌∷◌, Text, codes, ◌++◌,
}
use pulseon.Storage.Sql.{S3ConnectionConfig}
use pulseon.Storage.Config.{Toml, InitConfigError, from_config, optional_string}
use pulseon.Storage.Config.Connection.{
  S3ConnectionOverrides, validate_s3_string, optional_s3_string, required_s3_string,
  required_setting, resolve_s3_connection, s3_table, s3_settings,
}

text_cases : (t : Text) → (t ≡ []) ⊎ ((b : ℕ) × (rest : Text) × (t ≡ b ∷ rest))
text_cases [] = inl refl
text_cases (b ∷ rest) = inr (b, rest, refl)

-- The predicate holds of the result, where there is one.
abbrev pub Ensures {ℓ κ} : {A : Type ℓ} → (A → Type κ) → Result InitConfigError A → Type κ
Ensures P (ok a) = P a
Ensures P (err e) = Unit

pub sequence_rule {ℓ κ μ} :
    {A : Type ℓ} {B : Type κ} (P : B → Type μ) (first : Result InitConfigError A)
    (next : A → Result InitConfigError B)
    → ((a : A) → Ensures P (next a))
    → Ensures P (first >>= next)
sequence_rule P (err e) next h = tt
sequence_rule P (ok a) next h = h a

pub ensured {ℓ κ} :
    {A : Type ℓ} (P : A → Type κ) (r : Result InitConfigError A) {a : A}
    → Ensures P r
    → r ≡ ok a
    → P a
ensured P (ok b) {a} h e = let same : b ≡ a = cc in rw (sym same) h
ensured P (err failure) h e = cc

pub Result-cases {ℓ} :
    {A : Type ℓ} (r : Result InitConfigError A)
    → ((a : A) × (r ≡ ok a)) ⊎ ((e : InitConfigError) × (r ≡ err e))
Result-cases (ok a) = inl (a, refl)
Result-cases (err e) = inr (e, refl)

-- The settings of a connection are not blank.
module _ (trim : Text → Text) where
  abbrev pub IsFilled : Text → Type 0
  IsFilled value = trim value ≢ []

  abbrev pub IsFilledIfGiven : Option Text → Type 0
  IsFilledIfGiven none = Unit
  IsFilledIfGiven (some value) = IsFilled value

  abbrev pub IsConnection : S3ConnectionConfig → Type 0
  IsConnection c =
      IsFilled c.endpoint
      × IsFilled c.access_key_id
      × IsFilled c.secret_access_key
      × IsFilledIfGiven c.session_token
      × IsFilledIfGiven c.region

  trimmed-cases :
      (value : Text) → (trim value ≡ []) ⊎ ((b : ℕ) × (rest : Text) × (trim value ≡ b ∷ rest))
  trimmed-cases value = text_cases (trim value)

  validate-IsFilled :
      (value : Option Text) (name : Text)
      → Ensures IsFilledIfGiven (validate_s3_string trim value name)
  unfolding validate_s3_string
  validate-IsFilled none name = tt
  validate-IsFilled (some value) name = elim (trimmed-cases value) [
    | inl e ↦ rw (Ensures, e) tt
    | inr (b, rest, e) ↦ rw (Ensures, e) (λ h. let bad : b ∷ rest ≡ [] = sym e ∙ h in cc)
  ]

  require-IsFilled :
      (given : Result InitConfigError (Option Text)) (name : Text)
      → Ensures IsFilledIfGiven given
      → Ensures IsFilled (given >>= λ value. required_s3_string value name)
  unfolding required_s3_string
  require-IsFilled (err e) name h = tt
  require-IsFilled (ok none) name h = tt
  require-IsFilled (ok (some value)) name h = h

  -- Settings that are each filled make a connection, or one of them fails.
  settings-IsConnection :
      (r0 r1 r2 : Result InitConfigError Text) (r3 r4 : Result InitConfigError (Option Text))
      (r5 r6 : Result InitConfigError (Option Bool))
      → Ensures IsFilled r0
      → Ensures IsFilled r1
      → Ensures IsFilled r2
      → Ensures IsFilledIfGiven r3
      → Ensures IsFilledIfGiven r4
      → Ensures IsConnection (
          r0 >>= λ endpoint. r1 >>= λ access_key_id. r2 >>= λ secret_access_key.
          r3 >>= λ session_token. r4 >>= λ region. r5 >>= λ path_style. r6 >>= λ use_ssl.
          ok (record {
            endpoint = endpoint;
            access_key_id = access_key_id;
            secret_access_key = secret_access_key;
            session_token = session_token;
            region = region;
            path_style = path_style;
            use_ssl = use_ssl;
          }))
  settings-IsConnection (err e) r1 r2 r3 r4 r5 r6 h0 h1 h2 h3 h4 = tt
  settings-IsConnection (ok a) (err e) r2 r3 r4 r5 r6 h0 h1 h2 h3 h4 = tt
  settings-IsConnection (ok a) (ok b) (err e) r3 r4 r5 r6 h0 h1 h2 h3 h4 = tt
  settings-IsConnection (ok a) (ok b) (ok c) (err e) r4 r5 r6 h0 h1 h2 h3 h4 = tt
  settings-IsConnection (ok a) (ok b) (ok c) (ok t) (err e) r5 r6 h0 h1 h2 h3 h4 = tt
  settings-IsConnection (ok a) (ok b) (ok c) (ok t) (ok r) (err e) r6 h0 h1 h2 h3 h4 = tt
  settings-IsConnection (ok a) (ok b) (ok c) (ok t) (ok r) (ok p) (err e) h0 h1 h2 h3 h4 = tt
  settings-IsConnection (ok a) (ok b) (ok c) (ok t) (ok r) (ok p) (ok u) h0 h1 h2 h3 h4 =
      (h0, h1, h2, h3, h4)

  module _ {Table : Type 0} ⦃toml : Toml Table⦄ where
    optional-IsFilled :
        (explicit : Option Text) (config : Option Table) (key name : Text)
        → Ensures IsFilledIfGiven (optional_s3_string trim explicit config key name)
    unfolding optional_s3_string
    optional-IsFilled (some explicit) config key name = validate-IsFilled (some explicit) name
    optional-IsFilled none config key name =
        sequence_rule IsFilledIfGiven
          (from_config config (optional_string key (codes "config.toml s3." ++ key)))
          (λ value. validate_s3_string trim value name) (λ value. validate-IsFilled value name)

    required-IsFilled :
        (explicit : Option Text) (config : Option Table) (key name : Text)
        → Ensures IsFilled (required_setting trim explicit config key name)
    unfolding required_setting
    required-IsFilled explicit config key name =
        require-IsFilled (optional_s3_string trim explicit config key name) name
          (optional-IsFilled explicit config key name)

    s3_settings-IsConnection :
        (explicit : S3ConnectionOverrides) (s3 : Option Table)
        → Ensures IsConnection (s3_settings trim explicit s3)
    unfolding s3_settings
    s3_settings-IsConnection explicit s3 =
        settings-IsConnection _ _ _ _ _ _ _
          (required-IsFilled explicit.endpoint s3 (codes "endpoint") (codes "s3_endpoint"))
          (required-IsFilled explicit.access_key_id s3 (codes "access_key_id")
            (codes "s3_access_key_id"))
          (required-IsFilled explicit.secret_access_key s3 (codes "secret_access_key")
            (codes "s3_secret_access_key"))
          (optional-IsFilled explicit.session_token s3 (codes "session_token")
            (codes "s3_session_token"))
          (optional-IsFilled explicit.region s3 (codes "region") (codes "s3_region"))

    pub resolve_s3_connection-IsConnection :
        (config : Option Table) (explicit : S3ConnectionOverrides)
        → Ensures IsConnection (resolve_s3_connection trim config explicit)
    unfolding resolve_s3_connection
    resolve_s3_connection-IsConnection config explicit =
        sequence_rule IsConnection (s3_table trim config) (s3_settings trim explicit)
          (s3_settings-IsConnection explicit)
