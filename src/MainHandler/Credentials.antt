-- ===== src/MainHandler/Credentials.antt =====
-- mainhandler/imageregistryhandler.go and `getImageScanConfig` of vulnscan.go: the credentials with
-- which the image of a scan is pulled.
pub mod Reference
use package.text.Mathlib.Text.{starts_with}
use mathlib.Core.List.{append-nil, append_assoc}
use kontroller.Base.{
  ℕ, String, ◌≡◌, ◌≢◌, refl, sym, ap, ◌∙◌, Bool, true, false, not, ◌&&◌, Option, none, some, List,
  [], ◌∷◌, ◌++◌, ◌==◌, arith, if◌then◌else◌, Result, ok, err, with_prefix, ◌>>=◌, map, keep,
  Result-cases, Option-cases, Bool-cases, inl, inr,
}
use kontroller.Base.Dict.{Dict, lookup}
use kontroller.Admission.Binding.{strings_contains}
use kontroller.Utils.Types.{Pod}
use kontroller.MainHandler.ScanCommands.{AuthConfig, ImageScanConfig}

-- `registryAuth`, with the fields that are read
pub record RegistryAuth : Type 0 where
  pub skip_tls_verify : Option Bool
  pub insecure : Option Bool
  pub registry : String
  pub username : String
  pub password : String

-- A secret of the namespace: its name, and the fields of its data that are strings.
pub record SecretWorkload : Type 0 where
  pub name : String
  pub fields : Dict String

-- Base64 and JSON, which may fail; `strings.ToLower`, and `strings.Replace` of line breaks by
-- nothing; the secrets that the API gives, by name or as a list; the registry that the libraries
-- for image references find in a tag; and the credentials of the cloud provider.
pub record CredentialsEnv : Type 0 where
  pub decode : String → Result String
  pub unmarshal : String → Result (List RegistryAuth)
  pub to_lower : String → String
  pub without_line_breaks : String → String
  pub get_secret : String → Result (Option SecretWorkload)
  pub list_secrets : Result (List SecretWorkload)
  pub convertible : SecretWorkload → Bool
  pub parse_normalized_named : String → Result String
  pub image_tag_to_registry : String → Result String
  pub get_image_registry_credentials : String → Pod → Result (List AuthConfig)

abbrev pub registries_auth_field_in_secret : String
registries_auth_field_in_secret = "registriesAuth"

abbrev pub registry_scan_configmap : String
registry_scan_configmap = "kubescape-registry-scan"

module _ (env : CredentialsEnv) where
  unfoldable pub contains_ignore_case : (s substr : String) → Bool
  contains_ignore_case s substr = strings_contains (env.to_lower s) (env.to_lower substr)

  unfoldable pub normalize_reference : String → String
  normalize_reference ref = elim (env.parse_normalized_named ref) [ err e ↦ ref | ok n ↦ n ]

  unfoldable pub get_registry_name_from_image_tag : String → String
  get_registry_name_from_image_tag tag =
      elim (env.image_tag_to_registry (normalize_reference tag)) [ err e ↦ "" | ok name ↦ name ]

  unfoldable pub parse_registry_auth_secret : SecretWorkload → Result (List RegistryAuth)
  parse_registry_auth_secret s = do
    encoded ← elim (lookup registries_auth_field_in_secret s.fields) [
      | none ↦ err "error parsing Secret: registriesAuth field must be a string"
      | some text ↦ ok text
    ]
    decoded ← with_prefix "error parsing Secret: " (env.decode encoded)
    with_prefix "error parsing Secret: " (env.unmarshal (env.without_line_breaks decoded))

  -- The callback of the pager, on each secret of the namespace.
  abbrev is_scan_secret : SecretWorkload → Bool
  is_scan_secret s = starts_with s.name registry_scan_configmap && env.convertible s

  abbrev all_scan_secrets : Result (List SecretWorkload)
  all_scan_secrets = env.list_secrets >>= λ ss. ok (keep is_scan_secret ss)

  unfoldable pub get_registry_scan_secrets : String → Result (List SecretWorkload)
  get_registry_scan_secrets name =
      if name == "" then all_scan_secrets else (elim (env.get_secret name) [
        | err e ↦ all_scan_secrets
        | ok found ↦ elim found [ none ↦ all_scan_secrets | some s ↦ ok (s ∷ []) ]
      ])

  abbrev pub auth_config_of : RegistryAuth → AuthConfig
  auth_config_of a = record {
    username = a.username;
    password = a.password;
    server_address = a.registry;
  }

  -- The condition on the registry of the image.
  abbrev pub matches : (registry_name : String) → RegistryAuth → Bool
  matches registry_name a =
      not (registry_name == "") && contains_ignore_case a.registry registry_name

  -- The body of the inner loop.
  unfoldable pub add_auth :
      (registry_name : String) → RegistryAuth → ImageScanConfig → ImageScanConfig
  add_auth registry_name a c = record {
    auth_configs = c.auth_configs ++ auth_config_of a ∷ [];
    skip_tls_verify = if matches registry_name a then a.skip_tls_verify else c.skip_tls_verify;
    insecure = if matches registry_name a then a.insecure else c.insecure;
  }

  unfoldable pub add_auths :
      (registry_name : String) → List RegistryAuth → ImageScanConfig → ImageScanConfig
  add_auths registry_name [] c = c
  add_auths registry_name (a ∷ rest) c = add_auths registry_name rest (add_auth registry_name a c)

  abbrev add_parsed :
      (registry_name : String) → Result (List RegistryAuth) → ImageScanConfig → ImageScanConfig
  add_parsed registry_name (err e) c = c
  add_parsed registry_name (ok auths) c = add_auths registry_name auths c

  -- The loop over the secrets: one that cannot be parsed is passed over.
  unfoldable pub add_secrets :
      (registry_name : String) → List SecretWorkload → ImageScanConfig → ImageScanConfig
  add_secrets registry_name [] c = c
  add_secrets registry_name (s ∷ rest) c =
      add_secrets registry_name rest (add_parsed registry_name (parse_registry_auth_secret s) c)

  abbrev pub no_credentials : ImageScanConfig
  no_credentials = record { auth_configs = []; skip_tls_verify = none; insecure = none }

  abbrev with_provider : Result (List AuthConfig) → ImageScanConfig → Result ImageScanConfig
  with_provider (err e) c = err e
  with_provider (ok more) c = ok (record c { auth_configs = c.auth_configs ++ more })

  abbrev pub listed : Result (List SecretWorkload) → List SecretWorkload
  listed (err e) = []
  listed (ok secrets) = secrets

  unfoldable pub get_image_scan_config : Option Pod → (image_tag : String) → Result ImageScanConfig
  get_image_scan_config pod image_tag =
      let c =
        add_secrets (get_registry_name_from_image_tag image_tag)
          (listed (get_registry_scan_secrets "")) no_credentials in
      elim pod [
        | none ↦ ok c
        | some p ↦ with_provider (env.get_image_registry_credentials image_tag p) c
      ]
