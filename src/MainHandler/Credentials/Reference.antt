-- ===== src/MainHandler/Credentials/Reference.antt =====
-- mainhandler/vulnscan.go: `getImageScanConfig` against a description without loops.

use mathlib.Core.List.{append-nil, append_assoc}
use kontroller.Base.{
  String, ◌≡◌, refl, sym, ap, ◌∙◌, Bool, Option, none, some, List, [], ◌∷◌, ◌++◌, if◌then◌else◌,
  Result, ok, err, map, Result-cases, Option-cases, Bool-cases, inl, inr,
}
use kontroller.Utils.Types.{Pod}
use kontroller.MainHandler.ScanCommands.{AuthConfig, ImageScanConfig}
use kontroller.MainHandler.Credentials.{
  RegistryAuth, SecretWorkload, CredentialsEnv, parse_registry_auth_secret, auth_config_of, matches,
  add_auth, add_auths, add_secrets, no_credentials, listed, get_registry_scan_secrets,
  get_registry_name_from_image_tag, get_image_scan_config,
}

module _ (env : CredentialsEnv) where
  -- The reference: all entries of the secrets that can be parsed, in order.
  abbrev entries_of : Result (List RegistryAuth) → List RegistryAuth
  entries_of (err e) = []
  entries_of (ok auths) = auths

  abbrev pub entries : List SecretWorkload → List RegistryAuth
  entries [] = []
  entries (s ∷ rest) = entries_of (parse_registry_auth_secret env s) ++ entries rest

  -- The last entry that matches env, or `none`.
  abbrev pub last_match : String → List RegistryAuth → Option RegistryAuth
  last_match registry_name [] = none
  last_match registry_name (a ∷ rest) = elim (last_match registry_name rest) [
    | some b ↦ some b
    | none ↦ if matches env registry_name a then some a else none
  ]

  abbrev pub picked : (RegistryAuth → Option Bool) → Option RegistryAuth → Option Bool → Option Bool
  picked flag none before = before
  picked flag (some a) before = flag a

  add_auths-append :
      (r : String) (xs ys : List RegistryAuth) (c : ImageScanConfig)
      → add_auths env r (xs ++ ys) c ≡ add_auths env r ys (add_auths env r xs c)
  unfolding add_auths
  add_auths-append r [] ys c = refl
  add_auths-append r (x ∷ xs) ys c = add_auths-append r xs ys (add_auth env r x c)

  -- The two loops are one over all entries.
  add_secrets-entries :
      (r : String) (ss : List SecretWorkload) (c : ImageScanConfig)
      → add_secrets env r ss c ≡ add_auths env r (entries ss) c
  unfolding add_secrets add_auths
  add_secrets-entries r [] c = refl
  add_secrets-entries r (s ∷ rest) c = elim (Result-cases (parse_registry_auth_secret env s)) [
    | inr (e, p) ↦ rw (add_secrets, p) (add_secrets-entries r rest c)
    | inl (auths, p) ↦
        rw (add_secrets, p)
          (add_secrets-entries r rest (add_auths env r auths c)
            ∙ sym (add_auths-append r auths (entries rest) c))
  ]

  add_auths_configs :
      (r : String) (xs : List RegistryAuth) (c : ImageScanConfig)
      → (add_auths env r xs c).auth_configs ≡ c.auth_configs ++ map (auth_config_of env) xs
  unfolding add_auths add_auth
  add_auths_configs r [] c = sym (append-nil c.auth_configs)
  add_auths_configs r (x ∷ xs) c =
      add_auths_configs r xs (add_auth env r x c)
      ∙ append_assoc c.auth_configs (auth_config_of env x ∷ []) (map (auth_config_of env) xs)

  picked-cons :
      (flag : RegistryAuth → Option Bool) (r : String) (x : RegistryAuth) (xs : List RegistryAuth)
      (before : Option Bool)
      → picked flag (last_match r xs) (if matches env r x then flag x else before)
        ≡ picked flag (last_match r (x ∷ xs)) before
  picked-cons flag r x xs before = elim (Option-cases (last_match r xs)) [
    | inr (b, p) ↦ rw p refl
    | inl p ↦ elim (Bool-cases (matches env r x)) [
      | inl y ↦ rw (p, y) refl
      | inr n ↦ rw (p, n) refl
    ]
  ]

  add_auths_flags :
      (r : String) (xs : List RegistryAuth) (c : ImageScanConfig)
      → ((add_auths env r xs c).skip_tls_verify
          ≡ picked (λ a. a.skip_tls_verify) (last_match r xs) c.skip_tls_verify)
        × ((add_auths env r xs c).insecure ≡ picked (λ a. a.insecure) (last_match r xs) c.insecure)
  unfolding add_auths add_auth
  add_auths_flags r [] c = (refl, refl)
  add_auths_flags r (x ∷ xs) c =
      let (s, i) = add_auths_flags r xs (add_auth env r x c) in
      (
        s ∙ picked-cons (λ a. a.skip_tls_verify) r x xs c.skip_tls_verify,
        i ∙ picked-cons (λ a. a.insecure) r x xs c.insecure,
      )

  -- The configuration by the reference.
  abbrev pub configured : String → List RegistryAuth → List AuthConfig → ImageScanConfig
  configured r all more = record {
    auth_configs = map (auth_config_of env) all ++ more;
    skip_tls_verify = picked (λ a. a.skip_tls_verify) (last_match r all) none;
    insecure = picked (λ a. a.insecure) (last_match r all) none;
  }

  loops_lem :
      (r : String) (ss : List SecretWorkload) (more : List AuthConfig)
      → let c = add_secrets env r ss (no_credentials env) in
        record c { auth_configs = c.auth_configs ++ more } ≡ configured r (entries ss) more
  loops_lem r ss more =
      let e = add_secrets-entries r ss (no_credentials env) in
      let a = add_auths_configs r (entries ss) (no_credentials env) in
      let (s, i) = add_auths_flags r (entries ss) (no_credentials env) in rw e (cc (a, s, i))

  no_more : (c : ImageScanConfig) → c ≡ record c { auth_configs = c.auth_configs ++ [] }
  no_more c i = record c { auth_configs = sym (append-nil c.auth_configs) i }

  abbrev with_provided :
      String → List RegistryAuth → Result (List AuthConfig) → Result ImageScanConfig
  with_provided r all (err e) = err e
  with_provided r all (ok more) = ok (configured r all more)

  -- All entries of the secrets of the namespace.
  abbrev listed_entries : List RegistryAuth
  listed_entries = entries (listed env (get_registry_scan_secrets env ""))

  -- The configuration of an image, without loops.
  abbrev pub reference_config : Option Pod → (tag : String) → Result ImageScanConfig
  reference_config none tag =
      ok (configured (get_registry_name_from_image_tag env tag) listed_entries [])
  reference_config (some p) tag =
      with_provided (get_registry_name_from_image_tag env tag) listed_entries
        (env.get_image_registry_credentials tag p)

  -- The loops over the secrets and their entries compute what the reference says: the configuration
  -- has the credentials of all entries of the secrets that can be parsed, in order, and then those of
  -- the provider if there is a pod; its two flags are those of the last entry whose registry contains
  -- the registry of the image, or missing if no entry does. It fails exactly where there is a pod
  -- and the provider fails, whatever the secrets.
  pub get_image_scan_config_lem :
      (pod : Option Pod) (tag : String)
      → get_image_scan_config env pod tag ≡ reference_config pod tag
  unfolding get_image_scan_config
  get_image_scan_config_lem none tag =
      let r = get_registry_name_from_image_tag env tag in
      let ss = listed env (get_registry_scan_secrets env "") in
      ap ok (no_more (add_secrets env r ss (no_credentials env)) ∙ loops_lem r ss [])
  get_image_scan_config_lem (some p) tag =
      let r = get_registry_name_from_image_tag env tag in
      let ss = listed env (get_registry_scan_secrets env "") in
      elim (Result-cases (env.get_image_registry_credentials tag p)) [
        | inr (e, h) ↦ rw (get_image_scan_config, h) refl
        | inl (more, h) ↦ rw (get_image_scan_config, h) (ap ok (loops_lem r ss more))
      ]
