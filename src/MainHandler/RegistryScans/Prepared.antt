-- ===== src/MainHandler/RegistryScans/Prepared.antt =====
-- mainhandler/vulnscan.go: the commands that are made for the images of a registry.
use Prim.Native.String.{◌++◌ as ◌<>◌}
use kontroller.Base.{
  ℕ, suc, String, ◌≡◌, refl, false, none, some, List, [], ◌∷◌, Result, ok, err, Result-cases, All,
  Memᴰ, Option-cases, ok_injective, length, inl, inr,
}
use kontroller.Utils.Types.{SessionObj}
use kontroller.MainHandler.ScanCommands.{AuthConfig}
use kontroller.MainHandler.RegistryScans.{
  ImageRegistry, named, flag, RegistryScanCommand, RegistryScanEnv, commands_from, send_errors,
  get_registry_image_scan_commands, prepend_command, registry_scan_command, repository_of,
}

module _ (env : RegistryScanEnv) (s : SessionObj) (r : ImageRegistry) where
  -- The command of one of `count` images: it pulls the image by its tag with the registry's
  -- credentials, and says which registry and which scan it belongs to.
  pub record IsCommandFor (count i : ℕ) (image tag : String) (c : RegistryScanCommand)
      : Type 0 where
    pub image_tag : c.image_tag ≡ image <> (":" <> tag)
    pub job_id : c.job_id ≡ env.uuid i
    pub parent_job_id : c.parent_job_id ≡ s.job_id
    pub auth : AuthConfig
    pub docker_auth : env.get_docker_auth r ≡ ok auth
    pub credentials : c.credentials_list ≡ auth ∷ []
    pub no_jobs : c.session.job_ids ≡ []
    pub action : c.session.action_title ≡ "vulnerability-scan"
    pub timestamp : c.session.timestamp ≡ s.timestamp
    pub args :
        c.args
        ≡ (env.attribute_registry_name, named r.display_name)
          ∷ (env.attribute_repository, named (repository_of image))
          ∷ (env.attribute_tag, named tag)
          ∷ (env.attribute_use_http, flag false)
          ∷ (env.attribute_skip_tls_verify, flag false)
          ∷ (env.attribute_sensor, named r.cluster_name)
          ∷ (env.attribute_registry_id, named r.guid)
          ∷ (env.attribute_registry_scan_id, named env.scan_id)
          ∷ (env.attribute_registry_scan_images_count, named (env.decimal count))
          ∷ []

  -- One command for each image, in their order.
  abbrev pub AreCommands :
      (count i : ℕ) → List (String × String) → List RegistryScanCommand → Type 0
  AreCommands count i [] [] = Unit
  AreCommands count i [] (c ∷ cs) = ⊥
  AreCommands count i (x ∷ images) [] = ⊥
  AreCommands count i ((image, tag) ∷ images) (c ∷ cs) =
      IsCommandFor count i image tag c × AreCommands count (suc i) images cs

  prepended :
      (c : RegistryScanCommand) (x : Result (List RegistryScanCommand))
      (cs : List RegistryScanCommand)
      → prepend_command env s c x ≡ ok cs
      → (rest : List RegistryScanCommand) × (x ≡ ok rest) × (c ∷ rest ≡ cs)
  prepended c (ok rest) cs h = (rest, refl, ok_injective h)
  prepended c (err e) cs h = absurd cc

  commands_from-AreCommands :
      (count i : ℕ) (images : List (String × String)) (cs : List RegistryScanCommand)
      → commands_from env s r count i images ≡ ok cs
      → AreCommands count i images cs
  unfolding commands_from registry_scan_command
  commands_from-AreCommands count i [] cs h = rw (← ok_injective h) tt
  commands_from-AreCommands count i ((image, tag) ∷ rest) cs h =
      elim (Result-cases (env.get_docker_auth r)) [
        | inr (e, p) ↦ absurd (cc (rw (commands_from, p) at h))
        | inl (auth, p) ↦
            let (others, q, w) = prepended _ _ cs (rw (commands_from, p) at h) in
            rw (← w) (
              record {
                image_tag = refl;
                job_id = refl;
                parent_job_id = refl;
                auth = auth;
                docker_auth = p;
                credentials = refl;
                no_jobs = refl;
                action = refl;
                timestamp = refl;
                args = refl;
              },
              commands_from-AreCommands count (suc i) rest others q,
            )
      ]

  pub get_registry_image_scan_commands-AreCommands :
      (images : List (String × String)) (cs : List RegistryScanCommand)
      → get_registry_image_scan_commands env s r images ≡ ok cs
      → AreCommands (length images) 0 images cs
  unfolding get_registry_image_scan_commands
  get_registry_image_scan_commands-AreCommands images cs h =
      commands_from-AreCommands (length images) 0 images cs h

module _ (env : RegistryScanEnv) (s : SessionObj) where
  pub send_errors-nil :
      (cs : List RegistryScanCommand) → send_errors env s cs ≡ [] → All (λ c. env.send c ≡ none) cs
  unfolding send_errors
  send_errors-nil [] h = tt
  send_errors-nil (c ∷ rest) h = elim (Option-cases (env.send c)) [
    | inl n ↦ (n, send_errors-nil rest (rw (send_errors, n) at h))
    | inr (e, f) ↦ absurd (cc (rw (send_errors, f) at h))
  ]

  pub send_errors-cons :
      (cs : List RegistryScanCommand) (x : String) (xs : List String)
      → send_errors env s cs ≡ x ∷ xs
      → (c : RegistryScanCommand) × Memᴰ c cs × (env.send c ≡ some x)
  unfolding send_errors
  send_errors-cons [] x xs h = absurd cc
  send_errors-cons (c ∷ rest) x xs h = elim (Option-cases (env.send c)) [
    | inl n ↦
        let (d, m, f) = send_errors-cons rest x xs (rw (send_errors, n) at h) in (d, Memᴰ.tail m, f)
    | inr (e, f) ↦ (c, Memᴰ.head refl, cc (f, rw (send_errors, f) at h))
  ]
