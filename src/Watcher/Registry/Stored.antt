-- ===== src/Watcher/Registry/Stored.antt =====
-- watcher/registryhandler.go: when a registry is stored, and what the generators make.
use kontroller.Base.{
  String, ◌≡◌, ◌≢◌, refl, Bool, true, none, some, List, [], ◌∷◌, arith, ◌==◌, if◌then◌else◌, Result,
  ok, Option-cases, Bool-cases, inl, inr, ◌⊎◌, eq_iff, eq_refl, All, ok_injective, >>=-eq-ok,
}
use kontroller.Base.Dict.{lookup}
use kontroller.Cluster.{Api, Kind, Volume, CronJob, ConfigMap, Secret, Job}
use kontroller.Watcher.Registry.Objects.{
  Registry, RegistryEnv, generate_cron_job_object, generate_job_object, generate_secret_object,
  generate_config_map_object, set_request_volume, template_of, get_command_for_config_map,
}

module _ (env : RegistryEnv) (r : Registry) where
  -- A volume of the request that has a config map has the registry's.
  abbrev pub IsMounted : Volume → Type 0
  IsMounted v =
      v.name ≡ env.request_volume_name
      → (v.config_map ≡ none) ⊎ (v.config_map ≡ some r.resource_name)

  pub record IsSecretOf (a : Secret) : Type 0 where
    pub name : a.name ≡ r.resource_name
    pub namespace : a.namespace ≡ env.namespace
    pub auth :
        (text : String) × (env.marshal_auth r.auth ≡ ok text)
        × (lookup env.auth_field_in_secret a.string_data ≡ some text)

  -- The config map holds the command that scans the registry with its secret.
  pub record IsRequestOf (a : ConfigMap) : Type 0 where
    pub name : a.name ≡ r.resource_name
    pub namespace : a.namespace ≡ env.namespace
    pub request :
        (text : String) × (env.marshal_commands (
            record {
              command_name = env.scan_registry_v2;
              registry_info = r.info;
              secret_name = r.resource_name;
            }
            ∷ [])
          ≡ ok text)
        × (lookup env.command_body a.contents ≡ some text)

  pub record IsJobOf (a : Job) : Type 0 where
    pub name : a.name ≡ r.resource_name
    pub mounted : All IsMounted a.job.volumes

  pub record IsScheduleOf (a : CronJob) : Type 0 where
    pub name : a.name ≡ r.resource_name
    pub schedule : a.schedule ≡ r.scan_frequency
    pub time_zone : a.time_zone ≡ some "Etc/UTC"
    pub mounted : All IsMounted a.job.volumes

  request_volume-IsMounted :
      (v : Volume)
      → IsMounted (
          if v.name == env.request_volume_name
          then (elim v.config_map [
            | none ↦ v
            | some old ↦ record v { config_map = some r.resource_name }
          ])
          else v)
  request_volume-IsMounted v = elim (Bool-cases (v.name == env.request_volume_name)) [
    | inr n ↦ rw n (λ e. absurd (cc ((eq_iff v.name env.request_volume_name).1 e, n)))
    | inl y ↦ elim (Option-cases v.config_map) [
      | inl e ↦ rw (y, e) (λ _. inl e)
      | inr (old, e) ↦ rw (y, e) (λ _. inr refl)
    ]
  ]

  set_request_volume-AreMounted :
      (vs : List Volume) → All IsMounted (set_request_volume env r.resource_name vs)
  unfolding set_request_volume
  set_request_volume-AreMounted [] = tt
  set_request_volume-AreMounted (v ∷ rest) =
      (request_volume-IsMounted v, set_request_volume-AreMounted rest)

  pub secret-IsSecretOf : (a : Secret) → generate_secret_object env r ≡ ok a → IsSecretOf a
  unfolding generate_secret_object lookup
  secret-IsSecretOf a h =
      let (text, p, q) = >>=-eq-ok (env.marshal_auth r.auth) _ h in
      rw (← ok_injective q) (record {
        name = refl;
        namespace = refl;
        auth = (text, p, ground (arith, eq_refl env.auth_field_in_secret));
      })

  pub config_map-IsRequestOf :
      (a : ConfigMap) → generate_config_map_object env r ≡ ok a → IsRequestOf a
  unfolding generate_config_map_object get_command_for_config_map lookup
  config_map-IsRequestOf a h =
      let (text, p, q) = >>=-eq-ok (get_command_for_config_map env r r.resource_name) _ h in
      rw (← ok_injective q) (record {
        name = refl;
        namespace = refl;
        request = (text, p, ground (arith, eq_refl env.command_body));
      })

  pub job-IsJobOf :
      (t : Result ConfigMap) (a : Job) → generate_job_object env r t ≡ ok a → IsJobOf a
  unfolding generate_job_object
  job-IsJobOf t a h =
      let (c, p, q) = >>=-eq-ok (template_of env "getJobTemplate: jobTemplate not found" t) _ h in
      rw (← ok_injective q)
        (record { name = refl; mounted = set_request_volume-AreMounted c.job.volumes })

  pub cron_job-IsScheduleOf :
      (t : Result ConfigMap) (a : CronJob)
      → generate_cron_job_object env r t ≡ ok a
      → IsScheduleOf a
  unfolding generate_cron_job_object
  cron_job-IsScheduleOf t a h =
      let (c, p, q) =
        >>=-eq-ok (template_of env "getCronJobTemplate: jobTemplate not found" t) _ h in
      rw (← ok_injective q) (record {
        name = refl;
        schedule = refl;
        time_zone = refl;
        mounted = set_request_volume-AreMounted c.job.volumes;
      })

module _ {S : Type 0} (api : Api S) (env : RegistryEnv) (r : Registry) where
  abbrev pub HasSecret : S → Type 0
  HasSecret s =
      (a : Secret) × (api.held Kind.secrets r.resource_name s ≡ some a) × IsSecretOf env r a

  abbrev pub HasRequest : S → Type 0
  HasRequest s =
      (a : ConfigMap) × (api.held Kind.config_maps r.resource_name s ≡ some a) × IsRequestOf env r a

  abbrev pub HasJob : S → Type 0
  HasJob s = (a : Job) × (api.held Kind.jobs r.resource_name s ≡ some a) × IsJobOf env r a

  abbrev pub HasSchedule : S → Type 0
  HasSchedule s =
      (a : CronJob) × (api.held Kind.cron_jobs r.resource_name s ≡ some a) × IsScheduleOf env r a

  abbrev pub HasJobs : Bool → S → Type 0
  HasJobs trigger_now s = (trigger_now ≡ true → HasJob s) × (r.scan_frequency ≢ "" → HasSchedule s)
