-- ===== src/Watcher/Registry/Objects.antt =====
-- watcher/registryhandler.go: the objects that a registry is kept as.
use kontroller.Base.{
  String, Bool, Option, none, some, List, [], ◌∷◌, ◌==◌, contains, if◌then◌else◌, Result, ok, err,
  ◌>>=◌,
}
use kontroller.Base.Dict.{lookup}
use kontroller.Cluster.{Kind, Volume, JobSpec, CronJob, ConfigMap, Secret, Job, Held}

-- `armotypes.ContainerImageRegistry`, with what `GetBase` holds of a name and a schedule; `info` is
-- the base as a value, and `auth` what `ExtractSecret` gives.
pub record Registry : Type 0 where
  pub resource_name : String
  pub scan_frequency : String
  pub info : String
  pub auth : String

-- The command that `getCommandForConfigMap` wraps.
pub record ScanRegistryCommand : Type 0 where
  pub command_name : String
  pub registry_info : String
  pub secret_name : String

-- The names of the operator command types, of `armotypes` and of `apis`; JSON, YAML and the
-- converter to unstructured objects, which may fail; `registryclients` for a check.
pub record RegistryEnv : Type 0 where
  pub namespace : String
  pub create_registry : String
  pub update_registry : String
  pub delete_registry : String
  pub check_registry : String
  pub request_volume_name : String
  pub auth_field_in_secret : String
  pub command_body : String
  pub scan_registry_v2 : String
  pub secret_type_opaque : String
  pub unmarshal_registry : String → Result Registry
  pub marshal_auth : String → Result String
  pub marshal_commands : List ScanRegistryCommand → Result String
  pub unmarshal_cron_job : String → Result CronJob
  pub unstructured : (k : Kind) → Held k → Option String
  pub list_repositories : Registry → Result (List String)
  pub marshal_repositories : List String → Result String

abbrev pub registry_cronjob_template : String
registry_cronjob_template = "registry-scan-cronjob-template"

abbrev pub cronjob_template_name : String
cronjob_template_name = "cronjobTemplate"

module _ (env : RegistryEnv) where
  unfoldable pub is_registry_command : String → Bool
  is_registry_command t =
      contains
        (env.create_registry ∷ env.update_registry ∷ env.delete_registry ∷ env.check_registry ∷ [])
        t

  -- The loop over the volumes: a volume of the request that has a config map gets the registry's.
  unfoldable pub set_request_volume : String → List Volume → List Volume
  set_request_volume name [] = []
  set_request_volume name (v ∷ rest) =
      (if v.name == env.request_volume_name
        then (elim v.config_map [ none ↦ v | some old ↦ record v { config_map = some name } ])
        else v)
      ∷ set_request_volume name rest

  -- `missing` is the error where the config map has no template.
  unfoldable pub template_of : (missing : String) → Result ConfigMap → Result CronJob
  template_of missing (err e) = err e
  template_of missing (ok t) = elim (lookup cronjob_template_name t.contents) [
    | none ↦ err missing
    | some text ↦ env.unmarshal_cron_job text
  ]

  abbrev pub with_volumes : String → JobSpec → JobSpec
  with_volumes name j = record j { volumes = set_request_volume name j.volumes }

  -- The two generators, given what the API answers for the template's config map.
  unfoldable pub generate_cron_job_object : Registry → Result ConfigMap → Result CronJob
  generate_cron_job_object r template = do
    c ← template_of "getCronJobTemplate: jobTemplate not found" template
    ok (record c {
      name = r.resource_name;
      schedule = r.scan_frequency;
      time_zone = some "Etc/UTC";
      job = with_volumes r.resource_name c.job;
      labels = ("app", r.resource_name) ∷ [];
    })

  unfoldable pub generate_job_object : Registry → Result ConfigMap → Result Job
  generate_job_object r template = do
    c ← template_of "getJobTemplate: jobTemplate not found" template
    ok (record {
      name = r.resource_name;
      namespace = c.namespace;
      labels = ("app", r.resource_name) ∷ [];
      job = with_volumes r.resource_name c.job;
    })

  unfoldable pub generate_secret_object : Registry → Result Secret
  generate_secret_object r = do
    auth ← env.marshal_auth r.auth
    ok (record {
      name = r.resource_name;
      namespace = env.namespace;
      type = env.secret_type_opaque;
      string_data = (env.auth_field_in_secret, auth) ∷ [];
    })

  unfoldable pub get_command_for_config_map : Registry → String → Result String
  get_command_for_config_map r name = env.marshal_commands (
      record { command_name = env.scan_registry_v2; registry_info = r.info; secret_name = name }
      ∷ [])

  unfoldable pub generate_config_map_object : Registry → Result ConfigMap
  generate_config_map_object r = do
    body ← get_command_for_config_map r r.resource_name
    ok (record {
      name = r.resource_name;
      namespace = env.namespace;
      labels = ("app", r.resource_name) ∷ [];
      contents = (env.command_body, body) ∷ [];
    })
