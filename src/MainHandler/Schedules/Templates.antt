-- ===== src/MainHandler/Schedules/Templates.antt =====
-- mainhandler/cronjobhandler.go, kubescapehandlerhelper.go and vulnscanhandlerhelper.go: the cron
-- jobs of scheduled scans, and the config maps with the requests that they send.
use kontroller.Base.{
  ℕ, String, Bool, Option, none, some, List, [], ◌∷◌, ◌++◌, ◌==◌, if◌then◌else◌, Result, err,
}
use kontroller.Base.Dict.{Dict, lookup, insert}
use kontroller.Config.{OperatorConfig}
use kontroller.Utils.Types.{Command, Arg, ScanRequest, CommandNames, kubescape_scan_v1}
use kontroller.Cluster.{Api, Kind, Verb, Volume, CronJob, ConfigMap}
use kontroller.Cluster.Steps.{Prog, Ended, returned, failed, panicked, ◌>>=◌, given, read, call}

-- `armoapi.CronJobParams`
pub record CronJobParams : Type 0 where
  pub job_name : String
  pub cron_tab_schedule : String

-- JSON and YAML, which may fail; the methods and names of `armoapi` and `armotypes`; the key of a
-- target's annotation, `strings.ToLower` of "armo." and the type; and the text of a name's bytes.
pub record ScheduleEnv : Type 0 where
  pub config : OperatorConfig
  pub apis : CommandNames
  pub cron_job_params : Command → Option CronJobParams
  pub as_params : Arg → Option CronJobParams
  pub kind_framework : String
  pub convert : Arg → Result ScanRequest
  pub marshal_scan : (command_name arg_name : String) → ScanRequest → Result String
  pub marshal_commands : List Command → Result String
  pub unmarshal_cron_job : String → Result CronJob
  pub armo_key : String → String
  pub bool_text : Bool → String
  pub wlid_namespace : String → String
  pub designator_namespace : Dict String → String
  pub text_of_name : List ℕ → String
  pub armo_job_id_deprecated : String
  pub armo_cloud_job_id_deprecated : String
  pub job_id_key : String
  pub host_scanner_key : String
  pub namespace_deprecated : String
  pub namespace_key : String
  pub update_job_id_deprecated : String
  pub update_job_id : String

abbrev pub request_body_file : String
request_body_file = "request-body.json"

abbrev pub request_volume_name : String
request_volume_name = "request-body-volume"

abbrev pub cronjob_template_name : String
cronjob_template_name = "cronjobTemplate"

-- A volume of the request that has no config map is a nil pointer.
unfoldable pub update_volume : String → Volume → Ended Volume
update_volume name v =
    if v.name == request_volume_name
    then (elim v.config_map [
      | none ↦ panicked
      | some old ↦ returned (record v { config_map = some name })
    ])
    else returned v

abbrev pub then_volumes : Ended Volume → Ended (List Volume) → Ended (List Volume)
then_volumes (returned v) (returned others) = returned (v ∷ others)
then_volumes (returned v) (failed e) = failed e
then_volumes (returned v) panicked = panicked
then_volumes (failed e) others = failed e
then_volumes panicked others = panicked

-- The loop over the volumes.
unfoldable pub update_volumes : String → List Volume → Ended (List Volume)
update_volumes name [] = returned []
update_volumes name (v ∷ rest) = then_volumes (update_volume name v) (update_volumes name rest)

abbrev pub annotate : List (String × String) → CronJob → CronJob
annotate [] c = c
annotate ((key, value) ∷ rest) c =
    annotate rest
      (record c { job = record c.job { annotations = insert key value c.job.annotations } })

abbrev pub filled :
    (name schedule : String)
    → (annotations : List (String × String)) → CronJob
    → Ended (List Volume)
    → Ended CronJob
filled name schedule annotations c panicked = panicked
filled name schedule annotations c (failed e) = failed e
filled name schedule annotations c (returned volumes) = returned (
    annotate annotations (record c {
      name = name;
      schedule = if schedule == "" then c.schedule else schedule;
      job = record c.job { volumes = volumes };
      labels = insert "app" name c.labels;
    }))

-- The part that `setCronJobTemplate` and `setCronJobForTriggerRequest` share.
unfoldable pub named_cron_job :
    (name schedule : String) → (annotations : List (String × String)) → CronJob → Ended CronJob
named_cron_job name schedule annotations c =
    filled name schedule annotations c (update_volumes name c.job.volumes)

module _ (env : ScheduleEnv) where
  unfoldable pub set_cron_job_template :
      (name schedule job_id target_name target_type : String)
      → (host_scanner : Option Bool) → CronJob
      → Ended CronJob
  set_cron_job_template name schedule job_id target_name target_type host_scanner =
      let target = if target_type == "" then [] else (env.armo_key target_type, target_name) ∷ [] in
      let host = elim host_scanner as (λ h. List (String × String)) [
        | none ↦ []
        | some h ↦ (env.host_scanner_key, env.bool_text h) ∷ []
      ] in
      named_cron_job name schedule ((env.armo_job_id_deprecated, job_id) ∷ target ++ host)

  unfoldable pub set_cron_job_for_trigger_request :
      (name schedule job_id : String) → CronJob → Ended CronJob
  set_cron_job_for_trigger_request name schedule job_id =
      named_cron_job name schedule
        ((env.armo_cloud_job_id_deprecated, job_id) ∷ (env.job_id_key, job_id) ∷ [])

  abbrev pub config_map_of : (name body : String) → ConfigMap
  config_map_of name body = record {
    name = name;
    namespace = "";
    labels = ("app", name) ∷ [];
    contents = (request_body_file, body) ∷ [];
  }

  unfoldable pub get_kubescape_job_params : Command → Option CronJobParams
  get_kubescape_job_params c = elim (env.cron_job_params c) [
    | some p ↦ some p
    | none ↦ elim (lookup "kubescapeJobParams" c.args) [ none ↦ none | some a ↦ env.as_params a ]
  ]

  unfoldable pub get_vuln_scan_request : Command → List Command
  get_vuln_scan_request c = record c { command_name = env.apis.scan_images; args = [] } ∷ []

  unfoldable pub get_namespace_from_vuln_scan_command : Command → String
  get_namespace_from_vuln_scan_command c =
      if c.wild_wlid == ""
      then (elim c.designators [ [] ↦ "" | d ∷ rest ↦ env.designator_namespace d ])
      else env.wlid_namespace c.wild_wlid

  module _ {S : Type 0} (api : Api S) where
    unfoldable pub get_cron_job_template : (name : String) → Prog S CronJob
    get_cron_job_template name = do
      t ← read (api.get Kind.config_maps name)
      given (elim (lookup cronjob_template_name t.contents) [
        | none ↦ err "getCronJobTemplate: jobTemplate not found"
        | some text ↦ env.unmarshal_cron_job text
      ])

    unfoldable pub create_request : (name : String) → Result String → Prog S (Unit {0})
    create_request name body = do
      text ← given body
      call (api.write Verb.create Kind.config_maps name (config_map_of name text))

    abbrev pub create_trigger_request_config_map : (name : String) → ScanRequest → Prog S (Unit {0})
    create_trigger_request_config_map name req =
        create_request name (env.marshal_scan env.apis.run_kubescape kubescape_scan_v1 req)

    abbrev pub create_config_map_for_trigger_request :
        (name : String) → List Command → Prog S (Unit {0})
    create_config_map_for_trigger_request name commands =
        create_request name (env.marshal_commands commands)
