-- ===== src/Tests/Schedules.antt =====
-- Scheduled scans in an empty cluster, and a scan that is started and followed.
use kontroller.Base.{
  ◌+◌, ◌*◌, String, ◌≡◌, ◌≢◌, ◌↔◌, refl, true, Option, none, some, List, [], ◌∷◌, Result, ok, err,
  inl, Memᴰ,
}
use kontroller.Base.Dict.{lookup, insert}
use kontroller.Cluster.{ConfigMap, Volume}
use kontroller.Cluster.Steps.{returned, failed, panicked, ◌>>=◌, call, given, read}
use kontroller.Cluster.Effects.{IsInOrder}
use kontroller.Utils.Types.{SessionObj, new_command, scan_v1}
use kontroller.Utils.Status.{
  StatusPatch, set_operator_command_status, with_error, with_payload, with_success,
}
use kontroller.MainHandler.ScanRequests.{get_kubescape_v1_scan_request, name_all, set_defaults}
use kontroller.MainHandler.Requests.{handle_request, route, action_of}
use kontroller.MainHandler.Schedules.{
  set_vuln_scan, delete_vuln_scan, run_schedule_commands, set_vuln_scan_cron_job, scheduled_params,
}
use kontroller.MainHandler.Schedules.Templates.{
  ScheduleEnv, CronJobParams, named_cron_job, get_cron_job_template, create_request, update_volumes,
  update_volume, set_cron_job_for_trigger_request,
}
use kontroller.MainHandler.Schedules.InOrder.{run_schedule_commands-IsInOrder}
use kontroller.MainHandler.Schedules.Created.{
  IsScheduled, set_vuln_scan_cron_job-IsScheduled, request_left_behind,
}
use kontroller.MainHandler.Schedules.Volumes.{named_cron_job_panics, IsBroken}
use kontroller.MainHandler.Responses.{
  HttpResponse, ScanResponse, ScannerEnv, ResponseData, trigger, kubescape_scan,
  read_kubescape_v1_scan_response, handle_command_response, waiting, reported_at, wait_time,
}
use kontroller.MainHandler.Responses.Followed.{
  IsBusy, IsReport, handle_command_response_lem, refusal_reported_as_success,
}
use kontroller.Tests.Cluster.{Store, obedient}
use kontroller.Tests.Registries.{parsed}
use kontroller.Tests.Fixtures.{
  sample_config, sample_apis, sample_command, sample_json, sample_session,
}

abbrev kubevuln_template : ConfigMap
kubevuln_template = record {
  name = "kubevuln-cronjob-template";
  namespace = "kubescape";
  labels = [];
  contents = ("cronjobTemplate", "yaml") ∷ [];
}

abbrev store : Store
store = record {
  cron_jobs = [];
  config_maps = ("kubevuln-cronjob-template", kubevuln_template) ∷ [];
  secrets = [];
  jobs = [];
}

abbrev env_with : Option CronJobParams → ScheduleEnv
env_with params = record {
  config = sample_config;
  apis = sample_apis;
  cron_job_params = λ c. params;
  as_params = λ a. none;
  kind_framework = "framework";
  convert = λ a. err "no request";
  marshal_scan = λ name arg r. ok "scan";
  marshal_commands = λ cs. ok "commands";
  unmarshal_cron_job = λ text. ok parsed;
  armo_key = λ t. t;
  bool_text = λ b. "true";
  wlid_namespace = λ w. "shop";
  designator_namespace = λ d. "shop";
  text_of_name = λ name. "kubevuln-schedule-1";
  armo_job_id_deprecated = "armo.jobid";
  armo_cloud_job_id_deprecated = "armo.cloud/jobid";
  job_id_key = "armo.io/jobid";
  host_scanner_key = "armo.host-scanner";
  namespace_deprecated = "armo.cloud/namespace";
  namespace_key = "armo.namespace";
  update_job_id_deprecated = "armo.cloud/updatejobid";
  update_job_id = "armo.updatejobid";
}

abbrev env : ScheduleEnv
env = env_with (some (record { job_name = "kubevuln-schedule-1"; cron_tab_schedule = "0 0 * * *" }))

in_order : IsInOrder obedient store
unfolding lookup
in_order = record { backed = λ n h. absurd cc; named = λ n j h. absurd cc }

run_schedule_commands-IsInOrder_example : IsInOrder obedient (
    run_schedule_commands obedient env
      (set_vuln_scan (49 ∷ []) sample_command ∷ delete_vuln_scan sample_command ∷ [])
      store)
run_schedule_commands-IsInOrder_example =
    run_schedule_commands-IsInOrder obedient env
      (set_vuln_scan (49 ∷ []) sample_command ∷ delete_vuln_scan sample_command ∷ []) store in_order

scheduled : (set_vuln_scan_cron_job obedient env (49 ∷ []) sample_command store).0 ≡ returned tt
unfolding set_vuln_scan_cron_job ◌>>=◌ given read call create_request get_cron_job_template
    scheduled_params set_cron_job_for_trigger_request named_cron_job update_volumes update_volume
    lookup insert
scheduled = refl

set_vuln_scan_cron_job-IsScheduled_example :
    IsScheduled obedient env
      (49 ∷ [])
      sample_command
      (set_vuln_scan_cron_job obedient env (49 ∷ []) sample_command store).1
set_vuln_scan_cron_job-IsScheduled_example =
    set_vuln_scan_cron_job-IsScheduled obedient env (49 ∷ []) sample_command store scheduled

request_left_behind_example :
    let (end, u) = set_vuln_scan_cron_job obedient (env_with none) (49 ∷ []) sample_command store in
    (end ≢ returned tt)
    × (lookup "kubevuln-schedule-1" u.config_maps
        ≡ some (record {
          name = "kubevuln-schedule-1";
          namespace = "";
          labels = ("app", "kubevuln-schedule-1") ∷ [];
          contents = ("request-body.json", "commands") ∷ [];
        }))
    × (lookup "kubevuln-schedule-1" u.cron_jobs ≡ lookup "kubevuln-schedule-1" store.cron_jobs)
request_left_behind_example =
    request_left_behind obedient (env_with none) (49 ∷ []) sample_command store "commands" refl refl
      refl (inl refl)

named_cron_job_panics_example :
    ((named_cron_job "scan" "" [] parsed ≡ panicked)
      ↔ ((v : Volume) × Memᴰ v parsed.job.volumes × IsBroken v))
    × ((e : String) → named_cron_job "scan" "" [] parsed ≢ failed e)
named_cron_job_panics_example = named_cron_job_panics "scan" "" [] parsed

abbrev refusing : ScanResponse
refusing = record { id = "id"; type = "error"; response = "no" }

abbrev scanner : ScannerEnv
scanner = record {
  config = sample_config;
  kind_framework = "framework";
  convert = λ a.
      ok (record { target_type = ""; target_names = []; is_deleted = none; host_scanner = none });
  marshal = λ r. ok "{}";
  unmarshal = λ body. ok (record { id = "id"; type = body; response = "no" });
  post = λ url body. ok (some (record { is_ok = true; body = ok "error" }));
  json = sample_json;
  error_type = "error";
  busy_type = "busy";
  bad_status = "received status code";
}

abbrev reply_of : String → Result (Option HttpResponse)
reply_of type = ok (some (record { is_ok = true; body = ok type }))

abbrev followed : ResponseData
followed = record { scan_id = "id"; session_obj = sample_session }

busy : IsBusy scanner (reply_of "busy")
unfolding read_kubescape_v1_scan_response
busy = (_, _, refl, refl, refl)

handle_command_response_lem_example :
    (handle_command_response scanner wait_time followed (reply_of "busy" ∷ [])
      ≡ waiting (wait_time + wait_time * 1))
    × ((last : Result (Option HttpResponse)) (rest : List (Result (Option HttpResponse)))
        → (¬ IsBusy scanner last)
        → (p : Option StatusPatch) × (handle_command_response scanner wait_time followed
              (reply_of "busy" ∷ last ∷ rest)
            ≡ reported_at (wait_time + wait_time * 1) p)
          × IsReport scanner (wait_time + wait_time * 1) followed last p)
handle_command_response_lem_example =
    handle_command_response_lem scanner (reply_of "busy" ∷ []) wait_time followed (busy, tt)

abbrev scan_session : SessionObj
scan_session = record sample_session {
  command = new_command "kubescapeScan" "" (
      (
        "scanV1",
        scan_v1 (record {
          target_type = "";
          target_names = [];
          is_deleted = none;
          host_scanner = none;
        }),
      )
      ∷ []);
}

refused : trigger scanner scan_session.command.args ≡ ok refusing
unfolding trigger get_kubescape_v1_scan_request lookup name_all set_defaults
    read_kubescape_v1_scan_response
refused = refl

refusal_reported_as_success_example :
    ((kubescape_scan scanner 1 scan_session).reported
      ≡ set_operator_command_status sample_json scan_session 1
          (with_error "no" ∷ with_payload "id" ∷ [])
        ∷ [])
    × (handle_request sample_apis sample_json 2
          (λ a s. (kubescape_scan scanner 1 s).result)
          (λ s. none)
          (λ s. none)
          scan_session
        ≡ set_operator_command_status sample_json scan_session 2 (with_success ∷ []))
unfolding route action_of
refusal_reported_as_success_example =
    refusal_reported_as_success scanner sample_apis 1 2 (λ s. none) (λ s. none)
      (λ a s. (kubescape_scan scanner 1 s).result) scan_session refusing refl refused refl refl refl
      refl
