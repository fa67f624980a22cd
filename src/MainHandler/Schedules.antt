-- ===== src/MainHandler/Schedules.antt =====
-- mainhandler/kubescapehandler.go and vulnscanhandler.go: the commands that set, update and delete
-- the cron jobs of scheduled scans.
pub mod Templates
pub mod Volumes
pub mod InOrder
pub mod Created
use kontroller.Base.{
  ℕ, ◌+◌, String, Bool, true, false, not, ◌||◌, Option, none, some, List, [], ◌∷◌, ◌==◌,
  if◌then◌else◌, Result, ok, err,
}
use kontroller.Config.{OperatorConfig}
use kontroller.Utils.Types.{Command, ScanRequest}
use kontroller.MainHandler.Names.{fix_k8s_cron_job_name_limit}
use kontroller.MainHandler.ScanRequests.{
  get_kubescape_v1_scan_request, validate_kubescape_scan_request, set_defaults,
  get_cron_tab_schedule,
}
use kontroller.Cluster.{Api, Kind, Verb, CronJob}
use kontroller.Cluster.Steps.{Prog, Ended, returned, ◌>>=◌, ◌>>◌, given, read, call, pure}
use Templates.{
  CronJobParams, ScheduleEnv, annotate, set_cron_job_template, set_cron_job_for_trigger_request,
  get_kubescape_job_params, get_vuln_scan_request, get_namespace_from_vuln_scan_command,
  get_cron_job_template, create_trigger_request_config_map, create_config_map_for_trigger_request,
}

abbrev pub kubescape_cron_job_template_name : String
kubescape_cron_job_template_name = "kubescape-cronjob-template"

abbrev pub vuln_scan_cronjob_template_name : String
vuln_scan_cronjob_template_name = "kubevuln-cronjob-template"

abbrev pub holds_or : Bool → String → Result (Unit {0})
holds_or true e = ok tt
holds_or false e = err e

-- a value that may be missing
abbrev pub present_or {ℓ} : {A : Type ℓ} → Option A → String → Result A
present_or none e = err e
present_or (some a) e = ok a

-- The object that is read is written back under its own name.
abbrev pub rescheduled : String → List (String × String) → CronJob → CronJob
rescheduled schedule annotations j = annotate annotations (record j { schedule = schedule })

module _ {S : Type 0} (api : Api S) (env : ScheduleEnv) where
  abbrev kubescape_scheduler : Bool
  kubescape_scheduler = env.config.components.components.kubescape_scheduler.enabled

  abbrev kubevuln_scheduler : Bool
  kubevuln_scheduler = env.config.components.components.kubevuln_scheduler.enabled

  unfoldable pub delete_cronjob : (name : String) → Prog S (Unit {0})
  delete_cronjob name = do
    call (api.delete Kind.cron_jobs name)
    call (api.delete Kind.config_maps name)

  abbrev no_params : String
  no_params = "failed to convert kubescapeJobParams list to KubescapeJobParams"

  unfoldable pub delete_kubescape_cron_job : Command → Prog S (Unit {0})
  delete_kubescape_cron_job c = do
    given (holds_or kubescape_scheduler "KubescapeScheduler is not enabled")
    p ← given (present_or (get_kubescape_job_params env c) no_params)
    call (api.delete Kind.cron_jobs p.job_name)
    call (api.delete Kind.config_maps p.job_name)

  -- `getCronTabSchedule`, with the parameters that it asks for
  abbrev pub schedule_of : Command → String
  schedule_of c =
      get_cron_tab_schedule
        (elim (get_kubescape_job_params env c) [ none ↦ none | some p ↦ some p.cron_tab_schedule ])
        c

  unfoldable pub update_kubescape_cron_job : Command → Prog S (Unit {0})
  update_kubescape_cron_job c = do
    given (holds_or kubescape_scheduler "KubescapeScheduler is not enabled")
    p ← given (present_or (get_kubescape_job_params env c) no_params)
    j ← read (api.get Kind.cron_jobs p.job_name)
    call (
        api.write Verb.update Kind.cron_jobs j.name
          (rescheduled (schedule_of c) ((env.update_job_id, c.job_tracking.job_id) ∷ []) j))

  -- `getKubescapeRequest`
  unfoldable pub get_kubescape_request : Command → Prog S ScanRequest
  get_kubescape_request c = do
    r ← given (get_kubescape_v1_scan_request env.kind_framework env.convert c.args)
    given (validate_kubescape_scan_request env.kind_framework r)
    pure (set_defaults env.kind_framework r)

  -- One turn of the loop over the targets: `name` holds the bytes of the target's formatted name.
  unfoldable pub set_kubescape_target :
      Command → ScanRequest → (name : List ℕ) → (target : String) → Prog S (Unit {0})
  set_kubescape_target c req bytes target =
      let name = env.text_of_name (fix_k8s_cron_job_name_limit bytes) in
      do
        create_trigger_request_config_map env api name req
        t ← get_cron_job_template env api kubescape_cron_job_template_name
        j ← λ s. (
          set_cron_job_template env name (schedule_of c) c.job_tracking.job_id target
              req.target_type req.host_scanner t,
          s,
        )
        call (api.write Verb.create Kind.cron_jobs j.name j)

  -- `formatted target i` is "ks-scheduled-scan-<target>-<n>", with the random number of the i-th turn.
  unfoldable pub set_kubescape_targets :
      (formatted : String → ℕ → List ℕ)
      → Command
      → ScanRequest
      → (i : ℕ) → List String
      → Prog S (Unit {0})
  set_kubescape_targets formatted c req i [] = pure tt
  set_kubescape_targets formatted c req i (target ∷ rest) = do
    set_kubescape_target c req (formatted target i) target
    set_kubescape_targets formatted c req (i + 1) rest

  unfoldable pub set_kubescape_cron_job :
      (formatted : String → ℕ → List ℕ) → Command → Prog S (Unit {0})
  set_kubescape_cron_job formatted c = do
    given (holds_or kubescape_scheduler "KubescapeScheduler is not enabled")
    req ← get_kubescape_request c
    set_kubescape_targets formatted c req 0 req.target_names

  -- The parameters of a command that has a schedule.
  unfoldable pub scheduled_params : Command → String → Prog S CronJobParams
  scheduled_params c e = do
    p ← given (present_or (env.cron_job_params c) e)
    given (holds_or (not (p.cron_tab_schedule == "")) e)
    pure p

  -- the annotations with the namespace of the command
  abbrev pub namespace_notes : Command → List (String × String)
  namespace_notes c =
      let namespace = get_namespace_from_vuln_scan_command env c in
      (env.namespace_deprecated, namespace) ∷ (env.namespace_key, namespace) ∷ []

  -- `formatted` holds the bytes of "kubevuln-schedule-<n>".
  unfoldable pub set_vuln_scan_cron_job : (formatted : List ℕ) → Command → Prog S (Unit {0})
  set_vuln_scan_cron_job formatted c =
      let name = env.text_of_name (fix_k8s_cron_job_name_limit formatted) in
      do
        given (holds_or kubevuln_scheduler "KubevulnScheduler is not enabled")
        create_config_map_for_trigger_request env api name (get_vuln_scan_request env c)
        t ← get_cron_job_template env api vuln_scan_cronjob_template_name
        p ← scheduled_params c "setVulnScanCronJob: CronTabSchedule not found"
        j ← λ s. (
          set_cron_job_for_trigger_request env name p.cron_tab_schedule c.job_tracking.job_id t,
          s,
        )
        let labelled = annotate (namespace_notes c) j
        call (api.write Verb.create Kind.cron_jobs labelled.name labelled)

  unfoldable pub update_vuln_scan_cron_job : Command → Prog S (Unit {0})
  update_vuln_scan_cron_job c = do
    given (holds_or kubevuln_scheduler "KubevulnScheduler is not enabled")
    p ← scheduled_params c "updateVulnScanCronJob: CronTabSchedule not found"
    given (holds_or (not (p.job_name == "")) "updateVulnScanCronJob: jobName not found")
    j ← read (api.get Kind.cron_jobs p.job_name)
    call (
        api.write Verb.update Kind.cron_jobs j.name (
          rescheduled p.cron_tab_schedule
            ((env.update_job_id_deprecated, c.job_tracking.job_id)
              ∷ (env.update_job_id, c.job_tracking.job_id)
              ∷ [])
            j))

  unfoldable pub delete_vuln_scan_cron_job : Command → Prog S (Unit {0})
  delete_vuln_scan_cron_job c = do
    given (holds_or kubevuln_scheduler "KubevulnScheduler is not enabled")
    p ←
        given
          (present_or (env.cron_job_params c) "deleteVulnScanCronJob: CronTabSchedule not found")
    given (holds_or (not (p.job_name == "")) "deleteVulnScanCronJob: CronTabSchedule not found")
    delete_cronjob p.job_name

-- The commands on schedules, with what is formatted at random for a new one.
pub data ScheduleCommand : Type 0 where
  set_kubescape : (String → ℕ → List ℕ) → Command → ScheduleCommand
  update_kubescape : Command → ScheduleCommand
  delete_kubescape : Command → ScheduleCommand
  set_vuln_scan : List ℕ → Command → ScheduleCommand
  update_vuln_scan : Command → ScheduleCommand
  delete_vuln_scan : Command → ScheduleCommand

module _ {S : Type 0} (api : Api S) (env : ScheduleEnv) where
  -- the cases of `runCommand` that are about schedules
  unfoldable pub run_schedule_command : ScheduleCommand → Prog S (Unit {0})
  run_schedule_command (set_kubescape formatted c) = set_kubescape_cron_job api env formatted c
  run_schedule_command (update_kubescape c) = update_kubescape_cron_job api env c
  run_schedule_command (delete_kubescape c) = delete_kubescape_cron_job api env c
  run_schedule_command (set_vuln_scan formatted c) = set_vuln_scan_cron_job api env formatted c
  run_schedule_command (update_vuln_scan c) = update_vuln_scan_cron_job api env c
  run_schedule_command (delete_vuln_scan c) = delete_vuln_scan_cron_job api env c

  -- One command after another, whatever each returns.
  unfoldable pub run_schedule_commands : List ScheduleCommand → S → S
  run_schedule_commands [] s = s
  run_schedule_commands (c ∷ rest) s = run_schedule_commands rest (run_schedule_command c s).1
