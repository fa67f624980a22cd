-- ===== src/MainHandler/Schedules/InOrder.antt =====
-- mainhandler/kubescapehandler.go and vulnscanhandler.go: no command on scheduled scans leaves a cron
-- job without the request that it mounts, whatever fails.
use kontroller.Base.{
  ℕ, ◌+◌, String, ◌≡◌, refl, ◌∙◌, true, none, List, [], ◌∷◌, arith, Result, ok, is_some,
}
use kontroller.Utils.Types.{Command, ScanRequest}
use kontroller.Cluster.{Api, Kind, Verb, CronJob, ConfigMap}
use kontroller.Cluster.Steps.{
  Prog, returned, given, read, call, ◌>>=◌, ◌>>◌, Holds, Holds-bind, Holds-still, Holds-given,
  Holds-read,
}
use kontroller.Cluster.Effects.{
  Holds-call, IsInOrder, write-cron_job-IsInOrder, write-config_map-IsInOrder,
  delete-cron_job-IsInOrder, delete-config_map-IsInOrder,
}
use kontroller.MainHandler.Names.{fix_k8s_cron_job_name_limit}
use kontroller.MainHandler.Schedules.{
  delete_cronjob, delete_kubescape_cron_job, update_kubescape_cron_job, set_kubescape_target,
  set_kubescape_targets, set_kubescape_cron_job, get_kubescape_request, scheduled_params,
  set_vuln_scan_cron_job, update_vuln_scan_cron_job, delete_vuln_scan_cron_job, rescheduled,
  schedule_of, kubescape_cron_job_template_name, vuln_scan_cronjob_template_name, namespace_notes,
  ScheduleCommand, set_kubescape, update_kubescape, delete_kubescape, set_vuln_scan,
  update_vuln_scan, delete_vuln_scan, run_schedule_command, run_schedule_commands,
}
use kontroller.MainHandler.Schedules.Volumes.{annotate_kept, filled-name}
use kontroller.MainHandler.Schedules.Templates.{
  ScheduleEnv, CronJobParams, annotate, named_cron_job, set_cron_job_template,
  set_cron_job_for_trigger_request, get_cron_job_template, create_request, config_map_of,
}

named_cron_job-name :
    (name schedule : String) (notes : List (String × String)) (t j : CronJob)
    → named_cron_job name schedule notes t ≡ returned j
    → j.name ≡ name
unfolding named_cron_job
named_cron_job-name name schedule notes t j h = filled-name name schedule notes t j _ h

module _ {S : Type 0} (api : Api S) (env : ScheduleEnv) where
  abbrev Any : S → Type 0
  Any s = Unit

  abbrev Done {ℓ} : {A : Type ℓ} → A → S → Type 0
  Done a s = Unit

  -- What keeps the cluster in order, from any state that is.
  abbrev Preserves {ℓ} : {A : Type ℓ} → Prog S A → Type ℓ
  Preserves m = Holds (IsInOrder api) Any m Done

  abbrev Requested : String → S → Type 0
  Requested n s = is_some (api.held Kind.config_maps n s) ≡ true

  delete_both : String → Prog S (Unit {0})
  delete_both n = call (api.delete Kind.cron_jobs n) >> call (api.delete Kind.config_maps n)

  delete_both-Preserves : (n : String) → Preserves (delete_both n)
  unfolding delete_both
  delete_both-Preserves n =
      Holds-bind (IsInOrder api) Any (λ _ s. api.held Kind.cron_jobs n s ≡ none) Done
        (call (api.delete Kind.cron_jobs n)) _
        (Holds-call (IsInOrder api) Any (λ s. api.held Kind.cron_jobs n s ≡ none)
          (api.delete Kind.cron_jobs n) (λ s h t. delete-cron_job-IsInOrder api n s h)
          (λ s h t e. api.delete-held Kind.cron_jobs n s e))
        (λ _.
          Holds-call (IsInOrder api) (λ s. api.held Kind.cron_jobs n s ≡ none) Any
            (api.delete Kind.config_maps n) (λ s h g. delete-config_map-IsInOrder api n s h g)
            (λ s h g e. tt))

  delete_kubescape_cron_job-Preserves :
      (c : Command) → Preserves (delete_kubescape_cron_job api env c)
  unfolding delete_kubescape_cron_job delete_both
  delete_kubescape_cron_job-Preserves c = Holds-given (IsInOrder api) Any Done _ _ (λ _ e.
      Holds-given (IsInOrder api) Any Done _ _
        (λ (p : CronJobParams) q. delete_both-Preserves p.job_name))

  delete_vuln_scan_cron_job-Preserves :
      (c : Command) → Preserves (delete_vuln_scan_cron_job api env c)
  unfolding delete_vuln_scan_cron_job delete_cronjob delete_both
  delete_vuln_scan_cron_job-Preserves c = Holds-given (IsInOrder api) Any Done _ _ (λ _ e.
      Holds-given (IsInOrder api) Any Done _ _ (λ (p : CronJobParams) q.
        Holds-given (IsInOrder api) Any Done _ _ (λ _ w. delete_both-Preserves p.job_name)))

  -- The cron job that is written back has the name under which it was read, which has a request.
  rewrite-Preserves :
      (n schedule : String) (notes : List (String × String))
      → Preserves (
          read (api.get Kind.cron_jobs n) >>= λ j.
          call (api.write Verb.update Kind.cron_jobs j.name (rescheduled schedule notes j)))
  rewrite-Preserves n schedule notes =
      Holds-read (IsInOrder api) Any Done _ (api.get Kind.cron_jobs n) (λ (j : CronJob).
        Holds-call (IsInOrder api) (λ s. (api.get Kind.cron_jobs n s ≡ ok j) × Any s) Any _
          (λ s h (g, _).
            let here = api.get-held Kind.cron_jobs n s j g in
            let name = h.named n j here in
            write-cron_job-IsInOrder api Verb.update j.name (rescheduled schedule notes j) s
              (annotate_kept notes _).2 h (rw name (h.backed n (ground (arith, here)))))
          (λ s h g e. tt))

  created-Preserves :
      (name : String) (j : CronJob)
      → j.name ≡ name
      → Holds
          (IsInOrder api)
          (Requested name)
          (call (api.write Verb.create Kind.cron_jobs j.name j))
          Done
  created-Preserves name j e =
      Holds-call (IsInOrder api) (Requested name) Any
        (api.write Verb.create Kind.cron_jobs j.name j)
        (λ s h r. write-cron_job-IsInOrder api Verb.create j.name j s refl h (rw e r))
        (λ s h r f. tt)

  create_request-Preserves :
      (name : String) (body : Result String)
      → Holds (IsInOrder api) Any (create_request env api name body) (λ _. Requested name)
  unfolding create_request
  create_request-Preserves name body =
      Holds-given (IsInOrder api) Any (λ _. Requested name) _ body
        (λ (text : String) e.
          Holds-call (IsInOrder api) Any (Requested name)
            (api.write Verb.create Kind.config_maps name (config_map_of env name text))
            (λ s h t. write-config_map-IsInOrder api Verb.create name _ s h)
            (λ s h t f. rw (api.write-held Verb.create Kind.config_maps name _ s f) refl))

  -- A command that updates a schedule.
  update_kubescape_cron_job-Preserves :
      (c : Command) → Preserves (update_kubescape_cron_job api env c)
  unfolding update_kubescape_cron_job
  update_kubescape_cron_job-Preserves c = Holds-given (IsInOrder api) Any Done _ _ (λ _ e.
      Holds-given (IsInOrder api) Any Done _ _ (λ (p : CronJobParams) q.
        rewrite-Preserves p.job_name (schedule_of api env c)
          ((env.update_job_id, c.job_tracking.job_id) ∷ [])))

  -- What reads or computes leaves what is known of the state.
  scheduled-Preserves :
      (c : Command) (e : String) (Pre : S → Type 0)
      → Holds (IsInOrder api) Pre (scheduled_params api env c e) (λ _. Pre)
  unfolding scheduled_params
  scheduled-Preserves c e Pre =
      Holds-given (IsInOrder api) Pre (λ _. Pre) _ _
        (λ (p : CronJobParams) q.
          Holds-given (IsInOrder api) Pre (λ _. Pre) _ _ (λ _ w s i h. (i, λ a r. h)))

  template-Preserves :
      (name : String) (Pre : S → Type 0)
      → Holds (IsInOrder api) Pre (get_cron_job_template env api name) (λ _. Pre)
  unfolding get_cron_job_template given
  template-Preserves name Pre =
      Holds-read (IsInOrder api) Pre (λ _. Pre) _ (api.get Kind.config_maps name)
        (λ (t : ConfigMap) s i h. (i, λ a r. h.1))

  request-Preserves :
      (c : Command) (Pre : S → Type 0)
      → Holds (IsInOrder api) Pre (get_kubescape_request api env c) (λ _. Pre)
  unfolding get_kubescape_request
  request-Preserves c Pre =
      Holds-given (IsInOrder api) Pre (λ _. Pre) _ _
        (λ (r : ScanRequest) q.
          Holds-given (IsInOrder api) Pre (λ _. Pre) _ _ (λ _ w s i h. (i, λ a r. h)))

  update_vuln_scan_cron_job-Preserves :
      (c : Command) → Preserves (update_vuln_scan_cron_job api env c)
  unfolding update_vuln_scan_cron_job
  update_vuln_scan_cron_job-Preserves c = Holds-given (IsInOrder api) Any Done _ _ (λ _ e.
      Holds-bind (IsInOrder api) Any (λ _. Any) Done
        (scheduled_params api env c "updateVulnScanCronJob: CronTabSchedule not found") _
        (scheduled-Preserves c "updateVulnScanCronJob: CronTabSchedule not found" Any)
        (λ (p : CronJobParams). Holds-given (IsInOrder api) Any Done _ _ (λ _ w.
          rewrite-Preserves p.job_name p.cron_tab_schedule (
            (env.update_job_id_deprecated, c.job_tracking.job_id)
            ∷ (env.update_job_id, c.job_tracking.job_id)
            ∷ []))))

  set_kubescape_target-Preserves :
      (c : Command) (req : ScanRequest) (bytes : List ℕ) (target : String)
      → Preserves (set_kubescape_target api env c req bytes target)
  unfolding set_kubescape_target set_cron_job_template
  set_kubescape_target-Preserves c req bytes target =
      let name = env.text_of_name (fix_k8s_cron_job_name_limit bytes) in
      Holds-bind (IsInOrder api) Any (λ _. Requested name) Done _ _
        (create_request-Preserves name _)
        (λ _.
          Holds-bind (IsInOrder api) (Requested name) (λ _. Requested name) Done _ _
            (template-Preserves kubescape_cron_job_template_name (Requested name))
            (λ (t : CronJob).
              Holds-still (IsInOrder api) (Requested name) Done _ _
                (λ (j : CronJob) e. created-Preserves name j (named_cron_job-name name _ _ t j e))))

  set_kubescape_targets-Preserves :
      (formatted : String → ℕ → List ℕ) (c : Command) (req : ScanRequest) (i : ℕ)
      (targets : List String)
      → Preserves (set_kubescape_targets api env formatted c req i targets)
  unfolding set_kubescape_targets
  set_kubescape_targets-Preserves formatted c req i [] s h p = (h, λ a r. tt)
  set_kubescape_targets-Preserves formatted c req i (target ∷ rest) s h p =
      Holds-bind (IsInOrder api) Any (λ _. Any) Done _ _
        (set_kubescape_target-Preserves c req (formatted target i) target)
        (λ _. set_kubescape_targets-Preserves formatted c req (i + 1) rest) s h p

  set_kubescape_cron_job-Preserves :
      (formatted : String → ℕ → List ℕ) (c : Command)
      → Preserves (set_kubescape_cron_job api env formatted c)
  unfolding set_kubescape_cron_job
  set_kubescape_cron_job-Preserves formatted c = Holds-given (IsInOrder api) Any Done _ _ (λ _ e.
      Holds-bind (IsInOrder api) Any (λ _. Any) Done _ _ (request-Preserves c Any)
        (λ (r : ScanRequest). set_kubescape_targets-Preserves formatted c r 0 r.target_names))

  set_vuln_scan_cron_job-Preserves :
      (formatted : List ℕ) (c : Command) → Preserves (set_vuln_scan_cron_job api env formatted c)
  unfolding set_vuln_scan_cron_job set_cron_job_for_trigger_request
  set_vuln_scan_cron_job-Preserves formatted c =
      let name = env.text_of_name (fix_k8s_cron_job_name_limit formatted) in
      Holds-given (IsInOrder api) Any Done _ _ (λ _ e.
        Holds-bind (IsInOrder api) Any (λ _. Requested name) Done _ _
          (create_request-Preserves name _)
          (λ _.
            Holds-bind (IsInOrder api) (Requested name) (λ _. Requested name) Done _ _
              (template-Preserves vuln_scan_cronjob_template_name (Requested name))
              (λ (t : CronJob).
                Holds-bind (IsInOrder api) (Requested name) (λ _. Requested name) Done _ _
                  (scheduled-Preserves c _ (Requested name))
                  (λ (p : CronJobParams).
                    Holds-still (IsInOrder api) (Requested name) Done _ _ (λ (j : CronJob) e.
                      created-Preserves name (annotate (namespace_notes api env c) j) (
                        (annotate_kept (namespace_notes api env c) j).2
                        ∙ named_cron_job-name name _ _ t j e))))))

  run_schedule_command-Preserves :
      (c : ScheduleCommand) → Preserves (run_schedule_command api env c)
  unfolding run_schedule_command
  run_schedule_command-Preserves (set_kubescape f c) = set_kubescape_cron_job-Preserves f c
  run_schedule_command-Preserves (update_kubescape c) = update_kubescape_cron_job-Preserves c
  run_schedule_command-Preserves (delete_kubescape c) = delete_kubescape_cron_job-Preserves c
  run_schedule_command-Preserves (set_vuln_scan f c) = set_vuln_scan_cron_job-Preserves f c
  run_schedule_command-Preserves (update_vuln_scan c) = update_vuln_scan_cron_job-Preserves c
  run_schedule_command-Preserves (delete_vuln_scan c) = delete_vuln_scan_cron_job-Preserves c

  -- In whatever order schedules are set, updated and deleted, and whatever fails or panics on the
  -- way: if at first every cron job is held under its own name and has a config map of that name,
  -- the request that it mounts, then so it is at the end.
  pub run_schedule_commands-IsInOrder :
      (cs : List ScheduleCommand) (s : S)
      → IsInOrder api s
      → IsInOrder api (run_schedule_commands api env cs s)
  unfolding run_schedule_commands
  run_schedule_commands-IsInOrder [] s h = h
  run_schedule_commands-IsInOrder (c ∷ rest) s h =
      run_schedule_commands-IsInOrder rest (run_schedule_command api env c s).1
        (run_schedule_command-Preserves c s h tt).0
