-- ===== src/MainHandler/Schedules/Created.antt =====
-- mainhandler/vulnscanhandler.go and cronjobhandler.go: what `setVulnScanCronJob` leaves where it
-- succeeds and where the command has no schedule.
use kontroller.Base.{
  ℕ, String, ◌≡◌, ◌≢◌, refl, sym, ap, ◌∙◌, Bool, true, false, not, Option, none, some, List, [],
  ◌∷◌, ◌==◌, arith, Result, ok, if◌then◌else◌, All, eq_iff, ◌⊎◌, inl, inr,
}
use kontroller.Base.Dict.{insert}
use kontroller.Utils.Types.{Command}
use kontroller.Cluster.{Api, Kind, Verb, CronJob, ConfigMap, Volume}
use kontroller.Cluster.Steps.{
  Prog, Ended, returned, failed, panicked, given, call, ◌>>=◌, Holds, Holds-bind, Holds-still,
  Holds-given, Holds-read, given_ok, >>=_returned,
}
use kontroller.Cluster.Effects.{Holds-call, answer_ok}
use kontroller.MainHandler.Names.{fix_k8s_cron_job_name_limit}
use kontroller.MainHandler.Schedules.{
  scheduled_params, set_vuln_scan_cron_job, holds_or, present_or, vuln_scan_cronjob_template_name,
  namespace_notes,
}
use kontroller.MainHandler.Schedules.Volumes.{
  Mounts, update_volumes-Mounts, returned_injective, annotate_kept, filled-name,
}
use kontroller.MainHandler.Schedules.Templates.{
  ScheduleEnv, CronJobParams, annotate, update_volumes, named_cron_job, filled,
  set_cron_job_for_trigger_request, get_vuln_scan_request, get_cron_job_template, create_request,
  config_map_of,
}

present_or-ok :
    (o : Option CronJobParams) (e : String) (p : CronJobParams) → present_or o e ≡ ok p → o ≡ some p
present_or-ok none e p h = absurd cc
present_or-ok (some q) e p h = ground (arith, h)

holds_or-ok : (b : Bool) (e : String) (u : Unit {0}) → holds_or b e ≡ ok u → b ≡ true
holds_or-ok true e u h = refl
holds_or-ok false e u h = absurd cc

module _ {S : Type 0} (api : Api S) (env : ScheduleEnv) (formatted : List ℕ) (c : Command) where
  abbrev name_of : String
  name_of = env.text_of_name (fix_k8s_cron_job_name_limit formatted)

  -- What a scheduled scan is: under one name a request and a cron job that mounts it.
  pub record IsScheduled (s : S) : Type 0 where
    pub request :
        (text : String) × (env.marshal_commands (get_vuln_scan_request env c) ≡ ok text)
        × (api.held Kind.config_maps name_of s ≡ some (config_map_of env name_of text))
    pub params :
        (p : CronJobParams) × (j : CronJob) × (env.cron_job_params c ≡ some p)
        × (api.held Kind.cron_jobs name_of s ≡ some j)
        × (j.name ≡ name_of)
        × (j.schedule ≡ p.cron_tab_schedule)
        × All (Mounts name_of) j.job.volumes

  abbrev Any : S → Type 0
  Any s = Unit

  abbrev missing : String
  missing = "setVulnScanCronJob: CronTabSchedule not found"

  template-Holds :
      (Inv Pre : S → Type 0)
      → Holds Inv Pre (get_cron_job_template env api vuln_scan_cronjob_template_name) (λ _. Pre)
  unfolding get_cron_job_template given
  template-Holds Inv Pre =
      Holds-read Inv Pre (λ _. Pre) _ (api.get Kind.config_maps vuln_scan_cronjob_template_name)
        (λ (t : ConfigMap) s i h. (i, λ a r. h.1))

  abbrev Given : (S → Type 0) → CronJobParams → S → Type 0
  Given Pre p s = Pre s × (env.cron_job_params c ≡ some p) × (p.cron_tab_schedule ≢ "")

  scheduled-Holds :
      (Inv Pre : S → Type 0) → Holds Inv Pre (scheduled_params api env c missing) (Given Pre)
  unfolding scheduled_params
  scheduled-Holds Inv Pre = Holds-given Inv Pre (Given Pre) _ _ (λ (p : CronJobParams) q.
      Holds-given Inv Pre (Given Pre) _ _ (λ u w s i h. (
        i,
        λ a r.
            let same : p ≡ a = returned_injective r in
            (
              h,
              rw (← same) (present_or-ok (env.cron_job_params c) missing p q),
              rw (← same) (λ e. absurd (
                  ground (
                    arith,
                    holds_or-ok (not (p.cron_tab_schedule == "")) missing u w,
                    eq_iff p.cron_tab_schedule "",
                    e,
                  ))),
            ),
      )))

  abbrev NoSchedule : Type 0
  NoSchedule =
      (env.cron_job_params c ≡ none)
      ⊎ ((p : CronJobParams) × (env.cron_job_params c ≡ some p) × (p.cron_tab_schedule ≡ ""))

  -- What `setVulnScanCronJob` does once the request is created.
  abbrev remaining : Prog S (Unit {0})
  remaining = get_cron_job_template env api vuln_scan_cronjob_template_name >>= λ t.
      scheduled_params api env c missing >>= λ p.
      (λ s. (
        set_cron_job_for_trigger_request env name_of p.cron_tab_schedule c.job_tracking.job_id t,
        s,
      ))
      >>= λ j. call (
          api.write Verb.create Kind.cron_jobs (annotate (namespace_notes api env c) j).name
            (annotate (namespace_notes api env c) j))

  refused-Holds : (u : S) → NoSchedule → Holds (λ v. v ≡ u) Any remaining (λ _ _. ⊥)
  refused-Holds u lost =
      Holds-bind (λ v. v ≡ u) Any (λ _. Any) (λ _ _. ⊥) _ _ (template-Holds (λ v. v ≡ u) Any)
        (λ (t : CronJob).
          Holds-bind (λ v. v ≡ u) Any (Given Any) (λ _ _. ⊥) _ _ (scheduled-Holds (λ v. v ≡ u) Any)
            (λ (p : CronJobParams) s i (h, q, n). absurd (elim lost [
              | inl e ↦ cc (e, q)
              | inr (r, e, f) ↦
                  n (let same : some r ≡ some p = (sym e) ∙ q in ground (arith, same, f))
            ])))

  created :
      (s : S) (text : String)
      → env.marshal_commands (get_vuln_scan_request env c) ≡ ok text
      → let f = api.write Verb.create Kind.config_maps name_of (config_map_of env name_of text) in
        (f s).0 ≡ none
        → create_request env api name_of (env.marshal_commands (get_vuln_scan_request env c)) s
          ≡ (returned tt, (f s).1)
  unfolding create_request call
  created s text m w =
      let f = api.write Verb.create Kind.config_maps name_of (config_map_of env name_of text) in
      given_ok _ text _ s m ∙ answer_ok (f s) w

  begun :
      (s u : S)
      → env.config.components.components.kubevuln_scheduler.enabled ≡ true
      → create_request env api name_of (env.marshal_commands (get_vuln_scan_request env c)) s
        ≡ (returned tt, u)
      → set_vuln_scan_cron_job api env formatted c s ≡ remaining u
  unfolding set_vuln_scan_cron_job
  begun s u on done =
      given_ok _ tt _ s (ap (λ (b : Bool). holds_or b "KubevulnScheduler is not enabled") on)
      ∙ >>=_returned _ tt u (λ _. remaining) s done

  filled_lem :
      (p : CronJobParams) (t j : CronJob) (v : Ended (List Volume)) (notes : List (String × String))
      → ((vs : List Volume) → v ≡ returned vs → All (Mounts name_of) vs)
      → p.cron_tab_schedule ≢ ""
      → filled name_of p.cron_tab_schedule notes t v ≡ returned j
      → (j.schedule ≡ p.cron_tab_schedule) × All (Mounts name_of) j.job.volumes
  filled_lem p t j (returned vs) notes m n h =
      let c0 = record t {
        name = name_of;
        schedule = if p.cron_tab_schedule == "" then t.schedule else p.cron_tab_schedule;
        job = record t.job { volumes = vs };
        labels = insert "app" name_of t.labels;
      } in
      let (s, v, _) = annotate_kept notes c0 in
      rw (← returned_injective h, s, v)
        (ground (arith, n, eq_iff p.cron_tab_schedule ""), m vs refl)
  filled_lem p t j (failed e) notes m n h = absurd cc
  filled_lem p t j panicked notes m n h = absurd cc

  abbrev HasRequest : S → Type 0
  HasRequest s =
      (text : String) × (env.marshal_commands (get_vuln_scan_request env c) ≡ ok text)
      × (api.held Kind.config_maps name_of s ≡ some (config_map_of env name_of text))

  abbrev IsCronJob : CronJobParams → CronJob → Type 0
  IsCronJob p j =
      (j.name ≡ name_of) × (j.schedule ≡ p.cron_tab_schedule) × All (Mounts name_of) j.job.volumes

  set_up-IsCronJob :
      (p : CronJobParams) (t j : CronJob)
      → p.cron_tab_schedule ≢ ""
      → set_cron_job_for_trigger_request env name_of p.cron_tab_schedule c.job_tracking.job_id t
        ≡ returned j
      → IsCronJob p (annotate (namespace_notes api env c) j)
  unfolding set_cron_job_for_trigger_request named_cron_job
  set_up-IsCronJob p t j n h =
      let notes : List (String × String) =
        (env.armo_cloud_job_id_deprecated, c.job_tracking.job_id)
        ∷ (env.job_id_key, c.job_tracking.job_id)
        ∷ [] in
      let (s, v, m) = annotate_kept (namespace_notes api env c) j in
      let (schedule, mounts) =
        filled_lem p t j (update_volumes name_of t.job.volumes) notes
          (update_volumes-Mounts name_of t.job.volumes) n h in
      (m ∙ filled-name name_of p.cron_tab_schedule notes t j _ h, s ∙ schedule, rw v mounts)

  abbrev Anything : S → Type 0
  Anything s = Unit

  stored-Holds :
      (p : CronJobParams) (j : CronJob)
      → env.cron_job_params c ≡ some p
      → IsCronJob p j
      → Holds Anything HasRequest
          (call (api.write Verb.create Kind.cron_jobs j.name j))
          (λ _. IsScheduled)
  stored-Holds p j e is =
      Holds-call Anything HasRequest IsScheduled (api.write Verb.create Kind.cron_jobs j.name j)
        (λ s i h. tt)
        (λ s i (text, m, h) w.
          let held = api.write-held Verb.create Kind.cron_jobs j.name j s w in
          record {
            request = (
              text,
              m,
              api.write_others Verb.create Kind.cron_jobs j.name j s Kind.config_maps name_of refl
                  ∙ h,
            );
            params = (
              p,
              j,
              e,
              ap
                    (λ (n : String).
                      api.held Kind.cron_jobs n (api.write Verb.create Kind.cron_jobs j.name j s).1)
                    (sym is.0)
                  ∙ held,
              is.0,
              is.1,
              is.2,
            );
          })

  remaining-IsScheduled : Holds Anything HasRequest remaining (λ _. IsScheduled)
  remaining-IsScheduled =
      Holds-bind Anything HasRequest (λ _. HasRequest) (λ _. IsScheduled) _ _
        (template-Holds Anything HasRequest)
        (λ (t : CronJob).
          Holds-bind Anything HasRequest (Given HasRequest) (λ _. IsScheduled) _ _
            (scheduled-Holds Anything HasRequest)
            (λ (p : CronJobParams).
              Holds-still Anything (Given HasRequest p) (λ _. IsScheduled) _ _
                (λ (j : CronJob) e s i h.
                  stored-Holds p _ h.1 (set_up-IsCronJob p t j h.2 e) s i h.0)))

  requested-Holds :
      (r : Result String)
      → env.marshal_commands (get_vuln_scan_request env c) ≡ r
      → Holds Anything Any (create_request env api name_of r) (λ _. HasRequest)
  unfolding create_request
  requested-Holds r m =
      Holds-given Anything Any (λ _. HasRequest) _ r
        (λ (text : String) e.
          Holds-call Anything Any HasRequest
            (api.write Verb.create Kind.config_maps name_of (config_map_of env name_of text))
            (λ s i t. tt)
            (λ s i t w. (text, m ∙ e, api.write-held Verb.create Kind.config_maps name_of _ s w)))

  -- A vulnerability scan that is scheduled without an error is held as a request, which is the
  -- command as an image scan, and as a cron job of the same name: it has the schedule of the
  -- command, and every volume for the request in it refers to that request.
  pub set_vuln_scan_cron_job-IsScheduled :
      (s : S)
      → let (end, u) = set_vuln_scan_cron_job api env formatted c s in
        end ≡ returned tt → IsScheduled u
  unfolding set_vuln_scan_cron_job
  set_vuln_scan_cron_job-IsScheduled s =
      (Holds-given Anything Any (λ _. IsScheduled) _ _
          (λ u e.
            Holds-bind Anything Any (λ _. HasRequest) (λ _. IsScheduled) _ _
              (requested-Holds _ refl) (λ _. remaining-IsScheduled))
          s tt tt).1
        tt

  -- A command whose schedule is missing is refused only after its request is created: the request
  -- stays behind, with no cron job that would send it.
  pub request_left_behind :
      (s : S) (text : String)
      → env.config.components.components.kubevuln_scheduler.enabled ≡ true
      → env.marshal_commands (get_vuln_scan_request env c) ≡ ok text
      → (api.write Verb.create Kind.config_maps name_of (config_map_of env name_of text) s).0 ≡ none
      → NoSchedule
      → let (end, u) = set_vuln_scan_cron_job api env formatted c s in
        (end ≢ returned tt)
        × (api.held Kind.config_maps name_of u ≡ some (config_map_of env name_of text))
        × (api.held Kind.cron_jobs name_of u ≡ api.held Kind.cron_jobs name_of s)
  request_left_behind s text on m w lost =
      let u =
        (api.write Verb.create Kind.config_maps name_of (config_map_of env name_of text) s).1 in
      let (same, never) = refused-Holds u lost u refl tt in
      rw (begun s u on (created s text m w)) (
        never tt,
        rw same (api.write-held Verb.create Kind.config_maps name_of _ s w),
        rw same
            (api.write_others Verb.create Kind.config_maps name_of _ s Kind.cron_jobs name_of refl),
      )
