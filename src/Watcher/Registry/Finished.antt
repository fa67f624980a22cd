-- ===== src/Watcher/Registry/Finished.antt =====
-- watcher/registryhandler.go: how many turns `upsertRegistry` takes, and that it succeeds where the API does what it is asked.
use kontroller.Base.{
  ◌≤◌, String, ◌≡◌, ◌≢◌, refl, Bool, true, false, none, some, List, arith, ◌==◌, Result, ok, err,
  Result-cases, Bool-cases, inl, inr, eq-false, ◌∙◌,
}
use kontroller.Base.Dict.{lookup}
use kontroller.Cluster.{Api, Kind, Held, Verb, CronJob, ConfigMap, Job}
use kontroller.Cluster.Goroutines.{Goroutine, returns, Within, Succeeds, Turn, HasReturned}
use kontroller.Cluster.Goroutines.Contracts.{turns_of_first, turns_of_second, turns_of_third}
use kontroller.Cluster.Goroutines.Ends.{Within-more, all_return, no_error}
use kontroller.Watcher.Registry.{
  upsert_resource, with_value, upsert_secret, upsert_config_map, upsert_cron_job, upsert_jobs,
  upserting,
}
use kontroller.Watcher.Registry.Objects.{
  Registry, RegistryEnv, registry_cronjob_template, cronjob_template_name, generate_cron_job_object,
  generate_job_object, generate_secret_object, generate_config_map_object,
  get_command_for_config_map, template_of,
}
use kontroller.Watcher.Registry.Contracts.{upsert_resource-Within, upsert_resource-Succeeds}

module _ {S : Type 0} (api : Api S) (env : RegistryEnv) (r : Registry) where
  upsert_secret-Within : Within 2 (upsert_secret api env r)
  unfolding upsert_secret
  upsert_secret-Within = elim (Result-cases (generate_secret_object env r)) [
    | inr (e, p) ↦ rw p (ground arith)
    | inl (a, p) ↦ rw p (
        upsert_resource-Within api env Kind.secrets a a.name (returns none) 1 (ground arith)
          (ground arith))
  ]

  upsert_config_map-Within : Within 2 (upsert_config_map api env r)
  unfolding upsert_config_map
  upsert_config_map-Within = elim (Result-cases (generate_config_map_object env r)) [
    | inr (e, p) ↦ rw p (ground arith)
    | inl (a, p) ↦ rw p (
        upsert_resource-Within api env Kind.config_maps a a.name (returns none) 1 (ground arith)
          (ground arith))
  ]

  scheduled-Within :
      (c : Result CronJob)
      → Within 2 (
          with_value c
            (λ a. upsert_resource api env Kind.cron_jobs a r.resource_name (returns none)))
  scheduled-Within (err e) = ground arith
  scheduled-Within (ok a) =
      upsert_resource-Within api env Kind.cron_jobs a r.resource_name (returns none) 1
        (ground arith) (ground arith)

  upsert_cron_job-Within : Within 3 (upsert_cron_job api env r)
  unfolding upsert_cron_job
  upsert_cron_job-Within = elim (Bool-cases (r.scan_frequency == "")) [
    | inl y ↦ rw y (ground arith)
    | inr n ↦ rw n (2, ground arith, λ u. scheduled-Within _)
  ]

  triggered-Within :
      (c : Result Job)
      → Within 4 (
          with_value c
            (λ a. upsert_resource api env Kind.jobs a r.resource_name (upsert_cron_job api env r)))
  triggered-Within (err e) = ground arith
  triggered-Within (ok a) =
      upsert_resource-Within api env Kind.jobs a r.resource_name (upsert_cron_job api env r) 3
        (ground arith) upsert_cron_job-Within

  upsert_jobs-Within : (b : Bool) → Within 5 (upsert_jobs api env b r)
  unfolding upsert_jobs
  upsert_jobs-Within true = (4, ground arith, λ u. triggered-Within _)
  upsert_jobs-Within false = Within-more 3 5 _ (ground arith) upsert_cron_job-Within

  -- How many turns suffice: the goroutines of an insertion or an update have returned after two turns of the first, two
  -- of the second and five of the third, in whatever order, and whatever the API answers.
  pub upserting-HasReturned :
      (trigger_now : Bool) (turns : List Turn) (s : S)
      → 2 ≤ turns_of_first turns
      → 2 ≤ turns_of_second turns
      → 5 ≤ turns_of_third turns
      → HasReturned (upserting api env trigger_now r turns s)
  upserting-HasReturned b ts s p q w =
      all_return 2 2 5 (upsert_secret api env r) (upsert_config_map api env r)
        (upsert_jobs api env b r) s upsert_secret-Within upsert_config_map-Within
        (upsert_jobs-Within b) ts p q w

  -- The template of the cron jobs is held and can be parsed.
  abbrev pub HasTemplate : S → Type 0
  HasTemplate u =
      (t : ConfigMap) × (text : String) × (c : CronJob) × (api.held Kind.config_maps
          registry_cronjob_template u
        ≡ some t)
      × (lookup cronjob_template_name t.contents ≡ some text)
      × (env.unmarshal_cron_job text ≡ ok c)

  -- The credentials and the request can be encoded and the objects converted; the server takes
  -- every resource, and gives what it holds; and the registry is not named like the template.
  pub record IsHealthy : Type 0 where
    pub auth : (text : String) × (env.marshal_auth r.auth ≡ ok text)
    pub request : (text : String) × (get_command_for_config_map env r r.resource_name ≡ ok text)
    pub convertible : (k : Kind) (a : Held k) → env.unstructured k a ≡ none
    pub writable :
        (k : Kind) (n : String) (a : Held k) (u : S) → (api.write Verb.apply k n a u).0 ≡ none
    pub readable :
        (n : String) (u : S) (t : ConfigMap)
        → api.held Kind.config_maps n u ≡ some t
        → api.get Kind.config_maps n u ≡ ok t
    pub named : r.resource_name ≢ registry_cronjob_template

  module _ (h : IsHealthy) where
    applied-Succeeds :
        (k : Kind) (a : Held k) (n : String) (rest : Goroutine S)
        → n ≡ r.resource_name
        → Succeeds HasTemplate rest
        → Succeeds HasTemplate (upsert_resource api env k a n rest)
    applied-Succeeds k a n rest e =
        upsert_resource-Succeeds api env k a n rest HasTemplate (h.convertible k a)
          (h.writable k n a)
          (λ u (t, text, c, p, q, w). (
            t,
            text,
            c,
            api.write_others Verb.apply k n a u Kind.config_maps registry_cronjob_template
                  (ground (arith, e, eq-false r.resource_name registry_cronjob_template h.named))
                ∙ p,
            q,
            w,
          ))

    upsert_secret-Succeeds : Succeeds HasTemplate (upsert_secret api env r)
    unfolding upsert_secret generate_secret_object
    upsert_secret-Succeeds =
        rw h.auth.1 (applied-Succeeds Kind.secrets _ _ (returns none) refl refl)

    upsert_config_map-Succeeds : Succeeds HasTemplate (upsert_config_map api env r)
    unfolding upsert_config_map generate_config_map_object
    upsert_config_map-Succeeds =
        rw h.request.1 (applied-Succeeds Kind.config_maps _ _ (returns none) refl refl)

    upsert_cron_job-Succeeds : Succeeds HasTemplate (upsert_cron_job api env r)
    unfolding upsert_cron_job generate_cron_job_object template_of
    upsert_cron_job-Succeeds = elim (Bool-cases (r.scan_frequency == "")) [
      | inl y ↦ rw y refl
      | inr n ↦ rw n (λ u i.
          let (t, text, c, p, q, w) = i in
          (
            i,
            rw (h.readable registry_cronjob_template u t p, q, w)
                (applied-Succeeds Kind.cron_jobs _ _ (returns none) refl refl),
          ))
    ]

    upsert_jobs-Succeeds : (b : Bool) → Succeeds HasTemplate (upsert_jobs api env b r)
    unfolding upsert_jobs generate_job_object template_of
    upsert_jobs-Succeeds true = λ u i.
        let (t, text, c, p, q, w) = i in
        (
          i,
          rw (h.readable registry_cronjob_template u t p, q, w)
              (applied-Succeeds Kind.jobs _ _ _ refl upsert_cron_job-Succeeds),
        )
    upsert_jobs-Succeeds false = upsert_cron_job-Succeeds

    -- Where everything can be encoded, converted and written and the template is there, an insertion
    -- or an update returns no error, whatever the order.
    pub upserting_healthy :
        (trigger_now : Bool) (turns : List Turn) (s : S)
        → HasTemplate s
        → (upserting api env trigger_now r turns s).error ≡ none
    upserting_healthy b ts s i =
        no_error HasTemplate (upsert_secret api env r) (upsert_config_map api env r)
          (upsert_jobs api env b r) s i upsert_secret-Succeeds upsert_config_map-Succeeds
          (upsert_jobs-Succeeds b) ts
