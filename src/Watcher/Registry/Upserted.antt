-- ===== src/Watcher/Registry/Upserted.antt =====
-- watcher/registryhandler.go: what `upsertRegistry` leaves, whatever the order of its goroutines.
use kontroller.Base.{
  ℕ, String, ◌≡◌, ◌≢◌, refl, ◌∙◌, Bool, true, false, ◌&&◌, none, some, List, arith, ◌==◌, Result,
  ok, err, Result-cases, Bool-cases, inl, inr, eq_iff, eq-false, leb,
}
use kontroller.Cluster.{Api, Kind, Held, Verb, CronJob, Job}
use kontroller.Cluster.Goroutines.{returns, Ensures, Confined, Turn, HasReturned}
use kontroller.Cluster.Goroutines.Contracts.{
  Contract, Keeps, Spares, AreApart, goals_reached, group-changes,
}
use kontroller.Watcher.Registry.{
  upsert_resource, with_value, upsert_secret, upsert_config_map, upsert_cron_job, upsert_jobs,
  upserting,
}
use kontroller.Watcher.Registry.Objects.{
  Registry, RegistryEnv, registry_cronjob_template, generate_secret_object,
  generate_config_map_object,
}
use kontroller.Watcher.Registry.Stored.{
  HasSecret, HasRequest, HasJob, HasSchedule, HasJobs, secret-IsSecretOf, config_map-IsRequestOf,
  job-IsJobOf, cron_job-IsScheduleOf, IsJobOf, IsScheduleOf,
}
use kontroller.Watcher.Registry.Contracts.{
  Unchanged, Changed, contract, upsert_resource-Ensures, upsert_resource-Confined,
}

-- Which of the three goroutines writes a kind of objects.
abbrev writer : Kind → ℕ
writer Kind.secrets = 0
writer Kind.config_maps = 1
writer Kind.jobs = 2
writer Kind.cron_jobs = 2

abbrev pub own : ℕ → Kind → Bool
own i k = leb i (writer k) && leb (writer k) i

module _ {S : Type 0} (api : Api S) (env : RegistryEnv) (r : Registry) where
  abbrev pub secret_contract : Contract S
  secret_contract = contract api (own 0) r.resource_name (HasSecret api env r)

  abbrev pub config_map_contract : Contract S
  config_map_contract = contract api (own 1) r.resource_name (HasRequest api env r)

  abbrev pub jobs_contract : Bool → Contract S
  jobs_contract trigger_now = contract api (own 2) r.resource_name (HasJobs api env r trigger_now)

  spares :
      (i j : ℕ) (P Q : S → Type 0)
      → i ≢ j
      → Spares (contract api (own i) r.resource_name P) (contract api (own j) r.resource_name Q)
  spares i j P Q apart s u h k o n = h k n (ground (arith, apart, o))

  pub are_apart : (b : Bool) → AreApart secret_contract config_map_contract (jobs_contract b)
  are_apart b = record {
    ab = spares 0 1 (HasSecret api env r) (HasRequest api env r) (ground arith);
    ac = spares 0 2 (HasSecret api env r) (HasJobs api env r b) (ground arith);
    ba = spares 1 0 (HasRequest api env r) (HasSecret api env r) (ground arith);
    bc = spares 1 2 (HasRequest api env r) (HasJobs api env r b) (ground arith);
    ca = spares 2 0 (HasJobs api env r b) (HasSecret api env r) (ground arith);
    cb = spares 2 1 (HasJobs api env r b) (HasRequest api env r) (ground arith);
  }

  -- A goroutine that applies one resource of the registry's name and returns.
  upsert_one-Keeps :
      (i : ℕ) (Goal : S → Type 0) (k : Kind) (a : Held k) (name : String) (s : S)
      → own i k ≡ true
      → name ≡ r.resource_name
      → ((u : S) → api.held k r.resource_name u ≡ some a → Goal u)
      → Keeps
          (contract api (own i) r.resource_name Goal)
          (upsert_resource api env k a name (returns none))
          s
  upsert_one-Keeps i Goal k a name s o e goal = rw e (
    upsert_resource-Ensures api (own i) env Goal k a r.resource_name (returns none) (λ _. Unit)
        (λ s u w t. tt) (λ u t h v w e0. goal v (w k o r.resource_name ∙ h)) s tt,
    upsert_resource-Confined api (own i) env Goal k a r.resource_name (returns none) o tt,
  )

  pub upsert_secret-Keeps : (s : S) → Keeps secret_contract (upsert_secret api env r) s
  unfolding upsert_secret
  upsert_secret-Keeps s = elim (Result-cases (generate_secret_object env r)) [
    | inr (e, p) ↦ rw p (λ u w e0. absurd cc, tt)
    | inl (a, p) ↦
        let is = secret-IsSecretOf env r a p in
        rw p (
          upsert_one-Keeps 0 (HasSecret api env r) Kind.secrets a a.name s refl is.name
            (λ u h. (a, h, is)))
  ]

  pub upsert_config_map-Keeps : (s : S) → Keeps config_map_contract (upsert_config_map api env r) s
  unfolding upsert_config_map
  upsert_config_map-Keeps s = elim (Result-cases (generate_config_map_object env r)) [
    | inr (e, p) ↦ rw p (λ u w e0. absurd cc, tt)
    | inl (a, p) ↦
        let is = config_map-IsRequestOf env r a p in
        rw p (
          upsert_one-Keeps 1 (HasRequest api env r) Kind.config_maps a a.name s refl is.name
            (λ u h. (a, h, is)))
  ]

  -- What the last goroutine has already achieved when it comes to the cron job.
  abbrev Triggered : Bool → S → Type 0
  Triggered b s = b ≡ true → (HasJob api env r) s

  Triggered-later : (b : Bool) (s u : S) → Unchanged api (own 2) s u → Triggered b s → Triggered b u
  Triggered-later b s u w h e =
      let (a, p, is) = h e in (a, w Kind.jobs refl r.resource_name ∙ p, is)

  applied-Ensures :
      (b : Bool) (c : Result CronJob) (v : S)
      → ((a : CronJob) → c ≡ ok a → IsScheduleOf env r a)
      → Triggered b v
      → Ensures
          (Unchanged api (own 2))
          (HasJobs api env r b)
          (with_value c
            (λ a. upsert_resource api env Kind.cron_jobs a r.resource_name (returns none)))
          v
  applied-Ensures b (err e) v is h = λ u w e0. absurd cc
  applied-Ensures b (ok a) v is h =
      upsert_resource-Ensures api (own 2) env (HasJobs api env r b) Kind.cron_jobs a r.resource_name
        (returns none) (Triggered b) (Triggered-later b)
        (λ u t p x w e0. (
          Triggered-later b _ x w (λ e.
              let (j, q, k) = t e in
              (
                j,
                api.write_others Verb.apply Kind.cron_jobs r.resource_name a u Kind.jobs
                      r.resource_name refl
                    ∙ q,
                k,
              )),
          λ n. (a, w Kind.cron_jobs refl r.resource_name ∙ p, is a refl),
        ))
        v h

  upsert_cron_job-Ensures :
      (b : Bool) (s : S)
      → Triggered b s
      → Ensures (Unchanged api (own 2)) (HasJobs api env r b) (upsert_cron_job api env r) s
  unfolding upsert_cron_job
  upsert_cron_job-Ensures b s h = elim (Bool-cases (r.scan_frequency == "")) [
    | inl y ↦
        rw y (λ u w e0.
          (Triggered-later b s u w h, λ n. absurd (n ((eq_iff r.scan_frequency "").0 y))))
    | inr n ↦ rw n (λ u w.
        applied-Ensures b _ u
          (cron_job-IsScheduleOf env r (api.get Kind.config_maps registry_cronjob_template u))
          (Triggered-later b s u w h))
  ]

  applied-Confined :
      (c : Result CronJob)
      → Confined (Changed api (own 2) r.resource_name) (
          with_value c
            (λ a. upsert_resource api env Kind.cron_jobs a r.resource_name (returns none)))
  applied-Confined (err e) = tt
  applied-Confined (ok a) =
      upsert_resource-Confined api (own 2) env (HasJobs api env r true) Kind.cron_jobs a
        r.resource_name (returns none) refl tt

  upsert_cron_job-Confined :
      Confined (Changed api (own 2) r.resource_name) (upsert_cron_job api env r)
  unfolding upsert_cron_job
  upsert_cron_job-Confined = elim (Bool-cases (r.scan_frequency == "")) [
    | inl y ↦ rw y tt
    | inr n ↦ rw n (λ u. (λ k m e. refl, applied-Confined _))
  ]

  triggered-Keeps :
      (c : Result Job) (s : S)
      → ((a : Job) → c ≡ ok a → IsJobOf env r a)
      → Keeps
          (jobs_contract true)
          (with_value c
            (λ a. upsert_resource api env Kind.jobs a r.resource_name (upsert_cron_job api env r)))
          s
  triggered-Keeps (err e) s is = (λ u w e0. absurd cc, tt)
  triggered-Keeps (ok a) s is = (
    upsert_resource-Ensures api (own 2) env (HasJobs api env r true) Kind.jobs a r.resource_name
        (upsert_cron_job api env r) (λ _. Unit) (λ s u w t. tt)
        (λ u t h. upsert_cron_job-Ensures true _ (λ e. (a, h, is a refl))) s tt,
    upsert_resource-Confined api (own 2) env (HasJobs api env r true) Kind.jobs a r.resource_name
        (upsert_cron_job api env r) refl upsert_cron_job-Confined,
  )

  pub upsert_jobs-Keeps : (b : Bool) (s : S) → Keeps (jobs_contract b) (upsert_jobs api env b r) s
  unfolding upsert_jobs
  upsert_jobs-Keeps true s = (
    λ u w.
        (triggered-Keeps _ u
          (job-IsJobOf env r (api.get Kind.config_maps registry_cronjob_template u))).0,
    λ u. (
      λ k n e. refl,
      (triggered-Keeps _ u
          (job-IsJobOf env r (api.get Kind.config_maps registry_cronjob_template u))).1,
    ),
  )
  upsert_jobs-Keeps false s =
      (upsert_cron_job-Ensures false s (λ e. absurd cc), upsert_cron_job-Confined)

  -- However the goroutines of an insertion or an update interleave: if they have all returned and
  -- the first error is none, the registry's secret and its request are held, a job where the scan
  -- is to start now, and a cron job with the registry's schedule where it has one; each is named
  -- after the registry, and the volumes of the jobs refer to its request.
  pub upserting-Stored :
      (trigger_now : Bool) (turns : List Turn) (s : S)
      → HasReturned (upserting api env trigger_now r turns s)
      → (upserting api env trigger_now r turns s).error ≡ none
      → let u = (upserting api env trigger_now r turns s).store in
        HasSecret api env r u
        × HasRequest api env r u
        × (trigger_now ≡ true → HasJob api env r u)
        × (r.scan_frequency ≢ "" → HasSchedule api env r u)
  upserting-Stored b ts s d e =
      let (x, y, z) =
        goals_reached secret_contract config_map_contract (jobs_contract b) (are_apart b)
          (upsert_secret api env r) (upsert_config_map api env r) (upsert_jobs api env b r) s
          (upsert_secret-Keeps s) (upsert_config_map-Keeps s) (upsert_jobs-Keeps b s) ts d e in
      (x, y, z.0, z.1)

  -- What goes by another name is left alone, whatever the order and whatever fails.
  pub upserting_others :
      (trigger_now : Bool) (turns : List Turn) (s : S) (k : Kind) (n : String)
      → r.resource_name ≢ n
      → api.held k n (upserting api env trigger_now r turns s).store ≡ api.held k n s
  upserting_others b ts s k n h =
      group-changes secret_contract config_map_contract (jobs_contract b)
        (λ s u. (k : Kind) (n : String) → r.resource_name ≢ n → api.held k n u ≡ api.held k n s)
        (λ s k n h. refl) (λ s t u p q k n h. q k n h ∙ p k n h)
        (λ s u c k n h. c k n (ground (arith, eq-false r.resource_name n h)))
        (λ s u c k n h. c k n (ground (arith, eq-false r.resource_name n h)))
        (λ s u c k n h. c k n (ground (arith, eq-false r.resource_name n h))) (are_apart b)
        (upsert_secret api env r) (upsert_config_map api env r) (upsert_jobs api env b r) s
        (upsert_secret-Keeps s) (upsert_config_map-Keeps s) (upsert_jobs-Keeps b s) ts k n h
