-- ===== src/Watcher/Registry.antt =====
-- watcher/registryhandler.go: the operator commands on container image registries. A registry is
-- kept as a secret, a config map and a cron job of its resource name, in the operator's namespace.
pub mod Objects
pub mod Contracts
pub mod Stored
pub mod Upserted
pub mod Finished
pub mod Deleted
pub mod Handled
use kontroller.Base.{
  ℕ, String, Bool, true, false, not, Option, none, some, List, [], ◌∷◌, ◌==◌, if◌then◌else◌, Result,
  ok, err,
}
use kontroller.Cluster.{Api, Kind, Held, Verb}
use kontroller.Cluster.Steps.{
  Prog, Ended, returned, failed, panicked, ended, ◌>>=◌, ◌>>◌, given, call, pure,
}
use kontroller.Cluster.Goroutines.{Goroutine, returns, calls, Group, Turn, begin, run}
use kontroller.Utils.Status.{CommandStatus, Marshal, StatusPatch}
use kontroller.Watcher.Commands.{OperatorCommand}
use Objects.{
  Registry, RegistryEnv, registry_cronjob_template, generate_cron_job_object, generate_job_object,
  generate_secret_object, generate_config_map_object, is_registry_command,
}

module _ {S : Type 0} where
  -- `if err != nil { return err }`
  abbrev pub unless_failed : Option String → Goroutine S → Goroutine S
  unless_failed none rest = rest
  unless_failed (some e) rest = returns (some e)

  abbrev pub with_value {ℓ} : {A : Type ℓ} → Result A → (A → Goroutine S) → Goroutine S
  with_value (err e) next = returns (some e)
  with_value (ok a) next = next a

module _ {S : Type 0} (api : Api S) (env : RegistryEnv) where
  -- `rest` is what the goroutine does next.
  unfoldable pub upsert_resource : (k : Kind) → Held k → String → (rest : Goroutine S) → Goroutine S
  upsert_resource k a name rest = unless_failed (env.unstructured k a) (
      calls (λ s. (api.write Verb.apply k name a s).1)
        (λ s. unless_failed (api.write Verb.apply k name a s).0 rest))

  unfoldable pub upsert_secret : Registry → Goroutine S
  upsert_secret r =
      with_value (generate_secret_object env r)
        (λ a. upsert_resource Kind.secrets a a.name (returns none))

  unfoldable pub upsert_config_map : Registry → Goroutine S
  upsert_config_map r =
      with_value (generate_config_map_object env r)
        (λ a. upsert_resource Kind.config_maps a a.name (returns none))

  -- The call that reads the template, and what follows.
  abbrev with_template {ℓ} :
      {A : Type ℓ} → (Result (Held Kind.config_maps) → Result A) → (A → Goroutine S) → Goroutine S
  with_template generate next =
      calls (λ s. s)
        (λ s. with_value (generate (api.get Kind.config_maps registry_cronjob_template s)) next)

  unfoldable pub upsert_cron_job : Registry → Goroutine S
  upsert_cron_job r =
      if r.scan_frequency == ""
      then returns none
      else with_template (generate_cron_job_object env r)
          (λ a. upsert_resource Kind.cron_jobs a r.resource_name (returns none))

  unfoldable pub upsert_jobs : (trigger_now : Bool) → Registry → Goroutine S
  upsert_jobs trigger_now r =
      if trigger_now
      then with_template (generate_job_object env r)
          (λ a. upsert_resource Kind.jobs a r.resource_name (upsert_cron_job r))
      else upsert_cron_job r

  -- The group, as it stands after the goroutines have taken these turns.
  abbrev pub upserting : (trigger_now : Bool) → Registry → List Turn → S → Group S
  upserting trigger_now r ts s =
      run ts (begin (upsert_secret r) (upsert_config_map r) (upsert_jobs trigger_now r) s)

  abbrev pub waited : Group S → Ended (Unit {0}) × S
  waited g = (elim g.error [ none ↦ returned tt | some e ↦ failed e ], g.store)

  -- `turns` is the order in which the goroutines run.
  unfoldable pub upsert_registry :
      List Turn → (body : String) → (trigger_now : Bool) → Prog S (Unit {0})
  upsert_registry turns body trigger_now = do
    r ← given (env.unmarshal_registry body)
    λ s. waited (upserting trigger_now r turns s)

  unfoldable pub delete_registry : (body : String) → Prog S (Unit {0})
  delete_registry body = do
    r ← given (env.unmarshal_registry body)
    call (api.delete Kind.cron_jobs r.resource_name)
    call (api.delete Kind.secrets r.resource_name)
    call (api.delete Kind.config_maps r.resource_name)

  unfoldable pub check_registry : (body : String) → Prog S String
  check_registry body = do
    r ← given (env.unmarshal_registry body)
    names ← given (env.list_repositories r)
    given (env.marshal_repositories names)

  -- The switch of `Start`: what a command returns is its payload, which only a check has.
  unfoldable pub run_registry_command : List Turn → OperatorCommand → Prog S String
  run_registry_command turns c =
      if c.command_type == env.create_registry
      then (upsert_registry turns c.body true >> pure "")
      else if c.command_type == env.update_registry
      then (upsert_registry turns c.body false >> pure "")
      else if c.command_type == env.delete_registry
      then (delete_registry c.body >> pure "")
      else if c.command_type == env.check_registry
      then check_registry c.body
      else pure ""

  -- The status that `Start` fills, begun at one time and completed at another.
  unfoldable pub registry_status : (started completed : ℕ) → Result String → CommandStatus
  registry_status started completed r = record {
    executer = "operator";
    started = true;
    started_at = started;
    completed = true;
    completed_at = completed;
    payload = elim r [ ok payload ↦ payload | err e ↦ "" ];
    error = elim r [ ok payload ↦ none | err e ↦ some e ];
  }

  unfoldable pub patch_command_status :
      Marshal → OperatorCommand → CommandStatus → Option StatusPatch
  patch_command_status json c st = elim (json.status st) [
    | none ↦ none
    | some body ↦ some (record { namespace = c.namespace; name = c.name; body = body })
  ]

  -- the error as a value
  abbrev pub caught : Ended String × S → Ended (Result String) × S
  caught (returned payload, s) = (returned (ok payload), s)
  caught (failed e, s) = (returned (err e), s)
  caught (panicked, s) = (panicked, s)

  -- One turn of the loop of `Start`: the patch that is sent, if any.
  unfoldable pub handle_registry_command :
      Marshal → (started completed : ℕ) → List Turn → OperatorCommand → Prog S (Option StatusPatch)
  handle_registry_command json started completed turns c =
      if not (is_registry_command env c.command_type) then pure none else do
        r ← λ s. caught (run_registry_command turns c s)
        pure (patch_command_status json c (registry_status started completed r))
