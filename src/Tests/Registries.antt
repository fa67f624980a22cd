-- ===== src/Tests/Registries.antt =====
-- A registry, inserted into an empty cluster and deleted again.
use kontroller.Base.{
  String, ◌≡◌, ◌≢◌, refl, true, false, Option, none, some, List, [], ◌∷◌, arith, Result, ok, err,
  inl, eq_iff,
}
use kontroller.Base.Dict.{lookup, insert, remove}
use kontroller.Cluster.{Kind, CronJob, ConfigMap}
use kontroller.Cluster.Steps.{returned, failed, ended, ◌>>=◌, call, given}
use kontroller.Cluster.Goroutines.{Turn, first, second, third, HasReturned, run, turn, advance}
use kontroller.Utils.Status.{CommandStatus}
use kontroller.Watcher.Commands.{OperatorCommand}
use kontroller.Watcher.Registry.{
  upserting, upsert_secret, upsert_config_map, upsert_jobs, upsert_cron_job, upsert_resource,
  delete_registry, run_registry_command, handle_registry_command, patch_command_status,
}
use kontroller.Watcher.Registry.Objects.{
  Registry, RegistryEnv, generate_secret_object, generate_config_map_object, generate_job_object,
  generate_cron_job_object, get_command_for_config_map, template_of, is_registry_command,
}
use kontroller.Watcher.Registry.Stored.{HasSecret, HasRequest, HasJob, HasSchedule}
use kontroller.Watcher.Registry.Upserted.{upserting-Stored}
use kontroller.Watcher.Registry.Finished.{upserting-HasReturned, upserting_healthy, IsHealthy}
use kontroller.Watcher.Registry.Deleted.{unscheduled_is_kept, upsert_then_delete}
use kontroller.Watcher.Registry.Handled.{handle_registry_command_lem, IsSilent}
use kontroller.Tests.Cluster.{Store, obedient, found}
use kontroller.Tests.Fixtures.{sample_json}

abbrev registry : Registry
registry = record {
  resource_name = "quay";
  scan_frequency = "0 1 * * *";
  info = "quay.io";
  auth = "token";
}

abbrev template : ConfigMap
template = record {
  name = "registry-scan-cronjob-template";
  namespace = "kubescape";
  labels = [];
  contents = ("cronjobTemplate", "yaml") ∷ [];
}

abbrev pub parsed : CronJob
parsed = record {
  name = "template";
  namespace = "kubescape";
  labels = [];
  schedule = "";
  time_zone = none;
  job = record {
    annotations = [];
    volumes =
        record { name = "request-body-volume"; config_map = some "template" }
        ∷ record { name = "secret-volume"; config_map = none }
        ∷ [];
    rest = "";
  };
}

abbrev env : RegistryEnv
env = record {
  namespace = "kubescape";
  create_registry = "CreateRegistry";
  update_registry = "UpdateRegistry";
  delete_registry = "DeleteRegistry";
  check_registry = "CheckRegistry";
  request_volume_name = "request-body-volume";
  auth_field_in_secret = "auth";
  command_body = "command";
  scan_registry_v2 = "scanRegistryV2";
  secret_type_opaque = "Opaque";
  unmarshal_registry = λ body. ok registry;
  marshal_auth = λ auth. ok auth;
  marshal_commands = λ cs. ok "commands";
  unmarshal_cron_job = λ text. ok parsed;
  unstructured = λ k a. none;
  list_repositories = λ r. ok [];
  marshal_repositories = λ names. ok "[]";
}

abbrev pub empty_store : Store
empty_store = record {
  cron_jobs = [];
  config_maps = ("registry-scan-cronjob-template", template) ∷ [];
  secrets = [];
  jobs = [];
}

abbrev turns : List Turn
turns = third ∷ first ∷ third ∷ second ∷ third ∷ third ∷ first ∷ second ∷ third ∷ []

turns_suffice : HasReturned (upserting obedient env true registry turns empty_store)
turns_suffice =
    upserting-HasReturned obedient env registry true turns empty_store (ground arith) (ground arith)
      (ground arith)

no_failure : (upserting obedient env true registry turns empty_store).error ≡ none
unfolding run turn advance upsert_secret upsert_config_map upsert_jobs upsert_cron_job
    upsert_resource generate_secret_object generate_config_map_object generate_job_object
    generate_cron_job_object get_command_for_config_map template_of lookup insert
no_failure = refl

upserting-Stored_example :
    let u = (upserting obedient env true registry turns empty_store).store in
    HasSecret obedient env registry u
    × HasRequest obedient env registry u
    × (true ≡ true → HasJob obedient env registry u)
    × (registry.scan_frequency ≢ "" → HasSchedule obedient env registry u)
upserting-Stored_example =
    upserting-Stored obedient env registry true turns empty_store turns_suffice no_failure

found-some {ℓ} : {A : Type ℓ} (o : Option A) (a : A) → o ≡ some a → found o ≡ ok a
found-some o a h = rw h refl

healthy : IsHealthy obedient env registry
unfolding get_command_for_config_map
healthy = record {
  auth = ("token", refl);
  request = ("commands", refl);
  convertible = λ k a. refl;
  writable = λ k n a u. refl;
  readable = λ n u t h. found-some (lookup n u.config_maps) t h;
  named = λ e. ground (arith, eq_iff "quay" "registry-scan-cronjob-template", e);
}

upserting_healthy_example : (upserting obedient env true registry turns empty_store).error ≡ none
unfolding lookup
upserting_healthy_example =
    upserting_healthy obedient env registry healthy true turns empty_store
      (template, "yaml", parsed, refl, refl, refl)

deletion_succeeds :
    (delete_registry obedient env ""
      (upserting obedient env true registry turns empty_store).store).0
    ≡ returned tt
unfolding run turn advance upsert_secret upsert_config_map upsert_jobs upsert_cron_job
    upsert_resource generate_secret_object generate_config_map_object generate_job_object
    generate_cron_job_object get_command_for_config_map template_of lookup insert remove
    delete_registry ◌>>=◌ given call
deletion_succeeds = refl

upsert_then_delete_example :
    (obedient.held Kind.secrets "quay"
      (delete_registry obedient env ""
        (upserting obedient env true registry turns empty_store).store).1)
    ≡ none
unfolding lookup
upsert_then_delete_example =
    upsert_then_delete obedient env "" registry true turns empty_store refl (refl, refl, refl)
      deletion_succeeds Kind.secrets "quay" (inl refl)

unscheduled_is_kept_example :
    let (end, u) = delete_registry obedient env "" empty_store in
    ((e : String) × (end ≡ failed e))
    × (obedient.held Kind.secrets "quay" u ≡ obedient.held Kind.secrets "quay" empty_store)
    × (obedient.held Kind.config_maps "quay" u ≡ obedient.held Kind.config_maps "quay" empty_store)
unfolding lookup
unscheduled_is_kept_example = unscheduled_is_kept obedient env "" registry empty_store refl refl

abbrev delete_command : OperatorCommand
delete_command = record {
  namespace = "kubescape";
  name = "delete-quay";
  creation_timestamp = 100;
  completed = false;
  guid = "guid";
  command_type = "DeleteRegistry";
  body = "quay";
}

handle_registry_command_lem_example :
    (is_registry_command env "DeleteRegistry" ≡ false
      → handle_registry_command obedient env sample_json 1 2 turns delete_command empty_store
        ≡ (returned none, empty_store))
    × (is_registry_command env "DeleteRegistry" ≡ true
        → (r : Result String) × (st : CommandStatus) × ((run_registry_command obedient env turns
              delete_command empty_store).0
            ≡ ended r)
          × (handle_registry_command obedient env sample_json 1 2 turns delete_command empty_store
              ≡ (
                returned (patch_command_status obedient env sample_json delete_command st),
                (run_registry_command obedient env turns delete_command empty_store).1,
              ))
          × (st.completed ≡ true)
          × ((e : String) → r ≡ err e → (st.error ≡ some e) × (st.payload ≡ ""))
          × ((p : String) → r ≡ ok p → (st.error ≡ none) × (st.payload ≡ p))
          × (delete_command.command_type ≢ env.check_registry → IsSilent obedient env r))
handle_registry_command_lem_example =
    handle_registry_command_lem obedient env sample_json 1 2 turns delete_command empty_store
