-- ===== src/Tests/Scopes.antt =====
-- A scoped image scan, at concrete inputs.
use kontroller.MainHandler.Scoped.{
  ScopedEnv, run_namespaces, nothing_run, commands_of_namespaces, run_namespaces-commands,
}
use kontroller.Base.{
  String, ◌≡◌, ◌≢◌, refl, true, none, some, List, [], ◌∷◌, ◌++◌, All, ok, err, Memᴰ, arith, eq_iff,
}
use kontroller.Base.Dict.{lookup}
use kontroller.Utils.Images.{
  pod_to_container_data, get_parent_id_for_pod, get_image, get_image_from_spec,
  get_image_from_status, extract_image_id,
}
use kontroller.Utils.Profile.{
  get_application_profile_for_relevancy_scan, skip_application_profile,
  get_application_profile_scan_command,
}
use kontroller.MainHandler.Images.Repeated.{profile_scanned_twice}
use kontroller.Utils.Types.{Command, InstanceId, ContainerData, Pod}
use kontroller.MainHandler.Images.{ScopeEnv, scan_namespaces, scan_instances, nothing_done}
use kontroller.MainHandler.Images.Scope.{IsTriggered, scan_namespaces_sound}
use kontroller.Tests.Fixtures.{
  sample_pod, sample_env, sample_config, sample_apis, sample_session, sample_instance, sample_data,
  sample_parents, sample_keys, sample_profile, profile_of_web,
}

abbrev scope_env : ScopeEnv
scope_env = record {
  config = sample_config;
  pods = sample_env;
  workloads = record { to_unstructured = λ p. ok tt; has_parent = λ p. true };
  list_pods = λ ns. (sample_pod ∷ [], none);
  run = λ s. ok tt;
  uuid = λ n. "uuid";
  now = 9;
}

scan_namespaces_sound_example :
    (new : List Command) × ((scan_namespaces scope_env sample_session
        ("shop" ∷ [])
        (nothing_done scope_env sample_session)).triggered
      ≡ [] ++ new)
    × All
        (λ c. (ns : String) × Memᴰ ns ("shop" ∷ []) × IsTriggered scope_env sample_session ns c)
        new
scan_namespaces_sound_example =
    scan_namespaces_sound scope_env sample_session ("shop" ∷ [])
      (nothing_done scope_env sample_session)

-- A pod with two containers, and the instance and the data of the second.
abbrev two_containers : Pod
two_containers = record sample_pod {
  containers =
      record { name = "nginx"; image = "nginx:1" }
      ∷ record { name = "sidecar"; image = "proxy:2" }
      ∷ [];
  container_statuses =
      record {
        name = "nginx";
        image = "nginx:1";
        image_id = "docker-pullable://nginx@sha256:1";
        running = true;
      }
      ∷ record {
        name = "sidecar";
        image = "proxy:2";
        image_id = "docker-pullable://proxy@sha256:2";
        running = true;
      }
      ∷ [];
}

abbrev sidecar_instance : InstanceId
sidecar_instance = record sample_instance {
  slug = "web-sidecar";
  container_name = "sidecar";
  string_formatted = "web/sidecar";
}

abbrev sidecar_data : ContainerData
sidecar_data = record sample_data {
  image_tag = "proxy:2";
  image_id = "proxy@sha256:2";
  instance_id = "web/sidecar";
  container_name = "sidecar";
  slug = "web-sidecar";
}

nginx_known :
    pod_to_container_data sample_parents two_containers sample_instance "prod" ≡ ok sample_data
unfolding pod_to_container_data get_parent_id_for_pod get_image get_image_from_spec
    get_image_from_status extract_image_id
nginx_known = refl

sidecar_known :
    pod_to_container_data sample_parents two_containers sidecar_instance "prod" ≡ ok sidecar_data
unfolding pod_to_container_data get_parent_id_for_pod get_image get_image_from_spec
    get_image_from_status extract_image_id
sidecar_known = refl

profile_known :
    get_application_profile_for_relevancy_scan sample_keys profile_of_web "web" "shop"
    ≡ some sample_profile
unfolding get_application_profile_for_relevancy_scan skip_application_profile lookup
profile_known = refl

other_slug : sidecar_instance.slug ≢ sample_instance.no_container_slug
other_slug e = ground (arith, e, eq_iff "web-sidecar" "web")

profile_scanned_twice_example :
    let c = get_application_profile_scan_command sample_keys sample_apis sample_profile in
    (scan_instances scope_env sample_session "shop" two_containers
      (sample_instance ∷ sidecar_instance ∷ [])
      (nothing_done scope_env sample_session)).triggered
    ≡ [] ++ c ∷ c ∷ []
profile_scanned_twice_example =
    profile_scanned_twice scope_env sample_session "shop" two_containers sample_instance
      sidecar_instance sample_data sidecar_data sample_profile
      (nothing_done scope_env sample_session) nginx_known sidecar_known profile_known refl refl refl
      other_slug

-- A scoped request whose handler fails for every pod.
abbrev scoped_env : ScopedEnv
scoped_env = record {
  config = sample_config;
  list_pods = λ ns. (sample_pod ∷ two_containers ∷ [], none);
  get_wlid = λ cluster ns name. name;
  is_wlid = λ id. true;
  is_wlid_valid = λ id. none;
  get_id = λ c. c.wlid;
  run = λ s. err "refused";
  uuid = λ n. "uuid";
  now = 9;
}

run_namespaces-commands_example :
    (run_namespaces scoped_env sample_session
      ("shop" ∷ "kube-system" ∷ [])
      (nothing_run scoped_env sample_session)).commands
    ≡ [] ++ commands_of_namespaces scoped_env sample_session ("shop" ∷ "kube-system" ∷ [])
run_namespaces-commands_example =
    run_namespaces-commands scoped_env sample_session ("shop" ∷ "kube-system" ∷ [])
      (nothing_run scoped_env sample_session)
