-- ===== src/Tests/Fixtures.antt =====
-- A deployment with one container, the libraries' answers about it, and a configuration.
use Prim.Native.String.{◌++◌}
use kontroller.Base.{String, true, false, none, some, [], ◌∷◌, ◌==◌, if◌then◌else◌, Option, ok}
use kontroller.Config.{OperatorConfig, Component}
use kontroller.Utils.Types.{
  Pod, InstanceId, InstanceType, ContainerData, CommandNames, Command, new_command, SessionObj,
  args_container_data, container_data,
}
use kontroller.Utils.Images.{Parents}
use kontroller.Utils.Profile.{MetadataKeys, ApplicationProfile}
use kontroller.Utils.Status.{Marshal}
use kontroller.Watcher.Pod.{PodEnv, WatchHandler}

abbrev pub on : Component
on = record { enabled = true }

abbrev pub sample_config : OperatorConfig
sample_config = record {
  service_config = record {
    namespace = "kubescape";
    rest_api_port = "4002";
    clean_up_routine_interval = 600;
    concurrency_workers = 3;
    trigger_security_framework = false;
    matching_rules_filename = "/etc/rules.json";
    event_deduplication_interval = 120;
    exclude_namespaces = "kube-system" ∷ [];
    include_namespaces = [];
    pod_scan_guard_time = 3600;
  };
  components = record {
    capabilities = record {
      configuration_scan = "enable";
      continuous_scan = "enable";
      network_generator = "enable";
      node_scan = "enable";
      otel = "enable";
      relevancy = "enable";
      runtime_observability = "enable";
      node_sbom_generation = "enable";
      seccomp = "enable";
      vulnerability_scan = "enable";
      admission_controller = "enable";
    };
    components = record {
      host_scanner = on;
      kubescape = on;
      kubescape_scheduler = on;
      kubevuln = on;
      kubevuln_scheduler = on;
      node_agent = on;
      operator = on;
      otel_collector = on;
      persistence = on;
      service_discovery = on;
      storage = on;
    };
    configurations = record {
      persistence = "enable";
      server = record { account = ""; discovery_url = ""; otel_url = "" };
    };
    service_scan_config = record { enabled = false; interval = 60 };
  };
  cluster_config = record {
    kubevuln_url = "kubevuln:8080";
    kubescape_url = "kubescape:8080";
    cluster_name = "prod";
  };
  account_id = "account";
  access_key = "key";
}

abbrev pub sample_pod : Pod
sample_pod = record {
  name = "web-1";
  namespace = "shop";
  phase = "Running";
  creation_timestamp = 0;
  node_name = "node-1";
  owner_references = record { kind = "ReplicaSet"; name = "web-rs" } ∷ [];
  containers = record { name = "nginx"; image = "nginx:1" } ∷ [];
  init_containers = [];
  container_statuses =
      record {
        name = "nginx";
        image = "nginx:1";
        image_id = "docker-pullable://nginx@sha256:1";
        running = true;
      }
      ∷ [];
  init_container_statuses = [];
  ephemeral_container_statuses = [];
}

abbrev pub sample_instance : InstanceId
sample_instance = record {
  slug = "web-nginx";
  no_container_slug = "web";
  container_name = "nginx";
  instance_type = InstanceType.container;
  string_formatted = "web/nginx";
}

abbrev pub sample_parents : Parents
sample_parents = record {
  new_workload = λ p. ok (record { namespace = p.namespace; name = p.name });
  parent_recursive = λ w. ("Deployment", "web", none);
  get_wlid = λ cluster ns kind name. cluster ++ (ns ++ (kind ++ name));
}

abbrev pub sample_data : ContainerData
sample_data = record {
  image_tag = "nginx:1";
  image_id = "nginx@sha256:1";
  instance_id = "web/nginx";
  container_name = "nginx";
  container_type = InstanceType.container;
  slug = "web-nginx";
  wlid = "prodshopDeploymentweb";
}

abbrev pub sample_keys : MetadataKeys
sample_keys = record {
  completion = "completion";
  complete = "complete";
  status = "status";
  ready = "ready";
  completed = "completed";
  instance_id = "instance-id";
  wlid = "wlid";
  image_id = "image-id";
  image_tag = "image-tag";
}

abbrev pub sample_profile : ApplicationProfile
sample_profile = record {
  name = "web";
  namespace = "shop";
  annotations =
      ("completion", "complete")
      ∷ ("status", "ready")
      ∷ ("instance-id", "web/nginx")
      ∷ ("wlid", "prodshopDeploymentweb")
      ∷ [];
}

abbrev pub sample_apis : CommandNames
sample_apis = record {
  scan_images = "scan";
  scan_application_profile = "scanApplicationProfile";
  run_kubescape = "kubescapeScan";
  run_kubescape_job = "runKubescapeJob";
  set_kubescape_cron_job = "setKubescapeCronJob";
  update_kubescape_cron_job = "updateKubescapeCronJob";
  delete_kubescape_cron_job = "deleteKubescapeCronJob";
  set_vuln_scan_cron_job = "setVulnScanCronJob";
  update_vuln_scan_cron_job = "updateVulnScanCronJob";
  delete_vuln_scan_cron_job = "deleteVulnScanCronJob";
  scan_registry_v2 = "scanRegistryV2";
}

abbrev pub profile_of_web : String → String → Option ApplicationProfile
profile_of_web slug ns = if slug == "web" then some sample_profile else none

abbrev pub sample_env : PodEnv
sample_env = record {
  apis = sample_apis;
  metadata = sample_keys;
  parents = sample_parents;
  cluster = "prod";
  generate_instance_id = λ _. ok (sample_instance ∷ []);
  get_profile = profile_of_web;
}

abbrev pub no_caches : WatchHandler
no_caches = record { slug_to_image_id = []; wlid_and_image_id = [] }

abbrev pub sample_command : Command
sample_command =
    new_command "scan" "prodshopDeploymentweb"
      ((args_container_data, container_data sample_data) ∷ [])

abbrev pub sample_session : SessionObj
sample_session = record {
  customer_guid = "account";
  job_id = "job";
  timestamp = 7;
  command = sample_command;
  parent_job_id = "parent";
  parent_command_details =
      some (record { namespace = "kubescape"; name = "scan-now"; started_at = 7 });
}

abbrev pub sample_json : Marshal
sample_json = record { messages = λ _. some "messages"; status = λ _. some "status" }
