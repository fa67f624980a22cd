-- ===== src/Config.antt =====
-- config/config.go: the operator's configuration and the questions that the other packages put to
-- it. Durations are nanoseconds. Reading the files (viper, environment) is outside the model.
pub mod Laws
use kontroller.Base.{
  ℕ, String, Bool, true, false, not, ◌&&◌, List, ◌==◌, is_empty, contains, if◌then◌else◌, Result,
  ok, err, Option,
}

pub record Component : Type 0 where
  pub enabled : Bool

pub record Capabilities : Type 0 where
  pub configuration_scan : String
  pub continuous_scan : String
  pub network_generator : String
  pub node_scan : String
  pub otel : String
  pub relevancy : String
  pub runtime_observability : String
  pub node_sbom_generation : String
  pub seccomp : String
  pub vulnerability_scan : String
  pub admission_controller : String

pub record Components : Type 0 where
  pub host_scanner : Component
  pub kubescape : Component
  pub kubescape_scheduler : Component
  pub kubevuln : Component
  pub kubevuln_scheduler : Component
  pub node_agent : Component
  pub operator : Component
  pub otel_collector : Component
  pub persistence : Component
  pub service_discovery : Component
  pub storage : Component

pub record ServiceScanConfig : Type 0 where
  pub enabled : Bool
  pub interval : ℕ

pub record Server : Type 0 where
  pub account : String
  pub discovery_url : String
  pub otel_url : String

pub record Configurations : Type 0 where
  pub persistence : String
  pub server : Server

pub record CapabilitiesConfig : Type 0 where
  pub capabilities : Capabilities
  pub components : Components
  pub configurations : Configurations
  pub service_scan_config : ServiceScanConfig

-- `HTTPExporterConfig`, which the exporter reads, is not part of this record.
pub record Config : Type 0 where
  pub namespace : String
  pub rest_api_port : String
  pub clean_up_routine_interval : ℕ
  pub concurrency_workers : ℕ
  pub trigger_security_framework : Bool
  pub matching_rules_filename : String
  pub event_deduplication_interval : ℕ
  pub exclude_namespaces : List String
  pub include_namespaces : List String
  pub pod_scan_guard_time : ℕ

-- The fields of the mounted cluster file that the operator reads.
pub record ClusterConfig : Type 0 where
  pub kubevuln_url : String
  pub kubescape_url : String
  pub cluster_name : String

pub record OperatorConfig : Type 0 where
  pub service_config : Config
  pub components : CapabilitiesConfig
  pub cluster_config : ClusterConfig
  pub account_id : String
  pub access_key : String

unfoldable pub continuous_scan_enabled : OperatorConfig → Bool
continuous_scan_enabled c = c.components.capabilities.continuous_scan == "enable"

unfoldable pub admission_controller_enabled : OperatorConfig → Bool
admission_controller_enabled c = c.components.capabilities.admission_controller == "enable"

unfoldable pub node_sbom_generation_enabled : OperatorConfig → Bool
node_sbom_generation_enabled c = c.components.capabilities.node_sbom_generation == "enable"

abbrev pub components_of : OperatorConfig → Components
components_of c = c.components.components

abbrev pub cluster_name : OperatorConfig → String
cluster_name c = c.cluster_config.cluster_name

abbrev pub guard_time : OperatorConfig → ℕ
guard_time c = c.service_config.pod_scan_guard_time

-- The include list, where there is one, decides alone.
unfoldable pub skip_namespace : OperatorConfig → String → Bool
skip_namespace c ns =
    let include = c.service_config.include_namespaces in
    let exclude = c.service_config.exclude_namespaces in
    if not (is_empty include)
    then (if not (contains include ns) then true else false)
    else if not (is_empty exclude)
    then (if contains exclude ns then true else false)
    else false

unfoldable pub validate_config : OperatorConfig → Result (Unit {0})
validate_config c =
    if c.account_id == "" && c.components.components.service_discovery.enabled
    then err "missing account id"
    else if c.cluster_config.cluster_name == ""
    then err "missing cluster name in config"
    else ok tt
