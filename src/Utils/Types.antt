-- ===== src/Utils/Types.antt =====
-- utils/types.go and utils/typesutils.go, with the fields of Kubernetes and Armo objects that the
-- operator reads. Times are nanoseconds since the epoch.
use kontroller.Base.{ℕ, String, Bool, Option, none, some, List, [], ◌==◌, if◌then◌else◌}
use kontroller.Base.Dict.{Dict}
use kontroller.Config.{OperatorConfig}

pub record ContainerStatus : Type 0 where
  pub name : String
  pub image : String
  pub image_id : String
  pub running : Bool

pub record Container : Type 0 where
  pub name : String
  pub image : String

pub record OwnerReference : Type 0 where
  pub kind : String
  pub name : String

pub record Pod : Type 0 where
  pub name : String
  pub namespace : String
  pub phase : String
  pub creation_timestamp : ℕ
  pub node_name : String
  pub owner_references : List OwnerReference
  pub containers : List Container
  pub init_containers : List Container
  pub container_statuses : List ContainerStatus
  pub init_container_statuses : List ContainerStatus
  pub ephemeral_container_statuses : List ContainerStatus

pub data InstanceType : Type 0 where
  container init_container ephemeral_container : InstanceType

-- `IInstanceID`: what its methods return. `slug` is `GetSlug(false)`, `no_container_slug` is
-- `GetSlug(true)`.
pub record InstanceId : Type 0 where
  pub slug : String
  pub no_container_slug : String
  pub container_name : String
  pub instance_type : InstanceType
  pub string_formatted : String

pub record ContainerData : Type 0 where
  pub image_tag : String
  pub image_id : String
  pub instance_id : String
  pub container_name : String
  pub container_type : InstanceType
  pub slug : String
  pub wlid : String

pub record ScanRequest : Type 0 where
  pub target_type : String
  pub target_names : List String
  pub is_deleted : Option Bool
  pub host_scanner : Option Bool

-- The dynamic types that the values of a command's `Args` have.
pub data Arg : Type 0 where
  text : String → Arg
  container_data : ContainerData → Arg
  pod : Pod → Arg
  scan_v1 : ScanRequest → Arg

pub record JobTracking : Type 0 where
  pub parent_id : String
  pub job_id : String

pub record Command : Type 0 where
  pub command_name : String
  pub wlid : String
  pub wild_wlid : String
  pub wild_sid : String
  pub designators : List (Dict String)
  pub args : Dict Arg
  pub job_tracking : JobTracking

-- The command names of `armoapi-go/apis`.
pub record CommandNames : Type 0 where
  pub scan_images : String
  pub scan_application_profile : String
  pub run_kubescape : String
  pub run_kubescape_job : String
  pub set_kubescape_cron_job : String
  pub update_kubescape_cron_job : String
  pub delete_kubescape_cron_job : String
  pub set_vuln_scan_cron_job : String
  pub update_vuln_scan_cron_job : String
  pub delete_vuln_scan_cron_job : String
  pub scan_registry_v2 : String

-- `utils.CommandScanApplicationProfile` and the argument names
abbrev pub command_scan_application_profile : String
command_scan_application_profile = "scanApplicationProfile"

abbrev pub args_name : String
args_name = "name"

abbrev pub args_namespace : String
args_namespace = "namespace"

abbrev pub args_container_data : String
args_container_data = "containerData"

abbrev pub args_pod : String
args_pod = "pod"

abbrev pub kubescape_scan_v1 : String
kubescape_scan_v1 = "scanV1"

abbrev pub no_tracking : JobTracking
no_tracking = record { parent_id = ""; job_id = "" }

-- A command with the zero value in every field but these three.
abbrev pub new_command : String → String → Dict Arg → Command
new_command name wlid args = record {
  command_name = name;
  wlid = wlid;
  wild_wlid = "";
  wild_sid = "";
  designators = [];
  args = args;
  job_tracking = no_tracking;
}

-- The operator command (a custom resource) that a session reports to.
pub record OperatorCommandDetails : Type 0 where
  pub namespace : String
  pub name : String
  pub started_at : ℕ

pub record SessionObj : Type 0 where
  pub customer_guid : String
  pub job_id : String
  pub timestamp : ℕ
  pub command : Command
  pub parent_job_id : String
  pub parent_command_details : Option OperatorCommandDetails

-- `uuid` is the fresh identifier, and `now` the time, that the environment supplies.
unfoldable pub new_session_obj :
    OperatorConfig → Command → String → String → ℕ → String → SessionObj
new_session_obj config command parent_job_id job_id now uuid = record {
  customer_guid = config.account_id;
  job_id = if job_id == "" then uuid else job_id;
  timestamp = now;
  command = command;
  parent_job_id = parent_job_id;
  parent_command_details = none;
}

unfoldable pub set_operator_command_details : SessionObj → OperatorCommandDetails → SessionObj
set_operator_command_details s d = record s { parent_command_details = some d }
