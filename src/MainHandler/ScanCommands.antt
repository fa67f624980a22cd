-- ===== src/MainHandler/ScanCommands.antt =====
-- mainhandler/vulnscan.go: the commands that scan an image or an application profile, and the
-- session that they belong to.
pub mod Laws
use kontroller.Base.{
  ℕ, String, ◌≡◌, ◌≢◌, ◌↔◌, refl, Bool, true, not, ◌&&◌, List, [], ◌∷◌, ◌++◌, ◌==◌, arith,
  if◌then◌else◌, contains, Result, ok, err, Option, none, some, inl, inr, eq_iff, eq_refl,
  Option-cases, Result-cases,
}
use kontroller.Base.Dict.{Dict, lookup, insert}
use kontroller.Config.{OperatorConfig}
use kontroller.Utils.Types.{
  SessionObj, ContainerData, Arg, args_name, args_namespace, args_pod, args_container_data,
  container_data, pod, Pod, text, scan_v1,
}
use Prim.Native.String.{◌++◌ as str_append}

pub record SessionChain : Type 0 where
  pub job_ids : List String
  pub root_job_id : String
  pub action_title : String
  pub timestamp : ℕ

-- `registry.AuthConfig`
pub record AuthConfig : Type 0 where
  pub username : String
  pub password : String
  pub server_address : String

-- The values of a scan command's `Args`: those of the API command, a nil interface if it has none
-- under the name, and flags.
pub data ScanArg : Type 0 where
  value : Option Arg → ScanArg
  flag : Bool → ScanArg

pub record WebsocketScanCommand : Type 0 where
  pub wlid : String
  pub container_name : String
  pub image_tag : String
  pub image_hash : String
  pub instance_id : Option String
  pub credentials_list : List AuthConfig
  pub args : Dict ScanArg
  pub session : SessionChain
  pub job_id : String
  pub parent_job_id : String

-- `ImageScanConfig`; the flags may be nil pointers.
pub record ImageScanConfig : Type 0 where
  pub auth_configs : List AuthConfig
  pub skip_tls_verify : Option Bool
  pub insecure : Option Bool

-- The names of `armoapi-go`: two attributes and two commands.
pub record ScanNames : Type 0 where
  pub attribute_skip_tls_verify : String
  pub attribute_use_http : String
  pub scan_application_profile : String
  pub scan_images : String

-- The scanner's two paths, and a command of neither kind.
pub data ScanTarget : Type 0 where
  ap_scan cve_scan unknown_command : ScanTarget

abbrev no_session : SessionChain
no_session = record { job_ids = []; root_job_id = ""; action_title = ""; timestamp = 0 }

abbrev add_parent : String → SessionChain → SessionChain
add_parent parent s =
    if parent == ""
    then s
    else record s { job_ids = s.job_ids ++ parent ∷ []; root_job_id = parent }

abbrev add_job : String → SessionChain → SessionChain
add_job job s = record s {
  job_ids = s.job_ids ++ job ∷ [];
  root_job_id = if s.root_job_id == "" then job else s.root_job_id;
}

abbrev add_missing : String → SessionChain → SessionChain
add_missing id s =
    if not (id == "") && not (contains s.job_ids id)
    then record s { job_ids = s.job_ids ++ id ∷ [] }
    else s

-- `prepareSessionChain`, which is always called with the handler's own session; `uuid` is fresh.
unfoldable pub prepare_session_chain :
    SessionObj → String → WebsocketScanCommand → WebsocketScanCommand
prepare_session_chain s uuid c =
    let chain =
      add_missing s.job_id
        (add_missing s.parent_job_id (add_job s.job_id (add_parent s.parent_job_id c.session))) in
    record c {
      session = record chain { job_ids = chain.job_ids ++ uuid ∷ [] };
      parent_job_id = s.job_id;
      job_id = uuid;
    }

abbrev pub set_flag : String → Option Bool → Dict ScanArg → Dict ScanArg
set_flag name none args = args
set_flag name (some b) args = if b then insert name (flag true) args else args

-- The command before its session is prepared.
abbrev pub unprepared :
    ScanNames → SessionObj → ContainerData → ImageScanConfig → WebsocketScanCommand
unprepared names s d config = record {
  wlid = d.wlid;
  container_name = d.container_name;
  image_tag = d.image_tag;
  image_hash = d.image_id;
  instance_id = if d.slug == "" then none else some d.slug;
  credentials_list = config.auth_configs;
  args =
      set_flag names.attribute_use_http config.insecure
        (set_flag names.attribute_skip_tls_verify config.skip_tls_verify []);
  session = record {
    job_ids = [];
    root_job_id = "";
    action_title = s.command.command_name;
    timestamp = s.timestamp;
  };
  job_id = s.job_id;
  parent_job_id = "";
}

unfoldable pub get_image_scan_command :
    ScanNames → SessionObj → String → ContainerData → ImageScanConfig → WebsocketScanCommand
get_image_scan_command names s uuid d config =
    prepare_session_chain s uuid (unprepared names s d config)

-- `sendCommandToScanner`: where a command is sent
unfoldable pub target_of : ScanNames → String → ScanTarget
target_of names command =
    if command == names.scan_application_profile
    then ap_scan
    else if command == names.scan_images
    then cve_scan
    else unknown_command

-- What a handler sends, or the error that it returns first.
pub record ScanSent : Type 0 where
  pub target : ScanTarget
  pub command : WebsocketScanCommand

abbrev pub pod_of : Option Arg → Option Pod
pod_of none = none
pod_of (some (pod p)) = some p
pod_of (some (text _)) = none
pod_of (some (container_data _)) = none
pod_of (some (scan_v1 _)) = none

abbrev pub container_data_of_arg : Option Arg → Option ContainerData
container_data_of_arg none = none
container_data_of_arg (some (container_data d)) = some d
container_data_of_arg (some (pod _)) = none
container_data_of_arg (some (text _)) = none
container_data_of_arg (some (scan_v1 _)) = none

-- `image_scan_config` is `getImageScanConfig`, for the pod, if any, and the image's tag.
pub record ScanEnv : Type 0 where
  pub names : ScanNames
  pub config : OperatorConfig
  pub image_scan_config : Option Pod → String → Result ImageScanConfig
  pub uuid : String

module _ (env : ScanEnv) (s : SessionObj) where
  unfoldable pub with_config : ContainerData → Result ImageScanConfig → Result ScanSent
  with_config d (err _) = err (str_append "failed to get auth config for image " d.image_tag)
  with_config d (ok config) = ok (record {
    target = target_of env.names s.command.command_name;
    command = get_image_scan_command env.names s env.uuid d config;
  })

  unfoldable pub with_data : Option Pod → Option ContainerData → Result ScanSent
  unfolding with_config
  with_data p none = err "failed to get container for image"
  with_data p (some d) = with_config d (env.image_scan_config p d.image_tag)

  unfoldable pub scan_image : Result ScanSent
  unfolding with_data
  scan_image =
      if not env.config.components.components.kubevuln.enabled
      then err "kubevuln is not enabled"
      else with_data (pod_of (lookup args_pod s.command.args))
          (container_data_of_arg (lookup args_container_data s.command.args))

  -- `wlid` is the handler's: the command's, if it is a workload's.
  unfoldable pub scan_application_profile : String → Result ScanSent
  scan_application_profile wlid =
      if not env.config.components.components.kubevuln.enabled
      then err "kubevuln is not enabled"
      else ok (record {
        target = target_of env.names env.names.scan_application_profile;
        command = prepare_session_chain s env.uuid (record {
          wlid = wlid;
          container_name = "";
          image_tag = "";
          image_hash = "";
          instance_id = none;
          credentials_list = [];
          args =
              ("name", value (lookup args_name s.command.args))
              ∷ ("namespace", value (lookup args_namespace s.command.args))
              ∷ [];
          session = no_session;
          job_id = "";
          parent_job_id = "";
        });
      })
