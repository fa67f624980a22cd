-- ===== src/MainHandler/RegistryScans.antt =====
-- mainhandler/vulnscan.go: the scan of all images of a registry. What is posted to the scanner and
-- which status is reported is a log that the functions extend.
pub mod Prepared
pub mod Secrets
pub mod Reported
use Prim.Native.String.{◌++◌ as ◌<>◌, len, find, slice}
use kontroller.Base.{
  ℕ, suc, ◌+◌, String, Bool, true, false, not, Option, none, some, List, [], ◌∷◌, ◌++◌, ◌==◌,
  if◌then◌else◌, Result, ok, err, with_prefix, length, is_empty, ltb,
}
use kontroller.Base.Dict.{Dict, lookup}
use kontroller.Config.{OperatorConfig}
use kontroller.Utils.Types.{SessionObj, Arg, text, container_data, pod, scan_v1}
use kontroller.MainHandler.ScanCommands.{AuthConfig, SessionChain}
use kontroller.Cluster.Steps.{Prog, Ended, returned, failed, panicked, ◌>>=◌, ◌>>◌, given, pure}

-- The values of the arguments of a registry scan command.
pub data RegistryArg : Type 0 where
  named : String → RegistryArg
  flag : Bool → RegistryArg

-- `apis.RegistryScanCommand`
pub record RegistryScanCommand : Type 0 where
  pub parent_job_id : String
  pub job_id : String
  pub image_tag : String
  pub session : SessionChain
  pub args : Dict RegistryArg
  pub credentials_list : List AuthConfig

-- What is read of a `ContainerImageRegistry`.
pub record ImageRegistry : Type 0 where
  pub guid : String
  pub cluster_name : String
  pub display_name : String

-- The states of a registry scan that are reported.
pub data ScanStatus : Type 0 where
  completed_status failed_status in_progress_status : ScanStatus

pub record RegistryStatus : Type 0 where
  pub guid : String
  pub status : ScanStatus
  pub message : String

pub record ScanLog : Type 0 where
  pub posted : List RegistryScanCommand
  pub statuses : List RegistryStatus

-- The names of arguments and fields; the object that an argument is, if it is one; JSON; the data of
-- the secret of a name, and the client with it; fresh identifiers; the decimal digits of a number;
-- and `sendWorkloadToRegistryScan`, of a command: the error, if any.
pub record RegistryScanEnv : Type 0 where
  pub config : OperatorConfig
  pub registry_info_arg : String
  pub registry_secret_name_arg : String
  pub attribute_registry_name : String
  pub attribute_repository : String
  pub attribute_tag : String
  pub attribute_use_http : String
  pub attribute_skip_tls_verify : String
  pub attribute_sensor : String
  pub attribute_registry_id : String
  pub attribute_registry_scan_id : String
  pub attribute_registry_scan_images_count : String
  pub registry_auth_field_in_secret : String
  pub object_of : Option Arg → Option String
  pub marshal_object : String → Result String
  pub unmarshal_registry : String → Result ImageRegistry
  pub get_secret : (name : String) → Result (Dict String)
  pub unmarshal_secret : String → Result String
  pub fill_secret : (auth : String) → ImageRegistry → Result ImageRegistry
  pub get_registry_client : ImageRegistry → Result (Unit {0})
  pub get_images_to_scan : ImageRegistry → Result (List (String × String))
  pub get_docker_auth : ImageRegistry → Result AuthConfig
  pub scan_id : String
  pub uuid : ℕ → String
  pub decimal : ℕ → String
  pub send : RegistryScanCommand → Option String

abbrev pub no_images_to_scan_error : String
no_images_to_scan_error = "no images to scan"

-- `strings.SplitN(image, "/", 2)`: what follows the first slash, or the image if there is none.
unfoldable pub repository_of : String → String
repository_of image =
    let at = find image "/" in
    if ltb at (len image) then slice image (at + 1) (len image) else image

abbrev pub secret_name_of : Option Arg → Ended String
secret_name_of (some (text s)) = returned s
secret_name_of (some (container_data _)) = panicked
secret_name_of (some (pod _)) = panicked
secret_name_of (some (scan_v1 _)) = panicked
secret_name_of none = panicked

module _ (env : RegistryScanEnv) (s : SessionObj) where
  -- The command of one image; `i` counts the images, `count` is their number.
  unfoldable pub registry_scan_command :
      ImageRegistry → (count i : ℕ) → (image tag : String) → AuthConfig → RegistryScanCommand
  registry_scan_command r count i image tag auth = record {
    parent_job_id = s.job_id;
    job_id = env.uuid i;
    image_tag = image <> (":" <> tag);
    session = record {
      job_ids = [];
      root_job_id = "";
      action_title = "vulnerability-scan";
      timestamp = s.timestamp;
    };
    args =
        (env.attribute_registry_name, named r.display_name)
        ∷ (env.attribute_repository, named (repository_of image))
        ∷ (env.attribute_tag, named tag)
        ∷ (env.attribute_use_http, flag false)
        ∷ (env.attribute_skip_tls_verify, flag false)
        ∷ (env.attribute_sensor, named r.cluster_name)
        ∷ (env.attribute_registry_id, named r.guid)
        ∷ (env.attribute_registry_scan_id, named env.scan_id)
        ∷ (env.attribute_registry_scan_images_count, named (env.decimal count))
        ∷ [];
    credentials_list = auth ∷ [];
  }

  abbrev pub prepend_command :
      RegistryScanCommand → Result (List RegistryScanCommand) → Result (List RegistryScanCommand)
  prepend_command c (err e) = err e
  prepend_command c (ok rest) = ok (c ∷ rest)

  -- The loop over the images, which a map holds: they come in the order of the list.
  unfoldable pub commands_from :
      ImageRegistry → (count i : ℕ) → List (String × String) → Result (List RegistryScanCommand)
  commands_from r count i [] = ok []
  commands_from r count i ((image, tag) ∷ rest) = elim (env.get_docker_auth r) [
    | err e ↦ err ("failed to get docker auth with err " <> e)
    | ok auth ↦
        prepend_command (registry_scan_command r count i image tag auth)
          (commands_from r count (suc i) rest)
  ]

  unfoldable pub get_registry_image_scan_commands :
      ImageRegistry → List (String × String) → Result (List RegistryScanCommand)
  get_registry_image_scan_commands r images = commands_from r (length images) 0 images

  -- All commands are posted, whatever fails: the errors, in order.
  unfoldable pub send_errors : List RegistryScanCommand → List String
  send_errors [] = []
  send_errors (c ∷ rest) = elim (env.send c) [
    | none ↦ send_errors rest
    | some e ↦ e ∷ send_errors rest
  ]

  abbrev pub joined : String → List String → String
  joined so_far [] = so_far
  joined so_far (e ∷ rest) = joined (so_far <> ("; " <> e)) rest

  abbrev pub sent_end : List String → Ended (Unit {0})
  sent_end [] = returned tt
  sent_end (e ∷ rest) = failed (joined "sendAllImagesToRegistryScan errors: " (e ∷ rest))

  unfoldable pub send_all_images_to_registry_scan :
      List RegistryScanCommand → Prog ScanLog (Unit {0})
  send_all_images_to_registry_scan cs log =
      (sent_end (send_errors cs), record log { posted = log.posted ++ cs })

  unfoldable pub load_registry_secret : ImageRegistry → Prog ScanLog ImageRegistry
  load_registry_secret r = do
    name ← λ log. (secret_name_of (lookup env.registry_secret_name_arg s.command.args), log)
    fields ←
        given
          (with_prefix "loadRegistrySecret failed to get secret with err " (env.get_secret name))
    auth ← given (
        with_prefix "loadRegistrySecret failed to unmarshal registry secret with err " (
          env.unmarshal_secret
            (elim (lookup env.registry_auth_field_in_secret fields) [ none ↦ "" | some a ↦ a ])))
    given (
        with_prefix "loadRegistrySecret failed to fill registry secret with err "
          (env.fill_secret auth r))

  abbrev pub present : Option String → Ended String
  present none = panicked
  present (some object) = returned object

  unfoldable pub load_registry_from_session_obj : Prog ScanLog ImageRegistry
  load_registry_from_session_obj = do
    object ← λ log. (present (env.object_of (lookup env.registry_info_arg s.command.args)), log)
    bytes ← given (
        with_prefix "scanRegistriesV2 failed to marshal command arg with err "
          (env.marshal_object object))
    given (
        with_prefix "scanRegistriesV2 failed to unmarshal command with err "
          (env.unmarshal_registry bytes))

  -- `fmt.Errorf("<prefix> %v", err)`
  abbrev pub prefixed {ℓ} : {A : Type ℓ} → String → Ended A × ScanLog → Ended A × ScanLog
  prefixed prefix (returned a, log) = (returned a, log)
  prefixed prefix (failed e, log) = (failed (prefix <> e), log)
  prefixed prefix (panicked, log) = (panicked, log)

  abbrev pub images_or : List (String × String) → Result (List (String × String))
  images_or [] = err no_images_to_scan_error
  images_or (image ∷ rest) = ok (image ∷ rest)

  unfoldable pub scan_registries_v2 : ImageRegistry → Prog ScanLog (Unit {0})
  scan_registries_v2 registry = do
    r ← λ log. prefixed "failed to load secret with err " (load_registry_secret registry log)
    given (with_prefix "failed to get registry client with err " (env.get_registry_client r))
    images ←
        given
          (with_prefix "failed to get registry images to scan with err " (env.get_images_to_scan r))
    given (images_or images)
    cs ← given (
        with_prefix "failed to get registry images scan commands with err "
          (get_registry_image_scan_commands r images))
    λ log.
        prefixed "failed to send scan commands with err " (send_all_images_to_registry_scan cs log)

  abbrev pub report : ImageRegistry → ScanStatus → String → ScanLog → ScanLog
  report r status message log = record log {
    statuses = log.statuses ++ record { guid = r.guid; status = status; message = message } ∷ [];
  }

  -- What is reported of a scan that ended.
  abbrev pub settle : ImageRegistry → Ended (Unit {0}) × ScanLog → Ended (Unit {0}) × ScanLog
  settle r (returned _, log) = (returned tt, report r in_progress_status "" log)
  settle r (failed e, log) =
      if e == no_images_to_scan_error
      then (returned tt, report r completed_status "" log)
      else (failed e, report r failed_status e log)
  settle r (panicked, log) = (panicked, log)

  abbrev pub without_registry : String
  without_registry = "failed to load registry from sessionObj with err "

  -- What is done where the scanner is enabled.
  unfoldable pub scan_session : Prog ScanLog (Unit {0})
  scan_session = do
    r ← λ log. prefixed without_registry (load_registry_from_session_obj log)
    λ log. settle r (scan_registries_v2 r log)

  unfoldable pub scan_registries_v2_and_update_status : Prog ScanLog (Unit {0})
  scan_registries_v2_and_update_status =
      if env.config.components.components.kubevuln.enabled
      then scan_session
      else (λ log. (failed "kubevuln is not enabled", log))
