-- ===== src/Tests/RegistryScans.antt =====
-- The scan of a registry with one image, and the credentials of an image.
use kontroller.Base.{◌≡◌, refl, true, none, some, [], ◌∷◌, ok}
use kontroller.Cluster.Steps.{returned, ◌>>=◌, given}
use kontroller.Utils.Types.{SessionObj, text}
use kontroller.MainHandler.ScanCommands.{AuthConfig}
use kontroller.MainHandler.RegistryScans.{
  ImageRegistry, RegistryScanEnv, scan_registries_v2_and_update_status,
  load_registry_from_session_obj,
}
use kontroller.MainHandler.RegistryScans.Reported.{
  IsReport, scan_registries_v2_and_update_status-IsReport,
}
use kontroller.MainHandler.Credentials.{
  CredentialsEnv, RegistryAuth, SecretWorkload, get_image_scan_config,
}
use kontroller.MainHandler.Credentials.Reference.{reference_config, get_image_scan_config_lem}
use kontroller.Tests.Fixtures.{sample_config, sample_session, sample_pod}

abbrev quay : ImageRegistry
quay = record { guid = "guid"; cluster_name = "prod"; display_name = "quay.io" }

abbrev auth : AuthConfig
auth = record { username = "user"; password = "secret"; server_address = "quay.io" }

abbrev env : RegistryScanEnv
env = record {
  config = sample_config;
  registry_info_arg = "registryInfo";
  registry_secret_name_arg = "registrySecretName";
  registry_auth_field_in_secret = "registriesAuth";
  attribute_registry_name = "registryName";
  attribute_repository = "repository";
  attribute_tag = "tag";
  attribute_use_http = "useHTTP";
  attribute_skip_tls_verify = "skipTLSVerify";
  attribute_sensor = "sensor";
  attribute_registry_id = "registryID";
  attribute_registry_scan_id = "registryScanID";
  attribute_registry_scan_images_count = "imagesCount";
  object_of = λ a. some "{}";
  marshal_object = λ o. ok o;
  unmarshal_registry = λ bytes. ok quay;
  get_secret = λ name. ok [];
  unmarshal_secret = λ bytes. ok bytes;
  fill_secret = λ a r. ok r;
  get_registry_client = λ r. ok tt;
  get_images_to_scan = λ r. ok (("quay.io/app", "1") ∷ []);
  get_docker_auth = λ r. ok auth;
  scan_id = "scan";
  uuid = λ i. "uuid";
  decimal = λ n. "1";
  send = λ c. none;
}

abbrev session : SessionObj
session = record sample_session {
  command = record sample_session.command { args = ("registrySecretName", text "quay") ∷ [] };
}

loaded :
    load_registry_from_session_obj env session (record { posted = []; statuses = [] })
    ≡ (returned quay, record { posted = []; statuses = [] })
unfolding load_registry_from_session_obj ◌>>=◌ given
loaded = refl

scan_registries_v2_and_update_status-IsReport_example :
    let (end, log) =
      scan_registries_v2_and_update_status env session (record { posted = []; statuses = [] }) in
    IsReport env session quay end log
scan_registries_v2_and_update_status-IsReport_example =
    scan_registries_v2_and_update_status-IsReport env session quay refl loaded

abbrev entry : RegistryAuth
entry = record {
  skip_tls_verify = some true;
  insecure = none;
  registry = "quay.io";
  username = "user";
  password = "secret";
}

abbrev secret : SecretWorkload
secret = record { name = "kubescape-registry-scan"; fields = ("registriesAuth", "e30=") ∷ [] }

abbrev credentials : CredentialsEnv
credentials = record {
  decode = λ t. ok t;
  unmarshal = λ t. ok (entry ∷ []);
  to_lower = λ t. t;
  without_line_breaks = λ t. t;
  get_secret = λ n. ok none;
  list_secrets = ok (secret ∷ []);
  convertible = λ s. true;
  parse_normalized_named = λ r. ok r;
  image_tag_to_registry = λ t. ok "quay.io";
  get_image_registry_credentials = λ t p. ok [];
}

get_image_scan_config_lem_example :
    get_image_scan_config credentials (some sample_pod) "quay.io/app:1"
    ≡ reference_config credentials (some sample_pod) "quay.io/app:1"
get_image_scan_config_lem_example =
    get_image_scan_config_lem credentials (some sample_pod) "quay.io/app:1"
