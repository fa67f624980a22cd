-- ===== src/MainHandler/ScanCommands/Laws.antt =====
-- What the scans of mainhandler/vulnscan.go send, and the session chain.
use Prim.Native.String.{◌++◌ as ◌<>◌}
use kontroller.Base.{
  Bool, false, none, Result, err, String, ◌≡◌, ◌≢◌, refl, true, [], ◌∷◌, arith, ok, Option, some,
  eq_iff, eq_refl,
}
use kontroller.Base.Dict.{Dict, lookup}
use kontroller.Utils.Types.{SessionObj, ContainerData, args_pod, args_container_data}
use kontroller.MainHandler.ScanCommands.{
  ScanEnv, ScanSent, ImageScanConfig, WebsocketScanCommand, pod_of, container_data_of_arg, ScanArg,
  flag, SessionChain, ScanTarget, ap_scan, cve_scan, unknown_command, prepare_session_chain,
}

-- For a session with a job and a command with an empty chain: the chain becomes the session's
-- parent, if it has one, its job and the new job, in this order. The root is the parent or else
-- the job, the command's parent is the session's job, and its job is the new one.
pub prepare_session_chain_lem :
    (s : SessionObj) (uuid : String) (c : WebsocketScanCommand)
    → c.session.job_ids ≡ []
    → c.session.root_job_id ≡ ""
    → s.job_id ≢ ""
    → let d = prepare_session_chain s uuid c in
      (d.job_id ≡ uuid)
      × (d.parent_job_id ≡ s.job_id)
      × (s.parent_job_id ≡ ""
          → (d.session.job_ids ≡ s.job_id ∷ uuid ∷ []) × (d.session.root_job_id ≡ s.job_id))
      × (s.parent_job_id ≢ ""
          → (d.session.job_ids ≡ s.parent_job_id ∷ s.job_id ∷ uuid ∷ [])
            × (d.session.root_job_id ≡ s.parent_job_id))
unfolding prepare_session_chain
prepare_session_chain_lem s uuid c e f n = (
  refl,
  refl,
  λ h. ground (
    arith,
    e,
    f,
    n,
    h,
    eq_iff s.job_id "",
    eq_iff s.parent_job_id "",
    eq_iff "" "",
    eq_refl s.job_id,
  ),
  λ h. ground (
    arith,
    e,
    f,
    n,
    h,
    eq_iff s.job_id "",
    eq_iff s.parent_job_id "",
    eq_iff "" "",
    eq_refl s.job_id,
    eq_refl s.parent_job_id,
  ),
)

-- The argument of a flag that is on; a flag that is off or missing has none.
abbrev pub flag_if : Option Bool → Option ScanArg
flag_if none = none
flag_if (some false) = none
flag_if (some true) = some (flag true)

module _ (env : ScanEnv) (s : SessionObj) where
  -- The data of the container that a session's command is about.
  abbrev pub container_of : Option ContainerData
  container_of = container_data_of_arg (lookup args_container_data s.command.args)

  -- Where the scanner is sent a command, by the name of the session's command.
  pub data IsTarget (name : String) : ScanTarget → Type 0 where
    profile_scan : name ≡ env.names.scan_application_profile → IsTarget name ap_scan
    image_scan :
        name ≢ env.names.scan_application_profile
        → name ≡ env.names.scan_images
        → IsTarget name cve_scan
    no_scan :
        name ≢ env.names.scan_application_profile
        → name ≢ env.names.scan_images
        → IsTarget name unknown_command

  -- The jobs of a session, from its parent, if it has one, to the new one; the first is the root.
  abbrev pub IsChain : SessionChain → Type 0
  IsChain c =
      (s.parent_job_id ≡ "" → (c.job_ids ≡ s.job_id ∷ env.uuid ∷ []) × (c.root_job_id ≡ s.job_id))
      × (s.parent_job_id ≢ ""
          → (c.job_ids ≡ s.parent_job_id ∷ s.job_id ∷ env.uuid ∷ [])
            × (c.root_job_id ≡ s.parent_job_id))

  -- The command that has a container's image scanned with a configuration.
  pub record IsCommandFor (d : ContainerData) (config : ImageScanConfig) (c : WebsocketScanCommand)
      : Type 0 where
    pub wlid : c.wlid ≡ d.wlid
    pub container_name : c.container_name ≡ d.container_name
    pub image_tag : c.image_tag ≡ d.image_tag
    pub image_hash : c.image_hash ≡ d.image_id
    pub no_instance : d.slug ≡ "" → c.instance_id ≡ none
    pub instance : d.slug ≢ "" → c.instance_id ≡ some d.slug
    pub credentials : c.credentials_list ≡ config.auth_configs
    pub use_http : lookup env.names.attribute_use_http c.args ≡ flag_if config.insecure
    pub skip_tls_verify :
        lookup env.names.attribute_skip_tls_verify c.args ≡ flag_if config.skip_tls_verify
    pub action : c.session.action_title ≡ s.command.command_name
    pub timestamp : c.session.timestamp ≡ s.timestamp
    pub job_id : c.job_id ≡ env.uuid
    pub parent_job_id : c.parent_job_id ≡ s.job_id
    pub chain : IsChain c.session

  abbrev config_of : ContainerData → Result ImageScanConfig
  config_of d = env.image_scan_config (pod_of (lookup args_pod s.command.args)) d.image_tag

  -- How a request to scan an image ends, and why.
  pub data IsScanned : Result ScanSent → Type 0 where
    disabled :
        env.config.components.components.kubevuln.enabled ≡ false
        → IsScanned (err "kubevuln is not enabled")
    no_container :
        env.config.components.components.kubevuln.enabled ≡ true
        → container_of ≡ none
        → IsScanned (err "failed to get container for image")
    no_config :
        env.config.components.components.kubevuln.enabled ≡ true
        → (d : ContainerData) → container_of ≡ some d
        → (e : String) → config_of d ≡ err e
        → IsScanned (err ("failed to get auth config for image " <> d.image_tag))
    sent :
        env.config.components.components.kubevuln.enabled ≡ true
        → (d : ContainerData) → container_of ≡ some d
        → (config : ImageScanConfig) → config_of d ≡ ok config
        → (r : ScanSent) → IsTarget s.command.command_name r.target
        → IsCommandFor d config r.command
        → IsScanned (ok r)
