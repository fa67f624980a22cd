-- ===== src/ServiceHandler.antt =====
-- servicehandler: one cycle of service discovery. The ports of each service are scanned and the result is
-- applied as a custom resource; resources of services that are gone are deleted.
pub mod Cycle
use Prim.Native.String.{◌++◌ as str_append}
use kontroller.Base.{
  ℕ, zero, suc, String, Bool, true, false, not, Option, none, some, List, [], ◌∷◌, ◌++◌, ◌==◌,
  if◌then◌else◌, contains, Result, ok, err,
}
use kontroller.Watcher.Pod.{add}

pub record Port : Type 0 where
  pub port : ℕ
  pub protocol : String
  pub session_layer : String
  pub presentation_layer : String
  pub application_layer : String
  pub authenticated : Option Bool

pub record ServicePort : Type 0 where
  pub port : ℕ
  pub protocol : String

pub record Service : Type 0 where
  pub name : String
  pub namespace : String
  pub cluster_ip : String
  pub ports : List ServicePort

-- The custom resource of a service, by its namespace and name, with the ports as they were scanned.
pub record ServiceScanResult : Type 0 where
  pub name : String
  pub namespace : String
  pub cluster_ip : String
  pub ports : List Port

-- What `ScanTargets` of the network scanner finds.
pub record Scanned : Type 0 where
  pub session_layer : String
  pub presentation_layer : String
  pub application_layer : String
  pub is_authenticated : Bool

-- The network scanner, by the DNS name and the port, and the answers of the API to an apply and to a
-- deletion, by namespace and name. `list_error` is there if the pager that lists the custom resources
-- ends with an error: how many it yields before.
pub record DiscoveryEnv : Type 0 where
  pub scan_targets : String → ℕ → Result Scanned
  pub apply_answer : String → String → Result (Unit {0})
  pub delete_answer : String → String → Result (Unit {0})
  pub list_error : Option ℕ

unfoldable pub k8s_ports_translator : List ServicePort → List Port
k8s_ports_translator [] = []
k8s_ports_translator (p ∷ rest) =
    record {
      port = p.port;
      protocol = p.protocol;
      session_layer = "";
      presentation_layer = "";
      application_layer = "";
      authenticated = none;
    }
    ∷ k8s_ports_translator rest

abbrev key : String → String → String
key namespace name = str_append namespace (str_append "/" name)

abbrev pub key_of_service : Service → String
key_of_service s = key s.namespace s.name

abbrev pub key_of_result : ServiceScanResult → String
key_of_result r = key r.namespace r.name

module _ (env : DiscoveryEnv) where
  abbrev with_scan : Port → Result Scanned → Port
  with_scan p (err _) = p
  with_scan p (ok r) = record p {
    session_layer = r.session_layer;
    presentation_layer = r.presentation_layer;
    application_layer = r.application_layer;
    authenticated = if r.application_layer == "" then p.authenticated else some r.is_authenticated;
  }

  -- `scan` of a port; those of the protocol UDP are left out by `serviceScan`.
  unfoldable pub scan_ports : String → List Port → List Port
  scan_ports dns [] = []
  scan_ports dns (p ∷ rest) =
      (if p.protocol == "UDP" then p else with_scan p (env.scan_targets dns p.port))
      ∷ scan_ports dns rest

  -- `serviceScan`, up to the call of the API: what is applied
  unfoldable pub service_scan : Service → ServiceScanResult
  service_scan s = record {
    name = s.name;
    namespace = s.namespace;
    cluster_ip = s.cluster_ip;
    ports =
        scan_ports (str_append s.name (str_append "." s.namespace)) (k8s_ports_translator s.ports);
  }

  -- An apply replaces the resource of the same namespace and name.
  unfoldable pub remove_result : String → List ServiceScanResult → List ServiceScanResult
  remove_result k [] = []
  remove_result k (r ∷ rest) =
      let others = remove_result k rest in if key_of_result r == k then others else r ∷ others

  abbrev apply_crd :
      ServiceScanResult → Result (Unit {0}) → List ServiceScanResult → List ServiceScanResult
  apply_crd r (err _) store = store
  apply_crd r (ok _) store = r ∷ remove_result (key_of_result r) store

  -- The first half of `discoveryService`. The pool may scan the services in any order: this is the one
  -- that the list has.
  unfoldable pub scan_services : List Service → List ServiceScanResult → List ServiceScanResult
  scan_services [] store = store
  scan_services (s ∷ rest) store =
      scan_services rest (apply_crd (service_scan s) (env.apply_answer s.namespace s.name) store)

  -- The set of the services of this cycle.
  abbrev pub current_services : List Service → List String
  current_services [] = []
  current_services (s ∷ rest) = add (key_of_service s) (current_services rest)

  is_deleted : Result (Unit {0}) → Bool
  is_deleted (err _) = false
  is_deleted (ok _) = true

  -- The resource of a turn of `deleteServices`: a deletion that fails is only logged.
  unfoldable pub visit :
      List String → ServiceScanResult → List ServiceScanResult → List ServiceScanResult
  unfolding is_deleted
  visit current r others =
      if contains current (key_of_result r)
      then r ∷ others
      else if is_deleted (env.delete_answer r.namespace r.name)
      then others
      else r ∷ others

  unfoldable pub delete_listed : List String → List ServiceScanResult → List ServiceScanResult
  delete_listed current [] = []
  delete_listed current (r ∷ rest) = visit current r (delete_listed current rest)

  -- The pass ends early: the resources that the pager did not yield stay.
  unfoldable pub delete_first : List String → ℕ → List ServiceScanResult → List ServiceScanResult
  delete_first current n [] = []
  delete_first current zero (r ∷ rest) = r ∷ rest
  delete_first current (suc n) (r ∷ rest) = visit current r (delete_first current n rest)

  -- What `deleteServices` leaves.
  unfoldable pub delete_services : List String → List ServiceScanResult → List ServiceScanResult
  delete_services current store = elim env.list_error [
    | none ↦ delete_listed current store
    | some n ↦ delete_first current n store
  ]

  -- The services come with the error of their pager, if it ends with one, which is ignored: those that
  -- it did not yield are not of this cycle.
  unfoldable pub discovery_service :
      List Service × Option String → List ServiceScanResult → List ServiceScanResult
  discovery_service (services, error) store =
      delete_services (current_services services) (scan_services services store)
