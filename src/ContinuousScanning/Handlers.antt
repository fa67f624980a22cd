-- ===== src/ContinuousScanning/Handlers.antt =====
-- continuousscanning/handlers.go and `work` of service.go: what the two event handlers do with an
-- event of a watched resource.
pub mod Scans
use kontroller.Base.{
  String, ◌≡◌, ◌≢◌, ◌↔◌, refl, Bool, true, false, not, ◌&&◌, ◌||◌, Option, none, some, List, [],
  ◌∷◌, ◌++◌, ◌==◌, arith, if◌then◌else◌, contains, Result, ok, err, Bool-cases, Result-cases, inl,
  inr,
}
use kontroller.Watcher.Event.{EventType, added, modified, deleted, bookmark, error}

-- An unstructured object; `has_parent` is what `WorkloadHasParent` says of it.
pub record Resource : Type 0 where
  pub kind : String
  pub name : String
  pub namespace : String
  pub has_parent : Bool

pub record ResourceEvent : Type 0 where
  pub type : EventType
  pub object : Resource

-- The command of `makeScanCommand`, with the fields that are set.
pub record ScanCommand : Type 0 where
  pub command_name : String
  pub wlid : String
  pub scan_object : Option Resource
  pub is_deleted_scan_object : Bool
  pub host_scanner : Bool

-- What a handler asks of the storage and of the pool.
pub data Effect : Type 0 where
  delete_scan delete_summary : String → String → Effect
  trigger : ScanCommand → Effect

-- The libraries, the storage and the pool: what they answer.
pub record HandlerEnv : Type 0 where
  pub cluster : String
  pub run_kubescape : String
  pub get_k8s_wlid : String → String → String → String → String
  pub new_scan_object : Resource → Option Resource
  pub to_unstructured : Resource → Result (Unit {0})
  pub resource_to_slug : Resource → Result String
  pub delete_scan_answer : String → String → Result (Unit {0})

abbrev pub orphanable_workload_types : List String
orphanable_workload_types = "Pod" ∷ "ReplicaSet" ∷ "Job" ∷ []

-- A workload of one of the three kinds that has a parent.
unfoldable pub is_orphan_workload : Resource → Bool
is_orphan_workload r = contains orphanable_workload_types r.kind && r.has_parent

abbrev pub is_trigger_type : EventType → Bool
is_trigger_type added = true
is_trigger_type modified = true
is_trigger_type deleted = false
is_trigger_type bookmark = false
is_trigger_type error = false

abbrev pub is_deleted : EventType → Bool
is_deleted added = false
is_deleted modified = false
is_deleted deleted = true
is_deleted bookmark = false
is_deleted error = false

module _ (env : HandlerEnv) where
  unfoldable pub make_scan_command : Resource → Bool → ScanCommand
  make_scan_command r deletion = record {
    command_name = env.run_kubescape;
    wlid = env.get_k8s_wlid env.cluster r.namespace r.kind r.name;
    scan_object = env.new_scan_object r;
    is_deleted_scan_object = deletion;
    host_scanner = false;
  }

  unfoldable pub on_trigger : Resource → Result (Unit {0}) → List Effect
  on_trigger r (err _) = []
  on_trigger r (ok _) =
      if is_orphan_workload r then [] else trigger (make_scan_command r false) ∷ []

  -- `Handle` of `poolInvokerHandler`
  unfoldable pub invoker_handle : ResourceEvent → List Effect
  unfolding on_trigger
  invoker_handle e =
      if not (is_trigger_type e.type)
      then []
      else on_trigger e.object (env.to_unstructured e.object)

  unfoldable pub after_scan : String → String → Result (Unit {0}) → List Effect
  after_scan ns name (err _) = []
  after_scan ns name (ok _) = delete_summary ns name ∷ []

  unfoldable pub artifacts_of : String → Result String → List Effect
  unfolding after_scan
  artifacts_of ns (err _) = []
  artifacts_of ns (ok name) =
      delete_scan ns name ∷ after_scan ns name (env.delete_scan_answer ns name)

  -- The summary is left where the scan could not be deleted.
  unfoldable pub delete_scan_artifacts : Resource → List Effect
  unfolding artifacts_of
  delete_scan_artifacts r = artifacts_of r.namespace (env.resource_to_slug r)

  unfoldable pub on_deleted : Resource → Result (Unit {0}) → List Effect
  on_deleted r (err _) = []
  on_deleted r (ok _) =
      if is_orphan_workload r
      then []
      else delete_scan_artifacts r ++ trigger (make_scan_command r true) ∷ []

  -- `Handle` of `deletedCleanerHandler`
  unfoldable pub cleaner_handle : ResourceEvent → List Effect
  unfolding on_deleted
  cleaner_handle e =
      if not (is_deleted e.type) then [] else on_deleted e.object (env.to_unstructured e.object)

  -- The loop of `work`, with the two handlers of the program: an error of one is only logged.
  unfoldable pub work : List ResourceEvent → List Effect
  work [] = []
  work (e ∷ rest) = (invoker_handle e ++ cleaner_handle e) ++ work rest
