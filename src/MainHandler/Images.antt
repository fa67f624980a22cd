-- ===== src/MainHandler/Images.antt =====
-- `HandleImageScanningScopedRequest` of mainhandler/handlerequests.go: the image scans of all the
-- containers in a scope. The slugs that are marked are those that were scanned without an error.
pub mod Scope
pub mod Repeated
use kontroller.Base.{
  ℕ, ◌+◌, String, ◌≡◌, ◌≢◌, refl, Bool, true, false, not, ◌&&◌, ◌||◌, Option, none, some, List, [],
  ◌∷◌, ◌++◌, ◌==◌, if◌then◌else◌, contains, Result, ok, err, is_empty, ltb, length,
}
use kontroller.Config.{OperatorConfig, skip_namespace, guard_time}
use kontroller.Utils.Types.{Pod, InstanceId, ContainerData, Command, SessionObj, new_session_obj}
use kontroller.Utils.Images.{pod_to_container_data}
use kontroller.Utils.Profile.{
  ApplicationProfile, get_application_profile_for_relevancy_scan,
  get_application_profile_scan_command,
}
use kontroller.Utils.Status.{
  Marshal, StatusPatch, set_operator_command_status, with_error, with_success, with_multiple_errors,
}
use kontroller.Watcher.Pod.{PodEnv, add, scan_image_command}
use kontroller.Watcher.Feeds.{WorkloadEnv, pod_running}

-- `list_pods` is what the pager yields for a namespace, and its error, if it ends with one; `run` is
-- `HandleSingleRequest`; `uuid n` is the identifier of the n-th session.
pub record ScopeEnv : Type 0 where
  pub config : OperatorConfig
  pub pods : PodEnv
  pub workloads : WorkloadEnv
  pub list_pods : String → List Pod × Option String
  pub run : SessionObj → Result (Unit {0})
  pub uuid : ℕ → String
  pub now : ℕ

pub record Progress : Type 0 where
  pub slugs : List String
  pub errors : List String
  pub triggered : List Command

module _ (env : ScopeEnv) (request : SessionObj) where
  -- One command: it is run, and the slug is marked if it returns no error.
  abbrev pub finish : String → Result (Unit {0}) → Progress → Progress
  finish slug (err e) s = record s { errors = s.errors ++ e ∷ [] }
  finish slug (ok _) s = record s { slugs = add slug s.slugs }

  unfoldable pub trigger : String → Command → Progress → Progress
  trigger slug c s =
      let session =
        new_session_obj env.config c request.job_id "" env.now (env.uuid (length s.triggered)) in
      finish slug (env.run session) (record s { triggered = s.triggered ++ c ∷ [] })

  unfoldable pub scan_container : String → Pod → InstanceId → ContainerData → Progress → Progress
  scan_container ns p i d s =
      elim (get_application_profile_for_relevancy_scan env.pods.metadata env.pods.get_profile
        i.no_container_slug ns) [
          | some profile ↦
              trigger i.no_container_slug
                (get_application_profile_scan_command env.pods.metadata env.pods.apis profile) s
          | none ↦ trigger i.slug (scan_image_command env.pods.apis p d) s
        ]

  unfoldable pub with_data : String → Pod → InstanceId → Result ContainerData → Progress → Progress
  with_data ns p i (err _) s = s
  with_data ns p i (ok d) s = scan_container ns p i d s

  unfoldable pub scan_instance : String → Pod → InstanceId → Progress → Progress
  scan_instance ns p i s =
      if contains s.slugs i.slug
      then s
      else with_data ns p i (pod_to_container_data env.pods.parents p i env.pods.cluster) s

  unfoldable pub scan_instances : String → Pod → List InstanceId → Progress → Progress
  scan_instances ns p [] s = s
  scan_instances ns p (i ∷ rest) s = scan_instances ns p rest (scan_instance ns p i s)

  unfoldable pub with_instances : String → Pod → Result (List InstanceId) → Progress → Progress
  with_instances ns p (err _) s = s
  with_instances ns p (ok ids) s =
      if not (env.workloads.has_parent p)
        && ltb env.now (p.creation_timestamp + guard_time env.config)
      then s
      else scan_instances ns p ids s

  unfoldable pub with_workload : String → Pod → Result (Unit {0}) → Progress → Progress
  with_workload ns p (err _) s = s
  with_workload ns p (ok _) s = with_instances ns p (env.pods.generate_instance_id p) s

  unfoldable pub scan_pod : String → Pod → Progress → Progress
  scan_pod ns p s =
      if not (p.phase == pod_running)
      then s
      else with_workload ns p (env.workloads.to_unstructured p) s

  unfoldable pub scan_pods : String → List Pod → Progress → Progress
  scan_pods ns [] s = s
  scan_pods ns (p ∷ rest) s = scan_pods ns rest (scan_pod ns p s)

  abbrev pub add_error : Option String → Progress → Progress
  add_error none s = s
  add_error (some e) s = record s { errors = s.errors ++ e ∷ [] }

  unfoldable pub scan_namespace : String → Progress → Progress
  scan_namespace ns s =
      if skip_namespace env.config ns
      then s
      else add_error (env.list_pods ns).1 (scan_pods ns (env.list_pods ns).0 s)

  unfoldable pub scan_namespaces : List String → Progress → Progress
  scan_namespaces [] s = s
  scan_namespaces (ns ∷ rest) s = scan_namespaces rest (scan_namespace ns s)

  abbrev pub nothing_done : Progress
  nothing_done = record { slugs = []; errors = []; triggered = [] }

  report : Marshal → List String → Option StatusPatch
  report json errors =
      set_operator_command_status json request env.now
        ((if is_empty errors then with_success else with_multiple_errors errors) ∷ [])

  with_namespaces : Marshal → Result (List String) → Progress × Option StatusPatch
  unfolding report
  with_namespaces json (err e) =
      (nothing_done, set_operator_command_status json request env.now (with_error e ∷ []))
  with_namespaces json (ok namespaces) =
      let done = scan_namespaces namespaces nothing_done in (done, report json done.errors)

  -- `id` is the command's id; without one nothing is done or reported.
  unfoldable pub handle_image_scanning_scoped_request :
      Marshal → String → Result (List String) → Progress × Option StatusPatch
  unfolding with_namespaces
  handle_image_scanning_scoped_request json id namespaces =
      if id == "" then (nothing_done, none) else with_namespaces json namespaces
