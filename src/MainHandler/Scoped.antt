-- ===== src/MainHandler/Scoped.antt =====
-- `HandleScopedRequest` of mainhandler/handlerequests.go: a command with a scope is run once for each
-- pod in it. The Kubernetes API, the identifier library and the handler of single requests are the
-- environment.
use kontroller.Base.{
  ℕ, String, ◌≡◌, refl, Bool, Option, none, some, List, [], ◌∷◌, ◌++◌, ◌==◌, if◌then◌else◌, Result,
  ok, err, is_empty, length, arith, Bool-cases, inl, inr, sym, is_some,
}
use mathlib.Core.List.{append-nil, append_assoc}
use kontroller.Config.{OperatorConfig, skip_namespace, cluster_name}
use kontroller.Utils.Types.{Pod, Command, SessionObj, new_session_obj}
use kontroller.Utils.Status.{
  Marshal, StatusPatch, set_operator_command_status, with_error, with_success, with_multiple_errors,
}
use Prim.Native.String.{◌++◌ as str_append}

-- `list_pods` is what the pager yields for a namespace and the command's selectors, and its error, if it
-- ends with one; `get_wlid cluster namespace name` is the identifier of a pod; `is_wlid_valid` is the
-- error of the check, if there is one; `get_id` is `GetID`; `run` is `HandleSingleRequest`.
pub record ScopedEnv : Type 0 where
  pub config : OperatorConfig
  pub list_pods : String → List Pod × Option String
  pub get_wlid : String → String → String → String
  pub is_wlid : String → Bool
  pub is_wlid_valid : String → Option String
  pub get_id : Command → String
  pub run : SessionObj → Result (Unit {0})
  pub uuid : ℕ → String
  pub now : ℕ

pub record Done : Type 0 where
  pub errors : List String
  pub commands : List Command

abbrev invalid_text : String → String → String
invalid_text e id = str_append "invalid: " (str_append e (str_append ", id: '" (str_append id "'")))

module _ (env : ScopedEnv) (request : SessionObj) where
  abbrev pub pod_id : Pod → String
  pod_id p = env.get_wlid (cluster_name env.config) p.namespace p.name

  -- The command for a pod: the request's, without its scope.
  abbrev pub command_of_pod : Pod → Command
  command_of_pod p = record request.command {
    wlid = if env.is_wlid (pod_id p) then pod_id p else request.command.wlid;
    wild_wlid = "";
    designators = [];
  }

  -- Why a pod's command is not run, if it is not.
  abbrev pub invalid : Pod → Option String
  invalid p = if env.is_wlid (pod_id p) then env.is_wlid_valid (pod_id p) else some "unknown id"

  abbrev with_answer : Result (Unit {0}) → Done → Done
  with_answer (err e) s = record s { errors = s.errors ++ e ∷ [] }
  with_answer (ok _) s = s

  unfoldable pub run_pod : Pod → Done → Done
  run_pod p s = elim (invalid p) [
    | some e ↦ record s { errors = s.errors ++ invalid_text e (env.get_id (command_of_pod p)) ∷ [] }
    | none ↦
        let c = command_of_pod p in
        let session =
          new_session_obj env.config c request.job_id "" env.now (env.uuid (length s.commands)) in
        with_answer (env.run session) (record s { commands = s.commands ++ c ∷ [] })
  ]

  unfoldable pub run_pods : List Pod → Done → Done
  run_pods [] s = s
  run_pods (p ∷ rest) s = run_pods rest (run_pod p s)

  abbrev with_error_of : Option String → Done → Done
  with_error_of none s = s
  with_error_of (some e) s = record s { errors = s.errors ++ e ∷ [] }

  unfoldable pub run_namespace : String → Done → Done
  run_namespace ns s =
      if skip_namespace env.config ns
      then s
      else with_error_of (env.list_pods ns).1 (run_pods (env.list_pods ns).0 s)

  unfoldable pub run_namespaces : List String → Done → Done
  run_namespaces [] s = s
  run_namespaces (ns ∷ rest) s = run_namespaces rest (run_namespace ns s)

  abbrev pub nothing_run : Done
  nothing_run = record { errors = []; commands = [] }

  abbrev report : Marshal → Result (List String) → Option StatusPatch
  report json (err e) = set_operator_command_status json request env.now (with_error e ∷ [])
  report json (ok namespaces) =
      let errors = (run_namespaces namespaces nothing_run).errors in
      set_operator_command_status json request env.now
        ((if is_empty errors then with_success else with_multiple_errors errors) ∷ [])

  -- What is reported; `id` is the command's id, without which nothing is done.
  unfoldable pub handle_scoped_request :
      Marshal → String → Result (List String) → Option StatusPatch
  handle_scoped_request json id namespaces = if id == "" then none else report json namespaces

  -- The pods for which a command should be run: each of a namespace that has a valid identifier.
  abbrev pub commands_of_pods : List Pod → List Command
  commands_of_pods [] = []
  commands_of_pods (p ∷ rest) =
      if is_some (invalid p)
      then commands_of_pods rest
      else command_of_pod p ∷ commands_of_pods rest

  abbrev pub commands_of_namespaces : List String → List Command
  commands_of_namespaces [] = []
  commands_of_namespaces (ns ∷ rest) =
      if skip_namespace env.config ns
      then commands_of_namespaces rest
      else commands_of_pods (env.list_pods ns).0 ++ commands_of_namespaces rest

  run_pod-commands :
      (p : Pod) (s : Done)
      → (run_pod p s).commands
        ≡ (if is_some (invalid p) then s.commands else s.commands ++ command_of_pod p ∷ [])
  unfolding run_pod
  run_pod-commands p s = ground arith

  run_pods-commands :
      (ps : List Pod) (s : Done) → (run_pods ps s).commands ≡ s.commands ++ commands_of_pods ps
  unfolding run_pods
  run_pods-commands [] s = sym (append-nil s.commands)
  run_pods-commands (p ∷ rest) s = elim (Bool-cases (is_some (invalid p))) [
    | inl y ↦ ground (arith, y, run_pods-commands rest (run_pod p s), run_pod-commands p s)
    | inr n ↦ ground (
      arith,
      n,
      run_pods-commands rest (run_pod p s),
      run_pod-commands p s,
      append_assoc s.commands (command_of_pod p ∷ []) (commands_of_pods rest),
    )
  ]

  error_of-commands : (e : Option String) (s : Done) → (with_error_of e s).commands ≡ s.commands
  error_of-commands none s = refl
  error_of-commands (some _) s = refl

  -- A scoped request runs its command once for each pod with a valid identifier that the API lists in the
  -- watched namespaces, in their order, whatever fails on the way: the errors stop neither the pods nor
  -- the namespaces that follow.
  pub run_namespaces-commands :
      (namespaces : List String) (s : Done)
      → (run_namespaces namespaces s).commands ≡ s.commands ++ commands_of_namespaces namespaces
  unfolding run_namespaces run_namespace
  run_namespaces-commands [] s = sym (append-nil s.commands)
  run_namespaces-commands (ns ∷ rest) s = elim (Bool-cases (skip_namespace env.config ns)) [
    | inl y ↦ ground (arith, y, run_namespaces-commands rest s)
    | inr n ↦
        let pods = (env.list_pods ns).0 in
        ground (
          arith,
          n,
          run_namespaces-commands rest (run_namespace ns s),
          error_of-commands (env.list_pods ns).1 (run_pods pods s),
          run_pods-commands pods s,
          append_assoc s.commands (commands_of_pods pods) (commands_of_namespaces rest),
        )
  ]
