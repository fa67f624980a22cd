-- ===== src/MainHandler/Requests.antt =====
-- mainhandler/handlerequests.go: how a command that the pool takes is handled (`handleRequest`,
-- `HandleSingleRequest` and `runCommand`), the namespaces of a scoped request (`getNamespaces`),
-- and what a startup action waits for.
use kontroller.Base.{
  ℕ, String, ◌≡◌, ◌↔◌, Bool, true, false, not, ◌&&◌, ◌||◌, List, [], ◌∷◌, ◌==◌, arith,
  if◌then◌else◌, contains, Result, ok, err, Option, none, some, Bool-cases, inl, inr, ◌⊎◌, Memᴰ,
  eq_iff, is_empty, contains_iff, not-contains_iff,
}
use kontroller.Base.Dict.{Dict, lookup}
use kontroller.Utils.Types.{Command, CommandNames, SessionObj, command_scan_application_profile}
use kontroller.Utils.Status.{
  Marshal, StatusPatch, StatusOption, set_operator_command_status, with_error, with_success,
}

pub data Route : Type 0 where
  image_scoped scoped single : Route

-- The handlers of `runCommand`.
pub data Action : Type 0 where
  scan_image scan_application_profile kubescape_scan set_kubescape_cron_job
        update_kubescape_cron_job delete_kubescape_cron_job set_vuln_scan_cron_job
        update_vuln_scan_cron_job delete_vuln_scan_cron_job scan_registries_v2 not_found :
      Action

module _ (apis : CommandNames) where
  -- The commands that are never itemized.
  abbrev pub unscoped_commands : List String
  unscoped_commands =
      apis.run_kubescape ∷ apis.run_kubescape_job ∷ apis.set_kubescape_cron_job
      ∷ apis.delete_kubescape_cron_job ∷ apis.update_kubescape_cron_job
      ∷ apis.set_vuln_scan_cron_job ∷ apis.delete_vuln_scan_cron_job
      ∷ apis.update_vuln_scan_cron_job ∷ []

  abbrev pub has_scope : Command → Bool
  has_scope c = not (c.wild_wlid == "") || (not (c.wild_sid == "") || not (is_empty c.designators))

  unfoldable pub route : Command → Route
  route c =
      if has_scope c && not (contains unscoped_commands c.command_name)
      then (if c.command_name == apis.scan_images then image_scoped else scoped)
      else single

  -- the switch of `runCommand`, whose cases are tried in order
  unfoldable pub action_of : String → Action
  action_of n =
      if n == apis.scan_images
      then scan_image
      else if n == command_scan_application_profile
      then scan_application_profile
      else if n == apis.run_kubescape || n == apis.run_kubescape_job
      then kubescape_scan
      else if n == apis.set_kubescape_cron_job
      then set_kubescape_cron_job
      else if n == apis.update_kubescape_cron_job
      then update_kubescape_cron_job
      else if n == apis.delete_kubescape_cron_job
      then delete_kubescape_cron_job
      else if n == apis.set_vuln_scan_cron_job
      then set_vuln_scan_cron_job
      else if n == apis.update_vuln_scan_cron_job
      then update_vuln_scan_cron_job
      else if n == apis.delete_vuln_scan_cron_job
      then delete_vuln_scan_cron_job
      else if n == apis.scan_registry_v2
      then scan_registries_v2
      else not_found

  -- `run` is what the handler of an action returns; a command that is not found is no error.
  unfoldable pub handle_single_request :
      (Action → SessionObj → Result (Unit {0})) → SessionObj → Result (Unit {0})
  handle_single_request run s = elim (action_of s.command.command_name) [
    | scan_image ↦ run scan_image s
    | scan_application_profile ↦ run scan_application_profile s
    | kubescape_scan ↦ run kubescape_scan s
    | set_kubescape_cron_job ↦ run set_kubescape_cron_job s
    | update_kubescape_cron_job ↦ run update_kubescape_cron_job s
    | delete_kubescape_cron_job ↦ run delete_kubescape_cron_job s
    | set_vuln_scan_cron_job ↦ run set_vuln_scan_cron_job s
    | update_vuln_scan_cron_job ↦ run update_vuln_scan_cron_job s
    | delete_vuln_scan_cron_job ↦ run delete_vuln_scan_cron_job s
    | scan_registries_v2 ↦ run scan_registries_v2 s
    | not_found ↦ ok tt
  ]

  abbrev pub report_of : Result (Unit {0}) → StatusOption
  report_of (err e) = with_error e
  report_of (ok _) = with_success

  -- The status that a request reports, given those that the two scoped handlers report.
  unfoldable pub handle_request :
      Marshal
      → ℕ
      → (Action → SessionObj → Result (Unit {0}))
      → (images scoped : SessionObj → Option StatusPatch) → SessionObj
      → Option StatusPatch
  handle_request json now run images others s = elim (route s.command) [
    | image_scoped ↦ images s
    | scoped ↦ others s
    | single ↦ set_operator_command_status json s now (report_of (handle_single_request run s) ∷ [])
  ]

  -- A command is handled as a whole exactly if it has no scope or is one of the configuration
  -- scans and schedules. It is a scoped image scan exactly if it has a scope, is the image scan
  -- command and is none of those.
  pub route_iff :
      (c : Command)
      → ((route c ≡ single) ↔ ((has_scope c ≡ false) ⊎ Memᴰ c.command_name unscoped_commands))
        × ((route c ≡ image_scoped) ↔ (
            (has_scope c ≡ true)
            × (c.command_name ≡ apis.scan_images)
            × (¬ Memᴰ c.command_name unscoped_commands)))
  unfolding route
  route_iff c =
      let m = contains_iff unscoped_commands c.command_name in
      let n = not-contains_iff unscoped_commands c.command_name in
      let e = eq_iff c.command_name apis.scan_images in
      elim (Bool-cases (contains unscoped_commands c.command_name)) [
        | inl y ↦ (
          (λ _. inr (m.0 y), λ _. ground (arith, y)),
          (λ h. absurd (ground (arith, y)), λ (_, _, k). absurd (k (m.0 y))),
        )
        | inr no_match ↦ (
          (
            λ h. inl (ground (arith, no_match)),
            λ h. elim h [ inl f ↦ ground (arith, f) | inr k ↦ absurd (n.0 no_match k) ],
          ),
          (
            λ h. (ground (arith, no_match), ground (arith, no_match, e), n.0 no_match),
            λ (f, g, _). ground (arith, f, g, e, no_match),
          ),
        )
      ]

abbrev namespace_attributes : String → List (Dict String) → List String
namespace_attributes key [] = []
namespace_attributes key (d ∷ rest) = elim (lookup key d) [
  | none ↦ namespace_attributes key rest
  | some ns ↦ ns ∷ namespace_attributes key rest
]

-- `wlid_namespace` is `GetNamespaceFromWlid` of the command's id, `key` the name of the namespace
-- attribute, and `all` the namespaces that the API lists.
unfoldable pub get_namespaces :
    String → String → Result (List String) → Command → Result (List String)
get_namespaces wlid_namespace key all c =
    if is_empty c.designators
    then ok (wlid_namespace ∷ [])
    else let named = namespace_attributes key c.designators in
      if is_empty named then all else ok named

-- What a startup action waits for (`isActionNeedToWait`).
pub data WaitsFor : Type 0 where
  vuln_scan kubescape nothing : WaitsFor

unfoldable pub is_action_need_to_wait : CommandNames → String → WaitsFor
is_action_need_to_wait apis n =
    if n == apis.run_kubescape
    then kubescape
    else if n == apis.scan_images
    then vuln_scan
    else nothing
