-- ===== src/Tests/Continuous.antt =====
-- Continuous scanning, at concrete inputs.
use kontroller.Base.{true, false, some, List, [], ◌∷◌, ok, ℕ, map, All, ◌≡◌, ◌↔◌}
use kontroller.Watcher.Event.{added, deleted}
use kontroller.ContinuousScanning.Watches.{
  Attempt, not_made, made, watch_closed, context_done, run, start, missing_calls,
}
use kontroller.ContinuousScanning.Watches.Forwarded.{events_of, IsMade, pool_lem}
use kontroller.ContinuousScanning.Targets.{ApiResourceMatch, GroupVersionResource}
use kontroller.ContinuousScanning.Handlers.{HandlerEnv, Resource, ResourceEvent, work}
use kontroller.ContinuousScanning.Handlers.Scans.{AreScans, scans_of, work-AreScans}

abbrev apps : ApiResourceMatch
apps = record {
  groups = "apps" ∷ [];
  versions = "v1" ∷ "v1beta1" ∷ [];
  resources = "deployments" ∷ "daemonsets" ∷ [];
}

abbrev daemon_sets : GroupVersionResource
daemon_sets = record { group = "apps"; version = "v1"; resource = "daemonsets" }

abbrev handler_env : HandlerEnv
handler_env = record {
  cluster = "prod";
  run_kubescape = "kubescapeScan";
  get_k8s_wlid = λ cluster ns kind name. name;
  new_scan_object = λ r. some r;
  to_unstructured = λ r. ok tt;
  resource_to_slug = λ r. ok r.name;
  delete_scan_answer = λ ns name. ok tt;
}

abbrev deployment : Resource
deployment = record { kind = "Deployment"; name = "web"; namespace = "shop"; has_parent = false }

abbrev owned_pod : Resource
owned_pod = record { kind = "Pod"; name = "web-1"; namespace = "shop"; has_parent = true }

abbrev resource_events : List ResourceEvent
resource_events =
    record { type = added; object = deployment }
    ∷ record { type = added; object = owned_pod }
    ∷ record { type = deleted; object = deployment }
    ∷ []

work-AreScans_example :
    AreScans handler_env resource_events (scans_of handler_env (work handler_env resource_events))
work-AreScans_example = work-AreScans handler_env resource_events

-- One watch that is made at the second attempt, closes and is made again, and one that is not made.
abbrev pool : List (List (Attempt ℕ))
pool =
    (not_made "timeout" ∷ made (1 ∷ 2 ∷ []) watch_closed ∷ made (3 ∷ []) context_done ∷ [])
    ∷ (not_made "forbidden" ∷ [])
    ∷ []

pool_lem_example :
    (map (λ tries. (run false tries start).out) pool ≡ map events_of pool)
    × ((missing_calls pool ≡ 0) ↔ All IsMade pool)
pool_lem_example = pool_lem pool
