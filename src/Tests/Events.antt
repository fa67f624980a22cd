-- ===== src/Tests/Events.antt =====
-- The handlers of events, the profiles and the configuration, at concrete inputs.
use kontroller.Base.{ok, ℕ, ◌≤◌, ◌⊎◌, ◌≡◌, ◌↔◌, refl, true, false, some, [], ◌∷◌}
use kontroller.Utils.Status.{set_operator_command_status, StatusPatch, status_of, with_error}
use kontroller.Watcher.Event.{pod, modified, Event, SbomSyft, added, sbom_syft, Object}
use kontroller.Watcher.Sbom.{
  handle_sbom_event, handle_sbom_event_iff, IsScannableSbom, command_of_sbom, produces,
  is_handled_type,
}
use kontroller.Watcher.Feeds.{WorkloadEnv, HandledFrom, pod_watch, pod_watch_guarded}
use kontroller.Tests.Fixtures.{
  sample_pod, sample_config, sample_keys, sample_apis, sample_session, sample_json,
}

abbrev sample_sbom : SbomSyft
sample_sbom = record {
  name = "nginx";
  namespace = "kubescape";
  annotations =
      ("status", "ready") ∷ ("image-id", "nginx@sha256:1") ∷ ("image-tag", "nginx:1") ∷ [];
}

abbrev event_of : Object → Event
event_of o = record {
  type = added;
  gvk = record { group = ""; version = ""; kind = "" };
  object = o;
}

handle_sbom_event_iff_example :
    (handle_sbom_event sample_keys sample_apis (event_of (sbom_syft sample_sbom))
      ≡ produces (command_of_sbom sample_keys sample_apis sample_sbom))
    ↔ ((s : SbomSyft) × (sbom_syft sample_sbom ≡ sbom_syft s)
        × (is_handled_type added ≡ true)
        × IsScannableSbom sample_keys s
        × (command_of_sbom sample_keys sample_apis sample_sbom
            ≡ command_of_sbom sample_keys sample_apis s))
handle_sbom_event_iff_example =
    handle_sbom_event_iff sample_keys sample_apis (event_of (sbom_syft sample_sbom))
      (command_of_sbom sample_keys sample_apis sample_sbom)

abbrev sample_patch : StatusPatch
sample_patch = record { namespace = "kubescape"; name = "scan-now"; body = "status" }

reported_sample :
    set_operator_command_status sample_json sample_session 9 (with_error "refused" ∷ [])
    ≡ some sample_patch
unfolding set_operator_command_status status_of
reported_sample = refl

-- A pod without a parent, seen nine nanoseconds after it was created.
abbrev naked : WorkloadEnv
naked = record { to_unstructured = λ p. ok tt; has_parent = λ p. false }

naked_later :
    HandledFrom sample_config naked 9
      (pod_watch sample_config naked 9 (event_of (pod sample_pod)))
      sample_pod
      3600
unfolding pod_watch
naked_later = (refl, refl)

pod_watch_guarded_example :
    ((event_of (pod sample_pod)).object ≡ pod sample_pod)
    × ((added ≡ added) ⊎ (added ≡ modified))
    × (naked.has_parent sample_pod ≡ false → 3600 ≤ 3600)
    × (naked.has_parent sample_pod ≡ true → ◌≡◌ {A = ℕ} 3600 9)
    × (9 ≤ 3600)
pod_watch_guarded_example =
    pod_watch_guarded sample_config naked 9 (event_of (pod sample_pod)) sample_pod 3600 naked_later
